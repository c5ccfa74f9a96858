-- ===== src/Tests/PolicyTests.antt =====
-- Requests to the policy handlers over the tables of Fixtures.
use reflow_gateway.Base.{ℕ, ◌≡◌, refl, true, false, Bool, none, some, [], ◌∷◌}
use reflow_gateway.Base.Int.{pos}
use reflow_gateway.Base.Text.{Text, lit, ◌==◌}
use reflow_gateway.Policy.{AuthorizationPolicy}
use reflow_gateway.Policy.Store.{
  Tables, CreatePolicyRequest, check_effect, check_subject, has_policy, subjects_of, with_subjects,
  same_subject, add_policy_subject, get_all_policies, order_by_name, place_named,
}
use reflow_gateway.Policy.Store.Changes.{add_policy_subjects, create_policy}
use reflow_gateway.Policy.Handlers.{
  PolicyRequest, refused, policies_sent, lists, creates, adds_subject, handle_create_policy,
  handle_add_subject, list_policies, serve_policies,
}
use reflow_gateway.Policy.Handlers.Intact.{Guarded, serve_policies-IsIntact}
use reflow_gateway.Tests.Fixtures.{policy, tables}

-- A collation that orders no names.
abbrev unordered : Text → Text → Bool
unordered a b = false

abbrev wanted : Text → CreatePolicyRequest
wanted kind = record {
  name = lit "P";
  description = [];
  target_id = none;
  resource_type = [];
  resource_pattern = none;
  effect = lit "deny";
  priority = pos 5;
  enabled = none;
  subjects = record { subject_type = kind; subject_value = none } ∷ [];
}

abbrev bare : Tables
bare = record { authorization_policies = []; policy_subjects = []; reachable = true }

abbrev create : Text → PolicyRequest
create kind = creates (lit "p9") (λ n. lit "s9") 0 (some (wanted kind))

-- A request without a resource type is for all of them.
created_for_all :
    (serve_policies unordered (lit "admin") (create (lit "user")) bare).1.authorization_policies
    ≡ policy (lit "p9") (lit "P") (lit "all") (lit "deny") 5 ∷ []
unfolding serve_policies handle_create_policy create_policy add_policy_subjects add_policy_subject
    check_effect check_subject has_policy lit ◌==◌
created_for_all = refl

-- A subject that the table refuses fails the request, but the policy stays, without subjects.
created_in_part : serve_policies unordered (lit "admin") (create (lit "team")) bare ≡ (
  refused 500 (lit "Failed to create policy"),
  record bare {
    authorization_policies = policy (lit "p9") (lit "P") (lit "all") (lit "deny") 5 ∷ [];
  },
)
unfolding serve_policies handle_create_policy create_policy add_policy_subjects add_policy_subject
    check_effect check_subject has_policy lit ◌==◌
created_in_part = refl

-- A row without subjects, and two of them.
abbrev row : Text → ℕ → AuthorizationPolicy
row id priority = policy id (lit "P") (lit "all") (lit "deny") priority

abbrev two : Tables
two = record bare { authorization_policies = row (lit "p1") 1 ∷ row (lit "p2") 2 ∷ [] }

-- The list has the higher priority first.
listed :
    (serve_policies unordered (lit "user") lists two).0
    ≡ policies_sent (row (lit "p2") 2 ∷ row (lit "p1") 1 ∷ [])
unfolding serve_policies list_policies get_all_policies order_by_name place_named with_subjects
    subjects_of lit ◌==◌
listed = refl

-- A subject of a policy that does not exist.
no_such_policy :
    (serve_policies unordered
      (lit "admin")
      (adds_subject
        (some (lit "p7"))
        (lit "s7")
        0
        (some record { subject_type = lit "everyone"; subject_value = none }))
      tables).0
    ≡ refused 500 (lit "Failed to add subject")
unfolding serve_policies handle_add_subject add_policy_subject check_subject has_policy same_subject
    lit ◌==◌
no_such_policy = refl

serve_policies-IsIntact_example :
    Guarded true tables (serve_policies unordered (lit "admin") (create (lit "user")) tables).1
unfolding check_effect check_subject has_policy lit ◌==◌
serve_policies-IsIntact_example =
    serve_policies-IsIntact unordered (lit "admin") (create (lit "user")) tables
      ((refl, (refl, (refl, tt))), ((refl, refl), ((refl, refl), ((refl, refl), tt))))
