-- ===== src/Policy/Store.antt =====
-- The policy tables and the repository's operations on them:
-- backend/internal/database/repository.go, Authorization Policy and Policy Subject Operations.
-- The database answers every statement of an operation or none (`reachable`); ids and times are
-- drawn by the caller. A row of authorization_policies has no subjects: they are loaded apart.
pub mod Changes
pub mod Ranked
pub mod Rows
use reflow_gateway.Base.{
  ℕ, suc, Bool, true, false, not, ◌&&◌, ◌||◌, Option, none, some, List, [], ◌∷◌, ◌++◌, map, any,
  keep, if◌then◌else◌,
}
use reflow_gateway.Base.Int.{ℤ, le_int}
use reflow_gateway.Base.Text.{Text, lit, ◌==◌}
use reflow_gateway.Base.Results.{Result, ok, err, not_found, failure}
use reflow_gateway.Policy.{AuthorizationPolicy, PolicySubject}

pub record Tables : Type 0 where
  pub authorization_policies : List AuthorizationPolicy
  pub policy_subjects : List PolicySubject
  pub reachable : Bool

pub record CreateSubjectRequest : Type 0 where
  pub subject_type : Text
  pub subject_value : Option Text

pub record CreatePolicyRequest : Type 0 where
  pub name : Text
  pub description : Text
  pub target_id : Option Text
  pub resource_type : Text
  pub resource_pattern : Option Text
  pub effect : Text
  pub priority : ℤ
  pub enabled : Option Bool
  pub subjects : List CreateSubjectRequest

pub record UpdatePolicyRequest : Type 0 where
  pub name : Option Text
  pub description : Option Text
  pub target_id : Option Text
  pub resource_type : Option Text
  pub resource_pattern : Option Text
  pub effect : Option Text
  pub priority : Option ℤ
  pub enabled : Option Bool

abbrev pub unreachable {ℓ} : {A : Type ℓ} → Result A
unreachable = err (failure (lit "connection refused"))

-- CHECK (effect IN ('allow', 'deny')) of authorization_policies.
unfoldable pub check_effect : Text → Bool
check_effect effect = effect == lit "allow" || effect == lit "deny"

abbrev pub check_violated {ℓ} : {A : Type ℓ} → Result A
check_violated = err (failure (lit "violates check constraint"))

-- A failed statement changes nothing.
abbrev pub on_tables {ℓ} : {A : Type ℓ} → Tables → Result A × Tables → Result A × Tables
on_tables t (r, t') = if t.reachable then (r, t') else (unreachable, t)

-- The subjects of one policy.
unfoldable pub subjects_of : Tables → Text → List PolicySubject
subjects_of t policy_id = keep (λ s. s.policy_id == policy_id) t.policy_subjects

unfoldable pub get_policy_subjects : Tables → Text → Result (List PolicySubject)
get_policy_subjects t policy_id = if t.reachable then ok (subjects_of t policy_id) else unreachable

unfoldable pub with_subjects : Tables → AuthorizationPolicy → AuthorizationPolicy
with_subjects t p = record p { subjects = subjects_of t p.id }

-- WHERE enabled = true AND (target_id IS NULL OR target_id = $1)
unfoldable pub selected : Option Text → AuthorizationPolicy → Bool
selected wanted p =
    p.enabled
    && elim p.target_id [ none ↦ true | some t ↦ elim wanted [ none ↦ false | some w ↦ t == w ] ]

-- ORDER BY priority DESC, by insertion: one of the orders that the database may pick.
unfoldable pub place : AuthorizationPolicy → List AuthorizationPolicy → List AuthorizationPolicy
place p [] = p ∷ []
place p (q ∷ qs) = if le_int q.priority p.priority then p ∷ q ∷ qs else q ∷ place p qs

unfoldable pub order_by_priority : List AuthorizationPolicy → List AuthorizationPolicy
order_by_priority [] = []
order_by_priority (p ∷ ps) = place p (order_by_priority ps)

unfoldable pub get_policies_for_target : Tables → Option Text → Result (List AuthorizationPolicy)
get_policies_for_target t wanted =
    if t.reachable
    then ok (
        map (with_subjects t) (order_by_priority (keep (selected wanted) t.authorization_policies)))
    else unreachable

-- ORDER BY priority DESC, name; `precedes` is the collation of the database.
unfoldable pub place_named :
    (Text → Text → Bool) → AuthorizationPolicy → List AuthorizationPolicy → List AuthorizationPolicy
place_named precedes p [] = p ∷ []
place_named precedes p (q ∷ qs) =
    let rest = place_named precedes p qs in
    if le_int q.priority p.priority
      && (not (le_int p.priority q.priority) || not (precedes q.name p.name))
    then p ∷ q ∷ qs
    else q ∷ rest

unfoldable pub order_by_name :
    (Text → Text → Bool) → List AuthorizationPolicy → List AuthorizationPolicy
order_by_name precedes [] = []
order_by_name precedes (p ∷ ps) = place_named precedes p (order_by_name precedes ps)

unfoldable pub get_all_policies : (Text → Text → Bool) → Tables → Result (List AuthorizationPolicy)
get_all_policies precedes t =
    if t.reachable
    then ok (map (with_subjects t) (order_by_name precedes t.authorization_policies))
    else unreachable

unfoldable pub find_policy : Text → List AuthorizationPolicy → Option AuthorizationPolicy
find_policy id [] = none
find_policy id (p ∷ ps) = if p.id == id then some p else find_policy id ps

unfoldable pub get_policy_by_id : Tables → Text → Result AuthorizationPolicy
get_policy_by_id t id =
    if t.reachable
    then elim (find_policy id t.authorization_policies) [
      | none ↦ err not_found
      | some p ↦ ok (with_subjects t p)
    ]
    else unreachable

or_empty : Option Text → Text
or_empty none = []
or_empty (some v) = v

-- The key of the unique index on policy_subjects.
unfoldable pub same_subject : Text → CreateSubjectRequest → PolicySubject → Bool
unfolding or_empty
same_subject policy_id req s =
    s.policy_id == policy_id
    && s.subject_type == req.subject_type
    && or_empty s.subject_value == or_empty req.subject_value

-- CHECK (subject_type IN ('user', 'role', 'group', 'everyone')) of policy_subjects.
unfoldable pub check_subject : Text → Bool
check_subject kind =
    kind == lit "user" || kind == lit "role" || kind == lit "group" || kind == lit "everyone"

-- policy_id REFERENCES authorization_policies(id).
unfoldable pub has_policy : Text → List AuthorizationPolicy → Bool
has_policy policy_id ps = any (λ p. p.id == policy_id) ps

-- INSERT … ON CONFLICT DO NOTHING; the subject is returned in either case.
unfoldable pub add_policy_subject :
    Tables → Text → ℕ → Text → CreateSubjectRequest → Result PolicySubject × Tables
add_policy_subject t new_id now policy_id req =
    let subject : PolicySubject = record {
      id = new_id;
      policy_id = policy_id;
      subject_type = req.subject_type;
      subject_value = req.subject_value;
      created_at = now;
    } in
    on_tables t (
      if not (check_subject req.subject_type)
      then (check_violated, t)
      else if any (same_subject policy_id req) t.policy_subjects
      then (ok subject, t)
      else if not (has_policy policy_id t.authorization_policies)
      then (err (failure (lit "violates foreign key constraint")), t)
      else (ok subject, record t { policy_subjects = t.policy_subjects ++ subject ∷ [] }))

unfoldable pub delete_policy_subject : Tables → Text → Result (Unit {0}) × Tables
delete_policy_subject t subject_id = on_tables t (
    if any (λ s. s.id == subject_id) t.policy_subjects
    then (
      ok tt,
      record t { policy_subjects = keep (λ s. not (s.id == subject_id)) t.policy_subjects },
    )
    else (err not_found, t))

-- The row goes with its subjects: ON DELETE CASCADE.
unfoldable pub delete_policy : Tables → Text → Result (Unit {0}) × Tables
delete_policy t id = on_tables t (
    if any (λ p. p.id == id) t.authorization_policies
    then (
      ok tt,
      record t {
        authorization_policies = keep (λ p. not (p.id == id)) t.authorization_policies;
        policy_subjects = keep (λ s. not (s.policy_id == id)) t.policy_subjects;
      },
    )
    else (err not_found, t))
