-- ===== src/Policy/Store/Changes.antt =====
-- Making and changing policies: CreatePolicy and UpdatePolicy of
-- backend/internal/database/repository.go.
use reflow_gateway.Base.Int.{ℤ, pos, negsuc, le_int}
use reflow_gateway.Base.{
  not, Bool, ◌&&◌, ◌^◌, ◌-◌, or_keep, ℕ, suc, true, Option, none, some, List, [], ◌∷◌, ◌++◌,
  if◌then◌else◌,
}
use reflow_gateway.Base.Text.{Text, lit, ◌==◌}
use reflow_gateway.Base.Results.{Result, ok, err, failure}
use reflow_gateway.Policy.{AuthorizationPolicy}
use reflow_gateway.Policy.Store.{
  Tables, CreateSubjectRequest, CreatePolicyRequest, UpdatePolicyRequest, check_effect,
  check_violated, on_tables, get_policy_by_id, add_policy_subject,
}

-- The column priority is a 32-bit INTEGER.
abbrev pub is_int4 : ℤ → Bool
is_int4 n = le_int (negsuc (2 ^ 31 - 1)) n && le_int n (pos (2 ^ 31 - 1))

abbrev pub out_of_range {ℓ} : {A : Type ℓ} → Result A
out_of_range = err (failure (lit "integer out of range"))

abbrev or_keep_option {ℓ} : {A : Type ℓ} → Option A → Option A → Option A
or_keep_option none old = old
or_keep_option (some new) old = some new

-- The fields that the request gives replace the policy's.
unfoldable pub edit_policy : UpdatePolicyRequest → ℕ → AuthorizationPolicy → AuthorizationPolicy
edit_policy req now p = record p {
  name = or_keep req.name p.name;
  description = or_keep req.description p.description;
  target_id = or_keep_option req.target_id p.target_id;
  resource_type = or_keep req.resource_type p.resource_type;
  resource_pattern = or_keep_option req.resource_pattern p.resource_pattern;
  effect = or_keep req.effect p.effect;
  priority = or_keep req.priority p.priority;
  enabled = or_keep req.enabled p.enabled;
  updated_at = now;
}

unfoldable pub replace_policy :
    Text
    → (AuthorizationPolicy → AuthorizationPolicy)
    → List AuthorizationPolicy
    → List AuthorizationPolicy
replace_policy id f [] = []
replace_policy id f (p ∷ ps) = (if p.id == id then f p else p) ∷ replace_policy id f ps

unfoldable pub update_policy :
    Tables → Text → ℕ → UpdatePolicyRequest → Result AuthorizationPolicy × Tables
update_policy t id now req = elim (get_policy_by_id t id) [
  | err e ↦ (err e, t)
  | ok p ↦
      (if not (is_int4 (edit_policy req now p).priority)
        then (out_of_range, t)
        else if check_effect (edit_policy req now p).effect
        then (
          ok (edit_policy req now p),
          record t {
            authorization_policies =
                replace_policy id (edit_policy req now) t.authorization_policies;
          },
        )
        else (check_violated, t))
]

-- The loop over the request's subjects; it stops at the first error.
unfoldable pub add_policy_subjects :
    Tables → (ℕ → Text) → ℕ → Text → List CreateSubjectRequest → Result (Unit {0}) × Tables
add_policy_subjects t new_ids now policy_id [] = (ok tt, t)
add_policy_subjects t new_ids now policy_id (r ∷ rs) =
    let (added, t') = add_policy_subject t (new_ids 0) now policy_id r in
    let rest = add_policy_subjects t' (λ n. new_ids (suc n)) now policy_id rs in
    elim added [ err e ↦ (err e, t') | ok s ↦ rest ]

abbrev pub new_policy : Text → ℕ → CreatePolicyRequest → AuthorizationPolicy
new_policy id now req = record {
  id = id;
  name = req.name;
  description = req.description;
  target_id = req.target_id;
  resource_type = req.resource_type;
  resource_pattern = req.resource_pattern;
  effect = req.effect;
  priority = req.priority;
  enabled = or_keep req.enabled true;
  subjects = [];
  created_at = now;
  updated_at = now;
}

-- INSERT the row, add the subjects, and read the policy back.
unfoldable pub create_policy :
    Tables → Text → (ℕ → Text) → ℕ → CreatePolicyRequest → Result AuthorizationPolicy × Tables
create_policy t id new_ids now req =
    let inserted : Tables = record t {
      authorization_policies = t.authorization_policies ++ new_policy id now req ∷ [];
    } in
    let (added, t') = add_policy_subjects inserted new_ids now id req.subjects in
    on_tables t (
      if not (is_int4 req.priority)
      then (out_of_range, t)
      else if check_effect req.effect
      then elim added [ err e ↦ (err e, t') | ok _ ↦ (get_policy_by_id t' id, t') ]
      else (check_violated, t))
