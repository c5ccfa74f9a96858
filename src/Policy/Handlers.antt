-- ===== src/Policy/Handlers.antt =====
-- The handlers of authorization policies, backend/internal/api/policy_handlers.go, over the tables
-- of Policy.Store. An id in the path that is no UUID and a body that does not decode are none; the
-- ids of new rows and the time are arguments.
pub mod Intact
use reflow_gateway.Base.{
  ℕ, Bool, false, not, ◌||◌, Option, none, some, List, [], ◌∷◌, if◌then◌else◌,
}
use reflow_gateway.Base.Text.{Text, lit, ◌==◌}
use reflow_gateway.Base.Results.{Error, Result, ok, err, not_found, failure}
use reflow_gateway.Policy.{AuthorizationPolicy, PolicySubject}
use reflow_gateway.Policy.Store.{
  Tables, CreatePolicyRequest, UpdatePolicyRequest, CreateSubjectRequest, check_effect,
  check_subject, get_all_policies, get_policy_by_id, delete_policy, add_policy_subject,
  delete_policy_subject,
}
use reflow_gateway.Policy.Store.Changes.{create_policy, update_policy}

pub data PolicyAnswer : Type 0 where
  refused : ℕ → Text → PolicyAnswer
  policies_sent : List AuthorizationPolicy → PolicyAnswer
  policy_sent : ℕ → AuthorizationPolicy → PolicyAnswer
  subject_sent : PolicySubject → PolicyAnswer
  status_no_content : PolicyAnswer

-- A request to one of the routes under /policies.
pub data PolicyRequest : Type 0 where
  lists : PolicyRequest
  creates : Text → (ℕ → Text) → ℕ → Option CreatePolicyRequest → PolicyRequest
  gets : Option Text → PolicyRequest
  updates : Option Text → ℕ → Option UpdatePolicyRequest → PolicyRequest
  deletes : Option Text → PolicyRequest
  adds_subject : Option Text → Text → ℕ → Option CreateSubjectRequest → PolicyRequest
  deletes_subject : Option Text → PolicyRequest

abbrev pub admin_required : PolicyAnswer
admin_required = refused 403 (lit "Admin access required")

-- The answer to an error of the repository: 404 for a missing row, or else 500.
unfoldable pub error_answer : Text → Text → Error → PolicyAnswer
error_answer missing failed not_found = refused 404 missing
error_answer missing failed (failure m) = refused 500 failed

unfoldable pub list_policies : (Text → Text → Bool) → Tables → PolicyAnswer
list_policies precedes t = elim (get_all_policies precedes t) [
  | err e ↦ refused 500 (lit "Failed to get policies")
  | ok ps ↦ policies_sent ps
]

abbrev pub defaulted : CreatePolicyRequest → CreatePolicyRequest
defaulted req = record req {
  resource_type = (if req.resource_type == [] then lit "all" else req.resource_type);
}

unfoldable pub handle_create_policy :
    Text → Text → (ℕ → Text) → ℕ → Option CreatePolicyRequest → Tables → PolicyAnswer × Tables
handle_create_policy role id new_ids now body t =
    if not (role == lit "admin") then (admin_required, t) else elim body [
      | none ↦ (refused 400 (lit "Invalid request body"), t)
      | some req ↦
          if req.name == []
          then (refused 400 (lit "Name is required"), t)
          else if not (check_effect req.effect)
          then (refused 400 (lit "Effect must be 'allow' or 'deny'"), t)
          else (
            elim (create_policy t id new_ids now (defaulted req)).0 [
              | err e ↦ refused 500 (lit "Failed to create policy")
              | ok p ↦ policy_sent 201 p
            ],
            (create_policy t id new_ids now (defaulted req)).1,
          )
    ]

unfoldable pub handle_get_policy : Option Text → Tables → PolicyAnswer
handle_get_policy none t = refused 400 (lit "Invalid policy ID")
handle_get_policy (some id) t = elim (get_policy_by_id t id) [
  | err e ↦ error_answer (lit "Policy not found") (lit "Failed to get policy") e
  | ok p ↦ policy_sent 200 p
]

unfoldable pub handle_update_policy :
    Text → Option Text → ℕ → Option UpdatePolicyRequest → Tables → PolicyAnswer × Tables
handle_update_policy role id now body t =
    if not (role == lit "admin") then (admin_required, t) else elim id [
      | none ↦ (refused 400 (lit "Invalid policy ID"), t)
      | some policy_id ↦ elim body [
        | none ↦ (refused 400 (lit "Invalid request body"), t)
        | some req ↦ (
          elim (update_policy t policy_id now req).0 [
            | err e ↦ error_answer (lit "Policy not found") (lit "Failed to update policy") e
            | ok p ↦ policy_sent 200 p
          ],
          (update_policy t policy_id now req).1,
        )
      ]
    ]

-- A deletion, which sends no body.
abbrev pub deleted : Text → Text → Result (Unit {0}) × Tables → PolicyAnswer × Tables
deleted missing failed done =
    (elim done.0 [ err e ↦ error_answer missing failed e | ok _ ↦ status_no_content ], done.1)

unfoldable pub handle_delete_policy : Text → Option Text → Tables → PolicyAnswer × Tables
handle_delete_policy role id t =
    if not (role == lit "admin") then (admin_required, t) else elim id [
      | none ↦ (refused 400 (lit "Invalid policy ID"), t)
      | some policy_id ↦
          deleted (lit "Policy not found") (lit "Failed to delete policy")
            (delete_policy t policy_id)
    ]

unfoldable pub handle_add_subject :
    Text → Option Text → Text → ℕ → Option CreateSubjectRequest → Tables → PolicyAnswer × Tables
handle_add_subject role id new_id now body t =
    if not (role == lit "admin") then (admin_required, t) else elim id [
      | none ↦ (refused 400 (lit "Invalid policy ID"), t)
      | some policy_id ↦ elim body [
        | none ↦ (refused 400 (lit "Invalid request body"), t)
        | some req ↦
            if not (check_subject req.subject_type)
            then (refused 400 (lit "Invalid subject type"), t)
            else (
              elim (add_policy_subject t new_id now policy_id req).0 [
                | err e ↦ refused 500 (lit "Failed to add subject")
                | ok s ↦ subject_sent s
              ],
              (add_policy_subject t new_id now policy_id req).1,
            )
      ]
    ]

unfoldable pub handle_delete_subject : Text → Option Text → Tables → PolicyAnswer × Tables
handle_delete_subject role id t =
    if not (role == lit "admin") then (admin_required, t) else elim id [
      | none ↦ (refused 400 (lit "Invalid subject ID"), t)
      | some subject_id ↦
          deleted (lit "Subject not found") (lit "Failed to delete subject")
            (delete_policy_subject t subject_id)
    ]

-- The routes, for a caller with a role.
unfoldable pub serve_policies :
    (Text → Text → Bool) → Text → PolicyRequest → Tables → PolicyAnswer × Tables
serve_policies precedes role lists t = (list_policies precedes t, t)
serve_policies precedes role (creates id new_ids now body) t =
    handle_create_policy role id new_ids now body t
serve_policies precedes role (gets id) t = (handle_get_policy id t, t)
serve_policies precedes role (updates id now body) t = handle_update_policy role id now body t
serve_policies precedes role (deletes id) t = handle_delete_policy role id t
serve_policies precedes role (adds_subject id new_id now body) t =
    handle_add_subject role id new_id now body t
serve_policies precedes role (deletes_subject id) t = handle_delete_subject role id t
