-- ===== src/Policy/Handlers/Intact.antt =====
-- What the policy handlers keep of the tables, and who may change them.
use reflow_gateway.Base.{
  ℕ, ◌≡◌, ◌⊎◌, refl, Bool, true, false, not, inl, inr, Option, none, some, [], if◌then◌else◌,
}
use reflow_gateway.Base.Text.{Text, lit, ◌==◌}
use reflow_gateway.Policy.Store.{
  Tables, CreatePolicyRequest, UpdatePolicyRequest, CreateSubjectRequest, check_effect,
  check_subject,
}
use reflow_gateway.Policy.Store.Rows.{
  IsIntact, if_IsIntact, add_policy_subject-IsIntact, delete_policy_subject-IsIntact,
  delete_policy-IsIntact, update_policy-IsIntact, create_policy-IsIntact,
}
use reflow_gateway.Policy.Handlers.{
  PolicyAnswer, PolicyRequest, lists, creates, gets, updates, deletes, adds_subject,
  deletes_subject, admin_required, defaulted, handle_create_policy, handle_update_policy,
  handle_delete_policy, handle_add_subject, handle_delete_subject, serve_policies,
}

-- Intact rows, which are the old ones unless the caller is an admin.
abbrev pub Guarded : Bool → Tables → Tables → Type 0
Guarded admin t after = IsIntact after × ((after ≡ t) ⊎ (admin ≡ true))

-- The test that a handler that writes begins with.
admin_required-Guarded :
    (t : Tables) (admin : Bool) (done : PolicyAnswer × Tables)
    → IsIntact t
    → IsIntact done.1
    → Guarded admin t (if not admin then (admin_required, t) else done).1
admin_required-Guarded t true done h k = (k, inr refl)
admin_required-Guarded t false done h k = (h, inl refl)

handle_create_policy-Guarded :
    (role id : Text) (new_ids : ℕ → Text) (now : ℕ) (body : Option CreatePolicyRequest) (t : Tables)
    → IsIntact t
    → Guarded (role == lit "admin") t (handle_create_policy role id new_ids now body t).1
unfolding handle_create_policy
handle_create_policy-Guarded role id new_ids now none t h =
    admin_required-Guarded t (role == lit "admin") _ h h
handle_create_policy-Guarded role id new_ids now (some req) t h =
    admin_required-Guarded t (role == lit "admin") _ h (
      if_IsIntact (req.name == []) _ _ (λ _. h)
        (λ _.
          if_IsIntact (not (check_effect req.effect)) _ _ (λ _. h)
            (λ _. create_policy-IsIntact t id new_ids now (defaulted req) h)))

handle_update_policy-Guarded :
    (role : Text) (id : Option Text) (now : ℕ) (body : Option UpdatePolicyRequest) (t : Tables)
    → IsIntact t
    → Guarded (role == lit "admin") t (handle_update_policy role id now body t).1
unfolding handle_update_policy
handle_update_policy-Guarded role none now body t h =
    admin_required-Guarded t (role == lit "admin") _ h h
handle_update_policy-Guarded role (some id) now none t h =
    admin_required-Guarded t (role == lit "admin") _ h h
handle_update_policy-Guarded role (some id) now (some req) t h =
    admin_required-Guarded t (role == lit "admin") _ h (update_policy-IsIntact t id now req h)

handle_delete_policy-Guarded :
    (role : Text) (id : Option Text) (t : Tables)
    → IsIntact t
    → Guarded (role == lit "admin") t (handle_delete_policy role id t).1
unfolding handle_delete_policy
handle_delete_policy-Guarded role none t h = admin_required-Guarded t (role == lit "admin") _ h h
handle_delete_policy-Guarded role (some id) t h =
    admin_required-Guarded t (role == lit "admin") _ h (delete_policy-IsIntact t id h)

handle_add_subject-Guarded :
    (role : Text) (id : Option Text) (new_id : Text) (now : ℕ) (body : Option CreateSubjectRequest)
    (t : Tables)
    → IsIntact t
    → Guarded (role == lit "admin") t (handle_add_subject role id new_id now body t).1
unfolding handle_add_subject
handle_add_subject-Guarded role none new_id now body t h =
    admin_required-Guarded t (role == lit "admin") _ h h
handle_add_subject-Guarded role (some id) new_id now none t h =
    admin_required-Guarded t (role == lit "admin") _ h h
handle_add_subject-Guarded role (some id) new_id now (some req) t h =
    admin_required-Guarded t (role == lit "admin") _ h (
      if_IsIntact (not (check_subject req.subject_type)) _ _ (λ _. h)
        (λ _. add_policy_subject-IsIntact t new_id now id req h))

handle_delete_subject-Guarded :
    (role : Text) (id : Option Text) (t : Tables)
    → IsIntact t
    → Guarded (role == lit "admin") t (handle_delete_subject role id t).1
unfolding handle_delete_subject
handle_delete_subject-Guarded role none t h = admin_required-Guarded t (role == lit "admin") _ h h
handle_delete_subject-Guarded role (some id) t h =
    admin_required-Guarded t (role == lit "admin") _ h (delete_policy_subject-IsIntact t id h)

pub serve_policies-IsIntact :
    (precedes : Text → Text → Bool) (role : Text) (r : PolicyRequest) (t : Tables)
    → IsIntact t
    → Guarded (role == lit "admin") t (serve_policies precedes role r t).1
unfolding serve_policies
serve_policies-IsIntact precedes role lists t h = (h, inl refl)
serve_policies-IsIntact precedes role (creates id new_ids now body) t h =
    handle_create_policy-Guarded role id new_ids now body t h
serve_policies-IsIntact precedes role (gets id) t h = (h, inl refl)
serve_policies-IsIntact precedes role (updates id now body) t h =
    handle_update_policy-Guarded role id now body t h
serve_policies-IsIntact precedes role (deletes id) t h = handle_delete_policy-Guarded role id t h
serve_policies-IsIntact precedes role (adds_subject id new_id now body) t h =
    handle_add_subject-Guarded role id new_id now body t h
serve_policies-IsIntact precedes role (deletes_subject id) t h =
    handle_delete_subject-Guarded role id t h
