-- ===== src/Policy/Store/Rows.antt =====
-- The constraints on the rows of the policy tables, and that every operation of
-- backend/internal/database/repository.go on them keeps these.
use reflow_gateway.Base.{
  ℕ, suc, ◌≡◌, refl, arith, Bool, true, false, not, Bool-cases, inl, inr, Option-cases, List, [],
  ◌∷◌, ◌++◌, any, any-append, keep, All, All-append, if◌then◌else◌,
}
use reflow_gateway.Base.Text.{Text, ◌==◌, ==_iff}
use reflow_gateway.Base.Results.{Result, Result-cases}
use reflow_gateway.Policy.{AuthorizationPolicy, PolicySubject}
use reflow_gateway.Policy.Store.{
  Tables, on_tables, CreatePolicyRequest, UpdatePolicyRequest, CreateSubjectRequest, check_effect,
  check_subject, has_policy, same_subject, get_policy_by_id, add_policy_subject, delete_policy,
  delete_policy_subject,
}
use reflow_gateway.Policy.Store.Changes.{
  new_policy, edit_policy, is_int4, replace_policy, add_policy_subjects, create_policy,
  update_policy,
}

abbrev pub IsRow : AuthorizationPolicy → Type 0
IsRow p = check_effect p.effect ≡ true

-- A subject of a known type, of one of the policies.
abbrev pub IsOwned : List AuthorizationPolicy → PolicySubject → Type 0
IsOwned ps s = (check_subject s.subject_type ≡ true) × (has_policy s.policy_id ps ≡ true)

abbrev pub IsIntact : Tables → Type 0
IsIntact t =
    All IsRow t.authorization_policies × All (IsOwned t.authorization_policies) t.policy_subjects

All-kept {ℓ κ} :
    {A : Type ℓ} (P : A → Type κ) (p : A → Bool) (xs : List A) → All P xs → All P (keep p xs)
All-kept P p [] h = tt
All-kept P p (x ∷ xs) h = elim (Bool-cases (p x)) [
  | inl e ↦ rw e (h.0, All-kept P p xs h.1)
  | inr e ↦ rw e (All-kept P p xs h.1)
]

All-widen {ℓ κ} :
    {A : Type ℓ} (P Q : A → Type κ) → ((x : A) → P x → Q x) → (xs : List A) → All P xs → All Q xs
All-widen P Q f [] h = tt
All-widen P Q f (x ∷ xs) h = (f x h.0, All-widen P Q f xs h.1)

-- Both branches of a test keep the rows.
pub if_IsIntact :
    {A : Type 0} (b : Bool) (x y : A × Tables)
    → (b ≡ true → IsIntact x.1)
    → (b ≡ false → IsIntact y.1)
    → IsIntact (if b then x else y).1
if_IsIntact true x y h k = h refl
if_IsIntact false x y h k = k refl

on_tables-IsIntact :
    {A : Type 0} (t : Tables) (r : Result A × Tables)
    → IsIntact t
    → IsIntact r.1
    → IsIntact (on_tables t r).1
on_tables-IsIntact t r h k = if_IsIntact t.reachable r _ (λ _. k) (λ _. h)

pub add_policy_subject-IsIntact :
    (t : Tables) (new_id : Text) (now : ℕ) (policy_id : Text) (req : CreateSubjectRequest)
    → IsIntact t
    → IsIntact (add_policy_subject t new_id now policy_id req).1
unfolding add_policy_subject
add_policy_subject-IsIntact t new_id now policy_id req h = on_tables-IsIntact t _ h (
    if_IsIntact (not (check_subject req.subject_type)) _ _ (λ _. h)
      (λ known.
        if_IsIntact (any (same_subject policy_id req) t.policy_subjects) _ _ (λ _. h)
          (λ _.
            if_IsIntact (not (has_policy policy_id t.authorization_policies)) _ _ (λ _. h)
              (λ owned.
                (h.0, All-append _ t.policy_subjects _ h.1 ((ground arith, ground arith), tt))))))

pub delete_policy_subject-IsIntact :
    (t : Tables) (subject_id : Text) → IsIntact t → IsIntact (delete_policy_subject t subject_id).1
unfolding delete_policy_subject
delete_policy_subject-IsIntact t subject_id h = on_tables-IsIntact t _ h (
    if_IsIntact (any (λ s. s.id == subject_id) t.policy_subjects) _ _
      (λ _. (h.0, All-kept _ _ t.policy_subjects h.1)) (λ _. h))

-- A policy with another id is still there when one is deleted.
has_policy-keep :
    (id a : Text) (ps : List AuthorizationPolicy)
    → (a == id) ≡ false
    → has_policy a ps ≡ true
    → has_policy a (keep (λ p. not (p.id == id)) ps) ≡ true
unfolding has_policy
has_policy-keep id a [] ne h = h
has_policy-keep id a (p ∷ ps) ne h = elim (Bool-cases (p.id == a)) [
  | inl e ↦
      let same = (==_iff p.id a).0 e in
      let kept : (p.id == id) ≡ false = rw same ne in rw kept (ground arith)
  | inr e ↦
      let later = has_policy-keep id a ps ne (ground arith) in
      elim (Bool-cases (p.id == id)) [ inl k ↦ rw k later | inr k ↦ rw k (ground (arith, later)) ]
]

IsOwned-keep :
    (id : Text) (ps : List AuthorizationPolicy) (ss : List PolicySubject)
    → All (IsOwned ps) ss
    → All (IsOwned (keep (λ p. not (p.id == id)) ps)) (keep (λ s. not (s.policy_id == id)) ss)
IsOwned-keep id ps [] h = tt
IsOwned-keep id ps (s ∷ ss) h = elim (Bool-cases (s.policy_id == id)) [
  | inl e ↦ rw e (IsOwned-keep id ps ss h.1)
  | inr e ↦ rw e ((h.0.0, has_policy-keep id s.policy_id ps e h.0.1), IsOwned-keep id ps ss h.1)
]

pub delete_policy-IsIntact : (t : Tables) (id : Text) → IsIntact t → IsIntact (delete_policy t id).1
unfolding delete_policy
delete_policy-IsIntact t id h = on_tables-IsIntact t _ h (
    if_IsIntact (any (λ p. p.id == id) t.authorization_policies) _ _
      (λ _. (
        All-kept _ _ t.authorization_policies h.0,
        IsOwned-keep id t.authorization_policies t.policy_subjects h.1,
      ))
      (λ _. h))

replace_policy-has_policy :
    (id a : Text) (now : ℕ) (req : UpdatePolicyRequest) (ps : List AuthorizationPolicy)
    → has_policy a (replace_policy id (edit_policy req now) ps) ≡ has_policy a ps
unfolding replace_policy edit_policy has_policy
replace_policy-has_policy id a now req [] = refl
replace_policy-has_policy id a now req (p ∷ ps) =
    ground (arith, replace_policy-has_policy id a now req ps)

replace_policy-IsOwned :
    (id : Text) (now : ℕ) (req : UpdatePolicyRequest) (ps : List AuthorizationPolicy)
    (s : PolicySubject)
    → IsOwned ps s
    → IsOwned (replace_policy id (edit_policy req now) ps) s
replace_policy-IsOwned id now req ps s h =
    (h.0, rw (replace_policy-has_policy id s.policy_id now req ps) h.1)

-- A request whose effect is allowed for one row is allowed for all.
edit_policy-IsRow :
    (req : UpdatePolicyRequest) (now : ℕ) (p q : AuthorizationPolicy)
    → check_effect (edit_policy req now p).effect ≡ true
    → IsRow q
    → IsRow (edit_policy req now q)
unfolding edit_policy
edit_policy-IsRow req now p q h k = elim (Option-cases req.effect) [
  | inl e ↦ rw e k
  | inr (v, e) ↦ rw e (rw e at h)
]

replace_policy-IsRow :
    (id : Text) (now : ℕ) (req : UpdatePolicyRequest) (p : AuthorizationPolicy)
    (ps : List AuthorizationPolicy)
    → check_effect (edit_policy req now p).effect ≡ true
    → All IsRow ps
    → All IsRow (replace_policy id (edit_policy req now) ps)
unfolding replace_policy
replace_policy-IsRow id now req p [] h k = tt
replace_policy-IsRow id now req p (q ∷ qs) h k =
    let later = replace_policy-IsRow id now req p qs h k.1 in
    elim (Bool-cases (q.id == id)) [
      | inl e ↦ rw e (edit_policy-IsRow req now p q h k.0, later)
      | inr e ↦ rw e (k.0, later)
    ]

pub update_policy-IsIntact :
    (t : Tables) (id : Text) (now : ℕ) (req : UpdatePolicyRequest)
    → IsIntact t
    → IsIntact (update_policy t id now req).1
unfolding update_policy
update_policy-IsIntact t id now req h = elim (Result-cases (get_policy_by_id t id)) [
  | inl (e, r) ↦ rw (r, update_policy) h
  | inr (p, r) ↦
      rw (r, update_policy)
        (if_IsIntact (not (is_int4 (edit_policy req now p).priority)) _ _ (λ _. h)
          (λ _.
            if_IsIntact (check_effect (edit_policy req now p).effect) _ _
              (λ allowed. (
                replace_policy-IsRow id now req p t.authorization_policies allowed h.0,
                All-widen _ _ (replace_policy-IsOwned id now req t.authorization_policies)
                    t.policy_subjects h.1,
              ))
              (λ _. h)))
]

add_policy_subjects-IsIntact :
    (t : Tables) (new_ids : ℕ → Text) (now : ℕ) (policy_id : Text) (rs : List CreateSubjectRequest)
    → IsIntact t
    → IsIntact (add_policy_subjects t new_ids now policy_id rs).1
unfolding add_policy_subjects
add_policy_subjects-IsIntact t new_ids now policy_id [] h = h
add_policy_subjects-IsIntact t new_ids now policy_id (r ∷ rs) h =
    let first = add_policy_subject-IsIntact t (new_ids 0) now policy_id r h in
    elim (Result-cases (add_policy_subject t (new_ids 0) now policy_id r).0) [
      | inl (e, a) ↦ rw (a, add_policy_subjects) first
      | inr (s, a) ↦
          rw (a, add_policy_subjects)
            (add_policy_subjects-IsIntact (add_policy_subject t (new_ids 0) now policy_id r).1
              (λ n. new_ids (suc n)) now policy_id rs first)
    ]

has_policy-more :
    (a : Text) (ps qs : List AuthorizationPolicy)
    → has_policy a ps ≡ true
    → has_policy a (ps ++ qs) ≡ true
unfolding has_policy
has_policy-more a ps qs h = ground (arith, any-append (λ p. p.id == a) ps qs)

pub create_policy-IsIntact :
    (t : Tables) (id : Text) (new_ids : ℕ → Text) (now : ℕ) (req : CreatePolicyRequest)
    → IsIntact t
    → IsIntact (create_policy t id new_ids now req).1
unfolding create_policy
create_policy-IsIntact t id new_ids now req h =
    let inserted : Tables = record t {
      authorization_policies = t.authorization_policies ++ new_policy id now req ∷ [];
    } in
    on_tables-IsIntact t _ h (
      if_IsIntact (not (is_int4 req.priority)) _ _ (λ _. h)
        (λ _.
          if_IsIntact (check_effect req.effect) _ _
            (λ allowed.
              let loaded = add_policy_subjects-IsIntact inserted new_ids now id req.subjects (
                All-append _ t.authorization_policies _ h.0 (allowed, tt),
                All-widen _ _
                    (λ s o. (o.0, has_policy-more s.policy_id t.authorization_policies _ o.1))
                    t.policy_subjects h.1,
              ) in
              elim (Result-cases (add_policy_subjects inserted new_ids now id req.subjects).0) [
                | inl (e, a) ↦ rw a loaded
                | inr (s, a) ↦ rw a loaded
              ])
            (λ _. h)))
