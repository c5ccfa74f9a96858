-- ===== src/Policy/Store/Ranked.antt =====
-- What `GetPoliciesForTarget` (backend/internal/database/repository.go) returns.
use reflow_gateway.Base.{
  ◌≡◌, ◌↔◌, ◌⊎◌, inl, inr, true, false, Option, List, [], ◌∷◌, map, keep, All, All-map, All-keep,
  Any, Any-map, Any-keep, Bool-cases, arith,
}
use reflow_gateway.Base.Int.{ℤ, ◌≤ℤ◌, le_int}
use reflow_gateway.Base.Text.{Text}
use reflow_gateway.Base.Results.{ok}
use reflow_gateway.Policy.{AuthorizationPolicy, IsRanked}
use reflow_gateway.Policy.Store.{
  Tables, with_subjects, selected, place, order_by_priority, get_policies_for_target, unreachable,
}

module _ {κ} (P : AuthorizationPolicy → Type κ) where
  All-place :
      (p : AuthorizationPolicy) (qs : List AuthorizationPolicy)
      → All P (place p qs) ↔ (P p × All P qs)
  unfolding place
  All-place p [] = (λ h. h, λ h. h)
  All-place p (q ∷ qs) = elim (Bool-cases (le_int q.priority p.priority)) [
    | inl e ↦ rw e (λ h. h, λ h. h)
    | inr e ↦ rw e (
      λ h. let r = (All-place p qs).0 h.1 in (r.0, (h.0, r.1)),
      λ h. (h.1.0, (All-place p qs).1 (h.0, h.1.1)),
    )
  ]

  pub All-order_by_priority :
      (ps : List AuthorizationPolicy) → All P (order_by_priority ps) ↔ All P ps
  unfolding order_by_priority
  All-order_by_priority [] = (λ h. h, λ h. h)
  All-order_by_priority (p ∷ ps) = (
    λ h.
        let r = (All-place p (order_by_priority ps)).0 h in (r.0, (All-order_by_priority ps).0 r.1),
    λ h. (All-place p (order_by_priority ps)).1 (h.0, (All-order_by_priority ps).1 h.1),
  )

module _ (P : AuthorizationPolicy → Type 0) where
  Any-place :
      (p : AuthorizationPolicy) (qs : List AuthorizationPolicy)
      → Any P (place p qs)
      → P p ⊎ Any P qs
  unfolding place
  Any-place p [] h = h
  Any-place p (q ∷ qs) h = elim (Bool-cases (le_int q.priority p.priority)) [
    | inl e ↦ rw e at h
    | inr e ↦ elim (rw e at h) [
      | inl hq ↦ inr (inl hq)
      | inr r ↦ elim (Any-place p qs r) [ inl hp ↦ inl hp | inr r' ↦ inr (inr r') ]
    ]
  ]

  pub Any-order_by_priority :
      (ps : List AuthorizationPolicy) → Any P (order_by_priority ps) → Any P ps
  unfolding order_by_priority
  Any-order_by_priority [] h = h
  Any-order_by_priority (p ∷ ps) h = elim (Any-place p (order_by_priority ps) h) [
    | inl hp ↦ inl hp
    | inr r ↦ inr (Any-order_by_priority ps r)
  ]

below_trans :
    (x y : ℤ) (qs : List AuthorizationPolicy)
    → x ≤ℤ y
    → All (λ q. q.priority ≤ℤ x) qs
    → All (λ q. q.priority ≤ℤ y) qs
below_trans x y [] h b = tt
below_trans x y (q ∷ qs) h b = (omega arith, below_trans x y qs h b.1)

place-IsRanked :
    (p : AuthorizationPolicy) (qs : List AuthorizationPolicy) → IsRanked qs → IsRanked (place p qs)
unfolding place
place-IsRanked p [] r = (tt, tt)
place-IsRanked p (q ∷ qs) r = elim (Bool-cases (le_int q.priority p.priority)) [
  | inl e ↦ rw e ((ground arith, below_trans q.priority p.priority qs (ground arith) r.0), r)
  | inr e ↦ rw e (
    (All-place (λ s. s.priority ≤ℤ q.priority) p qs).1 (ground arith, r.0),
    place-IsRanked p qs r.1,
  )
]

order_by_priority-IsRanked : (ps : List AuthorizationPolicy) → IsRanked (order_by_priority ps)
unfolding order_by_priority
order_by_priority-IsRanked [] = tt
order_by_priority-IsRanked (p ∷ ps) = place-IsRanked p _ (order_by_priority-IsRanked ps)

with_subjects-IsRanked :
    (t : Tables) (ps : List AuthorizationPolicy) → IsRanked ps → IsRanked (map (with_subjects t) ps)
unfolding with_subjects
with_subjects-IsRanked t [] r = tt
with_subjects-IsRanked t (p ∷ ps) r = (
  (All-map (λ q. q.priority ≤ℤ p.priority) (with_subjects t) ps).1 r.0,
  with_subjects-IsRanked t ps r.1,
)

-- The rows that the query selects, in the order that it asks for.
abbrev pub rows : Tables → Option Text → List AuthorizationPolicy
rows t target_id = order_by_priority (keep (selected target_id) t.authorization_policies)

-- The rows with their subjects: what the repository returns.
abbrev pub policies : Tables → Option Text → List AuthorizationPolicy
policies t target_id = map (with_subjects t) (rows t target_id)

pub get_policies_reachable :
    (t : Tables) (target_id : Option Text)
    → t.reachable ≡ true
    → get_policies_for_target t target_id ≡ ok (policies t target_id)
unfolding get_policies_for_target
get_policies_reachable t target_id up = rw up

pub get_policies_unreachable :
    (t : Tables) (target_id : Option Text)
    → t.reachable ≡ false
    → get_policies_for_target t target_id ≡ unreachable
unfolding get_policies_for_target
get_policies_unreachable t target_id down = rw down

-- The policies come highest priority first.
pub policies-IsRanked : (t : Tables) (target_id : Option Text) → IsRanked (policies t target_id)
policies-IsRanked t target_id = with_subjects-IsRanked t _ (order_by_priority-IsRanked _)

module _ (t : Tables) (target_id : Option Text) where
  -- What holds of every returned policy holds of every selected row with its subjects.
  pub All-policies {κ} :
      (P : AuthorizationPolicy → Type κ)
      → All P (map (with_subjects t) (rows t target_id))
      → All (λ p. selected target_id p ≡ true → P (with_subjects t p)) t.authorization_policies
  All-policies P h =
      All-keep (λ p. P (with_subjects t p)) (selected target_id) t.authorization_policies
        ((All-order_by_priority (λ p. P (with_subjects t p)) _).0
          ((All-map P (with_subjects t) (rows t target_id)).0 h))

  -- A returned policy is a selected row with its subjects.
  pub Any-policies :
      (P : AuthorizationPolicy → Type 0)
      → Any P (map (with_subjects t) (rows t target_id))
      → Any (λ p. (selected target_id p ≡ true) × P (with_subjects t p)) t.authorization_policies
  Any-policies P h =
      Any-keep _ (selected target_id) t.authorization_policies
        (Any-order_by_priority _ _ (Any-map P (with_subjects t) (rows t target_id) h))
