-- ===== src/Base/Lists.antt =====
-- Lists over the native numbers: length, Boolean tests over a list, and predicates by recursion.
use Prim.Native.Nat.{ℕ, suc, ◌+◌, ◌≤◌}
use mathlib.Core.Path.{◌≡◌, refl}
use mathlib.Core.Logic.{◌⊎◌, inl, inr, ◌↔◌}
use mathlib.Core.Bool.{Bool, true, false, ◌||◌}
use mathlib.Core.List.{List, [], ◌∷◌, ◌++◌, map}
use native.Mathlib.Omega.{arith}
use reflow_gateway.Base.Tests.{if◌then◌else◌, Bool-cases}

module _ {ℓ} {A : Type ℓ} where
  abbrev pub length : List A → ℕ
  length [] = 0
  length (x ∷ xs) = suc (length xs)

  pub length-append : (xs ys : List A) → length (xs ++ ys) ≡ length xs + length ys
  length-append [] ys = omega arith
  length-append (x ∷ xs) ys = omega (arith, length-append xs ys)

  -- The elements that pass a Boolean test, in order.
  abbrev pub keep : (A → Bool) → List A → List A
  keep p [] = []
  keep p (x ∷ xs) = let rest = keep p xs in if p x then x ∷ rest else rest

  pub length-keep-le : (p : A → Bool) (xs : List A) → length (keep p xs) ≤ length xs
  length-keep-le p [] = omega arith
  length-keep-le p (x ∷ xs) = ground (arith, length-keep-le p xs)

  abbrev pub any : (A → Bool) → List A → Bool
  any p [] = false
  any p (x ∷ xs) = p x || any p xs

  pub any-append : (p : A → Bool) (xs ys : List A) → any p (xs ++ ys) ≡ (any p xs || any p ys)
  any-append p [] ys = refl
  any-append p (x ∷ xs) ys = ground (arith, any-append p xs ys)

module _ {ℓ κ} {A : Type ℓ} (P : A → Type κ) where
  abbrev pub All : List A → Type κ
  All [] = Unit
  All (x ∷ xs) = P x × All xs

  pub All-append : (xs ys : List A) → All xs → All ys → All (xs ++ ys)
  All-append [] ys hx hy = hy
  All-append (x ∷ xs) ys hx hy = (hx.0, All-append xs ys hx.1 hy)

module _ {ℓ} {A : Type ℓ} where
  -- Some element of the list satisfies the predicate.
  abbrev pub Any : (A → Type 0) → List A → Type 0
  Any P [] = ⊥
  Any P (x ∷ xs) = P x ⊎ Any P xs

  pub Any-append_left : (P : A → Type 0) (xs ys : List A) → Any P xs → Any P (xs ++ ys)
  Any-append_left P (x ∷ xs) ys (inl h) = inl h
  Any-append_left P (x ∷ xs) ys (inr h) = inr (Any-append_left P xs ys h)
  Any-append_left P [] ys h = absurd h

  pub Any-append_right : (P : A → Type 0) (xs ys : List A) → Any P ys → Any P (xs ++ ys)
  Any-append_right P [] ys h = h
  Any-append_right P (x ∷ xs) ys h = inr (Any-append_right P xs ys h)

  -- A Boolean search finds an element exactly when there is one.
  pub any_iff : (p : A → Bool) (xs : List A) → (any p xs ≡ true) ↔ Any (λ x. p x ≡ true) xs
  any_iff p [] = (λ h. cc, λ h. absurd h)
  any_iff p (x ∷ xs) = (
    λ h. elim (Bool-cases (p x)) [ inl e ↦ inl e | inr e ↦ inr ((any_iff p xs).0 (rw e at h)) ],
    λ h. elim h [ inl e ↦ rw e | inr t ↦ ground (arith, (any_iff p xs).1 t) ],
  )

module _ {ℓ κ} {A : Type ℓ} (P : A → Type κ) where
  pub All-keep : (p : A → Bool) (xs : List A) → All P (keep p xs) → All (λ x. p x ≡ true → P x) xs
  All-keep p [] h = tt
  All-keep p (x ∷ xs) h = elim (Bool-cases (p x)) [
    | inl e ↦ let h' = rw e at h in (λ _. h'.0, All-keep p xs h'.1)
    | inr e ↦ (λ t. cc, All-keep p xs (rw e at h))
  ]

  pub All-map {ι} :
      {B : Type ι} (f : B → A) (xs : List B) → All P (map f xs) ↔ All (λ x. P (f x)) xs
  All-map f [] = (λ h. h, λ h. h)
  All-map f (x ∷ xs) = (λ h. (h.0, (All-map f xs).0 h.1), λ h. (h.0, (All-map f xs).1 h.1))

module _ {ℓ} {A : Type ℓ} where
  pub Any-keep :
      (P : A → Type 0) (p : A → Bool) (xs : List A)
      → Any P (keep p xs)
      → Any (λ x. (p x ≡ true) × P x) xs
  Any-keep P p [] h = h
  Any-keep P p (x ∷ xs) h = elim (Bool-cases (p x)) [
    | inl e ↦ elim (rw e at h) [ inl q ↦ inl (e, q) | inr r ↦ inr (Any-keep P p xs r) ]
    | inr e ↦ inr (Any-keep P p xs (rw e at h))
  ]

  pub Any-map {ι} :
      {B : Type ι} (P : A → Type 0) (f : B → A) (xs : List B)
      → Any P (map f xs)
      → Any (λ x. P (f x)) xs
  Any-map P f [] h = h
  Any-map P f (x ∷ xs) (inl q) = inl q
  Any-map P f (x ∷ xs) (inr r) = inr (Any-map P f xs r)

  pub Any-weaken : (P Q : A → Type 0) (xs : List A) → ((x : A) → P x → Q x) → Any P xs → Any Q xs
  Any-weaken P Q [] imp h = h
  Any-weaken P Q (x ∷ xs) imp (inl h) = inl (imp x h)
  Any-weaken P Q (x ∷ xs) imp (inr h) = inr (Any-weaken P Q xs imp h)
