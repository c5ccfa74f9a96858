-- ===== src/Observability/Window.antt =====
-- Counting the entries of all targets.
use reflow_gateway.Base.{
  ℕ, ◌+◌, ◌≤◌, ◌≡◌, refl, ◌∙◌, arith, Bool, true, ◌&&◌, List, [], ◌∷◌, ◌++◌, if◌then◌else◌, length,
  keep,
}
use reflow_gateway.Base.Text.{Text}
use reflow_gateway.Base.Maps.{Map, lookup, insert}
use reflow_gateway.Observability.{
  Float, WindowEntry, TargetStats, in_window, entries_of, target_stats, prune, stats_of, sum,
}

module _ {A : Type 0} where
  keep-append : (p : A → Bool) (xs ys : List A) → keep p (xs ++ ys) ≡ keep p xs ++ keep p ys
  keep-append p [] ys = refl
  keep-append p (x ∷ xs) ys = ground (arith, keep-append p xs ys)

  -- How often a test holds.
  abbrev pub count : (A → Bool) → List A → ℕ
  count p xs = length (keep p xs)

  pub count-snoc :
      (p : A → Bool) (xs : List A) (x : A)
      → count p (xs ++ x ∷ []) ≡ count p xs + (if p x then 1 else 0)
  count-snoc p [] x = ground arith
  count-snoc p (y ∷ xs) x = ground (arith, count-snoc p xs x)

  count-keep :
      (p q : A → Bool) (xs : List A)
      → ((x : A) → p x ≡ true → q x ≡ true)
      → count p (keep q xs) ≡ count p xs
  count-keep p q [] imp = refl
  count-keep p q (x ∷ xs) imp = ground (arith, imp x, count-keep p q xs imp)

  count-keep_both :
      (p q : A → Bool) (xs : List A) → count p (keep q xs) ≡ count (λ x. q x && p x) xs
  count-keep_both p q [] = refl
  count-keep_both p q (x ∷ xs) = ground (arith, count-keep_both p q xs)

  pub count-le :
      (p q : A → Bool) (xs : List A) → ((x : A) → p x ≡ true → q x ≡ true) → count p xs ≤ count q xs
  count-le p q [] imp = omega arith
  count-le p q (x ∷ xs) imp = ground (arith, imp x, count-le p q xs imp)

  count-all : (xs : List A) → length xs ≡ count (λ x. true) xs
  count-all [] = refl
  count-all (x ∷ xs) = omega (arith, count-all xs)

module _ {F : Type 0} where
  -- The entries of all targets for which a test holds.
  abbrev pub total : (WindowEntry F → Bool) → Map (List (WindowEntry F)) → ℕ
  total p [] = 0
  total p ((name, entries) ∷ targets) = count p entries + total p targets

  pub total-insert :
      (p : WindowEntry F → Bool) (k : Text) (x : WindowEntry F) (m : Map (List (WindowEntry F)))
      → total p (insert k (entries_of k m ++ x ∷ []) m) ≡ total p m + (if p x then 1 else 0)
  unfolding insert lookup
  total-insert p k x [] = ground arith
  total-insert p k x ((j, es) ∷ m) = ground (arith, total-insert p k x m, count-snoc p es x)

  -- Pruning takes nothing that a later test of the window would count.
  pub total-prune :
      (p : WindowEntry F → Bool) (now : ℕ) (m : Map (List (WindowEntry F)))
      → ((e : WindowEntry F) → p e ≡ true → in_window now e ≡ true)
      → total p (prune now m) ≡ total p m
  unfolding prune
  total-prune p now [] imp = refl
  total-prune p now ((name, es) ∷ m) imp =
      omega (arith, count-keep p (in_window now) es imp, total-prune p now m imp)

  -- Counting over the statistics of the targets is counting over their entries.
  sum-stats_of :
      (float : Float F) (field : TargetStats F → ℕ) (p : WindowEntry F → Bool)
      → ((name : Text) (es : List (WindowEntry F))
          → field (target_stats float name es) ≡ count p es)
      → (m : Map (List (WindowEntry F))) → sum field (stats_of float m) ≡ total p m
  unfolding stats_of sum
  sum-stats_of float field p same [] = refl
  sum-stats_of float field p same ((name, []) ∷ m) =
      omega (arith, sum-stats_of float field p same m)
  sum-stats_of float field p same ((name, e ∷ es) ∷ m) =
      omega (arith, same name (e ∷ es), sum-stats_of float field p same m)

  total-prune_both :
      (p : WindowEntry F → Bool) (now : ℕ) (m : Map (List (WindowEntry F)))
      → total p (prune now m) ≡ total (λ e. in_window now e && p e) m
  unfolding prune
  total-prune_both p now [] = refl
  total-prune_both p now ((name, es) ∷ m) =
      omega (arith, count-keep_both p (in_window now) es, total-prune_both p now m)

  pub sum-request_count :
      (float : Float F) (now : ℕ) (m : Map (List (WindowEntry F)))
      → sum (λ t. t.request_count) (stats_of float (prune now m))
        ≡ total (λ e. in_window now e && true) m
  unfolding target_stats
  sum-request_count float now m =
      sum-stats_of float _ (λ e. true) (λ name es. count-all es) (prune now m)
      ∙ total-prune_both (λ e. true) now m

  pub sum-error_count :
      (float : Float F) (now : ℕ) (m : Map (List (WindowEntry F)))
      → sum (λ t. t.error_count) (stats_of float (prune now m))
        ≡ total (λ e. in_window now e && e.is_error) m
  unfolding target_stats
  sum-error_count float now m =
      sum-stats_of float _ (λ e. e.is_error) (λ name es. refl) (prune now m)
      ∙ total-prune_both (λ e. e.is_error) now m
