-- ===== src/Base/Maps.antt =====
-- Go's maps with text keys: association lists in the order of insertion, each key at most once.
-- A loop over a map is a loop over the list; what depends on the order says so.
use Prim.Native.Nat.{◌+◌}
use mathlib.Core.Path.{◌≡◌, refl, ◌∙◌}
use mathlib.Core.Bool.{Bool}
use mathlib.Core.Option.{Option, none, some}
use mathlib.Core.List.{List, [], ◌∷◌}
use native.Mathlib.Omega.{arith}
use reflow_gateway.Base.Tests.{if◌then◌else◌, is_some}
use reflow_gateway.Base.Lists.{length}
use reflow_gateway.Base.Text.{Text, ◌==◌, ==_iff, ==_refl}

abbrev pub Map {ℓ} : Type ℓ → Type ℓ
Map V = List (Text × V)

module _ {ℓ} {V : Type ℓ} where
  -- delete(m, k)
  unfoldable pub delete : Text → Map V → Map V
  delete key [] = []
  delete key ((name, value) ∷ entries) =
      let rest = delete key entries in if name == key then rest else (name, value) ∷ rest

  -- v, ok := m[k]
  unfoldable pub lookup : Text → Map V → Option V
  lookup key [] = none
  lookup key ((name, value) ∷ entries) = if name == key then some value else lookup key entries

  pub lookup-delete :
      (k j : Text) (m : Map V) → lookup j (delete k m) ≡ (if k == j then none else lookup j m)
  unfolding lookup delete
  lookup-delete k j [] = ground arith
  lookup-delete k j ((i, w) ∷ m) =
      ground (arith, ==_iff k j, ==_iff i k, ==_iff i j, lookup-delete k j m)

  pub lookup-delete_self : (k : Text) (m : Map V) → lookup k (delete k m) ≡ none
  lookup-delete_self k m = simp (lookup-delete, ==_refl)

  -- m[k] = v
  unfoldable pub insert : Text → V → Map V → Map V
  insert key new [] = (key, new) ∷ []
  insert key new ((name, old) ∷ entries) =
      let rest = insert key new entries in
      if name == key then (key, new) ∷ entries else (name, old) ∷ rest

  pub lookup-insert :
      (key other : Text) (new : V) (entries : Map V)
      → lookup other (insert key new entries)
        ≡ (if key == other then some new else lookup other entries)
  unfolding insert lookup
  lookup-insert key other new ((name, old) ∷ entries) =
      let rest = lookup-insert key other new entries in
      ground (arith, rest, ==_iff name other, ==_iff name key, ==_iff key other)
  lookup-insert key other new [] = refl

  pub lookup-insert_self :
      (key : Text) (new : V) (entries : Map V) → lookup key (insert key new entries) ≡ some new
  lookup-insert_self key new entries = lookup-insert key key new entries ∙ rw (==_refl key) refl

  -- Each key occurs once.
  abbrev pub IsMap : Map V → Type ℓ
  IsMap [] = Unit
  IsMap ((k, v) ∷ m) = (lookup k m ≡ none) × IsMap m

  pub insert-IsMap : (k : Text) (v : V) (m : Map V) → IsMap m → IsMap (insert k v m)
  unfolding insert
  insert-IsMap k v [] h = (unfold lookup in refl, tt)
  insert-IsMap k v ((j, w) ∷ m) h =
      ground (arith, ==_iff j k, ==_iff k j, insert-IsMap k v m h.1, lookup-insert k j v m)

  pub delete-IsMap : (k : Text) (m : Map V) → IsMap m → IsMap (delete k m)
  unfolding delete
  delete-IsMap k [] h = tt
  delete-IsMap k ((j, w) ∷ m) h =
      ground (arith, ==_iff j k, delete-IsMap k m h.1, lookup-delete k j m, ==_iff k j)

  -- Deleting an absent key changes nothing.
  pub delete_absent : (k : Text) (m : Map V) → lookup k m ≡ none → delete k m ≡ m
  unfolding lookup delete
  delete_absent k [] h = refl
  delete_absent k ((j, w) ∷ m) h = ground (arith, delete_absent k m)

  -- A delete takes one entry away if the key is there.
  pub length-delete :
      (k : Text) (m : Map V)
      → IsMap m
      → length (delete k m) + (if is_some (lookup k m) then 1 else 0) ≡ length m
  unfolding lookup delete
  length-delete k [] h = omega arith
  length-delete k ((j, w) ∷ m) h =
      ground (arith, length-delete k m h.1, ==_iff j k, delete_absent k m)

  pub length-insert :
      (k : Text) (v : V) (m : Map V)
      → length (insert k v m) ≡ length m + (if is_some (lookup k m) then 0 else 1)
  unfolding lookup insert
  length-insert k v [] = omega arith
  length-insert k v ((j, w) ∷ m) = ground (arith, length-insert k v m)

  -- The entries whose value passes a test, as a loop that deletes the others leaves them.
  unfoldable pub retain : (V → Bool) → Map V → Map V
  retain p [] = []
  retain p ((j, v) ∷ m) = let rest = retain p m in if p v then (j, v) ∷ rest else rest

  pub retain_absent :
      (p : V → Bool) (k : Text) (m : Map V) → lookup k m ≡ none → lookup k (retain p m) ≡ none
  unfolding lookup retain
  retain_absent p k [] h = refl
  retain_absent p k ((j, w) ∷ m) h = ground (arith, retain_absent p k m)

  pub retain-IsMap : (p : V → Bool) (m : Map V) → IsMap m → IsMap (retain p m)
  unfolding retain
  retain-IsMap p [] h = tt
  retain-IsMap p ((j, w) ∷ m) h = ground (arith, retain-IsMap p m h.1, retain_absent p j m h.0)

  abbrev pub filter_option : (V → Bool) → Option V → Option V
  filter_option p none = none
  filter_option p (some v) = if p v then some v else none

  pub lookup-retain :
      (p : V → Bool) (k : Text) (m : Map V)
      → IsMap m
      → lookup k (retain p m) ≡ filter_option p (lookup k m)
  unfolding lookup retain
  lookup-retain p k [] h = refl
  lookup-retain p k ((j, w) ∷ m) h =
      ground (arith, lookup-retain p k m h.1, ==_iff j k, retain_absent p k m)

pub ruleset map_laws = (lookup-insert, lookup-delete, ==_refl)
