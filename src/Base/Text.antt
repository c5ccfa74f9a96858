-- ===== src/Base/Text.antt =====
-- Text as its bytes. Go's `==`, `strings.Index`, `HasPrefix`, `TrimSuffix` and `Split` on it.
use Prim.Native.Char.{code}
use Prim.Native.String.{String}
use Prim.Native.Nat.{ℕ}
use mathlib.Core.Path.{◌≡◌, refl, ap}
use mathlib.Core.Logic.{◌↔◌, ◌≢◌}
use mathlib.Core.Bool.{Bool, true, false, ◌&&◌}
use mathlib.Core.Option.{Option, none, some}
use mathlib.Core.List.{List, [], ◌∷◌, ◌++◌}
use native.Mathlib.Omega.{arith}
use reflow_gateway.Base.Tests.{eqb, if◌then◌else◌}
use reflow_gateway.Base.Lists.{All}

abbrev pub Text : Type 0
Text = List ℕ

-- The bytes of an ASCII literal.
abbrev pub codes : String → Text
codes String.[] = []
codes (String.◌∷◌ c s) = code c ∷ codes s

-- A constant of the program. It stays shut in proofs.
unfoldable pub lit : String → Text
lit s = codes s

infix 50 ◌==◌
unfoldable pub ◌==◌ : Text → Text → Bool
◌==◌ [] [] = true
◌==◌ [] (d ∷ t) = false
◌==◌ (c ∷ s) [] = false
◌==◌ (c ∷ s) (d ∷ t) = eqb c d && ◌==◌ s t

eq_of_== : (s t : Text) → (s == t) ≡ true → s ≡ t
unfolding ◌==◌
eq_of_== [] [] h = refl
eq_of_== [] (d ∷ t) h = cc
eq_of_== (c ∷ s) [] h = cc
eq_of_== (c ∷ s) (d ∷ t) h = ground (arith, eq_of_== s t)

pub ==_refl : (s : Text) → (s == s) ≡ true
unfolding ◌==◌
==_refl [] = refl
==_refl (c ∷ s) = ground (arith, ==_refl s)

==_of_eq : (s t : Text) → s ≡ t → (s == t) ≡ true
==_of_eq s t e = rw e (==_refl t)

pub ==_iff : (s t : Text) → ((s == t) ≡ true) ↔ (s ≡ t)
==_iff s t = (eq_of_== s t, ==_of_eq s t)

-- Text without a byte.
abbrev pub Lacks : ℕ → Text → Type 0
Lacks b = All (λ c. c ≢ b)

-- What stands before and behind the first byte `b`: `s[:i]` and `s[i+1:]` for `i` the index of
-- `b`, or `none` where Go's `strings.Index` is -1.
unfoldable pub cut : ℕ → Text → Option (Text × Text)
cut b [] = none
cut b (c ∷ s) =
    let rest = cut b s in
    if eqb c b
    then some ([], s)
    else elim rest [ none ↦ none | some (before, after) ↦ some (c ∷ before, after) ]

pub cut-Lacks : (b : ℕ) (s t : Text) → Lacks b s → cut b (s ++ b ∷ t) ≡ some (s, t)
unfolding cut
cut-Lacks b [] t h = ground arith
cut-Lacks b (c ∷ s) t h = ground (arith, cut-Lacks b s t h.1)

pub cut-none : (b : ℕ) (s : Text) → Lacks b s → cut b s ≡ none
unfolding cut
cut-none b [] h = refl
cut-none b (c ∷ s) h = ground (arith, cut-none b s h.1)

-- strings.TrimSuffix(s, b) of one byte.
unfoldable pub trim_suffix : ℕ → Text → Text
trim_suffix b [] = []
trim_suffix b (c ∷ []) = if eqb c b then [] else c ∷ []
trim_suffix b (c ∷ d ∷ s) = c ∷ trim_suffix b (d ∷ s)

pub trim_suffix-append : (b : ℕ) (s : Text) → trim_suffix b (s ++ b ∷ []) ≡ s
unfolding trim_suffix
trim_suffix-append b [] = ground arith
trim_suffix-append b (c ∷ []) = ap (◌∷◌ c) (trim_suffix-append b [])
trim_suffix-append b (c ∷ d ∷ s) = ap (◌∷◌ c) (trim_suffix-append b (d ∷ s))

pub trim_suffix-Lacks : (b : ℕ) (s : Text) → Lacks b s → trim_suffix b s ≡ s
unfolding trim_suffix
trim_suffix-Lacks b [] h = refl
trim_suffix-Lacks b (c ∷ []) h = ground arith
trim_suffix-Lacks b (c ∷ d ∷ s) h = ap (◌∷◌ c) (trim_suffix-Lacks b (d ∷ s) h.1)

-- strings.HasPrefix(s, b) of one byte.
unfoldable pub has_prefix : ℕ → Text → Bool
has_prefix b [] = false
has_prefix b (c ∷ s) = eqb c b

-- if strings.HasPrefix(s, b) { s = s[1:] }
unfoldable pub trim_prefix : ℕ → Text → Text
trim_prefix b [] = []
trim_prefix b (c ∷ s) = if eqb c b then s else c ∷ s
