-- ===== src/Base/Split.antt =====
-- Go's `strings.Split` at one byte.
use Prim.Native.Nat.{ℕ}
use mathlib.Core.Path.{◌≡◌, refl, ap, ◌∙◌}
use mathlib.Core.Logic.{◌≢◌, inl, inr}
use mathlib.Core.List.{List, [], ◌∷◌, ◌++◌}
use native.Mathlib.Omega.{arith}
use reflow_gateway.Base.Tests.{eqb, if◌then◌else◌, Bool-cases}
use reflow_gateway.Base.Lists.{All}
use reflow_gateway.Base.Text.{Text, Lacks}

abbrev push : ℕ → List Text → List Text
push c [] = (c ∷ []) ∷ []
push c (part ∷ parts) = (c ∷ part) ∷ parts

-- strings.Split(s, b) of one byte: the parts, at least one.
unfoldable pub split : ℕ → Text → List Text
split b [] = [] ∷ []
split b (c ∷ s) = let parts = split b s in if eqb c b then [] ∷ parts else push c parts

-- The parts, each with `b` behind it.
unfoldable pub terminated : ℕ → List Text → Text
terminated b [] = []
terminated b (part ∷ parts) = part ++ b ∷ terminated b parts

terminated-push :
    (b c : ℕ) (parts : List Text)
    → parts ≢ []
    → terminated b (push c parts) ≡ c ∷ terminated b parts
unfolding terminated
terminated-push b c [] h = absurd (h refl)
terminated-push b c (part ∷ parts) h = refl

terminated-nil : (b : ℕ) (parts : List Text) → terminated b ([] ∷ parts) ≡ b ∷ terminated b parts
unfolding terminated
terminated-nil b parts = refl

push-ne-nil : (c : ℕ) (parts : List Text) → push c parts ≢ []
push-ne-nil c [] = cc
push-ne-nil c (part ∷ parts) = cc

split-ne-nil : (b : ℕ) (s : Text) → split b s ≢ []
unfolding split
split-ne-nil b [] = cc
split-ne-nil b (c ∷ s) = ground (arith, push-ne-nil c (split b s))

pub terminated-split : (b : ℕ) (s : Text) → terminated b (split b s) ≡ s ++ b ∷ []
unfolding split
terminated-split b [] = unfold terminated in refl
terminated-split b (c ∷ s) = elim (Bool-cases (eqb c b)) [
  | inl e ↦
      let b_is_c : b ≡ c = ground (arith, e) in
      rw e (terminated-nil b (split b s) ∙ λ i. b_is_c i ∷ terminated-split b s i)
  | inr e ↦
      rw e (terminated-push b c (split b s) (split-ne-nil b s) ∙ ap (◌∷◌ c) (terminated-split b s))
]

push-Lacks :
    (b c : ℕ) (parts : List Text) → c ≢ b → All (Lacks b) parts → All (Lacks b) (push c parts)
push-Lacks b c [] h hs = ((h, tt), tt)
push-Lacks b c (part ∷ parts) h hs = ((h, hs.0), hs.1)

-- No part has the separator, and a byte that the text lacks, every part lacks.
pub split-Lacks : (b : ℕ) (s : Text) → All (Lacks b) (split b s)
unfolding split
split-Lacks b [] = (tt, tt)
split-Lacks b (c ∷ s) = elim (Bool-cases (eqb c b)) [
  | inl e ↦ rw e (tt, split-Lacks b s)
  | inr e ↦ rw e (push-Lacks b c (split b s) (ground (arith, e)) (split-Lacks b s))
]

pub split-keeps_Lacks : (b d : ℕ) (s : Text) → Lacks d s → All (Lacks d) (split b s)
unfolding split
split-keeps_Lacks b d [] h = (tt, tt)
split-keeps_Lacks b d (c ∷ s) h = elim (Bool-cases (eqb c b)) [
  | inl e ↦ rw e (tt, split-keeps_Lacks b d s h.1)
  | inr e ↦ rw e (push-Lacks d c (split b s) h.0 (split-keeps_Lacks b d s h.1))
]
