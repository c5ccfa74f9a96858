-- ===== src/Sse/Decimal.antt =====
-- Go's `%d`: Fprintf prints a positive int, Sscanf reads one of 64 bits.
pub mod Printed
use reflow_gateway.Base.{
  ℕ, zero, suc, ◌+◌, ◌-◌, ◌*◌, ◌/◌, ◌%◌, ◌^◌, ◌≤◌, ◌<◌, ◌≡◌, refl, ◌∙◌, arith, Bool, true, false,
  ◌&&◌, ◌||◌, Option, none, some, [], ◌∷◌, ◌++◌, leb, ltb, eqb, if◌then◌else◌, Bool-cases, inl, inr,
  All,
}
use reflow_gateway.Base.Text.{Text, Lacks}
use reflow_gateway.Base.Int.{ℤ, pos, negsuc}

-- The digits of `n` in front of `out`.
unfoldable pub digits : ℕ → ℕ → Text → Text
digits zero n out = out
digits (suc fuel) n out = elim (ltb 0 n) [
  | true ↦ digits fuel (n / 10) ((b'0' + n % 10) ∷ out)
  | false ↦ out
]

-- Fprintf("%d") of a positive number: a number has no more digits than its value.
unfoldable pub decimal : ℕ → Text
decimal n = digits n n []

abbrev is_digit : ℕ → Bool
is_digit c = leb b'0' c && leb c b'9'

abbrev is_space : ℕ → Bool
is_space c = eqb c b' ' || leb 9 c && leb c 13

-- The digits that come next, if there is one; the rest of the text is not looked at.
unfoldable pub scan_digits : Bool → Text → ℕ → Option ℕ
scan_digits seen [] n = if seen then some n else none
scan_digits seen (c ∷ s) n =
    let rest = scan_digits true s (n * 10 + (c - b'0')) in
    if is_digit c then rest else if seen then some n else none

-- strconv.ParseInt of 64 bits.
abbrev in_range : Bool → ℕ → Option ℤ
in_range negative n =
    if negative
    then if leb n (2 ^ 63) then some (if eqb n 0 then pos 0 else negsuc (n - 1)) else none
    else if ltb n (2 ^ 63)
    then some (pos n)
    else none

abbrev signed : Bool → Text → Option ℤ
signed negative s = elim (scan_digits false s 0) [ none ↦ none | some n ↦ in_range negative n ]

unfoldable pub skip_space : Text → Text
skip_space [] = []
skip_space (c ∷ s) = let rest = skip_space s in if is_space c then rest else c ∷ s

abbrev scan_sign : Text → Option ℤ
scan_sign [] = none
scan_sign (c ∷ s) =
    if eqb c b'-'
    then signed true s
    else if eqb c b'+'
    then signed false s
    else signed false (c ∷ s)

-- Sscanf("%d"): white space, a sign, digits.
unfoldable pub scan_int : Text → Option ℤ
scan_int s = scan_sign (skip_space s)
