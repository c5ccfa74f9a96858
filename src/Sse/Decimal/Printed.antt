-- ===== src/Sse/Decimal/Printed.antt =====
-- What Fprintf prints, Sscanf reads.
use reflow_gateway.Base.{
  ℕ, zero, suc, ◌+◌, ◌*◌, ◌/◌, ◌%◌, ◌^◌, ◌≤◌, ◌<◌, ◌≡◌, refl, ◌∙◌, arith, true, false, some, [],
  ◌∷◌, ltb, Bool-cases, inl, inr,
}
use reflow_gateway.Base.Text.{Text, Lacks}
use reflow_gateway.Base.Int.{pos}
use reflow_gateway.Sse.Decimal.{
  digits, decimal, scan_digits, skip_space, scan_sign, scan_int, signed,
}

scan_one :
    (d n : ℕ) (out : Text)
    → d < 10
    → scan_digits true ((b'0' + d) ∷ out) n ≡ scan_digits true out (n * 10 + d)
unfolding scan_digits
scan_one d n out h = ground arith

scan_first :
    (d : ℕ) (out : Text) → d < 10 → scan_digits false ((b'0' + d) ∷ out) 0 ≡ scan_digits true out d
unfolding scan_digits
scan_first d out h = ground arith

digits_zero : (fuel : ℕ) (out : Text) → digits fuel 0 out ≡ out
unfolding digits
digits_zero zero out = refl
digits_zero (suc fuel) out = refl

digits_step :
    (fuel n : ℕ) (out : Text)
    → 0 < n
    → digits (suc fuel) n out ≡ digits fuel (n / 10) ((b'0' + n % 10) ∷ out)
unfolding digits
digits_step fuel n out h = ground arith

last_digit :
    (fuel n : ℕ) (out : Text)
    → n < 10
    → scan_digits false (digits fuel (n / 10) ((b'0' + n % 10) ∷ out)) 0 ≡ scan_digits true out n
last_digit fuel n out h =
    let none_left : n / 10 ≡ 0 = omega arith in
    let itself : n % 10 ≡ n = omega arith in
    rw (none_left, itself, digits_zero) (scan_first n out h)

-- Reading the digits of `n` before `out` is reading `out` after `n`.
scan_digits-digits :
    (fuel n : ℕ) (out : Text)
    → 0 < n
    → n ≤ fuel
    → scan_digits false (digits fuel n out) 0 ≡ scan_digits true out n
scan_digits-digits zero n out h k = absurd (omega arith)
scan_digits-digits (suc fuel) n out h k =
    rw (digits_step fuel n out h) (elim (Bool-cases (ltb n 10)) [
      | inl small ↦ last_digit fuel n out (ground (arith, small))
      | inr large ↦
          let more : 10 ≤ n = ground (arith, large) in
          let whole : n / 10 * 10 + n % 10 ≡ n = omega arith in
          scan_digits-digits fuel (n / 10) _ (omega arith) (omega arith)
          ∙ scan_one (n % 10) (n / 10) out (omega arith)
          ∙ rw whole refl
    ])

-- A digit is no space and no sign.
scan_sign-digit :
    (d : ℕ) (out : Text)
    → d < 10
    → scan_sign (skip_space ((b'0' + d) ∷ out)) ≡ signed false ((b'0' + d) ∷ out)
unfolding skip_space
scan_sign-digit d out h = ground arith

scan_sign-digits :
    (fuel n d : ℕ) (out : Text)
    → d < 10
    → scan_sign (skip_space (digits fuel n ((b'0' + d) ∷ out)))
      ≡ signed false (digits fuel n ((b'0' + d) ∷ out))
unfolding digits
scan_sign-digits zero n d out h = scan_sign-digit d out h
scan_sign-digits (suc fuel) n d out h = elim (Bool-cases (ltb 0 n)) [
  | inl e ↦
      rw (e, digits) (scan_sign-digits fuel (n / 10) (n % 10) ((b'0' + d) ∷ out) (omega arith))
  | inr e ↦ rw (e, digits) (scan_sign-digit d out h)
]

decimal_step : (m : ℕ) → decimal (suc m) ≡ digits m (suc m / 10) ((b'0' + suc m % 10) ∷ [])
unfolding decimal
decimal_step m = digits_step m (suc m) [] (omega arith)

scan_decimal : (n : ℕ) → 0 < n → scan_digits false (decimal n) 0 ≡ some n
unfolding decimal scan_digits
scan_decimal n h = scan_digits-digits n n [] h (omega arith)

signed-decimal : (n : ℕ) → 0 < n → n < 2 ^ 63 → signed false (decimal n) ≡ some (pos n)
signed-decimal n h k = rw (scan_decimal n h, signed) (ground arith)

pub scan_int-decimal : (n : ℕ) → 0 < n → n < 2 ^ 63 → scan_int (decimal n) ≡ some (pos n)
unfolding scan_int
scan_int-decimal zero h k = absurd (omega arith)
scan_int-decimal (suc m) h k =
    let same = scan_sign-digits m (suc m / 10) (suc m % 10) [] (omega arith) in
    (rw (← decimal_step m) at same) ∙ signed-decimal (suc m) h k

Lacks-digits : (b fuel n : ℕ) (out : Text) → b < b'0' → Lacks b out → Lacks b (digits fuel n out)
unfolding digits
Lacks-digits b zero n out h k = k
Lacks-digits b (suc fuel) n out h k = elim (Bool-cases (ltb 0 n)) [
  | inl e ↦ rw (e, digits) (Lacks-digits b fuel (n / 10) _ h (omega arith, k))
  | inr e ↦ rw (e, digits) k
]

-- A number is printed without the bytes below the digits, the line ends among them.
pub Lacks-decimal : (b n : ℕ) → b < b'0' → Lacks b (decimal n)
unfolding decimal
Lacks-decimal b n h = Lacks-digits b n n [] h tt
