-- ===== src/Sse/Reader.antt =====
-- ReadEvent line by line: the loop ends, and what a line does to it.
use reflow_gateway.Base.{
  ℕ, zero, suc, ◌<◌, ◌≡◌, ◌≢◌, refl, sym, ◌∙◌, arith, Bool-cases, inl, inr, none, some,
  Option-cases, [], ◌∷◌, ◌++◌, length, length-append, eqb, ◌⊎◌,
}
use reflow_gateway.Base.Text.{
  Text, ◌==◌, ==_refl, cut, cut-Lacks, Lacks, trim_suffix, trim_suffix-Lacks,
}
use reflow_gateway.Sse.{
  SseEvent, no_event, ReadError, eof, broken, found, read_failed, out_of_fuel, LineStep, dispatch,
  continue, step_line, at_end, read_loop, read_from, read_event,
}

-- A line takes at least its end off the input.
cut_shorter : (b : ℕ) (s line rest : Text) → cut b s ≡ some (line, rest) → length rest < length s
unfolding cut
cut_shorter b [] line rest h = cc
cut_shorter b (c ∷ s) line rest h = elim (Bool-cases (eqb c b)) [
  | inl e ↦ ground (arith, e)
  | inr e ↦ elim (Option-cases (cut b s)) [
    | inl n ↦ ground (arith, e, n)
    | inr ((l, r), k) ↦ let less = cut_shorter b s l r k in ground (arith, e, k, less)
  ]
]

at_end-ends : (end : ReadError) (e : SseEvent) → at_end end e ≢ out_of_fuel
unfolding at_end
at_end-ends end e = ground arith

LineStep-cases :
    (l : LineStep) → ((d : SseEvent) × (l ≡ dispatch d)) ⊎ ((next : SseEvent) × (l ≡ continue next))
LineStep-cases (dispatch d) = inl (d, refl)
LineStep-cases (continue next) = inr (next, refl)

-- The rounds of the loop: the input ends, a line dispatches an event, a line goes on.
data Round (s : Text) (e : SseEvent) : Type 0 where
  ends : cut b'\n' s ≡ none → Round s e
  dispatches :
      (line rest : Text) (d : SseEvent)
      → cut b'\n' s ≡ some (line, rest)
      → step_line (trim_suffix b'\r' line) e ≡ dispatch d
      → Round s e
  goes_on :
      (line rest : Text) (next : SseEvent)
      → cut b'\n' s ≡ some (line, rest)
      → step_line (trim_suffix b'\r' line) e ≡ continue next
      → Round s e

round : (s : Text) (e : SseEvent) → Round s e
round s e = elim (Option-cases (cut b'\n' s)) [
  | inl n ↦ ends n
  | inr ((line, rest), c) ↦ elim (LineStep-cases (step_line (trim_suffix b'\r' line) e)) [
    | inl (d, p) ↦ dispatches line rest d c p
    | inr (next, p) ↦ goes_on line rest next c p
  ]
]

module _ (end : ReadError) (fuel : ℕ) (s : Text) (e : SseEvent) where
  loop_ends : cut b'\n' s ≡ none → read_loop end (suc fuel) s e ≡ at_end end e
  unfolding read_loop
  loop_ends n = rw (n, read_loop) refl

  loop_dispatches :
      (line rest : Text) (d : SseEvent)
      → cut b'\n' s ≡ some (line, rest)
      → step_line (trim_suffix b'\r' line) e ≡ dispatch d
      → read_loop end (suc fuel) s e ≡ found d rest
  unfolding read_loop
  loop_dispatches line rest d c p = rw (c, read_loop) (rw p refl)

  loop_goes_on :
      (line rest : Text) (next : SseEvent)
      → cut b'\n' s ≡ some (line, rest)
      → step_line (trim_suffix b'\r' line) e ≡ continue next
      → read_loop end (suc fuel) s e ≡ read_loop end fuel rest next
  unfolding read_loop
  loop_goes_on line rest next c p = rw (c, read_loop) (rw p refl)

-- More fuel than bytes is enough, and no more than that matters.
read_loop_fuel :
    (end : ReadError) (fuel more : ℕ) (s : Text) (e : SseEvent)
    → length s < fuel
    → length s < more
    → read_loop end fuel s e ≡ read_loop end more s e
read_loop_fuel end zero more s e h k = absurd (omega arith)
read_loop_fuel end (suc fuel) zero s e h k = absurd (omega arith)
read_loop_fuel end (suc fuel) (suc more) s e h k = elim (round s e) [
  | ends n ↦ loop_ends end fuel s e n ∙ sym (loop_ends end more s e n)
  | dispatches line rest d c p ↦
      loop_dispatches end fuel s e line rest d c p
      ∙ sym (loop_dispatches end more s e line rest d c p)
  | goes_on line rest next c p ↦
      let less = cut_shorter b'\n' s line rest c in
      loop_goes_on end fuel s e line rest next c p
      ∙ read_loop_fuel end fuel more rest next (omega arith) (omega arith)
      ∙ sym (loop_goes_on end more s e line rest next c p)
]

read_loop-ends :
    (end : ReadError) (fuel : ℕ) (s : Text) (e : SseEvent)
    → length s < fuel
    → read_loop end fuel s e ≢ out_of_fuel
read_loop-ends end zero s e h = absurd (omega arith)
read_loop-ends end (suc fuel) s e h = elim (round s e) [
  | ends n ↦ rw (loop_ends end fuel s e n) (at_end-ends end e)
  | dispatches line rest d c p ↦ rw (loop_dispatches end fuel s e line rest d c p) (λ q. cc)
  | goes_on line rest next c p ↦
      let less = cut_shorter b'\n' s line rest c in
      rw (loop_goes_on end fuel s e line rest next c p)
        (read_loop-ends end fuel rest next (omega arith))
]

at_end-rest :
    (end : ReadError) (e d : SseEvent) (rest : Text)
    → at_end end e ≡ found d rest
    → (rest ≡ []) × (e.event_data ≢ [])
unfolding at_end
at_end-rest end e d rest h = ground (arith, ==_refl [])

at_end-read_failed :
    (end why : ReadError) (e : SseEvent) → at_end end e ≡ read_failed why → why ≡ end
unfolding at_end
at_end-read_failed end why e h = ground arith

-- What a call leaves unread is less than it was given, whatever it had read before; only at
-- the end of an unterminated event is nothing left of nothing.
read_loop-progress :
    (end : ReadError) (fuel : ℕ) (s : Text) (e d : SseEvent) (rest : Text)
    → read_loop end fuel s e ≡ found d rest
    → (length rest < length s) ⊎ ((rest ≡ []) × ((s ≡ []) → e.event_data ≢ []))
read_loop-progress end zero s e d rest h = unfold read_loop in cc
read_loop-progress end (suc fuel) s e d rest h = elim (round s e) [
  | ends n ↦
      let last = at_end-rest end e d rest (sym (loop_ends end fuel s e n) ∙ h) in
      inr (last.0, λ _. last.1)
  | dispatches line tail x c p ↦
      let less = cut_shorter b'\n' s line tail c in
      let same = sym (loop_dispatches end fuel s e line tail x c p) ∙ h in
      inl (ground (arith, same))
  | goes_on line tail next c p ↦
      let less = cut_shorter b'\n' s line tail c in
      elim (read_loop-progress end fuel tail next d rest
        (sym (loop_goes_on end fuel s e line tail next c p) ∙ h)) [
          | inl q ↦ inl (omega arith)
          | inr q ↦ inl (ground (arith, q.0))
        ]
]

-- ReadEvent comes to an end on any input: it returns an event or an error.
pub read_event-ends : (end : ReadError) (input : Text) → read_event end input ≢ out_of_fuel
unfolding read_event read_from
read_event-ends end input = read_loop-ends end (suc (length input)) input no_event (omega arith)

-- An event takes bytes off the input.
pub read_event-shorter :
    (end : ReadError) (input rest : Text) (d : SseEvent)
    → read_event end input ≡ found d rest
    → length rest < length input
unfolding read_event read_from
read_event-shorter end input rest d h =
    ground (arith, read_loop-progress end (suc (length input)) input no_event d rest h)

-- A line in front of the rest of the input.
pub read_from-line :
    (end : ReadError) (line rest : Text) (e next : SseEvent)
    → Lacks b'\n' line
    → Lacks b'\r' line
    → step_line line e ≡ continue next
    → read_from end (line ++ b'\n' ∷ rest) e ≡ read_from end rest next
unfolding read_from
read_from-line end line rest e next h k p =
    loop_goes_on end _ (line ++ b'\n' ∷ rest) e line rest next (cut-Lacks b'\n' line rest h)
      (rw (trim_suffix-Lacks b'\r' line k) p)
    ∙ read_loop_fuel end _ _ rest next (omega (arith, length-append line (b'\n' ∷ rest)))
        (omega arith)

pub read_from-blank :
    (end : ReadError) (rest : Text) (e d : SseEvent)
    → step_line [] e ≡ dispatch d
    → read_from end (b'\n' ∷ rest) e ≡ found d rest
unfolding read_from
read_from-blank end rest e d p =
    loop_dispatches end _ (b'\n' ∷ rest) e [] rest d (cut-Lacks b'\n' [] rest tt)
      (rw (trim_suffix-Lacks b'\r' [] tt) p)

-- The error of ReadEvent is that of the body.
read_loop-read_failed :
    (end why : ReadError) (fuel : ℕ) (s : Text) (e : SseEvent)
    → read_loop end fuel s e ≡ read_failed why
    → why ≡ end
read_loop-read_failed end why zero s e h = unfold read_loop in cc
read_loop-read_failed end why (suc fuel) s e h = elim (round s e) [
  | ends n ↦ at_end-read_failed end why e (sym (loop_ends end fuel s e n) ∙ h)
  | dispatches line rest d c p ↦
      let same = sym (loop_dispatches end fuel s e line rest d c p) ∙ h in cc
  | goes_on line rest next c p ↦
      read_loop-read_failed end why fuel rest next
        (sym (loop_goes_on end fuel s e line rest next c p) ∙ h)
]

pub read_event-read_failed :
    (end why : ReadError) (input : Text) → read_event end input ≡ read_failed why → why ≡ end
unfolding read_event read_from
read_event-read_failed end why input h =
    read_loop-read_failed end why (suc (length input)) input no_event h

pub read_event-nil : (end : ReadError) → read_event end [] ≡ read_failed end
unfolding read_event read_from read_loop cut at_end ◌==◌
read_event-nil eof = refl
read_event-nil broken = refl
