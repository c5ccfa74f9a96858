-- ===== src/Sse/Written.antt =====
-- What a write that succeeds has sent, and that it reads back.
use reflow_gateway.Base.{
  ℕ, zero, suc, ◌+◌, ◌≡◌, refl, sym, ◌∙◌, arith, Bool, true, false, inl, inr, List, [], ◌∷◌, ◌++◌,
  append-nil, append_assoc, length, ◌⊎◌,
}
use reflow_gateway.Base.Text.{Text}
use reflow_gateway.Base.Concat.{concat}
use reflow_gateway.Sse.{SseEvent, ReadError, found, read_event}
use reflow_gateway.Sse.Fields.{IsCarried}
use reflow_gateway.Sse.RoundTrip.{read_event-writes}
use reflow_gateway.Sse.Writer.{SseWriter, event_writes, write_all, flush, write_event}

-- The bytes of an event.
abbrev pub wire : SseEvent → Text
wire e = concat (event_writes e)

accepts-cases : (n : ℕ) → (n ≡ zero) ⊎ ((m : ℕ) × (n ≡ suc m))
accepts-cases zero = inl refl
accepts-cases (suc m) = inr (m, refl)

module _ (t : Text) (ts : List Text) (w : SseWriter) where
  write_all_broken : w.accepts ≡ zero → write_all (t ∷ ts) w ≡ (false, w)
  unfolding write_all
  write_all_broken e = ground (arith, e)

  write_all_more :
      (m : ℕ)
      → w.accepts ≡ suc m
      → write_all (t ∷ ts) w ≡ write_all ts (record w { sent = w.sent ++ t; accepts = m })
  unfolding write_all
  write_all_more m e = rw (e, write_all) refl

write_all-sent :
    (ts : List Text) (w : SseWriter)
    → (write_all ts w).0 ≡ true
    → (write_all ts w).1.sent ≡ w.sent ++ concat ts
unfolding concat
write_all-sent [] w h = unfold write_all in sym (append-nil w.sent)
write_all-sent (t ∷ ts) w h = elim (accepts-cases w.accepts) [
  | inl e ↦ let h' = rw (write_all_broken t ts w e) at h in cc
  | inr (m, e) ↦ rw (write_all_more t ts w m e) (
      write_all-sent ts _ (rw (write_all_more t ts w m e) at h) ∙ append_assoc w.sent t (concat ts))
]

-- Enough room is enough.
write_all-succeeds :
    (ts : List Text) (w : SseWriter) (left : ℕ)
    → w.accepts ≡ length ts + left
    → ((write_all ts w).0 ≡ true) × ((write_all ts w).1.accepts ≡ left)
write_all-succeeds [] w left h = unfold write_all in (refl, omega arith)
write_all-succeeds (t ∷ ts) w left h =
    rw (write_all_more t ts w (length ts + left) (omega arith)) (write_all-succeeds ts _ left refl)

flush-result : (r : Bool × SseWriter) → (flush r).0 ≡ r.0
unfolding flush
flush-result (true, w) = refl
flush-result (false, w) = refl

flush-true :
    (r : Bool × SseWriter) → r.0 ≡ true → flush r ≡ (true, record r.1 { flushed = r.1.sent })
unfolding flush
flush-true (true, w) h = refl
flush-true (false, w) h = cc

-- A write that succeeds adds the bytes of the event to what was sent, and flushes them.
pub write_event-sent :
    (e : SseEvent) (w : SseWriter)
    → (write_event e w).0 ≡ true
    → ((write_event e w).1.sent ≡ w.sent ++ wire e)
      × ((write_event e w).1.flushed ≡ (write_event e w).1.sent)
unfolding write_event
write_event-sent e w h =
    let ok = sym (flush-result (write_all (event_writes e) w)) ∙ h in
    rw (flush-true (write_all (event_writes e) w) ok) (write_all-sent (event_writes e) w ok, refl)

pub write_event-succeeds :
    (e : SseEvent) (w : SseWriter) (left : ℕ)
    → w.accepts ≡ length (event_writes e) + left
    → ((write_event e w).0 ≡ true) × ((write_event e w).1.accepts ≡ left)
unfolding write_event
write_event-succeeds e w left h =
    let ok = write_all-succeeds (event_writes e) w left h in
    rw (flush-true (write_all (event_writes e) w) ok.0) (refl, ok.1)

pub read_event-write_event :
    (end : ReadError) (e : SseEvent) (w : SseWriter)
    → IsCarried e
    → (write_event e w).0 ≡ true
    → (t : Text) × ((write_event e w).1.sent ≡ w.sent ++ t)
      × ((write_event e w).1.flushed ≡ (write_event e w).1.sent)
      × ((rest : Text) → read_event end (t ++ rest) ≡ found e rest)
read_event-write_event end e w c h =
    let done = write_event-sent e w h in
    (wire e, done.0, done.1, λ rest. read_event-writes end e rest c)
