-- ===== src/SseHub/Delivered.antt =====
-- What the goroutine of a hub has written when no event waits any more.
use reflow_gateway.Base.{
  ℕ, zero, suc, ◌-◌, ◌≤◌, ◌≡◌, refl, sym, ◌∙◌, ap, arith, some, List, [], ◌∷◌, ◌++◌, map,
  append-nil, append_assoc, length,
}
use reflow_gateway.Base.Text.{Text}
use reflow_gateway.Base.Concat.{concat}
use reflow_gateway.Base.Maps.{lookup}
use reflow_gateway.Sse.{SseEvent}
use reflow_gateway.Sse.Writer.{event_writes}
use reflow_gateway.Sse.Written.{wire, write_event-sent, write_event-succeeds}
use reflow_gateway.Sse.Relayed.{rounds}
use reflow_gateway.SseHub.{SseConnection, SseHub, receive, deliver, write_to}
use reflow_gateway.SseHub.Steps.{lookup-write_to_all}

-- So many turns of `run`, one after another.
unfoldable pub turns : ℕ → SseHub → SseHub
turns zero h = h
turns (suc n) h = turns n (deliver h)

-- The connection under an id has been sent a text.
abbrev Sent : Text → Text → SseHub → Type 0
Sent id text h =
    (conn : SseConnection) × (lookup id h.connections ≡ some conn) × (conn.writer.sent ≡ text)

deliver_queue :
    (h : SseHub) (queue : List SseEvent) → h.broadcast ≡ queue → deliver h ≡ receive queue h
unfolding deliver
deliver_queue h queue q = λ i. receive (q i) h

lookup-receive :
    (e : SseEvent) (queue : List SseEvent) (h : SseHub) (id : Text) (conn : SseConnection)
    → lookup id h.connections ≡ some conn
    → lookup id (receive (e ∷ queue) h).connections ≡ some (write_to e conn)
unfolding receive
lookup-receive e queue h id conn c = lookup-write_to_all e id h.connections ∙ rw c refl

turns-sent :
    (queue : List SseEvent) (h : SseHub) (id : Text) (conn : SseConnection)
    → h.broadcast ≡ queue
    → lookup id h.connections ≡ some conn
    → rounds queue ≤ conn.writer.accepts
    → ((turns (length queue) h).broadcast ≡ [])
      × Sent id (conn.writer.sent ++ concat (map wire queue)) (turns (length queue) h)
unfolding turns concat rounds write_to
turns-sent [] h id conn q c r = (q, (conn, c, sym (append-nil conn.writer.sent)))
turns-sent (e ∷ queue) h id conn q c r =
    let done =
      write_event-succeeds e conn.writer (conn.writer.accepts - length (event_writes e))
        (omega arith) in
    let sent = write_event-sent e conn.writer done.0 in
    let (empty, (last, found, text)) =
      turns-sent queue (receive (e ∷ queue) h) id (write_to e conn) (unfold receive in refl)
        (lookup-receive e queue h id conn c) (unfold write_to in omega (arith, done.1)) in
    rw (deliver_queue h (e ∷ queue) q, turns)
      (
        empty,
        (
          last,
          found,
          text
              ∙ ap (λ t. t ++ concat (map wire queue)) sent.0
              ∙ append_assoc conn.writer.sent (wire e) _,
        ),
      )

-- Liveness: after as many turns as there are events waiting, none waits, and every connection
-- that takes their writes has been sent them all, in order, once.
pub deliver-all :
    (h : SseHub) (id : Text) (conn : SseConnection)
    → lookup id h.connections ≡ some conn
    → rounds h.broadcast ≤ conn.writer.accepts
    → ((turns (length h.broadcast) h).broadcast ≡ [])
      × Sent id (conn.writer.sent ++ concat (map wire h.broadcast)) (turns (length h.broadcast) h)
deliver-all h id conn c r = turns-sent h.broadcast h id conn refl c r
