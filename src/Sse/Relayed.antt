-- ===== src/Sse/Relayed.antt =====
-- Relaying a stream of events to a client.
use reflow_gateway.Base.{
  ℕ, ◌+◌, ◌-◌, ◌≤◌, ◌≡◌, refl, sym, ◌∙◌, ap, ◌⊎◌, inl, inr, arith, Bool, true, none, some, List, [],
  ◌∷◌, ◌++◌, map, append-nil, append_assoc, All, length,
}
use reflow_gateway.Base.Concat.{concat}
use reflow_gateway.Base.Text.{Text}
use reflow_gateway.Sse.{SseEvent, ReadError}
use reflow_gateway.Sse.Fields.{IsCarried}
use reflow_gateway.Sse.Writer.{SseWriter, event_writes, write_event}
use reflow_gateway.Sse.Written.{wire, write_event-sent, write_event-succeeds}
use reflow_gateway.Sse.Heard.{sse_connect-wires}
use reflow_gateway.Sse.Stream.{
  closed, closing, answered, sse_connect, done, error, upstream, ProxyEnd, cancelled,
  upstream_failed, upstream_closed, proxy_sse, Turn,
}

-- The number of writes that the events take.
unfoldable pub rounds : List SseEvent → ℕ
rounds [] = 0
rounds (e ∷ es) = length (event_writes e) + rounds es

-- The turns of ProxySSE's select while the goroutine of Connect sends the events and then ends as
-- `end` says, in any order that select may pick: an event is taken in order; the channel of errors
-- gives nothing when it is closed, and the error of the stream, if it has one, even before events
-- that wait; the context, if it is `ended`, may be taken at any time.
pub data Schedule (end : ReadError) (ended : Bool) : List SseEvent → List Turn → Type 0 where
  closes : Schedule end ended [] (upstream none ∷ [])
  hears :
      {e : SseEvent} {es : List SseEvent} {ts : List Turn}
      → Schedule end ended es ts
      → Schedule end ended (e ∷ es) (upstream (some e) ∷ ts)
  idles :
      {es : List SseEvent} {ts : List Turn}
      → Schedule end ended es ts
      → Schedule end ended es (error none ∷ ts)
  fails :
      {es : List SseEvent} {why : ReadError}
      → closing end ≡ closed (some why)
      → Schedule end ended es (error (some why) ∷ [])
  cancels : {es : List SseEvent} → ended ≡ true → Schedule end ended es (done ∷ [])

-- Why ProxySSE returns before all events are sent: the stream's error or the context.
abbrev pub Stops : ReadError → Bool → ProxyEnd → Type 0
Stops end ended how =
    ((why : ReadError) × (closing end ≡ closed (some why)) × (how ≡ upstream_failed why))
    ⊎ ((ended ≡ true) × (how ≡ cancelled))

-- All events are sent and the channel is closed, or it stops early, with the first ones sent.
abbrev pub Relays : ReadError → Bool → List SseEvent → Text → ProxyEnd × SseWriter → Type 0
Relays end ended es before result =
    ((result.0 ≡ upstream_closed) × (result.1.sent ≡ before ++ concat (map wire es)))
    ⊎ (Stops end ended result.0
        × ((heard : List SseEvent) × ((rest : List SseEvent) × (es ≡ heard ++ rest))
            × (result.1.sent ≡ before ++ concat (map wire heard))))

Relays-cons :
    (end : ReadError) (ended : Bool) (e : SseEvent) (es : List SseEvent) (before middle : Text)
    (result : ProxyEnd × SseWriter)
    → middle ≡ before ++ wire e
    → Relays end ended es middle result
    → Relays end ended (e ∷ es) before result
unfolding concat
Relays-cons end ended e es before middle result m (inl (how, sent)) =
    inl (how, sent ∙ ap (λ s. s ++ concat (map wire es)) m ∙ append_assoc before (wire e) _)
Relays-cons end ended e es before middle result m (inr (stop, (heard, (rest, split), sent))) = inr (
  stop,
  (
    e ∷ heard,
    (rest, ap (λ l. e ∷ l) split),
    sent ∙ ap (λ s. s ++ concat (map wire heard)) m ∙ append_assoc before (wire e) _,
  ),
)

proxy_sse-Relays :
    (end : ReadError) (ended : Bool) {es : List SseEvent} {ts : List Turn} (w : SseWriter)
    → Schedule end ended es ts
    → rounds es ≤ w.accepts
    → Relays end ended es w.sent (proxy_sse ts w)
unfolding proxy_sse concat rounds
proxy_sse-Relays end ended w closes h = inl (refl, sym (append-nil w.sent))
proxy_sse-Relays end ended w (hears {e} {es} {ts} later) h =
    let done = write_event-succeeds e w (w.accepts - length (event_writes e)) (omega arith) in
    let sent = write_event-sent e w done.0 in
    let ih = proxy_sse-Relays end ended (write_event e w).1 later (omega (arith, done.1)) in
    rw (done.0, proxy_sse)
      (Relays-cons end ended e es w.sent (write_event e w).1.sent (proxy_sse ts (write_event e w).1)
        sent.0 ih)
proxy_sse-Relays end ended w (idles later) h = proxy_sse-Relays end ended w later h
proxy_sse-Relays end ended {es} w (fails {why} k) h =
    inr (inl (why, k, refl), ([], (es, refl), sym (append-nil w.sent)))
proxy_sse-Relays end ended {es} w (cancels k) h =
    inr (inr (k, refl), ([], (es, refl), sym (append-nil w.sent)))

-- From a body of written events, with the conditions under which one is read back, Connect, if its context
-- does not end, hears exactly those events. However the select of ProxySSE then picks among them, the stream's error
-- and the context, to a client whose connection takes the writes: ProxySSE returns when the channel
-- of events closes and has sent the bytes of the body, or it returns the error that the stream
-- ended with or that of the ended context and has sent the bytes of the first events.
pub proxy_sse-sse_connect :
    (end : ReadError) (ended : Bool) (es : List SseEvent) (ts : List Turn) (w : SseWriter)
    → All IsCarried es
    → rounds es ≤ w.accepts
    → Schedule end ended es ts
    → (sse_connect (answered 200 (concat (map wire es)) end) ≡ some (es, closing end))
      × Relays end ended es w.sent (proxy_sse ts w)
proxy_sse-sse_connect end ended es ts w c h s =
    (sse_connect-wires end es c, proxy_sse-Relays end ended w s h)
