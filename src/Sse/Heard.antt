-- ===== src/Sse/Heard.antt =====
-- The channels of SSETransport.Connect: they close, and they carry the events that were written.
use reflow_gateway.Base.{
  ℕ, zero, suc, ◌≤◌, ◌<◌, ◌≡◌, refl, ap, arith, inl, inr, some, List, [], ◌∷◌, map, All, length,
  ◌⊎◌,
}
use reflow_gateway.Base.Text.{Text}
use reflow_gateway.Base.Concat.{concat}
use reflow_gateway.Sse.{
  SseEvent, ReadError, ReadResult, found, read_failed, out_of_fuel, read_event,
}
use reflow_gateway.Sse.Reader.{
  read_event-ends, read_event-shorter, read_event-read_failed, read_event-nil,
}
use reflow_gateway.Sse.Fields.{IsCarried}
use reflow_gateway.Sse.RoundTrip.{read_event-writes}
use reflow_gateway.Sse.Written.{wire}
use reflow_gateway.Sse.Stream.{closing, listen, answered, sse_connect}

ReadResult-cases :
    (r : ReadResult)
    → ((d : SseEvent) × (rest : Text) × (r ≡ found d rest))
      ⊎ (((why : ReadError) × (r ≡ read_failed why)) ⊎ (r ≡ out_of_fuel))
ReadResult-cases (found d rest) = inl (d, rest, refl)
ReadResult-cases (read_failed why) = inr (inl (why, refl))
ReadResult-cases out_of_fuel = inr (inr refl)

module _ (end : ReadError) where
  listen_found :
      (fuel : ℕ) (input rest : Text) (e : SseEvent)
      → read_event end input ≡ found e rest
      → listen end (suc fuel) input ≡ (e ∷ (listen end fuel rest).0, (listen end fuel rest).1)
  unfolding listen
  listen_found fuel input rest e h = rw (h, listen) refl

  listen_failed :
      (fuel : ℕ) (input : Text) (why : ReadError)
      → read_event end input ≡ read_failed why
      → listen end (suc fuel) input ≡ ([], closing why)
  unfolding listen
  listen_failed fuel input why h = rw (h, listen) refl

  listen-closes :
      (fuel : ℕ) (input : Text)
      → length input < fuel
      → ((listen end fuel input).1 ≡ closing end)
        × (length (listen end fuel input).0 ≤ length input)
  listen-closes zero input h = absurd (omega arith)
  listen-closes (suc fuel) input h = elim (ReadResult-cases (read_event end input)) [
    | inl (d, rest, r) ↦
        let less = read_event-shorter end input rest d r in
        let ih = listen-closes fuel rest (omega arith) in
        rw (listen_found fuel input rest d r) (ih.0, omega (arith, ih.1))
    | inr (inl (why, r)) ↦
        rw (listen_failed fuel input why r)
          (ap closing (read_event-read_failed end why input r), omega arith)
    | inr (inr r) ↦ absurd (read_event-ends end input r)
  ]

  -- Connect to a server that answers 200 comes to an end on any body: its channels close with
  -- the error of the body, io.EOF for none, after at most as many events as the body has bytes.
  pub sse_connect-closes :
      (body : Text)
      → (es : List SseEvent) × (sse_connect (answered 200 body end) ≡ some (es, closing end))
        × (length es ≤ length body)
  unfolding sse_connect
  sse_connect-closes body =
      let whole = listen-closes (suc (length body)) body (omega arith) in
      (
        (listen end (suc (length body)) body).0,
        λ i. some ((listen end (suc (length body)) body).0, whole.0 i),
        whole.1,
      )

  listen-wires :
      (es : List SseEvent) (fuel : ℕ)
      → All IsCarried es
      → length (concat (map wire es)) < fuel
      → listen end fuel (concat (map wire es)) ≡ (es, closing end)
  unfolding concat
  listen-wires es zero c h = absurd (omega arith)
  listen-wires [] (suc fuel) c h = listen_failed fuel (concat []) end (read_event-nil end)
  listen-wires (e ∷ es) (suc fuel) c h =
      let r = read_event-writes end e (concat (map wire es)) c.0 in
      let less = read_event-shorter end _ _ e r in
      let ih = listen-wires es fuel c.1 (omega arith) in rw (listen_found fuel _ _ e r, ih) refl

-- Connect receives the events that were written, in order, and nothing else.
pub sse_connect-wires :
    (end : ReadError) (es : List SseEvent)
    → All IsCarried es
    → sse_connect (answered 200 (concat (map wire es)) end) ≡ some (es, closing end)
unfolding sse_connect
sse_connect-wires end es c =
    ap some (listen-wires end es (suc (length (concat (map wire es)))) c (omega arith))
