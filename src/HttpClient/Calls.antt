-- ===== src/HttpClient/Calls.antt =====
-- Requests, their ids, and the responses that come back on the event stream.
use reflow_gateway.Base.{
  ℕ, suc, ◌<◌, ◌≡◌, refl, sym, ◌∙◌, ap, subst, arith, not, ◌&&◌, true, Bool-cases, inl, inr, ◌⊎◌,
  none, some, Option-cases, List, [], ◌∷◌, eqb, eqb_iff,
}
use reflow_gateway.Base.Text.{Text, lit, ◌==◌, ==_iff}
use reflow_gateway.Base.Maps.{
  Map, lookup, insert, delete, lookup-insert, lookup-delete, lookup-delete_self,
}
use reflow_gateway.Base.Results.{ok}
use reflow_gateway.Sse.{SseEvent}
use reflow_gateway.HttpClient.{
  Request, RpcResponse, Client, HttpReply, Waited, Network, is_sse, deliver_on, deliver_to,
  deliver_response, route_event, await, read_reply, register_channel, unregister_channel,
  keep_session, exchange, send_request, target_url, request_headers, apply_auth_headers,
  session_header, accepting,
}

-- A channel belongs to one id only.
abbrev pub Only : ℕ → Text → Map ℕ → Type 0
Only channel id waiting = (key : Text) → lookup key waiting ≡ some channel → key ≡ id

-- Every channel that is waited on is older than the next one.
abbrev pub Older : Client → Type 0
Older c =
    (key : Text) (channel : ℕ) → lookup key c.sse_responses ≡ some channel → channel < c.channels

delete-Only :
    (channel : ℕ) (id key : Text) (m : Map ℕ) → Only channel id m → Only channel id (delete key m)
delete-Only channel id key m h k e =
    let e' = sym (lookup-delete key k m) ∙ e in
    elim (Bool-cases (key == k)) [ inl t ↦ let e'' = rw t at e' in cc | inr f ↦ h k (rw f at e') ]

-- What a response does: nothing, or it reaches the channel under its id.
pub data Delivery (r : RpcResponse) (c : Client) : Type 0 where
  ignored : deliver_response r c ≡ (none, c) → Delivery r c
  reached :
      (id : Text) (channel : ℕ)
      → r.id ≡ some id
      → lookup id c.sse_responses ≡ some channel
      → deliver_response r c
        ≡ (some (channel, r), record c { sse_responses = delete id c.sse_responses })
      → Delivery r c

pub Delivery-cases : (r : RpcResponse) (c : Client) → Delivery r c
unfolding deliver_response deliver_to deliver_on
Delivery-cases r c = elim (Option-cases r.id) [
  | inl n ↦ ignored (λ i. deliver_to (n i) r c)
  | inr (id, e) ↦ elim (Option-cases (lookup id c.sse_responses)) [
    | inl n ↦ ignored ((λ i. deliver_to (e i) r c) ∙ λ i. deliver_on (n i) id r c)
    | inr (channel, l) ↦
        reached id channel e l ((λ i. deliver_to (e i) r c) ∙ λ i. deliver_on (l i) id r c)
  ]
]

-- What an event of the stream does.
pub route_event-cases :
    (net : Network) (e : SseEvent) (c : Client)
    → (route_event net e c ≡ (none, c))
      ⊎ ((r : RpcResponse) × (route_event net e c ≡ deliver_response r c))
unfolding route_event
route_event-cases net e c =
    elim (Bool-cases ((e.event == lit "message") && not (e.event_data == []))) [
      | inl t ↦ elim (Option-cases (net.decode e.event_data)) [
        | inl n ↦ inl (rw (t, route_event) (rw n refl))
        | inr (r, d) ↦ inr (r, rw (t, route_event) (rw d refl))
      ]
      | inr f ↦ inl (rw (f, route_event) refl)
    ]

-- An event that reaches the channel of an id is a response with that id, and the channel stays
-- the id's only.
route_event-Only :
    (net : Network) (e : SseEvent) (c : Client) (channel : ℕ) (id : Text)
    → Only channel id c.sse_responses
    → Only channel id (route_event net e c).1.sse_responses
      × ((got : RpcResponse) → (route_event net e c).0 ≡ some (channel, got) → got.id ≡ some id)
route_event-Only net e c channel id h = elim (route_event-cases net e c) [
  | inl n ↦ rw n (h, λ got k. cc)
  | inr (r, d) ↦ elim (Delivery-cases r c) [
    | ignored g ↦ rw (d ∙ g) (h, λ got k. cc)
    | reached other number ri l g ↦ rw (d ∙ g) (
      delete-Only channel id other c.sse_responses h,
      λ got k.
          let same : r ≡ got = cc in
          let number_is : number ≡ channel = cc in
          let other_is : other ≡ id = h other (l ∙ ap some number_is) in
          ap (λ x. x.id) (sym same) ∙ ri ∙ ap some other_is,
    )
  ]
]

-- The response that a wait ends with has the id of the request.
await-matched :
    (net : Network) (channel : ℕ) (id : Text) (es : List SseEvent) (ends : Waited) (c : Client)
    (r : RpcResponse)
    → Only channel id c.sse_responses
    → (await net channel es ends c).0 ≡ ok r
    → r.id ≡ some id
unfolding await
await-matched net channel id [] ends c r h k = cc
await-matched net channel id (e ∷ es) ends c r h k =
    let routed = route_event-Only net e c channel id h in
    elim (Option-cases (route_event net e c).0) [
      | inl n ↦
          await-matched net channel id es ends (route_event net e c).1 r routed.0
            (rw (n, await) at k)
      | inr ((number, got), g) ↦ elim (Bool-cases (eqb number channel)) [
        | inl t ↦
            let k' = rw (g, await) at k in
            let k'' = rw t at k' in
            let same : got ≡ r = cc in
            let number_is : number ≡ channel = (eqb_iff number channel).0 t in
            routed.1 r (g ∙ λ i. some (number_is i, same i))
        | inr f ↦
            let k' = rw (g, await) at k in
            await-matched net channel id es ends (route_event net e c).1 r routed.0 (rw f at k')
      ]
    ]

-- A request that waits, with its entry in the table.
abbrev pub waiting_for : Request → Client → Client
waiting_for req c = record c {
  sse_responses = insert req.id c.channels c.sse_responses;
  channels = suc c.channels;
}

pub register_channel-sse :
    (req : Request) (c : Client)
    → is_sse c.transport_type ≡ true
    → register_channel req c ≡ (some c.channels, waiting_for req c)
unfolding register_channel
register_channel-sse req c t = rw (t, register_channel) refl

waiting_for-Only :
    (req : Request) (c : Client)
    → Older c
    → Only c.channels req.id (waiting_for req c).sse_responses
waiting_for-Only req c older key e =
    let e' = sym (lookup-insert req.id key c.channels c.sse_responses) ∙ e in
    elim (Bool-cases (req.id == key)) [
      | inl t ↦ sym ((==_iff req.id key).0 t)
      | inr f ↦ let less = older key c.channels (rw f at e') in absurd (omega (arith, less))
    ]

keep_session-responses :
    (reply : HttpReply) (c : Client) → (keep_session reply c).sse_responses ≡ c.sse_responses
unfolding keep_session
keep_session-responses reply c = ground arith

exchange-accepted :
    (net : Network) (req : Request) (channel : ℕ) (c : Client) (reply : HttpReply)
    → net.post (target_url c) (request_headers c accepting) req ≡ some reply
    → reply.status ≡ 202
    → exchange net req (some channel) c
      ≡ await net channel (net.arrivals req).0 (net.arrivals req).1 (keep_session reply c)
unfolding exchange read_reply
exchange-accepted net req channel c reply p s = rw (p, exchange) (rw (s, read_reply) refl)

-- A response that comes on the event stream answers the request that waits for it, which waits no
-- more.
pub send_request-matched :
    (net : Network) (req : Request) (c : Client) (reply : HttpReply) (r : RpcResponse)
    → Older c
    → is_sse c.transport_type ≡ true
    → net.post (target_url c) (request_headers c accepting) req ≡ some reply
    → reply.status ≡ 202
    → (send_request net req c).0 ≡ ok r
    → (r.id ≡ some req.id) × (lookup req.id (send_request net req c).1.sse_responses ≡ none)
unfolding send_request unregister_channel target_url request_headers apply_auth_headers
    session_header
send_request-matched net req c reply r older t p s k =
    let accepted = exchange-accepted net req c.channels (waiting_for req c) reply p s in
    let k' = rw (register_channel-sse req c t) at k in
    rw (register_channel-sse req c t) (
      await-matched net c.channels req.id (net.arrivals req).0 (net.arrivals req).1
          (keep_session reply (waiting_for req c)) r
          (λ key e. waiting_for-Only req c older key (
            subst (λ m. lookup key m ≡ some c.channels)
              (keep_session-responses reply (waiting_for req c)) e))
          (ap (λ x. x.0) (sym accepted) ∙ k'),
      lookup-delete_self req.id _,
    )
