-- ===== src/HttpClient/Kept.antt =====
-- What a request leaves as it was: whatever does not depend on the table of waiting requests and
-- the session id.
use reflow_gateway.Base.{
  ℕ, suc, ◌≡◌, refl, ◌∙◌, arith, Bool-cases, inl, inr, Option, none, some, Option-cases, List, [],
  ◌∷◌, eqb,
}
use reflow_gateway.Base.Text.{Text, ◌==◌}
use reflow_gateway.Base.Maps.{Map, insert, delete}
use reflow_gateway.Sse.{SseEvent}
use reflow_gateway.HttpClient.Calls.{Delivery-cases, ignored, reached, route_event-cases}
use reflow_gateway.HttpClient.{
  Request, Client, HttpReply, Waited, Network, is_sse, route_event, await, read_reply,
  register_channel, unregister_channel, keep_session, exchange, send_request, target_url,
  request_headers, accepting,
}

module _ {ℓ} {X : Type ℓ} (f : Client → X)
    (blind : (c : Client) (m : Map ℕ) (n : ℕ) (s : Text)
      → f (record c { sse_responses = m; channels = n; session_id = s }) ≡ f c) where
  route_event-kept : (net : Network) (e : SseEvent) (c : Client) → f (route_event net e c).1 ≡ f c
  route_event-kept net e c = elim (route_event-cases net e c) [
    | inl n ↦ rw n refl
    | inr (r, d) ↦ elim (Delivery-cases r c) [
      | ignored g ↦ rw (d ∙ g) refl
      | reached other number ri l g ↦
          rw (d ∙ g) (blind c (delete other c.sse_responses) c.channels c.session_id)
    ]
  ]

  await-kept :
      (net : Network) (channel : ℕ) (es : List SseEvent) (ends : Waited) (c : Client)
      → f (await net channel es ends c).1 ≡ f c
  unfolding await
  await-kept net channel [] ends c = refl
  await-kept net channel (e ∷ es) ends c =
      let here_same = route_event-kept net e c in
      let rest = await-kept net channel es ends (route_event net e c).1 ∙ here_same in
      elim (Option-cases (route_event net e c).0) [
        | inl n ↦ rw (n, await) rest
        | inr ((number, got), g) ↦
            rw (g, await)
              (elim (Bool-cases (eqb number channel)) [
                | inl t ↦ rw t here_same
                | inr o ↦ rw o rest
              ])
      ]

  keep_session-kept : (reply : HttpReply) (c : Client) → f (keep_session reply c) ≡ f c
  unfolding keep_session
  keep_session-kept reply c = elim (Bool-cases (reply.session_id == [])) [
    | inl t ↦ rw (t, keep_session) refl
    | inr n ↦ rw (n, keep_session) (blind c c.sse_responses c.channels reply.session_id)
  ]

  read_reply-kept :
      (net : Network) (req : Request) (waiting : Option ℕ) (reply : HttpReply) (c : Client)
      → f (read_reply net req waiting reply c).1 ≡ f c
  unfolding read_reply
  read_reply-kept net req none reply c = ground arith
  read_reply-kept net req (some channel) reply c =
      ground (arith, await-kept net channel (net.arrivals req).0 (net.arrivals req).1 c)

  exchange-kept :
      (net : Network) (req : Request) (waiting : Option ℕ) (c : Client)
      → f (exchange net req waiting c).1 ≡ f c
  unfolding exchange
  exchange-kept net req waiting c =
      elim (Option-cases (net.post (target_url c) (request_headers c accepting) req)) [
        | inl n ↦ rw (n, exchange) refl
        | inr (reply, p) ↦
            rw (p, exchange)
              (read_reply-kept net req waiting reply (keep_session reply c)
                ∙ keep_session-kept reply c)
      ]

  register_channel-kept : (req : Request) (c : Client) → f (register_channel req c).1 ≡ f c
  unfolding register_channel
  register_channel-kept req c = elim (Bool-cases (is_sse c.transport_type)) [
    | inl t ↦
        rw (t, register_channel)
          (blind c (insert req.id c.channels c.sse_responses) (suc c.channels) c.session_id)
    | inr n ↦ rw (n, register_channel) refl
  ]

  unregister_channel-kept :
      (req : Request) (waiting : Option ℕ) (c : Client) → f (unregister_channel req waiting c) ≡ f c
  unfolding unregister_channel
  unregister_channel-kept req none c = refl
  unregister_channel-kept req (some channel) c =
      blind c (delete req.id c.sse_responses) c.channels c.session_id

  pub send_request-kept :
      (net : Network) (req : Request) (c : Client) → f (send_request net req c).1 ≡ f c
  unfolding send_request
  send_request-kept net req c =
      unregister_channel-kept req (register_channel req c).0 _
      ∙ exchange-kept net req (register_channel req c).0 (register_channel req c).1
      ∙ register_channel-kept req c
