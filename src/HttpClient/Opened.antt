-- ===== src/HttpClient/Opened.antt =====
-- Initialize where Streamable HTTP fails.
use reflow_gateway.Base.{◌≡◌, refl, sym, subst, ap, ◌∙◌, ◌⊎◌, false, inl, inr}
use reflow_gateway.Base.Text.{Text, lit}
use reflow_gateway.Base.Results.{Result, Result-cases, Error, ok, err, failure}
use reflow_gateway.Mcp.{ServerCapabilities}
use reflow_gateway.HttpClient.Kept.{send_request-kept}
use reflow_gateway.HttpClient.{
  alloc_id, Request, Client, Network, is_sse, TransportType, sse, streamable_http,
}
use reflow_gateway.HttpClient.Handshake.{
  call, connect_sse, sse_url, do_initialize, fall_back, after_fall_back, after_http, initialize,
}

-- A handshake that fails leaves the URL and the transport.
do_initialize-kept :
    (net : Network) (params : Text) (c : Client) (e : Error)
    → (do_initialize net params c).0 ≡ err e
    → ((do_initialize net params c).1.url ≡ c.url)
      × ((do_initialize net params c).1.transport_type ≡ c.transport_type)
unfolding do_initialize call alloc_id
do_initialize-kept net params c e h =
    let request : Request = record {
      id = (alloc_id c).0;
      method = lit "initialize";
      params = params;
    } in
    let url_kept = send_request-kept (λ d. d.url) (λ d m n s. refl) net request (alloc_id c).1 in
    let kind_kept =
      send_request-kept (λ d. d.transport_type) (λ d m n s. refl) net request (alloc_id c).1 in
    elim (Result-cases (call net net.decode_capabilities (lit "initialize") params c).0) [
      | inl (f, r) ↦ rw (r, do_initialize) (url_kept, kind_kept)
      | inr (capabilities, r) ↦ rw (r, do_initialize) (url_kept, kind_kept)
    ]

is_sse-streamable : (t : TransportType) → is_sse t ≡ false → t ≡ streamable_http
unfolding is_sse
is_sse-streamable streamable_http h = refl
is_sse-streamable sse h = cc

-- The client that tries an event stream at a URL.
abbrev pub trying : Client → Text → Client
trying c url = record c { transport_type = sse; url = url }

fall_back_first :
    (net : Network) (c connected : Client)
    → connect_sse net (trying c c.url) ≡ ok connected
    → fall_back net c ≡ (ok tt, connected)
unfolding fall_back
fall_back_first net c connected k = rw (k, fall_back) refl

fall_back_second :
    (net : Network) (c connected : Client) (why : Error)
    → connect_sse net (trying c c.url) ≡ err why
    → connect_sse net (trying c (sse_url c.url)) ≡ ok connected
    → fall_back net c ≡ (ok tt, connected)
unfolding fall_back
fall_back_second net c connected why k l = rw (k, l, fall_back) refl

-- What became of Initialize: a stream at the first URL, or at the second, over which the handshake
-- is made; or none, and an error with the URL and the transport as they were.
abbrev pub FellBack :
    Network → Text → Text → TransportType → Client → Result ServerCapabilities × Client → Type 0
FellBack net params url kind c result =
    ((connected : Client) × (connect_sse net (trying c url) ≡ ok connected)
      × (result ≡ do_initialize net params connected))
    ⊎ ((connected : Client) × ((why : Error) × (connect_sse net (trying c url) ≡ err why))
        × (connect_sse net (trying c (sse_url url)) ≡ ok connected)
        × (result ≡ do_initialize net params connected))
    ⊎ (((why : Error) × (connect_sse net (trying c url) ≡ err why))
        × ((why : Error) × (connect_sse net (trying c (sse_url url)) ≡ err why))
        × ((why : Error) × (result.0 ≡ err why))
        × (result.1.url ≡ url)
        × (result.1.transport_type ≡ kind))

after_http-FellBack :
    (net : Network) (params : Text) (r : Result ServerCapabilities × Client) (e : Error)
    → r.0 ≡ err e
    → is_sse r.1.transport_type ≡ false
    → FellBack net params r.1.url r.1.transport_type r.1 (after_http net params r)
unfolding after_http after_fall_back fall_back
after_http-FellBack net params (ok found, c) e h t = cc
after_http-FellBack net params (err g, c) e h t =
    elim (Result-cases (connect_sse net (trying c c.url))) [
      | inr (connected, k) ↦
          inl (connected, k, ap (after_fall_back net params) (fall_back_first net c connected k))
      | inl (why, k) ↦ elim (Result-cases (connect_sse net (trying c (sse_url c.url)))) [
        | inr (connected, l) ↦ inr (
            inl (
              connected,
              (why, k),
              l,
              ap (after_fall_back net params) (fall_back_second net c connected why k l),
            ))
        | inl (why', l) ↦
            let back : Client = record c { transport_type = streamable_http } in
            let none_up : Result (Unit {0}) × Client =
              (err (failure (lit "all transports failed")), back) in
            let fell : fall_back net c ≡ none_up = rw (k, l, fall_back) refl in
            let ended : after_http net params (err g, c)
                ≡ (err (failure (lit "all transports failed")), back) =
              ap (after_fall_back net params) fell in
            let same = sym (is_sse-streamable c.transport_type t) in
            inr (
              inr (
                (why, k),
                (why', l),
                (failure (lit "all transports failed"), ap (λ r. r.0) ended),
                ap (λ r. r.1.url) ended,
                ap (λ r. r.1.transport_type) ended ∙ same,
              ))
      ]
    ]

-- Where the handshake over Streamable HTTP fails, Initialize tries the event stream at the URL and,
-- only if that fails, at the URL with /sse behind it, makes the handshake over the first that
-- connects, and if none does, returns an error with the URL and the transport as they were.
pub initialize-FellBack :
    (net : Network) (params : Text) (c : Client) (e : Error)
    → is_sse c.transport_type ≡ false
    → (do_initialize net params c).0 ≡ err e
    → FellBack net params c.url c.transport_type
        (do_initialize net params c).1
        (initialize net params c)
unfolding initialize
initialize-FellBack net params c e t h =
    let (url_kept, kind_kept) = do_initialize-kept net params c e h in
    let fell = after_http-FellBack net params (do_initialize net params c) e h (rw kind_kept t) in
    rw (t, initialize)
      (subst
        (λ u.
          FellBack net params u c.transport_type (do_initialize net params c).1
            (after_http net params (do_initialize net params c)))
        url_kept
        (subst
          (λ k.
            FellBack net params (do_initialize net params c).1.url k (do_initialize net params c).1
              (after_http net params (do_initialize net params c)))
          kind_kept fell))
