-- ===== src/HttpClient/Handshake.antt =====
-- Connecting a client, and the requests that an answer is decoded from:
-- backend/internal/mcp/client.go, from connectSSE to Initialize.
use reflow_gateway.Base.{
  suc, true, not, ◌||◌, Option, none, some, List, [], ◌∷◌, ◌++◌, eqb, if◌then◌else◌, length,
}
use reflow_gateway.Base.Text.{Text, lit, ◌==◌}
use reflow_gateway.HttpClient.Headers.{header_set, trim_space, trim_left, trim_right, starts_with}
use reflow_gateway.Base.Maps.{Map}
use reflow_gateway.Base.Results.{Result, ok, err, failure, ◌>>=◌}
use reflow_gateway.Mcp.{ServerCapabilities}
use reflow_gateway.Sse.{SseEvent}
use reflow_gateway.Sse.Stream.{listen}
use reflow_gateway.HttpClient.{
  RpcResponse, Client, Stream, Network, alloc_id, apply_auth_headers, apply_custom_headers, is_sse,
  or_failure, send_request, sse, streamable_http,
}

-- resolveEndpoint
unfoldable pub resolve_endpoint : Network → Client → Text → Text
resolve_endpoint net c endpoint =
    let trimmed = trim_space endpoint in
    if starts_with (lit "http://") trimmed || starts_with (lit "https://") trimmed
    then trimmed
    else elim (net.resolve c.url trimmed) [
      | some absolute ↦ absolute
      | none ↦ trim_right b'/' c.url ++ (lit "/" ++ trim_left b'/' trimmed)
    ]

-- The data of the first event `endpoint`.
unfoldable pub first_endpoint : List SseEvent → Option Text
first_endpoint [] = none
first_endpoint (e ∷ es) =
    let rest = first_endpoint es in if e.event == lit "endpoint" then some e.event_data else rest

abbrev pub stream_headers : Client → Map Text
stream_headers c = apply_custom_headers c.custom_headers (
    apply_auth_headers c (
      header_set (lit "Connection") (lit "keep-alive") (
        header_set (lit "Cache-Control") (lit "no-cache")
          (header_set (lit "Accept") (lit "text/event-stream") []))))

-- connectSSE; a stream on which no endpoint comes in time has none in its body.
unfoldable pub connect_stream : Network → Client → Stream → Result Client
connect_stream net c stream =
    if not (eqb stream.status 200)
    then err (failure (lit "SSE connect status"))
    else if not stream.is_event_stream
    then err (failure (lit "unexpected Content-Type"))
    else elim (first_endpoint (listen stream.end (suc (length stream.body)) stream.body).0) [
      | none ↦ err (failure (lit "SSE read error"))
      | some endpoint ↦ ok (record c { message_endpoint = resolve_endpoint net c endpoint })
    ]

unfoldable pub connect_sse : Network → Client → Result Client
connect_sse net c = elim (net.get c.url (stream_headers c)) [
  | none ↦ err (failure (lit "SSE connect failed"))
  | some stream ↦ connect_stream net c stream
]

-- The error of a response, or its result decoded.
unfoldable pub result_of {ℓ} : {A : Type ℓ} → (Text → Option A) → RpcResponse → Result A
result_of decode r = elim r.error [
  | some message ↦ err (failure message)
  | none ↦ or_failure (lit "failed to unmarshal result") (decode r.result)
]

-- ListTools, CallTool, ListResources, ReadResource, ListPrompts and GetPrompt: a request with a
-- fresh id, whose result is decoded. `params` is their json.Marshal.
unfoldable pub call {ℓ} :
    {A : Type ℓ} → Network → (Text → Option A) → Text → Text → Client → Result A × Client
call net decode method params c =
    let allocated = alloc_id c in
    let answered =
      send_request net (record { id = allocated.0; method = method; params = params })
        allocated.1 in
    (answered.0 >>= result_of decode, answered.1)

-- doInitialize. The notification that follows changes nothing: a failure is logged.
unfoldable pub do_initialize : Network → Text → Client → Result ServerCapabilities × Client
do_initialize net params c =
    let called = call net net.decode_capabilities (lit "initialize") params c in
    elim called.0 [
      | err e ↦ (err e, called.1)
      | ok capabilities ↦ (
        ok capabilities,
        record called.1 { initialized = true; capabilities = some capabilities },
      )
    ]

-- The second URL that is tried for an event stream.
abbrev pub sse_url : Text → Text
sse_url url = trim_right b'/' url ++ lit "/sse"

-- The fallback to an event stream: the configured URL, then the one with /sse behind it. Both
-- change the client in place, and a failure puts back the URL and the transport.
unfoldable pub fall_back : Network → Client → Result (Unit {0}) × Client
fall_back net c =
    let tried = record c { transport_type = sse } in
    elim (connect_sse net tried) [
      | ok connected ↦ (ok tt, connected)
      | err _ ↦
          let again = record tried { url = sse_url c.url } in
          elim (connect_sse net again) [
            | ok connected ↦ (ok tt, connected)
            | err _ ↦ (
              err (failure (lit "all transports failed")),
              record again { url = c.url; transport_type = streamable_http },
            )
          ]
    ]

-- The handshake over the event stream, if there is one.
unfoldable pub after_fall_back :
    Network → Text → Result (Unit {0}) × Client → Result ServerCapabilities × Client
after_fall_back net params (err why, c) = (err why, c)
after_fall_back net params (ok _, c) = do_initialize net params c

-- What follows when the attempt over Streamable HTTP is over.
unfoldable pub after_http :
    Network → Text → Result ServerCapabilities × Client → Result ServerCapabilities × Client
after_http net params (ok capabilities, c) = (ok capabilities, c)
after_http net params (err e, c) = after_fall_back net params (fall_back net c)

-- Initialize
unfoldable pub initialize : Network → Text → Client → Result ServerCapabilities × Client
initialize net params c =
    if is_sse c.transport_type
    then elim (connect_sse net c) [
      | err e ↦ (err e, c)
      | ok connected ↦ do_initialize net params connected
    ]
    else after_http net params (do_initialize net params c)
