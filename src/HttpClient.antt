-- ===== src/HttpClient.antt =====
-- backend/internal/mcp/client.go: the client of an upstream server over HTTP. The requests that it
-- makes go to a `Network`; the goroutine that reads the event stream is `route_event`, applied to
-- the events that arrive while a request waits. A wait ends with the events that have arrived.
pub mod Handshake
pub mod Headers
pub mod Calls
pub mod Kept
pub mod Opened
use reflow_gateway.Base.{
  ℕ, suc, ◌+◌, Bool, true, false, not, ◌&&◌, ◌||◌, Option, none, some, List, [], ◌∷◌, ◌++◌, eqb,
  if◌then◌else◌, length,
}
use reflow_gateway.Base.Text.{Text, lit, ◌==◌}
use reflow_gateway.HttpClient.Headers.{header_set, trim_space, trim_left, trim_right, starts_with}
use reflow_gateway.Base.Maps.{Map, lookup, insert, delete}
use reflow_gateway.Base.Results.{Result, ok, err, Error, failure, ◌>>=◌}
use reflow_gateway.Mcp.{ServerCapabilities}
use reflow_gateway.Proxy.Clients.{ClientConfig}
use reflow_gateway.Sse.{SseEvent, ReadError}
use reflow_gateway.Sse.Decimal.{decimal}
use reflow_gateway.Sse.Stream.{parse_sse_response_body, listen}

pub data TransportType : Type 0 where
  streamable_http : TransportType
  sse : TransportType

-- A JSON-RPC request and response; ids, parameters and results are raw JSON.
pub record Request : Type 0 where
  pub id : Text
  pub method : Text
  pub params : Text

pub record RpcResponse : Type 0 where
  pub id : Option Text
  pub error : Option Text
  pub result : Text

-- `sse_responses` gives the number of the channel on which the request with an id waits.
pub record Client : Type 0 where
  pub url : Text
  pub auth_token : Text
  pub auth_header : Text
  pub custom_headers : Map Text
  pub transport_type : TransportType
  pub session_id : Text
  pub initialized : Bool
  pub capabilities : Option ServerCapabilities
  pub message_endpoint : Text
  pub sse_responses : Map ℕ
  pub channels : ℕ
  pub next_id : ℕ

-- What the HTTP client makes of a POST.
pub record HttpReply : Type 0 where
  pub status : ℕ
  pub session_id : Text
  pub is_event_stream : Bool
  pub body : Text

-- How a wait for the event stream ends if no response comes.
pub data Waited : Type 0 where
  stream_closed : Waited
  wait_cancelled : Waited
  timed_out : Waited

pub record Stream : Type 0 where
  pub status : ℕ
  pub is_event_stream : Bool
  pub body : Text
  pub end : ReadError

-- The servers and libraries that the client calls: the HTTP client for a POST and for the GET of an
-- event stream, with URL and headers, the answer to a notification, what arrives on the stream
-- after a POST, the JSON decoder, and url.Parse with ResolveReference.
pub record Network : Type 0 where
  pub get : Text → Map Text → Option Stream
  pub post : Text → Map Text → Request → Option HttpReply
  pub notify : Text → Map Text → Text → Option ℕ
  pub arrivals : Request → List SseEvent × Waited
  pub decode : Text → Option RpcResponse
  pub decode_capabilities : Text → Option ServerCapabilities
  pub resolve : Text → Text → Option Text

unfoldable pub new_client : ClientConfig → Client
new_client cfg = record {
  url = cfg.url;
  auth_token = cfg.auth_token;
  auth_header = cfg.auth_header;
  custom_headers = cfg.custom_headers;
  transport_type = if cfg.transport_type == lit "sse" then sse else streamable_http;
  session_id = [];
  initialized = false;
  capabilities = none;
  message_endpoint = [];
  sse_responses = [];
  channels = 0;
  next_id = 0;
}

-- allocID
unfoldable pub alloc_id : Client → Text × Client
alloc_id c = (decimal (suc c.next_id), record c { next_id = suc c.next_id })

unfoldable pub apply_auth_headers : Client → Map Text → Map Text
apply_auth_headers c headers =
    let name = if c.auth_header == [] then lit "Authorization" else c.auth_header in
    if c.auth_token == []
    then headers
    else if name == lit "Authorization"
    then header_set name (lit "Bearer " ++ c.auth_token) headers
    else header_set name c.auth_token headers

unfoldable pub apply_custom_headers : Map Text → Map Text → Map Text
apply_custom_headers [] headers = headers
apply_custom_headers ((key, value) ∷ custom) headers =
    apply_custom_headers custom (header_set key value headers)

unfoldable pub session_header : Client → Map Text → Map Text
session_header c headers =
    if c.session_id == [] then headers else header_set (lit "Mcp-Session-Id") c.session_id headers

-- The headers that sendRequest and sendNotification set, but for Accept.
unfoldable pub request_headers : Client → Map Text → Map Text
request_headers c headers = apply_custom_headers c.custom_headers (
    apply_auth_headers c
      (session_header c (header_set (lit "MCP-Protocol-Version") (lit "2025-06-18") headers)))

abbrev pub content_type : Map Text
content_type = header_set (lit "Content-Type") (lit "application/json") []

abbrev pub accepting : Map Text
accepting = header_set (lit "Accept") (lit "application/json, text/event-stream") content_type

unfoldable pub is_sse : TransportType → Bool
is_sse sse = true
is_sse streamable_http = false

unfoldable pub target_url : Client → Text
target_url c =
    if is_sse c.transport_type && not (c.message_endpoint == []) then c.message_endpoint else c.url

unfoldable pub deliver_on :
    Option ℕ → Text → RpcResponse → Client → Option (ℕ × RpcResponse) × Client
deliver_on none id r c = (none, c)
deliver_on (some channel) id r c =
    (some (channel, r), record c { sse_responses = delete id c.sse_responses })

unfoldable pub deliver_to : Option Text → RpcResponse → Client → Option (ℕ × RpcResponse) × Client
deliver_to none r c = (none, c)
deliver_to (some id) r c = deliver_on (lookup id c.sse_responses) id r c

-- The background reader: a response goes to the channel under its id, if there is one, and the
-- entry is taken out.
unfoldable pub deliver_response : RpcResponse → Client → Option (ℕ × RpcResponse) × Client
deliver_response r c = deliver_to r.id r c

unfoldable pub route_event : Network → SseEvent → Client → Option (ℕ × RpcResponse) × Client
route_event net e c =
    if (e.event == lit "message") && not (e.event_data == [])
    then elim (net.decode e.event_data) [ none ↦ (none, c) | some r ↦ deliver_response r c ]
    else (none, c)

abbrev pub why : Waited → Text
why stream_closed = lit "SSE connection closed while waiting for response"
why wait_cancelled = lit "context canceled"
why timed_out = lit "timeout waiting for SSE response"

-- The select on the channel of the request, while events arrive.
unfoldable pub await : Network → ℕ → List SseEvent → Waited → Client → Result RpcResponse × Client
await net channel [] ends c = (err (failure (why ends)), c)
await net channel (e ∷ es) ends c =
    let routed = route_event net e c in
    let rest = await net channel es ends routed.1 in
    elim routed.0 [
      | none ↦ rest
      | some (reached, r) ↦ if eqb reached channel then (ok r, routed.1) else rest
    ]

unfoldable pub or_failure {ℓ} : {A : Type ℓ} → Text → Option A → Result A
or_failure message none = err (failure message)
or_failure message (some a) = ok a

-- The answer of a POST, by its status. `waiting` is the channel of an SSE request.
unfoldable pub read_reply :
    Network → Request → Option ℕ → HttpReply → Client → Result RpcResponse × Client
read_reply net req waiting reply c =
    if eqb reply.status 200
    then (
      or_failure (lit "failed to parse response") (
          if reply.is_event_stream
          then parse_sse_response_body net.decode reply.body
          else net.decode reply.body),
      c,
    )
    else if eqb reply.status 202
    then elim waiting [
      | none ↦ (err (failure (lit "received 202 Accepted but no SSE channel")), c)
      | some channel ↦ await net channel (net.arrivals req).0 (net.arrivals req).1 c
    ]
    else (err (failure (lit "upstream status")), c)

-- c.sseResponses[reqID] = responseCh, for the SSE transport.
unfoldable pub register_channel : Request → Client → Option ℕ × Client
register_channel req c =
    if is_sse c.transport_type
    then (
      some c.channels,
      record c {
        sse_responses = insert req.id c.channels c.sse_responses;
        channels = suc c.channels;
      },
    )
    else (none, c)

-- The deferred delete(c.sseResponses, string(req.ID)).
unfoldable pub unregister_channel : Request → Option ℕ → Client → Client
unregister_channel req none c = c
unregister_channel req (some channel) c = record c { sse_responses = delete req.id c.sse_responses }

unfoldable pub keep_session : HttpReply → Client → Client
keep_session reply c =
    if reply.session_id == [] then c else record c { session_id = reply.session_id }

unfoldable pub exchange : Network → Request → Option ℕ → Client → Result RpcResponse × Client
exchange net req waiting c = elim (net.post (target_url c) (request_headers c accepting) req) [
  | none ↦ (err (failure (lit "request failed")), c)
  | some reply ↦ read_reply net req waiting reply (keep_session reply c)
]

unfoldable pub send_request : Network → Request → Client → Result RpcResponse × Client
send_request net req c =
    let registered = register_channel req c in
    let answered = exchange net req registered.0 registered.1 in
    (answered.0, unregister_channel req registered.0 answered.1)

-- sendNotification, of a notification without parameters.
unfoldable pub send_notification : Network → Text → Client → Result {0} Unit
send_notification net method c =
    elim (net.notify (target_url c) (request_headers c content_type) method) [
      | none ↦ err (failure (lit "notification failed"))
      | some status ↦
          if eqb status 200 || eqb status 202 || eqb status 204
          then ok tt
          else err (failure (lit "notification status"))
    ]
