-- ===== src/Sse/Stream.antt =====
-- Streams of events: the goroutine of SSETransport.Connect, ProxySSE of
-- backend/internal/mcp/transport.go and parseSSEResponseBody of backend/internal/mcp/client.go.
use reflow_gateway.Base.{
  ℕ, zero, suc, true, false, Option, none, some, List, [], ◌∷◌, if◌then◌else◌, eqb, length,
}
use reflow_gateway.Base.Text.{Text, ◌==◌}
use reflow_gateway.Sse.{
  SseEvent, ReadError, eof, broken, found, read_failed, out_of_fuel, read_event,
}
use reflow_gateway.Sse.Writer.{SseWriter, write_event}

-- How the goroutine ends: it closes both channels, after an error on the one of errors.
pub data Closed : Type 0 where
  closed : Option ReadError → Closed
  unfinished : Closed

unfoldable pub closing : ReadError → Closed
closing eof = closed none
closing broken = closed (some broken)

unfoldable pub listen : ReadError → ℕ → Text → List SseEvent × Closed
listen end zero input = ([], unfinished)
listen end (suc fuel) input = elim (read_event end input) [
  | found e rest ↦ (e ∷ (listen end fuel rest).0, (listen end fuel rest).1)
  | read_failed why ↦ ([], closing why)
  | out_of_fuel ↦ ([], unfinished)
]

-- What the HTTP client makes of the request: no answer, or a status and a body with its end.
pub data Answer : Type 0 where
  unanswered : Answer
  answered : ℕ → Text → ReadError → Answer

-- Connect: none if it returns an error, else what is received on the two channels.
unfoldable pub sse_connect : Answer → Option (List SseEvent × Closed)
sse_connect unanswered = none
sse_connect (answered status body end) =
    if eqb status 200 then some (listen end (suc (length body)) body) else none

-- What the select of ProxySSE receives: from the context, the channel of errors (nil when it is
-- closed) and the channel of events (none when it is closed).
pub data Turn : Type 0 where
  done : Turn
  error : Option ReadError → Turn
  upstream : Option SseEvent → Turn

-- How ProxySSE returns.
pub data ProxyEnd : Type 0 where
  waiting : ProxyEnd
  cancelled : ProxyEnd
  upstream_failed : ReadError → ProxyEnd
  upstream_closed : ProxyEnd
  write_failed : ProxyEnd

unfoldable pub proxy_sse : List Turn → SseWriter → ProxyEnd × SseWriter
proxy_sse [] w = (waiting, w)
proxy_sse (done ∷ turns) w = (cancelled, w)
proxy_sse (error none ∷ turns) w = proxy_sse turns w
proxy_sse (error (some why) ∷ turns) w = (upstream_failed why, w)
proxy_sse (upstream none ∷ turns) w = (upstream_closed, w)
proxy_sse (upstream (some e) ∷ turns) w =
    let written = write_event e w in
    elim written.0 [ true ↦ proxy_sse turns written.1 | false ↦ (write_failed, written.1) ]

-- parseSSEResponseBody, with json.Unmarshal into a response as `decode`.
module _ {ℓ} {A : Type ℓ} (decode : Text → Option A) where
  unfoldable pub parse_events : ℕ → Text → Option A
  parse_events zero input = none
  parse_events (suc fuel) input = elim (read_event eof input) [
    | found e rest ↦ elim (if e.event_data == [] then none else decode e.event_data) [
      | none ↦ parse_events fuel rest
      | some response ↦ some response
    ]
    | read_failed why ↦ none
    | out_of_fuel ↦ none
  ]

  unfoldable pub parse_sse_response_body : Text → Option A
  parse_sse_response_body body = parse_events (suc (length body)) body
