-- ===== src/Tests/HttpClientTests.antt =====
-- A client that falls back to an event stream, and whose responses come on it.
use reflow_gateway.Base.{◌≡◌, refl, false, none, some, [], ◌∷◌}
use reflow_gateway.Base.Text.{Text, lit, ◌==◌}
use reflow_gateway.Base.Maps.{lookup, insert, delete}
use reflow_gateway.Base.Results.{ok, err, failure}
use reflow_gateway.Base.Int.{pos}
use reflow_gateway.Mcp.{no_capabilities}
use reflow_gateway.Sse.{SseEvent}
use reflow_gateway.HttpClient.{
  Request, Client, HttpReply, stream_closed, Network, sse, streamable_http, is_sse, alloc_id,
  send_request, exchange, read_reply, register_channel, unregister_channel, keep_session, await,
  route_event, deliver_response, deliver_to, deliver_on,
}
use reflow_gateway.HttpClient.Handshake.{call, do_initialize, initialize}
use reflow_gateway.HttpClient.Calls.{Older, send_request-matched}
use reflow_gateway.HttpClient.Opened.{FellBack, initialize-FellBack}

abbrev configured : Client
configured = record {
  url = lit "u";
  auth_token = [];
  auth_header = [];
  custom_headers = [];
  transport_type = sse;
  session_id = [];
  initialized = false;
  capabilities = none;
  message_endpoint = lit "m";
  sse_responses = [];
  channels = 0;
  next_id = 0;
}

abbrev request : Request
request = record { id = lit "1"; method = lit "ping"; params = [] }

abbrev accepted : HttpReply
accepted = record { status = 202; session_id = []; is_event_stream = false; body = [] }

abbrev message : Text → SseEvent
message text = record { event = lit "message"; event_data = text; id = []; retry = pos 0 }

-- A text is the response whose id it is.
abbrev network : Network
network = record {
  get = λ url headers. none;
  post = λ url headers req. some accepted;
  notify = λ url headers method. some 202;
  arrivals = λ req. (message (lit "9") ∷ message (lit "1") ∷ [], stream_closed);
  decode = λ text. some (record { id = some text; error = none; result = text });
  decode_capabilities = λ text. some no_capabilities;
  resolve = λ base reference. none;
}

none_waits : Older configured
unfolding lookup
none_waits key channel e = cc

answered :
    (send_request network request configured).0
    ≡ ok (record { id = some (lit "1"); error = none; result = lit "1" })
unfolding send_request register_channel unregister_channel exchange read_reply keep_session is_sse
    await route_event deliver_response deliver_to deliver_on lookup insert delete lit ◌==◌
answered = refl

send_request-matched_example :
    (some (lit "1") ≡ some (lit "1"))
    × (lookup (lit "1") (send_request network request configured).1.sse_responses ≡ none)
unfolding is_sse
send_request-matched_example =
    send_request-matched network request configured accepted _ none_waits refl refl refl answered

-- Every server is out of reach.
abbrev unplugged : Network
unplugged = record network { post = λ url headers req. none }

abbrev fresh : Client
fresh = record configured { transport_type = streamable_http; message_endpoint = [] }

unreached : (do_initialize unplugged [] fresh).0 ≡ err (failure (lit "request failed"))
unfolding do_initialize call alloc_id send_request register_channel unregister_channel exchange
    is_sse
unreached = refl

initialize-FellBack_example :
    FellBack unplugged [] fresh.url fresh.transport_type
      (do_initialize unplugged [] fresh).1
      (initialize unplugged [] fresh)
unfolding is_sse
initialize-FellBack_example =
    initialize-FellBack unplugged [] fresh (failure (lit "request failed")) refl unreached
