-- ===== src/Tests/SseTests.antt =====
-- Two events, written, read and relayed.
use reflow_gateway.Base.{
  false, ◌≡◌, ◌≤◌, refl, arith, true, Option, none, some, List, [], ◌∷◌, ◌++◌, map, All, length,
}
use reflow_gateway.Base.Text.{Text, lit, ◌==◌, cut, trim_suffix, has_prefix, trim_prefix}
use reflow_gateway.Base.Split.{split}
use reflow_gateway.Base.Concat.{concat}
use reflow_gateway.Base.Int.{pos}
use reflow_gateway.Sse.{
  SseEvent, eof, broken, found, read_event, read_from, read_loop, step_line, at_end, field_value,
  set_field,
}
use reflow_gateway.Sse.Decimal.{decimal, digits}
use reflow_gateway.Sse.Fields.{IsCarried}
use reflow_gateway.Sse.Writer.{
  SseWriter, event_writes, optional_line, retry_line, field_line, write_all, flush, write_event,
}
use reflow_gateway.Sse.Written.{wire, read_event-write_event}
use reflow_gateway.Sse.Stream.{answered, sse_connect, closing, error, upstream, proxy_sse}
use reflow_gateway.Sse.Heard.{sse_connect-closes}
use reflow_gateway.Sse.Relayed.{rounds, Schedule, hears, fails, Relays, proxy_sse-sse_connect}

abbrev pub greeting : SseEvent
greeting = record { event = lit "message"; event_data = lit "{}"; id = []; retry = pos 30 }

abbrev bare : SseEvent
bare = record { event = []; event_data = lit "x"; id = lit "7"; retry = pos 0 }

abbrev pub writer : SseWriter
writer = record { sent = []; flushed = []; accepts = 20 }

greeting-IsCarried : IsCarried greeting
unfolding lit
greeting-IsCarried = ground arith

bare-IsCarried : IsCarried bare
unfolding lit
bare-IsCarried = ground arith

written :
    wire greeting
    ≡ lit "event: message"
      ++ (b'\n' ∷ lit "retry: 30" ++ (b'\n' ∷ lit "data: {}" ++ (b'\n' ∷ b'\n' ∷ [])))
unfolding event_writes optional_line retry_line field_line split concat lit ◌==◌ decimal digits
written = refl

-- At the end of the body an event that no blank line ends is returned with the end of its
-- last line, and a line that is not ended is lost.
unterminated :
    read_event eof (lit "data: x" ++ (b'\n' ∷ lit "data: y"))
    ≡ found (record { event = []; event_data = lit "x" ++ b'\n' ∷ []; id = []; retry = pos 0 }) []
unfolding read_event read_from read_loop step_line at_end field_value set_field cut trim_suffix
    has_prefix trim_prefix ◌==◌ lit
unterminated = refl

greeting_written : (write_event greeting writer).0 ≡ true
unfolding write_event write_all flush event_writes optional_line retry_line lit ◌==◌ split
greeting_written = refl

read_event-write_event_example :
    (t : Text) × ((write_event greeting writer).1.sent ≡ [] ++ t)
    × ((write_event greeting writer).1.flushed ≡ (write_event greeting writer).1.sent)
    × ((rest : Text) → read_event eof (t ++ rest) ≡ found greeting rest)
read_event-write_event_example =
    read_event-write_event eof greeting writer greeting-IsCarried greeting_written

sse_connect-closes_example :
    (es : List SseEvent) × (sse_connect (answered 200 (lit "data: x") broken)
      ≡ some (es, closing broken))
    × (length es ≤ length (lit "data: x"))
sse_connect-closes_example = sse_connect-closes broken (lit "data: x")

carried : All IsCarried (greeting ∷ bare ∷ [])
carried = (greeting-IsCarried, (bare-IsCarried, tt))

fits : rounds (greeting ∷ bare ∷ []) ≤ 20
unfolding rounds event_writes optional_line retry_line lit ◌==◌ split
fits = omega arith

-- The stream breaks, and the select takes its error before the second event.
interrupted :
    Schedule broken false
      (greeting ∷ bare ∷ [])
      (upstream (some greeting) ∷ error (some broken) ∷ [])
unfolding closing
interrupted = hears (fails refl)

proxy_sse-sse_connect_example :
    (sse_connect (answered 200 (concat (map wire (greeting ∷ bare ∷ []))) broken)
      ≡ some (greeting ∷ bare ∷ [], closing broken))
    × Relays broken false
        (greeting ∷ bare ∷ [])
        []
        (proxy_sse (upstream (some greeting) ∷ error (some broken) ∷ []) writer)
proxy_sse-sse_connect_example =
    proxy_sse-sse_connect broken false (greeting ∷ bare ∷ [])
      (upstream (some greeting) ∷ error (some broken) ∷ []) writer carried fits interrupted

-- Texts that begin with a brace are responses.
abbrev decode : Text → Option Text
decode t = elim t [
  | [] ↦ none
  | c ∷ s ↦ elim (has_prefix b'{' (c ∷ s)) [ true ↦ some s | _ ↦ none ]
]
