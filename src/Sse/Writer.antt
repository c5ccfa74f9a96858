-- ===== src/Sse/Writer.antt =====
-- SSEWriter.WriteEvent of backend/internal/mcp/transport.go, as the calls of Fprintf that it makes.
use reflow_gateway.Base.{ℕ, zero, suc, Bool, true, false, List, [], ◌∷◌, ◌++◌, map, if◌then◌else◌}
use reflow_gateway.Base.Text.{Text, lit, ◌==◌}
use reflow_gateway.Base.Split.{split}
use reflow_gateway.Base.Int.{ℤ, pos, negsuc}
use reflow_gateway.Sse.{SseEvent, no_event}
use reflow_gateway.Sse.Decimal.{decimal}

-- A connection that takes so many more writes before it breaks. What was sent has all been
-- flushed when `flushed` is `sent`.
pub record SseWriter : Type 0 where
  pub sent : Text
  pub flushed : Text
  pub accepts : ℕ

-- "name: %s\n"
unfoldable pub field_line : Text → Text → Text
field_line name value = name ++ b':' ∷ b' ' ∷ value ++ b'\n' ∷ []

unfoldable pub retry_line : ℤ → List Text
retry_line (pos zero) = []
retry_line (pos (suc n)) = field_line (lit "retry") (decimal (suc n)) ∷ []
retry_line (negsuc n) = []

unfoldable pub optional_line : Text → Text → List Text
optional_line name value = if value == [] then [] else field_line name value ∷ []

-- The texts of the calls, in order.
unfoldable pub event_writes : SseEvent → List Text
event_writes e =
    optional_line (lit "event") e.event
    ++ (optional_line (lit "id") e.id
        ++ (retry_line e.retry
            ++ (map (field_line (lit "data")) (split b'\n' e.event_data) ++ (b'\n' ∷ []) ∷ [])))

-- Each call returns at once if it fails; true if none did.
unfoldable pub write_all : List Text → SseWriter → Bool × SseWriter
write_all [] w = (true, w)
write_all (t ∷ ts) w = elim w.accepts [
  | zero ↦ (false, w)
  | suc n ↦ write_all ts (record w { sent = w.sent ++ t; accepts = n })
]

unfoldable pub flush : Bool × SseWriter → Bool × SseWriter
flush (true, w) = (true, record w { flushed = w.sent })
flush (false, w) = (false, w)

unfoldable pub write_event : SseEvent → SseWriter → Bool × SseWriter
write_event e w = flush (write_all (event_writes e) w)

-- WriteMessage, of a message that json.Marshal has encoded.
unfoldable pub write_message : Text → Text → SseWriter → Bool × SseWriter
write_message event_type encoded =
    write_event (record no_event { event = event_type; event_data = encoded })

unfoldable pub write_endpoint : Text → SseWriter → Bool × SseWriter
write_endpoint endpoint =
    write_event (record no_event { event = lit "endpoint"; event_data = endpoint })

-- SSEWriter.Close
unfoldable pub write_close : SseWriter → Bool × SseWriter
write_close = write_event (record no_event { event = lit "close" })
