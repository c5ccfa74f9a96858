-- ===== src/Sse.antt =====
-- backend/internal/mcp/transport.go: SSEEvent and SSEReader.ReadEvent over the bytes of a
-- response body. The body ends with io.EOF or with another error; `fuel` counts the lines.
pub mod Decimal
pub mod Reader
pub mod Writer
pub mod Fields
pub mod RoundTrip
pub mod Stream
pub mod Written
pub mod Heard
pub mod Relayed
use reflow_gateway.Base.{
  ℕ, zero, suc, ◌+◌, Bool, not, ◌||◌, Option, none, some, [], ◌∷◌, ◌++◌, eqb, if◌then◌else◌, length,
}
use reflow_gateway.Base.Text.{Text, lit, ◌==◌, cut, trim_suffix, has_prefix, trim_prefix}
use reflow_gateway.Base.Int.{ℤ, pos}
use reflow_gateway.Sse.Decimal.{scan_int}

pub record SseEvent : Type 0 where
  pub event : Text
  pub event_data : Text
  pub id : Text
  pub retry : ℤ

-- &SSEEvent{}
abbrev pub no_event : SseEvent
no_event = record { event = []; event_data = []; id = []; retry = pos 0 }

pub data ReadError : Type 0 where
  eof : ReadError
  broken : ReadError

-- What ReadEvent returns, with the bytes that it has left unread.
pub data ReadResult : Type 0 where
  found : SseEvent → Text → ReadResult
  read_failed : ReadError → ReadResult
  out_of_fuel : ReadResult

-- fmt.Sscanf(value, "%d", &retry) leaves `retry` alone on an error.
unfoldable pub scan_retry : Text → ℤ → ℤ
scan_retry value retry = elim (scan_int value) [ none ↦ retry | some n ↦ n ]

-- The switch over the name of a field.
unfoldable pub set_field : Text → Text → SseEvent → SseEvent
set_field field value e =
    if field == lit "event"
    then record e { event = value }
    else if field == lit "data"
    then record e { event_data = e.event_data ++ (value ++ b'\n' ∷ []) }
    else if field == lit "id"
    then record e { id = value }
    else if field == lit "retry"
    then record e { retry = scan_retry value e.retry }
    else e

-- The field and the value of a line: a line without a colon is a field with no value.
unfoldable pub field_value : Text → Text × Text
field_value line = elim (cut b':' line) [
  | none ↦ (line, [])
  | some (field, value) ↦ (field, trim_prefix b' ' value)
]

-- What a line makes the loop do.
pub data LineStep : Type 0 where
  dispatch : SseEvent → LineStep
  continue : SseEvent → LineStep

unfoldable pub step_line : Text → SseEvent → LineStep
step_line line e =
    if line == []
    then if not (e.event_data == []) || not (e.event == [])
      then dispatch (record e { event_data = trim_suffix b'\n' e.event_data })
      else continue e
    else if has_prefix b':' line
    then continue e
    else continue (set_field (field_value line).0 (field_value line).1 e)

-- ReadString fails at the end of the body; the bytes of an unfinished line go with the error.
unfoldable pub at_end : ReadError → SseEvent → ReadResult
at_end eof e = if not (e.event_data == []) then found e [] else read_failed eof
at_end broken e = read_failed broken

unfoldable pub read_loop : ReadError → ℕ → Text → SseEvent → ReadResult
read_loop end zero input e = out_of_fuel
read_loop end (suc fuel) input e = elim (cut b'\n' input) [
  | none ↦ at_end end e
  | some (line, rest) ↦ elim (step_line (trim_suffix b'\r' line) e) [
    | dispatch d ↦ found d rest
    | continue next ↦ read_loop end fuel rest next
  ]
]

-- The loop with a round for each byte and one for the end.
unfoldable pub read_from : ReadError → Text → SseEvent → ReadResult
read_from end input e = read_loop end (suc (length input)) input e

unfoldable pub read_event : ReadError → Text → ReadResult
read_event end input = read_from end input no_event
