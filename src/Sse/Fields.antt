-- ===== src/Sse/Fields.antt =====
-- The lines that WriteEvent writes, and what one of them does to the reader's event.
use reflow_gateway.Base.{ℕ, ◌<◌, ◌^◌, ◌≡◌, ◌≢◌, refl, ◌∙◌, arith, false, [], ◌∷◌, ◌++◌}
use reflow_gateway.Base.Text.{
  Text, lit, ◌==◌, ==_refl, cut-Lacks, Lacks, trim_suffix-append, has_prefix, trim_prefix,
}
use reflow_gateway.Base.Int.{ℤ, pos, negsuc}
use reflow_gateway.Sse.{SseEvent, dispatch, continue, scan_retry, set_field, field_value, step_line}
use reflow_gateway.Sse.Decimal.{decimal}
use reflow_gateway.Sse.Decimal.Printed.{scan_int-decimal}

-- A text on one line.
abbrev pub IsLine : Text → Type 0
IsLine t = Lacks b'\n' t × Lacks b'\r' t

abbrev pub Fits : ℤ → Type 0
Fits (pos n) = n < 2 ^ 63
Fits (negsuc n) = ⊥

-- An event that the format can carry: no line end in its name and its id, no carriage return in
-- its data, and a retry that is not negative.
pub record IsCarried (e : SseEvent) : Type 0 where
  pub event_line : IsLine e.event
  pub id_line : IsLine e.id
  pub data_lacks : Lacks b'\r' e.event_data
  pub retry_fits : Fits e.retry

-- A name of a field: a text on one line, not empty, without a colon.
pub record IsName (name : Text) : Type 0 where
  pub line : IsLine name
  pub lacks : Lacks b':' name
  pub not_nil : name ≢ []

-- The names that WriteEvent writes are such.
pub event-IsName : IsName (lit "event")
unfolding lit
event-IsName = ground arith

pub data-IsName : IsName (lit "data")
unfolding lit
data-IsName = ground arith

pub id-IsName : IsName (lit "id")
unfolding lit
id-IsName = ground arith

pub retry-IsName : IsName (lit "retry")
unfolding lit
retry-IsName = ground arith

pub Lacks-append : (b : ℕ) (s t : Text) → Lacks b s → Lacks b t → Lacks b (s ++ t)
Lacks-append b [] t h k = k
Lacks-append b (c ∷ s) t h k = (h.0, Lacks-append b s t h.1 k)

name_no_comment :
    (name t : Text) → Lacks b':' name → name ≢ [] → has_prefix b':' (name ++ t) ≡ false
unfolding has_prefix
name_no_comment [] t h k = absurd (k refl)
name_no_comment (c ∷ s) t h k = ground arith

name_no_blank : (name t : Text) → name ≢ [] → ((name ++ t) == []) ≡ false
unfolding ◌==◌
name_no_blank [] t k = absurd (k refl)
name_no_blank (c ∷ s) t k = refl

field_value-line :
    (name value : Text)
    → Lacks b':' name
    → field_value (name ++ b':' ∷ b' ' ∷ value) ≡ (name, value)
unfolding field_value trim_prefix
field_value-line name value h = rw (cut-Lacks b':' name (b' ' ∷ value) h, field_value) refl

pub step_line-field :
    (name value : Text) (e : SseEvent)
    → IsName name
    → step_line (name ++ b':' ∷ b' ' ∷ value) e ≡ continue (set_field name value e)
unfolding step_line
step_line-field name value e h =
    rw
      (
        name_no_blank name (b':' ∷ b' ' ∷ value) h.not_nil,
        name_no_comment name (b':' ∷ b' ' ∷ value) h.lacks h.not_nil,
        field_value-line name value h.lacks,
      )
      refl

pub set_field-event :
    (value : Text) (e : SseEvent) → set_field (lit "event") value e ≡ record e { event = value }
unfolding set_field lit ◌==◌
set_field-event value e = refl

pub set_field-data :
    (value : Text) (e : SseEvent)
    → set_field (lit "data") value e
      ≡ record e { event_data = e.event_data ++ (value ++ b'\n' ∷ []) }
unfolding set_field lit ◌==◌
set_field-data value e = refl

pub set_field-id :
    (value : Text) (e : SseEvent) → set_field (lit "id") value e ≡ record e { id = value }
unfolding set_field lit ◌==◌
set_field-id value e = refl

set_retry :
    (value : Text) (e : SseEvent)
    → set_field (lit "retry") value e ≡ record e { retry = scan_retry value e.retry }
unfolding set_field lit ◌==◌
set_retry value e = refl

scan_retry-decimal : (n : ℕ) (old : ℤ) → 0 < n → n < 2 ^ 63 → scan_retry (decimal n) old ≡ pos n
unfolding scan_retry
scan_retry-decimal n old h k = rw (scan_int-decimal n h k, scan_retry) refl

pub set_field-retry :
    (n : ℕ) (e : SseEvent)
    → 0 < n
    → n < 2 ^ 63
    → set_field (lit "retry") (decimal n) e ≡ record e { retry = pos n }
set_field-retry n e h k =
    set_retry (decimal n) e ∙ λ i. record e { retry = scan_retry-decimal n e.retry h k i }

ended_no_blank : (t : Text) → ((t ++ b'\n' ∷ []) == []) ≡ false
unfolding ◌==◌
ended_no_blank [] = refl
ended_no_blank (c ∷ t) = refl

pub step_line-blank :
    (e : SseEvent) (t : Text)
    → e.event_data ≡ t ++ b'\n' ∷ []
    → step_line [] e ≡ dispatch (record e { event_data = t })
unfolding step_line
step_line-blank e t h = rw h (rw (==_refl [], ended_no_blank t, trim_suffix-append b'\n' t) refl)
