-- ===== src/Sse/RoundTrip.antt =====
-- What WriteEvent writes, ReadEvent reads back.
use reflow_gateway.Base.{
  zero, suc, ◌≡◌, refl, ◌∙◌, ap, arith, Bool-cases, inl, inr, List, [], ◌∷◌, ◌++◌, map, append-nil,
  append_assoc, All,
}
use reflow_gateway.Base.Text.{Text, lit, ◌==◌, ==_iff, Lacks}
use reflow_gateway.Base.Split.{split, terminated, terminated-split, split-Lacks, split-keeps_Lacks}
use reflow_gateway.Base.Int.{ℤ, pos, negsuc}
use reflow_gateway.Sse.{SseEvent, no_event, ReadError, found, set_field, read_from, read_event}
use reflow_gateway.Sse.Decimal.{decimal}
use reflow_gateway.Sse.Decimal.Printed.{Lacks-decimal}
use reflow_gateway.Sse.Reader.{read_from-line, read_from-blank}
use reflow_gateway.Base.Concat.{concat, concat_front}
use reflow_gateway.Sse.Fields.{
  IsLine, Fits, IsCarried, IsName, event-IsName, data-IsName, id-IsName, retry-IsName, Lacks-append,
  step_line-field, set_field-event, set_field-data, set_field-id, set_field-retry, step_line-blank,
}
use reflow_gateway.Sse.Writer.{field_line, optional_line, retry_line, event_writes}

module _ (end : ReadError) where
  -- A field that is written is set when it is read.
  read_from-field :
      (name value rest : Text) (e : SseEvent)
      → IsName name
      → IsLine value
      → read_from end (field_line name value ++ rest) e
        ≡ read_from end rest (set_field name value e)
  unfolding field_line
  read_from-field name value rest e h v =
      rw (append_assoc (name ++ b':' ∷ b' ' ∷ value) (b'\n' ∷ []) rest) (
        read_from-line end (name ++ b':' ∷ b' ' ∷ value) rest e (set_field name value e)
          (Lacks-append b'\n' name _ h.line.0 (omega arith, (omega arith, v.0)))
          (Lacks-append b'\r' name _ h.line.1 (omega arith, (omega arith, v.1)))
          (step_line-field name value e h))

  read_from-optional :
      (name value rest : Text) (e : SseEvent)
      → IsName name
      → IsLine value
      → (value ≡ [] → set_field name value e ≡ e)
      → read_from end (concat (optional_line name value) ++ rest) e
        ≡ read_from end rest (set_field name value e)
  unfolding optional_line concat
  read_from-optional name value rest e h v same = elim (Bool-cases (value == [])) [
    | inl b ↦ let nothing : value ≡ [] = (==_iff value []).0 b in rw b (rw (same nothing) refl)
    | inr b ↦ rw b (rw (append-nil (field_line name value)) (read_from-field name value rest e h v))
  ]

  read_from-retry :
      (n : ℤ) (rest : Text) (e : SseEvent)
      → Fits n
      → e.retry ≡ pos 0
      → read_from end (concat (retry_line n) ++ rest) e
        ≡ read_from end rest (record e { retry = n })
  unfolding retry_line concat
  read_from-retry (pos zero) rest e h z = rw z refl
  read_from-retry (pos (suc n)) rest e h z =
      rw (append-nil (field_line (lit "retry") (decimal (suc n)))) (
        read_from-field (lit "retry") (decimal (suc n)) rest e retry-IsName
          (Lacks-decimal b'\n' (suc n) (omega arith), Lacks-decimal b'\r' (suc n) (omega arith))
        ∙ ap (read_from end rest) (set_field-retry (suc n) e (omega arith) h))
  read_from-retry (negsuc n) rest e h z = absurd h

  -- The lines of the data are put together again, each with its end.
  read_from-data :
      (parts : List Text) (rest : Text) (e : SseEvent)
      → All (Lacks b'\n') parts
      → All (Lacks b'\r') parts
      → read_from end (concat (map (field_line (lit "data")) parts) ++ rest) e
        ≡ read_from end rest (record e { event_data = e.event_data ++ terminated b'\n' parts })
  unfolding concat terminated
  read_from-data [] rest e h k = rw (append-nil e.event_data) refl
  read_from-data (part ∷ parts) rest e h k =
      rw
        (append_assoc (field_line (lit "data") part) (concat (map (field_line (lit "data")) parts))
          rest)
        (read_from-field (lit "data") part _ e data-IsName (h.0, k.0)
          ∙ ap (read_from end _) (set_field-data part e)
          ∙ read_from-data parts rest _ h.1 k.1
          ∙ ap (λ d. read_from end rest (record e { event_data = d }))
              (append_assoc e.event_data _ _ ∙ ap (◌++◌ e.event_data) (append_assoc part _ _)))

  read_from-body :
      (e before : SseEvent) (rest : Text)
      → Lacks b'\r' e.event_data
      → before ≡ record e { event_data = [] }
      → read_from end
          (concat (map (field_line (lit "data")) (split b'\n' e.event_data) ++ (b'\n' ∷ []) ∷ [])
            ++ rest)
          before
        ≡ found e rest
  unfolding concat
  read_from-body e before rest h same =
      ap (λ t. read_from end t before)
        (concat_front (map (field_line (lit "data")) (split b'\n' e.event_data)) _ rest)
      ∙ ap (read_from end _) same
      ∙ read_from-data (split b'\n' e.event_data) _ (record e { event_data = [] })
          (split-Lacks b'\n' e.event_data) (split-keeps_Lacks b'\n' b'\r' e.event_data h)
      ∙ ap (λ d. read_from end (concat ((b'\n' ∷ []) ∷ []) ++ rest) (record e { event_data = d }))
          (terminated-split b'\n' e.event_data)
      ∙ read_from-blank end rest (record e { event_data = e.event_data ++ b'\n' ∷ [] }) e
          (step_line-blank (record e { event_data = e.event_data ++ b'\n' ∷ [] }) e.event_data refl)

  -- A read begins with no event and gives back the event that was written.
  pub read_event-writes :
      (e : SseEvent) (rest : Text)
      → IsCarried e
      → read_event end (concat (event_writes e) ++ rest) ≡ found e rest
  unfolding read_event event_writes
  read_event-writes e rest c =
      ap (λ t. read_from end t no_event) (concat_front (optional_line (lit "event") e.event) _ rest)
      ∙ read_from-optional (lit "event") e.event _ no_event event-IsName c.event_line
          (λ n. rw n (set_field-event [] no_event))
      ∙ ap (read_from end _) (set_field-event e.event no_event)
      ∙ ap (λ t. read_from end t (record no_event { event = e.event }))
          (concat_front (optional_line (lit "id") e.id) _ rest)
      ∙ read_from-optional (lit "id") e.id _ (record no_event { event = e.event }) id-IsName
          c.id_line (λ n. rw n (set_field-id [] (record no_event { event = e.event })))
      ∙ ap (read_from end _) (set_field-id e.id (record no_event { event = e.event }))
      ∙ ap (λ t. read_from end t (record no_event { event = e.event; id = e.id }))
          (concat_front (retry_line e.retry) _ rest)
      ∙ read_from-retry e.retry _ (record no_event { event = e.event; id = e.id }) c.retry_fits refl
      ∙ read_from-body e (record e { event_data = [] }) rest c.data_lacks refl
