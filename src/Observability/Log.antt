-- ===== src/Observability/Log.antt =====
-- The aggregator against the log of all that was recorded.
use reflow_gateway.Base.{ℕ, ◌≤◌, ◌≡◌, refl, ◌∙◌, arith, Bool, true, ◌&&◌, List, [], ◌∷◌, ◌++◌}
use reflow_gateway.Base.Int.{ℤ}
use reflow_gateway.Observability.{
  Float, ActivityEvent, WindowEntry, Aggregator, new_aggregator, in_window, entry_of, target_name,
  record_event, set_active_sessions, adjust_active_sessions, snapshot,
}
use reflow_gateway.Observability.Window.{
  count, count-snoc, count-le, total, total-insert, total-prune, sum-request_count, sum-error_count,
}

module _ {F : Type 0} (float : Float F) where
  -- The aggregator has been reached at a time with a log of what was recorded. Snapshots are
  -- taken on the way, at times that do not run back.
  pub data Reached : ℕ → List (ActivityEvent F) → Aggregator F → Type 0 where
    starts : Reached 0 [] new_aggregator
    records :
        {now : ℕ} {log : List (ActivityEvent F)} {a : Aggregator F} (e : ActivityEvent F)
        → Reached now log a
        → Reached now (log ++ e ∷ []) (record_event e a)
    snaps :
        {now : ℕ} {log : List (ActivityEvent F)} {a : Aggregator F} (later : ℕ)
        → now ≤ later
        → Reached now log a
        → Reached later log (snapshot float later a).1
    sets :
        {now : ℕ} {log : List (ActivityEvent F)} {a : Aggregator F} (n : ℤ)
        → Reached now log a
        → Reached now log (set_active_sessions n a)
    adjusts :
        {now : ℕ} {log : List (ActivityEvent F)} {a : Aggregator F} (delta : ℤ)
        → Reached now log a
        → Reached now log (adjust_active_sessions delta a)

  -- What a snapshot at `now` counts of the log: recorded less than five minutes ago.
  abbrev pub recent : ℕ → (WindowEntry F → Bool) → ActivityEvent F → Bool
  recent now p e = in_window now (entry_of e) && p (entry_of e)

  tracks :
      {t : ℕ} {log : List (ActivityEvent F)} {a : Aggregator F}
      → Reached t log a
      → (now : ℕ) → t ≤ now
      → (p : WindowEntry F → Bool)
      → total (λ e. in_window now e && p e) a.targets ≡ count (recent now p) log
  unfolding record_event snapshot set_active_sessions adjust_active_sessions
  tracks starts now h p = refl
  tracks (records {log = log} {a = a} e r) now h p =
      total-insert (λ x. in_window now x && p x) (target_name e) (entry_of e) a.targets
      ∙ omega (arith, tracks r now h p, count-snoc (recent now p) log e)
  tracks (snaps {a = a} later l r) now h p =
      total-prune (λ e. in_window now e && p e) later a.targets (λ e t. ground (arith, t))
      ∙ tracks r now (omega arith) p
  tracks (sets n r) now h p = tracks r now h p
  tracks (adjusts d r) now h p = tracks r now h p

  -- A snapshot counts exactly the requests of the log that are recent, and the errors among
  -- them, whatever snapshots were taken before.
  pub snapshot-recent :
      {t : ℕ} {log : List (ActivityEvent F)} {a : Aggregator F} (now : ℕ)
      → Reached t log a
      → t ≤ now
      → ((snapshot float now a).0.total_requests ≡ count (recent now (λ e. true)) log)
        × ((snapshot float now a).0.total_errors ≡ count (recent now (λ e. e.is_error)) log)
        × ((snapshot float now a).0.total_errors ≤ (snapshot float now a).0.total_requests)
  unfolding snapshot
  snapshot-recent {log = log} {a = a} now r h =
      let requests = sum-request_count float now a.targets ∙ tracks r now h (λ e. true) in
      let failures = sum-error_count float now a.targets ∙ tracks r now h (λ e. e.is_error) in
      let fewer =
        count-le (recent now (λ e. e.is_error)) (recent now (λ e. true)) log
          (λ e t. ground (arith, t)) in
      (requests, failures, omega (arith, requests, failures, fewer))
