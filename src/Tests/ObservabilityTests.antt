-- ===== src/Tests/ObservabilityTests.antt =====
-- Two requests, one of them old, and a hub with one client.
use reflow_gateway.Base.{ℕ, ◌+◌, ◌/◌, ◌≡◌, ◌≤◌, refl, arith, true, [], ◌∷◌}
use reflow_gateway.Base.Text.{lit, ◌==◌}
use reflow_gateway.Base.Maps.{lookup, insert}
use reflow_gateway.Base.Results.{ok}
use reflow_gateway.Observability.{
  Float, ActivityEvent, Aggregator, new_aggregator, window_size, record_event, snapshot, prune,
  stats_of, sum, target_stats,
}
use reflow_gateway.Observability.Window.{count}
use reflow_gateway.Observability.Log.{Reached, starts, records, recent, snapshot-recent}
use reflow_gateway.Observability.Hub.{Hub, new_hub, register, publish, receive_message}

-- Milliseconds as whole numbers.
abbrev whole : Float ℕ
whole = record { plus = λ a b. a + b; divide = λ a b. a / b; from_int = λ n. n }

abbrev old : ActivityEvent ℕ
old = record { timestamp = 5; target = lit "fs"; duration_ms = 10; status = lit "ok" }

abbrev late : ActivityEvent ℕ
late = record { timestamp = 10; target = []; duration_ms = 30; status = lit "error" }

abbrev both : Aggregator ℕ
both = record_event late (record_event old new_aggregator)

reached : Reached whole 0 (old ∷ late ∷ []) both
reached = records late (records old starts)

snapshot-recent_example :
    ((snapshot whole 300_000_000_007 both).0.total_requests
      ≡ count (recent whole 300_000_000_007 (λ e. true)) (old ∷ late ∷ []))
    × ((snapshot whole 300_000_000_007 both).0.total_errors
        ≡ count (recent whole 300_000_000_007 (λ e. e.is_error)) (old ∷ late ∷ []))
    × ((snapshot whole 300_000_000_007 both).0.total_errors
        ≤ (snapshot whole 300_000_000_007 both).0.total_requests)
snapshot-recent_example = snapshot-recent whole 300_000_000_007 reached (omega arith)

one_left :
    ((snapshot whole 300_000_000_007 both).0.total_requests ≡ 1)
    × ((snapshot whole 300_000_000_007 both).0.avg_latency_ms ≡ 30)
unfolding snapshot record_event prune stats_of sum target_stats window_size lookup insert lit ◌==◌
one_left = (refl, refl)

abbrev listening : Hub ℕ
listening = receive_message (lit "m") [] (publish (ok (lit "m")) (register 1 new_hub))
