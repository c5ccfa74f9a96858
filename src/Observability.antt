-- ===== src/Observability.antt =====
-- backend/internal/observability/aggregator.go: rolling statistics of the requests. Go's float64
-- is a parameter with the operations that are used; a time is its number of nanoseconds.
pub mod Window
pub mod Log
pub mod Hub
use reflow_gateway.Base.{
  ℕ, suc, ◌+◌, ◌*◌, Bool, Option, none, some, List, [], ◌∷◌, ◌++◌, ltb, if◌then◌else◌, length, keep,
}
use reflow_gateway.Base.Text.{Text, lit, ◌==◌}
use reflow_gateway.Base.Maps.{Map, lookup, insert}
use reflow_gateway.Base.Int.{ℤ, pos, ◌+ℤ◌}

pub record Float (F : Type 0) : Type 0 where
  pub plus : F → F → F
  pub divide : F → F → F
  pub from_int : ℕ → F

-- The fields of ActivityEvent that the aggregator reads.
pub record ActivityEvent (F : Type 0) : Type 0 where
  pub timestamp : ℕ
  pub target : Text
  pub duration_ms : F
  pub status : Text

pub record WindowEntry (F : Type 0) : Type 0 where
  pub ts : ℕ
  pub latency_ms : F
  pub is_error : Bool

pub record Aggregator (F : Type 0) : Type 0 where
  pub targets : Map (List (WindowEntry F))
  pub active_sessions : ℤ

pub record TargetStats (F : Type 0) : Type 0 where
  pub name : Text
  pub request_count : ℕ
  pub error_count : ℕ
  pub total_latency_ms : F
  pub avg_latency_ms : F
  pub error_rate : F
  pub rps : F

pub record MetricsSnapshot (F : Type 0) : Type 0 where
  pub timestamp : ℕ
  pub total_requests : ℕ
  pub total_errors : ℕ
  pub avg_latency_ms : F
  pub error_rate : F
  pub active_sessions : ℤ
  pub targets : List (TargetStats F)

-- 5 * time.Minute
unfoldable pub window_size : ℕ
window_size = 300 * 1_000_000_000

abbrev pub new_aggregator : {F : Type 0} → Aggregator F
new_aggregator = record { targets = []; active_sessions = pos 0 }

-- e.ts.After(now.Add(-windowSize)), without going below zero.
abbrev pub in_window : {F : Type 0} → ℕ → WindowEntry F → Bool
in_window now entry = ltb now (entry.ts + window_size)

abbrev pub entry_of : {F : Type 0} → ActivityEvent F → WindowEntry F
entry_of e = record {
  ts = e.timestamp;
  latency_ms = e.duration_ms;
  is_error = e.status == lit "error";
}

abbrev pub target_name : {F : Type 0} → ActivityEvent F → Text
target_name e = if e.target == [] then lit "_gateway" else e.target

-- a.targets[target], with the empty window if there is none.
abbrev pub entries_of : {F : Type 0} → Text → Map (List (WindowEntry F)) → List (WindowEntry F)
entries_of target targets = elim (lookup target targets) [ none ↦ [] | some entries ↦ entries ]

-- Record
unfoldable pub record_event : {F : Type 0} → ActivityEvent F → Aggregator F → Aggregator F
record_event e a = record a {
  targets =
      insert (target_name e) (entries_of (target_name e) a.targets ++ entry_of e ∷ []) a.targets;
}

unfoldable pub set_active_sessions : {F : Type 0} → ℤ → Aggregator F → Aggregator F
set_active_sessions n a = record a { active_sessions = n }

unfoldable pub adjust_active_sessions : {F : Type 0} → ℤ → Aggregator F → Aggregator F
adjust_active_sessions delta a = record a { active_sessions = a.active_sessions +ℤ delta }

-- How many entries are errors.
abbrev pub errors : {F : Type 0} → List (WindowEntry F) → ℕ
errors entries = length (keep (λ e. e.is_error) entries)

module _ {F : Type 0} where
  -- The entries of every target that are still in the window.
  unfoldable pub prune : ℕ → Map (List (WindowEntry F)) → Map (List (WindowEntry F))
  prune now [] = []
  prune now ((name, entries) ∷ targets) = (name, keep (in_window now) entries) ∷ prune now targets

  unfoldable pub sum : (TargetStats F → ℕ) → List (TargetStats F) → ℕ
  sum field [] = 0
  sum field (t ∷ ts) = field t + sum field ts

module _ {F : Type 0} (float : Float F) where
  abbrev pub total_latency : F → List (WindowEntry F) → F
  total_latency total [] = total
  total_latency total (e ∷ entries) = total_latency (float.plus total e.latency_ms) entries

  -- The statistics of a target with entries in the window.
  unfoldable pub target_stats : Text → List (WindowEntry F) → TargetStats F
  target_stats name entries =
      let total = total_latency (float.from_int 0) entries in
      let count = float.from_int (length entries) in
      record {
        name = name;
        request_count = length entries;
        error_count = errors entries;
        total_latency_ms = total;
        avg_latency_ms = float.divide total count;
        error_rate = float.divide (float.from_int (errors entries)) count;
        rps = float.divide count (float.from_int 300);
      }

  -- The statistics of the targets that have entries.
  unfoldable pub stats_of : Map (List (WindowEntry F)) → List (TargetStats F)
  stats_of [] = []
  stats_of ((name, []) ∷ targets) = stats_of targets
  stats_of ((name, e ∷ entries) ∷ targets) = target_stats name (e ∷ entries) ∷ stats_of targets

  abbrev pub sum_latency : F → List (TargetStats F) → F
  sum_latency total [] = total
  sum_latency total (t ∷ ts) = sum_latency (float.plus total t.total_latency_ms) ts

  -- Snapshot at the time `now`.
  unfoldable pub snapshot : ℕ → Aggregator F → MetricsSnapshot F × Aggregator F
  snapshot now a =
      let pruned = prune now a.targets in
      let stats = stats_of pruned in
      let requests = sum (λ t. t.request_count) stats in
      let failures = sum (λ t. t.error_count) stats in
      let count = float.from_int requests in
      let none_yet = float.from_int 0 in
      (
        record {
          timestamp = now;
          total_requests = requests;
          total_errors = failures;
          avg_latency_ms =
              if ltb 0 requests then float.divide (sum_latency none_yet stats) count else none_yet;
          error_rate =
              if ltb 0 requests then float.divide (float.from_int failures) count else none_yet;
          active_sessions = a.active_sessions;
          targets = stats;
        },
        record a { targets = pruned },
      )
