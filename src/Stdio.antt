-- ===== src/Stdio.antt =====
-- The manager of stdio processes: backend/internal/stdio/manager.go. The lock makes each
-- operation one step. Whether a process lives is the system's to say (`alive`), and so is what
-- starting one gives (`started`); the record of processes in the database is left out.
pub mod Pool
pub mod Isolation
use reflow_gateway.Base.{
  ℕ, zero, suc, ◌+◌, ◌*◌, ◌/◌, ◌%◌, Bool, true, false, not, ◌&&◌, Option, none, some, List, [], ◌∷◌,
  ◌++◌, map, length, ltb, leb, eqb, if◌then◌else◌,
}
use reflow_gateway.Base.Text.{Text, lit, ◌==◌}
use reflow_gateway.Base.Maps.{Map, lookup, insert, delete, retain}
use reflow_gateway.Base.Results.{Result, ok, err, failure}
use reflow_gateway.Targets.{Target}

pub record Process : Type 0 where
  pub pid : ℕ
  pub last_used : ℕ

-- `closed` are the processes that the manager has stopped.
pub record Manager : Type 0 where
  pub processes : Map Process
  pub idle_ttl : ℕ
  pub max_lifetime : ℕ
  pub gc_interval : ℕ
  pub max_processes : ℕ
  pub closed : List Process

pub record ManagerConfig : Type 0 where
  pub idle_ttl : ℕ
  pub max_lifetime : ℕ
  pub gc_interval : ℕ
  pub max_processes : ℕ

abbrev pub minute : ℕ
minute = 60 * 1000000000

abbrev pub or_default : ℕ → ℕ → ℕ
or_default n default = if eqb n 0 then default else n

unfoldable pub new_manager : ManagerConfig → Manager
new_manager cfg = record {
  processes = [];
  idle_ttl = or_default cfg.idle_ttl (30 * minute);
  max_lifetime = or_default cfg.max_lifetime (24 * (60 * minute));
  gc_interval = or_default cfg.gc_interval minute;
  max_processes = or_default cfg.max_processes 100;
  closed = [];
}

-- The second half of `GetOrCreate`: no living process holds the key.
unfoldable pub start : Manager → Text → Result Process → Result Process × Manager
start m subject_key started =
    if leb m.max_processes (length m.processes)
    then (err (failure (lit "max STDIO processes reached")), m)
    else elim started [
      | err e ↦ (err e, m)
      | ok proc ↦ (ok proc, record m { processes = insert subject_key proc m.processes })
    ]

unfoldable pub get_or_create :
    (Process → Bool) → Manager → Text → Result Process → Result Process × Manager
get_or_create alive m subject_key started = elim (lookup subject_key m.processes) [
  | none ↦ start m subject_key started
  | some proc ↦
      if alive proc
      then (ok proc, m)
      else start (record m { processes = delete subject_key m.processes }) subject_key started
]

-- `idleFor > m.idleTTL`
abbrev pub idle : ℕ → ℕ → Process → Bool
idle ttl now p = ltb (p.last_used + ttl) now

unfoldable pub closed_by_gc : (Process → Bool) → ℕ → ℕ → Map Process → List Process
closed_by_gc alive ttl now [] = []
closed_by_gc alive ttl now ((key, p) ∷ ps) =
    let rest = closed_by_gc alive ttl now ps in
    if not (alive p) then rest else if idle ttl now p then p ∷ rest else rest

unfoldable pub gc : (Process → Bool) → Manager → ℕ → Manager
gc alive m now = record m {
  processes = retain (λ p. alive p && not (idle m.idle_ttl now p)) m.processes;
  closed = m.closed ++ closed_by_gc alive m.idle_ttl now m.processes;
}

unfoldable pub shutdown : Manager → Manager
shutdown m = record m { processes = []; closed = m.closed ++ map (λ e. e.1) m.processes }

-- `strings.Join(groups, ",")`
unfoldable pub join : List Text → Text
join [] = []
join (g ∷ []) = g
join (g ∷ h ∷ gs) = g ++ (b',' ∷ join (h ∷ gs))

-- Go's `<=` on strings: by bytes.
unfoldable pub le_text : Text → Text → Bool
le_text [] t = true
le_text (c ∷ s) [] = false
le_text (c ∷ s) (d ∷ t) =
    let rest = le_text s t in if ltb c d then true else if eqb c d then rest else false

unfoldable pub place_group : Text → List Text → List Text
place_group g [] = g ∷ []
place_group g (h ∷ hs) = let rest = place_group g hs in if le_text g h then g ∷ h ∷ hs else h ∷ rest

-- `sort.Strings`
unfoldable pub sort_groups : List Text → List Text
sort_groups [] = []
sort_groups (g ∷ gs) = place_group g (sort_groups gs)

-- `%x` of a byte is two digits.
abbrev hex_digit : ℕ → ℕ
hex_digit n = if ltb n 10 then b'0' + n else b'W' + n

unfoldable pub hex : List ℕ → Text
hex [] = []
hex (b ∷ bs) = hex_digit (b / 16) ∷ hex_digit (b % 16) ∷ hex bs

-- `h[:n]` of an array that has as many bytes.
unfoldable pub first_bytes : ℕ → List ℕ → List ℕ
first_bytes zero bs = []
first_bytes (suc n) [] = []
first_bytes (suc n) (b ∷ bs) = b ∷ first_bytes n bs

-- `%x` of `h[:8]`, for `h` the sum of a text.
unfoldable pub subject_hash : (Text → List ℕ) → Text → Text
subject_hash sum256 text = hex (first_bytes 8 (sum256 text))

-- `sum256` is SHA-256: 32 bytes.
unfoldable pub compute_subject_key : (Text → List ℕ) → Target → Text → Text → List Text → Text
compute_subject_key sum256 target user_id role groups =
    if target.isolation_boundary == lit "per_user"
    then lit "user:" ++ subject_hash sum256 (user_id ++ (b':' ∷ target.id))
    else if target.isolation_boundary == lit "per_role"
    then lit "role:" ++ subject_hash sum256 (role ++ (b':' ∷ target.id))
    else if target.isolation_boundary == lit "per_group"
    then lit "group:" ++ subject_hash sum256 (join (sort_groups groups) ++ (b':' ∷ target.id))
    else lit "shared:" ++ target.id
