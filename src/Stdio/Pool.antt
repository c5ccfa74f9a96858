-- ===== src/Stdio/Pool.antt =====
-- The pool of processes: backend/internal/stdio/manager.go.
use reflow_gateway.Base.{
  ℕ, ◌≤◌, ◌≡◌, refl, ◌∙◌, ◌≢◌, ◌⊎◌, inl, inr, Bool, true, false, not, ◌&&◌, none, some, [], ◌∷◌,
  length, Bool-cases, Option-cases, arith, leb,
}
use reflow_gateway.Base.Text.{Text, lit, ==_iff}
use reflow_gateway.Base.Maps.{
  Map, IsMap, lookup, insert, delete, retain, lookup-insert, lookup-insert_self, lookup-delete,
  lookup-delete_self, length-insert, length-delete, insert-IsMap, delete-IsMap, retain-IsMap,
}
use reflow_gateway.Base.Results.{Error, Result, ok, err, failure, Result-cases}
use reflow_gateway.Stdio.{Process, Manager, start, get_or_create, idle, gc, shutdown}

-- The pool is a map within its capacity.
abbrev pub IsPool : Manager → Type 0
IsPool m = IsMap m.processes × (length m.processes ≤ m.max_processes)

start_full :
    (m : Manager) (key : Text) (started : Result Process)
    → leb m.max_processes (length m.processes) ≡ true
    → start m key started ≡ (err (failure (lit "max STDIO processes reached")), m)
unfolding start
start_full m key started full = rw full refl

start_failed :
    (m : Manager) (key : Text) (e : Error)
    → leb m.max_processes (length m.processes) ≡ false
    → start m key (err e) ≡ (err e, m)
unfolding start
start_failed m key e room = rw room refl

start_room :
    (m : Manager) (key : Text) (p : Process)
    → leb m.max_processes (length m.processes) ≡ false
    → start m key (ok p) ≡ (ok p, record m { processes = insert key p m.processes })
unfolding start
start_room m key p room = rw room refl

start-IsPool :
    (m : Manager) (key : Text) (started : Result Process)
    → lookup key m.processes ≡ none
    → IsPool m
    → IsPool (start m key started).1
start-IsPool m key started absent pool =
    elim (Bool-cases (leb m.max_processes (length m.processes))) [
      | inl full ↦ rw (start_full m key started full) pool
      | inr room ↦ elim (Result-cases started) [
        | inl (e, q) ↦ rw (q, start_failed m key e room) pool
        | inr (p, q) ↦
            rw (q, start_room m key p room)
              (
                insert-IsMap key p m.processes pool.0,
                ground (arith, length-insert key p m.processes),
              )
      ]
    ]

-- What `start` does to the key and to the others.
start_lem :
    (m : Manager) (key other : Text) (started : Result Process)
    → ((p : Process)
        → (start m key started).0 ≡ ok p
        → (lookup key (start m key started).1.processes ≡ some p) × (started ≡ ok p))
      × (other ≢ key → lookup other (start m key started).1.processes ≡ lookup other m.processes)
start_lem m key other started = elim (Bool-cases (leb m.max_processes (length m.processes))) [
  | inl full ↦ rw (start_full m key started full) (λ p h. cc, λ ne. refl)
  | inr room ↦ elim (Result-cases started) [
    | inl (e, q) ↦ rw (q, start_failed m key e room) (λ p h. cc, λ ne. refl)
    | inr (new, q) ↦
        rw (q, start_room m key new room)
          (
            λ p h.
                (let same : new ≡ p = cc h in
                  (rw (← same) (lookup-insert_self key new m.processes), h)),
            λ ne. ground (arith, lookup-insert key other new m.processes, ==_iff key other),
          )
  ]
]

get_or_create_absent :
    (alive : Process → Bool) (m : Manager) (key : Text) (started : Result Process)
    → lookup key m.processes ≡ none
    → get_or_create alive m key started ≡ start m key started
unfolding get_or_create
get_or_create_absent alive m key started e = rw (e, get_or_create) refl

get_or_create_alive :
    (alive : Process → Bool) (m : Manager) (key : Text) (started : Result Process) (p : Process)
    → lookup key m.processes ≡ some p
    → alive p ≡ true
    → get_or_create alive m key started ≡ (ok p, m)
unfolding get_or_create
get_or_create_alive alive m key started p e a = rw (e, a, get_or_create) refl

get_or_create_dead :
    (alive : Process → Bool) (m : Manager) (key : Text) (started : Result Process) (p : Process)
    → lookup key m.processes ≡ some p
    → alive p ≡ false
    → get_or_create alive m key started
      ≡ start (record m { processes = delete key m.processes }) key started
unfolding get_or_create
get_or_create_dead alive m key started p e a = rw (e, a, get_or_create) refl

get_or_create-IsPool :
    (alive : Process → Bool) (m : Manager) (key : Text) (started : Result Process)
    → IsPool m
    → IsPool (get_or_create alive m key started).1
get_or_create-IsPool alive m key started pool = elim (Option-cases (lookup key m.processes)) [
  | inl e ↦ rw (get_or_create_absent alive m key started e) (start-IsPool m key started e pool)
  | inr (p, e) ↦ elim (Bool-cases (alive p)) [
    | inl a ↦ rw (get_or_create_alive alive m key started p e a) pool
    | inr a ↦ rw (get_or_create_dead alive m key started p e a) (
        start-IsPool (record m { processes = delete key m.processes }) key started
          (lookup-delete_self key m.processes)
          (
            delete-IsMap key m.processes pool.0,
            ground (arith, length-delete key m.processes pool.0),
          ))
  ]
]

length-retain : (test : Process → Bool) (ps : Map Process) → length (retain test ps) ≤ length ps
unfolding retain
length-retain test [] = omega arith
length-retain test ((key, p) ∷ ps) = ground (arith, length-retain test ps)

-- `GetOrCreate`, `gc` and `Shutdown` keep the pool a map with distinct keys and within its
-- capacity, whatever lives and whether or not a process starts.
pub operations-IsPool :
    (alive : Process → Bool) (m : Manager) (key : Text) (started : Result Process) (now : ℕ)
    → IsPool m
    → IsPool (get_or_create alive m key started).1 × IsPool (gc alive m now) × IsPool (shutdown m)
unfolding gc shutdown
operations-IsPool alive m key started now pool = (
  get_or_create-IsPool alive m key started pool,
  (
    retain-IsMap (λ p. alive p && not (idle m.idle_ttl now p)) m.processes pool.0,
    ground (arith, pool.1, length-retain (λ p. alive p && not (idle m.idle_ttl now p)) m.processes),
  ),
  (tt, omega arith),
)

-- A process that `GetOrCreate` returns is then held under the key, and it is either the living one
-- that was held there or the one that was started; and in any case the other keys hold what they
-- held.
pub get_or_create_lem :
    (alive : Process → Bool) (m : Manager) (key other : Text) (started : Result Process)
    → ((p : Process)
        → (get_or_create alive m key started).0 ≡ ok p
        → (lookup key (get_or_create alive m key started).1.processes ≡ some p)
          × (((lookup key m.processes ≡ some p) × (alive p ≡ true)) ⊎ (started ≡ ok p)))
      × (other ≢ key
          → lookup other (get_or_create alive m key started).1.processes ≡ lookup other m.processes)
get_or_create_lem alive m key other started = elim (Option-cases (lookup key m.processes)) [
  | inl e ↦
      let (found, others) = start_lem m key other started in
      rw (get_or_create_absent alive m key started e)
        (λ p h. (let (held, new) = found p h in (held, inr new)), others)
  | inr (old, e) ↦ elim (Bool-cases (alive old)) [
    | inl a ↦ rw (get_or_create_alive alive m key started old e a) (
      λ p h. (let same : old ≡ p = cc h in (rw (← same) e, inl (rw (← same) (e, a)))),
      λ ne. refl,
    )
    | inr a ↦
        let (found, others) =
          start_lem (record m { processes = delete key m.processes }) key other started in
        rw (get_or_create_dead alive m key started old e a) (
          λ p h. (let (held, new) = found p h in (held, inr new)),
          λ ne. others ne ∙ ground (arith, lookup-delete key other m.processes, ==_iff key other),
        )
  ]
]
