-- ===== src/Tests/StdioTests.antt =====
-- A pool of two processes, and the keys of some sessions.
use reflow_gateway.Base.{◌≡◌, refl, ℕ, true, Bool, none, some, [], ◌∷◌, eqb, arith}
use reflow_gateway.Base.Text.{Text, lit, ◌==◌}
use reflow_gateway.Base.Maps.{lookup, delete, insert}
use reflow_gateway.Base.Results.{ok}
use reflow_gateway.Targets.{Target}
use reflow_gateway.Stdio.{Process, Manager, start, get_or_create, hex, le_text}
use reflow_gateway.Stdio.Pool.{IsPool, operations-IsPool, get_or_create_lem}

abbrev process : ℕ → ℕ → Process
process pid last_used = record { pid = pid; last_used = last_used }

abbrev pool : Manager
pool = record {
  processes = (lit "user:1", process 1 10) ∷ (lit "user:2", process 2 50) ∷ [];
  idle_ttl = 30;
  max_lifetime = 1000;
  gc_interval = 5;
  max_processes = 2;
  closed = [];
}

-- Process 2 has died.
abbrev alive : Process → Bool
alive p = eqb p.pid 1

pool-IsPool : IsPool pool
unfolding lookup lit ◌==◌
pool-IsPool = ((refl, (refl, tt)), omega arith)

operations-IsPool_example : IsPool (get_or_create alive pool (lit "user:2") (ok (process 3 60))).1
operations-IsPool_example =
    (operations-IsPool alive pool (lit "user:2") (ok (process 3 60)) 41 pool-IsPool).0

restarted : (get_or_create alive pool (lit "user:2") (ok (process 3 60))).0 ≡ ok (process 3 60)
unfolding get_or_create start delete insert lookup lit ◌==◌
restarted = refl

get_or_create_lem_example :
    lookup (lit "user:2") (get_or_create alive pool (lit "user:2") (ok (process 3 60))).1.processes
    ≡ some (process 3 60)
get_or_create_lem_example =
    ((get_or_create_lem alive pool (lit "user:2") (lit "user:1") (ok (process 3 60))).0
      (process 3 60) restarted).0

found_first : lookup (lit "user:1") pool.processes ≡ some (process 1 10)
unfolding lookup lit ◌==◌
found_first = refl

abbrev target : Text → Target
target boundary = record {
  id = lit "t1";
  name = lit "git";
  url = [];
  transport_type = lit "stdio";
  command = lit "git-mcp";
  image = [];
  isolation_boundary = boundary;
  auth_type = lit "none";
  auth_header_name = [];
  enabled = true;
  default_encrypted_token = none;
}

a_before_b : le_text (lit "a") (lit "b") ≡ true
unfolding le_text lit
a_before_b = refl

-- 0x0a, 0xff.
printed : hex (10 ∷ 255 ∷ []) ≡ lit "0aff"
unfolding hex lit
printed = refl
