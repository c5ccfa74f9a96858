-- ===== src/Proxy/Initialize/Opened.antt =====
-- Which targets a session opens: `InitializeSession` of backend/internal/gateway/proxy.go.
use reflow_gateway.Base.{
  ℕ, ◌+◌, ◌≡◌, refl, ◌∙◌, ap, subst, inl, inr, Bool, true, false, not, Option, some, List, [], ◌∷◌,
  ◌++◌, length, length-append, if◌then◌else◌,
}
use reflow_gateway.Base.Text.{Text, lit, ◌==◌}
use reflow_gateway.Base.Maps.{lookup, lookup-insert}
use reflow_gateway.Base.Results.{Error, Result, failure, ok, err, ◌>>=◌, Result-cases}
use reflow_gateway.Authz.{Env, Identity, Authorizer, can_access_target, decide}
use reflow_gateway.Authz.Cache.{IsCoherent, IsTarget, can_access-IsCoherent}
use reflow_gateway.Targets.{Target}
use reflow_gateway.Mcp.{McpClient, ServerCapabilities}
use reflow_gateway.Session.{set_client, set_target_id}
use reflow_gateway.Proxy.{identity}
use reflow_gateway.Proxy.Initialize.{
  error_text, Opening, create_client, merge_capabilities, failed, connect, after_check, open_target,
}
use reflow_gateway.Proxy.Clients.{Connector}

-- How one target fares.
pub data Attempt : Type 0 where
  refused : Attempt
  failing : Attempt
  connected : McpClient → ServerCapabilities → Attempt

abbrev pub try_client : Connector → Identity → Target → Attempt
try_client net who target = elim (create_client net who target) [
  | err e ↦ failing
  | ok client ↦ elim (net.initialize client) [
    | err e ↦ failing
    | ok capabilities ↦ connected client capabilities
  ]
]

abbrev pub access : Env → Identity → Target → Result (Bool × Text)
access env who target =
    env.get_policies_for_target (some target.id) >>= (λ ps. ok (decide env who (lit "all") [] ps))

abbrev pub checked : Connector → Identity → Target → Result (Bool × Text) → Attempt
checked net who target (err e) = failing
checked net who target (ok (allowed, name)) =
    if not allowed then refused else try_client net who target

-- What a decision on the repository's policies and the upstream make of a target.
abbrev pub attempt : Env → Connector → Identity → Target → Attempt
attempt env net who target = checked net who target (access env who target)

-- What the answer to the client depends on.
pub record Tally : Type 0 where
  pub capabilities : ServerCapabilities
  pub authorized : ℕ
  pub errors : ℕ

abbrev pub step : Attempt → Tally → Tally
step refused t = t
step failing t = record t { errors = t.errors + 1 }
step (connected client capabilities) t = record t {
  capabilities = merge_capabilities t.capabilities capabilities;
  authorized = t.authorized + 1;
}

abbrev pub tally : Opening → Tally
tally o = record {
  capabilities = o.capabilities;
  authorized = o.authorized;
  errors = length o.errors;
}

-- The client of a name after a target was tried.
abbrev pub client_after : Text → Target → Attempt → Option McpClient → Option McpClient
client_after name target refused old = old
client_after name target failing old = old
client_after name target (connected client capabilities) old =
    if target.name == name then some client else old

-- One step of opening: its tally, its session and its authorizer.
pub record Stepped (target : Target) (how : Attempt) (o o' : Opening) : Type 0 where
  pub tallied : tally o' ≡ step how (tally o)
  pub same_identity : identity o'.session ≡ identity o.session
  pub same_auth : o'.auth ≡ o.auth
  pub clients :
      (name : Text)
      → lookup name o'.session.clients
        ≡ client_after name target how (lookup name o.session.clients)

failed-Stepped :
    (target : Target) (e : Error) (o : Opening) (closed : List McpClient)
    → Stepped target failing o (failed target e (record o { closed = closed }))
unfolding failed
failed-Stepped target e o closed = record {
  tallied =
      ap (λ n. record { capabilities = o.capabilities; authorized = o.authorized; errors = n })
        (length-append o.errors ((target.name, e) ∷ []));
  same_identity = refl;
  same_auth = refl;
  clients = λ name. refl;
}

connected-Stepped :
    (target : Target) (client : McpClient) (capabilities : ServerCapabilities) (o : Opening)
    → Stepped target (connected client capabilities) o (record o {
      session = set_target_id (set_client o.session target.name client) target.name target.id;
      capabilities = merge_capabilities o.capabilities capabilities;
      authorized = o.authorized + 1;
    })
unfolding set_client set_target_id identity
connected-Stepped target client capabilities o = record {
  tallied = refl;
  same_identity = refl;
  same_auth = refl;
  clients = λ name. lookup-insert target.name name client o.session.clients;
}

connect-Stepped :
    (net : Connector) (target : Target) (o : Opening)
    → Stepped target (try_client net (identity o.session) target) o (connect net target o)
unfolding connect
connect-Stepped net target o = elim (Result-cases (create_client net (identity o.session) target)) [
  | inl (e, q) ↦ rw (q, connect, try_client) (failed-Stepped target e o o.closed)
  | inr (client, q) ↦ elim (Result-cases (net.initialize client)) [
    | inl (e, r) ↦
        rw (q, r, connect, try_client) (failed-Stepped target e o (o.closed ++ client ∷ []))
    | inr (capabilities, r) ↦
        rw (q, r, connect, try_client) (connected-Stepped target client capabilities o)
  ]
]

after_check-Stepped :
    (net : Connector) (target : Target) (answer : Result (Bool × Text)) (o : Opening)
    → Stepped target
        (checked net (identity o.session) target answer)
        o
        (after_check net target answer o)
after_check-Stepped net target (err e) o =
    failed-Stepped target (failure (lit "authorization check failed: " ++ error_text e)) o o.closed
after_check-Stepped net target (ok (true, name)) o = connect-Stepped net target o
after_check-Stepped net target (ok (false, name)) o = record {
  tallied = refl;
  same_identity = refl;
  same_auth = refl;
  clients = λ name. refl;
}

open_target_checked :
    (env : Env) (net : Connector) (target : Target) (o : Opening) (a : Authorizer)
    → o.auth ≡ some a
    → open_target env net target o
      ≡ after_check net target
          (can_access_target env a (identity o.session) target.id).0
          (record o { auth = some (can_access_target env a (identity o.session) target.id).1 })
unfolding open_target
open_target_checked env net target o a e = rw (e, open_target) refl

-- The authorizer of an opening is on and coherent, and the session is of this identity.
abbrev pub IsReady : Env → Identity → Opening → Type 0
IsReady env who o =
    ((a : Authorizer) × (o.auth ≡ some a) × IsCoherent env a) × (identity o.session ≡ who)

module _ (env : Env) (net : Connector) (who : Identity) where
  can_access_target-IsCoherent :
      (a : Authorizer) (target : Target)
      → IsCoherent env a
      → IsTarget (some target.id)
      → ((can_access_target env a who target.id).0 ≡ access env who target)
        × IsCoherent env (can_access_target env a who target.id).1
  unfolding can_access_target
  can_access_target-IsCoherent a target coherent proper =
      can_access-IsCoherent env a coherent who (some target.id) (lit "all") [] proper

  pub open_target-IsReady :
      (target : Target) (o : Opening)
      → IsTarget (some target.id)
      → IsReady env who o
      → (tally (open_target env net target o) ≡ step (attempt env net who target) (tally o))
        × IsReady env who (open_target env net target o)
        × ((name : Text)
            → lookup name (open_target env net target o).session.clients
              ≡ client_after name target
                  (attempt env net who target)
                  (lookup name o.session.clients))
  open_target-IsReady target o proper ((a, on, coherent), same) =
      let (answer, coherent') = can_access_target-IsCoherent a target coherent proper in
      let o' : Opening = record o { auth = some (can_access_target env a who target.id).1 } in
      let stepped =
        subst
          (λ w.
            Stepped target (checked net w target (access env who target)) o'
              (after_check net target (access env who target) o'))
          same (after_check-Stepped net target (access env who target) o') in
      rw (open_target_checked env net target o a on, same, answer)
        (
          stepped.tallied,
          (
            ((can_access_target env a who target.id).1, stepped.same_auth, coherent'),
            stepped.same_identity ∙ same,
          ),
          stepped.clients,
        )
