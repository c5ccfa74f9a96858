-- ===== src/Proxy/Initialize/Order.antt =====
-- The order in which the targets answer: `InitializeSession` of backend/internal/gateway/proxy.go.
use reflow_gateway.Base.{
  ◌≡◌, refl, sym, ◌∙◌, ap, ◌⊎◌, inl, inr, Bool, true, false, Option, none, some, List, [], ◌∷◌,
  Bool-cases, All, Any, eqb, ltb, length, if◌then◌else◌,
}
use reflow_gateway.Base.Text.{Text, lit, ◌==◌, ==_iff}
use reflow_gateway.Base.Maps.{lookup}
use reflow_gateway.Base.Results.{Result, ok, err}
use reflow_gateway.Authz.{Env, Identity, Authorizer}
use reflow_gateway.Authz.Cache.{IsCoherent, IsTarget}
use reflow_gateway.Targets.{Target}
use reflow_gateway.Mcp.{McpClient, ServerCapabilities, no_capabilities}
use reflow_gateway.Session.{Session, set_initialized}
use reflow_gateway.Proxy.{identity}
use reflow_gateway.Proxy.Initialize.{
  Opening, InitializeResult, open_target, open_targets, opening, conclude, initialize_session,
}
use reflow_gateway.Proxy.Clients.{Connector}
use reflow_gateway.Proxy.Initialize.Opened.{
  Attempt, refused, failing, connected, attempt, Tally, step, tally, client_after, IsReady,
  open_target-IsReady,
}

abbrev pub HasTarget : Target → Type 0
HasTarget target = IsTarget (some target.id)

module _ (env : Env) (net : Connector) (who : Identity) where
  abbrev pub steps : List Target → Tally → Tally
  steps [] t = t
  steps (x ∷ xs) t = steps xs (step (attempt env net who x) t)

  -- Whose client a name has: the session's old one, or that of a target which was connected.
  abbrev pub Connects : Text → McpClient → Target → Type 0
  Connects name client target =
      (target.name ≡ name)
      × ((capabilities : ServerCapabilities) × (attempt env net who target
            ≡ connected client capabilities))

  client_after-Connects :
      (name : Text) (client : McpClient) (target : Target) (how : Attempt) (old : Option McpClient)
      → attempt env net who target ≡ how
      → client_after name target how old ≡ some client
      → (old ≡ some client) ⊎ Connects name client target
  client_after-Connects name client target refused old h e = inl e
  client_after-Connects name client target failing old h e = inl e
  client_after-Connects name client target (connected c cs) old h e =
      elim (Bool-cases (target.name == name)) [
        | inl q ↦
            let same : c ≡ client = cc (rw q at e) in
            inr ((==_iff target.name name).0 q, (cs, h ∙ ap (λ x. connected x cs) same))
        | inr q ↦ inl (rw q at e)
      ]

  open_targets-steps :
      (ts : List Target) (o : Opening)
      → All HasTarget ts
      → IsReady env who o
      → (tally (open_targets env net ts o) ≡ steps ts (tally o))
        × ((name : Text) (client : McpClient)
            → lookup name (open_targets env net ts o).session.clients ≡ some client
            → (lookup name o.session.clients ≡ some client) ⊎ Any (Connects name client) ts)
  unfolding open_targets
  open_targets-steps [] o proper ready = (refl, λ name client e. inl e)
  open_targets-steps (t ∷ ts) o proper ready =
      let (tallied, ready', clients) = open_target-IsReady env net who t o proper.0 ready in
      let (rest, later) = open_targets-steps ts (open_target env net t o) proper.1 ready' in
      (
        rest ∙ ap (steps ts) tallied,
        λ name client e. elim (later name client e) [
          | inr h ↦ inr (inr h)
          | inl h ↦
              elim (client_after-Connects name client t (attempt env net who t)
                (lookup name o.session.clients) refl (sym (clients name) ∙ h)) [
                  | inl k ↦ inl k
                  | inr k ↦ inr (inl k)
                ]
        ],
      )

abbrev pub is_empty : List Target → Bool
is_empty [] = true
is_empty (t ∷ ts) = false

-- What a success answers; a failure's text lists the errors in the order they come.
abbrev pub success : Result InitializeResult → Option InitializeResult
success (ok result) = some result
success (err e) = none

-- The success, from the tally.
abbrev pub concluded : Tally → Option InitializeResult
concluded t =
    if eqb t.authorized 0
    then if ltb 0 t.errors
      then none
      else some (record {
        capabilities = no_capabilities;
        instructions = lit "No authorized MCP servers available for your account.";
      })
    else some (record { capabilities = t.capabilities; instructions = [] })

abbrev pub unconfigured : Option InitializeResult
unconfigured = some (record {
  capabilities = no_capabilities;
  instructions = lit "No MCP servers configured. Add targets via the API.";
})

conclude-clients : (o : Opening) → (conclude o).1.session.clients ≡ o.session.clients
unfolding conclude set_initialized
conclude-clients o = elim (Bool-cases (eqb o.authorized 0)) [
  | inl e ↦
      rw e (elim (Bool-cases (ltb 0 (length o.errors))) [ inl q ↦ rw q refl | inr q ↦ rw q refl ])
  | inr e ↦ rw e refl
]

module _ (env : Env) (net : Connector) (a : Authorizer) (s : Session)
    (coherent : IsCoherent env a) where
  opening-IsReady : IsReady env (identity s) (opening (some a) s)
  unfolding opening
  opening-IsReady = ((a, refl, coherent), refl)

  abbrev blank : Tally
  blank = record { capabilities = no_capabilities; authorized = 0; errors = 0 }

  -- For an authorizer with a coherent cache and targets whose ids are not the text `global`, every
  -- client that the session holds after `initialize` it held under that name before, or it was made
  -- for a target of that name that a decision on the repository's policies allows the session's
  -- identity, and it answered `initialize`.
  pub initialize_session-Connects :
      (ts : List Target) (name : Text) (client : McpClient)
      → All HasTarget ts
      → lookup name (initialize_session env net (some a) s (ok ts)).1.session.clients ≡ some client
      → (lookup name s.clients ≡ some client) ⊎ Any (Connects env net (identity s) name client) ts
  unfolding initialize_session opening
  initialize_session-Connects [] name client proper e = inl e
  initialize_session-Connects (t ∷ ts) name client proper e =
      (open_targets-steps env net (identity s) (t ∷ ts) (opening (some a) s) proper
          opening-IsReady).1
        name client
        (ap (λ m. lookup name m)
            (sym (conclude-clients (open_targets env net (t ∷ ts) (opening (some a) s))))
          ∙ e)
