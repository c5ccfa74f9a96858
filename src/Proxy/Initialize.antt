-- ===== src/Proxy/Initialize.antt =====
-- Opening a session's targets: `InitializeSession` of backend/internal/gateway/proxy.go. The
-- goroutines work one at a time, in the order of the list of targets.
pub mod Capabilities
pub mod Opened
pub mod Order
use reflow_gateway.Base.{
  ℕ, ◌+◌, Bool, true, false, not, ◌&&◌, ◌||◌, Option, none, some, List, [], ◌∷◌, ◌++◌, length, eqb,
  ltb, is_some, if◌then◌else◌,
}
use reflow_gateway.Base.Text.{Text, lit, ◌==◌}
use reflow_gateway.Base.Results.{Error, Result, ok, err, failure, not_found}
use reflow_gateway.Authz.{Env, Identity, Authorizer, can_access_target}
use reflow_gateway.Targets.{Target}
use reflow_gateway.Mcp.{
  McpClient, ToolsCapability, ResourcesCapability, PromptsCapability, ServerCapabilities,
  no_capabilities,
}
use reflow_gateway.Session.{Session, set_client, set_target_id, set_initialized}
use reflow_gateway.Proxy.{identity}
use reflow_gateway.Proxy.Clients.{
  Connector, create_stdio_client, create_k8s_client, create_http_client,
}

-- The protocol version and the server's name are constants.
pub record InitializeResult : Type 0 where
  pub capabilities : ServerCapabilities
  pub instructions : Text

unfoldable pub create_client : Connector → Identity → Target → Result McpClient
create_client net who target =
    if target.transport_type == lit "stdio"
    then create_stdio_client net who target
    else if target.transport_type == lit "kubernetes"
    then create_k8s_client net who target
    else create_http_client net who target

abbrev pub tools_listed : Option ToolsCapability → Bool
tools_listed none = false
tools_listed (some c) = c.list_changed

abbrev pub resources_subscribe : Option ResourcesCapability → Bool
resources_subscribe none = false
resources_subscribe (some c) = c.subscribe

abbrev pub resources_listed : Option ResourcesCapability → Bool
resources_listed none = false
resources_listed (some c) = c.list_changed

abbrev pub prompts_listed : Option PromptsCapability → Bool
prompts_listed none = false
prompts_listed (some c) = c.list_changed

abbrev pub merge_tools : Option ToolsCapability → Option ToolsCapability → Option ToolsCapability
merge_tools seen none = seen
merge_tools seen (some c) = some (record { list_changed = tools_listed seen || c.list_changed })

abbrev pub merge_resources :
    Option ResourcesCapability → Option ResourcesCapability → Option ResourcesCapability
merge_resources seen none = seen
merge_resources seen (some c) = some (record {
  subscribe = resources_subscribe seen || c.subscribe;
  list_changed = resources_listed seen || c.list_changed;
})

abbrev pub merge_prompts :
    Option PromptsCapability → Option PromptsCapability → Option PromptsCapability
merge_prompts seen none = seen
merge_prompts seen (some c) = some (record { list_changed = prompts_listed seen || c.list_changed })

-- Aggregate capabilities
unfoldable pub merge_capabilities : ServerCapabilities → ServerCapabilities → ServerCapabilities
merge_capabilities seen new = record {
  tools = merge_tools seen.tools new.tools;
  resources = merge_resources seen.resources new.resources;
  prompts = merge_prompts seen.prompts new.prompts;
  logging = if new.logging then true else seen.logging;
}

-- What the goroutines share: the session, the authorizer, the capabilities so far, the errors, the
-- number of authorized targets and the clients closed.
pub record Opening : Type 0 where
  pub session : Session
  pub auth : Option Authorizer
  pub capabilities : ServerCapabilities
  pub errors : List (Text × Error)
  pub authorized : ℕ
  pub closed : List McpClient

unfoldable pub failed : Target → Error → Opening → Opening
failed target e o = record o { errors = o.errors ++ (target.name, e) ∷ [] }

unfoldable pub connect : Connector → Target → Opening → Opening
connect net target o = elim (create_client net (identity o.session) target) [
  | err e ↦ failed target e o
  | ok client ↦ elim (net.initialize client) [
    | err e ↦ failed target e (record o { closed = o.closed ++ client ∷ [] })
    | ok capabilities ↦ record o {
      session = set_target_id (set_client o.session target.name client) target.name target.id;
      capabilities = merge_capabilities o.capabilities capabilities;
      authorized = o.authorized + 1;
    }
  ]
]

abbrev pub error_text : Error → Text
error_text not_found = lit "not found"
error_text (failure message) = message

-- What a goroutine does with the authorizer's answer.
abbrev pub after_check : Connector → Target → Result (Bool × Text) → Opening → Opening
after_check net target (err e) o =
    failed target (failure (lit "authorization check failed: " ++ error_text e)) o
after_check net target (ok (allowed, name)) o = if not allowed then o else connect net target o

-- One goroutine.
unfoldable pub open_target : Env → Connector → Target → Opening → Opening
open_target env net target o = elim o.auth [
  | none ↦ connect net target o
  | some a ↦
      let (answer, a') = can_access_target env a (identity o.session) target.id in
      after_check net target answer (record o { auth = some a' })
]

unfoldable pub open_targets : Env → Connector → List Target → Opening → Opening
open_targets env net [] o = o
open_targets env net (target ∷ targets) o =
    open_targets env net targets (open_target env net target o)

unfoldable pub opening : Option Authorizer → Session → Opening
opening auth session = record {
  session = session;
  auth = auth;
  capabilities = no_capabilities;
  errors = [];
  authorized = 0;
  closed = [];
}

-- `%v` of the errors, which each name their target.
unfoldable pub listed_errors : List (Text × Error) → Text
listed_errors [] = []
listed_errors ((name, e) ∷ []) = lit "target " ++ (name ++ (lit ": " ++ error_text e))
listed_errors ((name, e) ∷ f ∷ es) =
    lit "target " ++ (name ++ (lit ": " ++ (error_text e ++ (b' ' ∷ listed_errors (f ∷ es)))))

-- After the goroutines have returned.
unfoldable pub conclude : Opening → Result InitializeResult × Opening
conclude o =
    if eqb o.authorized 0
    then if ltb 0 (length o.errors)
      then (
        err (
            failure
              (lit "all targets failed to initialize: [" ++ (listed_errors o.errors ++ lit "]"))),
        o,
      )
      else (
        ok (record {
          capabilities = no_capabilities;
          instructions = lit "No authorized MCP servers available for your account.";
        }),
        o,
      )
    else (
      ok (record { capabilities = o.capabilities; instructions = [] }),
      record o { session = set_initialized o.session o.capabilities },
    )

-- `targets` is what `GetEnabledTargets` answers.
unfoldable pub initialize_session :
    Env
    → Connector
    → Option Authorizer
    → Session
    → Result (List Target)
    → Result InitializeResult × Opening
initialize_session env net auth session (err e) = (err e, opening auth session)
initialize_session env net auth session (ok []) = (
  ok (record {
    capabilities = no_capabilities;
    instructions = lit "No MCP servers configured. Add targets via the API.";
  }),
  opening auth session,
)
initialize_session env net auth session (ok (target ∷ targets)) =
    conclude (open_targets env net (target ∷ targets) (opening auth session))
