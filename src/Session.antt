-- ===== src/Session.antt =====
-- A session and its methods: `Session` of backend/internal/gateway/session.go. A method returns
-- the new session; the lock makes each method one step.
pub mod Identity
pub mod Manager
use reflow_gateway.Base.{
  ℕ, Bool, true, false, not, Option, none, some, List, [], ◌∷◌, ◌++◌, map, any, keep, length, eqb,
  if◌then◌else◌,
}
use reflow_gateway.Base.Text.{Text, ◌==◌}
use reflow_gateway.Base.Maps.{Map, lookup, insert}
use reflow_gateway.Mcp.{McpClient, is_stdio, ServerCapabilities}

pub record ToolMapping : Type 0 where
  pub target_id : Text
  pub target_name : Text
  pub tool_name : Text

pub record ResourceMapping : Type 0 where
  pub target_id : Text
  pub target_name : Text
  pub uri : Text

pub record PromptMapping : Type 0 where
  pub target_id : Text
  pub target_name : Text
  pub prompt_name : Text

pub record Session : Type 0 where
  pub id : Text
  pub user_id : Text
  pub role : Text
  pub groups : List Text
  pub created_at : ℕ
  pub expires_at : ℕ
  pub clients : Map McpClient
  pub initialized : Bool
  pub capabilities : Option ServerCapabilities
  pub target_ids : Map Text
  pub tool_map : Map ToolMapping
  pub resource_map : Map ResourceMapping
  pub prompt_map : Map PromptMapping

-- The literal with which `CreateSession` and `GetSession` make a session: empty maps, not
-- initialized.
abbrev pub new_session : Text → Text → Text → List Text → ℕ → ℕ → Session
new_session id user_id role groups created_at expires_at = record {
  id = id;
  user_id = user_id;
  role = role;
  groups = groups;
  created_at = created_at;
  expires_at = expires_at;
  clients = [];
  initialized = false;
  capabilities = none;
  target_ids = [];
  tool_map = [];
  resource_map = [];
  prompt_map = [];
}

unfoldable pub get_client : Session → Text → Option McpClient
get_client s target_name = lookup target_name s.clients

unfoldable pub set_client : Session → Text → McpClient → Session
set_client s target_name client = record s { clients = insert target_name client s.clients }

unfoldable pub set_target_id : Session → Text → Text → Session
set_target_id s target_name target_id = record s {
  target_ids = insert target_name target_id s.target_ids;
}

unfoldable pub get_target_id : Session → Text → Option Text
get_target_id s target_name = lookup target_name s.target_ids

unfoldable pub set_tool_mapping : Session → Text → ToolMapping → Session
set_tool_mapping s name mapping = record s { tool_map = insert name mapping s.tool_map }

unfoldable pub get_tool_mapping : Session → Text → Option ToolMapping
get_tool_mapping s name = lookup name s.tool_map

unfoldable pub clear_tool_mappings : Session → Session
clear_tool_mappings s = record s { tool_map = [] }

unfoldable pub set_resource_mapping : Session → Text → ResourceMapping → Session
set_resource_mapping s uri mapping = record s { resource_map = insert uri mapping s.resource_map }

unfoldable pub get_resource_mapping : Session → Text → Option ResourceMapping
get_resource_mapping s uri = lookup uri s.resource_map

unfoldable pub clear_resource_mappings : Session → Session
clear_resource_mappings s = record s { resource_map = [] }

unfoldable pub set_prompt_mapping : Session → Text → PromptMapping → Session
set_prompt_mapping s name mapping = record s { prompt_map = insert name mapping s.prompt_map }

unfoldable pub get_prompt_mapping : Session → Text → Option PromptMapping
get_prompt_mapping s name = lookup name s.prompt_map

unfoldable pub clear_prompt_mappings : Session → Session
clear_prompt_mappings s = record s { prompt_map = [] }

unfoldable pub set_initialized : Session → ServerCapabilities → Session
set_initialized s caps = record s { initialized = true; capabilities = some caps }

-- The clients that are closed when a session ends: stdio processes belong to their manager.
unfoldable pub closed_clients : Map McpClient → List McpClient
closed_clients [] = []
closed_clients ((name, c) ∷ m) =
    let rest = closed_clients m in if not (is_stdio c) then c ∷ rest else rest

-- The session after `Recycle`, and the clients that it closes.
unfoldable pub recycle : Session → Text → List Text → Session × List McpClient
recycle s new_role new_groups = (
  record s {
    clients = [];
    target_ids = [];
    tool_map = [];
    resource_map = [];
    prompt_map = [];
    initialized = false;
    capabilities = none;
    role = new_role;
    groups = new_groups;
  },
  closed_clients s.clients,
)

-- The loop over the new groups: a group that the session does not have calls for a recycle.
unfoldable pub some_missing : List Text → List Text → Bool
some_missing session_groups [] = false
some_missing session_groups (g ∷ groups) =
    let rest = some_missing session_groups groups in
    if any (λ h. h == g) session_groups then rest else true

unfoldable pub needs_recycle : Session → Text → List Text → Bool
needs_recycle s role groups =
    if not (s.role == role)
    then true
    else if not (eqb (length s.groups) (length groups))
    then true
    else some_missing s.groups groups
