-- ===== src/Proxy.antt =====
-- The proxy: backend/internal/gateway/proxy.go. Upstream servers answer through `Upstream`. The
-- goroutines of a listing work one at a time, in the order in which they take the lock: that
-- order is the list `arrivals` of the session's clients. Spans and log lines are left out.
pub mod Routing
pub mod Shown
pub mod Listed
pub mod Calls
pub mod Clients
pub mod Initialize
pub mod Dispatch
use reflow_gateway.Base.{
  ℕ, Bool, true, false, not, ◌&&◌, Option, none, some, List, [], ◌∷◌, ◌++◌, map, length, ltb,
  if◌then◌else◌,
}
use reflow_gateway.Base.Text.{Text, lit, ◌==◌, cut}
use reflow_gateway.Base.Maps.{Map}
use reflow_gateway.Base.Results.{Error, Result, ok, err, failure}
use reflow_gateway.Authz.{Env, Identity, Authorizer, can_access, granted}
use reflow_gateway.Mcp.{McpClient, Tool, Resource, Prompt, ToolCallResult}
use reflow_gateway.Session.{
  Session, ToolMapping, ResourceMapping, PromptMapping, get_client, get_target_id, set_tool_mapping,
  get_tool_mapping, clear_tool_mappings, set_resource_mapping, get_resource_mapping,
  clear_resource_mappings, set_prompt_mapping, get_prompt_mapping, clear_prompt_mappings,
}

-- `uuid.UUID{}`, which a missing map entry gives.
unfoldable pub nil_uuid : Text
nil_uuid = lit "00000000-0000-0000-0000-000000000000"

abbrev pub delimiter : ℕ
delimiter = b'_'

-- The name under which an item is shown: prefixed when there are several targets.
unfoldable pub display_name : Bool → Text → Text → Text
display_name multiplexing target_name name =
    if multiplexing then target_name ++ (delimiter ∷ name) else name

unfoldable pub parse_resource_name : Text → Text × Text
parse_resource_name name = elim (cut delimiter name) [
  | none ↦ ([], name)
  | some (target_name, rest) ↦ (target_name, rest)
]

-- What the upstream servers answer.
pub record Upstream : Type 0 where
  pub list_tools : McpClient → Result (List Tool)
  pub list_resources : McpClient → Result (List Resource)
  pub list_prompts : McpClient → Result (List Prompt)
  pub call_tool : McpClient → Text → Text → Result ToolCallResult
  pub read_resource : McpClient → Text → Result Text
  pub get_prompt : McpClient → Text → Text → Result Text

unfoldable pub identity : Session → Identity
identity s = record { user_id = s.user_id; role = s.role; groups = s.groups }

-- The authorizer may be nil: then every access is granted.
unfoldable pub check_access :
    Env → Option Authorizer → Session → Text → Text → Text → Bool × Option Authorizer
unfolding identity
check_access env none s target_id resource_type name = (true, none)
check_access env (some a) s target_id resource_type name =
    let (answer, a') = can_access env a (identity s) (some target_id) resource_type name in
    (granted answer, some a')

unfoldable pub target_id_of : Session → Text → Text
target_id_of s target_name = elim (get_target_id s target_name) [ none ↦ nil_uuid | some id ↦ id ]

-- What differs between the listings of tools, resources and prompts.
pub record Kind (A : Type 0) : Type 0 where
  pub resource_type : Text
  pub name_of : A → Text
  pub renamed : A → Text → A
  pub remember : Session → Text → Text → Text → Text → Session
  pub clear : Session → Session
  pub fetch : McpClient → Result (List A)

-- The state of a listing: what is listed so far, the session and the authorizer.
pub record Listing (A : Type 0) : Type 0 where
  pub items : List A
  pub session : Session
  pub auth : Option Authorizer

module _ {A : Type 0} (env : Env) (kind : Kind A) (multiplexing : Bool) where
  -- One round of the inner loop, over one item of one target.
  unfoldable pub list_item : Text → Text → A → Listing A → Listing A
  list_item target_name target_id item l =
      let (allowed, auth) =
        check_access env l.auth l.session target_id kind.resource_type (kind.name_of item) in
      let shown = display_name multiplexing target_name (kind.name_of item) in
      if not allowed then record l { auth = auth } else record {
        items = l.items ++ kind.renamed item shown ∷ [];
        session = kind.remember l.session shown target_id target_name (kind.name_of item);
        auth = auth;
      }

  unfoldable pub list_items : Text → Text → List A → Listing A → Listing A
  list_items target_name target_id [] l = l
  list_items target_name target_id (item ∷ items) l =
      list_items target_name target_id items (list_item target_name target_id item l)

  -- One goroutine: a target that fails to answer is passed over.
  unfoldable pub list_target : Text × McpClient → Listing A → Listing A
  list_target (target_name, client) l = elim (kind.fetch client) [
    | err e ↦ l
    | ok items ↦ list_items target_name (target_id_of l.session target_name) items l
  ]

  unfoldable pub list_targets : Map McpClient → Listing A → Listing A
  list_targets [] l = l
  list_targets (arrival ∷ arrivals) l = list_targets arrivals (list_target arrival l)

unfoldable pub list_all :
    {A : Type 0} → Env → Kind A → Option Authorizer → Session → Map McpClient → Listing A
list_all env kind auth s arrivals =
    if ltb 0 (length s.clients)
    then list_targets env kind (ltb 1 (length s.clients)) arrivals
        (record { items = []; session = kind.clear s; auth = auth })
    else record { items = []; session = s; auth = auth }

-- The listed tool is made anew from its name, description and schema.
abbrev pub tool_kind : Upstream → Kind Tool
tool_kind up = record {
  resource_type = lit "tool";
  name_of = λ t. t.name;
  renamed = λ t shown. record {
    name = shown;
    description = t.description;
    input_schema = t.input_schema;
    annotations = none;
  };
  remember = λ s shown target_id target_name name.
      set_tool_mapping s shown
        (record { target_id = target_id; target_name = target_name; tool_name = name });
  clear = clear_tool_mappings;
  fetch = up.list_tools;
}

abbrev pub resource_kind : Upstream → Kind Resource
resource_kind up = record {
  resource_type = lit "resource";
  name_of = λ r. r.uri;
  renamed = λ r shown. record {
    uri = shown;
    name = r.name;
    description = r.description;
    mime_type = r.mime_type;
    annotations = none;
  };
  remember = λ s shown target_id target_name uri.
      set_resource_mapping s shown
        (record { target_id = target_id; target_name = target_name; uri = uri });
  clear = clear_resource_mappings;
  fetch = up.list_resources;
}

abbrev pub prompt_kind : Upstream → Kind Prompt
prompt_kind up = record {
  resource_type = lit "prompt";
  name_of = λ p. p.name;
  renamed =
      λ p shown. record { name = shown; description = p.description; arguments = p.arguments };
  remember = λ s shown target_id target_name name.
      set_prompt_mapping s shown
        (record { target_id = target_id; target_name = target_name; prompt_name = name });
  clear = clear_prompt_mappings;
  fetch = up.list_prompts;
}

unfoldable pub list_tools :
    Env → Upstream → Option Authorizer → Session → Map McpClient → Listing Tool
list_tools env up auth s arrivals = list_all env (tool_kind up) auth s arrivals

unfoldable pub list_resources :
    Env → Upstream → Option Authorizer → Session → Map McpClient → Listing Resource
list_resources env up auth s arrivals = list_all env (resource_kind up) auth s arrivals

unfoldable pub list_prompts :
    Env → Upstream → Option Authorizer → Session → Map McpClient → Listing Prompt
list_prompts env up auth s arrivals = list_all env (prompt_kind up) auth s arrivals
