-- ===== src/Proxy/Listed.antt =====
-- What a listing shows: `ListTools`, `ListResources` and `ListPrompts` of
-- backend/internal/gateway/proxy.go.
use mathlib.Core.List.{flat_map}
use reflow_gateway.Base.{lt→ltb, ◌<◌, ◌≡◌, refl, Bool, some, [], length, ltb, All}
use reflow_gateway.Base.Text.{Text}
use reflow_gateway.Base.Maps.{Map}
use reflow_gateway.Authz.{Env, Authorizer}
use reflow_gateway.Authz.Cache.{IsCoherent, IsTarget}
use reflow_gateway.Mcp.{McpClient}
use reflow_gateway.Session.{
  Session, set_tool_mapping, set_resource_mapping, set_prompt_mapping, clear_tool_mappings,
  clear_resource_mappings, clear_prompt_mappings,
}
use reflow_gateway.Proxy.{
  Upstream, Kind, Listing, identity, target_id_of, list_all, list_tools, list_resources,
  list_prompts, tool_kind, resource_kind, prompt_kind,
}
use reflow_gateway.Proxy.Shown.{shown_by, list_targets-shown}

-- Every target of the session has a UUID.
abbrev pub HasTargets : Session → Map McpClient → Type 0
HasTargets s = All (λ e. IsTarget (some (target_id_of s e.0)))

abbrev pub is_multiplexing : Session → Bool
is_multiplexing s = ltb 1 (length s.clients)

abbrev Same : Session → Session → Type 0
Same r r' = (identity r ≡ identity r') × (r.target_ids ≡ r'.target_ids)

abbrev Keeps : {A : Type 0} → Kind A → Type 0
Keeps kind =
    (r : Session) (shown target_id target_name name : Text)
    → Same (kind.remember r shown target_id target_name name) r

list_all-shown :
    {A : Type 0} (env : Env) (kind : Kind A) (s : Session) (arrivals : Map McpClient)
    → Keeps kind
    → ((r : Session) → Same (kind.clear r) r)
    → (a : Authorizer) → IsCoherent env a
    → 0 < length s.clients
    → HasTargets s arrivals
    → (list_all env kind (some a) s arrivals).items
      ≡ flat_map (shown_by env kind (is_multiplexing s) s) arrivals
unfolding list_all
list_all-shown env kind s arrivals keeps clears a coherent some_client proper =
    let start : Listing _ = record { items = []; session = kind.clear s; auth = some a } in
    let shown =
      list_targets-shown env kind (is_multiplexing s) s keeps arrivals start proper (record {
        same_identity = (clears s).0;
        same_targets = (clears s).1;
        authorizer = a;
        auth_on = refl;
        coherent = coherent;
      }) in
    rw (lt→ltb 0 (length s.clients) some_client) shown.0

tool-Keeps : (up : Upstream) → Keeps (tool_kind up)
unfolding identity set_tool_mapping
tool-Keeps up r shown target_id target_name name = (refl, refl)

tool_clears : (r : Session) → Same (clear_tool_mappings r) r
unfolding identity clear_tool_mappings
tool_clears r = (refl, refl)

resource-Keeps : (up : Upstream) → Keeps (resource_kind up)
unfolding identity set_resource_mapping
resource-Keeps up r shown target_id target_name name = (refl, refl)

resource_clears : (r : Session) → Same (clear_resource_mappings r) r
unfolding identity clear_resource_mappings
resource_clears r = (refl, refl)

prompt-Keeps : (up : Upstream) → Keeps (prompt_kind up)
unfolding identity set_prompt_mapping
prompt-Keeps up r shown target_id target_name name = (refl, refl)

prompt_clears : (r : Session) → Same (clear_prompt_mappings r) r
unfolding identity clear_prompt_mappings
prompt_clears r = (refl, refl)

module _ (env : Env) (up : Upstream) (a : Authorizer) (s : Session) (arrivals : Map McpClient) where
  -- For a session with clients whose target ids are not the text `global`, an authorizer with a
  -- coherent cache, and any order in which the clients answer, a listing shows for each client that
  -- answers, in that order, the items that a decision on the repository's policies allows the
  -- session's identity on the client's target, each under its display name: so for tools, for
  -- resources and for prompts.
  pub listings-shown :
      IsCoherent env a
      → 0 < length s.clients
      → HasTargets s arrivals
      → ((list_tools env up (some a) s arrivals).items
          ≡ flat_map (shown_by env (tool_kind up) (is_multiplexing s) s) arrivals)
        × ((list_resources env up (some a) s arrivals).items
            ≡ flat_map (shown_by env (resource_kind up) (is_multiplexing s) s) arrivals)
        × ((list_prompts env up (some a) s arrivals).items
            ≡ flat_map (shown_by env (prompt_kind up) (is_multiplexing s) s) arrivals)
  unfolding list_tools list_resources list_prompts
  listings-shown coherent some_client proper = (
    list_all-shown env (tool_kind up) s arrivals (tool-Keeps up) (λ r. tool_clears r) a coherent
        some_client proper,
    list_all-shown env (resource_kind up) s arrivals (resource-Keeps up) (λ r. resource_clears r) a
        coherent some_client proper,
    list_all-shown env (prompt_kind up) s arrivals (prompt-Keeps up) (λ r. prompt_clears r) a
        coherent some_client proper,
  )
