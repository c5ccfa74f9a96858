-- ===== src/Tests/ProxyTests.antt =====
-- The proxy at concrete sessions.
use mathlib.Core.List.{flat_map}
use reflow_gateway.Base.{◌≡◌, refl, true, false, none, some, [], ◌∷◌, Any, arith}
use reflow_gateway.Base.Text.{Text, lit, ◌==◌, cut}
use reflow_gateway.Base.Maps.{lookup, insert}
use reflow_gateway.Base.Results.{ok, err, failure}
use reflow_gateway.Policy.Store.{
  subjects_of, with_subjects, selected, place, order_by_priority, get_policies_for_target,
}
use reflow_gateway.Authz.{
  cache_key, new_authorizer, matches_subject, pattern_matches, applies, decide, load_policies,
  can_access,
}
use reflow_gateway.Authz.Cache.{IsTarget, new_authorizer-IsCoherent}
use reflow_gateway.Authz.Enforced.{Permits}
use reflow_gateway.Mcp.{http_client, Tool}
use reflow_gateway.Session.{
  Session, ToolMapping, get_client, get_tool_mapping, get_target_id, set_tool_mapping,
  clear_tool_mappings,
}
use reflow_gateway.Proxy.{
  Upstream, identity, check_access, target_id_of, parse_resource_name, display_name, tool_kind,
  list_tools, list_all, list_item, list_items, list_target, list_targets,
}
use reflow_gateway.Proxy.Routing.{sent, route, find_mapping, guess_mapping, call_tool}
use reflow_gateway.Proxy.Calls.{call_tool_permitted}
use reflow_gateway.Proxy.Shown.{shown_by}
use reflow_gateway.Proxy.Listed.{HasTargets, listings-shown}
use reflow_gateway.Tests.Fixtures.{exact_match, tables, env, connected}

abbrev tool : Text → Tool
tool name = record {
  name = name;
  description = [];
  input_schema = lit "{}";
  annotations = some (lit "{}");
}

-- Every server has the tools `read` and `drop`, and answers each call with its argument.
abbrev pub servers : Upstream
servers = record {
  list_tools = λ client. ok (tool (lit "read") ∷ tool (lit "drop") ∷ []);
  list_resources = λ client. err (failure (lit "unavailable"));
  list_prompts = λ client. ok [];
  call_tool = λ client name args. ok (record { content = args; is_error = false });
  read_resource = λ client uri. ok uri;
  get_prompt = λ client name arguments. ok arguments;
}

abbrev read_mapping : ToolMapping
read_mapping = record { target_id = lit "t1"; target_name = lit "git"; tool_name = lit "read" }

t1-IsTarget : IsTarget (some (lit "t1"))
unfolding lit
t1-IsTarget e = cc

-- No listing came first: the name is parsed.
read_found : find_mapping connected (lit "git_read") ≡ some read_mapping
unfolding find_mapping get_tool_mapping guess_mapping parse_resource_name cut target_id_of
    get_target_id lookup ◌==◌ lit
read_found = refl

read_sent :
    (call_tool env servers (some new_authorizer) connected (lit "git_read") (lit "{}")).0
    ≡ sent (http_client 1) (lit "read") (ok (record { content = lit "{}"; is_error = false }))
unfolding call_tool find_mapping get_tool_mapping guess_mapping parse_resource_name cut target_id_of
    get_target_id lookup ◌==◌ lit route check_access identity get_client can_access load_policies
    get_policies_for_target order_by_priority place selected with_subjects subjects_of decide
    applies matches_subject pattern_matches
read_sent = refl

call_tool_permitted_example :
    Any
      (Permits exact_match tables (identity connected) (some (lit "t1")) (lit "tool") (lit "read"))
      tables.authorization_policies
call_tool_permitted_example =
    (call_tool_permitted exact_match tables new_authorizer (new_authorizer-IsCoherent env) connected
      servers (lit "git_read") (lit "{}") read_mapping (http_client 1) (lit "read")
      (ok (record { content = lit "{}"; is_error = false })) read_found t1-IsTarget read_sent).3

-- A session that has listed a resource and a prompt of `git`.
abbrev listed : Session
listed = record connected {
  resource_map =
      (lit "git_r", record { target_id = lit "t1"; target_name = lit "git"; uri = lit "r" }) ∷ [];
  prompt_map =
      (lit "git_p", record { target_id = lit "t1"; target_name = lit "git"; prompt_name = lit "p" })
      ∷ [];
}

connected-HasTargets : HasTargets connected connected.clients
unfolding target_id_of get_target_id lookup ◌==◌ lit
connected-HasTargets = (λ e. cc, (λ e. cc, tt))

listings-shown_example :
    (list_tools env servers (some new_authorizer) connected connected.clients).items
    ≡ flat_map (shown_by env (tool_kind servers) true connected) connected.clients
listings-shown_example =
    (listings-shown env servers new_authorizer connected connected.clients
      (new_authorizer-IsCoherent env) (omega arith) connected-HasTargets).0

-- The tool `drop` is denied, and the annotations are gone.
tools_listed :
    (list_tools env servers (some new_authorizer) connected connected.clients).items
    ≡ record (tool (lit "git_read")) { annotations = none }
      ∷ record (tool (lit "fs_read")) { annotations = none }
      ∷ []
unfolding list_tools list_all list_targets list_target list_items list_item display_name
    check_access identity can_access load_policies get_policies_for_target order_by_priority place
    selected with_subjects subjects_of decide applies matches_subject pattern_matches lookup insert
    ◌==◌ lit target_id_of get_target_id set_tool_mapping clear_tool_mappings cache_key
tools_listed = refl
