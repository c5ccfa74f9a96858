-- ===== src/Tests/InitializeTests.antt =====
-- Opening two targets, one of which fails.
use reflow_gateway.Base.{
  ◌≡◌, refl, ◌⊎◌, true, none, some, List, [], ◌∷◌, false, All, Any, eqb, if◌then◌else◌,
}
use reflow_gateway.Base.Text.{Text, lit, ◌==◌}
use reflow_gateway.Base.Maps.{lookup, insert}
use reflow_gateway.Base.Results.{ok, err, failure}
use reflow_gateway.Policy.Store.{
  subjects_of, with_subjects, selected, place, order_by_priority, get_policies_for_target,
}
use reflow_gateway.Authz.{
  cache_key, new_authorizer, matches_subject, pattern_matches, applies, decide, load_policies,
  can_access, can_access_target,
}
use reflow_gateway.Authz.Cache.{new_authorizer-IsCoherent}
use reflow_gateway.Targets.{Target, resolve_env_configs_for_target, get_env_configs}
use reflow_gateway.Mcp.{ServerCapabilities, http_client, no_capabilities}
use reflow_gateway.Session.{set_client, set_target_id, set_initialized}
use reflow_gateway.Proxy.{identity}
use reflow_gateway.Proxy.Initialize.{
  create_client, merge_capabilities, connect, failed, open_target, open_targets, opening, conclude,
  initialize_session,
}
use reflow_gateway.Proxy.Clients.{
  Connector, create_http_client, http_config, configured, legacy_token,
}
use reflow_gateway.Proxy.Initialize.Order.{HasTarget, Connects, initialize_session-Connects}
use reflow_gateway.Tests.Fixtures.{env, session}

abbrev http_target : Text → Text → Target
http_target id name = record {
  id = id;
  name = name;
  url = name;
  transport_type = lit "streamable-http";
  command = [];
  image = [];
  isolation_boundary = lit "shared";
  auth_type = lit "none";
  auth_header_name = [];
  enabled = true;
  default_encrypted_token = none;
}

abbrev two : List Target
two = http_target (lit "t1") (lit "git") ∷ http_target (lit "t2") (lit "fs") ∷ []

abbrev with_tools : ServerCapabilities
with_tools = record no_capabilities { tools = some (record { list_changed = true }) }

-- No processes and no cluster; `fs` does not answer.
abbrev pub net : Connector
net = record {
  secrets = record {
    targets = [];
    user_target_tokens = [];
    role_target_tokens = [];
    group_target_tokens = [];
    target_env_configs = [];
    reachable = false;
  };
  decrypt = none;
  sum256 = λ text. text;
  environ = [];
  stdio_get_or_create = none;
  k8s_get_or_create = none;
  parse_duration = λ text. none;
  new_client = λ cfg. http_client (if cfg.url == lit "git" then 1 else 2);
  initialize = λ client. elim client [
    | http_client n ↦ if eqb n 1 then ok with_tools else err (failure (lit "no answer"))
    | _ ↦ err (failure (lit "no answer"))
  ];
}

two-HasTarget : All HasTarget two
unfolding lit
two-HasTarget = (λ e. cc, (λ e. cc, tt))

opened_git :
    lookup
      (lit "git")
      (initialize_session env net (some new_authorizer) session (ok two)).1.session.clients
    ≡ some (http_client 1)
unfolding initialize_session open_targets open_target opening conclude connect failed create_client
    create_http_client http_config configured legacy_token resolve_env_configs_for_target
    get_env_configs merge_capabilities can_access_target identity can_access load_policies
    get_policies_for_target order_by_priority place selected with_subjects subjects_of decide
    applies matches_subject pattern_matches lookup insert ◌==◌ lit cache_key set_client
    set_target_id set_initialized
opened_git = refl

initialize_session-Connects_example :
    (lookup (lit "git") session.clients ≡ some (http_client 1))
    ⊎ Any (Connects env net (identity session) (lit "git") (http_client 1)) two
initialize_session-Connects_example =
    initialize_session-Connects env net new_authorizer session (new_authorizer-IsCoherent env) two
      (lit "git") (http_client 1) two-HasTarget opened_git
