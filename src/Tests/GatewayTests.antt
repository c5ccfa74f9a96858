-- ===== src/Tests/GatewayTests.antt =====
-- Requests on one session with one target.
use reflow_gateway.Base.{
  ◌≡◌, refl, sym, ◌∙◌, ap, subst, ◌≢◌, ℕ, true, false, Option, none, some, [], ◌∷◌,
}
use reflow_gateway.Base.Text.{Text, lit, ◌==◌}
use reflow_gateway.Base.Maps.{lookup, insert, delete}
use reflow_gateway.Base.Results.{ok, err, not_found, failure}
use reflow_gateway.Policy.Store.{
  subjects_of, with_subjects, selected, place, order_by_priority, get_policies_for_target,
}
use reflow_gateway.Authz.{
  cache_key, new_authorizer, matches_subject, pattern_matches, applies, decide, load_policies,
  can_access,
}
use reflow_gateway.Authz.Cache.{IsTarget, new_authorizer-IsCoherent}
use reflow_gateway.Mcp.{http_client}
use reflow_gateway.Session.{
  Session, ToolMapping, get_client, get_tool_mapping, get_target_id, needs_recycle, some_missing,
}
use reflow_gateway.Session.Manager.{
  get_session, refresh, delete_session, drop_session, delete_mcp_session,
  update_mcp_session_activity,
}
use reflow_gateway.Session.Manager.Others.{Kept}
use reflow_gateway.Proxy.{identity, check_access, target_id_of}
use reflow_gateway.Proxy.Routing.{sent, route, find_mapping, guess_mapping, call_tool}
use reflow_gateway.Proxy.Dispatch.{
  RpcRequest, pong, call_reply, is_notification, handle_call, handle_request,
}
use reflow_gateway.Gateway.{
  Caller, HttpRequest, parsed, World, Moment, Gateway, served, no_content, reply_response,
  handle_in, handle_rpc, handle_post, delete_in, handle_delete, handle_mcp, session_id_of,
}
use reflow_gateway.Gateway.Served.{ServedBy, handle_post_served}
use reflow_gateway.Gateway.Foreign.{handle_mcp-Kept}
use reflow_gateway.Gateway.Deleted.{handle_delete_lem}
use reflow_gateway.Gateway.Permitted.{Authorized, handle_post_permitted}
use reflow_gateway.Tests.Fixtures.{exact_match, tables, env, session, manager}
use reflow_gateway.Tests.ProxyTests.{servers}
use reflow_gateway.Tests.InitializeTests.{net}

abbrev single : Session
single = record session {
  clients = (lit "git", http_client 1) ∷ [];
  target_ids = (lit "git", lit "t1") ∷ [];
  initialized = true;
}

abbrev gateway : Gateway
gateway = record {
  manager = record manager { sessions = (lit "s1", single) ∷ [] };
  auth = some new_authorizer;
}

abbrev world : World
world = record {
  env = env;
  upstream = servers;
  send_raw = λ client req. err (failure (lit "unavailable"));
  decoder = record {
    tool_call_params = λ params. some (params, lit "{}");
    resource_read_params = λ params. none;
    prompt_get_params = λ params. none;
  };
  connector = net;
  initialize_params_decode = λ params. true;
  error_text = λ e. lit "failed";
  is_flusher = true;
}

abbrev moment : Moment
moment = record { now = 5; fresh_id = lit "s9"; targets = ok []; arrivals = λ s. s.clients }

abbrev caller : Text → Caller
caller user_id = record {
  user_id = some user_id;
  role = lit "user";
  groups = lit "ops" ∷ lit "dev" ∷ [];
}

abbrev request : Text → Text → Text → HttpRequest
request http_method method params = record {
  method = http_method;
  mcp_session_id = lit "s1";
  query_session_id = [];
  forwarded_proto = [];
  tls = false;
  host = lit "gateway";
  body = parsed (record { id = some (lit "7"); method = method; params = params });
}

pinged :
    (handle_post world moment gateway
      (lit "u1")
      (caller (lit "u1"))
      (request (lit "POST") (lit "ping") [])).0
    ≡ served (lit "s1") pong
unfolding handle_post handle_rpc handle_in handle_request reply_response is_notification
    session_id_of get_session refresh needs_recycle some_missing lookup insert ◌==◌ lit
pinged = refl

handle_post_served_example :
    (req : RpcRequest) × ((request (lit "POST") (lit "ping") []).body ≡ parsed req)
    × ServedBy world moment gateway
        (lit "u1")
        (caller (lit "u1"))
        (session_id_of (request (lit "POST") (lit "ping") []))
        req
        pong
handle_post_served_example =
    handle_post_served world moment gateway (lit "u1") (caller (lit "u1"))
      (request (lit "POST") (lit "ping") []) (lit "s1") pong pinged

held : lookup (lit "s1") gateway.manager.sessions ≡ some single
unfolding lookup ◌==◌ lit
held = refl

another : ◌≢◌ {A = Option Text} (some (lit "bob")) (some (lit "u1"))
unfolding lit
another = λ e. cc

not_fresh : lit "s1" ≢ lit "s9"
unfolding lit
not_fresh = λ e. cc

handle_mcp-Kept_example :
    Kept 5 gateway.manager
      (lit "s1")
      single
      (handle_mcp world moment gateway
        (caller (lit "bob"))
        (request (lit "DELETE") [] [])).1.manager
handle_mcp-Kept_example =
    handle_mcp-Kept world moment gateway (caller (lit "bob")) (request (lit "DELETE") [] [])
      (lit "s1") single held another not_fresh

deleted :
    (handle_delete world moment gateway (lit "u1") (request (lit "DELETE") [] [])).0 ≡ no_content
unfolding handle_delete delete_in get_session refresh delete_session drop_session delete_mcp_session
    update_mcp_session_activity lookup insert delete ◌==◌ lit
deleted = refl

handle_delete_lem_example :
    (s : Session) × ((get_session gateway.manager (lit "s1") 5).0 ≡ ok s)
    × (s.user_id ≡ lit "u1")
    × ((later : ℕ)
        → (get_session
            (handle_delete world moment gateway (lit "u1") (request (lit "DELETE") [] [])).1.manager
            (lit "s1")
            later).0
          ≡ err not_found)
handle_delete_lem_example =
    handle_delete_lem world moment gateway (lit "u1") (request (lit "DELETE") [] []) refl deleted

called :
    (handle_post world moment gateway
      (lit "u1")
      (caller (lit "u1"))
      (request (lit "POST") (lit "tools/call") (lit "read"))).0
    ≡ served (lit "s1") (
        call_reply (
          sent (http_client 1) (lit "read") (ok (record { content = lit "{}"; is_error = false }))))
unfolding handle_post handle_rpc handle_in handle_request reply_response is_notification
    session_id_of get_session refresh needs_recycle some_missing lookup insert ◌==◌ lit handle_call
    call_tool find_mapping get_tool_mapping guess_mapping target_id_of get_target_id route
    check_access identity get_client can_access load_policies get_policies_for_target
    order_by_priority place selected with_subjects subjects_of decide applies matches_subject
    pattern_matches cache_key
called = refl

abbrev target_of : Option ToolMapping → Text
target_of none = []
target_of (some m) = m.target_id

t1_not_global : lit "t1" ≢ lit "global"
unfolding lit
t1_not_global = λ e. cc

-- Every name maps to the one target.
proper :
    (s : Session) (name : Text) (m : ToolMapping)
    → (get_session gateway.manager (lit "s1") 5).0 ≡ ok s
    → find_mapping s name ≡ some m
    → IsTarget (some m.target_id)
unfolding get_session refresh find_mapping get_tool_mapping guess_mapping target_id_of get_target_id
    lookup insert ◌==◌ lit
proper s name m h e =
    let same : record single { expires_at = 35 } ≡ s = cc h in
    let mapped : find_mapping (record single { expires_at = 35 }) name ≡ some m =
      subst (λ x. find_mapping x name ≡ some m) (sym same) e in
    let id : lit "t1" ≡ m.target_id = ap target_of mapped in λ g. t1_not_global (id ∙ g)

handle_post_permitted_example :
    (s : Session) × ((get_session gateway.manager (lit "s1") 5).0 ≡ ok s)
    × Authorized exact_match tables world moment new_authorizer gateway
        (lit "u1")
        (caller (lit "u1"))
        (request (lit "POST") (lit "tools/call") (lit "read"))
        (http_client 1)
        (lit "read")
        (ok (record { content = lit "{}"; is_error = false }))
        s
unfolding session_id_of lit ◌==◌
handle_post_permitted_example =
    handle_post_permitted exact_match tables world moment new_authorizer gateway (lit "u1")
      (caller (lit "u1")) (request (lit "POST") (lit "tools/call") (lit "read")) (lit "s1")
      (http_client 1) (lit "read") (ok (record { content = lit "{}"; is_error = false })) refl refl
      (new_authorizer-IsCoherent env) proper called
