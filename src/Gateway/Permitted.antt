-- ===== src/Gateway/Permitted.antt =====
-- From a request to the policies: backend/internal/gateway/handler.go with proxy.go, authorizer.go.
use reflow_gateway.Base.{
  ◌≡◌, ◌≢◌, inl, inr, Bool, Option, some, [], ◌∷◌, Any, Bool-cases, Option-cases,
}
use reflow_gateway.Base.Text.{Text, lit, ◌==◌}
use reflow_gateway.Base.Maps.{Map}
use reflow_gateway.Base.Results.{Result, ok}
use reflow_gateway.Policy.Store.{Tables}
use reflow_gateway.Authz.{Env, Authorizer}
use reflow_gateway.Authz.Cache.{IsCoherent, IsTarget}
use reflow_gateway.Authz.Enforced.{on_database, Permits}
use reflow_gateway.Mcp.{McpClient, ToolCallResult}
use reflow_gateway.Session.{Session, ToolMapping, get_client}
use reflow_gateway.Session.Manager.{get_session}
use reflow_gateway.Proxy.{Upstream, identity}
use reflow_gateway.Proxy.Routing.{Outcome, sent, find_mapping, call_tool}
use reflow_gateway.Proxy.Calls.{call_tool_permitted}
use reflow_gateway.Proxy.Dispatch.{
  Decoder, RpcRequest, call_reply, forward_request, handle_call, handle_read, handle_prompt,
  handle_request,
}
use reflow_gateway.Gateway.{
  parsed, Caller, HttpRequest, World, Moment, Gateway, served, handle_post, session_id_of,
}
use reflow_gateway.Gateway.Served.{handle_post_served}

module _ (env : Env) (up : Upstream) (send_raw : McpClient → RpcRequest → Result Text)
    (dec : Decoder) (auth : Option Authorizer) (s : Session) (req : RpcRequest)
    (o : Outcome ToolCallResult) where
  abbrev Called : Type 0
  Called =
      (name : Text) × ((args : Text) × (dec.tool_call_params req.params ≡ some (name, args))
        × ((call_tool env up auth s name args).0 ≡ o))

  called : (handle_call env up send_raw dec auth s req).0 ≡ call_reply o → Called
  unfolding handle_call
  called h = elim (Option-cases (dec.tool_call_params req.params)) [
    | inl e ↦ cc (rw (e, handle_call) at h)
    | inr ((name, args), e) ↦ (name, (args, e, cc (rw (e, handle_call) at h)))
  ]

  read_not_call : (handle_read env up send_raw dec auth s req).0 ≢ call_reply o
  unfolding handle_read
  read_not_call h = elim (Option-cases (dec.resource_read_params req.params)) [
    | inl e ↦ cc (rw (e, handle_read) at h)
    | inr (uri, e) ↦ cc (rw (e, handle_read) at h)
  ]

  prompt_not_call : (handle_prompt env up send_raw dec auth s req).0 ≢ call_reply o
  unfolding handle_prompt
  prompt_not_call h = elim (Option-cases (dec.prompt_get_params req.params)) [
    | inl e ↦ cc (rw (e, handle_prompt) at h)
    | inr ((name, arguments), e) ↦ cc (rw (e, handle_prompt) at h)
  ]

  forward_not_call :
      (arrivals : Map McpClient) → forward_request send_raw arrivals req ≢ call_reply o
  unfolding forward_request
  forward_not_call [] h = cc
  forward_not_call ((name, client) ∷ rest) h = cc

  handle_request_called :
      (arrivals : Map McpClient)
      → (handle_request env up send_raw dec auth s arrivals req).0 ≡ call_reply o
      → Called
  unfolding handle_request
  handle_request_called arrivals h = elim (Bool-cases (req.method == lit "tools/list")) [
    | inl a ↦ cc (rw a at h)
    | inr a ↦ elim (Bool-cases (req.method == lit "tools/call")) [
      | inl b ↦ called (rw (a, b) at h)
      | inr b ↦ elim (Bool-cases (req.method == lit "resources/list")) [
        | inl c ↦ cc (rw (a, b, c) at h)
        | inr c ↦ elim (Bool-cases (req.method == lit "resources/read")) [
          | inl d ↦ absurd (read_not_call (rw (a, b, c, d) at h))
          | inr d ↦ elim (Bool-cases (req.method == lit "prompts/list")) [
            | inl e ↦ cc (rw (a, b, c, d, e) at h)
            | inr e ↦ elim (Bool-cases (req.method == lit "prompts/get")) [
              | inl f ↦ absurd (prompt_not_call (rw (a, b, c, d, e, f) at h))
              | inr f ↦ elim (Bool-cases (req.method == lit "ping")) [
                | inl g ↦ cc (rw (a, b, c, d, e, f, g) at h)
                | inr g ↦ absurd (forward_not_call arrivals (rw (a, b, c, d, e, f, g) at h))
              ]
            ]
          ]
        ]
      ]
    ]
  ]

call_tool-mapping :
    (env : Env) (up : Upstream) (auth : Option Authorizer) (s : Session) (name args : Text)
    (c : McpClient) (n : Text) (r : Result ToolCallResult)
    → (call_tool env up auth s name args).0 ≡ sent c n r
    → (m : ToolMapping) × (find_mapping s name ≡ some m)
unfolding call_tool
call_tool-mapping env up auth s name args c n r h = elim (Option-cases (find_mapping s name)) [
  | inl e ↦ cc (rw (e, call_tool) at h)
  | inr (m, e) ↦ (m, e)
]

module _ (match_string : Text → Text → Option Bool) (tables : Tables) (w : World) (t : Moment)
    (a : Authorizer) (gw : Gateway) where
  -- Where a tool call goes and by what right.
  pub record Authorized (user_id : Text) (caller : Caller) (r : HttpRequest) (client : McpClient)
      (n : Text) (result : Result ToolCallResult) (session : Session) : Type 0 where
    pub request : RpcRequest
    pub body : r.body ≡ parsed request
    pub name : Text
    pub args : Text
    pub decoded : w.decoder.tool_call_params request.params ≡ some (name, args)
    pub owned : session.user_id ≡ user_id
    pub same_role : session.role ≡ caller.role
    pub mapping : ToolMapping
    pub mapped : find_mapping session name ≡ some mapping
    pub own_name : n ≡ mapping.tool_name
    pub own_client : get_client session mapping.target_name ≡ some client
    pub own_answer : result ≡ w.upstream.call_tool client mapping.tool_name args
    pub row :
        Any
          (Permits match_string tables
            (identity session)
            (some mapping.target_id)
            (lit "tool")
            mapping.tool_name)
          tables.authorization_policies

  -- With the authorizer on over the policy tables and its cache coherent, and no session mapping a
  -- name to a target whose id is the text `global`: when a POST is served by a tool call that is
  -- sent upstream, its session belongs to the authenticated user and has the role of the caller's
  -- claims; the body's tool name maps, as find_mapping maps it on that session, to a target and the
  -- tool's own name; the call goes to the session's client for that target under that name, its
  -- answer is the client's to the body's arguments, and a row of the policy tables permits the
  -- session's identity that tool on the id of that target.
  pub handle_post_permitted :
      (user_id : Text) (caller : Caller) (r : HttpRequest) (x : Text) (client : McpClient)
      (n : Text) (result : Result ToolCallResult)
      → w.env ≡ on_database match_string tables
      → gw.auth ≡ some a
      → IsCoherent (on_database match_string tables) a
      → ((session : Session) (name : Text) (m : ToolMapping)
          → (get_session gw.manager (session_id_of r) t.now).0 ≡ ok session
          → find_mapping session name ≡ some m
          → IsTarget (some m.target_id))
      → (handle_post w t gw user_id caller r).0 ≡ served x (call_reply (sent client n result))
      → (session : Session) × ((get_session gw.manager (session_id_of r) t.now).0 ≡ ok session)
        × Authorized user_id caller r client n result session
  handle_post_permitted user_id caller r x client n result on_tables on coherent proper h =
      let (req, body, by) =
        handle_post_served w t gw user_id caller r x (call_reply (sent client n result)) h in
      let s = by.session in
      let (name, (args, decoded, call)) =
        handle_request_called w.env w.upstream w.send_raw w.decoder gw.auth s req
          (sent client n result) (t.arrivals s) by.answered in
      let (m, mapped) =
        call_tool-mapping w.env w.upstream gw.auth s name args client n result call in
      let (own_client, own_name, answer, row) =
        call_tool_permitted match_string tables a coherent s w.upstream name args m client n result
          mapped (proper s name m by.found mapped) (rw (on_tables, on) at call) in
      (
        s,
        by.found,
        record {
          request = req;
          body = body;
          name = name;
          args = args;
          decoded = decoded;
          owned = by.owned;
          same_role = by.same_role;
          mapping = m;
          mapped = mapped;
          own_name = own_name;
          own_client = own_client;
          own_answer = answer;
          row = row;
        },
      )
