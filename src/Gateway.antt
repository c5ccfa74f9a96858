-- ===== src/Gateway.antt =====
-- The HTTP handlers: backend/internal/gateway/handler.go. What the middleware puts into the
-- request's context is the `Caller`; the body is read and parsed already. Reading the clock, drawing
-- an id and querying the targets happen at the start of the handler (`Moment`).
pub mod Served
pub mod Foreign
pub mod Deleted
pub mod Permitted
use reflow_gateway.Base.{
  ℕ, Bool, true, false, not, Option, none, some, List, [], ◌∷◌, ◌++◌, if◌then◌else◌,
}
use reflow_gateway.Base.Text.{Text, lit, ◌==◌}
use reflow_gateway.Base.Maps.{Map}
use reflow_gateway.Base.Results.{Error, Result, ok, err}
use reflow_gateway.Authz.{Env, Authorizer}
use reflow_gateway.Targets.{Target}
use reflow_gateway.Mcp.{McpClient}
use reflow_gateway.Session.{Session, recycle, needs_recycle}
use reflow_gateway.Session.Manager.{
  SessionManager, get_session, create_session, delete_session, put_session,
}
use reflow_gateway.Proxy.{Upstream}
use reflow_gateway.Proxy.Initialize.{InitializeResult, Opening, initialize_session}
use reflow_gateway.Proxy.Clients.{Connector}
use reflow_gateway.Proxy.Dispatch.{
  Decoder, RpcRequest, Reply, forwarded, is_notification, handle_request,
}

pub record Caller : Type 0 where
  pub user_id : Option Text
  pub role : Text
  pub groups : List Text

pub data Body : Type 0 where
  unreadable : Body
  invalid_json : Body
  parsed : RpcRequest → Body

-- The parts of an HTTP request that the handlers read; an absent header is empty.
pub record HttpRequest : Type 0 where
  pub method : Text
  pub mcp_session_id : Text
  pub query_session_id : Text
  pub forwarded_proto : Text
  pub tls : Bool
  pub host : Text
  pub body : Body

pub data RpcCode : Type 0 where
  parse_error : RpcCode
  invalid_request : RpcCode
  invalid_params : RpcCode
  internal_error : RpcCode

pub data Response : Type 0 where
  http_error : ℕ → Text → Response
  rpc_error : RpcCode → Text → Response
  accepted : Response
  initialized_response : Text → InitializeResult → Response
  served : Text → Reply → Response
  stream : Text → Option Text → Response
  no_content : Response

-- What the handlers call: the proxy's parameters, whether the parameters of `initialize` decode,
-- and whether the response writer can flush, without which NewSSEWriter fails.
pub record World : Type 0 where
  pub env : Env
  pub upstream : Upstream
  pub send_raw : McpClient → RpcRequest → Result Text
  pub decoder : Decoder
  pub connector : Connector
  pub initialize_params_decode : Text → Bool
  pub error_text : Error → Text
  pub is_flusher : Bool

pub record Moment : Type 0 where
  pub now : ℕ
  pub fresh_id : Text
  pub targets : Result (List Target)
  pub arrivals : Session → Map McpClient

pub record Gateway : Type 0 where
  pub manager : SessionManager
  pub auth : Option Authorizer

-- The session that a handler has worked on, and the clients that it closed.
unfoldable pub updated : Gateway → Text → Session → Option Authorizer → List McpClient → Gateway
updated gw session_id s auth closed = record {
  manager = record (put_session gw.manager session_id s) { closed = gw.manager.closed ++ closed };
  auth = auth;
}

-- The header's session id, or that of the query.
unfoldable pub session_id_of : HttpRequest → Text
session_id_of r = if r.mcp_session_id == [] then r.query_session_id else r.mcp_session_id

unfoldable pub endpoint_url : HttpRequest → Text → Text
endpoint_url r session_id =
    let scheme =
      if r.forwarded_proto == []
      then if r.tls then lit "https" else lit "http"
      else r.forwarded_proto in
    scheme ++ (lit "://" ++ (r.host ++ (lit "/mcp?session_id=" ++ session_id)))

module _ (w : World) (t : Moment) where
  -- Connecting a session's targets, at the end of `handleInitialize`.
  unfoldable pub initialize_in : Gateway → RpcRequest → Text → Session → Response × Gateway
  initialize_in gw req session_id s =
      let (result, o) = initialize_session w.env w.connector gw.auth s t.targets in
      if not (w.initialize_params_decode req.params)
      then (rpc_error invalid_params (lit "Invalid initialize params"), gw)
      else (
        elim result [
          | err e ↦ rpc_error internal_error (w.error_text e)
          | ok r ↦ initialized_response s.id r
        ],
        updated gw session_id o.session o.auth o.closed,
      )

  unfoldable pub initialize_new : Gateway → Text → Caller → RpcRequest → Response × Gateway
  initialize_new gw user_id caller req =
      let (created, manager) =
        create_session gw.manager t.fresh_id t.now user_id caller.role caller.groups in
      elim created [
        | err e ↦ (
          rpc_error internal_error (lit "Failed to create session"),
          record gw { manager = manager },
        )
        | ok s ↦ initialize_in (record gw { manager = manager }) req t.fresh_id s
      ]

  -- An existing session of the caller is used again.
  unfoldable pub handle_initialize :
      Gateway → Text → Caller → Text → RpcRequest → Response × Gateway
  handle_initialize gw user_id caller session_id req =
      let (found, manager) = get_session gw.manager session_id t.now in
      let gw' = record gw { manager = manager } in
      if session_id == [] then initialize_new gw user_id caller req else elim found [
        | err e ↦ initialize_new gw' user_id caller req
        | ok s ↦
            if s.user_id == user_id
            then initialize_in gw' req session_id s
            else initialize_new gw' user_id caller req
      ]

  unfoldable pub reply_response : Text → Reply → Response
  reply_response session_id (forwarded client (err e)) = rpc_error internal_error (w.error_text e)
  reply_response session_id reply = served session_id reply

  -- The second half of `handlePost`: the session was found.
  unfoldable pub handle_in :
      Gateway → Text → Caller → RpcRequest → Text → Session → Response × Gateway
  handle_in gw user_id caller req session_id s =
      let (recycled, closed) = recycle s caller.role caller.groups in
      let (reply, s', auth) =
        handle_request w.env w.upstream w.send_raw w.decoder gw.auth s (t.arrivals s) req in
      if not (s.user_id == user_id)
      then (http_error 403 (lit "Forbidden"), gw)
      else if needs_recycle s caller.role caller.groups
      then (
        rpc_error invalid_request
            (lit "Session recycled due to identity change. Please re-initialize."),
        updated gw session_id recycled gw.auth closed,
      )
      else if is_notification req
      then (accepted, gw)
      else (reply_response s.id reply, updated gw session_id s' auth [])

  unfoldable pub handle_rpc : Gateway → Text → Caller → RpcRequest → Text → Response × Gateway
  handle_rpc gw user_id caller req session_id =
      let (found, manager) = get_session gw.manager session_id t.now in
      let gw' = record gw { manager = manager } in
      if req.method == lit "initialize"
      then handle_initialize gw user_id caller session_id req
      else if session_id == []
      then (rpc_error invalid_request (lit "Session required. Send initialize first."), gw)
      else elim found [
        | err e ↦ (http_error 404 (lit "Session not found or expired"), gw')
        | ok s ↦ handle_in gw' user_id caller req session_id s
      ]

  unfoldable pub handle_post : Gateway → Text → Caller → HttpRequest → Response × Gateway
  handle_post gw user_id caller r = elim r.body [
    | unreadable ↦ (rpc_error parse_error (lit "Failed to read request body"), gw)
    | invalid_json ↦ (rpc_error parse_error (lit "Invalid JSON"), gw)
    | parsed req ↦ handle_rpc gw user_id caller req (session_id_of r)
  ]

  -- NewSSEWriter, and what is first written to the stream.
  abbrev pub opened : Text → Option Text → Response
  opened session_id endpoint =
      if w.is_flusher then stream session_id endpoint else http_error 500 (lit "SSE not supported")

  unfoldable pub handle_sse : Gateway → Text → Caller → HttpRequest → Response × Gateway
  handle_sse gw user_id caller r =
      let (found, manager) = get_session gw.manager r.mcp_session_id t.now in
      let (created, manager') =
        create_session gw.manager t.fresh_id t.now user_id caller.role caller.groups in
      if r.mcp_session_id == []
      then elim created [
        | err e ↦
            (http_error 500 (lit "Failed to create session"), record gw { manager = manager' })
        | ok s ↦ (opened s.id (some (endpoint_url r s.id)), record gw { manager = manager' })
      ]
      else elim found [
        | err e ↦ (http_error 404 (lit "Session not found"), record gw { manager = manager })
        | ok s ↦
            if not (s.user_id == user_id)
            then (http_error 403 (lit "Forbidden"), record gw { manager = manager })
            else (opened s.id none, record gw { manager = manager })
      ]

  -- The second half of `handleDelete`: the session was found.
  unfoldable pub delete_in : Gateway → Text → Text → Session → Response × Gateway
  delete_in gw user_id session_id s =
      let (deleted, manager) = delete_session gw.manager session_id in
      if not (s.user_id == user_id) then (http_error 403 (lit "Forbidden"), gw) else (
        elim deleted [
          | err e ↦ http_error 500 (lit "Failed to delete session")
          | ok _ ↦ no_content
        ],
        record gw { manager = manager },
      )

  unfoldable pub handle_delete : Gateway → Text → HttpRequest → Response × Gateway
  handle_delete gw user_id r =
      let (found, manager) = get_session gw.manager r.mcp_session_id t.now in
      let gw' = record gw { manager = manager } in
      if r.mcp_session_id == []
      then (http_error 400 (lit "Mcp-Session-Id header required"), gw)
      else elim found [
        | err e ↦ (http_error 404 (lit "Session not found"), gw')
        | ok s ↦ delete_in gw' user_id r.mcp_session_id s
      ]

  -- Each handler first asks for the caller.
  unfoldable pub handle_mcp : Gateway → Caller → HttpRequest → Response × Gateway
  handle_mcp gw caller r = elim caller.user_id [
    | none ↦
        if r.method == lit "POST"
        then (http_error 401 (lit "Unauthorized"), gw)
        else if r.method == lit "GET"
        then (http_error 401 (lit "Unauthorized"), gw)
        else if r.method == lit "DELETE"
        then (http_error 401 (lit "Unauthorized"), gw)
        else (http_error 405 (lit "Method not allowed"), gw)
    | some user_id ↦
        if r.method == lit "POST"
        then handle_post gw user_id caller r
        else if r.method == lit "GET"
        then handle_sse gw user_id caller r
        else if r.method == lit "DELETE"
        then handle_delete gw user_id r
        else (http_error 405 (lit "Method not allowed"), gw)
  ]
