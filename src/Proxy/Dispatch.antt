-- ===== src/Proxy/Dispatch.antt =====
-- Requests of a session: `HandleRequest` and `ForwardRequest` of backend/internal/gateway/proxy.go.
-- Decoding JSON parameters is a parameter (`Decoder`); encoding a result always succeeds.
use reflow_gateway.Base.{Bool, true, Option, none, some, List, [], ◌∷◌, if◌then◌else◌}
use reflow_gateway.Base.Text.{Text, lit, ◌==◌}
use reflow_gateway.Base.Maps.{Map}
use reflow_gateway.Base.Results.{Result}
use reflow_gateway.Authz.{Env, Authorizer}
use reflow_gateway.Mcp.{McpClient, Tool, Resource, Prompt, ToolCallResult}
use reflow_gateway.Session.{Session}
use reflow_gateway.Proxy.{Upstream, Listing, list_tools, list_resources, list_prompts}
use reflow_gateway.Proxy.Routing.{Outcome, call_tool, read_resource, get_prompt}

-- `json.Unmarshal` into the parameters of each method, `none` when it fails.
pub record Decoder : Type 0 where
  pub tool_call_params : Text → Option (Text × Text)
  pub resource_read_params : Text → Option Text
  pub prompt_get_params : Text → Option (Text × Text)

pub record RpcRequest : Type 0 where
  pub id : Option Text
  pub method : Text
  pub params : Text

unfoldable pub is_notification : RpcRequest → Bool
is_notification r = elim r.id [ none ↦ true | some id ↦ id == lit "null" ]

pub data Reply : Type 0 where
  tools_reply : List Tool → Reply
  call_reply : Outcome ToolCallResult → Reply
  resources_reply : List Resource → Reply
  read_reply : Outcome Text → Reply
  prompts_reply : List Prompt → Reply
  prompt_reply : Outcome Text → Reply
  pong : Reply
  invalid_params_reply : Reply
  no_targets_reply : Reply
  forwarded : McpClient → Result Text → Reply

-- The request as it is goes to the first client of the session's map.
unfoldable pub forward_request :
    (McpClient → RpcRequest → Result Text) → Map McpClient → RpcRequest → Reply
forward_request send_raw [] req = no_targets_reply
forward_request send_raw ((name, client) ∷ _) req = forwarded client (send_raw client req)

module _ (env : Env) (up : Upstream) (send_raw : McpClient → RpcRequest → Result Text)
    (dec : Decoder) where
  abbrev listed : {A : Type 0} → (List A → Reply) → Listing A → Reply × Session × Option Authorizer
  listed reply l = (reply l.items, l.session, l.auth)

  unfoldable pub handle_call :
      Option Authorizer → Session → RpcRequest → Reply × Session × Option Authorizer
  handle_call auth s req = elim (dec.tool_call_params req.params) [
    | none ↦ (invalid_params_reply, s, auth)
    | some (name, args) ↦
        let (outcome, auth') = call_tool env up auth s name args in (call_reply outcome, s, auth')
  ]

  unfoldable pub handle_read :
      Option Authorizer → Session → RpcRequest → Reply × Session × Option Authorizer
  handle_read auth s req = elim (dec.resource_read_params req.params) [
    | none ↦ (invalid_params_reply, s, auth)
    | some uri ↦
        let (outcome, auth') = read_resource env up auth s uri in (read_reply outcome, s, auth')
  ]

  unfoldable pub handle_prompt :
      Option Authorizer → Session → RpcRequest → Reply × Session × Option Authorizer
  handle_prompt auth s req = elim (dec.prompt_get_params req.params) [
    | none ↦ (invalid_params_reply, s, auth)
    | some (name, arguments) ↦
        let (outcome, auth') = get_prompt env up auth s name arguments in
        (prompt_reply outcome, s, auth')
  ]

  -- `arrivals` is the session's clients in the order in which a listing hears from them, or in
  -- which the loop of `ForwardRequest` meets them.
  unfoldable pub handle_request :
      Option Authorizer → Session → Map McpClient → RpcRequest → Reply × Session × Option Authorizer
  handle_request auth s arrivals req =
      if req.method == lit "tools/list"
      then listed tools_reply (list_tools env up auth s arrivals)
      else if req.method == lit "tools/call"
      then handle_call auth s req
      else if req.method == lit "resources/list"
      then listed resources_reply (list_resources env up auth s arrivals)
      else if req.method == lit "resources/read"
      then handle_read auth s req
      else if req.method == lit "prompts/list"
      then listed prompts_reply (list_prompts env up auth s arrivals)
      else if req.method == lit "prompts/get"
      then handle_prompt auth s req
      else if req.method == lit "ping"
      then (pong, s, auth)
      else (forward_request send_raw arrivals req, s, auth)
