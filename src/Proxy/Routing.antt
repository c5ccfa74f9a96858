-- ===== src/Proxy/Routing.antt =====
-- Routed calls: CallTool, ReadResource and GetPrompt of backend/internal/gateway/proxy.go.
use reflow_gateway.Base.{true, not, Option, none, some, [], ◌∷◌, ◌++◌, length, ltb, if◌then◌else◌}
use reflow_gateway.Base.Text.{Text, lit, ◌==◌}
use reflow_gateway.Base.Results.{Result, ok, err, failure}
use reflow_gateway.Authz.{Env, Authorizer}
use reflow_gateway.Mcp.{McpClient, ToolCallResult}
use reflow_gateway.Session.{
  Session, ToolMapping, get_client, get_tool_mapping, get_resource_mapping, get_prompt_mapping,
}
use reflow_gateway.Proxy.{parse_resource_name, Upstream, check_access, target_id_of}

-- How a routed call ends: with no upstream call, or with the answer of a client to the call that
-- was sent to it.
pub data Outcome (A : Type 0) : Type 0 where
  answered : Result A → Outcome A
  sent : McpClient → Text → Result A → Outcome A

-- The client of a target serves the call, if the requester may make it.
unfoldable pub route :
    {A : Type 0}
    → Env
    → Option Authorizer
    → Session
    → Text
    → Text
    → Text
    → Text
    → Result A
    → Result A
    → (McpClient → Result A)
    → Outcome A × Option Authorizer
route env auth s resource_type target_id target_name name denied missing call =
    let (allowed, auth') = check_access env auth s target_id resource_type name in
    if not allowed then (answered denied, auth') else (
      elim (get_client s target_name) [
        | none ↦ answered missing
        | some client ↦ sent client name (call client)
      ],
      auth',
    )

-- `mcp.NewToolCallError`
abbrev pub tool_call_error : Text → Result ToolCallResult
tool_call_error text = ok (record { content = text; is_error = true })

-- The mapping for a name that no listing has mapped.
unfoldable pub guess_mapping : Session → Text → Option ToolMapping
guess_mapping s name =
    let (target_name, tool_name) = parse_resource_name name in
    if ltb 1 (length s.clients)
    then if not (target_name == [])
      then some (record {
        target_id = target_id_of s target_name;
        target_name = target_name;
        tool_name = tool_name;
      })
      else none
    else elim s.clients [
      | [] ↦ none
      | (only, client) ∷ _ ↦
          some (record { target_id = target_id_of s only; target_name = only; tool_name = name })
    ]

unfoldable pub find_mapping : Session → Text → Option ToolMapping
find_mapping s name = elim (get_tool_mapping s name) [
  | some mapping ↦ some mapping
  | none ↦ guess_mapping s name
]

unfoldable pub call_tool :
    Env
    → Upstream
    → Option Authorizer
    → Session
    → Text
    → Text
    → Outcome ToolCallResult × Option Authorizer
call_tool env up auth s name args = elim (find_mapping s name) [
  | none ↦ (answered (tool_call_error (lit "Tool not found: " ++ name)), auth)
  | some m ↦
      route env auth s (lit "tool") m.target_id m.target_name m.tool_name
        (tool_call_error (lit "Not authorized to call tool: " ++ name))
        (tool_call_error (lit "Target not connected: " ++ m.target_name))
        (λ client. up.call_tool client m.tool_name args)
]

unfoldable pub read_resource :
    Env → Upstream → Option Authorizer → Session → Text → Outcome Text × Option Authorizer
read_resource env up auth s uri = elim (get_resource_mapping s uri) [
  | none ↦ (answered (err (failure (lit "resource not found: " ++ uri))), auth)
  | some m ↦
      route env auth s (lit "resource") m.target_id m.target_name m.uri
        (err (failure (lit "not authorized to read resource: " ++ uri)))
        (err (failure (lit "target not connected: " ++ m.target_name)))
        (λ client. up.read_resource client m.uri)
]

unfoldable pub get_prompt :
    Env → Upstream → Option Authorizer → Session → Text → Text → Outcome Text × Option Authorizer
get_prompt env up auth s name arguments = elim (get_prompt_mapping s name) [
  | none ↦ (answered (err (failure (lit "prompt not found: " ++ name))), auth)
  | some m ↦
      route env auth s (lit "prompt") m.target_id m.target_name m.prompt_name
        (err (failure (lit "not authorized to get prompt: " ++ name)))
        (err (failure (lit "target not connected: " ++ m.target_name)))
        (λ client. up.get_prompt client m.prompt_name arguments)
]
