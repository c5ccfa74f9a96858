-- ===== src/Proxy/Calls.antt =====
-- What reaches an upstream server: `CallTool`, `ReadResource` and `GetPrompt` of
-- backend/internal/gateway/proxy.go.
use reflow_gateway.Base.{
  ◌≡◌, inl, inr, Bool, true, Option, some, Any, Any-weaken, Bool-cases, Option-cases,
}
use reflow_gateway.Base.Text.{Text, lit}
use reflow_gateway.Base.Results.{Result, ok, err}
use reflow_gateway.Policy.Store.{Tables}
use reflow_gateway.Authz.{Env, Authorizer, granted}
use reflow_gateway.Authz.Cache.{IsCoherent, IsTarget}
use reflow_gateway.Authz.Enforced.{on_database, Permits, can_access_sound}
use reflow_gateway.Mcp.{McpClient, ToolCallResult}
use reflow_gateway.Session.{Session, ToolMapping, get_client}
use reflow_gateway.Proxy.{Upstream, identity, check_access}
use reflow_gateway.Proxy.Routing.{Outcome, sent, route, find_mapping, call_tool}

-- A call that `route` sends was checked, and goes to the session's client for the target, under the
-- name that was checked.
route_sent :
    {A : Type 0} (env : Env) (auth : Option Authorizer) (s : Session)
    (resource_type target_id target_name name : Text) (denied missing : Result A)
    (call : McpClient → Result A) (c : McpClient) (n : Text) (r : Result A)
    → (route env auth s resource_type target_id target_name name denied missing call).0 ≡ sent c n r
    → ((check_access env auth s target_id resource_type name).0 ≡ true)
      × (get_client s target_name ≡ some c)
      × (n ≡ name)
      × (r ≡ call c)
unfolding route
route_sent {A} env auth s resource_type target_id target_name name denied missing call c n r h =
    elim (Bool-cases (check_access env auth s target_id resource_type name).0) [
      | inr refused ↦ cc (rw refused at h)
      | inl allowed ↦ elim (Option-cases (get_client s target_name)) [
        | inl e ↦ cc (rw (allowed, e) at h)
        | inr (client, e) ↦
            let h' : ◌≡◌ {A = Outcome A} (sent client name (call client)) (sent c n r) =
              rw (allowed, e) at h in
            (allowed, cc, cc, cc)
      ]
    ]

-- What a call that reached a client says: the name was mapped to a target, the requester may use
-- the item on that target, the client is the session's client for it, and the item's own name
-- was sent.
abbrev pub Checked :
    Env → Option Authorizer → Session → Text → Text → Text → Text → McpClient → Text → Type 0
Checked env auth s resource_type target_id target_name name c n =
    ((check_access env auth s target_id resource_type name).0 ≡ true)
    × (get_client s target_name ≡ some c)
    × (n ≡ name)

module _ (env : Env) (up : Upstream) (auth : Option Authorizer) (s : Session) where
  call_tool_sent :
      (name args : Text) (m : ToolMapping) (c : McpClient) (n : Text) (r : Result ToolCallResult)
      → find_mapping s name ≡ some m
      → (call_tool env up auth s name args).0 ≡ sent c n r
      → Checked env auth s (lit "tool") m.target_id m.target_name m.tool_name c n
        × (r ≡ up.call_tool c m.tool_name args)
  unfolding call_tool
  call_tool_sent name args m c n r e h =
      let (a, b, d, f) = route_sent env auth s _ _ _ _ _ _ _ c n r (rw (e, call_tool) at h) in
      ((a, b, d), f)

granted_ok : (r : Result (Bool × Text)) → granted r ≡ true → (name : Text) × (r ≡ ok (true, name))
granted_ok (ok (b, name)) e = (name, cc)
granted_ok (err x) e = cc

module _ (match_string : Text → Text → Option Bool) (t : Tables) (a : Authorizer)
    (coherent : IsCoherent (on_database match_string t) a) (s : Session) where
  checked_row :
      (target_id resource_type name : Text)
      → IsTarget (some target_id)
      → (check_access (on_database match_string t) (some a) s target_id resource_type name).0 ≡ true
      → Any
          (Permits match_string t (identity s) (some target_id) resource_type name)
          t.authorization_policies
  unfolding check_access
  checked_row target_id resource_type name proper h =
      let (policy, e) = granted_ok _ h in
      Any-weaken _ _ t.authorization_policies (λ row p. p.1)
        (can_access_sound match_string t (identity s) a (some target_id) resource_type name policy
          coherent proper e)

  -- With the authorizer on and its cache coherent, and a target id that is not the text `global`, a
  -- tool call that reaches an upstream server goes to the session's client for the target that the
  -- name maps to, under the tool's own name, and a row of the policy tables permits the session's
  -- identity that tool on that target.
  pub call_tool_permitted :
      (up : Upstream) (name args : Text) (m : ToolMapping) (c : McpClient) (n : Text)
      (r : Result ToolCallResult)
      → find_mapping s name ≡ some m
      → IsTarget (some m.target_id)
      → (call_tool (on_database match_string t) up (some a) s name args).0 ≡ sent c n r
      → (get_client s m.target_name ≡ some c)
        × (n ≡ m.tool_name)
        × (r ≡ up.call_tool c m.tool_name args)
        × Any
            (Permits match_string t (identity s) (some m.target_id) (lit "tool") m.tool_name)
            t.authorization_policies
  call_tool_permitted up name args m c n r e proper h =
      let ((allowed, client, same), answer) =
        call_tool_sent (on_database match_string t) up (some a) s name args m c n r e h in
      (client, same, answer, checked_row m.target_id (lit "tool") m.tool_name proper allowed)
