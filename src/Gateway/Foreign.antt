-- ===== src/Gateway/Foreign.antt =====
-- The sessions of others: backend/internal/gateway/handler.go.
use reflow_gateway.Base.{
  ◌≡◌, refl, sym, ◌∙◌, ap, ◌≢◌, ◌⊎◌, inl, inr, false, Option, some, List, [], Bool-cases,
  Option-cases, arith,
}
use reflow_gateway.Base.Text.{Text, lit, ◌==◌, ==_iff}
use reflow_gateway.Base.Maps.{lookup}
use reflow_gateway.Base.Results.{ok, Result-cases}
use reflow_gateway.Authz.{Authorizer}
use reflow_gateway.Mcp.{McpClient}
use reflow_gateway.Session.{Session, needs_recycle}
use reflow_gateway.Session.Manager.{get_session, create_session, delete_session}
use reflow_gateway.Session.Manager.Others.{
  Kept, get_session-Kept, get_session-owner, create_session-others, put_session-others,
  delete_session-others,
}
use reflow_gateway.Proxy.Dispatch.{RpcRequest, is_notification}
use reflow_gateway.Gateway.{
  Caller, HttpRequest, World, Moment, Gateway, updated, initialize_in, initialize_new,
  handle_initialize, handle_in, handle_rpc, handle_post, handle_sse, delete_in, handle_delete,
  handle_mcp, session_id_of,
}
use reflow_gateway.Gateway.Served.{Body-cases}

not_equal : (a b : Text) → a ≢ b → (a == b) ≡ false
not_equal a b ne = ground (arith, ==_iff a b)

module _ (w : World) (t : Moment) (user_id id : Text) (s : Session) (other : s.user_id ≢ user_id)
    (fresh : id ≢ t.fresh_id) where
  -- The id holds the same in two gateways.
  abbrev Same : Gateway → Gateway → Type 0
  Same gw gw' = lookup id gw'.manager.sessions ≡ lookup id gw.manager.sessions

  updated-Same :
      (gw : Gateway) (sid : Text) (s' : Session) (auth : Option Authorizer)
      (closed : List McpClient)
      → id ≢ sid
      → Same gw (updated gw sid s' auth closed)
  unfolding updated
  updated-Same gw sid s' auth closed ne = put_session-others gw.manager sid id s' ne

  initialize_in-Same :
      (gw : Gateway) (req : RpcRequest) (sid : Text) (s' : Session)
      → id ≢ sid
      → Same gw (initialize_in w t gw req sid s').1
  unfolding initialize_in
  initialize_in-Same gw req sid s' ne = elim (Bool-cases (w.initialize_params_decode req.params)) [
    | inl e ↦ rw e (updated-Same gw sid _ _ _ ne)
    | inr e ↦ rw e refl
  ]

  initialize_new-Same :
      (gw : Gateway) (caller : Caller) (req : RpcRequest)
      → Same gw (initialize_new w t gw user_id caller req).1
  unfolding initialize_new
  initialize_new-Same gw caller req =
      let created = create_session gw.manager t.fresh_id t.now user_id caller.role caller.groups in
      let made =
        create_session-others gw.manager t.fresh_id id t.now user_id caller.role caller.groups
          fresh in
      elim (Result-cases created.0) [
        | inl (e, q) ↦ rw (q, initialize_new) made
        | inr (s', q) ↦
            rw (q, initialize_new)
              (initialize_in-Same (record gw { manager = created.1 }) req t.fresh_id s' fresh
                ∙ made)
      ]

  handle_in-Same :
      (gw : Gateway) (caller : Caller) (req : RpcRequest) (sid : Text) (s' : Session)
      → id ≢ sid
      → Same gw (handle_in w t gw user_id caller req sid s').1
  unfolding handle_in
  handle_in-Same gw caller req sid s' ne = elim (Bool-cases (s'.user_id == user_id)) [
    | inr e ↦ rw e refl
    | inl e ↦ elim (Bool-cases (needs_recycle s' caller.role caller.groups)) [
      | inl f ↦ rw (e, f) (updated-Same gw sid _ _ _ ne)
      | inr f ↦ elim (Bool-cases (is_notification req)) [
        | inl g ↦ rw (e, f, g) refl
        | inr g ↦ rw (e, f, g) (updated-Same gw sid _ _ _ ne)
      ]
    ]
  ]

  -- Of another's session a handler only sees that it is another's.
  handle_in_foreign :
      (gw : Gateway) (caller : Caller) (req : RpcRequest) (sid : Text) (s' : Session)
      → s'.user_id ≢ user_id
      → (handle_in w t gw user_id caller req sid s').1 ≡ gw
  unfolding handle_in
  handle_in_foreign gw caller req sid s' ne = rw (not_equal s'.user_id user_id ne) refl

  -- The session that a request finds: another's, or one under another id.
  found_cases :
      (gw : Gateway) (sid : Text) (s' : Session)
      → lookup id gw.manager.sessions ≡ some s
      → (get_session gw.manager sid t.now).0 ≡ ok s'
      → (s'.user_id ≢ user_id) ⊎ (id ≢ sid)
  found_cases gw sid s' e h = elim (Bool-cases (sid == id)) [
    | inl q ↦
        let same : sid ≡ id = (==_iff sid id).0 q in
        inl (λ owner.
          other (sym (get_session-owner gw.manager id t.now s s' e (rw same at h)) ∙ owner))
    | inr q ↦ inr (λ same. cc ((==_iff sid id).1 (sym same)))
  ]

  abbrev pub Preserved : Gateway → Gateway → Type 0
  Preserved gw gw' = Kept t.now gw.manager id s gw'.manager

  Preserved-after : (gw gw1 gw2 : Gateway) → Preserved gw gw1 → Same gw1 gw2 → Preserved gw gw2
  Preserved-after gw gw1 gw2 (inl e) same = inl (same ∙ e)
  Preserved-after gw gw1 gw2 (inr (inl e)) same = inr (inl (same ∙ e))
  Preserved-after gw gw1 gw2 (inr (inr (e, f))) same = inr (inr (e, same ∙ f))

  -- The gateway after the session was looked up.
  abbrev looked_up : Gateway → Text → Gateway
  looked_up gw sid = record gw { manager = (get_session gw.manager sid t.now).1 }

  looked_up-Preserved :
      (gw : Gateway) (sid : Text)
      → lookup id gw.manager.sessions ≡ some s
      → Preserved gw (looked_up gw sid)
  looked_up-Preserved gw sid e = get_session-Kept gw.manager sid id t.now s e

  handle_initialize-Preserved :
      (gw : Gateway) (caller : Caller) (sid : Text) (req : RpcRequest)
      → lookup id gw.manager.sessions ≡ some s
      → Preserved gw (handle_initialize w t gw user_id caller sid req).1
  unfolding handle_initialize
  handle_initialize-Preserved gw caller sid req e = elim (Bool-cases (sid == [])) [
    | inl a ↦ rw a (inl (initialize_new-Same gw caller req ∙ e))
    | inr a ↦
        let kept = looked_up-Preserved gw sid e in
        let renewed =
          Preserved-after gw (looked_up gw sid)
            (initialize_new w t (looked_up gw sid) user_id caller req).1 kept
            (initialize_new-Same (looked_up gw sid) caller req) in
        elim (Result-cases (get_session gw.manager sid t.now).0) [
          | inl (x, q) ↦ rw (a, q) renewed
          | inr (s', q) ↦ elim (Bool-cases (s'.user_id == user_id)) [
            | inr g ↦ rw (a, q, g) renewed
            | inl g ↦ elim (found_cases gw sid s' e q) [
              | inl ne ↦ absurd (ne ((==_iff s'.user_id user_id).0 g))
              | inr ne ↦
                  rw (a, q, g)
                    (Preserved-after gw (looked_up gw sid)
                      (initialize_in w t (looked_up gw sid) req sid s').1 kept
                      (initialize_in-Same (looked_up gw sid) req sid s' ne))
            ]
          ]
        ]
  ]

  handle_rpc-Preserved :
      (gw : Gateway) (caller : Caller) (req : RpcRequest) (sid : Text)
      → lookup id gw.manager.sessions ≡ some s
      → Preserved gw (handle_rpc w t gw user_id caller req sid).1
  unfolding handle_rpc
  handle_rpc-Preserved gw caller req sid e = elim (Bool-cases (req.method == lit "initialize")) [
    | inl m ↦ rw m (handle_initialize-Preserved gw caller sid req e)
    | inr m ↦ elim (Bool-cases (sid == [])) [
      | inl a ↦ rw (m, a) (inl e)
      | inr a ↦
          let kept = looked_up-Preserved gw sid e in
          elim (Result-cases (get_session gw.manager sid t.now).0) [
            | inl (x, q) ↦ rw (m, a, q) kept
            | inr (s', q) ↦ elim (found_cases gw sid s' e q) [
              | inl ne ↦
                  rw (m, a, q, handle_in_foreign (looked_up gw sid) caller req sid s' ne) kept
              | inr ne ↦
                  rw (m, a, q)
                    (Preserved-after gw (looked_up gw sid)
                      (handle_in w t (looked_up gw sid) user_id caller req sid s').1 kept
                      (handle_in-Same (looked_up gw sid) caller req sid s' ne))
            ]
          ]
    ]
  ]

  handle_post-Preserved :
      (gw : Gateway) (caller : Caller) (r : HttpRequest)
      → lookup id gw.manager.sessions ≡ some s
      → Preserved gw (handle_post w t gw user_id caller r).1
  unfolding handle_post
  handle_post-Preserved gw caller r e = elim (Body-cases r.body) [
    | inl b ↦ rw (b, handle_post) (inl e)
    | inr (inl b) ↦ rw (b, handle_post) (inl e)
    | inr (inr (req, b)) ↦
        rw (b, handle_post) (handle_rpc-Preserved gw caller req (session_id_of r) e)
  ]

  handle_sse-Preserved :
      (gw : Gateway) (caller : Caller) (r : HttpRequest)
      → lookup id gw.manager.sessions ≡ some s
      → Preserved gw (handle_sse w t gw user_id caller r).1
  unfolding handle_sse
  handle_sse-Preserved gw caller r e = elim (Bool-cases (r.mcp_session_id == [])) [
    | inl a ↦
        let created =
          create_session gw.manager t.fresh_id t.now user_id caller.role caller.groups in
        let made =
          create_session-others gw.manager t.fresh_id id t.now user_id caller.role caller.groups
            fresh in
        elim (Result-cases created.0) [
          | inl (x, q) ↦ rw (a, q) (inl (made ∙ e))
          | inr (s', q) ↦ rw (a, q) (inl (made ∙ e))
        ]
    | inr a ↦
        let kept = looked_up-Preserved gw r.mcp_session_id e in
        elim (Result-cases (get_session gw.manager r.mcp_session_id t.now).0) [
          | inl (x, q) ↦ rw (a, q) kept
          | inr (s', q) ↦ elim (Bool-cases (s'.user_id == user_id)) [
            | inl g ↦ rw (a, q, g) kept
            | inr g ↦ rw (a, q, g) kept
          ]
        ]
  ]

  handle_delete-Preserved :
      (gw : Gateway) (r : HttpRequest)
      → lookup id gw.manager.sessions ≡ some s
      → Preserved gw (handle_delete w t gw user_id r).1
  unfolding handle_delete delete_in
  handle_delete-Preserved gw r e = elim (Bool-cases (r.mcp_session_id == [])) [
    | inl a ↦ rw a (inl e)
    | inr a ↦
        let sid = r.mcp_session_id in
        let kept = looked_up-Preserved gw sid e in
        elim (Result-cases (get_session gw.manager sid t.now).0) [
          | inl (x, q) ↦ rw (a, q) kept
          | inr (s', q) ↦ elim (found_cases gw sid s' e q) [
            | inl ne ↦ rw (a, q, not_equal s'.user_id user_id ne) kept
            | inr ne ↦ elim (Bool-cases (s'.user_id == user_id)) [
              | inr g ↦ rw (a, q, g) kept
              | inl g ↦
                  rw (a, q, g)
                    (Preserved-after gw (looked_up gw sid)
                      (record gw { manager = (delete_session (looked_up gw sid).manager sid).1 })
                      kept (delete_session-others (looked_up gw sid).manager sid id ne))
            ]
          ]
        ]
  ]

-- Whatever request a caller sends, a session in memory that is not the caller's is afterwards as it
-- was, or has only a new term, or had run out and is gone, if the id that the handler draws is
-- not the session's.
pub handle_mcp-Kept :
    (w : World) (t : Moment) (gw : Gateway) (caller : Caller) (r : HttpRequest) (id : Text)
    (s : Session)
    → lookup id gw.manager.sessions ≡ some s
    → caller.user_id ≢ some s.user_id
    → id ≢ t.fresh_id
    → Kept t.now gw.manager id s (handle_mcp w t gw caller r).1.manager
unfolding handle_mcp
handle_mcp-Kept w t gw caller r id s e other fresh = elim (Option-cases caller.user_id) [
  | inl u ↦ elim (Bool-cases (r.method == lit "POST")) [
    | inl a ↦ rw (u, a, handle_mcp) (inl e)
    | inr a ↦ elim (Bool-cases (r.method == lit "GET")) [
      | inl b ↦ rw (u, a, b, handle_mcp) (inl e)
      | inr b ↦ elim (Bool-cases (r.method == lit "DELETE")) [
        | inl c ↦ rw (u, a, b, c, handle_mcp) (inl e)
        | inr c ↦ rw (u, a, b, c, handle_mcp) (inl e)
      ]
    ]
  ]
  | inr (user_id, u) ↦
      let ne : s.user_id ≢ user_id = λ same. other (u ∙ ap some (sym same)) in
      elim (Bool-cases (r.method == lit "POST")) [
        | inl a ↦
            rw (u, a, handle_mcp) (handle_post-Preserved w t user_id id s ne fresh gw caller r e)
        | inr a ↦ elim (Bool-cases (r.method == lit "GET")) [
          | inl b ↦
              rw (u, a, b, handle_mcp)
                (handle_sse-Preserved w t user_id id s ne fresh gw caller r e)
          | inr b ↦ elim (Bool-cases (r.method == lit "DELETE")) [
            | inl c ↦
                rw (u, a, b, c, handle_mcp)
                  (handle_delete-Preserved w t user_id id s ne fresh gw r e)
            | inr c ↦ rw (u, a, b, c, handle_mcp) (inl e)
          ]
        ]
      ]
]
