-- ===== src/Gateway/Served.antt =====
-- Which requests are served: backend/internal/gateway/handler.go.
use reflow_gateway.Base.{◌≡◌, refl, ◌≢◌, ◌⊎◌, inl, inr, true, false, [], length, Bool-cases}
use reflow_gateway.Base.Text.{Text, lit, ◌==◌, ==_iff}
use reflow_gateway.Base.Results.{ok, err, Result-cases}
use reflow_gateway.Session.{Session, needs_recycle}
use reflow_gateway.Session.Identity.{Within, needs_recycle_cases}
use reflow_gateway.Session.Manager.{get_session, create_session}
use reflow_gateway.Proxy.Initialize.{initialize_session}
use reflow_gateway.Proxy.Dispatch.{
  RpcRequest, Reply, tools_reply, call_reply, resources_reply, read_reply, prompts_reply,
  prompt_reply, pong, invalid_params_reply, no_targets_reply, forwarded, is_notification,
  handle_request,
}
use reflow_gateway.Gateway.{
  Caller, HttpRequest, Body, unreadable, invalid_json, parsed, World, Moment, Gateway, served,
  initialize_in, initialize_new, handle_initialize, reply_response, handle_in, handle_rpc,
  handle_post, session_id_of,
}

pub Body-cases :
    (b : Body) → (b ≡ unreadable) ⊎ ((b ≡ invalid_json) ⊎ ((req : RpcRequest) × (b ≡ parsed req)))
Body-cases unreadable = inl refl
Body-cases invalid_json = inr (inl refl)
Body-cases (parsed req) = inr (inr (req, refl))

module _ (w : World) (t : Moment) where
  reply_response_served :
      (session_id x : Text) (reply reply' : Reply)
      → reply_response w t session_id reply ≡ served x reply'
      → reply ≡ reply'
  unfolding reply_response
  reply_response_served session_id x (tools_reply a) reply' h = cc
  reply_response_served session_id x (call_reply a) reply' h = cc
  reply_response_served session_id x (resources_reply a) reply' h = cc
  reply_response_served session_id x (read_reply a) reply' h = cc
  reply_response_served session_id x (prompts_reply a) reply' h = cc
  reply_response_served session_id x (prompt_reply a) reply' h = cc
  reply_response_served session_id x pong reply' h = cc
  reply_response_served session_id x invalid_params_reply reply' h = cc
  reply_response_served session_id x no_targets_reply reply' h = cc
  reply_response_served session_id x (forwarded c (ok a)) reply' h = cc
  reply_response_served session_id x (forwarded c (err e)) reply' h = cc

  handle_in_served :
      (gw : Gateway) (user_id : Text) (caller : Caller) (req : RpcRequest) (session_id x : Text)
      (s : Session) (reply : Reply)
      → (handle_in w t gw user_id caller req session_id s).0 ≡ served x reply
      → ((s.user_id == user_id) ≡ true)
        × (needs_recycle s caller.role caller.groups ≡ false)
        × ((handle_request w.env w.upstream w.send_raw w.decoder gw.auth s (t.arrivals s) req).0
            ≡ reply)
  unfolding handle_in
  handle_in_served gw user_id caller req session_id x s reply h =
      elim (Bool-cases (s.user_id == user_id)) [
        | inr e ↦ cc (rw e at h)
        | inl e ↦ elim (Bool-cases (needs_recycle s caller.role caller.groups)) [
          | inl f ↦ cc (rw (e, f) at h)
          | inr f ↦ elim (Bool-cases (is_notification req)) [
            | inl g ↦ cc (rw (e, f, g) at h)
            | inr g ↦ (e, f, reply_response_served _ x _ reply (rw (e, f, g) at h))
          ]
        ]
      ]

  initialize_in_unserved :
      (gw : Gateway) (req : RpcRequest) (session_id x : Text) (s : Session) (reply : Reply)
      → (initialize_in w t gw req session_id s).0 ≢ served x reply
  unfolding initialize_in
  initialize_in_unserved gw req session_id x s reply h =
      elim (Bool-cases (w.initialize_params_decode req.params)) [
        | inr e ↦ cc (rw e at h)
        | inl e ↦ elim (Result-cases (initialize_session w.env w.connector gw.auth s t.targets).0) [
          | inl (f, q) ↦ cc (rw (e, q) at h)
          | inr (r, q) ↦ cc (rw (e, q) at h)
        ]
      ]

  initialize_new_unserved :
      (gw : Gateway) (user_id : Text) (caller : Caller) (req : RpcRequest) (x : Text)
      (reply : Reply)
      → (initialize_new w t gw user_id caller req).0 ≢ served x reply
  unfolding initialize_new
  initialize_new_unserved gw user_id caller req x reply h =
      elim (Result-cases
        (create_session gw.manager t.fresh_id t.now user_id caller.role caller.groups).0) [
          | inl (f, q) ↦ cc (rw (q, initialize_new) at h)
          | inr (s, q) ↦
              initialize_in_unserved _ req t.fresh_id x s reply (rw (q, initialize_new) at h)
        ]

  handle_initialize_unserved :
      (gw : Gateway) (user_id : Text) (caller : Caller) (session_id : Text) (req : RpcRequest)
      (x : Text) (reply : Reply)
      → (handle_initialize w t gw user_id caller session_id req).0 ≢ served x reply
  unfolding handle_initialize
  handle_initialize_unserved gw user_id caller session_id req x reply h =
      elim (Bool-cases (session_id == [])) [
        | inl e ↦ initialize_new_unserved gw user_id caller req x reply (rw e at h)
        | inr e ↦ elim (Result-cases (get_session gw.manager session_id t.now).0) [
          | inl (f, q) ↦ initialize_new_unserved _ user_id caller req x reply (rw (e, q) at h)
          | inr (s, q) ↦ elim (Bool-cases (s.user_id == user_id)) [
            | inl g ↦ initialize_in_unserved _ req session_id x s reply (rw (e, q, g) at h)
            | inr g ↦ initialize_new_unserved _ user_id caller req x reply (rw (e, q, g) at h)
          ]
        ]
      ]

  -- The session for which a request is served.
  pub record ServedBy (gw : Gateway) (user_id : Text) (caller : Caller) (session_id : Text)
      (req : RpcRequest) (reply : Reply) : Type 0 where
    pub session : Session
    pub found : (get_session gw.manager session_id t.now).0 ≡ ok session
    pub owned : session.user_id ≡ user_id
    pub same_role : session.role ≡ caller.role
    pub same_number : length session.groups ≡ length caller.groups
    pub same_groups : Within caller.groups session.groups
    pub answered :
        (handle_request w.env w.upstream w.send_raw w.decoder gw.auth session
          (t.arrivals session)
          req).0
        ≡ reply

  handle_rpc_served :
      (gw : Gateway) (user_id : Text) (caller : Caller) (req : RpcRequest) (session_id x : Text)
      (reply : Reply)
      → (handle_rpc w t gw user_id caller req session_id).0 ≡ served x reply
      → ServedBy gw user_id caller session_id req reply
  unfolding handle_rpc
  handle_rpc_served gw user_id caller req session_id x reply h =
      elim (Bool-cases (req.method == lit "initialize")) [
        | inl e ↦
            absurd (handle_initialize_unserved gw user_id caller session_id req x reply (rw e at h))
        | inr e ↦ elim (Bool-cases (session_id == [])) [
          | inl f ↦ cc (rw (e, f) at h)
          | inr f ↦ elim (Result-cases (get_session gw.manager session_id t.now).0) [
            | inl (g, q) ↦ cc (rw (e, f, q) at h)
            | inr (s, q) ↦
                let (owner, kept, answer) =
                  handle_in_served
                    (record gw { manager = (get_session gw.manager session_id t.now).1 }) user_id
                    caller req session_id x s reply (rw (e, f, q) at h) in
                let (role, number, groups) =
                  (needs_recycle_cases s caller.role caller.groups).0 kept in
                record {
                  session = s;
                  found = q;
                  owned = (==_iff s.user_id user_id).0 owner;
                  same_role = role;
                  same_number = number;
                  same_groups = groups;
                  answered = answer;
                }
          ]
        ]
      ]

  -- A POST that the proxy serves is a parsed request on a live session that the authenticated user
  -- owns, whose role is that of the caller's claims and whose groups are as many as theirs and
  -- include them, and the reply is what the proxy makes of the request on that session.
  pub handle_post_served :
      (gw : Gateway) (user_id : Text) (caller : Caller) (r : HttpRequest) (x : Text) (reply : Reply)
      → (handle_post w t gw user_id caller r).0 ≡ served x reply
      → (req : RpcRequest) × (r.body ≡ parsed req)
        × ServedBy gw user_id caller (session_id_of r) req reply
  unfolding handle_post
  handle_post_served gw user_id caller r x reply h = elim (Body-cases r.body) [
    | inl e ↦ cc (rw (e, handle_post) at h)
    | inr (inl e) ↦ cc (rw (e, handle_post) at h)
    | inr (inr (req, e)) ↦ (
      req,
      e,
      handle_rpc_served gw user_id caller req (session_id_of r) x reply (rw (e, handle_post) at h),
    )
  ]
