-- ===== src/Gateway/Deleted.antt =====
-- Ending a session: `handleDelete` of backend/internal/gateway/handler.go.
use reflow_gateway.Base.{ℕ, ◌≡◌, refl, inl, inr, true, [], Bool-cases}
use reflow_gateway.Base.Text.{Text, ◌==◌, ==_iff}
use reflow_gateway.Base.Results.{ok, err, not_found, Result-cases}
use reflow_gateway.Session.{Session}
use reflow_gateway.Session.Manager.{get_session, delete_session}
use reflow_gateway.Session.Manager.Expiry.{get_session-delete_session}
use reflow_gateway.Session.Manager.Reachable.{get_session-reachable}
use reflow_gateway.Gateway.{
  HttpRequest, World, Moment, Gateway, no_content, delete_in, handle_delete,
}

module _ (w : World) (t : Moment) where
  delete_in_lem :
      (gw : Gateway) (user_id sid : Text) (s : Session)
      → (delete_in w t gw user_id sid s).0 ≡ no_content
      → ((s.user_id == user_id) ≡ true)
        × ((delete_in w t gw user_id sid s).1
            ≡ record gw { manager = (delete_session gw.manager sid).1 })
  unfolding delete_in
  delete_in_lem gw user_id sid s h = elim (Bool-cases (s.user_id == user_id)) [
    | inl e ↦ rw e (refl, refl)
    | inr e ↦ cc (rw e at h)
  ]

  -- On a reachable database, a DELETE that answers 204 was sent by the owner of a live session, and
  -- afterwards no one gets that session, at any time.
  pub handle_delete_lem :
      (gw : Gateway) (user_id : Text) (r : HttpRequest)
      → gw.manager.db.reachable ≡ true
      → (handle_delete w t gw user_id r).0 ≡ no_content
      → (s : Session) × ((get_session gw.manager r.mcp_session_id t.now).0 ≡ ok s)
        × (s.user_id ≡ user_id)
        × ((later : ℕ)
            → (get_session (handle_delete w t gw user_id r).1.manager r.mcp_session_id later).0
              ≡ err not_found)
  unfolding handle_delete
  handle_delete_lem gw user_id r up h = elim (Bool-cases (r.mcp_session_id == [])) [
    | inl e ↦ cc (rw e at h)
    | inr e ↦ elim (Result-cases (get_session gw.manager r.mcp_session_id t.now).0) [
      | inl (x, q) ↦ cc (rw (e, q) at h)
      | inr (s, q) ↦
          let sid = r.mcp_session_id in
          let looked : Gateway = record gw { manager = (get_session gw.manager sid t.now).1 } in
          let (owner, state) = delete_in_lem looked user_id sid s (rw (e, q) at h) in
          (
            s,
            q,
            (==_iff s.user_id user_id).0 owner,
            λ later.
                rw (e, q, state)
                  (get_session-delete_session looked.manager sid later
                    (get_session-reachable gw.manager sid t.now up)),
          )
    ]
  ]
