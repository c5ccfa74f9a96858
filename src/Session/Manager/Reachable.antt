-- ===== src/Session/Manager/Reachable.antt =====
-- Whether the database answers is not the session manager's to change:
-- backend/internal/gateway/session.go.
use reflow_gateway.Base.{ℕ, ◌≡◌, inl, inr, true, Bool-cases, Option-cases, arith}
use reflow_gateway.Base.Text.{Text}
use reflow_gateway.Base.Maps.{lookup}
use reflow_gateway.Base.Results.{Result-cases}
use reflow_gateway.Session.{Session}
use reflow_gateway.Session.Manager.{
  SessionManager, Database, McpSession, get_session, get_mcp_session, refresh, restore,
  drop_session, delete_session, delete_mcp_session, update_mcp_session_activity, expired,
}
use reflow_gateway.Session.Manager.Expiry.{
  get_session_memory, get_session_database, get_session_failed,
}

delete_mcp_session-reachable :
    (db : Database) (id : Text)
    → db.reachable ≡ true
    → (delete_mcp_session db id).1.reachable ≡ true
unfolding delete_mcp_session
delete_mcp_session-reachable db id up = ground (arith, up)

update_mcp_session_activity-reachable :
    (db : Database) (id : Text) (now : ℕ)
    → db.reachable ≡ true
    → (update_mcp_session_activity db id now).reachable ≡ true
unfolding update_mcp_session_activity
update_mcp_session_activity-reachable db id now up = ground (arith, up)

drop_session-reachable :
    (sm : SessionManager) (id : Text)
    → sm.db.reachable ≡ true
    → (drop_session sm id).db.reachable ≡ true
unfolding drop_session
drop_session-reachable sm id up = elim (Option-cases (lookup id sm.sessions)) [
  | inl e ↦ rw (e, drop_session) up
  | inr (s, e) ↦ rw (e, drop_session) up
]

refresh-reachable :
    (sm : SessionManager) (id : Text) (now : ℕ) (s : Session)
    → sm.db.reachable ≡ true
    → (refresh sm id now s).1.db.reachable ≡ true
unfolding refresh delete_session
refresh-reachable sm id now s up = elim (Bool-cases (expired now s.expires_at)) [
  | inl e ↦
      rw e
        (delete_mcp_session-reachable (drop_session sm id).db id (drop_session-reachable sm id up))
  | inr e ↦ rw e (update_mcp_session_activity-reachable sm.db id now up)
]

restore-reachable :
    (sm : SessionManager) (id : Text) (now : ℕ) (row : McpSession)
    → sm.db.reachable ≡ true
    → (restore sm id now row).1.db.reachable ≡ true
unfolding restore
restore-reachable sm id now row up = elim (Bool-cases (expired now row.expires_at)) [
  | inl e ↦ rw e (delete_mcp_session-reachable sm.db id up)
  | inr e ↦ rw e up
]

pub get_session-reachable :
    (sm : SessionManager) (id : Text) (now : ℕ)
    → sm.db.reachable ≡ true
    → (get_session sm id now).1.db.reachable ≡ true
get_session-reachable sm id now up = elim (Option-cases (lookup id sm.sessions)) [
  | inr (s, e) ↦ rw (get_session_memory sm id now s e) (refresh-reachable sm id now s up)
  | inl e ↦ elim (Result-cases (get_mcp_session sm.db id)) [
    | inl (x, q) ↦ rw (get_session_failed sm id now e q) up
    | inr (row, q) ↦
        rw (get_session_database sm id now row e q) (restore-reachable sm id now row up)
  ]
]
