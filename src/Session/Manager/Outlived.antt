-- ===== src/Session/Manager/Outlived.antt =====
-- A session that is in use outlives its row, whose term `UpdateMCPSessionActivity` does not move
-- (backend/internal/gateway/session.go with backend/internal/database/repository.go).
use reflow_gateway.Base.{ℕ, ◌+◌, ◌≤◌, ◌<◌, ◌≡◌, true, none, some, arith, leb}
use reflow_gateway.Base.Text.{Text}
use reflow_gateway.Base.Maps.{
  IsMap, lookup, insert, lookup-insert_self, insert-IsMap, lookup-retain,
}
use reflow_gateway.Base.Results.{err, not_found}
use reflow_gateway.Session.{Session}
use reflow_gateway.Session.Manager.Expiry.{get_session_memory, lookup-cleanup, drop_session-db}
use reflow_gateway.Session.Manager.{
  SessionManager, Database, McpSession, get_session, refresh, delete_session, delete_mcp_session,
  cleanup, cleanup_expired_sessions, update_mcp_session_activity,
}

module _ (db : Database) (id : Text) (row : McpSession) (up : db.reachable ≡ true)
    (m : IsMap db.mcp_sessions) (stored : lookup id db.mcp_sessions ≡ some row) where
  activity-db :
      (now : ℕ)
      → update_mcp_session_activity db id now ≡ record db {
        mcp_sessions = insert id (record row { last_activity = now }) db.mcp_sessions;
      }
  unfolding update_mcp_session_activity
  activity-db now = rw (up, stored, update_mcp_session_activity)

  -- Marking activity leaves the term of the row: the row is swept once that has passed.
  row_swept :
      (now later : ℕ)
      → row.expires_at < later
      → lookup id
          (cleanup_expired_sessions (update_mcp_session_activity db id now) later).mcp_sessions
        ≡ none
  unfolding cleanup_expired_sessions
  row_swept now later over =
      rw (activity-db now, up)
        (ground (
          arith,
          lookup-retain (λ r. leb later r.expires_at) id
              (insert id (record row { last_activity = now }) db.mcp_sessions)
              (insert-IsMap id (record row { last_activity = now }) db.mcp_sessions m),
          lookup-insert_self id (record row { last_activity = now }) db.mcp_sessions,
        ))

  still_reachable :
      (now later : ℕ)
      → (cleanup_expired_sessions (update_mcp_session_activity db id now) later).reachable ≡ true
  unfolding cleanup_expired_sessions
  still_reachable now later = rw (activity-db now, up)

delete_mcp_session_missing :
    (db : Database) (id : Text)
    → db.reachable ≡ true
    → lookup id db.mcp_sessions ≡ none
    → (delete_mcp_session db id).0 ≡ err not_found
unfolding delete_mcp_session
delete_mcp_session_missing db id up gone = rw (up, gone, delete_mcp_session)

-- The manager after `GetSession` gave a live session a new term.
abbrev refreshed : SessionManager → Text → Session → ℕ → SessionManager
refreshed sm id s now = record sm {
  sessions = insert id (record s { expires_at = now + sm.session_timeout }) sm.sessions;
  db = update_mcp_session_activity sm.db id now;
}

get_session-refreshed :
    (sm : SessionManager) (id : Text) (s : Session) (now : ℕ)
    → lookup id sm.sessions ≡ some s
    → now ≤ s.expires_at
    → (get_session sm id now).1 ≡ refreshed sm id s now
unfolding refresh
get_session-refreshed sm id s now here alive =
    rw (get_session_memory sm id now s here) (ground arith)

delete_session_missing :
    (sm : SessionManager) (id : Text)
    → sm.db.reachable ≡ true
    → lookup id sm.db.mcp_sessions ≡ none
    → (delete_session sm id).0 ≡ err not_found
unfolding delete_session
delete_session_missing sm id up gone =
    rw (drop_session-db sm id) (delete_mcp_session_missing sm.db id up gone)

-- On a reachable database and with maps of distinct ids, a live session whose stored term ends
-- before its refreshed one: after a `GetSession` and, past the stored term and within the refreshed
-- one, a `cleanup`, the session is still in memory with its refreshed term, and `DeleteSession`
-- reports that it was not found.
pub delete_session_outlived :
    (sm : SessionManager) (id : Text) (s : Session) (row : McpSession) (now later : ℕ)
    → IsMap sm.sessions
    → IsMap sm.db.mcp_sessions
    → sm.db.reachable ≡ true
    → lookup id sm.sessions ≡ some s
    → lookup id sm.db.mcp_sessions ≡ some row
    → now ≤ s.expires_at
    → row.expires_at < later
    → later ≤ now + sm.session_timeout
    → let swept = cleanup (get_session sm id now).1 later in
      (lookup id swept.sessions ≡ some (record s { expires_at = now + sm.session_timeout }))
      × ((delete_session swept id).0 ≡ err not_found)
delete_session_outlived sm id s row now later ms md up here stored alive over within =
    let s' : Session = record s { expires_at = now + sm.session_timeout } in
    rw (get_session-refreshed sm id s now here alive) (
      (lookup-cleanup (refreshed sm id s now) later id s' (insert-IsMap id s' sm.sessions ms)).1
          (lookup-insert_self id s' sm.sessions, within),
      delete_session_missing (cleanup (refreshed sm id s now) later) id
          (unfold cleanup in still_reachable sm.db id row up md stored now later)
          (unfold cleanup in row_swept sm.db id row up md stored now later over),
    )
