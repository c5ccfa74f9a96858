-- ===== src/Session/Manager/Expiry.antt =====
-- Which sessions live: `GetSession`, `DeleteSession` and `cleanup` of
-- backend/internal/gateway/session.go.
use reflow_gateway.Base.{
  ℕ, ◌+◌, ◌≤◌, ◌≡◌, sym, ◌∙◌, ap, ◌↔◌, ◌⊎◌, inl, inr, true, false, not, none, some, Bool-cases,
  Option-cases, arith,
}
use reflow_gateway.Base.Text.{Text}
use reflow_gateway.Base.Maps.{IsMap, lookup, lookup-insert_self, lookup-delete_self, lookup-retain}
use reflow_gateway.Base.Results.{Error, ok, err, not_found, Result-cases}
use reflow_gateway.Session.{Session, new_session}
use reflow_gateway.Session.Manager.{
  SessionManager, Database, McpSession, get_session, get_mcp_session, refresh, restore,
  role_and_groups, drop_session, delete_session, delete_mcp_session, cleanup, get_user_by_id,
  expired,
}

pub get_session_memory :
    (sm : SessionManager) (id : Text) (now : ℕ) (s : Session)
    → lookup id sm.sessions ≡ some s
    → get_session sm id now ≡ refresh sm id now s
unfolding get_session
get_session_memory sm id now s e = rw (e, get_session)

pub get_session_database :
    (sm : SessionManager) (id : Text) (now : ℕ) (row : McpSession)
    → lookup id sm.sessions ≡ none
    → get_mcp_session sm.db id ≡ ok row
    → get_session sm id now ≡ restore sm id now row
unfolding get_session
get_session_database sm id now row e h = ground (arith, e, h)

pub get_session_failed :
    (sm : SessionManager) (id : Text) (now : ℕ) {x : Error}
    → lookup id sm.sessions ≡ none
    → get_mcp_session sm.db id ≡ err x
    → get_session sm id now ≡ (err x, sm)
unfolding get_session
get_session_failed sm id now e h = ground (arith, e, h)

module _ (sm : SessionManager) (id : Text) (now : ℕ) (s : Session) where
  -- The session was in memory, had not run out, and has a new term.
  abbrev pub Refreshed : Type 0
  Refreshed =
      (old : Session) × (lookup id sm.sessions ≡ some old)
      × (now ≤ old.expires_at)
      × (s ≡ record old { expires_at = now + sm.session_timeout })

  -- The session was only in the database, had not run out, and is not initialized.
  abbrev pub Restored : Type 0
  Restored =
      (row : McpSession) × (lookup id sm.sessions ≡ none)
      × (get_mcp_session sm.db id ≡ ok row)
      × (now ≤ row.expires_at)
      × (s.user_id ≡ row.user_id)
      × (s.expires_at ≡ row.expires_at)
      × (s.initialized ≡ false)

  abbrev Found : SessionManager → Type 0
  Found sm' = (lookup id sm'.sessions ≡ some s) × (Refreshed ⊎ Restored)

  refresh_result :
      (old : Session)
      → lookup id sm.sessions ≡ some old
      → (refresh sm id now old).0 ≡ ok s
      → Found (refresh sm id now old).1
  unfolding refresh
  refresh_result old e h = elim (Bool-cases (expired now old.expires_at)) [
    | inl over ↦ cc (rw over at h)
    | inr live ↦
        let same : record old { expires_at = now + sm.session_timeout } ≡ s = ground arith in
        rw live
          (rw (← same) (lookup-insert_self id _ sm.sessions), inl (old, e, ground arith, sym same))
  ]

  restore_result :
      (row : McpSession)
      → lookup id sm.sessions ≡ none
      → get_mcp_session sm.db id ≡ ok row
      → (restore sm id now row).0 ≡ ok s
      → Found (restore sm id now row).1
  unfolding restore
  restore_result row e q h = elim (Bool-cases (expired now row.expires_at)) [
    | inl over ↦ cc (rw over at h)
    | inr live ↦
        let (role, groups) = role_and_groups (get_user_by_id sm.db row.user_id) in
        let same : new_session row.id row.user_id role groups row.created_at row.expires_at ≡ s =
          ground arith in
        rw live (
          rw same (lookup-insert_self id s sm.sessions),
          inr (row, e, q, ground arith, ground arith, ground arith, ground arith),
        )
  ]

-- A session that `GetSession` returns is the one that the manager then holds under the id. Either it
-- was in memory and had not run out, and only its term is new, or it was in the database alone and
-- had not run out, and it has the row's owner and term and is not initialized.
pub get_session_live :
    (sm : SessionManager) (id : Text) (now : ℕ) (s : Session)
    → (get_session sm id now).0 ≡ ok s
    → (lookup id (get_session sm id now).1.sessions ≡ some s)
      × (Refreshed sm id now s ⊎ Restored sm id now s)
get_session_live sm id now s h = elim (Option-cases (lookup id sm.sessions)) [
  | inr (old, e) ↦
      let step = get_session_memory sm id now old e in
      rw step (refresh_result sm id now s old e (rw step at h))
  | inl e ↦ elim (Result-cases (get_mcp_session sm.db id)) [
    | inl (x, q) ↦ cc (rw (get_session_failed sm id now e q) at h)
    | inr (row, q) ↦
        let step = get_session_database sm id now row e q in
        rw step (restore_result sm id now s row e q (rw step at h))
  ]
]

-- `cleanup` keeps exactly the sessions whose time has not passed, unchanged, in a session map with
-- distinct ids.
pub lookup-cleanup :
    (sm : SessionManager) (now : ℕ) (id : Text) (s : Session)
    → IsMap sm.sessions
    → (lookup id (cleanup sm now).sessions ≡ some s)
      ↔ ((lookup id sm.sessions ≡ some s) × (now ≤ s.expires_at))
unfolding cleanup
lookup-cleanup sm now id s m = (
  λ e. ground (arith, lookup-retain (λ s. not (expired now s.expires_at)) id sm.sessions m),
  λ h. ground (arith, lookup-retain (λ s. not (expired now s.expires_at)) id sm.sessions m),
)

pub drop_session-lookup :
    (sm : SessionManager) (id : Text) → lookup id (drop_session sm id).sessions ≡ none
unfolding drop_session
drop_session-lookup sm id = elim (Option-cases (lookup id sm.sessions)) [
  | inl e ↦ rw (e, drop_session) e
  | inr (s, e) ↦ rw (e, drop_session) (lookup-delete_self id sm.sessions)
]

pub drop_session-db : (sm : SessionManager) (id : Text) → (drop_session sm id).db ≡ sm.db
unfolding drop_session
drop_session-db sm id = elim (Option-cases (lookup id sm.sessions)) [
  | inl e ↦ rw (e, drop_session)
  | inr (s, e) ↦ rw (e, drop_session)
]

delete_mcp_session-get :
    (db : Database) (id : Text)
    → db.reachable ≡ true
    → get_mcp_session (delete_mcp_session db id).1 id ≡ err not_found
unfolding delete_mcp_session get_mcp_session
delete_mcp_session-get db id up = ground (arith, up, lookup-delete_self id db.mcp_sessions)

-- After `DeleteSession` on a reachable database no one gets the session, at any time.
pub get_session-delete_session :
    (sm : SessionManager) (id : Text) (now : ℕ)
    → sm.db.reachable ≡ true
    → (get_session (delete_session sm id).1 id now).0 ≡ err not_found
unfolding delete_session
get_session-delete_session sm id now up =
    ap (λ r. r.0)
      (get_session_failed (delete_session sm id).1 id now (drop_session-lookup sm id) (
        delete_mcp_session-get (drop_session sm id).db id
          (ap (λ d. d.reachable) (drop_session-db sm id) ∙ up)))
