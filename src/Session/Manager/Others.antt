-- ===== src/Session/Manager/Others.antt =====
-- What an operation on one session leaves of another: backend/internal/gateway/session.go.
use reflow_gateway.Base.{
  ℕ, ◌+◌, ◌≡◌, refl, sym, ◌∙◌, ap, ◌≢◌, ◌⊎◌, inl, inr, true, none, some, List, Bool-cases,
  Option-cases, arith,
}
use reflow_gateway.Base.Text.{Text, ◌==◌, ==_iff}
use reflow_gateway.Base.Maps.{
  lookup, lookup-insert, lookup-insert_self, lookup-delete, lookup-delete_self,
}
use reflow_gateway.Base.Results.{ok, Result-cases}
use reflow_gateway.Session.{Session, new_session}
use reflow_gateway.Session.Manager.{
  SessionManager, McpSession, get_user_by_id, role_and_groups, get_session, get_mcp_session,
  refresh, restore, drop_session, delete_session, create_session, create_mcp_session, put_session,
  expired,
}
use reflow_gateway.Session.Manager.Expiry.{
  get_session_memory, get_session_database, get_session_failed,
}

drop_session-others :
    (sm : SessionManager) (sid id : Text)
    → id ≢ sid
    → lookup id (drop_session sm sid).sessions ≡ lookup id sm.sessions
unfolding drop_session
drop_session-others sm sid id ne = elim (Option-cases (lookup sid sm.sessions)) [
  | inl e ↦ rw (e, drop_session) refl
  | inr (s, e) ↦
      rw (e, drop_session) (ground (arith, lookup-delete sid id sm.sessions, ==_iff sid id))
]

drop_session-absent :
    (sm : SessionManager) (sid : Text) → lookup sid (drop_session sm sid).sessions ≡ none
unfolding drop_session
drop_session-absent sm sid = elim (Option-cases (lookup sid sm.sessions)) [
  | inl e ↦ rw (e, drop_session) e
  | inr (s, e) ↦ rw (e, drop_session) (lookup-delete_self sid sm.sessions)
]

pub delete_session-others :
    (sm : SessionManager) (sid id : Text)
    → id ≢ sid
    → lookup id (delete_session sm sid).1.sessions ≡ lookup id sm.sessions
unfolding delete_session
delete_session-others sm sid id ne = drop_session-others sm sid id ne

pub put_session-others :
    (sm : SessionManager) (sid id : Text) (s : Session)
    → id ≢ sid
    → lookup id (put_session sm sid s).sessions ≡ lookup id sm.sessions
unfolding put_session
put_session-others sm sid id s ne =
    ground (arith, lookup-insert sid id s sm.sessions, ==_iff sid id)

pub create_session-others :
    (sm : SessionManager) (sid id : Text) (now : ℕ) (user_id role : Text) (groups : List Text)
    → id ≢ sid
    → lookup id (create_session sm sid now user_id role groups).1.sessions ≡ lookup id sm.sessions
unfolding create_session
create_session-others sm sid id now user_id role groups ne =
    elim (Result-cases (create_mcp_session sm.db sid user_id now (now + sm.session_timeout)).0) [
      | inl (e, q) ↦ rw (q, create_session) refl
      | inr (row, q) ↦
          rw (q, create_session)
            (ground (
              arith,
              lookup-insert sid id
                  (new_session sid user_id role groups now (now + sm.session_timeout)) sm.sessions,
              ==_iff sid id,
            ))
    ]

refresh-others :
    (sm : SessionManager) (sid id : Text) (now : ℕ) (s : Session)
    → id ≢ sid
    → lookup id (refresh sm sid now s).1.sessions ≡ lookup id sm.sessions
unfolding refresh
refresh-others sm sid id now s ne = elim (Bool-cases (expired now s.expires_at)) [
  | inl e ↦ rw e (delete_session-others sm sid id ne)
  | inr e ↦ rw e (
      ground (
        arith,
        lookup-insert sid id (record s { expires_at = now + sm.session_timeout }) sm.sessions,
        ==_iff sid id,
      ))
]

restore-others :
    (sm : SessionManager) (sid id : Text) (now : ℕ) (row : McpSession)
    → id ≢ sid
    → lookup id (restore sm sid now row).1.sessions ≡ lookup id sm.sessions
unfolding restore
restore-others sm sid id now row ne =
    let (role, groups) = role_and_groups (get_user_by_id sm.db row.user_id) in
    let s = new_session row.id row.user_id role groups row.created_at row.expires_at in
    elim (Bool-cases (expired now row.expires_at)) [
      | inl e ↦ rw e refl
      | inr e ↦ rw e (ground (arith, lookup-insert sid id s sm.sessions, ==_iff sid id))
    ]

pub get_session-others :
    (sm : SessionManager) (sid id : Text) (now : ℕ)
    → id ≢ sid
    → lookup id (get_session sm sid now).1.sessions ≡ lookup id sm.sessions
get_session-others sm sid id now ne = elim (Option-cases (lookup sid sm.sessions)) [
  | inr (s, e) ↦ rw (get_session_memory sm sid now s e) (refresh-others sm sid id now s ne)
  | inl e ↦ elim (Result-cases (get_mcp_session sm.db sid)) [
    | inl (x, q) ↦ rw (get_session_failed sm sid now e q) refl
    | inr (row, q) ↦
        rw (get_session_database sm sid now row e q) (restore-others sm sid id now row ne)
  ]
]

-- A session is as it was, or has a new term, or had run out and is gone.
abbrev pub Kept : ℕ → SessionManager → Text → Session → SessionManager → Type 0
Kept now sm id s sm' =
    (lookup id sm'.sessions ≡ some s)
    ⊎ ((lookup id sm'.sessions ≡ some (record s { expires_at = now + sm.session_timeout }))
        ⊎ ((expired now s.expires_at ≡ true) × (lookup id sm'.sessions ≡ none)))

refresh-Kept :
    (sm : SessionManager) (id : Text) (now : ℕ) (s : Session)
    → Kept now sm id s (refresh sm id now s).1
unfolding refresh delete_session
refresh-Kept sm id now s = elim (Bool-cases (expired now s.expires_at)) [
  | inl e ↦ rw e (inr (inr (refl, drop_session-absent sm id)))
  | inr e ↦ rw e (
      inr (
        inl
          (lookup-insert_self id (record s { expires_at = now + sm.session_timeout }) sm.sessions)))
]

pub get_session-Kept :
    (sm : SessionManager) (sid id : Text) (now : ℕ) (s : Session)
    → lookup id sm.sessions ≡ some s
    → Kept now sm id s (get_session sm sid now).1
get_session-Kept sm sid id now s e = elim (Bool-cases (sid == id)) [
  | inl q ↦
      let same : sid ≡ id = (==_iff sid id).0 q in
      rw same (rw (get_session_memory sm id now s e) (refresh-Kept sm id now s))
  | inr q ↦ inl (get_session-others sm sid id now (ground (arith, ==_iff sid id)) ∙ e)
]

-- The session that is found under an id in memory has the owner of the one in memory.
pub get_session-owner :
    (sm : SessionManager) (id : Text) (now : ℕ) (s found : Session)
    → lookup id sm.sessions ≡ some s
    → (get_session sm id now).0 ≡ ok found
    → found.user_id ≡ s.user_id
unfolding refresh
get_session-owner sm id now s found e h = elim (Bool-cases (expired now s.expires_at)) [
  | inl q ↦ cc (rw (get_session_memory sm id now s e, q, refresh) at h)
  | inr q ↦
      let same : record s { expires_at = now + sm.session_timeout } ≡ found =
        cc (rw (get_session_memory sm id now s e, q, refresh) at h) in
      ap (λ x. x.user_id) (sym same)
]
