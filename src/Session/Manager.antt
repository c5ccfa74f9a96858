-- ===== src/Session/Manager.antt =====
-- `SessionManager` of backend/internal/gateway/session.go, over the session and user tables of
-- backend/internal/database/repository.go. Time is an argument; one call reads the clock once.
-- The telemetry counter of active sessions and the clients closed so far are part of the state.
pub mod Lifecycle
pub mod Expiry
pub mod Recycled
pub mod Outlived
pub mod Others
pub mod Reachable
use reflow_gateway.Base.{
  ℕ, ◌+◌, Bool, true, false, not, ◌&&◌, Option, none, some, List, [], ◌∷◌, ◌++◌, map, any, keep,
  length, ltb, leb, if◌then◌else◌, is_some,
}
use reflow_gateway.Base.Int.{ℤ, pos, negsuc, ◌+ℤ◌}
use reflow_gateway.Base.Text.{Text, lit, ◌==◌}
use reflow_gateway.Base.Maps.{Map, lookup, insert, delete, retain}
use reflow_gateway.Base.Results.{Error, Result, ok, err, not_found, failure}
use reflow_gateway.Mcp.{McpClient}
use reflow_gateway.Session.{Session, new_session, closed_clients, recycle}

pub record McpSession : Type 0 where
  pub id : Text
  pub user_id : Text
  pub created_at : ℕ
  pub last_activity : ℕ
  pub expires_at : ℕ

pub record User : Type 0 where
  pub id : Text
  pub role : Text
  pub groups : List Text

-- The tables mcp_sessions and users, by primary key. The database answers or is out of reach.
pub record Database : Type 0 where
  pub mcp_sessions : Map McpSession
  pub users : Map User
  pub reachable : Bool

abbrev pub unreachable {ℓ} : {A : Type ℓ} → Result A
unreachable = err (failure (lit "connection refused"))

abbrev pub or_not_found {ℓ} : {A : Type ℓ} → Option A → Result A
or_not_found none = err not_found
or_not_found (some a) = ok a

-- The column user_id refers to a user.
unfoldable pub create_mcp_session : Database → Text → Text → ℕ → ℕ → Result McpSession × Database
create_mcp_session db session_id user_id now expires_at =
    let row : McpSession = record {
      id = session_id;
      user_id = user_id;
      created_at = now;
      last_activity = now;
      expires_at = expires_at;
    } in
    if not db.reachable
    then (unreachable, db)
    else if is_some (lookup session_id db.mcp_sessions)
    then (err (failure (lit "duplicate key")), db)
    else if not (is_some (lookup user_id db.users))
    then (err (failure (lit "violates foreign key constraint")), db)
    else (ok row, record db { mcp_sessions = insert session_id row db.mcp_sessions })

unfoldable pub get_mcp_session : Database → Text → Result McpSession
get_mcp_session db session_id =
    if db.reachable then or_not_found (lookup session_id db.mcp_sessions) else unreachable

unfoldable pub get_user_by_id : Database → Text → Result User
get_user_by_id db id = if db.reachable then or_not_found (lookup id db.users) else unreachable

touch : ℕ → Option McpSession → Text → Map McpSession → Map McpSession
touch now none session_id rows = rows
touch now (some row) session_id rows = insert session_id (record row { last_activity = now }) rows

unfoldable pub update_mcp_session_activity : Database → Text → ℕ → Database
unfolding touch
update_mcp_session_activity db session_id now =
    if db.reachable
    then record db {
      mcp_sessions = touch now (lookup session_id db.mcp_sessions) session_id db.mcp_sessions;
    }
    else db

unfoldable pub delete_mcp_session : Database → Text → Result (Unit {0}) × Database
delete_mcp_session db session_id =
    if not db.reachable
    then (unreachable, db)
    else if is_some (lookup session_id db.mcp_sessions)
    then (ok tt, record db { mcp_sessions = delete session_id db.mcp_sessions })
    else (err not_found, db)

-- DELETE … WHERE expires_at < NOW()
unfoldable pub cleanup_expired_sessions : Database → ℕ → Database
cleanup_expired_sessions db now =
    if db.reachable
    then record db { mcp_sessions = retain (λ row. leb now row.expires_at) db.mcp_sessions }
    else db

pub record SessionManager : Type 0 where
  pub db : Database
  pub sessions : Map Session
  pub session_timeout : ℕ
  pub active : ℤ
  pub closed : List McpClient

abbrev pub new_session_manager : Database → ℕ → SessionManager
new_session_manager db timeout = record {
  db = db;
  sessions = [];
  session_timeout = timeout;
  active = pos 0;
  closed = [];
}

-- `session_id` is the UUID that the call draws.
unfoldable pub create_session :
    SessionManager → Text → ℕ → Text → Text → List Text → Result Session × SessionManager
create_session sm session_id now user_id role groups =
    let (created, db) =
      create_mcp_session sm.db session_id user_id now (now + sm.session_timeout) in
    let session = new_session session_id user_id role groups now (now + sm.session_timeout) in
    elim created [
      | err e ↦ (err e, record sm { db = db })
      | ok _ ↦ (
        ok session,
        record sm {
          db = db;
          sessions = insert session_id session sm.sessions;
          active = sm.active +ℤ pos 1;
        },
      )
    ]

-- The part of `DeleteSession` under the lock.
unfoldable pub drop_session : SessionManager → Text → SessionManager
drop_session sm session_id = elim (lookup session_id sm.sessions) [
  | none ↦ sm
  | some session ↦ record sm {
    sessions = delete session_id sm.sessions;
    active = sm.active +ℤ negsuc 0;
    closed = sm.closed ++ closed_clients session.clients;
  }
]

unfoldable pub delete_session : SessionManager → Text → Result (Unit {0}) × SessionManager
delete_session sm session_id =
    let dropped = drop_session sm session_id in
    let (deleted, db) = delete_mcp_session dropped.db session_id in
    (deleted, record dropped { db = db })

-- `time.Now().After(expiresAt)`
abbrev pub expired : ℕ → ℕ → Bool
expired now expires_at = ltb expires_at now

-- The branch of `GetSession` for a session in memory.
unfoldable pub refresh : SessionManager → Text → ℕ → Session → Result Session × SessionManager
refresh sm session_id now session =
    let session' : Session = record session { expires_at = now + sm.session_timeout } in
    if expired now session.expires_at then (err not_found, (delete_session sm session_id).1) else (
      ok session',
      record sm {
        sessions = insert session_id session' sm.sessions;
        db = update_mcp_session_activity sm.db session_id now;
      },
    )

-- A user that cannot be read counts as a plain user with no groups.
unfoldable pub role_and_groups : Result User → Text × List Text
role_and_groups (ok user) = (user.role, user.groups)
role_and_groups (err e) = (lit "user", [])

-- The branch of `GetSession` for a row of the database.
unfoldable pub restore : SessionManager → Text → ℕ → McpSession → Result Session × SessionManager
restore sm session_id now row =
    let (role, groups) = role_and_groups (get_user_by_id sm.db row.user_id) in
    let session = new_session row.id row.user_id role groups row.created_at row.expires_at in
    if expired now row.expires_at
    then (err not_found, record sm { db = (delete_mcp_session sm.db session_id).1 })
    else (ok session, record sm { sessions = insert session_id session sm.sessions })

unfoldable pub get_session : SessionManager → Text → ℕ → Result Session × SessionManager
get_session sm session_id now = elim (lookup session_id sm.sessions) [
  | some session ↦ refresh sm session_id now session
  | none ↦ elim (get_mcp_session sm.db session_id) [
    | err e ↦ (err e, sm)
    | ok row ↦ restore sm session_id now row
  ]
]

-- The clients that `cleanup` closes, and the number of sessions that it drops.
unfoldable pub closed_by_cleanup : ℕ → Map Session → List McpClient
closed_by_cleanup now [] = []
closed_by_cleanup now ((id, s) ∷ m) =
    let rest = closed_by_cleanup now m in
    if expired now s.expires_at then closed_clients s.clients ++ rest else rest

unfoldable pub gauge_after_cleanup : ℕ → Map Session → ℤ → ℤ
gauge_after_cleanup now [] active = active
gauge_after_cleanup now ((id, s) ∷ m) active =
    gauge_after_cleanup now m (if expired now s.expires_at then active +ℤ negsuc 0 else active)

unfoldable pub cleanup : SessionManager → ℕ → SessionManager
cleanup sm now = record sm {
  sessions = retain (λ s. not (expired now s.expires_at)) sm.sessions;
  active = gauge_after_cleanup now sm.sessions sm.active;
  closed = sm.closed ++ closed_by_cleanup now sm.sessions;
  db = cleanup_expired_sessions sm.db now;
}

-- The loop of `RecycleUserSessions`: the sessions, the clients closed and the count.
unfoldable pub recycle_matching :
    Text → Text → List Text → Map Session → Map Session × List McpClient × ℕ
recycle_matching user_id role groups [] = ([], [], 0)
recycle_matching user_id role groups ((id, s) ∷ m) =
    let (sessions, closed, count) = recycle_matching user_id role groups m in
    if s.user_id == user_id
    then (
      (id, (recycle s role groups).0) ∷ sessions,
      (recycle s role groups).1 ++ closed,
      count + 1,
    )
    else ((id, s) ∷ sessions, closed, count)

unfoldable pub recycle_user_sessions : SessionManager → Text → ℕ × SessionManager
recycle_user_sessions sm user_id = elim (get_user_by_id sm.db user_id) [
  | err e ↦ (0, sm)
  | ok user ↦
      let (sessions, closed, count) = recycle_matching user_id user.role user.groups sm.sessions in
      (count, record sm { sessions = sessions; closed = sm.closed ++ closed })
]

-- A handler holds a pointer into the map: what it does to the session shows there.
unfoldable pub put_session : SessionManager → Text → Session → SessionManager
put_session sm session_id session = record sm { sessions = insert session_id session sm.sessions }
