-- ===== src/Session/Manager/Recycled.antt =====
-- `RecycleUserSessions` of backend/internal/gateway/session.go.
use reflow_gateway.Base.{◌≡◌, refl, false, none, [], ◌∷◌, keep, length, arith, if◌then◌else◌}
use mathlib.Core.Option
use reflow_gateway.Base.Text.{Text, ◌==◌}
use reflow_gateway.Base.Maps.{Map, lookup}
use reflow_gateway.Base.Results.{ok}
use reflow_gateway.Session.{Session, recycle}
use reflow_gateway.Session.Manager.{
  SessionManager, User, recycle_matching, recycle_user_sessions, get_user_by_id,
}

-- What becomes of one session: the user's has the stored role and groups and starts anew, without
-- clients, targets and mappings; its id, owner and term are as they were.
abbrev pub after_recycle : User → Text → Session → Session
after_recycle user user_id s =
    if s.user_id == user_id
    then record s {
      clients = [];
      target_ids = [];
      tool_map = [];
      resource_map = [];
      prompt_map = [];
      initialized = false;
      capabilities = none;
      role = user.role;
      groups = user.groups;
    }
    else s

lookup-recycle_matching :
    (user : User) (user_id id : Text) (m : Map Session)
    → lookup id (recycle_matching user_id user.role user.groups m).0
      ≡ Option.map (after_recycle user user_id) (lookup id m)
unfolding recycle_matching lookup recycle
lookup-recycle_matching user user_id id [] = refl
lookup-recycle_matching user user_id id ((k, s) ∷ m) =
    ground (arith, lookup-recycle_matching user user_id id m)

count-recycle_matching :
    (user : User) (user_id : Text) (m : Map Session)
    → (recycle_matching user_id user.role user.groups m).2
      ≡ length (keep (λ e. e.1.user_id == user_id) m)
unfolding recycle_matching
count-recycle_matching user user_id [] = refl
count-recycle_matching user user_id ((k, s) ∷ m) =
    ground (arith, count-recycle_matching user user_id m)

-- If the user can be read, `RecycleUserSessions` gives each session of the user the stored
-- role and groups and empties its clients, targets and mappings, with no capabilities and no longer
-- initialized, leaves the other sessions as they were, and returns the number of sessions
-- recycled.
pub recycle_user_sessions_lem :
    (sm : SessionManager) (user_id id : Text) (user : User)
    → get_user_by_id sm.db user_id ≡ ok user
    → (lookup id (recycle_user_sessions sm user_id).1.sessions
        ≡ Option.map (after_recycle user user_id) (lookup id sm.sessions))
      × ((recycle_user_sessions sm user_id).0
          ≡ length (keep (λ e. e.1.user_id == user_id) sm.sessions))
unfolding recycle_user_sessions
recycle_user_sessions_lem sm user_id id user e =
    rw (e, recycle_user_sessions)
      (
        lookup-recycle_matching user user_id id sm.sessions,
        count-recycle_matching user user_id sm.sessions,
      )
