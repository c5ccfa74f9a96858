-- ===== src/Session/Manager/Lifecycle.antt =====
-- Creating, restoring and dropping sessions: the counter of active sessions, and a session whose
-- row is gone (backend/internal/gateway/session.go).
use reflow_gateway.Base.{
  ℕ, suc, ◌+◌, ◌≡◌, refl, ◌∙◌, ap, inl, inr, not, none, List, [], ◌∷◌, length, Bool-cases,
  Option-cases, arith,
}
use reflow_gateway.Base.Int.{pos, negsuc, ◌+ℤ◌}
use reflow_gateway.Base.Text.{Text}
use reflow_gateway.Base.Maps.{Map, IsMap, lookup, delete, retain, length-insert, length-delete}
use reflow_gateway.Base.Results.{Result-cases}
use reflow_gateway.Session.{Session, new_session}
use reflow_gateway.Session.Manager.{
  SessionManager, create_session, create_mcp_session, drop_session, delete_session, cleanup,
  gauge_after_cleanup, expired,
}

add_one : (n : ℕ) → pos n +ℤ pos 1 ≡ pos (suc n)
unfolding ◌+ℤ◌
add_one n = ground arith

sub_one : (n : ℕ) → pos (suc n) +ℤ negsuc 0 ≡ pos n
unfolding ◌+ℤ◌
sub_one n = ground arith

-- The counter is the number of sessions in memory.
abbrev pub IsCounted : SessionManager → Type 0
IsCounted sm = sm.active ≡ pos (length sm.sessions)

create_session-IsCounted :
    (sm : SessionManager) (id : Text) (now : ℕ) (user_id role : Text) (groups : List Text)
    → lookup id sm.sessions ≡ none
    → IsCounted sm
    → IsCounted (create_session sm id now user_id role groups).1
unfolding create_session
create_session-IsCounted sm id now user_id role groups fresh c =
    elim (Result-cases (create_mcp_session sm.db id user_id now (now + sm.session_timeout)).0) [
      | inl (x, e) ↦ ground (arith, e)
      | inr (row, e) ↦ ground (
        arith,
        e,
        add_one (length sm.sessions),
        length-insert id (new_session id user_id role groups now (now + sm.session_timeout))
            sm.sessions,
      )
    ]

delete_session-IsCounted :
    (sm : SessionManager) (id : Text)
    → IsMap sm.sessions
    → IsCounted sm
    → IsCounted (delete_session sm id).1
unfolding delete_session drop_session
delete_session-IsCounted sm id m c = elim (Option-cases (lookup id sm.sessions)) [
  | inl e ↦ rw (e, drop_session) c
  | inr (s, e) ↦
      rw (e, drop_session)
        (ground
          (arith, e, length-delete id sm.sessions m, sub_one (length (delete id sm.sessions))))
]

shift_down : (n k : ℕ) → pos (suc n + k) +ℤ negsuc 0 ≡ pos (n + k)
unfolding ◌+ℤ◌
shift_down n k = ground arith

shift_right : (n k : ℕ) → suc n + k ≡ n + suc k
shift_right n k = omega arith

gauge_cleanup :
    (now : ℕ) (m : Map Session) (k : ℕ)
    → gauge_after_cleanup now m (pos (length m + k))
      ≡ pos (length (retain (λ s. not (expired now s.expires_at)) m) + k)
unfolding gauge_after_cleanup retain
gauge_cleanup now [] k = refl
gauge_cleanup now ((id, s) ∷ m) k = elim (Bool-cases (expired now s.expires_at)) [
  | inl over ↦ rw over (rw (shift_down (length m) k) (gauge_cleanup now m k))
  | inr live ↦
      rw live (rw (shift_right (length m) k) (gauge_cleanup now m (suc k) ∙ ap pos (omega arith)))
]

cleanup-IsCounted : (sm : SessionManager) (now : ℕ) → IsCounted sm → IsCounted (cleanup sm now)
unfolding cleanup
cleanup-IsCounted sm now c =
    ap (gauge_after_cleanup now sm.sessions) (c ∙ ap pos (omega arith))
    ∙ gauge_cleanup now sm.sessions 0
    ∙ ap pos (omega arith)

-- Creating a session under a fresh id, deleting one and cleaning up keep the counter of active
-- sessions equal to the number of sessions in memory, in a session map with distinct ids.
pub operations-IsCounted :
    (sm : SessionManager) (id : Text) (now : ℕ) (user_id role : Text) (groups : List Text)
    → IsMap sm.sessions
    → IsCounted sm
    → (lookup id sm.sessions ≡ none → IsCounted (create_session sm id now user_id role groups).1)
      × IsCounted (delete_session sm id).1
      × IsCounted (cleanup sm now)
operations-IsCounted sm id now user_id role groups m c = (
  λ fresh. create_session-IsCounted sm id now user_id role groups fresh c,
  delete_session-IsCounted sm id m c,
  cleanup-IsCounted sm now c,
)
