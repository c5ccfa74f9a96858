-- ===== src/Tests/SessionTests.antt =====
-- Sessions and their manager at concrete states.
use reflow_gateway.Base.{◌+◌, ◌≤◌, ◌≡◌, refl, ◌↔◌, ◌⊎◌, false, some, [], ◌∷◌, keep, length, arith}
use mathlib.Core.Option
use reflow_gateway.Base.Text.{lit, ◌==◌}
use reflow_gateway.Base.Maps.{IsMap, lookup}
use reflow_gateway.Base.Results.{ok, err, not_found}
use reflow_gateway.Mcp.{http_client}
use reflow_gateway.Session.{Session, needs_recycle, some_missing, recycle, closed_clients}
use reflow_gateway.Session.Identity.{IsDistinct, Within, needs_recycle_iff}
use reflow_gateway.Session.Manager.{
  SessionManager, get_session, refresh, delete_session, cleanup, recycle_user_sessions,
  get_user_by_id, new_session_manager,
}
use reflow_gateway.Session.Manager.Expiry.{Refreshed, Restored, get_session_live, lookup-cleanup}
use reflow_gateway.Session.Manager.Lifecycle.{IsCounted, operations-IsCounted}
use reflow_gateway.Session.Manager.Outlived.{delete_session_outlived}
use reflow_gateway.Session.Manager.Recycled.{after_recycle, recycle_user_sessions_lem}
use reflow_gateway.Tests.Fixtures.{database, user_row, session_row, session, connected, manager}

groups-IsDistinct : IsDistinct (lit "dev" ∷ lit "ops" ∷ [])
unfolding ◌==◌ lit
groups-IsDistinct = (refl, (refl, tt))

swapped-IsDistinct : IsDistinct (lit "ops" ∷ lit "dev" ∷ [])
unfolding ◌==◌ lit
swapped-IsDistinct = (refl, (refl, tt))

needs_recycle_iff_example :
    (needs_recycle session (lit "user") (lit "ops" ∷ lit "dev" ∷ []) ≡ false) ↔ (
      (session.role ≡ lit "user")
      × Within (lit "ops" ∷ lit "dev" ∷ []) session.groups
      × Within session.groups (lit "ops" ∷ lit "dev" ∷ []))
needs_recycle_iff_example =
    needs_recycle_iff session (lit "user") (lit "ops" ∷ lit "dev" ∷ []) groups-IsDistinct
      swapped-IsDistinct

order_ignored : needs_recycle session (lit "user") (lit "ops" ∷ lit "dev" ∷ []) ≡ false
unfolding needs_recycle some_missing ◌==◌ lit
order_ignored = refl

refreshed : Session
refreshed = record connected { expires_at = 20 + 30 }

get_session-refreshed : (get_session manager (lit "s1") 20).0 ≡ ok refreshed
unfolding get_session refresh lookup ◌==◌ lit refreshed
get_session-refreshed = refl

get_session_live_example :
    (lookup (lit "s1") (get_session manager (lit "s1") 20).1.sessions ≡ some refreshed)
    × (Refreshed manager (lit "s1") 20 refreshed ⊎ Restored manager (lit "s1") 20 refreshed)
get_session_live_example = get_session_live manager (lit "s1") 20 refreshed get_session-refreshed

manager-IsMap : IsMap manager.sessions
unfolding lookup
manager-IsMap = (refl, tt)

lookup-cleanup_example :
    (lookup (lit "s1") (cleanup manager 31).sessions ≡ some connected)
    ↔ ((lookup (lit "s1") manager.sessions ≡ some connected) × (31 ≤ connected.expires_at))
lookup-cleanup_example = lookup-cleanup manager 31 (lit "s1") connected manager-IsMap

operations-IsCounted_example : IsCounted (cleanup manager 31)
operations-IsCounted_example =
    (operations-IsCounted manager (lit "s2") 31 (lit "u1") (lit "user") [] manager-IsMap refl).2

-- The manager after a restart of the gateway.
abbrev restarted : SessionManager
restarted = new_session_manager database 30

-- A session in use at 20 is in memory until 50, its row until 30: at 40 the client cannot end it.
delete_session_outlived_example :
    (delete_session (cleanup (get_session manager (lit "s1") 20).1 40) (lit "s1")).0 ≡ err not_found
unfolding lookup ◌==◌ lit
delete_session_outlived_example =
    (delete_session_outlived manager (lit "s1") connected session_row 20 40 manager-IsMap (refl, tt)
      refl refl refl (omega arith) (omega arith) (omega arith)).1

recycle_user_sessions_lem_example :
    (lookup (lit "s1") (recycle_user_sessions manager (lit "u1")).1.sessions
      ≡ Option.map (after_recycle user_row (lit "u1")) (lookup (lit "s1") manager.sessions))
    × ((recycle_user_sessions manager (lit "u1")).0
        ≡ length (keep (λ e. e.1.user_id == lit "u1") manager.sessions))
unfolding get_user_by_id lookup ◌==◌ lit
recycle_user_sessions_lem_example =
    recycle_user_sessions_lem manager (lit "u1") (lit "s1") user_row refl

-- Only the HTTP client is closed.
recycle_closes : (recycle connected (lit "user") []).1 ≡ http_client 1 ∷ []
unfolding recycle closed_clients
recycle_closes = refl
