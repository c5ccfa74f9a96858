-- ===== src/Tests/SseHubTests.antt =====
-- A hub with one connection, and a manager with one hub.
use reflow_gateway.Base.{◌≡◌, ◌≤◌, refl, arith, false, none, some, [], ◌++◌, map, length}
use reflow_gateway.Base.Text.{lit, ◌==◌}
use reflow_gateway.Base.Split.{split}
use reflow_gateway.Base.Concat.{concat}
use reflow_gateway.Base.Maps.{lookup, insert}
use reflow_gateway.Sse.Writer.{SseWriter, event_writes, optional_line, retry_line}
use reflow_gateway.Sse.Written.{wire}
use reflow_gateway.Sse.Relayed.{rounds}
use reflow_gateway.SseHub.{
  SseConnection, SseHub, new_sse_hub, add_connection, broadcast_event, deliver, close, shut,
}
use reflow_gateway.SseHub.Steps.{
  ◌⟶*◌, here, then, adds, broadcasts, delivers, IsHub, reachable-IsHub,
}
use reflow_gateway.SseHub.Delivered.{turns, deliver-all}
use reflow_gateway.Tests.SseTests.{greeting, writer}

abbrev broken_writer : SseWriter
broken_writer = record { sent = []; flushed = []; accepts = 0 }

abbrev connected : SseWriter → SseHub
connected w = broadcast_event greeting (add_connection (lit "c1") w (new_sse_hub (lit "s1")))

abbrev conn : SseWriter → SseConnection
conn w = record { id = lit "c1"; writer = w; done = false }

path : new_sse_hub (lit "s1") ⟶* deliver (connected writer)
unfolding new_sse_hub add_connection broadcast_event
path = then (then (then here (adds (lit "c1") writer)) (broadcasts greeting)) (delivers refl)

reachable-IsHub_example : IsHub (deliver (connected writer))
reachable-IsHub_example = reachable-IsHub (lit "s1") path

found : (w : SseWriter) → lookup (lit "c1") (connected w).connections ≡ some (conn w)
unfolding new_sse_hub add_connection broadcast_event lookup insert ◌==◌ lit
found w = refl

fits : rounds (connected writer).broadcast ≤ 20
unfolding rounds event_writes optional_line retry_line lit ◌==◌ split new_sse_hub add_connection
    broadcast_event
fits = omega arith

deliver-all_example :
    ((turns (length (connected writer).broadcast) (connected writer)).broadcast ≡ [])
    × ((c : SseConnection) × (lookup
            (lit "c1")
            (turns (length (connected writer).broadcast) (connected writer)).connections
          ≡ some c)
        × (c.writer.sent ≡ [] ++ concat (map wire (connected writer).broadcast)))
deliver-all_example = deliver-all (connected writer) (lit "c1") (conn writer) (found writer) fits

-- A hub that is closed twice panics.
closed_twice : close (shut (new_sse_hub (lit "s1"))) ≡ none
unfolding close shut new_sse_hub
closed_twice = refl
