-- ===== src/SseHub.antt =====
-- backend/internal/gateway/sse.go: the hubs that broadcast events to a session's connections.
-- A channel is the list of what it holds; a Done channel is a flag that says if it is closed.
pub mod Steps
pub mod Delivered
use reflow_gateway.Base.{
  ℕ, zero, suc, Bool, true, false, not, ◌&&◌, Option, none, some, List, [], ◌∷◌, ◌++◌, ltb,
  if◌then◌else◌, length,
}
use reflow_gateway.Base.Text.{Text, lit, ◌==◌}
use reflow_gateway.Base.Maps.{Map, lookup, insert, delete}
use reflow_gateway.Sse.{SseEvent}
use reflow_gateway.Base.Int.{pos}
use reflow_gateway.Sse.Writer.{SseWriter, write_event}

pub record SseConnection : Type 0 where
  pub id : Text
  pub writer : SseWriter
  pub done : Bool

-- `leaving` holds the ids of the goroutines `go h.RemoveConnection(id)` that are to run, `gone`
-- the connections that are no longer held, `running` says that the goroutine of `run` goes on.
pub record SseHub : Type 0 where
  pub session_id : Text
  pub connections : Map SseConnection
  pub broadcast : List SseEvent
  pub done : Bool
  pub running : Bool
  pub leaving : List Text
  pub gone : List SseConnection

-- make(chan *mcp.SSEEvent, 100)
abbrev pub capacity : ℕ
capacity = 100

unfoldable pub new_sse_hub : Text → SseHub
new_sse_hub session_id = record {
  session_id = session_id;
  connections = [];
  broadcast = [];
  done = false;
  running = true;
  leaving = [];
  gone = [];
}

unfoldable pub add_connection : Text → SseWriter → SseHub → SseHub
add_connection id writer h = record h {
  connections = insert id (record { id = id; writer = writer; done = false }) h.connections;
}

-- close(conn.Done)
abbrev pub close_done : SseConnection → SseConnection
close_done conn = record conn { done = true }

unfoldable pub remove_connection : Text → SseHub → SseHub
remove_connection id h = elim (lookup id h.connections) [
  | none ↦ h
  | some conn ↦ record h { connections = delete id h.connections; gone = close_done conn ∷ h.gone }
]

-- Broadcast drops the event when the channel is full.
unfoldable pub broadcast_event : SseEvent → SseHub → SseHub
broadcast_event e h =
    if ltb (length h.broadcast) capacity then record h { broadcast = h.broadcast ++ e ∷ [] } else h

-- conn.Writer.WriteEvent(event)
unfoldable pub write_to : SseEvent → SseConnection → SseConnection
write_to e conn = record conn { writer = (write_event e conn.writer).1 }

unfoldable pub write_to_all : SseEvent → Map SseConnection → Map SseConnection
write_to_all e [] = []
write_to_all e ((id, conn) ∷ conns) = (id, write_to e conn) ∷ write_to_all e conns

-- The connections whose write fails.
unfoldable pub failing : SseEvent → Map SseConnection → List Text
failing e [] = []
failing e ((id, conn) ∷ conns) =
    let rest = failing e conns in if (write_event e conn.writer).0 then rest else id ∷ rest

-- One turn of `run` that receives an event; it waits while there is none.
unfoldable pub receive : List SseEvent → SseHub → SseHub
receive [] h = h
receive (e ∷ queued) h = record h {
  connections = write_to_all e h.connections;
  broadcast = queued;
  leaving = h.leaving ++ failing e h.connections;
}

unfoldable pub deliver : SseHub → SseHub
deliver h = receive h.broadcast h

-- BroadcastNotification, of a notification as json.Marshal encodes it: a failing write is
-- logged only.
unfoldable pub broadcast_notification : Text → SseHub → SseHub
broadcast_notification encoded h = record h {
  connections =
      write_to_all (record { event = lit "message"; event_data = encoded; id = []; retry = pos 0 })
        h.connections;
}

abbrev pub all_closed : Map SseConnection → List SseConnection
all_closed [] = []
all_closed ((id, conn) ∷ conns) = close_done conn ∷ all_closed conns

-- What Close does to the connections.
unfoldable pub shut : SseHub → SseHub
shut h = record h { done = true; connections = []; gone = all_closed h.connections ++ h.gone }

-- Close; none where Go panics, since the channel `done` is closed already.
unfoldable pub close : SseHub → Option SseHub
close h = if h.done then none else some (shut h)

unfoldable pub connection_count : SseHub → ℕ
connection_count h = length h.connections

pub record SseManager : Type 0 where
  pub hubs : Map SseHub

unfoldable pub new_sse_manager : SseManager
new_sse_manager = record { hubs = [] }

unfoldable pub get_or_create_hub : Text → SseManager → SseHub × SseManager
get_or_create_hub session_id m = elim (lookup session_id m.hubs) [
  | some hub ↦ (hub, m)
  | none ↦ (
    new_sse_hub session_id,
    record m { hubs = insert session_id (new_sse_hub session_id) m.hubs },
  )
]

-- RemoveHub; none where closing the hub panics.
unfoldable pub remove_hub : Text → SseManager → Option SseManager
remove_hub session_id m = elim (lookup session_id m.hubs) [
  | none ↦ some m
  | some hub ↦ elim (close hub) [
    | none ↦ none
    | some _ ↦ some (record m { hubs = delete session_id m.hubs })
  ]
]

unfoldable pub broadcast_to_session : Text → SseEvent → SseManager → SseManager
broadcast_to_session session_id e m = elim (lookup session_id m.hubs) [
  | none ↦ m
  | some hub ↦ record m { hubs = insert session_id (broadcast_event e hub) m.hubs }
]

-- The loop of HandleUpstreamEvents over the events that come before the end of the context or
-- of the channel.
unfoldable pub handle_upstream_events : List SseEvent → SseHub → SseHub
handle_upstream_events [] hub = hub
handle_upstream_events (e ∷ events) hub = handle_upstream_events events (broadcast_event e hub)
