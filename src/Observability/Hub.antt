-- ===== src/Observability/Hub.antt =====
-- backend/internal/observability/hub.go: the hub of the WebSocket clients of the dashboard. A
-- client is known by a number that stands for its pointer; a channel is the list of what it holds.
pub mod Steps
use reflow_gateway.Base.{
  ℕ, ◌+◌, Bool, Option, none, some, List, [], ◌∷◌, ◌++◌, ltb, eqb, if◌then◌else◌, length, any, keep,
}
use reflow_gateway.Base.Text.{Text}
use reflow_gateway.Base.Results.{Result, ok, err}
use reflow_gateway.Observability.{
  Float, ActivityEvent, Aggregator, new_aggregator, record_event, snapshot,
}

-- wsClient: `send` holds the messages that writePump has still to write.
pub record WsClient : Type 0 where
  pub pointer : ℕ
  pub send : List Text

-- `closed` holds the clients whose channel `send` was closed, once for each time.
pub record Hub (F : Type 0) : Type 0 where
  pub clients : List WsClient
  pub broadcast : List Text
  pub closed : List ℕ
  pub aggregator : Aggregator F

abbrev pub broadcast_capacity : ℕ
broadcast_capacity = 256

abbrev pub send_capacity : ℕ
send_capacity = 64

-- h.clients[client]
abbrev pub is_client : ℕ → List WsClient → Bool
is_client pointer = any (λ c. eqb c.pointer pointer)

-- delete(h.clients, client)
unfoldable pub without : ℕ → List WsClient → List WsClient
without pointer [] = []
without pointer (c ∷ cs) =
    let rest = without pointer cs in if eqb c.pointer pointer then rest else c ∷ rest

-- What a message does to the clients: each that has room gets it, the others are dropped.
unfoldable pub offer : Text → List WsClient → List WsClient
offer message [] = []
offer message (c ∷ cs) =
    let rest = offer message cs in
    if ltb (length c.send) send_capacity
    then record c { send = c.send ++ message ∷ [] } ∷ rest
    else rest

unfoldable pub full : List WsClient → List ℕ
full [] = []
full (c ∷ cs) =
    let rest = full cs in if ltb (length c.send) send_capacity then rest else c.pointer ∷ rest

-- writePump writes the first message of a client's channel.
unfoldable pub written : ℕ → List WsClient → List WsClient
written pointer [] = []
written pointer (c ∷ cs) =
    let rest = written pointer cs in
    if eqb c.pointer pointer
    then elim c.send [ [] ↦ c ∷ cs | m ∷ ms ↦ record c { send = ms } ∷ cs ]
    else c ∷ rest

module _ {F : Type 0} where
  unfoldable pub new_hub : Hub F
  new_hub = record { clients = []; broadcast = []; closed = []; aggregator = new_aggregator }

  -- The three cases of `run`.
  unfoldable pub register : ℕ → Hub F → Hub F
  register pointer h = record h { clients = record { pointer = pointer; send = [] } ∷ h.clients }

  unfoldable pub unregister : ℕ → Hub F → Hub F
  unregister pointer h =
      if is_client pointer h.clients
      then record h { clients = without pointer h.clients; closed = pointer ∷ h.closed }
      else h

  unfoldable pub receive_message : Text → List Text → Hub F → Hub F
  receive_message message queued h = record h {
    clients = offer message h.clients;
    broadcast = queued;
    closed = full h.clients ++ h.closed;
  }

  -- Publish, of an event that json.Marshal has encoded: dropped when the buffer is full, and
  -- when it does not encode.
  unfoldable pub publish : Result Text → Hub F → Hub F
  publish (err e) h = h
  publish (ok encoded) h =
      if ltb (length h.broadcast) broadcast_capacity
      then record h { broadcast = h.broadcast ++ encoded ∷ [] }
      else h

  unfoldable pub write_pump : ℕ → Hub F → Hub F
  write_pump pointer h = record h { clients = written pointer h.clients }

  -- EmitActivity
  unfoldable pub emit_activity : ActivityEvent F → Result Text → Hub F → Hub F
  emit_activity e encoded h =
      publish encoded (record h { aggregator = record_event e h.aggregator })

  -- A tick of metricsLoop: nothing is computed while no client listens.
  unfoldable pub metrics_tick : Float F → ℕ → Result Text → Hub F → Hub F
  metrics_tick float now encoded h =
      if eqb (length h.clients) 0
      then h
      else publish encoded (record h { aggregator = (snapshot float now h.aggregator).1 })
