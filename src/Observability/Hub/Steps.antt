-- ===== src/Observability/Hub/Steps.antt =====
-- The channels of the hub: none overflows, none is closed twice.
use reflow_gateway.Base.{ℕ, ◌+◌, ◌≤◌, ◌≡◌, List, [], ◌∷◌, eqb, if◌then◌else◌, length, All}
use reflow_gateway.Base.Text.{Text}
use reflow_gateway.Base.Results.{Result}
use reflow_gateway.Observability.{Float, ActivityEvent}
use reflow_gateway.Observability.Hub.{
  WsClient, Hub, broadcast_capacity, send_capacity, register, unregister, receive_message, publish,
  write_pump, emit_activity, metrics_tick,
}

-- How often a client is held, and how often its channel was closed.
abbrev pub holds : ℕ → List WsClient → ℕ
holds n [] = 0
holds n (c ∷ cs) = (if eqb c.pointer n then 1 else 0) + holds n cs

abbrev pub closes : ℕ → List ℕ → ℕ
closes n [] = 0
closes n (m ∷ ms) = (if eqb m n then 1 else 0) + closes n ms

abbrev pub HasRoom : WsClient → Type 0
HasRoom c = length c.send ≤ send_capacity

-- A client is held once or its channel was closed once, and never both; and no channel holds
-- more than it has room for.
pub record IsSound {F : Type 0} (h : Hub F) : Type 0 where
  pub once : (n : ℕ) → holds n h.clients + closes n h.closed ≤ 1
  pub sends : All HasRoom h.clients
  pub bounded : length h.broadcast ≤ broadcast_capacity

module _ {F : Type 0} (float : Float F) where
  infix 40 ◌⟶◌ ◌⟶*◌
  -- HandleWebSocket registers a client that is new.
  pub data ◌⟶◌ : Hub F → Hub F → Type 0 where
    registers :
        {h : Hub F} (pointer : ℕ)
        → holds pointer h.clients + closes pointer h.closed ≡ 0
        → h ⟶ register pointer h
    unregisters : {h : Hub F} (pointer : ℕ) → h ⟶ unregister pointer h
    receives :
        {h : Hub F} (message : Text) (queued : List Text)
        → h.broadcast ≡ message ∷ queued
        → h ⟶ receive_message message queued h
    publishes : {h : Hub F} (encoded : Result Text) → h ⟶ publish encoded h
    writes : {h : Hub F} (pointer : ℕ) → h ⟶ write_pump pointer h
    emits :
        {h : Hub F} (e : ActivityEvent F) (encoded : Result Text) → h ⟶ emit_activity e encoded h
    ticks : {h : Hub F} (now : ℕ) (encoded : Result Text) → h ⟶ metrics_tick float now encoded h

  pub data ◌⟶*◌ : Hub F → Hub F → Type 0 where
    here : {h : Hub F} → h ⟶* h
    after : {h k l : Hub F} → h ⟶* k → k ⟶ l → h ⟶* l
