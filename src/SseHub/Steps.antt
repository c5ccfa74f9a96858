-- ===== src/SseHub/Steps.antt =====
-- The steps of a hub, as its callers, its goroutine and the removals interleave.
use reflow_gateway.Base.{
  ◌≤◌, ◌≡◌, refl, subst, arith, Bool-cases, inl, inr, true, false, none, some, Option-cases, List,
  [], ◌∷◌, ◌++◌, length, length-append, All, All-append, ltb,
}
use reflow_gateway.Base.Text.{Text}
use reflow_gateway.Base.Maps.{Map, lookup, insert, delete, IsMap, insert-IsMap, delete-IsMap}
use reflow_gateway.Sse.{SseEvent}
use reflow_gateway.Sse.Writer.{SseWriter}
use reflow_gateway.SseHub.{
  SseConnection, SseHub, capacity, new_sse_hub, add_connection, remove_connection, broadcast_event,
  write_to, write_to_all, receive, deliver, shut, broadcast_notification, all_closed, close,
}

infix 40 ◌⟶◌ ◌⟶*◌
pub data ◌⟶◌ : SseHub → SseHub → Type 0 where
  adds : {h : SseHub} (id : Text) (w : SseWriter) → h ⟶ add_connection id w h
  removes : {h : SseHub} (id : Text) → h ⟶ remove_connection id h
  broadcasts : {h : SseHub} (e : SseEvent) → h ⟶ broadcast_event e h
  notifies : {h : SseHub} (encoded : Text) → h ⟶ broadcast_notification encoded h
  delivers : {h : SseHub} → h.running ≡ true → h ⟶ deliver h
  -- a goroutine that a failed write has started
  leaves :
      {h : SseHub} (id : Text) (before after : List Text)
      → h.leaving ≡ before ++ id ∷ after
      → h ⟶ remove_connection id (record h { leaving = before ++ after })
  closes : {h k : SseHub} → close h ≡ some k → h ⟶ k
  stops : {h : SseHub} → h.done ≡ true → h ⟶ record h { running = false }

pub data ◌⟶*◌ : SseHub → SseHub → Type 0 where
  here : {h : SseHub} → h ⟶* h
  then : {h k l : SseHub} → h ⟶* k → k ⟶ l → h ⟶* l

-- A connection's id is its key, and its Done channel is open.
abbrev pub Held : Text × SseConnection → Type 0
Held (id, conn) = (conn.id ≡ id) × (conn.done ≡ false)

abbrev pub Over : SseConnection → Type 0
Over conn = conn.done ≡ true

pub record IsHub (h : SseHub) : Type 0 where
  pub keys : IsMap h.connections
  pub held : All Held h.connections
  pub gone_closed : All Over h.gone
  pub bounded : length h.broadcast ≤ capacity

pub lookup-write_to_all :
    (e : SseEvent) (k : Text) (conns : Map SseConnection)
    → lookup k (write_to_all e conns)
      ≡ elim (lookup k conns) [ none ↦ none | some conn ↦ some (write_to e conn) ]
unfolding lookup write_to_all
lookup-write_to_all e k [] = refl
lookup-write_to_all e k ((id, conn) ∷ conns) = ground (arith, lookup-write_to_all e k conns)

write_to_all-IsMap :
    (e : SseEvent) (conns : Map SseConnection) → IsMap conns → IsMap (write_to_all e conns)
unfolding write_to_all
write_to_all-IsMap e [] h = tt
write_to_all-IsMap e ((id, conn) ∷ conns) h =
    (rw (lookup-write_to_all e id conns, h.0) refl, write_to_all-IsMap e conns h.1)

write_to_all-Held :
    (e : SseEvent) (conns : Map SseConnection) → All Held conns → All Held (write_to_all e conns)
unfolding write_to_all write_to
write_to_all-Held e [] h = tt
write_to_all-Held e ((id, conn) ∷ conns) h = (h.0, write_to_all-Held e conns h.1)

insert-Held :
    (id : Text) (conn : SseConnection) (conns : Map SseConnection)
    → Held (id, conn)
    → All Held conns
    → All Held (insert id conn conns)
unfolding insert
insert-Held id conn [] h hs = (h, tt)
insert-Held id conn ((j, c) ∷ conns) h hs = ground (arith, insert-Held id conn conns h hs.1)

delete-Held : (id : Text) (conns : Map SseConnection) → All Held conns → All Held (delete id conns)
unfolding delete
delete-Held id [] hs = tt
delete-Held id ((j, c) ∷ conns) hs = ground (arith, delete-Held id conns hs.1)

all_closed-Over : (conns : Map SseConnection) → All Over (all_closed conns)
all_closed-Over [] = tt
all_closed-Over ((id, conn) ∷ conns) = (refl, all_closed-Over conns)

new_sse_hub-IsHub : (session_id : Text) → IsHub (new_sse_hub session_id)
unfolding new_sse_hub
new_sse_hub-IsHub session_id = record {
  keys = tt;
  held = tt;
  gone_closed = tt;
  bounded = omega arith;
}

add_connection-IsHub :
    (id : Text) (w : SseWriter) (h : SseHub) → IsHub h → IsHub (add_connection id w h)
unfolding add_connection
add_connection-IsHub id w h k = record {
  keys = insert-IsMap id _ h.connections k.keys;
  held = insert-Held id _ h.connections (refl, refl) k.held;
  gone_closed = k.gone_closed;
  bounded = k.bounded;
}

remove_connection-IsHub : (id : Text) (h : SseHub) → IsHub h → IsHub (remove_connection id h)
unfolding remove_connection
remove_connection-IsHub id h k = elim (Option-cases (lookup id h.connections)) [
  | inl n ↦ rw (n, remove_connection) k
  | inr (conn, c) ↦
      rw (c, remove_connection)
        (record {
          keys = delete-IsMap id h.connections k.keys;
          held = delete-Held id h.connections k.held;
          gone_closed = (refl, k.gone_closed);
          bounded = k.bounded;
        })
]

broadcast_event-IsHub : (e : SseEvent) (h : SseHub) → IsHub h → IsHub (broadcast_event e h)
unfolding broadcast_event
broadcast_event-IsHub e h k = elim (Bool-cases (ltb (length h.broadcast) capacity)) [
  | inl t ↦
      rw (t, broadcast_event)
        (record {
          keys = k.keys;
          held = k.held;
          gone_closed = k.gone_closed;
          bounded = ground (arith, t, length-append h.broadcast (e ∷ []));
        })
  | inr f ↦ rw (f, broadcast_event) k
]

broadcast_notification-IsHub :
    (encoded : Text) (h : SseHub) → IsHub h → IsHub (broadcast_notification encoded h)
unfolding broadcast_notification
broadcast_notification-IsHub encoded h k = record {
  keys = write_to_all-IsMap _ h.connections k.keys;
  held = write_to_all-Held _ h.connections k.held;
  gone_closed = k.gone_closed;
  bounded = k.bounded;
}

receive-IsHub :
    (queue : List SseEvent) (h : SseHub)
    → length queue ≤ capacity
    → IsHub h
    → IsHub (receive queue h)
unfolding receive
receive-IsHub [] h l k = k
receive-IsHub (e ∷ queued) h l k = record {
  keys = write_to_all-IsMap e h.connections k.keys;
  held = write_to_all-Held e h.connections k.held;
  gone_closed = k.gone_closed;
  bounded = omega (arith, l);
}

shut-IsHub : (h : SseHub) → IsHub h → IsHub (shut h)
unfolding shut
shut-IsHub h inv = record {
  keys = tt;
  held = tt;
  gone_closed =
      All-append Over (all_closed h.connections) h.gone (all_closed-Over h.connections)
        inv.gone_closed;
  bounded = inv.bounded;
}

close-shut : (h k : SseHub) → close h ≡ some k → shut h ≡ k
unfolding close
close-shut h k e = elim (Bool-cases h.done) [
  | inl t ↦ let e' = rw t at e in cc
  | inr f ↦ let e' = rw f at e in cc
]

⟶-IsHub : {h k : SseHub} → h ⟶ k → IsHub h → IsHub k
unfolding deliver
⟶-IsHub {h} (adds id w) inv = add_connection-IsHub id w h inv
⟶-IsHub {h} (removes id) inv = remove_connection-IsHub id h inv
⟶-IsHub {h} (broadcasts e) inv = broadcast_event-IsHub e h inv
⟶-IsHub {h} (notifies encoded) inv = broadcast_notification-IsHub encoded h inv
⟶-IsHub {h} (delivers r) inv = receive-IsHub h.broadcast h inv.bounded inv
⟶-IsHub {h} (leaves id before after e) inv =
    remove_connection-IsHub id (record h { leaving = before ++ after })
      (record {
        keys = inv.keys;
        held = inv.held;
        gone_closed = inv.gone_closed;
        bounded = inv.bounded;
      })
⟶-IsHub {h} {k} (closes e) inv = subst IsHub (close-shut h k e) (shut-IsHub h inv)
⟶-IsHub {h} (stops d) inv = record {
  keys = inv.keys;
  held = inv.held;
  gone_closed = inv.gone_closed;
  bounded = inv.bounded;
}

⟶*-IsHub : {g h : SseHub} → g ⟶* h → IsHub g → IsHub h
⟶*-IsHub here inv = inv
⟶*-IsHub (then steps s) inv = ⟶-IsHub s (⟶*-IsHub steps inv)

-- Whatever happens to a hub, in whatever order: its connections have distinct ids and open
-- channels, those that are gone are closed, and no more events wait than the channel holds.
pub reachable-IsHub : (session_id : Text) {h : SseHub} → new_sse_hub session_id ⟶* h → IsHub h
reachable-IsHub session_id steps = ⟶*-IsHub steps (new_sse_hub-IsHub session_id)
