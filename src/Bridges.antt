-- ===== src/Bridges.antt =====
-- The network bridges of a socket: bridgeSet and handleNetwork of shellagent/network_bridge.go, and the
-- update gate of shellagent/agent.go that they share.
pub mod Counted
pub mod Updates
use dynapp_agent.Prelude.{
  ℕ, zero, suc, ◌+◌, ◌-◌, String, Bool, true, false, ◌||◌, ◌&&◌, List, [], ◌∷◌, ◌++◌, ◌==◌, not,
  if◌then◌else◌, Option, none, some, leb, ltb, length, map, keep_if, any_of,
}
use dynapp_agent.Text.{trim_space, cut_at}
use dynapp_agent.Types.Numbers.{ℤ, pos, negsuc, ltb_ℤ, is_zero}

-- bridgeRecord, under the id that it has in the map. Connections and carriers are known by a number.
pub record Bridge : Type 0 where
  pub id : String
  pub connection : ℕ
  pub carrier : ℕ
  pub protocol : String
  pub mode : String

-- What the agent does to connections and to the socket.
pub data Event : Type 0 where
  closed : ℕ → Event
  wrote : ℕ → Event
  opened : String → Event
  net_error : String → Event
  forwards : String → Event
  nil_dereference : Event

-- The part of Server that bridges and updates share, and what was done so far, latest first.
pub record Server : Type 0 where
  pub active : ℤ
  pub update_pending : Bool
  pub counter : ℕ
  pub events : List Event

abbrev pub Bridges : Type 0
Bridges = List Bridge

unfoldable pub emit : Event → Server → Server
emit event server = record server { events = event ∷ server.events }

-- atomic.Int64.Add of a positive and of a negative number.
unfoldable pub add_to : ℕ → ℤ → ℤ
add_to n (pos m) = pos (m + n)
add_to n (negsuc m) = if ltb m n then pos (n - suc m) else negsuc (m - n)

unfoldable pub take_from : ℕ → ℤ → ℤ
take_from n (pos m) = if leb n m then pos (m - n) else negsuc (n - m - 1)
take_from n (negsuc m) = negsuc (m + n)

-- set.items[id]
unfoldable pub find_bridge : String → Bridges → Option Bridge
find_bridge id [] = none
find_bridge id (b ∷ items) = let rest = find_bridge id items in if b.id == id then some b else rest

-- delete(set.items, id)
unfoldable pub drop_bridge : String → Bridges → Bridges
drop_bridge id items = keep_if (λ (b : Bridge). not (b.id == id)) items

-- bridgeSet.put, of a set that counts its bridges. An entry under the same id is replaced.
unfoldable pub put : String → ℕ → ℕ → Bridges → Server → Bridges × Server
unfolding add_to drop_bridge
put id connection carrier items server =
    let protocol : String = elim (cut_at b'_' id) [ none ↦ id | some (before, after) ↦ before ] in
    let entry : Bridge = record {
      id = id;
      connection = connection;
      carrier = carrier;
      protocol = protocol;
      mode = "";
    } in
    (entry ∷ drop_bridge id items, record server { active = add_to 1 server.active })

-- bridgeSet.get
unfoldable pub get : String → Bridges → Option ℕ
unfolding find_bridge
get id items = elim (find_bridge id items) [ none ↦ none | some b ↦ some b.connection ]

-- The entry under an id, changed in place.
unfoldable pub change : String → (Bridge → Bridge) → Bridges → Bridges
change id f [] = []
change id f (b ∷ items) = (if b.id == id then f b else b) ∷ change id f items

-- bridgeSet.bind
unfoldable pub bind : String → ℕ → String → Bridges → Bool × Bridges
unfolding change find_bridge
bind id carrier mode items = elim (find_bridge id items) [
  | none ↦ (false, items)
  | some b ↦ (true, change id (λ (b : Bridge). record b { carrier = carrier; mode = mode }) items)
]

-- bridgeSet.bindDatagrams
unfoldable pub bind_datagrams : String → Bridges → Bool × Bridges
unfolding change find_bridge
bind_datagrams id items = elim (find_bridge id items) [
  | none ↦ (false, items)
  | some b ↦
      if b.protocol == "udp"
      then (true, change id (λ (b : Bridge). record b { mode = "datagram" }) items)
      else (false, items)
]

-- bridgeSet.delivery
unfoldable pub delivery : String → Bridges → Option (ℕ × String)
unfolding find_bridge
delivery id items = elim (find_bridge id items) [ none ↦ none | some b ↦ some (b.carrier, b.mode) ]

-- bridgeSet.take
unfoldable pub take : String → Bridges → Server → Option ℕ × Bridges × Server
unfolding find_bridge drop_bridge take_from
take id items server = elim (find_bridge id items) [
  | none ↦ (none, drop_bridge id items, server)
  | some b ↦ (
    some b.connection,
    drop_bridge id items,
    record server { active = take_from 1 server.active },
  )
]

close_each : Bridges → List Event
close_each [] = []
close_each (b ∷ items) = closed b.connection ∷ close_each items

-- bridgeSet.closeAll
unfoldable pub close_all : Bridges → Server → Bridges × Server
unfolding take_from close_each
close_all items server = (
  [],
  record server {
    active = take_from (length items) server.active;
    events = close_each items ++ server.events;
  },
)

-- bridges.take(id).Close(): a nil connection has no method.
unfoldable pub close_taken : Option ℕ × Bridges × Server → Bridges × Server
unfolding emit
close_taken (none, items, server) = (items, emit nil_dereference server)
close_taken (some connection, items, server) = (items, emit (closed connection) server)

unfoldable pub take_and_close : String → Bridges → Server → Bridges × Server
unfolding close_taken
take_and_close id items server = close_taken (take id items server)

-- bridges.take(id), and Close of a connection that is not nil.
unfoldable pub close_any : Option ℕ × Bridges × Server → Bridges × Server
unfolding emit
close_any (none, items, server) = (items, server)
close_any (some connection, items, server) = (items, emit (closed connection) server)

unfoldable pub close_if_present : String → Bridges → Server → Bridges × Server
unfolding close_any
close_if_present id items server = close_any (take id items server)

-- The fields of a `net` frame.
pub record NetRequest : Type 0 where
  pub id : String
  pub protocol : String
  pub host : String
  pub port : ℤ
  pub local_port : ℤ

-- The guard of the action `open`.
unfoldable pub is_invalid_open : NetRequest → Bool
is_invalid_open request =
    request.id == ""
    || not (request.protocol == "tcp" || request.protocol == "udp" || request.protocol == "rdp")
    || trim_space request.host == ""
    || ltb_ℤ request.port (pos 1)
    || ltb_ℤ (pos 65535) request.port
    || ltb_ℤ request.local_port (pos 0)
    || ltb_ℤ (pos 65535) request.local_port
    || (not (is_zero request.local_port) && not (request.protocol == "udp"))

-- lockBridgeOpen
unfoldable pub lock_bridge_open : Server → Bool
lock_bridge_open server = not server.update_pending

module _ (format : String → ℕ → String) where
  -- The rest of `open` after the dial: the connection gets an id, and the answer is sent.
  unfoldable pub opened_bridge : NetRequest → ℕ → ℕ → Bool → Bridges → Server → Bridges × Server
  unfolding put take_and_close emit
  opened_bridge request connection socket sent items server =
      let id = format request.protocol (server.counter + 1) in
      let stored =
        put id connection socket items (record server { counter = server.counter + 1 }) in
      if sent
      then (stored.0, emit (forwards id) (emit (opened id) stored.1))
      else take_and_close id stored.0 stored.1

  -- The action `open` of handleNetwork, on the outcome of the dial (`none` is its error) and whether the
  -- answer could be sent. `format` is fmt.Sprintf("%s_%d", ...).
  unfoldable pub open_bridge :
      NetRequest → Option ℕ → ℕ → Bool → Bridges → Server → Bridges × Server
  unfolding is_invalid_open lock_bridge_open opened_bridge emit
  open_bridge request dialled socket sent items server =
      if is_invalid_open request
      then (items, emit (net_error request.id) server)
      else if not (lock_bridge_open server)
      then (items, emit (net_error request.id) server)
      else elim dialled [
        | none ↦ (items, emit (net_error request.id) server)
        | some connection ↦ opened_bridge request connection socket sent items server
      ]

-- The action `data` of handleNetwork, on whether the write succeeds.
unfoldable pub write_bridge : String → ℕ → Bool → Bridges → Server → Bridges × Server
unfolding get take_and_close emit
write_bridge id bytes written items server = elim (get id items) [
  | none ↦ (items, server)
  | some connection ↦
      if leb bytes 0
      then (items, server)
      else if written
      then (items, emit (wrote connection) server)
      else take_and_close id items server
]

-- ActiveBridges
unfoldable pub active_bridges : Server → ℕ
active_bridges server = elim server.active [ pos n ↦ n | negsuc n ↦ 0 ]

-- tryBeginUpdate
unfoldable pub try_begin_update : Bool → Server → Bool × Server
try_begin_update ignore_active_bridges server =
    if server.update_pending || (not ignore_active_bridges && not (is_zero server.active))
    then (false, server)
    else (true, record server { update_pending = true })

-- cancelUpdate
unfoldable pub cancel_update : Server → Server
cancel_update server = record server { update_pending = false }
