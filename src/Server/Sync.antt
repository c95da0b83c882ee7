-- ===== src/Server/Sync.antt =====
-- crates/server/src/playback_sync.rs: the room of a user's devices, and what `handle_socket` does
-- with the messages of one connection. A step is one critical section of the room's mutex, with the
-- message that it broadcasts. Snapshots and command data are texts. The parameter `next_key` is the
-- key that `devices.keys().next()` gives.
pub mod Active
pub mod Messages
use peerless_server.Prelude.{
  ℕ, Bool, true, false, not, ◌&&◌, List, [], ◌∷◌, ◌++◌, map, Option, none, some, ◌==◌,
  if◌then◌else◌, Text, eq_text, Map, lookup, insert, remove,
}

pub record ConnectedDeviceInfo : Type 0 where
  pub device_id : Text
  pub device_name : Text
  pub platform : Text

pub record SyncRoom : Type 0 where
  pub devices : Map ConnectedDeviceInfo
  pub device_connections : Map ℕ
  pub active_device_id : Option Text
  pub latest_snapshot : Option Text

pub data ServerMessage : Type 0 where
  room_state :
      (active_device_id : Option Text) (devices : List ConnectedDeviceInfo) (snapshot : Option Text)
      → ServerMessage
  state_updated : (active_device_id : Option Text) (snapshot : Text) → ServerMessage
  relayed : (action : Text) (data' : Option Text) → ServerMessage

-- What a client sends, and the end of its connection.
pub data ClientMessage : Type 0 where
  hello : (device_id device_name platform : Text) → ClientMessage
  report_state : (snapshot : Text) → ClientMessage
  command : (action : Text) (data' : Option Text) → ClientMessage
  transfer_playback : (target_device_id : Text) → ClientMessage
  closed : ClientMessage

-- The locals of a run of `handle_socket`.
pub record Session : Type 0 where
  pub connection_id : ℕ
  pub my_device_id : Option Text

pub record Reply : Type 0 where
  pub session : Session
  pub room : SyncRoom
  pub sent : List ServerMessage

unfoldable pub new_room : SyncRoom
new_room = record {
  devices = [];
  device_connections = [];
  active_device_id = none;
  latest_snapshot = none;
}

abbrev pub is_some {ℓ} : {A : Type ℓ} → Option A → Bool
is_some none = false
is_some (some a) = true

unfoldable pub is_text : Option Text → Text → Bool
is_text none text = false
is_text (some other) text = eq_text other text

unfoldable pub is_connection : Option ℕ → ℕ → Bool
is_connection none connection_id = false
is_connection (some other) connection_id = other == connection_id

unfoldable pub remove_device_connection : SyncRoom → Text → ℕ → SyncRoom × Bool
unfolding is_connection
remove_device_connection room device_id connection_id =
    if is_connection (lookup device_id room.device_connections) connection_id
    then (
      record {
        devices = remove device_id room.devices;
        device_connections = remove device_id room.device_connections;
        active_device_id = room.active_device_id;
        latest_snapshot = room.latest_snapshot;
      },
      is_some (lookup device_id room.devices),
    )
    else (room, false)

unfoldable pub state_of : SyncRoom → ServerMessage
state_of room =
    room_state room.active_device_id (map (λ entry. entry.1) room.devices) room.latest_snapshot

-- The device under which the connection was known before is forgotten if the name is a new one.
unfoldable pub forget_previous : Session → Text → SyncRoom → SyncRoom
unfolding remove_device_connection
forget_previous session device_id room = elim session.my_device_id [
  | none ↦ room
  | some prev ↦
      if eq_text prev device_id
      then room
      else (remove_device_connection room prev session.connection_id).0
]

unfoldable pub register : Session → ConnectedDeviceInfo → SyncRoom → SyncRoom
register session device room = record {
  devices = insert device.device_id device room.devices;
  device_connections = insert device.device_id session.connection_id room.device_connections;
  active_device_id =
      if is_some room.active_device_id then room.active_device_id else some device.device_id;
  latest_snapshot = room.latest_snapshot;
}

unfoldable pub on_hello : Session → ConnectedDeviceInfo → SyncRoom → Reply
unfolding forget_previous register state_of
on_hello session device room =
    let next = register session device (forget_previous session device.device_id room) in
    record {
      session = record {
        connection_id = session.connection_id;
        my_device_id = some device.device_id;
      };
      room = next;
      sent = state_of next ∷ [];
    }

unfoldable pub is_active : Session → SyncRoom → Bool
unfolding is_text
is_active session room = elim session.my_device_id [
  | none ↦ false
  | some curr ↦ is_text room.active_device_id curr
]

unfoldable pub on_report_state : Session → Text → SyncRoom → Reply
unfolding is_active
on_report_state session snapshot room =
    if is_active session room
    then record {
      session = session;
      room = record {
        devices = room.devices;
        device_connections = room.device_connections;
        active_device_id = room.active_device_id;
        latest_snapshot = some snapshot;
      };
      sent = state_updated room.active_device_id snapshot ∷ [];
    }
    else record { session = session; room = room; sent = [] }

unfoldable pub activate : Option Text → SyncRoom → SyncRoom
activate device_id room = record {
  devices = room.devices;
  device_connections = room.device_connections;
  active_device_id = device_id;
  latest_snapshot = room.latest_snapshot;
}

unfoldable pub on_transfer_playback : Session → Text → SyncRoom → Reply
unfolding activate state_of
on_transfer_playback session target_device_id room =
    let next = activate (some target_device_id) room in
    record { session = session; room = next; sent = state_of next ∷ [] }

module _ (next_key : Map ConnectedDeviceInfo → Option Text) where
  -- After the loop of `handle_socket`.
  unfoldable pub leave : Session → Text → SyncRoom → SyncRoom
  unfolding remove_device_connection activate is_text
  leave session device_id room =
      let gone = remove_device_connection room device_id session.connection_id in
      if gone.1 && is_text gone.0.active_device_id device_id
      then activate (next_key gone.0.devices) gone.0
      else gone.0

  unfoldable pub on_closed : Session → SyncRoom → Reply
  unfolding leave state_of
  on_closed session room = elim session.my_device_id [
    | none ↦ record { session = session; room = room; sent = [] }
    | some device_id ↦ record {
      session = session;
      room = leave session device_id room;
      sent = state_of (leave session device_id room) ∷ [];
    }
  ]

  unfoldable pub handle : Session → ClientMessage → SyncRoom → Reply
  unfolding on_hello on_report_state on_transfer_playback on_closed
  handle session (hello device_id device_name platform) room =
      on_hello session
        (record { device_id = device_id; device_name = device_name; platform = platform }) room
  handle session (report_state snapshot) room = on_report_state session snapshot room
  handle session (command action data') room = record {
    session = session;
    room = room;
    sent = relayed action data' ∷ [];
  }
  handle session (transfer_playback target_device_id) room =
      on_transfer_playback session target_device_id room
  handle session closed room = on_closed session room
