-- ===== src/Server/Sync/Active.antt =====
-- The active device of a room.
use peerless_server.Prelude.{
  ℕ, ◌≡◌, ◌≢◌, refl, sym, ap, ◌∙◌, ◌⊎◌, inl, inr, true, false, [], Option, none, some,
  if◌then◌else◌, Bool-cases, Option-cases, Text, eq_text, eq_text_iff, eq_text_refl, Map, lookup,
  insert, remove, lookup-insert, lookup-remove,
}
use peerless_server.Server.Sync.{
  ConnectedDeviceInfo, SyncRoom, ClientMessage, Session, is_some, is_text, is_connection,
  remove_device_connection, forget_previous, register, on_hello, is_active, on_report_state,
  activate, on_transfer_playback, leave, on_closed, handle, hello, report_state, command,
  transfer_playback, closed,
}

-- The active device is one of the room, which has none only if it is empty.
abbrev pub IsPresent : Option Text → Map ConnectedDeviceInfo → Type 0
IsPresent none devices = devices ≡ []
IsPresent (some device_id) devices = is_some (lookup device_id devices) ≡ true

pub record IsRoom (room : SyncRoom) : Type 0 where
  pub present : IsPresent room.active_device_id room.devices
  pub matched :
      (key : Text)
      → is_some (lookup key room.devices) ≡ is_some (lookup key room.device_connections)

is_text-ne : (o : Option Text) (key : Text) → is_text o key ≡ false → o ≢ some key
unfolding is_text
is_text-ne none key h e = cc
is_text-ne (some a) key h e = let p : a ≡ key = cc in let q = (eq_text_iff a key).1 p in cc

insert-IsPresent :
    (active : Option Text) (devices : Map ConnectedDeviceInfo) (device : ConnectedDeviceInfo)
    → IsPresent active devices
    → IsPresent
        (if is_some active then active else some device.device_id)
        (insert device.device_id device devices)
insert-IsPresent none devices device h =
    rw
      (
        lookup-insert device.device_id device.device_id device devices,
        eq_text_refl device.device_id,
      )
      refl
insert-IsPresent (some a) devices device h = elim (Bool-cases (eq_text device.device_id a)) [
  | inl e ↦ rw (lookup-insert a device.device_id device devices, e) refl
  | inr e ↦ rw (lookup-insert a device.device_id device devices, e) h
]

remove-IsPresent :
    (active : Option Text) (devices : Map ConnectedDeviceInfo) (key : Text)
    → active ≢ some key
    → IsPresent active devices
    → IsPresent active (remove key devices)
remove-IsPresent none devices key n h = rw h refl
remove-IsPresent (some a) devices key n h = elim (Bool-cases (eq_text key a)) [
  | inl e ↦ absurd (n (ap some (sym ((eq_text_iff key a).0 e))))
  | inr e ↦ rw (lookup-remove a key devices, e) h
]

remove-matched :
    (devices : Map ConnectedDeviceInfo) (connections : Map ℕ) (key : Text)
    → ((other : Text) → is_some (lookup other devices) ≡ is_some (lookup other connections))
    → (other : Text)
    → is_some (lookup other (remove key devices)) ≡ is_some (lookup other (remove key connections))
remove-matched devices connections key m other = elim (Bool-cases (eq_text key other)) [
  | inl e ↦ rw (lookup-remove other key devices, lookup-remove other key connections, e) refl
  | inr e ↦ rw (lookup-remove other key devices, lookup-remove other key connections, e) (m other)
]

register-IsRoom :
    (session : Session) (device : ConnectedDeviceInfo) (room : SyncRoom)
    → IsRoom room
    → IsRoom (register session device room)
unfolding register
register-IsRoom session device room i = record {
  present = insert-IsPresent room.active_device_id room.devices device i.present;
  matched = λ key. elim (Bool-cases (eq_text device.device_id key)) [
    | inl e ↦
        rw
          (
            lookup-insert key device.device_id device room.devices,
            lookup-insert key device.device_id session.connection_id room.device_connections,
            e,
          )
          refl
    | inr e ↦
        rw
          (
            lookup-insert key device.device_id device room.devices,
            lookup-insert key device.device_id session.connection_id room.device_connections,
            e,
          )
          (i.matched key)
  ];
}

remove_device_connection-IsRoom :
    (room : SyncRoom) (device_id : Text) (connection_id : ℕ)
    → room.active_device_id ≢ some device_id
    → IsRoom room
    → IsRoom (remove_device_connection room device_id connection_id).0
unfolding remove_device_connection
remove_device_connection-IsRoom room device_id connection_id n i =
    elim (Bool-cases (is_connection (lookup device_id room.device_connections) connection_id)) [
      | inl e ↦ rw e (record {
        present = remove-IsPresent room.active_device_id room.devices device_id n i.present;
        matched = remove-matched room.devices room.device_connections device_id i.matched;
      })
      | inr e ↦ rw e i
    ]

-- The name of a connection is a new one only if the old one is not active.
abbrev pub KeepsActive : Option Text → Text → SyncRoom → Type 0
KeepsActive none device_id room = Unit {0}
KeepsActive (some prev) device_id room =
    (eq_text prev device_id ≡ true) ⊎ (room.active_device_id ≢ some prev)

forget-IsRoom :
    (prev : Option Text) (connection_id : ℕ) (device_id : Text) (room : SyncRoom)
    → KeepsActive prev device_id room
    → IsRoom room
    → IsRoom (
        forget_previous
          (record { connection_id = connection_id; my_device_id = prev })
          device_id
          room)
unfolding forget_previous
forget-IsRoom none connection_id device_id room k i = i
forget-IsRoom (some prev) connection_id device_id room k i =
    elim (Bool-cases (eq_text prev device_id)) [
      | inl e ↦ rw e i
      | inr e ↦ elim k [
        | inl same ↦ cc
        | inr n ↦ rw e (remove_device_connection-IsRoom room prev connection_id n i)
      ]
    ]

-- What keeps the active device in the room: a rename or a transfer that would point it elsewhere is
-- left out.
abbrev pub IsSafe : Session → ClientMessage → SyncRoom → Type 0
IsSafe session (hello device_id device_name platform) room =
    KeepsActive session.my_device_id device_id room
IsSafe session (report_state snapshot) room = Unit {0}
IsSafe session (command action data') room = Unit {0}
IsSafe session (transfer_playback target) room = is_some (lookup target room.devices) ≡ true
IsSafe session closed room = Unit {0}

is_connection-some : (o : Option ℕ) (c : ℕ) → is_connection o c ≡ true → is_some o ≡ true
unfolding is_connection
is_connection-some none c h = cc
is_connection-some (some n) c h = refl

-- What the map's iterator promises: a key of the map, unless it is empty.
abbrev pub IsKey : (Map ConnectedDeviceInfo → Option Text) → Type 0
IsKey next_key = (devices : Map ConnectedDeviceInfo) → IsPresent (next_key devices) devices

module _ (next_key : Map ConnectedDeviceInfo → Option Text) (is_key : IsKey next_key) where
  leave-IsRoom :
      (session : Session) (device_id : Text) (room : SyncRoom)
      → IsRoom room
      → IsRoom (leave next_key session device_id room)
  unfolding leave remove_device_connection
  leave-IsRoom session device_id room i =
      elim (Bool-cases
        (is_connection (lookup device_id room.device_connections) session.connection_id)) [
          | inr e ↦ rw (leave, e) i
          | inl e ↦
              let known = i.matched device_id ∙ is_connection-some _ session.connection_id e in
              let matched =
                remove-matched room.devices room.device_connections device_id i.matched in
              elim (Bool-cases (is_text room.active_device_id device_id)) [
                | inl a ↦
                    rw (leave, e, known, a)
                      (unfold activate in
                        record {
                          present = is_key (remove device_id room.devices);
                          matched = matched;
                        })
                | inr a ↦
                    rw (leave, e, known, a)
                      (record {
                        present =
                            remove-IsPresent room.active_device_id room.devices device_id
                              (is_text-ne room.active_device_id device_id a) i.present;
                        matched = matched;
                      })
              ]
        ]

  -- Every message and the end of every connection keep the room in order: the active device is one of
  -- its devices, it has none only when it is empty, and the devices are those with a connection.
  -- Left out are the renaming of the active device and the transfer to a device that is not there.
  pub handle-IsRoom :
      (session : Session) (message : ClientMessage) (room : SyncRoom)
      → IsSafe session message room
      → IsRoom room
      → IsRoom (handle next_key session message room).room
  unfolding handle
  handle-IsRoom session (hello device_id device_name platform) room s i =
      let device : ConnectedDeviceInfo = record {
        device_id = device_id;
        device_name = device_name;
        platform = platform;
      } in
      unfold on_hello in
      register-IsRoom session device _
        (forget-IsRoom session.my_device_id session.connection_id device_id room s i)
  handle-IsRoom session (report_state snapshot) room s i =
      elim (Bool-cases (is_active session room)) [
        | inl e ↦
            unfold on_report_state in rw e (record { present = i.present; matched = i.matched })
        | inr e ↦ unfold on_report_state in rw e i
      ]
  handle-IsRoom session (command action data') room s i = i
  handle-IsRoom session (transfer_playback target) room s i =
      unfold on_transfer_playback activate in record { present = s; matched = i.matched }
  handle-IsRoom session closed room s i = elim (Option-cases session.my_device_id) [
    | inl e ↦ unfold on_closed in rw e i
    | inr (device_id, e) ↦ unfold on_closed in rw e (leave-IsRoom session device_id room i)
  ]
