-- ===== src/Server/Sync/Messages.antt =====
-- What single messages do to a room.
use peerless_server.Prelude.{
  ℕ, ◌≡◌, ◌≢◌, refl, ap, ◌∙◌, ◌⊎◌, inl, inr, true, false, ◌&&◌, [], ◌∷◌, Option, none, some,
  Bool-cases, Option-cases, Text, eq_text, eq_text_iff, eq_text_refl, eq_text-ne, Map, lookup,
  remove, lookup-insert, lookup-remove, arith,
}
use peerless_server.Server.Sync.{
  ConnectedDeviceInfo, SyncRoom, ClientMessage, Session, Reply, is_some, is_text, is_connection,
  remove_device_connection, forget_previous, register, on_hello, is_active, on_report_state,
  activate, on_transfer_playback, leave, on_closed, handle, hello, report_state, command,
  transfer_playback, closed, state_updated,
}

-- The message is a report of the active device, which is stored and broadcast.
abbrev pub IsReport : Session → ClientMessage → SyncRoom → Reply → Type 0
IsReport session message room reply =
    (device_id : Text) × (snapshot : Text) × (message ≡ report_state snapshot)
    × (session.my_device_id ≡ some device_id)
    × (room.active_device_id ≡ some device_id)
    × (reply.room.latest_snapshot ≡ some snapshot)
    × (reply.sent ≡ state_updated (some device_id) snapshot ∷ [])

is_active-eq :
    (session : Session) (room : SyncRoom)
    → is_active session room ≡ true
    → (device_id : Text) × (session.my_device_id ≡ some device_id)
      × (room.active_device_id ≡ some device_id)
unfolding is_active is_text
is_active-eq session room h = elim (Option-cases session.my_device_id) [
  | inl e ↦ cc (rw e at h)
  | inr (curr, e) ↦ elim (Option-cases room.active_device_id) [
    | inl f ↦ cc (rw (e, f) at h)
    | inr (active, f) ↦
        let p : eq_text active curr ≡ true = rw (e, f) at h in
        (curr, e, f ∙ ap some ((eq_text_iff active curr).0 p))
  ]
]

forget_previous-snapshot :
    (session : Session) (device_id : Text) (room : SyncRoom)
    → (forget_previous session device_id room).latest_snapshot ≡ room.latest_snapshot
unfolding forget_previous remove_device_connection
forget_previous-snapshot session device_id room = elim (Option-cases session.my_device_id) [
  | inl e ↦ rw (forget_previous, e) refl
  | inr (prev, e) ↦ elim (Bool-cases (eq_text prev device_id)) [
    | inl same ↦ rw (forget_previous, e, same) refl
    | inr n ↦
        elim (Bool-cases
          (is_connection (lookup prev room.device_connections) session.connection_id)) [
            | inl c ↦ rw (forget_previous, e, n, c) refl
            | inr c ↦ rw (forget_previous, e, n, c) refl
          ]
  ]
]

leave-snapshot :
    (next_key : Map ConnectedDeviceInfo → Option Text) (session : Session) (device_id : Text)
    (room : SyncRoom)
    → (leave next_key session device_id room).latest_snapshot ≡ room.latest_snapshot
unfolding leave remove_device_connection activate
leave-snapshot next_key session device_id room =
    elim (Bool-cases
      (is_connection (lookup device_id room.device_connections) session.connection_id)) [
        | inr e ↦ rw (leave, e) refl
        | inl e ↦
            elim (Bool-cases (
              is_some (lookup device_id room.devices) && is_text room.active_device_id device_id)) [
                | inl a ↦ rw (leave, e, a) refl
                | inr a ↦ rw (leave, e, a) refl
              ]
      ]

-- The snapshot of a room changes only by a report of its active device: any other message, the
-- report of another device included, leaves it as it is.
handle-snapshot :
    (next_key : Map ConnectedDeviceInfo → Option Text) (session : Session) (message : ClientMessage)
    (room : SyncRoom)
    → ((handle next_key session message room).room.latest_snapshot ≡ room.latest_snapshot)
      ⊎ IsReport session message room (handle next_key session message room)
unfolding handle
handle-snapshot next_key session (hello device_id device_name platform) room =
    inl (unfold on_hello register in forget_previous-snapshot session device_id room)
handle-snapshot next_key session (report_state snapshot) room =
    elim (Bool-cases (is_active session room)) [
      | inl e ↦
          let (device_id, p, q) = is_active-eq session room e in
          inr (
            device_id,
            snapshot,
            refl,
            p,
            q,
            unfold on_report_state in rw e refl,
            unfold on_report_state in rw (e, q) refl,
          )
      | inr e ↦ inl (unfold on_report_state in rw e refl)
    ]
handle-snapshot next_key session (command action data') room = inl refl
handle-snapshot next_key session (transfer_playback target) room =
    inl (unfold on_transfer_playback activate in refl)
handle-snapshot next_key session closed room = elim (Option-cases session.my_device_id) [
  | inl e ↦ inl (unfold on_closed in rw e refl)
  | inr (device_id, e) ↦
      inl (unfold on_closed in rw e (leave-snapshot next_key session device_id room))
]

is_connection-ne : (o : Option ℕ) (n c : ℕ) → o ≡ some n → n ≢ c → is_connection o c ≡ false
unfolding is_connection
is_connection-ne none n c e h = cc
is_connection-ne (some m) n c e h = let p : m ≡ n = cc in grind (arith, p, h)

-- The end of a connection whose device has since said hello on another one leaves the room as it is.
on_closed_stale :
    (next_key : Map ConnectedDeviceInfo → Option Text) (session : Session) (device_id : Text)
    (other : ℕ) (room : SyncRoom)
    → session.my_device_id ≡ some device_id
    → lookup device_id room.device_connections ≡ some other
    → other ≢ session.connection_id
    → (on_closed next_key session room).room ≡ room
unfolding on_closed
on_closed_stale next_key session device_id other room m l n =
    let e =
      is_connection-ne (lookup device_id room.device_connections) other session.connection_id l n in
    rw m (unfold leave remove_device_connection in rw (leave, e) refl)

is_connection_self : (o : Option ℕ) (c : ℕ) → o ≡ some c → is_connection o c ≡ true
unfolding is_connection
is_connection_self none c e = cc
is_connection_self (some m) c e = let p : m ≡ c = cc in grind (arith, p)

eq_text-flip : (a b : Text) → eq_text a b ≡ false → eq_text b a ≡ false
eq_text-flip a b h = eq_text-ne a b a h (eq_text_refl a)

forget_previous-renamed :
    (session : Session) (prev device_id : Text) (room : SyncRoom)
    → session.my_device_id ≡ some prev
    → lookup prev room.device_connections ≡ some session.connection_id
    → eq_text prev device_id ≡ false
    → forget_previous session device_id room ≡ record {
      devices = remove prev room.devices;
      device_connections = remove prev room.device_connections;
      active_device_id = room.active_device_id;
      latest_snapshot = room.latest_snapshot;
    }
unfolding forget_previous remove_device_connection
forget_previous-renamed session prev device_id room m l n =
    let c = is_connection_self (lookup prev room.device_connections) session.connection_id l in
    rw (forget_previous, m, n, c) refl

-- When the active device says hello under a new name on its connection, the room keeps the old name
-- as the active device, which is no longer one of its devices, and the connection is not that of the
-- active device from then on.
pub on_hello_renamed :
    (session : Session) (prev : Text) (device : ConnectedDeviceInfo) (room : SyncRoom)
    → session.my_device_id ≡ some prev
    → room.active_device_id ≡ some prev
    → lookup prev room.device_connections ≡ some session.connection_id
    → eq_text prev device.device_id ≡ false
    → ((on_hello session device room).room.active_device_id ≡ some prev)
      × (lookup prev (on_hello session device room).room.devices ≡ none)
      × (is_active (on_hello session device room).session (on_hello session device room).room
          ≡ false)
unfolding on_hello register
on_hello_renamed session prev device room m a l n =
    let e = forget_previous-renamed session prev device.device_id room m l n in
    let k = eq_text-flip prev device.device_id n in
    (
      rw (e, a) refl,
      rw
          (
            e,
            lookup-insert prev device.device_id device (remove prev room.devices),
            k,
            lookup-remove prev prev room.devices,
            eq_text_refl prev,
          )
          refl,
      unfold is_active is_text in rw (e, a) n,
    )
