-- ===== src/Server/Tests.antt =====
-- The theorems on crates/server at concrete inputs.
use peerless_server.Prelude.{
  eq_text_refl, ◌≡◌, refl, false, [], ◌∷◌, Option, some, none, Text, text, inl, inr, Map, lookup,
  Bool-cases, eq_text,
}
use peerless_server.Server.Sync.{
  ConnectedDeviceInfo, SyncRoom, Session, handle, on_hello, is_active, closed,
}
use peerless_server.Server.Sync.Active.{IsRoom, IsKey, handle-IsRoom}
use peerless_server.Server.Sync.Messages.{on_hello_renamed}

abbrev first_key : Map ConnectedDeviceInfo → Option Text
first_key [] = none
first_key (entry ∷ entries) = some entry.0

first_key-IsKey : IsKey first_key
first_key-IsKey [] = refl
first_key-IsKey (entry ∷ entries) = rw (eq_text_refl entry.0) refl

abbrev phone : Session
phone = record { connection_id = 7; my_device_id = some (text "p") }

abbrev device : Text → ConnectedDeviceInfo
device id = record { device_id = id; device_name = text "name"; platform = text "android" }

abbrev room : SyncRoom
room = record {
  devices = (text "p", device (text "p")) ∷ [];
  device_connections = (text "p", 7) ∷ [];
  active_device_id = some (text "p");
  latest_snapshot = none;
}

room-IsRoom : IsRoom room
room-IsRoom = record {
  present = unfold eq_text in refl;
  matched =
      λ key. elim (Bool-cases (eq_text (text "p") key)) [ inl e ↦ rw e refl | inr e ↦ rw e refl ];
}

handle-IsRoom_example : IsRoom (handle first_key phone closed room).room
handle-IsRoom_example = handle-IsRoom first_key first_key-IsKey phone closed room tt room-IsRoom

abbrev stale : Session
stale = record { connection_id = 3; my_device_id = some (text "p") }

on_hello_renamed_example :
    ((on_hello phone (device (text "q")) room).room.active_device_id ≡ some (text "p"))
    × (lookup (text "p") (on_hello phone (device (text "q")) room).room.devices ≡ none)
    × (is_active
          (on_hello phone (device (text "q")) room).session
          (on_hello phone (device (text "q")) room).room
        ≡ false)
on_hello_renamed_example =
    on_hello_renamed phone (text "p") (device (text "q")) room refl refl (unfold eq_text in refl)
      (unfold eq_text in refl)
