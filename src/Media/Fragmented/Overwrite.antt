-- ===== src/Media/Fragmented/Overwrite.antt =====
-- The stamp of crates/media/src/fragmented.rs: the duration fields of the headers are overwritten.
use peerless_server.Prelude.{
  ℕ, ◌+◌, Bool, true, false, List, ◌++◌, Option, none, some, ltb, if◌then◌else◌, length, take, drop,
}
use peerless_server.Media.Fragmented.{File, DurationField, width, encode, scan_ticks, duration_secs}
use peerless_server.Media.Fragmented.Scan.{scan}

unfoldable pub overwrite : ℕ → List ℕ → File → File
overwrite at bytes file = take at file ++ (bytes ++ drop (at + length bytes) file)

-- One field: what the file is then, and whether the loop goes on.
unfoldable pub stamp_field : Option DurationField → ℕ → File → File × Bool
unfolding width encode overwrite
stamp_field none ticks file = (file, true)
stamp_field (some field) ticks file =
    if ltb (length file) (field.offset + width field)
    then (file, false)
    else (overwrite field.offset (encode field ticks) file, true)

-- The file afterwards, and the result.
unfoldable pub stamp_fragmented_duration : File → File × Option (ℕ × ℕ)
unfolding scan duration_secs scan_ticks stamp_field
stamp_fragmented_duration file =
    let s = scan file in
    elim (duration_secs s) [
      | none ↦ (file, none)
      | some duration ↦
          let first = stamp_field s.mvhd (scan_ticks s) file in
          let second = stamp_field s.mdhd (scan_ticks s) first.0 in
          if first.1
          then (if second.1 then (second.0, some duration) else (second.0, none))
          else (first.0, none)
    ]
