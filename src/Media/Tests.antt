-- ===== src/Media/Tests.antt =====
-- The theorems on crates/media at a concrete file.
use peerless_server.Prelude.{
  eq_text, ℕ, ◌+◌, ◌%◌, ◌^◌, ◌≡◌, refl, false, List, [], ◌∷◌, ◌++◌, replicate, some, length,
}
use peerless_server.Media.Fragmented.{File, DurationField, children, number_at, width, scan_ticks}
use peerless_server.Media.Fragmented.Scan.{scan}
use peerless_server.Media.Fragmented.Overwrite.{stamp_fragmented_duration}
use peerless_server.Media.Fragmented.Boxes.{Tiles, children-Tiles}
use peerless_server.Media.Fragmented.Stamp.{stamp_fragmented_duration-number_at}

-- A box of fewer than 256 bytes.
abbrev box : List ℕ → List ℕ → File
box kind body = 0 ∷ 0 ∷ 0 ∷ (8 + length body) ∷ (kind ++ body)

abbrev mdhd : File
mdhd = box (109 ∷ 100 ∷ 104 ∷ 100 ∷ []) (replicate 12 0 ++ 0 ∷ 0 ∷ 0 ∷ 10 ∷ 0 ∷ 0 ∷ 0 ∷ 0 ∷ [])

abbrev moov : File
moov =
    box (109 ∷ 111 ∷ 111 ∷ 118 ∷ [])
      (box (116 ∷ 114 ∷ 97 ∷ 107 ∷ []) (box (109 ∷ 100 ∷ 105 ∷ 97 ∷ []) mdhd))

-- A run of three samples of a duration of five each, given by `tfhd`.
abbrev trun : File
trun = box (116 ∷ 114 ∷ 117 ∷ 110 ∷ []) (0 ∷ 0 ∷ 0 ∷ 0 ∷ 0 ∷ 0 ∷ 0 ∷ 3 ∷ [])

abbrev tfhd : File
tfhd = box (116 ∷ 102 ∷ 104 ∷ 100 ∷ []) (0 ∷ 0 ∷ 0 ∷ 8 ∷ 0 ∷ 0 ∷ 0 ∷ 1 ∷ 0 ∷ 0 ∷ 0 ∷ 5 ∷ [])

abbrev moof : File
moof = box (109 ∷ 111 ∷ 111 ∷ 102 ∷ []) (box (116 ∷ 114 ∷ 97 ∷ 102 ∷ []) (tfhd ++ trun))

abbrev file : File
file = moov ++ moof

abbrev field : DurationField
field = record { offset = 48; wide = false }

abbrev lasting : ℕ × ℕ
lasting = (15, 10)

stamped : (stamp_fragmented_duration file).1 ≡ some lasting
unfolding stamp_fragmented_duration eq_text
stamped = refl

found : (scan file).mdhd ≡ some field
unfolding scan eq_text
found = refl

stamp_fragmented_duration-number_at_example :
    (number_at (stamp_fragmented_duration file).0 48 (width field)
      ≡ some (scan_ticks (scan file) % 256 ^ width field))
    × (lasting ≡ (scan_ticks (scan file), (scan file).timescale))
stamp_fragmented_duration-number_at_example =
    stamp_fragmented_duration-number_at file field {duration = lasting} stamped found

children-Tiles_example : Tiles 0 56 (children file 0 56)
children-Tiles_example = children-Tiles file 0 56
