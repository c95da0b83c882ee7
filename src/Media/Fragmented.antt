-- ===== src/Media/Fragmented.antt =====
-- crates/media/src/fragmented.rs: the boxes of a fragmented MP4 and their fields, as the scan for the
-- duration (Scan) and the stamp of it (Overwrite) read them. A file is the list of its bytes, each
-- below 256. Offsets are those of a file of less than 2 ^ 63 bytes, where the additions that the source
-- leaves unchecked do not overflow.
pub mod Scan
pub mod Overwrite
pub mod Boxes
pub mod Stamp
use peerless_server.Prelude.{
  ℕ, zero, suc, ◌+◌, ◌-◌, ◌*◌, ◌/◌, ◌%◌, ◌^◌, max, Bool, true, false, not, ◌&&◌, ◌||◌, List, [],
  ◌∷◌, ◌++◌, Option, none, some, ltb, leb, ◌==◌, if◌then◌else◌, ◌>>◌, checked, length, take, drop,
  Text, text, eq_text, min,
}

abbrev pub File : Type 0
File = List ℕ

abbrev pub saturated : ℕ → ℕ
saturated n = min n 0xffff_ffff_ffff_ffff

unfoldable pub from_be : ℕ → List ℕ → ℕ
from_be acc [] = acc
from_be acc (b ∷ bs) = from_be (acc * 256 + b) bs

pub record BoxHeader : Type 0 where
  pub start : ℕ
  pub size : ℕ
  pub kind : Text
  pub header : ℕ

abbrev pub body : BoxHeader → ℕ
body h = h.start + h.header

abbrev pub box_end : BoxHeader → ℕ
box_end h = h.start + h.size

abbrev pub is : BoxHeader → Text → Bool
is h kind = eq_text h.kind kind

pub record FullBox : Type 0 where
  pub version : ℕ
  pub payload : ℕ

pub record DurationField : Type 0 where
  pub offset : ℕ
  pub wide : Bool

unfoldable pub time_prefix : FullBox → ℕ
time_prefix full = if full.version == 1 then 16 else 8

unfoldable pub duration_offset : FullBox → BoxHeader → DurationField
unfolding time_prefix
duration_offset full h = record {
  offset = body h + 4 + time_prefix full + 4;
  wide = full.version == 1;
}

unfoldable pub width : DurationField → ℕ
width field = if field.wide then 8 else 4

-- The last `n` bytes of a number, in big endian.
unfoldable pub to_be : ℕ → ℕ → List ℕ
to_be zero ticks = []
to_be (suc n) ticks = to_be n (ticks / 256) ++ (ticks % 256) ∷ []

-- `encode(ticks)[8 - width..]`, the bytes of it that are used.
unfoldable pub encode : DurationField → ℕ → List ℕ
unfolding to_be width
encode field ticks = to_be (width field) ticks

pub record FragmentScan : Type 0 where
  pub fragments : ℕ
  pub timescale : ℕ
  pub end_ticks : ℕ
  pub sum_ticks : ℕ
  pub trex_default : Option ℕ
  pub mvhd : Option DurationField
  pub mdhd : Option DurationField

unfoldable pub default : FragmentScan
default = record {
  fragments = 0;
  timescale = 0;
  end_ticks = 0;
  sum_ticks = 0;
  trex_default = none;
  mvhd = none;
  mdhd = none;
}

unfoldable pub scan_ticks : FragmentScan → ℕ
scan_ticks scan = if ltb 0 scan.end_ticks then scan.end_ticks else scan.sum_ticks

-- The quotient is taken in floating point; here are its two numbers, which are positive.
unfoldable pub duration_secs : FragmentScan → Option (ℕ × ℕ)
unfolding scan_ticks
duration_secs scan =
    if scan.fragments == 0 || scan.timescale == 0
    then none
    else if scan_ticks scan == 0
    then none
    else some (scan_ticks scan, scan.timescale)

-- `seek` and `read_exact`, of `n` bytes.
unfoldable pub read_at : File → ℕ → ℕ → Option (List ℕ)
read_at file offset n =
    if leb (offset + n) (length file) then some (take n (drop offset file)) else none

unfoldable pub number_at : File → ℕ → ℕ → Option ℕ
unfolding read_at from_be
number_at file offset n = read_at file offset n >> (λ bytes. some (from_be 0 bytes))

abbrev pub u8_at : File → ℕ → Option ℕ
u8_at file offset = number_at file offset 1

abbrev pub u32_at : File → ℕ → Option ℕ
u32_at file offset = number_at file offset 4

abbrev pub u64_at : File → ℕ → Option ℕ
u64_at file offset = number_at file offset 8

-- The size as it is written, with the length of the header.
unfoldable pub header_size : File → ℕ → ℕ → ℕ → Option (ℕ × ℕ)
unfolding number_at
header_size file offset limit size =
    if size == 1
    then u64_at file (offset + 8) >> (λ wide. some (wide, 16))
    else some (if size == 0 then limit - offset else size, 8)

unfoldable pub read_header : File → ℕ → ℕ → Option BoxHeader
unfolding header_size read_at from_be
read_header file offset limit = checked (offset + 8) >> (λ first.
    if ltb limit first
    then none
    else read_at file offset 8 >> (λ head.
      header_size file offset limit (from_be 0 (take 4 head)) >> (λ sized.
        if ltb sized.0 sized.1
        then none
        else checked (offset + sized.0) >> (λ last.
          if ltb limit last
          then none
          else some
              (record { start = offset; size = sized.0; kind = drop 4 head; header = sized.1 })))))

-- The loop of `children`; each round leaves less between the offset and the end.
unfoldable pub children_fuel : ℕ → File → ℕ → ℕ → List BoxHeader
unfolding read_header
children_fuel zero file offset end = []
children_fuel (suc fuel) file offset end = elim (read_header file offset end) [
  | none ↦ []
  | some h ↦ h ∷ children_fuel fuel file (box_end h) end
]

unfoldable pub children : File → ℕ → ℕ → List BoxHeader
unfolding children_fuel
children file start end = children_fuel (end - start) file start end

unfoldable pub flags_at : File → ℕ → Option ℕ
unfolding number_at
flags_at file offset = u32_at file (offset + 1) >> (λ word. some ((word / 256) % 2 ^ 24))

-- `flags & bit != 0`, for a power of two.
abbrev pub has : ℕ → ℕ → Bool
has flags bit = not ((flags / bit) % 2 == 0)

unfoldable pub full_box : File → BoxHeader → Option FullBox
unfolding number_at
full_box file h =
    u8_at file (body h) >> (λ version. some (record { version = version; payload = body h + 4 }))
