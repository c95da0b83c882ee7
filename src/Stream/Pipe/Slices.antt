-- ===== src/Stream/Pipe/Slices.antt =====
-- The slices of a chunk that the pipe of crates/stream/src/pipe.rs cuts, as segments of the file.
use peerless_server.Prelude.{
  ℕ, ◌+◌, ◌-◌, ◌*◌, ◌/◌, ◌≤◌, ◌<◌, ◌≡◌, ap, ◌∙◌, true, some, leb, ◌==◌, min, max, length, take,
  drop, Bool-cases, inl, inr, arith, segment, take-drop-take, drop-drop, length-take, length-drop,
  mul-le-mul, mul-le_of_le_div, lt-mul_of_div_lt,
}
use peerless_server.Stream.Range.{ByteRange}
use peerless_server.Stream.Pipe.{chunk_size, Bytes, slice, slice_start, slice_end}

-- Chunk `i` of a file; the last one may be short.
abbrev pub chunk_of : Bytes → ℕ → Bytes
chunk_of file i = take chunk_size (drop (i * chunk_size) file)

pub chunk_size_pos : 0 < chunk_size
unfolding chunk_size
chunk_size_pos = omega arith

-- How far the range has been sent when chunk `i` is the next one.
unfoldable pub position : ByteRange → ℕ → ℕ
position range i = min (range.end + 1) (max range.start (i * chunk_size))

pub cut_start :
    (range : ByteRange) (i : ℕ)
    → range.start / chunk_size ≤ i
    → i ≤ range.end / chunk_size
    → range.start ≤ range.end
    → i * chunk_size + slice_start range i ≡ position range i
unfolding position
cut_start range i h k o = elim (Bool-cases (i == range.start / chunk_size)) [
  | inl e ↦ rw e (
      omega (
        arith,
        mul-le_of_le_div i range.start chunk_size (ground arith),
        mul-le_of_le_div i range.end chunk_size k,
      ))
  | inr e ↦ rw e (
      omega (
        arith,
        lt-mul_of_div_lt i range.start chunk_size chunk_size_pos (ground arith),
        mul-le_of_le_div i range.end chunk_size k,
      ))
]

pub cut_end :
    (range : ByteRange) (file : Bytes) (i : ℕ)
    → range.start / chunk_size ≤ i
    → i ≤ range.end / chunk_size
    → range.start ≤ range.end
    → range.end < length file
    → i * chunk_size + min (slice_end range i (chunk_of file i)) (length (chunk_of file i))
      ≡ position range (i + 1)
unfolding position
cut_end range file i h k o w =
    let l : length (chunk_of file i) ≡ min chunk_size (length file - i * chunk_size) =
      length-take chunk_size (drop (i * chunk_size) file)
      ∙ ap (min chunk_size) (length-drop (i * chunk_size) file) in
    elim (Bool-cases (i == range.end / chunk_size)) [
      | inl e ↦ rw e (
          rw l (
            omega (
              arith,
              mul-le_of_le_div i range.end chunk_size k,
              lt-mul_of_div_lt (i + 1) range.end chunk_size chunk_size_pos (ground arith),
            )))
      | inr e ↦ rw e (
          rw l (
            omega (
              arith,
              mul-le_of_le_div (i + 1) range.end chunk_size (ground arith),
              lt-mul_of_div_lt (i + 1) range.start chunk_size chunk_size_pos (omega arith),
            )))
    ]

pub position_lt :
    (range : ByteRange) (i : ℕ)
    → i ≤ range.end / chunk_size
    → range.start / chunk_size ≤ i
    → range.start ≤ range.end
    → position range i < position range (i + 1)
unfolding position
position_lt range i k h o = omega (
  arith,
  mul-le_of_le_div i range.end chunk_size k,
  lt-mul_of_div_lt (i + 1) range.start chunk_size chunk_size_pos (omega arith),
  chunk_size_pos,
)

pub position_mono : (range : ByteRange) (i j : ℕ) → i ≤ j → position range i ≤ position range j
unfolding position
position_mono range i j h = omega (arith, mul-le-mul i j chunk_size h)

pub slice_chunk :
    (file : Bytes) (i a b : ℕ)
    → a ≤ b
    → b ≤ length (chunk_of file i)
    → slice (chunk_of file i) a b ≡ some (segment (i * chunk_size + a) (i * chunk_size + b) file)
unfolding slice
slice_chunk file i a b h k =
    let ta : leb a b ≡ true = ground arith in
    let tb : leb b (length (chunk_of file i)) ≡ true = ground arith in
    let short : b ≤ chunk_size =
      omega (arith, length-take chunk_size (drop (i * chunk_size) file)) in
    let e : (i * chunk_size + b) - (i * chunk_size + a) ≡ b - a = omega arith in
    rw (
      ta,
      tb,
      e,
      take-drop-take (b - a) a chunk_size (drop (i * chunk_size) file) (omega arith),
      drop-drop a (i * chunk_size) file,
    )
