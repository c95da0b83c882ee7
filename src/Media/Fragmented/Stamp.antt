-- ===== src/Media/Fragmented/Stamp.antt =====
-- What the stamp writes.
use native.Mathlib.Nat.{
  add-mul-mod_self_right, mod-eq_of_lt, mod-lt, div-add-mod', pow-suc, mul_assoc,
}
use peerless_server.Prelude.{
  ℕ, zero, suc, ◌+◌, ◌*◌, ◌/◌, ◌%◌, ◌^◌, ◌≤◌, ◌<◌, ◌≡◌, refl, ap, sym, ◌∙◌, inl, inr, true, ◌||◌,
  List, [], ◌∷◌, ◌++◌, Option, none, some, ltb, leb, ◌==◌, Bool-cases, Option-cases, arith, length,
  take, drop, length-append, length-take, length-drop,
}
use peerless_server.Media.Fragmented.{
  File, DurationField, FragmentScan, from_be, to_be, width, encode, read_at, number_at, scan_ticks,
  duration_secs,
}
use peerless_server.Media.Fragmented.Scan.{scan}
use peerless_server.Media.Fragmented.Overwrite.{overwrite, stamp_field, stamp_fragmented_duration}

-- The remainder, digit by digit.
mod-mul : (t m : ℕ) → 0 < m → (t / 256 % m) * 256 + t % 256 ≡ t % (m * 256)
mod-mul t m p =
    let q = t / 256 in
    let e : t ≡ (q % m * 256 + t % 256) + q / m * (m * 256) =
      let a = div-add-mod' t 256 in
      let b = div-add-mod' q m in let c = mul_assoc (q / m) m 256 in grind (arith, a, b, c) in
    let small : q % m * 256 + t % 256 < m * 256 =
      omega (arith, mod-lt q p, mod-lt t {m = 256} (omega arith)) in
    sym (
      ap (λ n. n % (m * 256)) e ∙ (add-mul-mod_self_right _ (q / m) (m * 256) ∙ mod-eq_of_lt small))

from_be-append : (acc : ℕ) (xs ys : List ℕ) → from_be acc (xs ++ ys) ≡ from_be (from_be acc xs) ys
unfolding from_be
from_be-append acc [] ys = refl
from_be-append acc (x ∷ xs) ys = from_be-append (acc * 256 + x) xs ys

pow-pos : (n : ℕ) → 0 < 256 ^ n
pow-pos zero = omega arith
pow-pos (suc n) = let e = pow-suc 256 n in omega (arith, pow-pos n, e)

from_be-to_be : (n ticks : ℕ) → from_be 0 (to_be n ticks) ≡ ticks % 256 ^ n
unfolding from_be to_be
from_be-to_be zero ticks = omega arith
from_be-to_be (suc n) ticks =
    from_be-append 0 (to_be n (ticks / 256)) ((ticks % 256) ∷ [])
    ∙ (ap (λ x. x * 256 + ticks % 256) (from_be-to_be n (ticks / 256))
        ∙ (mod-mul ticks (256 ^ n) (pow-pos n) ∙ ap (λ m. ticks % m) (sym (pow-suc 256 n))))

length-to_be : (n ticks : ℕ) → length (to_be n ticks) ≡ n
unfolding to_be
length-to_be zero ticks = refl
length-to_be (suc n) ticks = omega (
  arith,
  length-append (to_be n (ticks / 256)) ((ticks % 256) ∷ []),
  length-to_be n (ticks / 256),
)

length-encode : (field : DurationField) (ticks : ℕ) → length (encode field ticks) ≡ width field
unfolding encode
length-encode field ticks = length-to_be (width field) ticks

encode-from_be :
    (field : DurationField) (ticks : ℕ) → from_be 0 (encode field ticks) ≡ ticks % 256 ^ width field
unfolding encode
encode-from_be field ticks = from_be-to_be (width field) ticks

length-overwrite :
    (at : ℕ) (bytes : List ℕ) (file : File)
    → at + length bytes ≤ length file
    → length (overwrite at bytes file) ≡ length file
unfolding overwrite
length-overwrite at bytes file h = omega (
  arith,
  length-append (take at file) (bytes ++ drop (at + length bytes) file),
  length-append bytes (drop (at + length bytes) file),
  length-take at file,
  length-drop (at + length bytes) file,
)

take-append_length : {A : Type 0} (xs ys : List A) → take (length xs) (xs ++ ys) ≡ xs
take-append_length [] ys = refl
take-append_length (x ∷ xs) ys = ap (◌∷◌ x) (take-append_length xs ys)

drop-append_length : {A : Type 0} (xs ys : List A) → drop (length xs) (xs ++ ys) ≡ ys
drop-append_length [] ys = refl
drop-append_length (x ∷ xs) ys = drop-append_length xs ys

overwrite-bytes :
    (at : ℕ) (bytes : List ℕ) (file : File)
    → at + length bytes ≤ length file
    → take (length bytes) (drop at (overwrite at bytes file)) ≡ bytes
unfolding overwrite
overwrite-bytes at bytes file h =
    let l : length (take at file) ≡ at = omega (arith, length-take at file) in
    let rest = bytes ++ drop (at + length bytes) file in
    let d : drop at (take at file ++ rest) ≡ rest =
      ap (λ n. drop n (take at file ++ rest)) (sym l) ∙ drop-append_length (take at file) rest in
    ap (take (length bytes)) d ∙ take-append_length bytes (drop (at + length bytes) file)

overwrite-read :
    (at : ℕ) (bytes : List ℕ) (file : File)
    → at + length bytes ≤ length file
    → read_at (overwrite at bytes file) at (length bytes) ≡ some bytes
unfolding read_at
overwrite-read at bytes file h =
    let l = length-overwrite at bytes file h in
    let fits : leb (at + length bytes) (length (overwrite at bytes file)) ≡ true =
      ground (arith, l) in
    rw fits (ap some (overwrite-bytes at bytes file h))

number_at-read :
    (file : File) (offset n : ℕ) (bytes : List ℕ)
    → read_at file offset n ≡ some bytes
    → number_at file offset n ≡ some (from_be 0 bytes)
unfolding number_at
number_at-read file offset n bytes e = rw e refl

stamp_field-number_at :
    (o : Option DurationField) (field : DurationField) (ticks : ℕ) (file : File)
    → o ≡ some field
    → (stamp_field o ticks file).1 ≡ true
    → number_at (stamp_field o ticks file).0 field.offset (width field)
      ≡ some (ticks % 256 ^ width field)
unfolding stamp_field
stamp_field-number_at none field ticks file m h = cc
stamp_field-number_at (some other) field ticks file m h =
    let same : other ≡ field = cc in
    elim (Bool-cases (ltb (length file) (field.offset + width field))) [
      | inl e ↦ cc (rw (same, e) at h)
      | inr e ↦
          let l = length-encode field ticks in
          let written = overwrite field.offset (encode field ticks) file in
          let r = overwrite-read field.offset (encode field ticks) file (ground (arith, l)) in
          let k : read_at written field.offset (width field) ≡ some (encode field ticks) =
            ap (λ n. read_at written field.offset n) (sym l) ∙ r in
          rw (same, e)
            (number_at-read written field.offset (width field) (encode field ticks) k
              ∙ ap some (encode-from_be field ticks))
    ]

duration_secs-eq :
    (s : FragmentScan) {duration : ℕ × ℕ}
    → duration_secs s ≡ some duration
    → duration ≡ (scan_ticks s, s.timescale)
unfolding duration_secs
duration_secs-eq s h = elim (Bool-cases (s.fragments == 0 || s.timescale == 0)) [
  | inl e ↦ cc (rw (duration_secs, e) at h)
  | inr e ↦ elim (Bool-cases (scan_ticks s == 0)) [
    | inl z ↦ cc (rw (duration_secs, e, z) at h)
    | inr z ↦ cc (rw (duration_secs, e, z) at h)
  ]
]

-- What a stamp that succeeds has done, by its two fields.
stamp-stages :
    (file : File) {duration : ℕ × ℕ}
    → (stamp_fragmented_duration file).1 ≡ some duration
    → let s = scan file in
      let first = stamp_field s.mvhd (scan_ticks s) file in
      (duration_secs s ≡ some duration)
      × ((stamp_field s.mdhd (scan_ticks s) first.0).1 ≡ true)
      × ((stamp_fragmented_duration file).0 ≡ (stamp_field s.mdhd (scan_ticks s) first.0).0)
unfolding stamp_fragmented_duration
stamp-stages file h =
    let s = scan file in
    let t = scan_ticks s in
    elim (Option-cases (duration_secs s)) [
      | inl e ↦ cc (rw (stamp_fragmented_duration, e) at h)
      | inr (d, e) ↦ elim (Bool-cases (stamp_field s.mvhd t file).1) [
        | inl x ↦ elim (Bool-cases (stamp_field s.mdhd t (stamp_field s.mvhd t file).0).1) [
          | inl y ↦ (
            cc (rw (stamp_fragmented_duration, e, x, y) at h),
            y,
            rw (stamp_fragmented_duration, e, x, y) refl,
          )
          | inr y ↦ cc (rw (stamp_fragmented_duration, e, x, y) at h)
        ]
        | inr x ↦ cc (rw (stamp_fragmented_duration, e, x) at h)
      ]
    ]

-- After a stamp that succeeds, the duration field of the media header, if the scan found one, reads
-- as the number of ticks, modulo 2 ^ 32 or 2 ^ 64 by the width of the field, and the result is the
-- number of ticks over the timescale of the scan.
pub stamp_fragmented_duration-number_at :
    (file : File) (field : DurationField) {duration : ℕ × ℕ}
    → (stamp_fragmented_duration file).1 ≡ some duration
    → (scan file).mdhd ≡ some field
    → (number_at (stamp_fragmented_duration file).0 field.offset (width field)
        ≡ some (scan_ticks (scan file) % 256 ^ width field))
      × (duration ≡ (scan_ticks (scan file), (scan file).timescale))
stamp_fragmented_duration-number_at file field {duration} h m =
    let s = scan file in
    let (d, y, z) = stamp-stages file h in
    let first = (stamp_field s.mvhd (scan_ticks s) file).0 in
    (rw z (stamp_field-number_at s.mdhd field (scan_ticks s) first m y), duration_secs-eq s d)
