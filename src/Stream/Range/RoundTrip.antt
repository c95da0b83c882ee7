-- ===== src/Stream/Range/RoundTrip.antt =====
-- `ByteRange::parse` on the three forms of a range that HTTP writes.
use peerless_server.Prelude.{
  decimal, strip_prefix, Text, trim_graphic, IsGraphic, ℕ, ◌-◌, ◌≤◌, ◌≡◌, refl, ◌∙◌, ◌&&◌, [], ◌∷◌,
  ◌++◌, some, ltb, if◌then◌else◌, leb, All, All-append, All-map, arith, Result, ok, err, ◌>>=◌, min,
}
use peerless_server.Stream.Range.Decimal.{IsDigit, decimal-IsDigit, parse_u64-decimal}
use peerless_server.Stream.Range.Parse.{digit-IsGraphic, Avoids, split_dash}
use peerless_server.Stream.Range.{
  ByteRange, RangeError, invalid_range, u64_max, split, parse_u64, bounds, check_bounds,
  parse_parts, parse, bytes_prefix,
}

-- `a-b`, `a-` and `-n`.
pub data Form : Type 0 where
  closed : (a b : ℕ) → Form
  from : (a : ℕ) → Form
  suffix : (n : ℕ) → Form

abbrev pub left : Form → Text
left (closed a b) = decimal a
left (from a) = decimal a
left (suffix n) = []

abbrev pub right : Form → Text
right (closed a b) = decimal b
right (from a) = []
right (suffix n) = decimal n

abbrev pub header : Form → Text
header f = bytes_prefix ++ (left f ++ b'-' ∷ right f)

-- The range that the form asks for, cut at the end of the file: RFC 9110, section 14.1.2.
abbrev pub resolve : Form → ℕ → Result ByteRange RangeError
resolve (closed a b) size =
    if leb a b && ltb a size
    then ok (record { start = a; end = min b (size - 1) })
    else err invalid_range
resolve (from a) size =
    if ltb a size then ok (record { start = a; end = size - 1 }) else err invalid_range
resolve (suffix n) size =
    if ltb 0 n && ltb 0 size
    then ok (record { start = size - n; end = size - 1 })
    else err invalid_range

abbrev pub IsU64 : Form → Type 0
IsU64 (closed a b) = (a ≤ u64_max) × (b ≤ u64_max)
IsU64 (from a) = a ≤ u64_max
IsU64 (suffix n) = n ≤ u64_max

module _ {P : ℕ → Type 0} (digit : (c : ℕ) → IsDigit c → P c) where
  All-decimal : (n : ℕ) → All P (decimal n)
  All-decimal n = All-map IsDigit P (decimal n) digit (decimal-IsDigit n)

  All-left : (f : Form) → All P (left f)
  All-left (closed a b) = All-decimal a
  All-left (from a) = All-decimal a
  All-left (suffix n) = tt

  All-right : (f : Form) → All P (right f)
  All-right (closed a b) = All-decimal b
  All-right (from a) = tt
  All-right (suffix n) = All-decimal n

digit-Avoids : (c : ℕ) → IsDigit c → Avoids b'-' c
digit-Avoids c h = ground arith

header-IsGraphic : (f : Form) → All IsGraphic (header f)
header-IsGraphic f =
    All-append IsGraphic bytes_prefix (left f ++ b'-' ∷ right f)
      (refl, (refl, (refl, (refl, (refl, (refl, tt))))))
      (All-append IsGraphic (left f) _ (All-left digit-IsGraphic f)
        (refl, All-right digit-IsGraphic f))

split-header : (f : Form) → split b'-' (left f ++ b'-' ∷ right f) ≡ left f ∷ right f ∷ []
split-header f = split_dash (left f) (right f) (All-left digit-Avoids f) (All-right digit-Avoids f)

bounds_closed :
    (s t : Text) {a b : ℕ} (size : ℕ)
    → parse_u64 s ≡ some a
    → parse_u64 t ≡ some b
    → bounds s t size ≡ ok (record { start = a; end = b })
bounds_closed [] t size p q = unfold parse_u64 in cc p
bounds_closed (c ∷ cs) [] size p q = unfold parse_u64 in cc q
bounds_closed (c ∷ cs) (d ∷ ds) size p q = unfold bounds in rw (p, q)

bounds_from :
    (s : Text) {a : ℕ} (size : ℕ)
    → parse_u64 s ≡ some a
    → bounds s [] size ≡ ok (record { start = a; end = size - 1 })
bounds_from [] size p = unfold parse_u64 in cc p
bounds_from (c ∷ cs) size p = unfold bounds in rw p

bounds_suffix :
    (t : Text) {n : ℕ} (size : ℕ)
    → parse_u64 t ≡ some n
    → bounds [] t size ≡ ok (record { start = size - n; end = size - 1 })
bounds_suffix t size p = unfold bounds in rw p

bounds-resolve :
    (f : Form) (size : ℕ)
    → IsU64 f
    → (bounds (left f) (right f) size >>= check_bounds size) ≡ resolve f size
bounds-resolve (closed a b) size w =
    rw
      (bounds_closed (decimal a) (decimal b) size (parse_u64-decimal a w.0)
        (parse_u64-decimal b w.1))
      (unfold check_bounds in ground arith)
bounds-resolve (from a) size w =
    rw (bounds_from (decimal a) size (parse_u64-decimal a w)) (unfold check_bounds in ground arith)
bounds-resolve (suffix n) size w =
    rw (bounds_suffix (decimal n) size (parse_u64-decimal n w))
      (unfold check_bounds in ground arith)

parse_parts-trim :
    (s t : Text) (size : ℕ)
    → All IsGraphic s
    → All IsGraphic t
    → parse_parts (s ∷ t ∷ []) size ≡ (bounds s t size >>= check_bounds size)
parse_parts-trim s t size hs ht = unfold parse_parts in rw (trim_graphic s hs, trim_graphic t ht)

-- Each form of a range with 64-bit numbers, written as HTTP writes it, is read as the bytes of the
-- file that it asks for, cut at the end of the file, and refused where the file has none of them.
pub parse-resolve : (f : Form) (size : ℕ) → IsU64 f → parse (header f) size ≡ resolve f size
unfolding parse
parse-resolve f size w = rw (trim_graphic (header f) (header-IsGraphic f)) (
    unfold strip_prefix in
    rw (split-header f) (
      parse_parts-trim (left f) (right f) size (All-left digit-IsGraphic f)
        (All-right digit-IsGraphic f)
      ∙ bounds-resolve f size w))
