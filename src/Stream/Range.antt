-- ===== src/Stream/Range.antt =====
-- `ByteRange` of crates/stream/src/pipe.rs: the HTTP byte range and its parser. Texts are lists of
-- code points; `str::trim`, `strip_prefix`, `split` and `u64::from_str` are the standard library's.
pub mod Decimal
pub mod Parse
pub mod RoundTrip
use peerless_server.Prelude.{
  split, strip_prefix, Text, trim, ℕ, suc, ◌+◌, ◌-◌, ◌*◌, ◌^◌, ◌%◌, Bool, true, false, not, ◌&&◌,
  ◌||◌, List, [], ◌∷◌, ◌++◌, Option, none, some, ltb, leb, ◌==◌, if◌then◌else◌, Result, ok, err,
  ◌>>=◌, ok_or, min, length,
}
use mathlib.Core.List.{reverse}

abbrev pub is_digit : ℕ → Bool
is_digit c = leb b'0' c && leb c b'9'

abbrev pub u64_max : ℕ
u64_max = 0xffff_ffff_ffff_ffff

-- The digits behind the first, with the overflow checks of `u64::from_str`.
unfoldable pub digits_onto : ℕ → Text → Option ℕ
digits_onto acc [] = some acc
digits_onto acc (c ∷ cs) =
    let value = acc * 10 + (c - b'0') in
    let rest = digits_onto value cs in if is_digit c && leb value u64_max then rest else none

-- A sign `+` is allowed, and no digits at all is an error.
unfoldable pub digits : Text → Option ℕ
unfolding digits_onto
digits [] = none
digits (c ∷ cs) = digits_onto 0 (c ∷ cs)

unfoldable pub parse_u64 : Text → Option ℕ
unfolding digits
parse_u64 [] = none
parse_u64 (c ∷ cs) = if c == b'+' then digits cs else digits (c ∷ cs)

pub record ByteRange : Type 0 where
  pub start : ℕ
  pub end : ℕ

unfoldable pub range_length : ByteRange → ℕ
range_length r = ((r.end - r.start) + 1) % 2 ^ 64

-- The message of `StreamError::InvalidRange` is not kept.
pub data RangeError : Type 0 where
  invalid_range : RangeError

abbrev pub bytes_prefix : Text
bytes_prefix = b'b' ∷ b'y' ∷ b't' ∷ b'e' ∷ b's' ∷ b'=' ∷ []

abbrev pub or_whole : Option Text → Text → Text
or_whole none s = s
or_whole (some t) s = t

abbrev pub parse_num : Text → Result ℕ RangeError
parse_num val = ok_or (parse_u64 val) invalid_range

-- The three cases of the two trimmed parts: a suffix, an open range, a closed range.
unfoldable pub bounds : Text → Text → ℕ → Result ByteRange RangeError
unfolding parse_u64
bounds [] end_str file_size = do
  suffix ← parse_num end_str
  ok (record { start = file_size - suffix; end = file_size - 1 })
bounds (c ∷ cs) [] file_size = do
  start ← parse_num (c ∷ cs)
  ok (record { start = start; end = file_size - 1 })
bounds (c ∷ cs) (d ∷ ds) file_size = do
  start ← parse_num (c ∷ cs)
  end ← parse_num (d ∷ ds)
  ok (record { start = start; end = end })

unfoldable pub check_bounds : ℕ → ByteRange → Result ByteRange RangeError
check_bounds file_size r =
    if ltb r.end r.start || leb file_size r.start
    then err invalid_range
    else ok (record r { end = min r.end (file_size - 1) })

unfoldable pub parse_parts : List Text → ℕ → Result ByteRange RangeError
unfolding bounds check_bounds trim
parse_parts (first ∷ second ∷ []) file_size =
    bounds (trim first) (trim second) file_size >>= check_bounds file_size
parse_parts _ file_size = err invalid_range

unfoldable pub parse : Text → ℕ → Result ByteRange RangeError
unfolding trim strip_prefix split parse_parts
parse header file_size =
    let s = trim header in
    parse_parts (split b'-' (or_whole (strip_prefix bytes_prefix s) s)) file_size
