-- ===== src/Prelude/Strings.antt =====
-- The standard library's functions on strings that the program calls. A string is the list of its
-- code points; its `len()` counts the bytes of UTF-8.
use mathlib.Core.List.{◌++◌, List, [], ◌∷◌, reverse, reverse-reverse}
use mathlib.Core.Path.{◌≡◌, refl}
use mathlib.Core.Logic.{◌↔◌}
use mathlib.Core.Bool.{Bool, true, false, ◌&&◌, ◌||◌}
use mathlib.Core.Option.{Option, none, some}
use mathlib.Core.Option
use Prim.Native.Nat.{◌<◌, zero, ◌%◌, ◌/◌, suc, ℕ, ◌+◌, ◌-◌}
use Prim.Native.Char.{code}
use Prim.Native.String.{String}
use native.Mathlib.Omega.{arith}
use peerless_server.Prelude.Tests.{ltb, leb, ◌==◌, if◌then◌else◌}
use peerless_server.Prelude.Lists.{All, All-reverse}

abbrev pub Text : Type 0
Text = List ℕ

-- `char::is_whitespace`.
abbrev pub is_whitespace : ℕ → Bool
is_whitespace c =
    (leb 0x9 c && leb c 0xd)
    || c == 0x20
    || c == 0x85
    || c == 0xa0
    || c == 0x1680
    || (leb 0x2000 c && leb c 0x200a)
    || c == 0x2028
    || c == 0x2029
    || c == 0x202f
    || c == 0x205f
    || c == 0x3000

unfoldable pub trim_start : Text → Text
trim_start [] = []
trim_start (c ∷ cs) = if is_whitespace c then trim_start cs else c ∷ cs

unfoldable pub trim : Text → Text
unfolding trim_start
trim s = reverse (trim_start (reverse (trim_start s)))

-- `strip_prefix`: `none` where the text does not begin so.
unfoldable pub strip_prefix : Text → Text → Option Text
strip_prefix [] s = some s
strip_prefix (p ∷ ps) [] = none
strip_prefix (p ∷ ps) (c ∷ cs) = if c == p then strip_prefix ps cs else none

-- `split` at a character: the current piece is carried back to front.
unfoldable pub split_onto : Text → ℕ → Text → List Text
split_onto piece sep [] = reverse piece ∷ []
split_onto piece sep (c ∷ cs) =
    let cut = reverse piece ∷ split_onto [] sep cs in
    let more = split_onto (c ∷ piece) sep cs in if c == sep then cut else more

unfoldable pub split : ℕ → Text → List Text
unfolding split_onto
split sep s = split_onto [] sep s

abbrev pub IsGraphic : ℕ → Type 0
IsGraphic c = is_whitespace c ≡ false

trim_start_graphic : (s : Text) → All IsGraphic s → trim_start s ≡ s
unfolding trim_start
trim_start_graphic [] h = refl
trim_start_graphic (c ∷ cs) h = ground arith

-- A text with no white space is trimmed to itself.
pub trim_graphic : (s : Text) → All IsGraphic s → trim s ≡ s
unfolding trim
trim_graphic s h =
    rw (trim_start_graphic s h, trim_start_graphic (reverse s) (All-reverse IsGraphic s h))
      (reverse-reverse s)

-- `char::len_utf8`.
abbrev pub len_utf8 : ℕ → ℕ
len_utf8 c = if ltb c 0x80 then 1 else if ltb c 0x800 then 2 else if ltb c 0x10000 then 3 else 4

-- `str::len`, in bytes.
abbrev pub byte_len : Text → ℕ
byte_len [] = 0
byte_len (c ∷ cs) = len_utf8 c + byte_len cs

abbrev pub IsByte : ℕ → Type 0
IsByte b = b < 256

-- `char::is_control`.
abbrev pub is_control : ℕ → Bool
is_control c = ltb c 0x20 || (leb 0x7f c && leb c 0x9f)

unfoldable pub strip_suffix : Text → Text → Option Text
unfolding strip_prefix
strip_suffix suffix s = Option.map reverse (strip_prefix (reverse suffix) (reverse s))

unfoldable pub is_char_boundary : Text → ℕ → Bool
is_char_boundary [] n = n == 0
is_char_boundary (c ∷ cs) n = n == 0 || (leb (len_utf8 c) n && is_char_boundary cs (n - len_utf8 c))

-- `&s[..n]`; `none` is its panic, when `n` is no boundary between characters.
unfoldable pub slice_to : Text → ℕ → Option Text
slice_to [] n = if n == 0 then some [] else none
slice_to (c ∷ cs) n =
    let rest = Option.map (◌∷◌ c) (slice_to cs (n - len_utf8 c)) in
    if n == 0 then some [] else if leb (len_utf8 c) n then rest else none

-- `&s[n..]`, and its panic.
unfoldable pub slice_from : Text → ℕ → Option Text
slice_from [] n = if n == 0 then some [] else none
slice_from (c ∷ cs) n =
    let rest = slice_from cs (n - len_utf8 c) in
    if n == 0 then some (c ∷ cs) else if leb (len_utf8 c) n then rest else none

-- `&s[begin..end]`, and its panics.
unfoldable pub slice : Text → ℕ → ℕ → Option Text
unfolding slice_to slice_from
slice s begin end =
    if leb begin end
    then elim (slice_to s end) [ none ↦ none | some cut ↦ slice_from cut begin ]
    else none

-- Equality of two strings.
unfoldable pub eq_text : Text → Text → Bool
eq_text [] [] = true
eq_text (a ∷ as') (b ∷ bs) = a == b && eq_text as' bs
eq_text _ _ = false

pub eq_text_iff : (a b : Text) → (eq_text a b ≡ true) ↔ (a ≡ b)
unfolding eq_text
eq_text_iff (x ∷ a) (y ∷ b) = ground (arith, eq_text_iff a b)
eq_text_iff _ _ = ground arith

-- `Display` of an unsigned number: its decimal notation, with one round of fuel for each digit.
abbrev pub decimal_fuel : ℕ → ℕ → Text
decimal_fuel zero n = []
decimal_fuel (suc f) n =
    let more = decimal_fuel f (n / 10) in
    if ltb n 10 then (b'0' + n) ∷ [] else more ++ (b'0' + n % 10) ∷ []

unfoldable pub decimal : ℕ → Text
decimal n = decimal_fuel (suc n) n

-- A string literal.
abbrev pub text : String → Text
text String.[] = []
text (String.◌∷◌ c s) = code c ∷ text s
