-- ===== src/Prelude/Pieces.antt =====
-- The standard library's functions that take strings apart, besides those of Strings.
use mathlib.Core.List.{List, [], ◌∷◌, reverse}
use mathlib.Core.Bool.{Bool, true, false, ◌||◌}
use mathlib.Core.Option.{Option, none, some}
use Prim.Native.Nat.{ℕ}
use peerless_server.Prelude.Tests.{◌==◌, if◌then◌else◌}
use peerless_server.Prelude.Strings.{Text, strip_prefix, strip_suffix}

abbrev pub is_some {ℓ} : {A : Type ℓ} → Option A → Bool
is_some none = false
is_some (some a) = true

unfoldable pub starts_with : Text → Text → Bool
unfolding strip_prefix
starts_with prefix s = is_some (strip_prefix prefix s)

unfoldable pub ends_with : Text → Text → Bool
unfolding strip_suffix
ends_with suffix s = is_some (strip_suffix suffix s)

-- `contains` of a character.
unfoldable pub contains_char : ℕ → Text → Bool
contains_char c [] = false
contains_char c (x ∷ xs) = x == c || contains_char c xs

abbrev pub keep_before : ℕ → Option (Text × Text) → Option (Text × Text)
keep_before c none = none
keep_before c (some (before, behind)) = some (c ∷ before, behind)

-- `split_once` at a character: what stands before the first one, and behind it.
unfoldable pub split_once : ℕ → Text → Option (Text × Text)
split_once sep [] = none
split_once sep (c ∷ cs) =
    let rest = split_once sep cs in if c == sep then some ([], cs) else keep_before c rest

-- `&s[..pos]` for the `pos` of `rfind`: what stands before the last such character.
unfoldable pub before_last : ℕ → Text → Option Text
before_last sep [] = none
before_last sep (c ∷ cs) = elim (before_last sep cs) [
  | some before ↦ some (c ∷ before)
  | none ↦ if c == sep then some [] else none
]

unfoldable pub trim_start_char : ℕ → Text → Text
trim_start_char quote [] = []
trim_start_char quote (c ∷ cs) = if c == quote then trim_start_char quote cs else c ∷ cs

-- `trim_matches` of a character.
unfoldable pub trim_matches : ℕ → Text → Text
unfolding trim_start_char
trim_matches quote s = reverse (trim_start_char quote (reverse (trim_start_char quote s)))

-- The line that ends here, back to front: a carriage return before the line feed is not part of it.
abbrev pub end_line : Text → Text
end_line [] = []
end_line (c ∷ cs) = if c == 0xd then reverse cs else reverse (c ∷ cs)

-- `str::lines`: no empty line stands behind the last line feed.
unfoldable pub lines_onto : Text → Text → List Text
lines_onto [] [] = []
lines_onto (p ∷ ps) [] = reverse (p ∷ ps) ∷ []
lines_onto piece (c ∷ cs) =
    let next = end_line piece ∷ lines_onto [] cs in
    let more = lines_onto (c ∷ piece) cs in if c == 0xa then next else more

unfoldable pub lines : Text → List Text
unfolding lines_onto
lines s = lines_onto [] s
