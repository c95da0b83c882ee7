-- ===== src/Engine/Filename.antt =====
-- `BoundedName` of crates/engine/src/filename.rs. A bounded name is its string; the capacity `MAX`
-- of its type is the argument `limit`. A value `none` is the panic of a string slice off a character
-- boundary.
pub mod Prefix
pub mod Bounds
pub mod Suffix
pub mod Tags
use mathlib.Core.List.{reverse}
use peerless_server.Prelude.{
  ℕ, zero, suc, ◌+◌, ◌-◌, Bool, true, false, not, ◌&&◌, ◌||◌, List, [], ◌∷◌, ◌++◌, map, Option,
  none, some, ltb, leb, ◌==◌, if◌then◌else◌, Result, ok, err, Text, trim, byte_len, is_control,
  strip_suffix, is_char_boundary, slice_to, eq_text,
}

infixl 5 ◌>>=◌
abbrev ◌>>=◌ {ℓ κ} : {A : Type ℓ} {B : Type κ} → Option A → (A → Option B) → Option B
none >>= f = none
some a >>= f = f a

abbrev pub max_filename_bytes : ℕ
max_filename_bytes = 255

abbrev pub max_archive_filename_bytes : ℕ
max_archive_filename_bytes = 245

abbrev pub max_zip_entry_filename_bytes : ℕ
max_zip_entry_filename_bytes = 240

pub data FilenameError : Type 0 where
  empty : FilenameError
  too_long : (len limit : ℕ) → FilenameError
  invalid_character : (c : ℕ) → FilenameError

abbrev pub is_forbidden_char : ℕ → Bool
is_forbidden_char c =
    c == b'<'
    || c == b'>'
    || c == b':'
    || c == b'"'
    || c == b'/'
    || c == 0x5c
    || c == b'|'
    || c == b'?'
    || c == b'*'
    || c == 0
    || is_control c

abbrev pub dot : Text
dot = b'.' ∷ []

abbrev pub dot_dot : Text
dot_dot = b'.' ∷ b'.' ∷ []

abbrev pub track : Text
track = b't' ∷ b'r' ∷ b'a' ∷ b'c' ∷ b'k' ∷ []

abbrev pub is_empty : Text → Bool
is_empty [] = true
is_empty (c ∷ cs) = false

-- The first forbidden character, which the loop of `try_new` returns.
unfoldable pub check_chars : Text → Text → Result Text FilenameError
check_chars whole [] = ok whole
check_chars whole (c ∷ cs) =
    if is_forbidden_char c then err (invalid_character c) else check_chars whole cs

unfoldable pub try_new : ℕ → Text → Result Text FilenameError
unfolding check_chars
try_new limit s =
    let trimmed = trim s in
    if is_empty trimmed
    then err empty
    else if eq_text trimmed dot || eq_text trimmed dot_dot
    then err (invalid_character b'.')
    else if ltb limit (byte_len trimmed)
    then err (too_long (byte_len trimmed) limit)
    else check_chars trimmed trimmed

-- The `while` of `bound_utf8_prefix`: back to a boundary between characters.
unfoldable pub retreat : Text → ℕ → ℕ
retreat s zero = zero
retreat s (suc n) = let back = retreat s n in if is_char_boundary s (suc n) then suc n else back

unfoldable pub bound_utf8_prefix : Text → ℕ → Option Text
unfolding retreat
bound_utf8_prefix s max_bytes =
    if leb (byte_len s) max_bytes then some s else slice_to s (retreat s max_bytes)

unfoldable pub replace_forbidden : Text → Text
replace_forbidden s = map (λ c. if is_forbidden_char c then b'_' else c) s

unfoldable pub or_track : Text → Text
or_track s = if is_empty s || eq_text s dot || eq_text s dot_dot then track else s

abbrev pub candidate : Text → Text
candidate name = or_track (trim (replace_forbidden name))

-- `Some(sfx) if candidate.ends_with(sfx)`, with what stands before the suffix.
unfoldable pub split_suffix : Text → Option Text → Option (Text × Text)
split_suffix s none = none
split_suffix s (some sfx) = elim (strip_suffix sfx s) [
  | none ↦ none
  | some prefix ↦ some (prefix, sfx)
]

unfoldable pub bound_around : ℕ → Text → Option (Text × Text) → Option Text
unfolding bound_utf8_prefix
bound_around limit s none = bound_utf8_prefix s limit
bound_around limit s (some (prefix, sfx)) =
    if leb limit (byte_len sfx)
    then bound_utf8_prefix s limit
    else (bound_utf8_prefix prefix (limit - byte_len sfx) >>= λ p. some (p ++ sfx))

unfoldable pub sanitize_and_bound : ℕ → Text → Option Text → Option Text
unfolding bound_around split_suffix or_track replace_forbidden
sanitize_and_bound limit name suffix = do
  bounded ← bound_around limit (candidate name) (split_suffix (candidate name) suffix)
  some (or_track bounded)

-- `rfind('.')`: what stands before the last dot, and the rest from it on.
unfoldable pub split_last_dot : Text → Option (Text × Text)
split_last_dot [] = none
split_last_dot (c ∷ cs) = elim (split_last_dot cs) [
  | some (stem, ext) ↦ some (c ∷ stem, ext)
  | none ↦ if c == b'.' then some ([], c ∷ cs) else none
]

-- A dot at the very start begins no extension.
unfoldable pub stem_ext : Text → Text × Text
unfolding split_last_dot
stem_ext s = elim (split_last_dot s) [
  | none ↦ (s, [])
  | some (stem, ext) ↦ if is_empty stem then (s, []) else (stem, ext)
]

unfoldable pub with_collision_id : ℕ → Text → Text → Option Text
unfolding stem_ext sanitize_and_bound bound_utf8_prefix
with_collision_id limit s collision_id =
    let (stem, ext) = stem_ext s in
    let collision_suffix = b'_' ∷ (replace_forbidden collision_id ++ ext) in
    let combined = sanitize_and_bound limit (stem ++ collision_suffix) (some ext) in
    if leb limit (byte_len collision_suffix)
    then combined
    else (bound_utf8_prefix stem (limit - byte_len collision_suffix) >>= λ p.
        some (p ++ collision_suffix))

abbrev pub dot_zip : Text
dot_zip = b'.' ∷ b'z' ∷ b'i' ∷ b'p' ∷ []

abbrev pub partial_suffix : Text
partial_suffix = b' ' ∷ b'[' ∷ b'P' ∷ b'a' ∷ b'r' ∷ b't' ∷ b'i' ∷ b'a' ∷ b'l' ∷ b']' ∷ []

unfoldable pub into_partial : Text → Text
into_partial s = elim (strip_suffix dot_zip s) [
  | some stem ↦ stem ++ (partial_suffix ++ dot_zip)
  | none ↦ s ++ partial_suffix
]
