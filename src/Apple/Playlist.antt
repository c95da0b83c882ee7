-- ===== src/Apple/Playlist.antt =====
-- The HLS playlists of crates/apple/src/wrapper/playlist.rs: URLs, byte ranges and attribute lists.
-- Master and Media hold the two parsers.
pub mod Master
pub mod Variants
pub mod Media
pub mod Total
pub mod Groups
pub mod Panics
pub mod Ranking
pub mod Selection
pub mod Segments
mod Tests
use peerless_server.Prelude.{
  ◌-◌, ℕ, ◌+◌, ◌^◌, Bool, true, false, not, ◌&&◌, ◌||◌, List, [], ◌∷◌, ◌++◌, reverse, Option, none,
  some, leb, ltb, ◌==◌, if◌then◌else◌, Result, ok, err, ◌>>=◌, ok_or, Text, text, trim, split,
  byte_len, starts_with, ends_with, contains_char, split_once, before_last, trim_matches,
  strip_prefix, strip_suffix, slice,
}
use peerless_server.Stream.Range.{parse_u64}
use peerless_server.Stream.Pipe.{is_empty}
use peerless_server.Core.Retry.{at_most, u32_max}

pub record StreamVariant : Type 0 where
  pub uri : Text
  pub codec : Text
  pub group_id : Text
  pub bandwidth : ℕ

pub record AlacStreamInfo : Type 0 where
  pub stream_url : Text
  pub codec : Text
  pub sample_rate : ℕ
  pub bit_depth : ℕ

pub record MediaSegmentRef : Type 0 where
  pub uri : Text
  pub byte_range : Option (ℕ × ℕ)
  pub key_uri : Option Text

pub record MediaPlaylistInfo : Type 0 where
  pub init_uri : Text
  pub init_byte_range : Option (ℕ × ℕ)
  pub segments : List MediaSegmentRef
  pub single_file_url : Option Text
  pub key_method : Option Text
  pub cenc_kid_b64 : Option Text

-- The messages that the parsers give, and the one other variant of `WrapperError` that they use.
-- `panicked` is a panic: of an `expect`, an `unwrap`, an index or a slice.
pub data WrapperError : Type 0 where
  malformed_attribute not_master no_variants uri_missing empty_variant_tag malformed_variant_tag
        bandwidth_missing codecs_missing no_audio_variant no_atmos_variant_in_valid_master
        no_init_segment panicked :
      WrapperError
  invalid_number : (attribute value : Text) → WrapperError
  invalid_audio_group invalid_alac_group : (group_id : Text) → WrapperError

pub data CodecPreference : Type 0 where
  highest_quality hi_res192 hi_res96 lossless_cd atmos : CodecPreference

abbrev pub first_piece : ℕ → Text → Text
first_piece sep s = elim (split_once sep s) [ none ↦ s | some (before, behind) ↦ before ]

unfoldable pub resolve_url : Text → Text → Text
unfolding starts_with split_once before_last
resolve_url base uri =
    if starts_with (text "http://") uri || starts_with (text "https://") uri
    then uri
    else elim (before_last b'/' (first_piece b'?' base)) [
      | some directory ↦ directory ++ text "/" ++ uri
      | none ↦ uri
    ]

-- The range is kept as its offset and its length.
abbrev pub offset_and_length : Option ℕ → Option ℕ → Option (ℕ × ℕ)
offset_and_length (some length) (some offset) = some (offset, length)
offset_and_length (some length) none = none
offset_and_length none offset = none

unfoldable pub parse_byte_range : Text → Option (ℕ × ℕ)
unfolding trim_matches trim split_once parse_u64
parse_byte_range val =
    let val' = trim (trim_matches b'"' val) in
    elim (split_once b'@' val') [
      | some (len_str, off_str) ↦ offset_and_length (parse_u64 len_str) (parse_u64 off_str)
      | none ↦ offset_and_length (parse_u64 val') (some 0)
    ]

abbrev pub is_quote_first : Text → Bool
is_quote_first [] = false
is_quote_first (c ∷ cs) = c == b'"'

abbrev pub malformed_if : Bool → Result (Unit {0}) WrapperError
malformed_if b = if b then err malformed_attribute else ok tt

abbrev pub check_inside : Option Text → Result (Unit {0}) WrapperError
check_inside none = err panicked
check_inside (some quoted) = malformed_if (is_empty quoted || contains_char b'"' quoted)

-- The value of an attribute: all of it quoted with no quote inside, or no quote at all. A value that
-- begins with a quote has a byte, so that the subtraction of 1 does not underflow.
unfoldable pub validate_value : Text → Result (Unit {0}) WrapperError
unfolding ends_with contains_char slice
validate_value value =
    if is_quote_first value
    then (if ltb (byte_len value) 2 || not (ends_with (text "\"") value)
        then err malformed_attribute
        else check_inside (slice value 1 (byte_len value - 1)))
    else malformed_if (contains_char b'"' value)

unfoldable pub validate_attribute_component : Text → Result (Unit {0}) WrapperError
unfolding split_once trim validate_value
validate_attribute_component part = elim (split_once b'=' part) [
  | none ↦ err malformed_attribute
  | some (key, value) ↦
      if is_empty (trim key) || is_empty (trim value)
      then err malformed_attribute
      else validate_value (trim value)
]

-- The loop over the characters: `piece` is what stands since the last cut, back to front.
unfoldable pub attributes_onto : Text → Bool → Text → Result (List Text) WrapperError
unfolding validate_attribute_component trim
attributes_onto piece in_quotes [] =
    let tail_part = trim (reverse piece) in
    if in_quotes
    then err malformed_attribute
    else do _ ← validate_attribute_component tail_part; ok (tail_part ∷ [])
attributes_onto piece in_quotes (c ∷ cs) =
    let part = trim (reverse piece) in
    let toggled = attributes_onto (c ∷ piece) (not in_quotes) cs in
    let next = attributes_onto [] false cs in
    let more = attributes_onto (c ∷ piece) in_quotes cs in
    if c == b'"'
    then toggled
    else if c == b',' && not in_quotes
    then (do _ ← validate_attribute_component part; parts ← next; ok (part ∷ parts))
    else more

unfoldable pub split_attributes : Text → Result (List Text) WrapperError
unfolding attributes_onto trim
split_attributes s =
    if is_empty (trim s) then err malformed_attribute else attributes_onto [] false s

abbrev pub invalid_unless_positive : Text → Text → Option ℕ → Result ℕ WrapperError
invalid_unless_positive attribute value none = err (invalid_number attribute value)
invalid_unless_positive attribute value (some n) =
    if n == 0 then err (invalid_number attribute value) else ok n

unfoldable pub parse_positive_u64 : Text → Text → Result ℕ WrapperError
unfolding parse_u64
parse_positive_u64 value attribute = invalid_unless_positive attribute value (parse_u64 value)

abbrev pub parse_u32 : Text → Option ℕ
parse_u32 value = elim (parse_u64 value) [ none ↦ none | some n ↦ at_most u32_max n ]

unfoldable pub parse_positive_u32 : Text → Text → Result ℕ WrapperError
unfolding parse_u64
parse_positive_u32 value attribute = invalid_unless_positive attribute value (parse_u32 value)

-- One attribute as the consumers read it: the trimmed key and the value without its quotes. The loop
-- over the attributes hands each to `step`.
module _ {S : Type 0} (step : S → Text → Text → Result S WrapperError) where
  unfoldable pub attribute : S → Option (Text × Text) → Result S WrapperError
  unfolding trim trim_matches
  attribute s none = err panicked
  attribute s (some (key, value)) = step s (trim key) (trim_matches b'"' (trim value))

  unfoldable pub each_attribute : S → List Text → Result S WrapperError
  unfolding attribute split_once
  each_attribute s [] = ok s
  each_attribute s (part ∷ parts) = do
    s' ← attribute s (split_once b'=' part)
    each_attribute s' parts

  unfoldable pub read_attributes : S → Text → Result S WrapperError
  unfolding split_attributes each_attribute
  read_attributes s attrs = do parts ← split_attributes attrs; each_attribute s parts
