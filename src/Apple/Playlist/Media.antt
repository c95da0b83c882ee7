-- ===== src/Apple/Playlist/Media.antt =====
-- `parse_media_playlist` of crates/apple/src/wrapper/playlist.rs.
use peerless_server.Prelude.{
  ℕ, Bool, true, ◌&&◌, List, [], ◌∷◌, ◌++◌, Option, none, some, if◌then◌else◌, Result, ok, ◌>>=◌,
  ok_or, Text, text, trim, split, eq_text, starts_with, strip_prefix, lines,
}
use peerless_server.Stream.Pipe.{is_empty}
use peerless_server.Apple.Playlist.{
  MediaSegmentRef, MediaPlaylistInfo, WrapperError, no_init_segment, resolve_url, parse_byte_range,
  read_attributes,
}

-- The variables of the loop over the lines.
pub record Reading : Type 0 where
  pub init_uri : Option Text
  pub init_byte_range : Option (ℕ × ℕ)
  pub segments : List MediaSegmentRef
  pub current_key_uri : Option Text
  pub next_range : Option (ℕ × ℕ)
  pub key_method : Option Text
  pub cenc_kid_b64 : Option Text

-- The attributes of a key.
pub record Key : Type 0 where
  pub key_uri : Option Text
  pub key_method : Option Text
  pub key_format : Option Text

abbrev pub key_step : Key → Text → Text → Result Key WrapperError
key_step k key value =
    if eq_text key (text "METHOD")
    then ok (record k { key_method = some value })
    else if eq_text key (text "URI")
    then ok (record k { key_uri = some value })
    else if eq_text key (text "KEYFORMAT")
    then ok (record k { key_format = some value })
    else ok k

-- `uri.rsplit(',').next()`: what stands behind the last comma.
abbrev pub last_piece : List Text → Option Text
last_piece [] = none
last_piece (piece ∷ []) = some piece
last_piece (piece ∷ other ∷ pieces) = last_piece (other ∷ pieces)

abbrev pub is_apple_format : Option Text → Bool
is_apple_format none = true
is_apple_format (some format) = eq_text format (text "com.apple.streamingkeydelivery")

abbrev pub kid_of : Option Text → Option Text → Option Text
kid_of none earlier = earlier
kid_of (some uri) earlier = last_piece (split b',' uri)

-- What a key changes, by its method; the method itself is kept in any case.
unfoldable pub use_method : Reading → Key → Option Text → Reading
unfolding eq_text split
use_method s k none = s
use_method s k (some method) =
    if eq_text method (text "SAMPLE-AES") && is_apple_format k.key_format
    then record s { current_key_uri = k.key_uri }
    else if eq_text method (text "ISO-23001-7")
    then record s { current_key_uri = k.key_uri; cenc_kid_b64 = kid_of k.key_uri s.cenc_kid_b64 }
    else s

unfoldable pub use_key : Reading → Key → Reading
unfolding use_method
use_key s k = record (use_method s k k.key_method) { key_method = k.key_method }

-- The attributes of the init segment go into the state as they are read.
abbrev pub map_step : Text → Reading → Text → Text → Result Reading WrapperError
map_step media_url s key value =
    if eq_text key (text "URI")
    then ok (record s { init_uri = some (resolve_url media_url value) })
    else if eq_text key (text "BYTERANGE")
    then ok (record s { init_byte_range = parse_byte_range value })
    else ok s

abbrev pub add_segment : Text → Reading → Text → Reading
add_segment media_url s line = record s {
  segments =
      s.segments
      ++ record {
        uri = resolve_url media_url line;
        byte_range = s.next_range;
        key_uri = s.current_key_uri;
      }
        ∷ [];
  next_range = none;
}

abbrev pub no_key : Key
no_key = record { key_uri = none; key_method = none; key_format = none }

-- A line that is neither a key nor an init segment.
unfoldable pub plain_line : Text → Reading → Text → Reading
unfolding strip_prefix starts_with resolve_url parse_byte_range
plain_line media_url s line = elim (strip_prefix (text "#EXT-X-BYTERANGE:") line) [
  | some range_str ↦ record s { next_range = parse_byte_range range_str }
  | none ↦ if starts_with (text "#") line then s else add_segment media_url s line
]

unfoldable pub media_line : Text → Reading → Text → Result Reading WrapperError
unfolding strip_prefix read_attributes use_key plain_line eq_text resolve_url parse_byte_range
media_line media_url s line =
    if is_empty line then ok s else elim (strip_prefix (text "#EXT-X-KEY:") line) [
      | some attrs ↦ do k ← read_attributes key_step no_key attrs; ok (use_key s k)
      | none ↦ elim (strip_prefix (text "#EXT-X-MAP:") line) [
        | some attrs ↦ read_attributes (map_step media_url) s attrs
        | none ↦ ok (plain_line media_url s line)
      ]
    ]

unfoldable pub media_lines : Text → List Text → Reading → Result Reading WrapperError
unfolding media_line trim
media_lines media_url [] s = ok s
media_lines media_url (line ∷ content) s = do
  s' ← media_line media_url s (trim line)
  media_lines media_url content s'

abbrev pub all_at : Text → List MediaSegmentRef → Bool
all_at uri [] = true
all_at uri (segment ∷ segments) = eq_text segment.uri uri && all_at uri segments

abbrev pub start : Reading
start = record {
  init_uri = none;
  init_byte_range = none;
  segments = [];
  current_key_uri = none;
  next_range = none;
  key_method = none;
  cenc_kid_b64 = none;
}

unfoldable pub finish_media : Reading → Result MediaPlaylistInfo WrapperError
unfolding eq_text
finish_media s = do
  init_uri ← ok_or s.init_uri no_init_segment
  ok (record {
    init_uri = init_uri;
    init_byte_range = s.init_byte_range;
    segments = s.segments;
    single_file_url = if all_at init_uri s.segments then some init_uri else none;
    key_method = s.key_method;
    cenc_kid_b64 = s.cenc_kid_b64;
  })

unfoldable pub parse_media_playlist : Text → Text → Result MediaPlaylistInfo WrapperError
unfolding lines media_lines finish_media
parse_media_playlist content media_url = do
  s ← media_lines media_url (lines content) start
  finish_media s
