-- ===== src/Apple/Playlist/Master.antt =====
-- The attributes and groups of a master playlist in crates/apple/src/wrapper/playlist.rs. The content is the
-- list of its lines.
use peerless_server.Prelude.{
  get_elem?, ℕ, ◌-◌, ◌^◌, Bool, false, not, ◌&&◌, ◌||◌, List, [], ◌∷◌, ◌++◌, Option, none, some,
  leb, ltb, if◌then◌else◌, Result, ok, err, ◌>>=◌, ok_or, Text, text, trim, split, eq_text,
  starts_with, split_once, strip_prefix, length,
}
use peerless_server.Stream.Pipe.{is_empty}
use peerless_server.Apple.Playlist.{
  panicked, StreamVariant, WrapperError, empty_variant_tag, malformed_variant_tag,
  bandwidth_missing, codecs_missing, invalid_audio_group, invalid_alac_group, first_piece,
  resolve_url, parse_positive_u64, parse_positive_u32, read_attributes,
}

abbrev pub media_tag : Text
media_tag = text "#EXT-X-MEDIA:"

abbrev pub stream_tag : Text
stream_tag = text "#EXT-X-STREAM-INF:"

abbrev pub first_non_empty : List Text → Option Text
first_non_empty [] = none
first_non_empty (line ∷ lines') =
    let rest = first_non_empty lines' in if is_empty line then rest else some line

abbrev pub any_line : (Text → Bool) → List Text → Bool
any_line p [] = false
any_line p (line ∷ lines') = p line || any_line p lines'

abbrev pub trimmed : List Text → List Text
trimmed [] = []
trimmed (line ∷ lines') = trim line ∷ trimmed lines'

abbrev pub is_text : Text → Option Text → Bool
is_text expected none = false
is_text expected (some found) = eq_text found expected

unfoldable pub is_master_playlist : List Text → Bool
unfolding trim eq_text starts_with
is_master_playlist content =
    is_text (text "#EXTM3U") (first_non_empty (trimmed content))
    && any_line (starts_with stream_tag) (trimmed content)

abbrev pub numeric_step : Unit {0} → Text → Text → Result (Unit {0}) WrapperError
numeric_step s key value =
    if eq_text key (text "SAMPLE-RATE")
    then (do _ ← parse_positive_u32 value (text "SAMPLE-RATE"); ok tt)
    else if eq_text key (text "BIT-DEPTH")
    then (do _ ← parse_positive_u32 value (text "BIT-DEPTH"); ok tt)
    else ok tt

unfoldable pub validate_media_numeric_attributes : List Text → Result (Unit {0}) WrapperError
unfolding strip_prefix trim read_attributes eq_text parse_positive_u32
validate_media_numeric_attributes [] = ok tt
validate_media_numeric_attributes (line ∷ content) =
    let rest = validate_media_numeric_attributes content in
    elim (strip_prefix media_tag (trim line)) [
      | none ↦ rest
      | some attrs ↦ do _ ← read_attributes numeric_step tt attrs; rest
    ]

unfoldable pub group_bitrate : Text → Text → Result ℕ WrapperError
unfolding strip_prefix split_once parse_positive_u64
group_bitrate group_id prefix = elim (strip_prefix prefix group_id) [
  | none ↦ err (invalid_audio_group group_id)
  | some rest ↦ do
    bitrate ← parse_positive_u64 (first_piece b'-' rest) (text "audio group bitrate")
    if ltb bitrate (2 ^ 63) then ok bitrate else err (invalid_audio_group group_id)
]

-- `parts[parts.len() - k]`; `none` is its panic, of the subtraction or of the index.
abbrev pub from_end : ℕ → List Text → Option Text
from_end k parts = if ltb (length parts) k then none else get_elem? parts (length parts - k)

abbrev pub positive_part : Option Text → Text → Result ℕ WrapperError
positive_part none attribute = err panicked
positive_part (some part) attribute = parse_positive_u32 part attribute

unfoldable pub alac_group_specs : Text → Result (ℕ × ℕ) WrapperError
unfolding split parse_positive_u32
alac_group_specs group_id =
    let parts = split b'-' group_id in
    if leb 2 (length parts)
    then (do
      rate ← positive_part (from_end 2 parts) (text "ALAC sample rate")
      depth ← positive_part (from_end 1 parts) (text "ALAC bit depth")
      ok (rate, depth))
    else err (invalid_alac_group group_id)

-- The attributes of an audio rendition.
pub record Rendition : Type 0 where
  pub media_type : Option Text
  pub group_id : Option Text
  pub uri : Option Text

abbrev pub rendition_step : Rendition → Text → Text → Result Rendition WrapperError
rendition_step r key value =
    if eq_text key (text "TYPE")
    then ok (record r { media_type = some value })
    else if eq_text key (text "GROUP-ID")
    then ok (record r { group_id = some value })
    else if eq_text key (text "URI")
    then ok (record r { uri = some value })
    else ok r

-- The codec of a group and the prefix in front of its bitrate; a group of another name has none.
abbrev pub rendition_codec : Text → Option (Text × Text)
rendition_codec group_id =
    if starts_with (text "audio-stereo-") group_id
    then some (text "mp4a.40.2", text "audio-stereo-")
    else if starts_with (text "audio-HE-stereo-") group_id
    then some (text "mp4a.40.5", text "audio-HE-stereo-")
    else if starts_with (text "audio-atmos-") group_id
    then some (text "ec-3", text "audio-atmos-")
    else none

-- What a rendition adds to the variants: at most one.
unfoldable pub rendition_variants : Text → Rendition → Result (List StreamVariant) WrapperError
unfolding eq_text starts_with group_bitrate resolve_url
rendition_variants master_url r =
    if not (is_text (text "AUDIO") r.media_type) then ok [] else elim r.group_id [
      | none ↦ ok []
      | some group_id ↦ elim r.uri [
        | none ↦ ok []
        | some uri ↦ elim (rendition_codec group_id) [
          | none ↦ ok []
          | some (codec, prefix) ↦ do
            bitrate ← group_bitrate group_id prefix
            ok (
                record {
                  uri = resolve_url master_url uri;
                  codec = codec;
                  group_id = group_id;
                  bandwidth = bitrate;
                }
                ∷ [])
        ]
      ]
    ]

abbrev pub no_rendition : Rendition
no_rendition = record { media_type = none; group_id = none; uri = none }

unfoldable pub collect_audio_renditions :
    Text → List Text → Result (List StreamVariant) WrapperError
unfolding strip_prefix trim read_attributes eq_text rendition_variants
collect_audio_renditions master_url [] = ok []
collect_audio_renditions master_url (line ∷ content) =
    let rest = collect_audio_renditions master_url content in
    elim (strip_prefix media_tag (trim line)) [
      | none ↦ rest
      | some attrs ↦ do
        rendition ← read_attributes rendition_step no_rendition attrs
        found ← rendition_variants master_url rendition
        others ← rest
        ok (found ++ others)
    ]

-- The attributes of a stream variant.
pub record Pending : Type 0 where
  pub codec : Text
  pub group_id : Text
  pub bandwidth : Option ℕ

abbrev pub no_attributes : Pending
no_attributes = record { codec = []; group_id = []; bandwidth = none }

abbrev pub or_average : Option ℕ → ℕ → Option ℕ
or_average none average = some average
or_average (some bandwidth) average = some bandwidth

abbrev pub variant_step : Pending → Text → Text → Result Pending WrapperError
variant_step p key value =
    if is_empty key || is_empty value
    then err malformed_variant_tag
    else if eq_text key (text "CODECS")
    then ok (record p { codec = value })
    else if eq_text key (text "AUDIO")
    then ok (record p { group_id = value })
    else if eq_text key (text "BANDWIDTH")
    then (do
      bandwidth ← parse_positive_u64 value (text "BANDWIDTH")
      ok (record p { bandwidth = some bandwidth }))
    else if eq_text key (text "AVERAGE-BANDWIDTH")
    then (do
      average ← parse_positive_u64 value (text "AVERAGE-BANDWIDTH")
      ok (record p { bandwidth = or_average p.bandwidth average }))
    else ok p

abbrev pub checked_unit {ℓ} : {A : Type ℓ} → Result A WrapperError → Result (Unit {0}) WrapperError
checked_unit (err e) = err e
checked_unit (ok a) = ok tt

unfoldable pub validate_variant_group : StreamVariant → Result (Unit {0}) WrapperError
unfolding eq_text starts_with group_bitrate alac_group_specs
validate_variant_group v =
    if eq_text v.codec (text "alac")
    then checked_unit (alac_group_specs v.group_id)
    else if eq_text v.codec (text "ec-3") && starts_with (text "audio-atmos") v.group_id
    then checked_unit (group_bitrate v.group_id (text "audio-atmos-"))
    else if eq_text v.codec (text "mp4a.40.2") && starts_with (text "audio-stereo") v.group_id
    then checked_unit (group_bitrate v.group_id (text "audio-stereo-"))
    else if eq_text v.codec (text "mp4a.40.5") && starts_with (text "audio-HE-stereo") v.group_id
    then checked_unit (group_bitrate v.group_id (text "audio-HE-stereo-"))
    else ok tt

-- The variant of a tag, whose URI is on a later line.
unfoldable pub variant_of : Text → Result StreamVariant WrapperError
unfolding read_attributes eq_text parse_positive_u64 validate_variant_group
variant_of attrs = if is_empty (trim attrs) then err empty_variant_tag else do
  pending ← read_attributes variant_step no_attributes attrs
  bandwidth ← ok_or pending.bandwidth bandwidth_missing
  variant ←
      if is_empty pending.codec || is_empty pending.group_id
      then err codecs_missing
      else ok (record {
        uri = [];
        codec = pending.codec;
        group_id = pending.group_id;
        bandwidth = bandwidth;
      })
  _ ← validate_variant_group variant
  ok variant
