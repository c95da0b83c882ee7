-- ===== src/Apple/Playlist/Variants.antt =====
-- `parse_master_playlist` of crates/apple/src/wrapper/playlist.rs: the variants, their ranks and the choice.
-- A rank is an `i64` plus 2^63, so that ranks compare as the numbers that they stand for; a sum of
-- `i64` wraps around as in a release build.
use peerless_server.Prelude.{
  ℕ, ◌+◌, ◌^◌, ◌%◌, Bool, true, false, not, ◌&&◌, List, [], ◌∷◌, ◌++◌, Option, none, some, ltb,
  if◌then◌else◌, Result, ok, err, ◌>>=◌, Text, text, trim, eq_text, starts_with, strip_prefix,
  lines, is_some,
}
use peerless_server.Stream.Pipe.{is_empty}
use peerless_server.Core.Retry.{unwrap_or}
use peerless_server.Apple.Playlist.{
  panicked, StreamVariant, AlacStreamInfo, WrapperError, not_master, no_variants, uri_missing,
  no_audio_variant, no_atmos_variant_in_valid_master, CodecPreference, highest_quality, hi_res192,
  hi_res96, lossless_cd, atmos, resolve_url, parse_positive_u32, read_attributes,
}
use peerless_server.Apple.Playlist.Master.{
  media_tag, stream_tag, is_master_playlist, validate_media_numeric_attributes, group_bitrate,
  alac_group_specs, collect_audio_renditions, variant_of,
}

-- The two variables of the loop: the variants so far, and the one whose URI has not come.
pub record Collecting : Type 0 where
  pub variants : List StreamVariant
  pub pending : Option StreamVariant

-- `pending.take().unwrap()` with the URI of the line.
abbrev pub take_uri :
    Text → Text → Collecting → Option StreamVariant → Result Collecting WrapperError
take_uri master_url line s none = err panicked
take_uri master_url line s (some variant) = ok (record {
  variants = s.variants ++ record variant { uri = resolve_url master_url line } ∷ [];
  pending = none;
})

unfoldable pub variant_line : Text → Collecting → Text → Result Collecting WrapperError
unfolding variant_of strip_prefix trim starts_with resolve_url
variant_line master_url s line = elim (strip_prefix stream_tag (trim line)) [
  | some attrs ↦
      if is_some s.pending
      then err uri_missing
      else do variant ← variant_of attrs; ok (record s { pending = some variant })
  | none ↦
      if is_some s.pending && not (is_empty (trim line)) && not (starts_with (text "#") (trim line))
      then take_uri master_url (trim line) s s.pending
      else ok s
]

unfoldable pub variant_lines : Text → List Text → Collecting → Result Collecting WrapperError
unfolding variant_line
variant_lines master_url [] s = ok s
variant_lines master_url (line ∷ content) s = do
  s' ← variant_line master_url s line
  variant_lines master_url content s'

unfoldable pub collect_variants : Text → List Text → Result (List StreamVariant) WrapperError
unfolding variant_lines
collect_variants master_url content = do
  s ← variant_lines master_url content (record { variants = []; pending = none })
  if is_some s.pending then err uri_missing else ok s.variants

abbrev pub is_atmos : CodecPreference → Bool
is_atmos highest_quality = false
is_atmos hi_res192 = false
is_atmos hi_res96 = false
is_atmos lossless_cd = false
is_atmos atmos = true

abbrev pub rank_of : ℕ → ℕ
rank_of n = (n + 2 ^ 63) % 2 ^ 64

abbrev pub ranked : ℕ → Result ℕ WrapperError → Result (Option ℕ) WrapperError
ranked base (err e) = err e
ranked base (ok bitrate) = ok (some (rank_of (base + bitrate)))

abbrev pub sample_rate_of : Result (ℕ × ℕ) WrapperError → Result ℕ WrapperError
sample_rate_of (err e) = err e
sample_rate_of (ok specs) = ok specs.0

unfoldable pub group_rank : Text → Text → CodecPreference → Result (Option ℕ) WrapperError
unfolding eq_text starts_with group_bitrate alac_group_specs
group_rank group_id codec preference =
    if eq_text codec (text "ec-3")
      && is_atmos preference
      && starts_with (text "audio-atmos") group_id
    then ranked 20000 (group_bitrate group_id (text "audio-atmos-"))
    else if eq_text codec (text "alac") && not (is_atmos preference)
    then ranked 10000000 (sample_rate_of (alac_group_specs group_id))
    else if eq_text codec (text "mp4a.40.2") && not (is_atmos preference)
    then ranked 5000 (group_bitrate group_id (text "audio-stereo-"))
    else if eq_text codec (text "mp4a.40.5") && not (is_atmos preference)
    then ranked 4000 (group_bitrate group_id (text "audio-HE-stereo-"))
    else ok none

-- What one line of `media_line_specs` reads.
pub record Specs : Type 0 where
  pub matches_group : Bool
  pub rate : Option ℕ
  pub depth : Option ℕ

abbrev pub specs_step : Text → Specs → Text → Text → Result Specs WrapperError
specs_step group_id s key value =
    if eq_text key (text "GROUP-ID") && eq_text value group_id
    then ok (record s { matches_group = true })
    else if eq_text key (text "SAMPLE-RATE")
    then (do
      rate ← parse_positive_u32 value (text "SAMPLE-RATE")
      ok (record s { rate = some rate }))
    else if eq_text key (text "BIT-DEPTH")
    then (do
      depth ← parse_positive_u32 value (text "BIT-DEPTH")
      ok (record s { depth = some depth }))
    else ok s

abbrev pub or_spec : Option ℕ → Option ℕ → Option ℕ
or_spec none earlier = earlier
or_spec (some n) earlier = some n

abbrev pub with_specs : Option ℕ × Option ℕ → Specs → Option ℕ × Option ℕ
with_specs found s =
    if s.matches_group then (or_spec s.rate found.0, or_spec s.depth found.1) else found

-- This reader does not trim the line, as the others do.
unfoldable pub media_specs :
    Text → List Text → Option ℕ × Option ℕ → Result (Option ℕ × Option ℕ) WrapperError
unfolding strip_prefix read_attributes eq_text parse_positive_u32
media_specs group_id [] found = ok found
media_specs group_id (line ∷ content) found = elim (strip_prefix media_tag line) [
  | none ↦ media_specs group_id content found
  | some attrs ↦ do
    s ←
        read_attributes (specs_step group_id)
          (record { matches_group = false; rate = none; depth = none }) attrs
    media_specs group_id content (with_specs found s)
]

unfoldable pub media_line_specs : List Text → Text → Result (ℕ × ℕ) WrapperError
unfolding media_specs starts_with
media_line_specs content group_id = do
  found ← media_specs group_id content (none, none)
  ok (
    unwrap_or found.0 (if starts_with (text "audio-atmos") group_id then 48000 else 44100),
    unwrap_or found.1 16,
  )

-- The best variant so far, with its rank, sample rate and bit depth.
pub record Best : Type 0 where
  pub rank : ℕ
  pub variant : StreamVariant
  pub sample_rate : ℕ
  pub bit_depth : ℕ

abbrev pub is_better : ℕ → Option Best → Bool
is_better rank none = true
is_better rank (some best) = ltb best.rank rank

unfoldable pub specs_of : List Text → StreamVariant → Result (ℕ × ℕ) WrapperError
unfolding eq_text alac_group_specs media_line_specs
specs_of content variant =
    if eq_text variant.codec (text "alac")
    then alac_group_specs variant.group_id
    else media_line_specs content variant.group_id

abbrev pub better : Option Best → Best → Option Best
better best found = if is_better found.rank best then some found else best

-- A variant that the preference does not rank is passed over.
unfoldable pub consider_ranked :
    List Text → Option Best → StreamVariant → Option ℕ → Result (Option Best) WrapperError
unfolding specs_of
consider_ranked content best variant none = ok best
consider_ranked content best variant (some rank) = do
  specs ← specs_of content variant
  ok (
      better best
        (record { rank = rank; variant = variant; sample_rate = specs.0; bit_depth = specs.1 }))

unfoldable pub consider :
    CodecPreference → List Text → Option Best → StreamVariant → Result (Option Best) WrapperError
unfolding group_rank consider_ranked
consider preference content best variant = do
  rank ← group_rank variant.group_id variant.codec preference
  consider_ranked content best variant rank

unfoldable pub best_variant :
    CodecPreference
    → List Text
    → List StreamVariant
    → Option Best
    → Result (Option Best) WrapperError
unfolding consider
best_variant preference content [] best = ok best
best_variant preference content (variant ∷ variants) best = do
  best' ← consider preference content best variant
  best_variant preference content variants best'

abbrev pub chosen : CodecPreference → Option Best → Result AlacStreamInfo WrapperError
chosen preference none =
    err (if is_atmos preference then no_atmos_variant_in_valid_master else no_audio_variant)
chosen preference (some best) = ok (record {
  stream_url = best.variant.uri;
  codec = best.variant.codec;
  sample_rate = best.sample_rate;
  bit_depth = best.bit_depth;
})

unfoldable pub select_variant :
    List StreamVariant → CodecPreference → List Text → Result AlacStreamInfo WrapperError
unfolding best_variant
select_variant variants preference content = do
  best ← best_variant preference content variants none
  chosen preference best

unfoldable pub parse_lines : List Text → Text → CodecPreference → Result AlacStreamInfo WrapperError
unfolding is_master_playlist validate_media_numeric_attributes collect_variants
    collect_audio_renditions select_variant
parse_lines content master_url preference =
    if not (is_master_playlist content) then err not_master else do
      _ ← validate_media_numeric_attributes content
      variants ← collect_variants master_url content
      renditions ← collect_audio_renditions master_url content
      (if is_empty (variants ++ renditions)
          then err no_variants
          else select_variant (variants ++ renditions) preference content)

unfoldable pub parse_master_playlist :
    Text → Text → CodecPreference → Result AlacStreamInfo WrapperError
unfolding lines parse_lines
parse_master_playlist content master_url preference =
    parse_lines (lines content) master_url preference
