-- ===== src/Apple/Playlist/Panics.antt =====
-- `parse_master_playlist` and `parse_media_playlist` of crates/apple/src/wrapper/playlist.rs on any text.
use peerless_server.Prelude.{
  ℕ, true, not, ◌&&◌, ◌||◌, ◌≡◌, ◌≢◌, ap, inl, inr, List, [], ◌∷◌, ◌++◌, Option, none, some, Result,
  ok, err, ok_or, Bool-cases, Option-cases, Text, text, trim, eq_text, starts_with, strip_prefix,
  lines, is_some, arith,
}
use peerless_server.Stream.Pipe.{is_empty}
use peerless_server.Apple.Playlist.{
  StreamVariant, WrapperError, panicked, CodecPreference, bandwidth_missing, no_init_segment,
  read_attributes, parse_positive_u32,
}
use peerless_server.Apple.Playlist.Master.{
  media_tag, stream_tag, is_master_playlist, no_attributes, variant_step, validate_variant_group,
  variant_of,
}
use peerless_server.Apple.Playlist.Variants.{
  Collecting, take_uri, variant_line, variant_lines, collect_variants, ranked, sample_rate_of,
  group_rank, Specs, specs_step, with_specs, media_specs, media_line_specs, specs_of, Best,
  consider_ranked, consider, best_variant, chosen, select_variant, parse_lines,
  parse_master_playlist, is_atmos,
}
use peerless_server.Apple.Playlist.Media.{
  Reading, Key, key_step, no_key, use_key, map_step, plain_line, media_line, media_lines, start,
  finish_media, parse_media_playlist,
}
use peerless_server.Apple.Playlist.Total.{
  Total, ok-Total, if-Total, >>=-Total, read_attributes-Total, parse_positive_u32-Total,
}
use peerless_server.Apple.Playlist.Groups.{
  bind_ok, validate_media_numeric_attributes-Total, group_bitrate-Total, alac_group_specs-Total,
  collect_audio_renditions-Total, variant_step-Total, validate_variant_group-Total,
}

ok_or-Total : {A : Type 0} (o : Option A) (e : WrapperError) → e ≢ panicked → Total (ok_or o e)
ok_or-Total none e h = λ q. h cc
ok_or-Total (some a) e h = ok-Total a

variant_of-Total : (attrs : Text) → Total (variant_of attrs)
unfolding variant_of
variant_of-Total attrs =
    if-Total (is_empty (trim attrs)) _ _ (λ h. cc)
      (>>=-Total (read_attributes variant_step no_attributes attrs) _
        (read_attributes-Total variant_step variant_step-Total no_attributes attrs)
        (λ p.
          >>=-Total (ok_or p.bandwidth bandwidth_missing) _
            (ok_or-Total p.bandwidth bandwidth_missing (λ h. cc))
            (λ bandwidth.
              >>=-Total _ _
                (if-Total (is_empty p.codec || is_empty p.group_id) _ _ (λ h. cc) (ok-Total _))
                (λ v.
                  bind_ok (validate_variant_group v) (λ u. v) (validate_variant_group-Total v)))))

take_uri-Total :
    (master_url line : Text) (s : Collecting) (pending : Option StreamVariant)
    → is_some pending ≡ true
    → Total (take_uri master_url line s pending)
take_uri-Total master_url line s none h = cc
take_uri-Total master_url line s (some variant) h = ok-Total _

variant_line-Total :
    (master_url : Text) (s : Collecting) (line : Text) → Total (variant_line master_url s line)
unfolding variant_line
variant_line-Total master_url s line = elim (Option-cases (strip_prefix stream_tag (trim line))) [
  | inl e ↦
      elim (Bool-cases (
        is_some s.pending
        && not (is_empty (trim line))
        && not (starts_with (text "#") (trim line)))) [
          | inr k ↦ rw (variant_line, e, k) (ok-Total s)
          | inl k ↦
              rw (variant_line, e, k)
                (take_uri-Total master_url (trim line) s s.pending (ground arith))
        ]
  | inr (attrs, e) ↦
      rw (variant_line, e)
        (if-Total (is_some s.pending) _ _ (λ h. cc)
          (bind_ok (variant_of attrs) _ (variant_of-Total attrs)))
]

variant_lines-Total :
    (master_url : Text) (content : List Text) (s : Collecting)
    → Total (variant_lines master_url content s)
unfolding variant_lines
variant_lines-Total master_url [] s = ok-Total s
variant_lines-Total master_url (line ∷ content) s =
    >>=-Total (variant_line master_url s line) _ (variant_line-Total master_url s line)
      (λ s'. variant_lines-Total master_url content s')

ranked-Total : (base : ℕ) (r : Result ℕ WrapperError) → Total r → Total (ranked base r)
ranked-Total base (err e) h = λ q. h (let d : e ≡ panicked = cc in ap err d)
ranked-Total base (ok n) h = ok-Total _

sample_rate_of-Total : (r : Result (ℕ × ℕ) WrapperError) → Total r → Total (sample_rate_of r)
sample_rate_of-Total (err e) h = λ q. h (let d : e ≡ panicked = cc in ap err d)
sample_rate_of-Total (ok n) h = ok-Total _

group_rank-Total :
    (group_id codec : Text) (preference : CodecPreference)
    → Total (group_rank group_id codec preference)
unfolding group_rank
group_rank-Total group_id codec preference =
    if-Total
      (eq_text codec (text "ec-3")
        && is_atmos preference
        && starts_with (text "audio-atmos") group_id)
      _ _ (ranked-Total 20000 _ (group_bitrate-Total group_id (text "audio-atmos-")))
      (if-Total (eq_text codec (text "alac") && not (is_atmos preference)) _ _
        (ranked-Total 10000000 _ (sample_rate_of-Total _ (alac_group_specs-Total group_id)))
        (if-Total (eq_text codec (text "mp4a.40.2") && not (is_atmos preference)) _ _
          (ranked-Total 5000 _ (group_bitrate-Total group_id (text "audio-stereo-")))
          (if-Total (eq_text codec (text "mp4a.40.5") && not (is_atmos preference)) _ _
            (ranked-Total 4000 _ (group_bitrate-Total group_id (text "audio-HE-stereo-")))
            (ok-Total none))))

specs_step-Total :
    (group_id : Text) (s : Specs) (key value : Text) → Total (specs_step group_id s key value)
specs_step-Total group_id s key value =
    if-Total (eq_text key (text "GROUP-ID") && eq_text value group_id) _ _ (ok-Total _) (
      if-Total (eq_text key (text "SAMPLE-RATE")) _ _
        (bind_ok (parse_positive_u32 value (text "SAMPLE-RATE")) _
          (parse_positive_u32-Total value (text "SAMPLE-RATE")))
        (if-Total (eq_text key (text "BIT-DEPTH")) _ _
          (bind_ok (parse_positive_u32 value (text "BIT-DEPTH")) _
            (parse_positive_u32-Total value (text "BIT-DEPTH")))
          (ok-Total s)))

media_specs-Total :
    (group_id : Text) (content : List Text) (found : Option ℕ × Option ℕ)
    → Total (media_specs group_id content found)
unfolding media_specs
media_specs-Total group_id [] found = ok-Total found
media_specs-Total group_id (line ∷ content) found =
    elim (Option-cases (strip_prefix media_tag line)) [
      | inl e ↦ rw (media_specs, e) (media_specs-Total group_id content found)
      | inr (attrs, e) ↦
          rw (media_specs, e)
            (>>=-Total _ _
              (read_attributes-Total (specs_step group_id) (specs_step-Total group_id) _ attrs)
              (λ s. media_specs-Total group_id content (with_specs found s)))
    ]

specs_of-Total : (content : List Text) (variant : StreamVariant) → Total (specs_of content variant)
unfolding specs_of media_line_specs
specs_of-Total content variant =
    if-Total (eq_text variant.codec (text "alac")) _ _ (alac_group_specs-Total variant.group_id) (
      bind_ok (media_specs variant.group_id content (none, none)) _
        (media_specs-Total variant.group_id content (none, none)))

consider_ranked-Total :
    (content : List Text) (best : Option Best) (variant : StreamVariant) (rank : Option ℕ)
    → Total (consider_ranked content best variant rank)
unfolding consider_ranked
consider_ranked-Total content best variant none = ok-Total best
consider_ranked-Total content best variant (some rank) =
    bind_ok (specs_of content variant) _ (specs_of-Total content variant)

consider-Total :
    (preference : CodecPreference) (content : List Text) (best : Option Best)
    (variant : StreamVariant)
    → Total (consider preference content best variant)
unfolding consider
consider-Total preference content best variant =
    >>=-Total _ _ (group_rank-Total variant.group_id variant.codec preference)
      (λ rank. consider_ranked-Total content best variant rank)

best_variant-Total :
    (preference : CodecPreference) (content : List Text) (variants : List StreamVariant)
    (best : Option Best)
    → Total (best_variant preference content variants best)
unfolding best_variant
best_variant-Total preference content [] best = ok-Total best
best_variant-Total preference content (variant ∷ variants) best =
    >>=-Total _ _ (consider-Total preference content best variant)
      (λ best'. best_variant-Total preference content variants best')

chosen-Total : (preference : CodecPreference) (best : Option Best) → Total (chosen preference best)
chosen-Total preference none = elim (Bool-cases (is_atmos preference)) [
  | inl e ↦ rw e (λ h. cc)
  | inr e ↦ rw e (λ h. cc)
]
chosen-Total preference (some best) = ok-Total _

-- Whatever the text is, `parse_master_playlist` gives a stream or an error: none of its `expect` on an
-- attribute, its `unwrap` of a pending variant, its slice of a quoted value and its indices into the
-- pieces of an ALAC group panics.
pub parse_master_playlist-Total :
    (content master_url : Text) (preference : CodecPreference)
    → Total (parse_master_playlist content master_url preference)
unfolding parse_master_playlist parse_lines collect_variants select_variant
parse_master_playlist-Total content master_url preference =
    if-Total (not (is_master_playlist (lines content))) _ _ (λ h. cc)
      (>>=-Total _ _ (validate_media_numeric_attributes-Total (lines content)) (λ u.
        >>=-Total _ _
          (>>=-Total _ _ (variant_lines-Total master_url (lines content) _)
            (λ s. if-Total (is_some s.pending) _ _ (λ h. cc) (ok-Total s.variants)))
          (λ variants.
            >>=-Total _ _ (collect_audio_renditions-Total master_url (lines content)) (λ renditions.
              if-Total (is_empty (variants ++ renditions)) _ _ (λ h. cc)
                (>>=-Total _ _
                  (best_variant-Total preference (lines content) (variants ++ renditions) none)
                  (λ best. chosen-Total preference best))))))

key_step-Total : (k : Key) (key value : Text) → Total (key_step k key value)
key_step-Total k key value = if-Total (eq_text key (text "METHOD")) _ _ (ok-Total _) (
    if-Total (eq_text key (text "URI")) _ _ (ok-Total _)
      (if-Total (eq_text key (text "KEYFORMAT")) _ _ (ok-Total _) (ok-Total k)))

map_step-Total :
    (media_url : Text) (s : Reading) (key value : Text) → Total (map_step media_url s key value)
map_step-Total media_url s key value =
    if-Total (eq_text key (text "URI")) _ _ (ok-Total _)
      (if-Total (eq_text key (text "BYTERANGE")) _ _ (ok-Total _) (ok-Total s))

media_line-Total :
    (media_url : Text) (s : Reading) (line : Text) → Total (media_line media_url s line)
unfolding media_line
media_line-Total media_url s line =
    if-Total (is_empty line) _ _ (ok-Total s)
      (elim (Option-cases (strip_prefix (text "#EXT-X-KEY:") line)) [
        | inr (attrs, e) ↦ rw e (
            bind_ok (read_attributes key_step no_key attrs) (use_key s)
              (read_attributes-Total key_step key_step-Total no_key attrs))
        | inl e ↦ elim (Option-cases (strip_prefix (text "#EXT-X-MAP:") line)) [
          | inr (attrs, f) ↦
              rw (e, f)
                (read_attributes-Total (map_step media_url) (map_step-Total media_url) s attrs)
          | inl f ↦ rw (e, f) (ok-Total (plain_line media_url s line))
        ]
      ])

media_lines-Total :
    (media_url : Text) (content : List Text) (s : Reading) → Total (media_lines media_url content s)
unfolding media_lines
media_lines-Total media_url [] s = ok-Total s
media_lines-Total media_url (line ∷ content) s =
    >>=-Total _ _ (media_line-Total media_url s (trim line))
      (λ s'. media_lines-Total media_url content s')

-- Whatever the text is, `parse_media_playlist` gives a playlist or an error.
parse_media_playlist-Total :
    (content media_url : Text) → Total (parse_media_playlist content media_url)
unfolding parse_media_playlist finish_media
parse_media_playlist-Total content media_url =
    >>=-Total _ _ (media_lines-Total media_url (lines content) start)
      (λ s. >>=-Total _ _ (ok_or-Total s.init_uri no_init_segment (λ h. cc)) (λ uri. ok-Total _))
