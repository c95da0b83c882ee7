-- ===== src/Apple/Playlist/Groups.antt =====
-- The steps of `parse_master_playlist` of crates/apple/src/wrapper/playlist.rs never panic.
use peerless_server.Prelude.{
  ℕ, ◌<◌, ◌≤◌, ◌≢◌, refl, false, Option, none, some, Bool-cases, get_elem?-of_lt, arith, ◌-◌, ◌^◌,
  not, ◌&&◌, ◌||◌, ◌≡◌, ap, inl, inr, List, [], ◌∷◌, ◌++◌, leb, ltb, Result, ok, err, ◌>>=◌,
  Option-cases, Text, text, trim, split, eq_text, starts_with, strip_prefix, length,
}
use peerless_server.Stream.Pipe.{is_empty}
use peerless_server.Apple.Playlist.{
  StreamVariant, WrapperError, panicked, first_piece, read_attributes, parse_positive_u64,
  parse_positive_u32,
}
use peerless_server.Apple.Playlist.Master.{
  media_tag, numeric_step, validate_media_numeric_attributes, group_bitrate, alac_group_specs,
  positive_part, from_end, Rendition, rendition_step, rendition_codec, rendition_variants,
  no_rendition, collect_audio_renditions, Pending, variant_step, checked_unit,
  validate_variant_group, is_text,
}
use peerless_server.Apple.Playlist.Total.{
  Total, ok-Total, if-Total, >>=-Total, read_attributes-Total, parse_positive_u64-Total,
  parse_positive_u32-Total,
}

pub bind_ok :
    {A B : Type 0} (m : Result A WrapperError) (f : A → B) → Total m → Total (m >>= λ a. ok (f a))
bind_ok m f h = >>=-Total m (λ a. ok (f a)) h (λ a. ok-Total (f a))

numeric_step-Total : (s : Unit {0}) (key value : Text) → Total (numeric_step s key value)
numeric_step-Total s key value =
    if-Total (eq_text key (text "SAMPLE-RATE")) _ _
      (bind_ok (parse_positive_u32 value (text "SAMPLE-RATE")) (λ n. tt)
        (parse_positive_u32-Total value (text "SAMPLE-RATE")))
      (if-Total (eq_text key (text "BIT-DEPTH")) _ _
        (bind_ok (parse_positive_u32 value (text "BIT-DEPTH")) (λ n. tt)
          (parse_positive_u32-Total value (text "BIT-DEPTH")))
        (ok-Total tt))

pub validate_media_numeric_attributes-Total :
    (content : List Text) → Total (validate_media_numeric_attributes content)
unfolding validate_media_numeric_attributes
validate_media_numeric_attributes-Total [] = ok-Total tt
validate_media_numeric_attributes-Total (line ∷ content) =
    elim (Option-cases (strip_prefix media_tag (trim line))) [
      | inl e ↦
          rw (validate_media_numeric_attributes, e)
            (validate_media_numeric_attributes-Total content)
      | inr (attrs, e) ↦
          rw (validate_media_numeric_attributes, e)
            (>>=-Total (read_attributes numeric_step tt attrs) _
              (read_attributes-Total numeric_step numeric_step-Total tt attrs)
              (λ u. validate_media_numeric_attributes-Total content))
    ]

pub group_bitrate-Total : (group_id prefix : Text) → Total (group_bitrate group_id prefix)
unfolding group_bitrate
group_bitrate-Total group_id prefix = elim (Option-cases (strip_prefix prefix group_id)) [
  | inl e ↦ rw (group_bitrate, e) (λ h. cc)
  | inr (rest, e) ↦
      rw (group_bitrate, e)
        (>>=-Total (parse_positive_u64 (first_piece b'-' rest) (text "audio group bitrate")) _
          (parse_positive_u64-Total (first_piece b'-' rest) (text "audio group bitrate"))
          (λ n. if-Total (ltb n (2 ^ 63)) (ok n) _ (ok-Total n) (λ h. cc)))
]

positive_part-Total :
    (part : Option Text) (attribute : Text) → part ≢ none → Total (positive_part part attribute)
positive_part-Total none attribute h = absurd (h refl)
positive_part-Total (some part) attribute h = parse_positive_u32-Total part attribute

from_end-some : (k : ℕ) (parts : List Text) → 0 < k → k ≤ length parts → from_end k parts ≢ none
from_end-some k parts h l e =
    let enough : ltb (length parts) k ≡ false = ground arith in
    let (part, at) = get_elem?-of_lt parts (length parts - k) (omega arith) in
    let found = rw enough at e in cc

pub alac_group_specs-Total : (group_id : Text) → Total (alac_group_specs group_id)
unfolding alac_group_specs
alac_group_specs-Total group_id =
    let parts = split b'-' group_id in
    elim (Bool-cases (leb 2 (length parts))) [
      | inr few ↦ rw few (λ h. cc)
      | inl enough ↦
          let two : 2 ≤ length parts = ground arith in
          rw enough (
            >>=-Total (positive_part (from_end 2 parts) (text "ALAC sample rate")) _
              (positive_part-Total (from_end 2 parts) (text "ALAC sample rate")
                (from_end-some 2 parts (omega arith) two))
              (λ rate.
                bind_ok (positive_part (from_end 1 parts) (text "ALAC bit depth"))
                  (λ depth. (rate, depth))
                  (positive_part-Total (from_end 1 parts) (text "ALAC bit depth")
                    (from_end-some 1 parts (omega arith) (omega (arith, two))))))
    ]

rendition_step-Total : (r : Rendition) (key value : Text) → Total (rendition_step r key value)
rendition_step-Total r key value = if-Total (eq_text key (text "TYPE")) _ _ (ok-Total _) (
    if-Total (eq_text key (text "GROUP-ID")) _ _ (ok-Total _)
      (if-Total (eq_text key (text "URI")) _ _ (ok-Total _) (ok-Total r)))

rendition_variants-Total :
    (master_url : Text) (r : Rendition) → Total (rendition_variants master_url r)
unfolding rendition_variants
rendition_variants-Total master_url r =
    if-Total (not (is_text (text "AUDIO") r.media_type)) _ _ (ok-Total [])
      (elim (Option-cases r.group_id) [
        | inl g ↦ rw g (ok-Total [])
        | inr (group_id, g) ↦ elim (Option-cases r.uri) [
          | inl u ↦ rw (g, u) (ok-Total [])
          | inr (uri, u) ↦ elim (Option-cases (rendition_codec group_id)) [
            | inl c ↦ rw (g, u, c) (ok-Total [])
            | inr (found, c) ↦
                rw (g, u, c)
                  (bind_ok (group_bitrate group_id found.1) _
                    (group_bitrate-Total group_id found.1))
          ]
        ]
      ])

pub collect_audio_renditions-Total :
    (master_url : Text) (content : List Text) → Total (collect_audio_renditions master_url content)
unfolding collect_audio_renditions
collect_audio_renditions-Total master_url [] = ok-Total []
collect_audio_renditions-Total master_url (line ∷ content) =
    elim (Option-cases (strip_prefix media_tag (trim line))) [
      | inl e ↦ rw (collect_audio_renditions, e) (collect_audio_renditions-Total master_url content)
      | inr (attrs, e) ↦
          rw (collect_audio_renditions, e)
            (>>=-Total (read_attributes rendition_step no_rendition attrs) _
              (read_attributes-Total rendition_step rendition_step-Total no_rendition attrs)
              (λ r.
                >>=-Total (rendition_variants master_url r) _
                  (rendition_variants-Total master_url r)
                  (λ found.
                    bind_ok (collect_audio_renditions master_url content)
                      (λ others. found ++ others)
                      (collect_audio_renditions-Total master_url content))))
    ]

pub variant_step-Total : (p : Pending) (key value : Text) → Total (variant_step p key value)
variant_step-Total p key value =
    if-Total (is_empty key || is_empty value) _ _ (λ h. cc)
      (if-Total (eq_text key (text "CODECS")) _ _ (ok-Total _) (
        if-Total (eq_text key (text "AUDIO")) _ _ (ok-Total _) (
          if-Total (eq_text key (text "BANDWIDTH")) _ _
            (bind_ok (parse_positive_u64 value (text "BANDWIDTH")) _
              (parse_positive_u64-Total value (text "BANDWIDTH")))
            (if-Total (eq_text key (text "AVERAGE-BANDWIDTH")) _ _
              (bind_ok (parse_positive_u64 value (text "AVERAGE-BANDWIDTH")) _
                (parse_positive_u64-Total value (text "AVERAGE-BANDWIDTH")))
              (ok-Total p)))))

checked_unit-Total : {A : Type 0} (m : Result A WrapperError) → Total m → Total (checked_unit m)
checked_unit-Total (err e) h = λ q. h (let d : e ≡ panicked = cc in ap err d)
checked_unit-Total (ok a) h = ok-Total tt

pub validate_variant_group-Total : (v : StreamVariant) → Total (validate_variant_group v)
unfolding validate_variant_group
validate_variant_group-Total v =
    if-Total (eq_text v.codec (text "alac")) _ _
      (checked_unit-Total (alac_group_specs v.group_id) (alac_group_specs-Total v.group_id))
      (if-Total (eq_text v.codec (text "ec-3") && starts_with (text "audio-atmos") v.group_id) _ _
        (checked_unit-Total _ (group_bitrate-Total v.group_id (text "audio-atmos-")))
        (if-Total
          (eq_text v.codec (text "mp4a.40.2") && starts_with (text "audio-stereo") v.group_id) _ _
          (checked_unit-Total _ (group_bitrate-Total v.group_id (text "audio-stereo-")))
          (if-Total
            (eq_text v.codec (text "mp4a.40.5") && starts_with (text "audio-HE-stereo") v.group_id)
            _ _ (checked_unit-Total _ (group_bitrate-Total v.group_id (text "audio-HE-stereo-")))
            (ok-Total tt))))
