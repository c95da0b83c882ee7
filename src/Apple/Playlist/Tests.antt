-- ===== src/Apple/Playlist/Tests.antt =====
-- A master playlist and a media playlist: the theorems at concrete inputs.
use peerless_server.Prelude.{
  ◌≡◌, ◌↔◌, refl, List, [], ◌∷◌, ◌++◌, none, some, ok, All, Text, text, lines, eq_text, starts_with,
  split_once, strip_prefix, split, trim, before_last, trim_matches, lines_onto, trim_start,
  split_onto, contains_char, ends_with, strip_suffix,
}
use peerless_server.Stream.Range.{parse_u64, digits, digits_onto}
use peerless_server.Apple.Playlist.{
  StreamVariant, AlacStreamInfo, MediaPlaylistInfo, MediaSegmentRef, highest_quality, atmos,
  parse_positive_u64, parse_positive_u32, resolve_url, read_attributes, each_attribute, attribute,
  split_attributes, attributes_onto, validate_attribute_component,
}
use peerless_server.Apple.Playlist.Master.{group_bitrate, alac_group_specs}
use peerless_server.Apple.Playlist.Variants.{
  Best, select_variant, best_variant, consider, consider_ranked, group_rank, specs_of,
  media_line_specs, media_specs, is_atmos, parse_master_playlist,
}
use peerless_server.Apple.Playlist.Media.{
  parse_media_playlist, media_lines, media_line, plain_line, finish_media,
}
use peerless_server.Apple.Playlist.Total.{Total}
use peerless_server.Apple.Playlist.Panics.{parse_master_playlist-Total}
use peerless_server.Apple.Playlist.Selection.{select_variant-FirstOf}
use peerless_server.Apple.Playlist.Ranking.{FirstOf, NoneAbove}
use peerless_server.Apple.Playlist.Segments.{uris, segment_uris, parse_media_playlist-uris}

abbrev master : Text
master =
    text "#EXTM3U"
    ++ 0xa ∷ text "#EXT-X-STREAM-INF:BANDWIDTH=900,CODECS=\"alac\",AUDIO=\"audio-alac-96000-24\""
    ++ 0xa ∷ text "hi.m3u8"

parse_master_playlist-Total_example :
    Total (parse_master_playlist master (text "https://a/b") atmos)
parse_master_playlist-Total_example = parse_master_playlist-Total master (text "https://a/b") atmos

abbrev media : Text
media =
    text "#EXT-X-MAP:URI=\"a.mp4\""
    ++ 0xa ∷ text "#EXTINF:6"
    ++ 0xa ∷ text "a.mp4"
    ++ 0xa ∷ text "b.mp4"

abbrev variant : Text → Text → Text → StreamVariant
variant uri codec group_id = record {
  uri = uri;
  codec = codec;
  group_id = group_id;
  bandwidth = 900;
}

abbrev variants : List StreamVariant
variants =
    variant (text "lo") (text "alac") (text "audio-alac-44100-16")
    ∷ variant (text "hi") (text "alac") (text "audio-alac-96000-24")
    ∷ variant (text "aac") (text "mp4a.40.2") (text "audio-stereo-256")
    ∷ []

abbrev info : AlacStreamInfo
info = record { stream_url = text "hi"; codec = text "alac"; sample_rate = 96000; bit_depth = 24 }

selected : select_variant variants highest_quality [] ≡ ok info
unfolding select_variant best_variant consider consider_ranked group_rank specs_of media_line_specs
    media_specs group_bitrate alac_group_specs parse_positive_u64 parse_positive_u32 parse_u64
    digits digits_onto eq_text starts_with strip_prefix split split_onto split_once
selected = refl

select_variant-FirstOf_example :
    (best : Best) × FirstOf highest_quality [] variants best
    × NoneAbove highest_quality [] variants best.rank
    × (eq_text info.codec (text "ec-3") ≡ is_atmos highest_quality)
    × (info ≡ record {
      stream_url = best.variant.uri;
      codec = best.variant.codec;
      sample_rate = best.sample_rate;
      bit_depth = best.bit_depth;
    })
select_variant-FirstOf_example = select_variant-FirstOf highest_quality [] variants info selected

abbrev segment : Text → MediaSegmentRef
segment uri = record { uri = uri; byte_range = none; key_uri = none }

abbrev playlist : MediaPlaylistInfo
playlist = record {
  init_uri = text "u/a.mp4";
  init_byte_range = none;
  segments = segment (text "u/a.mp4") ∷ segment (text "u/b.mp4") ∷ [];
  single_file_url = none;
  key_method = none;
  cenc_kid_b64 = none;
}

played : parse_media_playlist media (text "u/v") ≡ ok playlist
unfolding parse_media_playlist media_lines media_line plain_line finish_media read_attributes
    each_attribute attribute split_attributes attributes_onto validate_attribute_component
    resolve_url lines lines_onto trim trim_start trim_matches eq_text starts_with ends_with
    strip_prefix strip_suffix split_once before_last contains_char
played = refl

parse_media_playlist-uris_example :
    (uris playlist.segments ≡ segment_uris (text "u/v") (lines media))
    × ((playlist.single_file_url ≡ some playlist.init_uri)
        ↔ All (λ segment. segment.uri ≡ playlist.init_uri) playlist.segments)
parse_media_playlist-uris_example = parse_media_playlist-uris media (text "u/v") playlist played
