-- ===== src/Apple/Playlist/Segments.antt =====
-- What `parse_media_playlist` of crates/apple/src/wrapper/playlist.rs makes of the segments.
use mathlib.Core.List.{append-nil, append_assoc}
use peerless_server.Prelude.{
  ◌≡◌, ◌↔◌, refl, ap, sym, ◌∙◌, inl, inr, Bool, true, false, not, ◌&&◌, List, [], ◌∷◌, ◌++◌, Option,
  none, some, if◌then◌else◌, Result, ok, >>=-eq-ok, ok_or, Bool-cases, Option-cases, All, Text,
  text, trim, eq_text, eq_text_iff, starts_with, strip_prefix, split_once, trim_matches, ◌==◌,
  lines, arith,
}
use peerless_server.Stream.Pipe.{is_empty}
use peerless_server.Apple.Playlist.{
  MediaSegmentRef, MediaPlaylistInfo, WrapperError, no_init_segment, resolve_url, read_attributes,
  each_attribute, attribute, split_attributes,
}
use peerless_server.Apple.Playlist.Media.{
  Reading, Key, key_step, no_key, use_key, use_method, map_step, plain_line, media_line,
  media_lines, start, finish_media, parse_media_playlist, all_at,
}

&&-both : (a b : Bool) → (a && b) ≡ true → (a ≡ true) × (b ≡ true)
&&-both true b h = (refl, h)
&&-both false b h = cc

-- The lines of segments: not empty, and no tags.
abbrev pub is_segment_line : Text → Bool
is_segment_line line = not (is_empty line) && not (starts_with (text "#") line)

abbrev pub segment_uris : Text → List Text → List Text
segment_uris media_url [] = []
segment_uris media_url (line ∷ content) =
    let rest = segment_uris media_url content in
    if is_segment_line (trim line) then resolve_url media_url (trim line) ∷ rest else rest

abbrev pub uris : List MediaSegmentRef → List Text
uris [] = []
uris (segment ∷ segments) = segment.uri ∷ uris segments

uris-append : (xs ys : List MediaSegmentRef) → uris (xs ++ ys) ≡ uris xs ++ uris ys
uris-append [] ys = refl
uris-append (x ∷ xs) ys = ap (◌∷◌ x.uri) (uris-append xs ys)

-- What one line adds.
abbrev added : Text → Text → List Text
added media_url line = if is_segment_line line then resolve_url media_url line ∷ [] else []

use_method-segments :
    (s : Reading) (k : Key) (m : Option Text) → (use_method s k m).segments ≡ s.segments
unfolding use_method
use_method-segments s k none = refl
use_method-segments s k (some m) = ground arith

ok-segments :
    (t s' : Reading)
    → ◌≡◌ {A = Result Reading WrapperError} (ok t) (ok s')
    → s'.segments ≡ t.segments
ok-segments t s' h = let e : s' ≡ t = cc in ap (λ x. x.segments) e

map_step-segments :
    (media_url : Text) (s s' : Reading) (key value : Text)
    → map_step media_url s key value ≡ ok s'
    → s'.segments ≡ s.segments
map_step-segments media_url s s' key value h = elim (Bool-cases (eq_text key (text "URI"))) [
  | inl e ↦ ok-segments _ s' (rw e at h)
  | inr e ↦ elim (Bool-cases (eq_text key (text "BYTERANGE"))) [
    | inl f ↦ ok-segments _ s' (rw (e, f) at h)
    | inr f ↦ ok-segments s s' (rw (e, f) at h)
  ]
]

attribute-segments :
    (media_url : Text) (s s' : Reading) (found : Option (Text × Text))
    → attribute (map_step media_url) s found ≡ ok s'
    → s'.segments ≡ s.segments
unfolding attribute
attribute-segments media_url s s' none h = cc
attribute-segments media_url s s' (some (key, value)) h =
    map_step-segments media_url s s' (trim key) (trim_matches b'"' (trim value)) h

each_attribute-segments :
    (media_url : Text) (parts : List Text) (s s' : Reading)
    → each_attribute (map_step media_url) s parts ≡ ok s'
    → s'.segments ≡ s.segments
unfolding each_attribute
each_attribute-segments media_url [] s s' h = ok-segments s s' h
each_attribute-segments media_url (part ∷ parts) s s' h =
    let (t, e, rest) = >>=-eq-ok (attribute (map_step media_url) s (split_once b'=' part)) _ h in
    each_attribute-segments media_url parts t s' rest
    ∙ attribute-segments media_url s t (split_once b'=' part) e

read_attributes-segments :
    (media_url attrs : Text) (s s' : Reading)
    → read_attributes (map_step media_url) s attrs ≡ ok s'
    → s'.segments ≡ s.segments
unfolding read_attributes
read_attributes-segments media_url attrs s s' h =
    let (parts, e, rest) = >>=-eq-ok (split_attributes attrs) _ h in
    each_attribute-segments media_url parts s s' rest

-- A line that begins with a tag is no line of a segment.
tag_line :
    (tag rest line : Text)
    → strip_prefix (b'#' ∷ tag) line ≡ some rest
    → is_segment_line line ≡ false
unfolding strip_prefix starts_with
tag_line tag rest [] h = cc
tag_line tag rest (c ∷ cs) h = elim (Bool-cases (c == b'#')) [
  | inl e ↦ rw e refl
  | inr e ↦ let k = rw (strip_prefix, e) at h in cc
]

-- A line adds the URI that it stands for, resolved, if it is the line of a segment.
media_line-uris :
    (media_url : Text) (s s' : Reading) (line : Text)
    → media_line media_url s line ≡ ok s'
    → uris s'.segments ≡ uris s.segments ++ added media_url line
unfolding media_line plain_line use_key
media_line-uris media_url s s' line h = elim (Bool-cases (is_empty line)) [
  | inl e ↦
      let k = ok-segments s s' (rw (media_line, e) at h) in
      rw (k, e, append-nil (uris s.segments)) refl
  | inr e ↦ elim (Option-cases (strip_prefix (text "#EXT-X-KEY:") line)) [
    | inr (attrs, f) ↦
        let tag = tag_line (text "EXT-X-KEY:") attrs line f in
        let h' = rw (media_line, e, f) at h in
        let (k, r, q) = >>=-eq-ok (read_attributes key_step no_key attrs) _ h' in
        let same = ok-segments (use_key s k) s' q ∙ use_method-segments s k k.key_method in
        rw (same, tag, append-nil (uris s.segments)) refl
    | inl f ↦ elim (Option-cases (strip_prefix (text "#EXT-X-MAP:") line)) [
      | inr (attrs, g) ↦
          let tag = tag_line (text "EXT-X-MAP:") attrs line g in
          let same =
            read_attributes-segments media_url attrs s s' (rw (media_line, e, f, g) at h) in
          rw (same, tag, append-nil (uris s.segments)) refl
      | inl g ↦ elim (Option-cases (strip_prefix (text "#EXT-X-BYTERANGE:") line)) [
        | inr (range, i) ↦
            let tag = tag_line (text "EXT-X-BYTERANGE:") range line i in
            let same = ok-segments _ s' (rw (media_line, plain_line, e, f, g, i) at h) in
            rw (same, tag, append-nil (uris s.segments)) refl
        | inl i ↦ elim (Bool-cases (starts_with (text "#") line)) [
          | inl p ↦
              let same = ok-segments s s' (rw (media_line, plain_line, e, f, g, i, p) at h) in
              rw (same, e, p, append-nil (uris s.segments)) refl
          | inr p ↦
              let same = ok-segments _ s' (rw (media_line, plain_line, e, f, g, i, p) at h) in
              rw (same, e, p) (uris-append s.segments _)
        ]
      ]
    ]
  ]
]

segment_uris-cons :
    (media_url line : Text) (content : List Text)
    → segment_uris media_url (line ∷ content)
      ≡ added media_url (trim line) ++ segment_uris media_url content
segment_uris-cons media_url line content = elim (Bool-cases (is_segment_line (trim line))) [
  | inl e ↦ rw e refl
  | inr e ↦ rw e refl
]

media_lines-uris :
    (media_url : Text) (content : List Text) (s s' : Reading)
    → media_lines media_url content s ≡ ok s'
    → uris s'.segments ≡ uris s.segments ++ segment_uris media_url content
unfolding media_lines
media_lines-uris media_url [] s s' h = rw (ok-segments s s' h, append-nil (uris s.segments)) refl
media_lines-uris media_url (line ∷ content) s s' h =
    let (t, e, rest) = >>=-eq-ok (media_line media_url s (trim line)) _ h in
    let first = media_line-uris media_url s t (trim line) e in
    rw
      (
        media_lines-uris media_url content t s' rest,
        first,
        segment_uris-cons media_url line content,
      )
      (append_assoc (uris s.segments) (added media_url (trim line))
        (segment_uris media_url content))

all_at_iff :
    (uri : Text) (segments : List MediaSegmentRef)
    → (all_at uri segments ≡ true) ↔ All (λ segment. segment.uri ≡ uri) segments
all_at_iff uri [] = (λ h. tt, λ h. refl)
all_at_iff uri (segment ∷ segments) = (
  λ h.
      let both = &&-both (eq_text segment.uri uri) (all_at uri segments) h in
      ((eq_text_iff segment.uri uri).0 both.0, (all_at_iff uri segments).0 both.1),
  λ h.
      let one = (eq_text_iff segment.uri uri).1 h.0 in
      let others = (all_at_iff uri segments).1 h.1 in rw (one, others) refl,
)

finished :
    {found : List Text} (s : Reading) (info : MediaPlaylistInfo)
    → uris s.segments ≡ found
    → finish_media s ≡ ok info
    → (uris info.segments ≡ found)
      × ((info.single_file_url ≡ some info.init_uri)
          ↔ All (λ segment. segment.uri ≡ info.init_uri) info.segments)
unfolding finish_media
finished s info u h =
    let (uri, e, r) = >>=-eq-ok (ok_or s.init_uri no_init_segment) _ h in
    let same : info ≡ record {
      init_uri = uri;
      init_byte_range = s.init_byte_range;
      segments = s.segments;
      single_file_url = if all_at uri s.segments then some uri else none;
      key_method = s.key_method;
      cenc_kid_b64 = s.cenc_kid_b64;
    } =
      cc in
    let all = all_at_iff uri s.segments in
    elim (Bool-cases (all_at uri s.segments)) [
      | inl a ↦ rw (same, a) (u, (λ k. all.0 a, λ k. refl))
      | inr a ↦
          rw (same, a)
            (
              u,
              (
                λ k. absurd (let c : none ≡ some uri = k in cc),
                λ k. absurd (let c = sym (all.1 k) ∙ a in cc),
              ),
            )
    ]

-- A playlist that is read has one segment for each line that is neither empty nor a tag, in the order
-- of the lines, at the URL that the line resolves to. It is a single file exactly if each segment is at
-- the URL of the init segment.
pub parse_media_playlist-uris :
    (content media_url : Text) (info : MediaPlaylistInfo)
    → parse_media_playlist content media_url ≡ ok info
    → (uris info.segments ≡ segment_uris media_url (lines content))
      × ((info.single_file_url ≡ some info.init_uri)
          ↔ All (λ segment. segment.uri ≡ info.init_uri) info.segments)
unfolding parse_media_playlist
parse_media_playlist-uris content media_url info h =
    let (s, e, rest) = >>=-eq-ok (media_lines media_url (lines content) start) _ h in
    finished s info (media_lines-uris media_url (lines content) start s e) rest
