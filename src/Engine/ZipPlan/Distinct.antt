-- ===== src/Engine/ZipPlan/Distinct.antt =====
-- The names that crates/engine/src/zip.rs makes for the entries of tracks with different ids.
use mathlib.Core.List.{append_cancel_right, append_assoc}
use peerless_server.Prelude.{
  ℕ, ◌<◌, ◌≡◌, ◌≢◌, refl, ap, sym, ◌∙◌, inl, inr, [], ◌∷◌, ◌++◌, Option, some, Bool-cases, All,
  All-append, Text, text, eq_text, byte_len, IsGraphic, length, length-append, arith,
}
use peerless_server.Engine.Filename.{max_zip_entry_filename_bytes}
use peerless_server.Engine.Filename.Bounds.{IsAllowed, byte_len-append}
use peerless_server.Engine.ZipPlan.EntryName.{
  TrackNumber, numbered, entry_extension, build_zip_entry_filename_with_codec,
}
use peerless_server.Engine.Filename.Tags.{sanitize_and_bound-tags}

-- What `build_zip_entry_filename_with_codec` puts behind the tags.
abbrev pub entry_suffix : Text → Text → Text
entry_suffix track_id codec = text " [" ++ (track_id ++ (text "]." ++ entry_extension codec))

-- An extension ends with a character that is no white space.
entry_extension_last :
    (codec : Text)
    → (start : Text) × (d : ℕ) × IsGraphic d
      × All IsAllowed (entry_extension codec)
      × (entry_extension codec ≡ start ++ d ∷ [])
entry_extension_last codec = elim (Bool-cases (eq_text codec (text "flac"))) [
  | inl e ↦ rw e (text "fla", b'c', refl, (refl, (refl, (refl, (refl, tt)))), refl)
  | inr e ↦ elim (Bool-cases (eq_text codec (text "mp3"))) [
    | inl k ↦ rw (e, k) (text "mp", b'3', refl, (refl, (refl, (refl, tt))), refl)
    | inr k ↦ rw (e, k) (text "m4", b'a', refl, (refl, (refl, (refl, tt))), refl)
  ]
]

entry_suffix-IsAllowed :
    (track_id codec : Text) → All IsAllowed track_id → All IsAllowed (entry_suffix track_id codec)
entry_suffix-IsAllowed track_id codec h =
    let (start, d, g, a, e) = entry_extension_last codec in
    (
      refl,
      (
        refl,
        All-append IsAllowed track_id (text "]." ++ entry_extension codec) h (refl, (refl, a)),
      ),
    )

entry_suffix_last :
    (track_id codec : Text)
    → (start : Text) × (d : ℕ) × IsGraphic d × (entry_suffix track_id codec ≡ start ++ d ∷ [])
entry_suffix_last track_id codec =
    let (start, d, g, a, e) = entry_extension_last codec in
    (
      text " [" ++ (track_id ++ (text "]." ++ start)),
      d,
      g,
      ap (λ x. text " [" ++ (track_id ++ (text "]." ++ x))) e
          ∙ ap (text " [" ++◌) (sym (append_assoc track_id (text "]." ++ start) (d ∷ []))),
    )

build_zip_entry_filename_with_codec-suffix :
    (track_number : Option TrackNumber) (title artist track_id codec : Text)
    → All IsAllowed track_id
    → byte_len (entry_suffix track_id codec) < max_zip_entry_filename_bytes
    → (p : Text) × (build_zip_entry_filename_with_codec track_number title artist track_id codec
        ≡ some (p ++ entry_suffix track_id codec))
unfolding build_zip_entry_filename_with_codec
build_zip_entry_filename_with_codec-suffix track_number title artist track_id codec h room =
    let (start, d, g, ends) = entry_suffix_last track_id codec in
    let long : 2 < byte_len (entry_suffix track_id codec) =
      omega (arith, byte_len-append track_id (text "]." ++ entry_extension codec)) in
    sanitize_and_bound-tags max_zip_entry_filename_bytes (numbered track_number) title artist
      (entry_suffix track_id codec) start d (entry_suffix-IsAllowed track_id codec h) g ends long
      room

append-eq_right : (p q s t : Text) → length s ≡ length t → p ++ s ≡ q ++ t → s ≡ t
append-eq_right [] [] s t l e = e
append-eq_right [] (y ∷ q) s t l e = absurd (omega (arith, ap length e, length-append q t))
append-eq_right (x ∷ p) [] s t l e = absurd (omega (arith, ap length e, length-append p s))
append-eq_right (x ∷ p) (y ∷ q) s t l e = append-eq_right p q s t l (let k = e in cc)

-- Two tracks whose ids differ, have as many characters and no forbidden one, and leave room in the name,
-- get different entry names with their ids at the end, whatever their numbers, titles and artists are.
pub build_zip_entry_filename_with_codec-ne :
    (track_number other_number : Option TrackNumber)
    (title other_title artist other_artist track_id other_id codec : Text)
    → All IsAllowed track_id
    → All IsAllowed other_id
    → length track_id ≡ length other_id
    → byte_len (entry_suffix track_id codec) < max_zip_entry_filename_bytes
    → byte_len (entry_suffix other_id codec) < max_zip_entry_filename_bytes
    → track_id ≢ other_id
    → (p : Text) × (q : Text) × (build_zip_entry_filename_with_codec track_number title artist
          track_id codec
        ≡ some (p ++ entry_suffix track_id codec))
      × (build_zip_entry_filename_with_codec other_number other_title other_artist other_id codec
          ≡ some (q ++ entry_suffix other_id codec))
      × (p ++ entry_suffix track_id codec ≢ q ++ entry_suffix other_id codec)
build_zip_entry_filename_with_codec-ne n m title title' artist artist' a b codec ha hb l ra rb ne =
    let (p, e) = build_zip_entry_filename_with_codec-suffix n title artist a codec ha ra in
    let (q, k) = build_zip_entry_filename_with_codec-suffix m title' artist' b codec hb rb in
    let tail = text "]." ++ entry_extension codec in
    let same : length (entry_suffix a codec) ≡ length (entry_suffix b codec) =
      omega (arith, length-append a tail, length-append b tail, l) in
    (
      p,
      q,
      e,
      k,
      λ eq.
          let s = append-eq_right p q (entry_suffix a codec) (entry_suffix b codec) same eq in
          ne (append_cancel_right a b tail (let t = s in cc)),
    )
