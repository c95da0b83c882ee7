-- ===== src/Engine/ZipPlan/EntryName.antt =====
-- The names of the entries that crates/engine/src/zip.rs makes for tracks:
-- `build_zip_entry_filename_with_codec`.
use peerless_server.Prelude.{
  ℕ, ◌≡◌, refl, inl, inr, false, ◌||◌, [], ◌∷◌, ◌++◌, Option, none, some, ltb, ◌==◌, if◌then◌else◌,
  Bool-cases, ok, All, Text, text, eq_text, eq_text_iff, byte_len, decimal, arith,
}
use peerless_server.Stream.Range.Parse.{Avoids, split_single}
use peerless_server.Engine.Filename.{dot_dot, max_zip_entry_filename_bytes, sanitize_and_bound}
use peerless_server.Engine.Filename.Bounds.{IsAllowed, IsName, sanitize_and_bound-IsName}
use peerless_server.Engine.ZipPlan.{any, is_valid_entry_name, validate_entry_name}

-- An `i64` by its sign and its amount.
pub data TrackNumber : Type 0 where
  nonnegative negative : ℕ → TrackNumber

-- `{num:02}`.
abbrev pub two_digits : TrackNumber → Text
two_digits (nonnegative n) = if ltb n 10 then b'0' ∷ decimal n else decimal n
two_digits (negative n) = b'-' ∷ decimal n

abbrev pub numbered : Option TrackNumber → Text
numbered none = []
numbered (some num) = two_digits num ++ text " - "

abbrev pub entry_extension : Text → Text
entry_extension codec =
    if eq_text codec (text "flac")
    then text "flac"
    else if eq_text codec (text "mp3")
    then text "mp3"
    else text "m4a"

unfoldable pub build_zip_entry_filename_with_codec :
    Option TrackNumber → Text → Text → Text → Text → Option Text
build_zip_entry_filename_with_codec track_number title artist track_id codec =
    let suffix = text " [" ++ (track_id ++ (text "]." ++ entry_extension codec)) in
    sanitize_and_bound max_zip_entry_filename_bytes
      (numbered track_number ++ (title ++ (text " - " ++ (artist ++ suffix)))) (some suffix)

-- An allowed character is no slash and no control character.
IsAllowed-Avoids : (s : Text) → All IsAllowed s → All (Avoids b'/') s
IsAllowed-Avoids [] h = tt
IsAllowed-Avoids (c ∷ s) h = (ground (arith, h.0), IsAllowed-Avoids s h.1)

IsAllowed-printable : (s : Text) → All IsAllowed s → any (λ c. ltb c 0x20 || c == 0x7f) s ≡ false
IsAllowed-printable [] h = refl
IsAllowed-printable (c ∷ s) h = ground (arith, h.0, IsAllowed-printable s h.1)

-- A path of one component that is none of those that the archive refuses.
IsName-validate_entry_name :
    (name : Text) → IsName max_zip_entry_filename_bytes name → validate_entry_name name ≡ ok tt
unfolding validate_entry_name is_valid_entry_name
IsName-validate_entry_name [] v = absurd (v.nonempty refl)
IsName-validate_entry_name (c ∷ s) v =
    let single = split_single b'/' (c ∷ s) (IsAllowed-Avoids (c ∷ s) v.allowed) in
    let printable = IsAllowed-printable (c ∷ s) v.allowed in
    let short : ltb max_zip_entry_filename_bytes (byte_len (c ∷ s)) ≡ false =
      let fits = v.fits in ground arith in
    let relative : (c == b'/') ≡ false = ground (arith, v.allowed.0) in
    let other : eq_text (c ∷ s) dot_dot ≡ false = elim (Bool-cases (eq_text (c ∷ s) dot_dot)) [
      | inl e ↦ absurd (v.not_dot_dot ((eq_text_iff (c ∷ s) dot_dot).0 e))
      | inr e ↦ e
    ] in
    rw (short, printable, relative, single, other) refl

-- Whatever the tags of a track are, the name that is made for its entry is one that the planning of the
-- archive accepts as valid.
pub build_zip_entry_filename_with_codec-validate_entry_name :
    (track_number : Option TrackNumber) (title artist track_id codec : Text)
    → (name : Text) × (build_zip_entry_filename_with_codec track_number title artist track_id codec
        ≡ some name)
      × (validate_entry_name name ≡ ok tt)
unfolding build_zip_entry_filename_with_codec
build_zip_entry_filename_with_codec-validate_entry_name track_number title artist track_id codec =
    let suffix = text " [" ++ (track_id ++ (text "]." ++ entry_extension codec)) in
    let whole = numbered track_number ++ (title ++ (text " - " ++ (artist ++ suffix))) in
    let (name, e, v) =
      sanitize_and_bound-IsName max_zip_entry_filename_bytes whole (some suffix) (omega arith) in
    (name, e, IsName-validate_entry_name name v)
