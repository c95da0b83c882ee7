-- ===== src/Engine/ZipPlan.antt =====
-- `plan_zip_parts_with_codec` of crates/engine/src/zip.rs: the checks on the tracks of an album and
-- their distribution over the parts of an archive. The file system is the parameter `file_len`, the
-- length of a file if its metadata can be read. Paths are those of Unix.
pub mod Complete
pub mod Distinct
pub mod EntryName
pub mod Generation
pub mod Names
pub mod Packing
pub mod PartNames
pub mod PartSuffix
pub mod Plan
mod Tests
use peerless_server.Prelude.{
  ℕ, zero, suc, ◌+◌, ◌-◌, ◌*◌, Bool, true, false, not, ◌&&◌, ◌||◌, List, [], ◌∷◌, ◌++◌, map, Option,
  none, some, ltb, leb, ◌==◌, if◌then◌else◌, checked, Result, ok, err, ◌>>=◌, ok_or, guard, length,
  take, Text, text, byte_len, split, eq_text, decimal,
}
use peerless_server.Engine.Filename.{
  sanitize_and_bound, max_archive_filename_bytes, max_zip_entry_filename_bytes,
}

pub record ZipTrackEntry : Type 0 where
  pub file_path : Text
  pub archive_filename : Text
  pub file_size : ℕ

-- `archive_filename` is a bounded name; `none` would be a panic while it is made.
pub record ZipPartPlan : Type 0 where
  pub part_index : ℕ
  pub total_parts : ℕ
  pub tracks : List ZipTrackEntry
  pub cover_path : Option Text
  pub archive_filename : Option Text

pub data ZipError : Type 0 where
  empty invalid_limit : ZipError
  invalid_entry_name duplicate_entry track_too_large : (name : Text) → ZipError
  source : (path : Text) → ZipError

abbrev pub entry_overhead_bytes : ℕ
entry_overhead_bytes = 512

abbrev pub archive_headroom_bytes : ℕ
archive_headroom_bytes = 64 * 1024

abbrev pub any {ℓ} : {A : Type ℓ} → (A → Bool) → List A → Bool
any p [] = false
any p (x ∷ xs) = p x || any p xs

abbrev pub is_nil {ℓ} : {A : Type ℓ} → List A → Bool
is_nil [] = true
is_nil (x ∷ xs) = false

-- `Path::is_absolute`, which is also when the path has a root component.
abbrev is_absolute : Text → Bool
is_absolute [] = false
is_absolute (c ∷ cs) = c == b'/'

unfoldable pub is_valid_entry_name : Text → Bool
is_valid_entry_name name = not (
    is_nil name
    || ltb max_zip_entry_filename_bytes (byte_len name)
    || any (λ c. ltb c 0x20 || c == 0x7f) name
    || is_absolute name
    || any (λ component. eq_text component (b'.' ∷ b'.' ∷ [])) (split b'/' name))

unfoldable pub validate_entry_name : Text → Result (Unit {0}) ZipError
unfolding is_valid_entry_name
validate_entry_name name = if is_valid_entry_name name then ok tt else err (invalid_entry_name name)

abbrev pub manifest : Text
manifest = text "manifest.json"

module _ (file_len : Text → Option ℕ) where
  unfoldable pub check_size : ZipTrackEntry → Result (Unit {0}) ZipError
  check_size track = elim (file_len track.file_path) [
    | none ↦ err (source track.file_path)
    | some len ↦ if len == track.file_size then ok tt else err (source track.file_path)
  ]

  -- The loop over the tracks; `names` are those in the archive so far.
  unfoldable pub check_tracks : List Text → List ZipTrackEntry → Result (Unit {0}) ZipError
  unfolding validate_entry_name check_size
  check_tracks names [] = ok tt
  check_tracks names (track ∷ tracks) = do
    _ ← validate_entry_name track.archive_filename
    _ ←
        guard (not (any (eq_text track.archive_filename) names))
          (duplicate_entry track.archive_filename)
    _ ← check_size track
    check_tracks (track.archive_filename ∷ names) tracks

  unfoldable pub cover_len : Option Text → Result ℕ ZipError
  cover_len none = ok 0
  cover_len (some path) = ok_or (file_len path) (source path)

-- What the archive needs beside its files.
abbrev pub overhead : ℕ → Bool → ℕ
overhead tracks has_cover =
    (tracks + (if has_cover then 1 else 0) + 1) * entry_overhead_bytes + archive_headroom_bytes

unfoldable pub usable_bytes : ℕ → Bool → ℕ → ℕ → Result ℕ ZipError
usable_bytes tracks has_cover cover_size max_part_bytes = do
  needed ← ok_or (checked (overhead tracks has_cover)) invalid_limit
  let usable = max_part_bytes - needed
  if usable == 0 || ltb usable cover_size then err invalid_limit else ok usable

-- The loop that fills the parts: `groups` are full, `current` is being filled.
unfoldable pub group_tracks :
    ℕ
    → ℕ
    → List (List ZipTrackEntry)
    → List ZipTrackEntry
    → ℕ
    → List ZipTrackEntry
    → Result (List (List ZipTrackEntry)) ZipError
group_tracks usable cover_size groups current current_size [] =
    ok (if is_nil current then groups else groups ++ current ∷ [])
group_tracks usable cover_size groups current current_size (track ∷ tracks) =
    if ltb usable track.file_size then err (track_too_large track.archive_filename) else do
      next ← ok_or (checked (current_size + track.file_size)) invalid_limit
      let full = not (is_nil current) && ltb usable next
      let size = if full then cover_size else current_size
      grown ← ok_or (checked (size + track.file_size)) invalid_limit
      group_tracks usable cover_size (if full then groups ++ current ∷ [] else groups)
          ((if full then [] else current) ++ track ∷ []) grown tracks

unfoldable pub archive_codec_label : Text → Text
archive_codec_label codec =
    if eq_text codec (text "ec-3")
    then text "Atmos"
    else if eq_text codec (text "aac")
        || eq_text codec (text "mp4a.40.2")
        || eq_text codec (text "mp4a.40.5")
    then text "AAC"
    else if eq_text codec (text "flac")
    then text "FLAC"
    else text "ALAC"

unfoldable pub year_part : Text → Text
year_part release_date =
    let year = take 4 release_date in
    if byte_len year == 4 && not (any (λ c. ltb c b'0' || ltb b'9' c) year)
    then text " (" ++ (year ++ text ")")
    else []

unfoldable pub part_suffix : Text → ℕ → ℕ → Text
part_suffix label part_index total_parts =
    text " ["
    ++ (label
        ++ (if total_parts == 1
            then text "].zip"
            else text "] (Part "
              ++ (decimal part_index ++ (text " of " ++ (decimal total_parts ++ text ").zip")))))

unfoldable pub archive_name : Text → Text → Text → Text → ℕ → ℕ → Option Text
archive_name artist album release_date codec part_index total_parts =
    let suffix = part_suffix (archive_codec_label codec) part_index total_parts in
    sanitize_and_bound max_archive_filename_bytes
      (artist ++ (text " - " ++ (album ++ (year_part release_date ++ suffix)))) (some suffix)

-- `into_iter().enumerate().map(…)`, from an index on.
unfoldable pub number_parts :
    Text → Text → Text → Text → Option Text → ℕ → ℕ → List (List ZipTrackEntry) → List ZipPartPlan
number_parts artist album release_date codec cover_path total_parts index [] = []
number_parts artist album release_date codec cover_path total_parts index (tracks ∷ groups) =
    record {
      part_index = index + 1;
      total_parts = total_parts;
      tracks = tracks;
      cover_path = cover_path;
      archive_filename = archive_name artist album release_date codec (index + 1) total_parts;
    }
    ∷ number_parts artist album release_date codec cover_path total_parts (index + 1) groups

abbrev pub is_some {ℓ} : {A : Type ℓ} → Option A → Bool
is_some none = false
is_some (some a) = true

-- The checks and the grouping, in the order of the source.
unfoldable pub plan_groups :
    (Text → Option ℕ)
    → List ZipTrackEntry
    → Option Text
    → ℕ
    → Result (List (List ZipTrackEntry)) ZipError
unfolding check_tracks cover_len usable_bytes group_tracks
plan_groups file_len tracks cover_path max_part_bytes =
    if is_nil tracks then err empty else if max_part_bytes == 0 then err invalid_limit else do
      _ ← check_tracks file_len (manifest ∷ []) tracks
      cover_size ← cover_len file_len cover_path
      usable ← usable_bytes (length tracks) (is_some cover_path) cover_size max_part_bytes
      group_tracks usable cover_size [] [] cover_size tracks

unfoldable pub plan_zip_parts_with_codec :
    (Text → Option ℕ)
    → Text
    → Text
    → Text
    → List ZipTrackEntry
    → Option Text
    → ℕ
    → Text
    → Result (List ZipPartPlan) ZipError
unfolding plan_groups number_parts
plan_zip_parts_with_codec file_len artist album release_date tracks cover_path max_part_bytes
      codec =
    do
      groups ← plan_groups file_len tracks cover_path max_part_bytes
      ok (number_parts artist album release_date codec cover_path (length groups) 0 groups)
