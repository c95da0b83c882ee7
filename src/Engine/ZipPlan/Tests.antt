-- ===== src/Engine/ZipPlan/Tests.antt =====
-- The theorems on the names and hashes of crates/engine/src/zip.rs at concrete albums.
use peerless_server.Prelude.{
  IsByte, All, length, ◌≡◌, ◌≢◌, refl, some, none, ok, Text, text, eq_text_iff, ◌++◌, arith, ℕ,
  List, [], ◌∷◌, ◌%◌, ◌⊎◌,
}
use peerless_server.Engine.ZipPlan.{validate_entry_name}
use peerless_server.Engine.ZipPlan.EntryName.{
  nonnegative, build_zip_entry_filename_with_codec,
  build_zip_entry_filename_with_codec-validate_entry_name,
}
use peerless_server.Engine.ZipPlan.Distinct.{entry_suffix, build_zip_entry_filename_with_codec-ne}
use peerless_server.Engine.ZipPlan.Generation.{
  hex_digest, generation_message, album_generation_hash, album_generation_hash-same,
}
use peerless_server.Music.Url.{bytes}

build_zip_entry_filename_with_codec-validate_entry_name_example :
    (name : Text) × (build_zip_entry_filename_with_codec
        (some (nonnegative 7))
        (text "AC/DC")
        (text "Who?")
        (text "123")
        (text "alac")
      ≡ some name)
    × (validate_entry_name name ≡ ok tt)
build_zip_entry_filename_with_codec-validate_entry_name_example =
    build_zip_entry_filename_with_codec-validate_entry_name (some (nonnegative 7)) (text "AC/DC")
      (text "Who?") (text "123") (text "alac")

build_zip_entry_filename_with_codec-ne_example :
    (p : Text) × (q : Text) × (build_zip_entry_filename_with_codec
        (some (nonnegative 7))
        (text "Intro")
        (text "Who")
        (text "123")
        (text "flac")
      ≡ some (p ++ entry_suffix (text "123") (text "flac")))
    × (build_zip_entry_filename_with_codec none
          (text "Intro")
          (text "Who")
          (text "456")
          (text "flac")
        ≡ some (q ++ entry_suffix (text "456") (text "flac")))
    × (p ++ entry_suffix (text "123") (text "flac") ≢ q ++ entry_suffix (text "456") (text "flac"))
build_zip_entry_filename_with_codec-ne_example =
    let differ : text "123" ≢ text "456" =
      λ e. grind (arith, (eq_text_iff (text "123") (text "456")).1 e) in
    build_zip_entry_filename_with_codec-ne (some (nonnegative 7)) none (text "Intro") (text "Intro")
      (text "Who") (text "Who") (text "123") (text "456") (text "flac") (refl, (refl, (refl, tt)))
      (refl, (refl, (refl, tt))) refl (grind arith) (grind arith) differ

-- A poor digest, which has collisions.
abbrev digest : List ℕ → List ℕ
digest message = length message % 256 ∷ []

digest-IsByte : (message : List ℕ) → All IsByte (digest message)
digest-IsByte message = (omega arith, tt)

album_generation_hash-same_example :
    (text "apple" ≡ text "apple"
      × text "12" ≡ text "21"
      × text "7" ∷ text "8" ∷ [] ≡ text "8" ∷ text "7" ∷ [])
    ⊎ (bytes (generation_message (text "apple") (text "12") (text "7" ∷ text "8" ∷ []))
          ≢ bytes (generation_message (text "apple") (text "21") (text "8" ∷ text "7" ∷ []))
        × digest (bytes (generation_message (text "apple") (text "12") (text "7" ∷ text "8" ∷ [])))
          ≡ digest
              (bytes (generation_message (text "apple") (text "21") (text "8" ∷ text "7" ∷ []))))
unfolding album_generation_hash generation_message hex_digest bytes
album_generation_hash-same_example =
    album_generation_hash-same digest (text "apple") (text "12") (text "apple") (text "21")
      (text "7" ∷ text "8" ∷ []) (text "8" ∷ text "7" ∷ []) digest-IsByte (grind arith)
      (grind arith) refl
