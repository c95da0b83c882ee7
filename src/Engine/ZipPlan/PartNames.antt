-- ===== src/Engine/ZipPlan/PartNames.antt =====
-- The names of the parts of an archive that `plan_zip_parts_with_codec` of crates/engine/src/zip.rs
-- plans.
use mathlib.Core.List.{append_assoc, append_cancel_right}
use peerless_server.Prelude.{
  ℕ, suc, ◌+◌, ◌≤◌, ◌<◌, ◌≡◌, ◌≢◌, refl, ap, sym, ◌∙◌, List, [], ◌∷◌, ◌++◌, Option, some, ok,
  >>=-eq-ok, All, Text, text, decimal, length, arith,
}
use peerless_server.Stream.Range.{u64_max}
use peerless_server.Stream.Range.Decimal.{decimal-IsDigit}
use peerless_server.Engine.Filename.{max_archive_filename_bytes}
use peerless_server.Engine.Filename.Tags.{sanitize_and_bound-tags}
use peerless_server.Engine.ZipPlan.{
  ZipTrackEntry, ZipPartPlan, archive_codec_label, year_part, archive_name, number_parts,
  plan_groups, plan_zip_parts_with_codec,
}
use peerless_server.Engine.ZipPlan.PartSuffix.{
  decimal_injective, digits-Avoids, last_word, of_total, numbered_suffix, part_suffix-numbered,
  numbered_suffix-IsAllowed, byte_len-numbered_suffix, numbered_suffix_last,
}

-- The number of a part is read from the end of its name.
numbered_suffix-same :
    (p q codec : Text) (i j total : ℕ)
    → i ≤ u64_max
    → j ≤ u64_max
    → p ++ numbered_suffix codec i total ≡ q ++ numbered_suffix codec j total
    → i ≡ j
numbered_suffix-same p q codec i j total hi hj e =
    let front = text " [" ++ (archive_codec_label codec ++ text "] (Part") in
    let cut : (r : Text) (n : ℕ)
        → r ++ numbered_suffix codec n total
          ≡ ((r ++ front) ++ b' ' ∷ decimal n) ++ of_total total =
      λ r n. simp append_assoc in
    let numbers =
      append_cancel_right ((p ++ front) ++ b' ' ∷ decimal i) ((q ++ front) ++ b' ' ∷ decimal j)
        (of_total total) (sym (cut p i) ∙ e ∙ cut q j) in
    decimal_injective i j hi hj (
      last_word (p ++ front) (q ++ front) (decimal i) (decimal j)
        (digits-Avoids (decimal i) (decimal-IsDigit i))
        (digits-Avoids (decimal j) (decimal-IsDigit j)) numbers)

archive_name-numbered_suffix :
    (artist album release_date codec : Text) (i total : ℕ)
    → 1 < total
    → i ≤ total
    → total ≤ u64_max
    → (p : Text) × (archive_name artist album release_date codec i total
        ≡ some (p ++ numbered_suffix codec i total))
unfolding archive_name
archive_name-numbered_suffix artist album release_date codec i total several h bound =
    let suffix = numbered_suffix codec i total in
    let (start, ends) = numbered_suffix_last codec i total in
    let (long, room) = byte_len-numbered_suffix codec i total (omega arith) bound in
    let whole = append_assoc album (year_part release_date) suffix in
    let (p, e) =
      sanitize_and_bound-tags max_archive_filename_bytes [] artist (album ++ year_part release_date)
        suffix start b'p' (numbered_suffix-IsAllowed codec i total) refl ends long room in
    (p, rw (part_suffix-numbered codec i total several, sym whole) e)

-- The parts after one have other names than it.
number_parts-ne :
    (artist album release_date codec : Text) (cover_path : Option Text) (total : ℕ)
    → total ≤ u64_max
    → (i j : ℕ) (groups : List (List ZipTrackEntry)) → 0 < i
    → i ≤ j
    → j + length groups ≤ total
    → All
        (λ part. part.archive_filename ≢ archive_name artist album release_date codec i total)
        (number_parts artist album release_date codec cover_path total j groups)
unfolding number_parts
number_parts-ne artist album release_date codec cover_path total bound i j [] pos le room = tt
number_parts-ne artist album release_date codec cover_path total bound i j (g ∷ groups) pos le
      room =
    let several : 1 < total = omega (arith, pos, le, room) in
    let (p, e) =
      archive_name-numbered_suffix artist album release_date codec i total several
        (omega (arith, le, room)) bound in
    let (q, k) =
      archive_name-numbered_suffix artist album release_date codec (j + 1) total several
        (omega (arith, room)) bound in
    let differ : archive_name artist album release_date codec (j + 1) total
        ≢ archive_name artist album release_date codec i total =
      λ eq.
        let names : p ++ numbered_suffix codec i total ≡ q ++ numbered_suffix codec (j + 1) total =
          cc in
        let same =
          numbered_suffix-same p q codec i (j + 1) total (omega (arith, le, room, bound))
            (omega (arith, room, bound)) names in
        omega (arith, same, le) in
    (
      differ,
      number_parts-ne artist album release_date codec cover_path total bound i (j + 1) groups pos
          (omega (arith, le)) (omega (arith, room)),
    )

-- The archive of each part has a name, which no later part has.
abbrev pub HasDistinctNames : List ZipPartPlan → Type 0
HasDistinctNames [] = Unit {0}
HasDistinctNames (part ∷ parts) =
    All (λ later. later.archive_filename ≢ part.archive_filename) parts × HasDistinctNames parts

number_parts-HasDistinctNames :
    (artist album release_date codec : Text) (cover_path : Option Text) (total : ℕ)
    → total ≤ u64_max
    → (j : ℕ) (groups : List (List ZipTrackEntry)) → j + length groups ≤ total
    → HasDistinctNames (number_parts artist album release_date codec cover_path total j groups)
unfolding number_parts
number_parts-HasDistinctNames artist album release_date codec cover_path total bound j [] room = tt
number_parts-HasDistinctNames artist album release_date codec cover_path total bound j (g ∷ groups)
      room =
    (
      number_parts-ne artist album release_date codec cover_path total bound (j + 1) (j + 1) groups
          (omega arith) (omega arith) (omega (arith, room)),
      number_parts-HasDistinctNames artist album release_date codec cover_path total bound (j + 1)
          groups (omega (arith, room)),
    )

length-number_parts :
    (artist album release_date codec : Text) (cover_path : Option Text) (total j : ℕ)
    (groups : List (List ZipTrackEntry))
    → length (number_parts artist album release_date codec cover_path total j groups)
      ≡ length groups
unfolding number_parts
length-number_parts artist album release_date codec cover_path total j [] = refl
length-number_parts artist album release_date codec cover_path total j (g ∷ groups) =
    ap suc (length-number_parts artist album release_date codec cover_path total (j + 1) groups)

-- No two parts of an accepted plan, which are at most 2^64 - 1, have one archive file name, however long
-- the names of the artist and the album are.
pub plan_zip_parts_with_codec-HasDistinctNames :
    (file_len : Text → Option ℕ) (artist album release_date : Text) (tracks : List ZipTrackEntry)
    (cover_path : Option Text) (limit : ℕ) (codec : Text) {parts : List ZipPartPlan}
    → plan_zip_parts_with_codec file_len artist album release_date tracks cover_path limit codec
      ≡ ok parts
    → length parts ≤ u64_max
    → HasDistinctNames parts
unfolding plan_zip_parts_with_codec
plan_zip_parts_with_codec-HasDistinctNames file_len artist album release_date tracks cover_path
      limit codec {parts} h bound =
    let (groups, e, h1) = >>=-eq-ok (plan_groups file_len tracks cover_path limit) _ h in
    let total = length groups in
    let k : parts ≡ number_parts artist album release_date codec cover_path total 0 groups = cc in
    let count = length-number_parts artist album release_date codec cover_path total 0 groups in
    let most : total ≤ u64_max = omega (arith, count, rw k at bound) in
    rw k (
      number_parts-HasDistinctNames artist album release_date codec cover_path total most 0 groups
        (omega arith))
