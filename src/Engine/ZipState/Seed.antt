-- ===== src/Engine/ZipState/Seed.antt =====
-- The codec of an archive in crates/engine/src/orchestrator/zip_state.rs.
use peerless_server.Prelude.{
  ℕ, ◌≤◌, ◌≡◌, refl, ap, sym, ◌∙◌, ◌⊎◌, zero, suc, All, get_elem?, List, [], ◌∷◌, inl, inr, Option,
  none, some, if◌then◌else◌, Text, ◌>>◌, arith,
}
use peerless_server.Music.{Codec, alac, ec3, aac, as_str, from_str, from_str-as_str}
use peerless_server.Engine.ZipState.{rank, outranks, seed_zip_codec}

unfoldable pub seed_all : Option Text → List Codec → Option Text
unfolding seed_zip_codec
seed_all current [] = current
seed_all current (codec ∷ codecs) = seed_all (seed_zip_codec current codec) codecs

-- The better of two codecs, by the quality of their sound.
abbrev pub better : Codec → Codec → Codec
better alac _ = alac
better _ alac = alac
better ec3 _ = ec3
better _ ec3 = ec3
better aac aac = aac

abbrev pub best : Codec → List Codec → Codec
best codec [] = codec
best codec (other ∷ others) = best (better codec other) others

outranks-better :
    (existing codec : Codec)
    → (if outranks codec (some existing) then some (as_str codec) else some (as_str existing))
      ≡ some (as_str (better existing codec))
outranks-better alac alac = refl
outranks-better alac ec3 = refl
outranks-better alac aac = refl
outranks-better ec3 alac = refl
outranks-better ec3 ec3 = refl
outranks-better ec3 aac = refl
outranks-better aac alac = refl
outranks-better aac ec3 = refl
outranks-better aac aac = refl

seed_zip_codec-better :
    (existing codec : Codec)
    → seed_zip_codec (some (as_str existing)) codec ≡ some (as_str (better existing codec))
unfolding seed_zip_codec
seed_zip_codec-better existing codec =
    rw (seed_zip_codec, from_str-as_str existing) (outranks-better existing codec)

seed_all-best :
    (existing : Codec) (codecs : List Codec)
    → seed_all (some (as_str existing)) codecs ≡ some (as_str (best existing codecs))
unfolding seed_all
seed_all-best existing [] = refl
seed_all-best existing (codec ∷ codecs) =
    rw (seed_zip_codec-better existing codec) (seed_all-best (better existing codec) codecs)

better-rank :
    (codec other : Codec)
    → (rank codec ≤ rank (better codec other)) × (rank other ≤ rank (better codec other))
better-rank alac alac = (omega arith, omega arith)
better-rank alac ec3 = (omega arith, omega arith)
better-rank alac aac = (omega arith, omega arith)
better-rank ec3 alac = (omega arith, omega arith)
better-rank ec3 ec3 = (omega arith, omega arith)
better-rank ec3 aac = (omega arith, omega arith)
better-rank aac alac = (omega arith, omega arith)
better-rank aac ec3 = (omega arith, omega arith)
better-rank aac aac = (omega arith, omega arith)

better_either : (codec other : Codec) → (better codec other ≡ codec) ⊎ (better codec other ≡ other)
better_either alac _ = inl refl
better_either ec3 alac = inr refl
better_either ec3 ec3 = inl refl
better_either ec3 aac = inl refl
better_either aac alac = inr refl
better_either aac ec3 = inr refl
better_either aac aac = inl refl

best-rank :
    (codec : Codec) (codecs : List Codec)
    → All (λ other. rank other ≤ rank (best codec codecs)) (codec ∷ codecs)
best-rank codec [] = (omega arith, tt)
best-rank codec (other ∷ others) =
    let (low, rest) = best-rank (better codec other) others in
    let (left, right) = better-rank codec other in
    (omega (arith, low, left), (omega (arith, low, right), rest))

-- Some element of the list, by its place.
abbrev pub IsOneOf : Codec → List Codec → Type 0
IsOneOf codec codecs = (i : ℕ) × (get_elem? codecs i ≡ some codec)

IsOneOf-better :
    (codec other : Codec) (others : List Codec) (best_codec : Codec)
    → IsOneOf best_codec (better codec other ∷ others)
    → IsOneOf best_codec (codec ∷ other ∷ others)
IsOneOf-better codec other others best_codec (zero, e) = elim (better_either codec other) [
  | inl same ↦ (0, ap some (sym same) ∙ e)
  | inr same ↦ (1, ap some (sym same) ∙ e)
]
IsOneOf-better codec other others best_codec (suc i, e) = (suc (suc i), e)

best-IsOneOf : (codec : Codec) (codecs : List Codec) → IsOneOf (best codec codecs) (codec ∷ codecs)
best-IsOneOf codec [] = (0, refl)
best-IsOneOf codec (other ∷ others) =
    IsOneOf-better codec other others (best (better codec other) others)
      (best-IsOneOf (better codec other) others)

-- An archive without a codec, seeded with the codecs of its tracks one after another, gets the name of
-- the best of them, which is one of them and is read back as it.
seed_zip_codec-from_str :
    (codec : Codec) (codecs : List Codec)
    → (best_codec : Codec) × IsOneOf best_codec (codec ∷ codecs)
      × All (λ other. rank other ≤ rank best_codec) (codec ∷ codecs)
      × (seed_all none (codec ∷ codecs) ≡ some (as_str best_codec))
      × ((seed_all none (codec ∷ codecs) >> from_str) ≡ some best_codec)
unfolding seed_all seed_zip_codec
seed_zip_codec-from_str codec codecs =
    let e = seed_all-best codec codecs in
    (
      best codec codecs,
      best-IsOneOf codec codecs,
      best-rank codec codecs,
      e,
      rw e (from_str-as_str (best codec codecs)),
    )
