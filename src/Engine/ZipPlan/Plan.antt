-- ===== src/Engine/ZipPlan/Plan.antt =====
-- What an accepted plan of ZIP parts promises.
use peerless_server.Prelude.{
  ℕ, ◌+◌, ◌≤◌, ◌≡◌, ◌≢◌, refl, ap, inl, inr, Bool, List, [], ◌∷◌, map, Option, leb, ◌==◌, ok,
  >>=-eq-ok, Bool-cases, All, flatten, length, arith, Text,
}
use peerless_server.Engine.ZipPlan.Packing.{
  Fits, Tight, flatten-pack, pack-nonempty, pack-Fits, pack-Tight, group_tracks-start,
}
use peerless_server.Engine.ZipPlan.{
  ZipTrackEntry, ZipPartPlan, manifest, check_tracks, cover_len, usable_bytes, overhead,
  group_tracks, number_parts, is_some, plan_groups, plan_zip_parts_with_codec,
}

usable_bytes-eq :
    (tracks : ℕ) (has_cover : Bool) (cover_size limit : ℕ) {usable : ℕ}
    → usable_bytes tracks has_cover cover_size limit ≡ ok usable
    → (usable + overhead tracks has_cover ≡ limit) × (cover_size ≤ usable)
unfolding usable_bytes
usable_bytes-eq tracks has_cover cover_size limit h =
    let n = overhead tracks has_cover in
    elim (Bool-cases (leb n 0xffff_ffff_ffff_ffff)) [ inl e ↦ ground arith | inr e ↦ ground arith ]

-- What the checks before the grouping have established, with the sizes they computed.
record Checked (file_len : Text → Option ℕ) (tracks : List ZipTrackEntry) (cover_path : Option Text)
    (limit : ℕ) (groups : List (List ZipTrackEntry)) : Type 0 where
  cover_size : ℕ
  usable : ℕ
  names : check_tracks file_len (manifest ∷ []) tracks ≡ ok tt
  cover : cover_len file_len cover_path ≡ ok cover_size
  room : usable_bytes (length tracks) (is_some cover_path) cover_size limit ≡ ok usable
  grouped : group_tracks usable cover_size [] [] cover_size tracks ≡ ok groups

plan_groups-Checked :
    (file_len : Text → Option ℕ) (t : ZipTrackEntry) (ts : List ZipTrackEntry)
    (cover_path : Option Text) (limit : ℕ) {groups : List (List ZipTrackEntry)}
    → plan_groups file_len (t ∷ ts) cover_path limit ≡ ok groups
    → Checked file_len (t ∷ ts) cover_path limit groups
unfolding plan_groups
plan_groups-Checked file_len t ts cover_path limit h = elim (Bool-cases (limit == 0)) [
  | inl z ↦ cc (rw z at h)
  | inr z ↦
      let (u, n, h1) = >>=-eq-ok (check_tracks file_len (manifest ∷ []) (t ∷ ts)) _ (rw z at h) in
      let (c, k, h2) = >>=-eq-ok (cover_len file_len cover_path) _ h1 in
      let (b, r, h3) =
        >>=-eq-ok (usable_bytes (length (t ∷ ts)) (is_some cover_path) c limit) _ h2 in
      record { cover_size = c; usable = b; names = n; cover = k; room = r; grouped = h3 }
]

plan_groups-nil :
    (file_len : Text → Option ℕ) (cover_path : Option Text) (limit : ℕ)
    {groups : List (List ZipTrackEntry)}
    → plan_groups file_len [] cover_path limit ≡ ok groups
    → ⊥
unfolding plan_groups
plan_groups-nil file_len cover_path limit h = cc

-- The groups of an accepted plan.
pub record Packed (file_len : Text → Option ℕ) (tracks : List ZipTrackEntry)
    (cover_path : Option Text) (limit : ℕ) (groups : List (List ZipTrackEntry)) : Type 0 where
  pub cover_size : ℕ
  pub usable : ℕ
  pub cover : cover_len file_len cover_path ≡ ok cover_size
  pub room : usable + overhead (length tracks) (is_some cover_path) ≡ limit
  pub complete : flatten groups ≡ tracks
  pub nonempty : All (λ part. part ≢ []) groups
  pub fits : All (Fits usable cover_size) groups
  pub tight : Tight usable cover_size groups

plan_groups-Packed :
    (file_len : Text → Option ℕ) (tracks : List ZipTrackEntry) (cover_path : Option Text)
    (limit : ℕ) {groups : List (List ZipTrackEntry)}
    → plan_groups file_len tracks cover_path limit ≡ ok groups
    → Packed file_len tracks cover_path limit groups
plan_groups-Packed file_len [] cover_path limit h =
    absurd (plan_groups-nil file_len cover_path limit h)
plan_groups-Packed file_len (t ∷ ts) cover_path limit h =
    let c = plan_groups-Checked file_len t ts cover_path limit h in
    let (e, a) = group_tracks-start c.usable c.cover_size t ts c.grouped in
    let (r, _) = usable_bytes-eq (length (t ∷ ts)) (is_some cover_path) c.cover_size limit c.room in
    record {
      cover_size = c.cover_size;
      usable = c.usable;
      cover = c.cover;
      room = r;
      complete = rw e (flatten-pack c.usable c.cover_size (t ∷ []) ts);
      nonempty = rw e (pack-nonempty c.usable c.cover_size t [] ts);
      fits = rw e (pack-Fits c.usable c.cover_size (t ∷ []) ts (inr (t, refl, a.0)) a.1);
      tight = rw e (pack-Tight c.usable c.cover_size t [] ts);
    }

map-number_parts :
    (artist album release_date codec : Text) (cover_path : Option Text) (n i : ℕ)
    (groups : List (List ZipTrackEntry))
    → map (λ part. part.tracks) (number_parts artist album release_date codec cover_path n i groups)
      ≡ groups
unfolding number_parts
map-number_parts artist album release_date codec cover_path n i [] = refl
map-number_parts artist album release_date codec cover_path n i (g ∷ gs) =
    ap (◌∷◌ g) (map-number_parts artist album release_date codec cover_path n (i + 1) gs)

-- An accepted plan packs the tracks: its parts hold all the tracks in their order, no part is
-- empty, each part fits in the part limit less the overhead of the archive, with the cover or as a
-- single track without it, and no part has room for the first track of the next one.
pub plan_zip_parts_with_codec-Packed :
    (file_len : Text → Option ℕ) (artist album release_date : Text) (tracks : List ZipTrackEntry)
    (cover_path : Option Text) (limit : ℕ) (codec : Text) {parts : List ZipPartPlan}
    → plan_zip_parts_with_codec file_len artist album release_date tracks cover_path limit codec
      ≡ ok parts
    → Packed file_len tracks cover_path limit (map (λ part. part.tracks) parts)
unfolding plan_zip_parts_with_codec
plan_zip_parts_with_codec-Packed file_len artist album release_date tracks cover_path limit codec
      {parts} h =
    let (groups, e, h1) = >>=-eq-ok (plan_groups file_len tracks cover_path limit) _ h in
    let m = map-number_parts artist album release_date codec cover_path (length groups) 0 groups in
    let k : parts
        ≡ number_parts artist album release_date codec cover_path (length groups) 0 groups =
      cc in
    rw (k, m) (plan_groups-Packed file_len tracks cover_path limit e)
