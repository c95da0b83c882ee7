-- ===== src/Engine/ZipPlan/Complete.antt =====
-- When a plan of ZIP parts is accepted.
use peerless_server.Prelude.{
  ℕ, ◌+◌, ◌≤◌, ◌<◌, ◌≡◌, refl, inl, inr, true, false, not, ◌&&◌, List, [], ◌∷◌, ◌++◌, Option, some,
  ltb, leb, ◌==◌, if◌then◌else◌, ok, Bool-cases, All, length, arith, Text, eq_text, eq_text_iff,
}
use peerless_server.Engine.ZipPlan.Packing.{total}
use peerless_server.Engine.ZipPlan.Names.{Fresh, Accepted}
use peerless_server.Engine.ZipPlan.{
  ZipTrackEntry, ZipPartPlan, is_nil, any, is_some, manifest, is_valid_entry_name,
  validate_entry_name, check_size, check_tracks, cover_len, usable_bytes, group_tracks, plan_groups,
  plan_zip_parts_with_codec, number_parts,
}

Fresh-any : (names : List Text) (name : Text) → Fresh names name → any (eq_text name) names ≡ false
Fresh-any [] name h = refl
Fresh-any (x ∷ names) name h = elim (Bool-cases (eq_text name x)) [
  | inl e ↦ absurd (h.0 ((eq_text_iff name x).0 e))
  | inr e ↦ rw e (Fresh-any names name h.1)
]

validate_entry_name_valid :
    (name : Text) → is_valid_entry_name name ≡ true → validate_entry_name name ≡ ok tt
unfolding validate_entry_name
validate_entry_name_valid name h = rw h refl

check_size_same :
    (file_len : Text → Option ℕ) (track : ZipTrackEntry)
    → file_len track.file_path ≡ some track.file_size
    → check_size file_len track ≡ ok tt
unfolding check_size
check_size_same file_len track h =
    let e : (track.file_size == track.file_size) ≡ true = ground arith in rw (check_size, h, e) refl

Accepted-check_tracks :
    (file_len : Text → Option ℕ) (names : List Text) (tracks : List ZipTrackEntry)
    → Accepted file_len names tracks
    → check_tracks file_len names tracks ≡ ok tt
unfolding check_tracks
Accepted-check_tracks file_len names [] h = refl
Accepted-check_tracks file_len names (track ∷ tracks) (v, f, s, rest) =
    let a = validate_entry_name_valid track.archive_filename v in
    let b = Fresh-any names track.archive_filename f in
    let c = check_size_same file_len track s in
    rw (a, b, c) (Accepted-check_tracks file_len (track.archive_filename ∷ names) tracks rest)

module _ (usable cover_size : ℕ) where
  group_tracks-ok :
      (groups : List (List ZipTrackEntry)) (current : List ZipTrackEntry) (size : ℕ)
      (ts : List ZipTrackEntry)
      → size + total ts ≤ 0xffff_ffff_ffff_ffff
      → cover_size + total ts ≤ 0xffff_ffff_ffff_ffff
      → All (λ t. t.file_size ≤ usable) ts
      → (out : List (List ZipTrackEntry)) × (group_tracks usable cover_size groups current size ts
          ≡ ok out)
  unfolding group_tracks
  group_tracks-ok groups current size [] h k a =
      (if is_nil current then groups else groups ++ current ∷ [], refl)
  group_tracks-ok groups current size (t ∷ ts) h k a =
      let small : ltb usable t.file_size ≡ false = let b = a.0 in ground arith in
      let next : leb (size + t.file_size) 0xffff_ffff_ffff_ffff ≡ true = ground arith in
      let fresh : leb (cover_size + t.file_size) 0xffff_ffff_ffff_ffff ≡ true = ground arith in
      elim (Bool-cases (not (is_nil current) && ltb usable (size + t.file_size))) [
        | inl f ↦
            let (out, e) =
              group_tracks-ok (groups ++ current ∷ []) (t ∷ []) (cover_size + t.file_size) ts
                (omega arith) (omega arith) a.1 in
            (out, rw (small, next, f, fresh) e)
        | inr f ↦
            let (out, e) =
              group_tracks-ok groups (current ++ t ∷ []) (size + t.file_size) ts (omega arith)
                (omega arith) a.1 in
            (out, rw (small, next, f, next) e)
      ]

-- A plan is accepted when there is a track and a limit, the tracks have valid and distinct names and
-- the lengths that they say, the cover can be read, the limit leaves room for it beside the overhead,
-- each track fits in that room, and the sizes do not add up to more than 64 bits hold.
pub plan_zip_parts_with_codec-ok :
    (file_len : Text → Option ℕ) (artist album release_date : Text) (t : ZipTrackEntry)
    (ts : List ZipTrackEntry) (cover_path : Option Text) (limit : ℕ) (codec : Text)
    {cover_size usable : ℕ}
    → 0 < limit
    → Accepted file_len (manifest ∷ []) (t ∷ ts)
    → cover_len file_len cover_path ≡ ok cover_size
    → usable_bytes (length (t ∷ ts)) (is_some cover_path) cover_size limit ≡ ok usable
    → All (λ t. t.file_size ≤ usable) (t ∷ ts)
    → cover_size + total (t ∷ ts) ≤ 0xffff_ffff_ffff_ffff
    → (parts : List ZipPartPlan) × (plan_zip_parts_with_codec file_len artist album release_date
          (t ∷ ts)
          cover_path
          limit
          codec
        ≡ ok parts)
unfolding plan_zip_parts_with_codec plan_groups
plan_zip_parts_with_codec-ok file_len artist album release_date t ts cover_path limit codec
      {cover_size} {usable} p n c u a s =
    let (groups, g) = group_tracks-ok usable cover_size [] [] cover_size (t ∷ ts) s s a in
    let z : (limit == 0) ≡ false = ground arith in
    let k = Accepted-check_tracks file_len (manifest ∷ []) (t ∷ ts) n in
    (
      number_parts artist album release_date codec cover_path (length groups) 0 groups,
      rw (z, k, c, u, g) refl,
    )
