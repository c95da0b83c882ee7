-- ===== src/Engine/ZipPlan/Names.antt =====
-- The names of the entries of an accepted plan: the validation and the set `names` of
-- `plan_zip_parts_with_codec`.
use peerless_server.Prelude.{
  ℕ, inl, inr, ◌≡◌, ◌≢◌, refl, Bool, true, false, not, List, [], ◌∷◌, Option, some, ok, >>=-eq-ok,
  guard, Bool-cases, All, ◌==◌, arith, Text, eq_text, eq_text_iff,
}
use peerless_server.Engine.ZipPlan.{
  ZipTrackEntry, ZipPartPlan, any, manifest, is_valid_entry_name, validate_entry_name, check_size,
  check_tracks, plan_groups, plan_zip_parts_with_codec, is_nil,
}

-- The name is none of these.
abbrev pub Fresh : List Text → Text → Type 0
Fresh names name = All (λ other. name ≢ other) names

-- Each name is valid, none of `names` and none of those before it, and its file has the length that
-- the entry says.
abbrev pub Accepted : (Text → Option ℕ) → List Text → List ZipTrackEntry → Type 0
Accepted file_len names [] = Unit {0}
Accepted file_len names (track ∷ tracks) =
    (is_valid_entry_name track.archive_filename ≡ true)
    × Fresh names track.archive_filename
    × (file_len track.file_path ≡ some track.file_size)
    × Accepted file_len (track.archive_filename ∷ names) tracks

any-Fresh : (names : List Text) (name : Text) → any (eq_text name) names ≡ false → Fresh names name
any-Fresh [] name h = tt
any-Fresh (x ∷ names) name h = elim (Bool-cases (eq_text name x)) [
  | inl e ↦ cc
  | inr n ↦ (
    λ e. let k : eq_text name x ≡ true = (eq_text_iff name x).1 e in cc,
    any-Fresh names name (rw n at h),
  )
]

validate_entry_name-ok :
    (name : Text) {u : Unit {0}} → validate_entry_name name ≡ ok u → is_valid_entry_name name ≡ true
unfolding validate_entry_name
validate_entry_name-ok name h = elim (Bool-cases (is_valid_entry_name name)) [
  | inl e ↦ e
  | inr n ↦ cc (rw n at h)
]

guard-ok : {E : Type 0} (b : Bool) (e : E) {u : Unit {0}} → guard (not b) e ≡ ok u → b ≡ false
guard-ok true e h = cc
guard-ok false e h = refl

check_size-ok :
    (file_len : Text → Option ℕ) (track : ZipTrackEntry) {u : Unit {0}}
    → check_size file_len track ≡ ok u
    → file_len track.file_path ≡ some track.file_size
unfolding check_size
check_size-ok file_len track h = ground arith

check_tracks-Accepted :
    (file_len : Text → Option ℕ) (names : List Text) (tracks : List ZipTrackEntry) {u : Unit {0}}
    → check_tracks file_len names tracks ≡ ok u
    → Accepted file_len names tracks
unfolding check_tracks
check_tracks-Accepted file_len names [] h = tt
check_tracks-Accepted file_len names (track ∷ tracks) h =
    let (_, v, h1) = >>=-eq-ok (validate_entry_name track.archive_filename) _ h in
    let (_, f, h2) = >>=-eq-ok (guard (not (any (eq_text track.archive_filename) names)) _) _ h1 in
    let (_, s, h3) = >>=-eq-ok (check_size file_len track) _ h2 in
    (
      validate_entry_name-ok track.archive_filename v,
      any-Fresh names track.archive_filename (guard-ok _ _ f),
      check_size-ok file_len track s,
      check_tracks-Accepted file_len (track.archive_filename ∷ names) tracks h3,
    )

-- In an accepted plan each track has a valid entry name, which is not that of the manifest and not
-- that of an earlier track, and its file exists with the length that the entry says.
plan_zip_parts_with_codec-Accepted :
    (file_len : Text → Option ℕ) (artist album release_date : Text) (tracks : List ZipTrackEntry)
    (cover_path : Option Text) (limit : ℕ) (codec : Text) {parts : List ZipPartPlan}
    → plan_zip_parts_with_codec file_len artist album release_date tracks cover_path limit codec
      ≡ ok parts
    → Accepted file_len (manifest ∷ []) tracks
unfolding plan_zip_parts_with_codec plan_groups
plan_zip_parts_with_codec-Accepted file_len artist album release_date tracks cover_path limit codec
      h =
    let (groups, e, h1) = >>=-eq-ok (plan_groups file_len tracks cover_path limit) _ h in
    elim (Bool-cases (is_nil tracks)) [
      | inl z ↦ cc (rw z at e)
      | inr n ↦ elim (Bool-cases (limit == 0)) [
        | inl z ↦ cc (rw (n, z) at e)
        | inr k ↦
            let (u, c, _) =
              >>=-eq-ok (check_tracks file_len (manifest ∷ []) tracks) _ (rw (n, k) at e) in
            check_tracks-Accepted file_len (manifest ∷ []) tracks c
      ]
    ]
