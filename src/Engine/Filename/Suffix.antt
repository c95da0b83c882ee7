-- ===== src/Engine/Filename/Suffix.antt =====
-- Suffixes of a `BoundedName`: kept by `sanitize_and_bound`, put in by `with_collision_id` and
-- `into_partial`.
use peerless_server.Prelude.{
  ℕ, ◌-◌, ◌≤◌, ◌<◌, ◌≡◌, refl, ap, ◌⊎◌, inl, inr, Bool-cases, Option-cases, true, false, ◌||◌, [],
  ◌∷◌, ◌++◌, none, some, leb, Text, byte_len, arith, strip_suffix, eq_text, eq_text_iff,
}
use peerless_server.Engine.Filename.Prefix.{
  fit, bound_utf8_prefix-fit, byte_len-fit, Overflows, fit-Overflows,
}
use peerless_server.Engine.Filename.Bounds.{
  byte_len-append, strip_suffix-some, sanitize_and_bound-IsName,
}
use peerless_server.Engine.Filename.{
  dot, dot_dot, is_empty, replace_forbidden, or_track, candidate, split_suffix, bound_around,
  sanitize_and_bound, with_collision_id, stem_ext, into_partial, dot_zip, partial_suffix,
  max_archive_filename_bytes, max_filename_bytes,
}

pub or_track_long : (s : Text) → 2 < byte_len s → or_track s ≡ s
unfolding or_track
or_track_long s h = elim (Bool-cases (is_empty s || eq_text s dot || eq_text s dot_dot)) [
  | inl e ↦ absurd (short s e h)
  | inr e ↦ rw e
]
  where
    short :
        (t : Text) → (is_empty t || eq_text t dot || eq_text t dot_dot) ≡ true → 2 < byte_len t → ⊥
    short [] e k = omega arith
    short (c ∷ cs) e k = elim (Bool-cases (eq_text (c ∷ cs) dot)) [
      | inl d ↦ omega (arith, ap byte_len ((eq_text_iff (c ∷ cs) dot).0 d))
      | inr d ↦ omega (arith, ap byte_len ((eq_text_iff (c ∷ cs) dot_dot).0 (ground arith)))
    ]

-- A suffix of three bytes or more that the cleaned name has, and that is shorter than the capacity,
-- is kept whole: only what stands before it is cut, to the longest prefix that leaves room.
pub sanitize_and_bound-suffix :
    (limit : ℕ) (name sfx : Text) {prefix : Text}
    → strip_suffix sfx (candidate name) ≡ some prefix
    → 2 < byte_len sfx
    → byte_len sfx < limit
    → (p : Text) × (q : Text) × (sanitize_and_bound limit name (some sfx) ≡ some (p ++ sfx))
      × (prefix ≡ p ++ q)
      × (byte_len (p ++ sfx) ≤ limit)
      × Overflows (limit - byte_len sfx) p q
unfolding sanitize_and_bound
sanitize_and_bound-suffix limit name sfx {prefix} e long short =
    let room = limit - byte_len sfx in
    let p = fit prefix room in
    let (q, whole, over) = fit-Overflows prefix room in
    let n : leb limit (byte_len sfx) ≡ false = ground arith in
    let l = byte_len-append p sfx in
    (
      p,
      q,
      rw (e, split_suffix, bound_around, n, bound_utf8_prefix-fit prefix room)
          (ap some (or_track_long (p ++ sfx) (omega arith))),
      whole,
      omega (arith, byte_len-fit prefix room),
      over,
    )

-- What `with_collision_id` puts behind the stem.
abbrev pub collision_suffix : Text → Text → Text
collision_suffix s collision_id = b'_' ∷ (replace_forbidden collision_id ++ (stem_ext s).1)

-- With room for the word `track`, a name with a collision id never panics and never passes the
-- capacity; where the id and the extension leave room, they stand whole at its end, behind a prefix
-- of the stem.
with_collision_id_bounds :
    (limit : ℕ) (s collision_id : Text)
    → 5 ≤ limit
    → (r : Text) × (with_collision_id limit s collision_id ≡ some r)
      × (byte_len r ≤ limit)
      × (byte_len (collision_suffix s collision_id) < limit
          → (p : Text) × (q : Text) × (r ≡ p ++ collision_suffix s collision_id)
            × ((stem_ext s).0 ≡ p ++ q))
unfolding with_collision_id
with_collision_id_bounds limit s id h =
    let stem = (stem_ext s).0 in
    let sfx = collision_suffix s id in
    let room = limit - byte_len sfx in
    elim (Bool-cases (leb limit (byte_len sfx))) [
      | inl long ↦
          let (r, e, v) = sanitize_and_bound-IsName limit (stem ++ sfx) (some (stem_ext s).1) h in
          (r, rw long e, v.fits, λ k. absurd (ground arith))
      | inr short ↦
          let (q, whole, _) = fit-Overflows stem room in
          (
            fit stem room ++ sfx,
            rw (short, bound_utf8_prefix-fit stem room) refl,
            (let l : byte_len sfx < limit = ground arith in
                omega (arith, byte_len-append (fit stem room) sfx, byte_len-fit stem room)),
            λ k. (fit stem room, q, refl, whole),
          )
    ]

into_partial-none :
    (s : Text) → strip_suffix dot_zip s ≡ none → into_partial s ≡ s ++ partial_suffix
unfolding into_partial
into_partial-none s e = rw (e, into_partial)

into_partial-some :
    (s : Text) {stem : Text}
    → strip_suffix dot_zip s ≡ some stem
    → into_partial s ≡ stem ++ (partial_suffix ++ dot_zip)
unfolding into_partial
into_partial-some s e = rw (e, into_partial)

-- The name of a partial archive fits the 255 bytes of a standard file name. It is the archive's name
-- with ` [Partial]` in front of a final `.zip`, or at its end where there is none.
into_partial_bounds :
    (s : Text)
    → byte_len s ≤ max_archive_filename_bytes
    → (byte_len (into_partial s) ≤ max_filename_bytes)
      × (((stem : Text) × (s ≡ stem ++ dot_zip)
            × (into_partial s ≡ stem ++ (partial_suffix ++ dot_zip)))
          ⊎ ((strip_suffix dot_zip s ≡ none) × (into_partial s ≡ s ++ partial_suffix)))
into_partial_bounds s h = elim (Option-cases (strip_suffix dot_zip s)) [
  | inl e ↦
      let r = into_partial-none s e in
      (omega (arith, byte_len-append s partial_suffix, ap byte_len r), inr (e, r))
  | inr (stem, e) ↦
      let r = into_partial-some s e in
      let whole = strip_suffix-some dot_zip s e in
      let l = byte_len-append stem dot_zip in
      (
        omega (
          arith,
          byte_len-append stem (partial_suffix ++ dot_zip),
          ap byte_len whole,
          l,
          ap byte_len r,
        ),
        inl (stem, whole, r),
      )
]
