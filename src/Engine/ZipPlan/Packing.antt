-- ===== src/Engine/ZipPlan/Packing.antt =====
-- How `group_tracks` distributes the tracks: the greedy packing, in order.
use mathlib.Core.List.{append_assoc}
use peerless_server.Prelude.{
  ℕ, ◌+◌, ◌≤◌, ◌<◌, ◌≡◌, ◌≢◌, refl, ap, ◌∙◌, ◌⊎◌, inl, inr, true, false, List, [], ◌∷◌, ◌++◌, ltb,
  if◌then◌else◌, ok, Bool-cases, All, flatten, arith,
}
use peerless_server.Engine.ZipPlan.{ZipTrackEntry, group_tracks}

abbrev pub total : List ZipTrackEntry → ℕ
total [] = 0
total (t ∷ ts) = t.file_size + total ts

total-append : (xs ys : List ZipTrackEntry) → total (xs ++ ys) ≡ total xs + total ys
total-append [] ys = omega arith
total-append (x ∷ xs) ys = omega (arith, total-append xs ys)

abbrev pub Out : Type 0
Out = List (List ZipTrackEntry)

module _ (usable cover_size : ℕ) where
  -- The parts that come of a part begun with `current` and the tracks that are left: a track goes
  -- into the part at hand if it fits there, beside the cover, and begins the next part if not.
  unfoldable pub pack : List ZipTrackEntry → List ZipTrackEntry → List (List ZipTrackEntry)
  pack current [] = current ∷ []
  pack current (t ∷ ts) =
      let cut = current ∷ pack (t ∷ []) ts in
      let more = pack (current ++ t ∷ []) ts in
      if ltb usable (cover_size + total current + t.file_size) then cut else more

  -- One round of the loop that goes on: the track fits a part by itself, and it either begins the
  -- next part or joins the one at hand.
  group_tracks_step :
      (groups : Out) (c : ZipTrackEntry) (cs : List ZipTrackEntry) (size : ℕ) (t : ZipTrackEntry)
      (ts : List ZipTrackEntry) {out : Out}
      → group_tracks usable cover_size groups (c ∷ cs) size (t ∷ ts) ≡ ok out
      → (t.file_size ≤ usable)
        × (((usable < size + t.file_size)
              × (group_tracks usable cover_size
                    (groups ++ (c ∷ cs) ∷ [])
                    (t ∷ [])
                    (cover_size + t.file_size)
                    ts
                  ≡ ok out))
            ⊎ ((size + t.file_size ≤ usable)
                × (group_tracks usable cover_size groups
                      (c ∷ (cs ++ t ∷ []))
                      (size + t.file_size)
                      ts
                    ≡ ok out)))
  unfolding group_tracks
  group_tracks_step groups c cs size t ts h = elim (Bool-cases (ltb usable t.file_size)) [
    | inl big ↦ cc (rw big at h)
    | inr small ↦ elim (Bool-cases (ltb usable (size + t.file_size))) [
      | inl full ↦ (ground arith, inl (ground arith, ground arith))
      | inr room ↦ (ground arith, inr (ground arith, ground arith))
    ]
  ]

  group_tracks-pack :
      (groups : Out) (c : ZipTrackEntry) (cs : List ZipTrackEntry) (size : ℕ)
      (ts : List ZipTrackEntry) {out : Out}
      → size ≡ cover_size + total (c ∷ cs)
      → group_tracks usable cover_size groups (c ∷ cs) size ts ≡ ok out
      → (out ≡ groups ++ pack (c ∷ cs) ts) × All (λ t. t.file_size ≤ usable) ts
  unfolding pack
  group_tracks-pack groups c cs size [] e h = (unfold group_tracks in ground arith, tt)
  group_tracks-pack groups c cs size (t ∷ ts) e h =
      let (small, next) = group_tracks_step groups c cs size t ts h in
      elim next [
        | inl (full, h') ↦
            let (p, a) =
              group_tracks-pack (groups ++ (c ∷ cs) ∷ []) t [] (cover_size + t.file_size) ts
                (omega arith) h' in
            let b : ltb usable (cover_size + total (c ∷ cs) + t.file_size) ≡ true = ground arith in
            (rw b (p ∙ append_assoc groups ((c ∷ cs) ∷ []) (pack (t ∷ []) ts)), (small, a))
        | inr (room, h') ↦
            let (p, a) =
              group_tracks-pack groups c (cs ++ t ∷ []) (size + t.file_size) ts
                (omega (arith, total-append cs (t ∷ []))) h' in
            let b : ltb usable (cover_size + total (c ∷ cs) + t.file_size) ≡ false = ground arith in
            (rw b p, (small, a))
      ]

  -- A part that is within the limit with its cover, or holds a single track.
  abbrev pub Fits : List ZipTrackEntry → Type 0
  Fits part =
      (cover_size + total part ≤ usable)
      ⊎ ((t : ZipTrackEntry) × (part ≡ t ∷ []) × (t.file_size ≤ usable))

  -- Each part but the last has no room for the first track of the next one.
  abbrev pub Tight : Out → Type 0
  Tight [] = Unit {0}
  Tight (part ∷ []) = Unit {0}
  Tight (part ∷ [] ∷ parts) = ⊥
  Tight (part ∷ (t ∷ ts) ∷ parts) =
      (usable < cover_size + total part + t.file_size) × Tight ((t ∷ ts) ∷ parts)

  pub flatten-pack : (current ts : List ZipTrackEntry) → flatten (pack current ts) ≡ current ++ ts
  unfolding pack
  flatten-pack current [] = refl
  flatten-pack current (t ∷ ts) =
      elim (Bool-cases (ltb usable (cover_size + total current + t.file_size))) [
        | inl full ↦ rw full (ap (◌++◌ current) (flatten-pack (t ∷ []) ts))
        | inr room ↦
            rw room (flatten-pack (current ++ t ∷ []) ts ∙ append_assoc current (t ∷ []) ts)
      ]

  pub pack-nonempty :
      (c : ZipTrackEntry) (cs ts : List ZipTrackEntry) → All (λ part. part ≢ []) (pack (c ∷ cs) ts)
  unfolding pack
  pack-nonempty c cs [] = (λ e. cc, tt)
  pack-nonempty c cs (t ∷ ts) =
      elim (Bool-cases (ltb usable (cover_size + total (c ∷ cs) + t.file_size))) [
        | inl full ↦ rw full (λ e. cc, pack-nonempty t [] ts)
        | inr room ↦ rw room (pack-nonempty c (cs ++ t ∷ []) ts)
      ]

  pub pack-Fits :
      (current ts : List ZipTrackEntry)
      → Fits current
      → All (λ t. t.file_size ≤ usable) ts
      → All Fits (pack current ts)
  unfolding pack
  pack-Fits current [] f h = (f, tt)
  pack-Fits current (t ∷ ts) f h =
      elim (Bool-cases (ltb usable (cover_size + total current + t.file_size))) [
        | inl full ↦ rw full (f, pack-Fits (t ∷ []) ts (inr (t, refl, h.0)) h.1)
        | inr room ↦ rw room (
            pack-Fits (current ++ t ∷ []) ts (inl (ground (arith, total-append current (t ∷ []))))
              h.1)
      ]

  pack_head :
      (c : ZipTrackEntry) (cs ts : List ZipTrackEntry)
      → (rest : List ZipTrackEntry) × (parts : Out) × (pack (c ∷ cs) ts ≡ (c ∷ rest) ∷ parts)
  unfolding pack
  pack_head c cs [] = (cs, [], refl)
  pack_head c cs (t ∷ ts) =
      elim (Bool-cases (ltb usable (cover_size + total (c ∷ cs) + t.file_size))) [
        | inl full ↦ rw full (cs, pack (t ∷ []) ts, refl)
        | inr room ↦ rw room (pack_head c (cs ++ t ∷ []) ts)
      ]

  Tight-cons :
      (part : List ZipTrackEntry) (t : ZipTrackEntry) (ts : List ZipTrackEntry)
      → usable < cover_size + total part + t.file_size
      → Tight (pack (t ∷ []) ts)
      → Tight (part ∷ pack (t ∷ []) ts)
  Tight-cons part t ts h k = let (rest, parts, e) = pack_head t [] ts in rw e (h, rw e at k)

  pub pack-Tight : (c : ZipTrackEntry) (cs ts : List ZipTrackEntry) → Tight (pack (c ∷ cs) ts)
  unfolding pack
  pack-Tight c cs [] = tt
  pack-Tight c cs (t ∷ ts) =
      elim (Bool-cases (ltb usable (cover_size + total (c ∷ cs) + t.file_size))) [
        | inl full ↦ rw full (Tight-cons (c ∷ cs) t ts (ground arith) (pack-Tight t [] ts))
        | inr room ↦ rw room (pack-Tight c (cs ++ t ∷ []) ts)
      ]

  -- The loop of the plan, started on the first track: it packs greedily, and each track fits a part
  -- without its cover.
  pub group_tracks-start :
      (t : ZipTrackEntry) (ts : List ZipTrackEntry) {out : Out}
      → group_tracks usable cover_size [] [] cover_size (t ∷ ts) ≡ ok out
      → (out ≡ pack (t ∷ []) ts) × All (λ t. t.file_size ≤ usable) (t ∷ ts)
  unfolding group_tracks
  group_tracks-start t ts {out} h = elim (Bool-cases (ltb usable t.file_size)) [
    | inl big ↦ cc (rw big at h)
    | inr small ↦
        let first : group_tracks usable cover_size [] (t ∷ []) (cover_size + t.file_size) ts
            ≡ ok out =
          ground arith in
        let (p, a) = group_tracks-pack [] t [] (cover_size + t.file_size) ts (omega arith) first in
        (p, (ground arith, a))
  ]
