-- ===== src/Apple/Playlist/Ranking.antt =====
-- What the loop of `select_variant` in crates/apple/src/wrapper/playlist.rs makes of the best variant.
use peerless_server.Prelude.{
  ℕ, zero, suc, ◌≤◌, ◌<◌, ◌≡◌, refl, ap, sym, ◌∙◌, ◌⊎◌, inl, inr, true, false, List, ◌∷◌, Option,
  none, some, ok, get_elem?, All, Text, arith,
}
use peerless_server.Apple.Playlist.{StreamVariant, CodecPreference}
use peerless_server.Apple.Playlist.Variants.{Best, is_better, specs_of, group_rank}

module _ (preference : CodecPreference) (content : List Text) where
  -- The rank of a variant under the preference.
  abbrev pub Ranks : StreamVariant → ℕ → Type 0
  Ranks variant rank = group_rank variant.group_id variant.codec preference ≡ ok (some rank)

  -- The first variant of a rank, with the sample rate and the bit depth that it has.
  abbrev pub FirstOf : List StreamVariant → Best → Type 0
  FirstOf variants best =
      (i : ℕ) × (get_elem? variants i ≡ some best.variant)
      × Ranks best.variant best.rank
      × (specs_of content best.variant ≡ ok (best.sample_rate, best.bit_depth))
      × ((j : ℕ) (variant : StreamVariant) (rank : ℕ)
          → j < i
          → get_elem? variants j ≡ some variant
          → Ranks variant rank
          → rank < best.rank)

  abbrev pub NoneAbove : List StreamVariant → ℕ → Type 0
  NoneAbove variants limit =
      All (λ variant. (rank : ℕ) → Ranks variant rank → rank ≤ limit) variants

  -- What the loop makes of the best variant so far.
  abbrev pub After : List StreamVariant → Option Best → Option Best → Type 0
  After variants before none =
      (before ≡ none)
      × All (λ variant. group_rank variant.group_id variant.codec preference ≡ ok none) variants
  After variants before (some best) =
      NoneAbove variants best.rank
      × ((before ≡ some best) ⊎ (FirstOf variants best × (is_better best.rank before ≡ true)))

  pub is_better-lt :
      (low high : ℕ) (best : Option Best)
      → low < high
      → is_better low best ≡ true
      → is_better high best ≡ true
  is_better-lt low high none l h = refl
  is_better-lt low high (some best) l h = ground arith

  Before : List StreamVariant → ℕ → ℕ → Type 0
  Before variants i limit =
      (j : ℕ) (variant : StreamVariant) (rank : ℕ)
      → j < i
      → get_elem? variants j ≡ some variant
      → Ranks variant rank
      → rank < limit

  Before-cons :
      (variant : StreamVariant) (variants : List StreamVariant) (i limit : ℕ)
      → ((rank : ℕ) → Ranks variant rank → rank < limit)
      → Before variants i limit
      → Before (variant ∷ variants) (suc i) limit
  unfolding Before
  Before-cons variant variants i limit low before zero v rank l g h =
      let same : variant ≡ v = cc in low rank (rw (← same) at h)
  Before-cons variant variants i limit low before (suc j) v rank l g h =
      before j v rank (omega arith) g h

  -- A variant in front that does not beat what comes behind it.
  FirstOf-cons :
      (variant : StreamVariant) (variants : List StreamVariant) (best : Best)
      → ((rank : ℕ) → Ranks variant rank → rank < best.rank)
      → FirstOf variants best
      → FirstOf (variant ∷ variants) best
  unfolding Before
  FirstOf-cons variant variants best low (i, e, r, s, before) =
      (suc i, e, r, s, Before-cons variant variants i best.rank low before)

  -- A variant has one rank at most.
  Ranks-unique :
      (variant : StreamVariant) (rank other : ℕ)
      → Ranks variant rank
      → Ranks variant other
      → other ≡ rank
  Ranks-unique variant rank other h k = let e = sym h ∙ k in cc

  pub passed_over :
      (variant : StreamVariant) (variants : List StreamVariant) (before after : Option Best)
      → group_rank variant.group_id variant.codec preference ≡ ok none
      → After variants before after
      → After (variant ∷ variants) before after
  passed_over variant variants before none h (e, all) = (e, (h, all))
  passed_over variant variants before (some best) h (above, inl e) =
      (((λ rank r. absurd (let c = sym h ∙ r in cc)), above), inl e)
  passed_over variant variants before (some best) h (above, inr (first, beats)) =
      let never = λ (rank : ℕ) (r : Ranks variant rank). absurd {A = ⊥} (let c = sym h ∙ r in cc) in
      (
        ((λ rank r. absurd (never rank r)), above),
        inr (FirstOf-cons variant variants best (λ rank r. absurd (never rank r)) first, beats),
      )

  -- A variant that is ranked and becomes the best one so far.
  pub taken :
      (found : Best) (variants : List StreamVariant) (before after : Option Best)
      → Ranks found.variant found.rank
      → specs_of content found.variant ≡ ok (found.sample_rate, found.bit_depth)
      → is_better found.rank before ≡ true
      → After variants (some found) after
      → After (found.variant ∷ variants) before after
  taken found variants before none r s b (e, all) = cc
  taken found variants before (some best) r s b (above, inl e) =
      let same : found ≡ best = cc in
      let limit = ap (λ x. x.rank) same in
      (
        (
          (λ rank h.
              let u = Ranks-unique found.variant found.rank rank r h in omega (arith, u, limit)),
          above,
        ),
        inr (rw (← same) ((0, refl, r, s, λ j v rank l g h. absurd (omega arith)), b)),
      )
  taken found variants before (some best) r s b (above, inr (first, beats)) =
      let higher : found.rank < best.rank = ground arith in
      (
        ((λ rank h. let u = Ranks-unique found.variant found.rank rank r h in omega arith), above),
        inr (
          FirstOf-cons found.variant variants best
              (λ rank h. let u = Ranks-unique found.variant found.rank rank r h in omega arith)
              first,
          is_better-lt found.rank best.rank before higher b,
        ),
      )

  -- A variant that is ranked and does not beat the best one so far.
  pub beaten :
      (variant : StreamVariant) (rank : ℕ) (variants : List StreamVariant)
      (before after : Option Best)
      → Ranks variant rank
      → is_better rank before ≡ false
      → After variants before after
      → After (variant ∷ variants) before after
  beaten variant rank variants none after r b h = cc
  beaten variant rank variants (some earlier) none r b (e, all) = cc
  beaten variant rank variants (some earlier) (some best) r b (above, inl e) =
      let same : earlier.rank ≡ best.rank = let d : earlier ≡ best = cc in ap (λ x. x.rank) d in
      let low : rank ≤ earlier.rank = ground arith in
      (((λ other h. let u = Ranks-unique variant rank other r h in omega arith), above), inl e)
  beaten variant rank variants (some earlier) (some best) r b (above, inr (first, beats)) =
      let low : rank ≤ earlier.rank = ground arith in
      let higher : earlier.rank < best.rank = ground arith in
      (
        ((λ other h. let u = Ranks-unique variant rank other r h in omega arith), above),
        inr (
          FirstOf-cons variant variants best
              (λ other h. let u = Ranks-unique variant rank other r h in omega arith) first,
          beats,
        ),
      )
