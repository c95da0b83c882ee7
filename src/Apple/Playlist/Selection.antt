-- ===== src/Apple/Playlist/Selection.antt =====
-- Which variant `select_variant` of crates/apple/src/wrapper/playlist.rs takes.
use peerless_server.Prelude.{
  ℕ, ◌≡◌, refl, sym, ◌∙◌, inl, inr, Bool, true, false, not, ◌&&◌, List, [], ◌∷◌, Option, none, some,
  ok, >>=-eq-ok, Bool-cases, Text, text, eq_text, eq_text_iff, starts_with, arith,
}
use peerless_server.Apple.Playlist.{StreamVariant, AlacStreamInfo, CodecPreference}
use peerless_server.Apple.Playlist.Variants.{
  Best, is_better, specs_of, group_rank, consider_ranked, consider, best_variant, chosen,
  select_variant, is_atmos,
}
use peerless_server.Apple.Playlist.Ranking.{
  Ranks, FirstOf, NoneAbove, After, passed_over, taken, beaten,
}

&&-both : (a b : Bool) → (a && b) ≡ true → (a ≡ true) × (b ≡ true)
&&-both true b h = (refl, h)
&&-both false b h = cc

module _ (preference : CodecPreference) (content : List Text) where
  considered :
      (variant : StreamVariant) (variants : List StreamVariant) (before after : Option Best)
      (rank : Option ℕ) (next : Option Best)
      → group_rank variant.group_id variant.codec preference ≡ ok rank
      → consider_ranked content before variant rank ≡ ok next
      → After preference content variants next after
      → After preference content (variant ∷ variants) before after
  unfolding consider_ranked
  considered variant variants before after none next g c h =
      let e : before ≡ next = cc in
      passed_over preference content variant variants before after g (rw (← e) at h)
  considered variant variants before after (some rank) next g c h =
      let (specs, s, q) = >>=-eq-ok (specs_of content variant) _ c in
      let found : Best = record {
        rank = rank;
        variant = variant;
        sample_rate = specs.0;
        bit_depth = specs.1;
      } in
      elim (Bool-cases (is_better rank before)) [
        | inl b ↦
            let e : some found ≡ next = let k = rw b at q in cc in
            taken preference content found variants before after g s b (rw (← e) at h)
        | inr b ↦
            let e : before ≡ next = let k = rw b at q in cc in
            beaten preference content variant rank variants before after g b (rw (← e) at h)
      ]

  best_variant-After :
      (variants : List StreamVariant) (before after : Option Best)
      → best_variant preference content variants before ≡ ok after
      → After preference content variants before after
  unfolding best_variant consider consider_ranked
  best_variant-After [] none after h = let e : none ≡ after = cc in rw (← e) (refl, tt)
  best_variant-After [] (some best) after h =
      let e : some best ≡ after = cc in rw (← e) (tt, inl refl)
  best_variant-After (variant ∷ variants) before after h =
      let (next, e, rest) = >>=-eq-ok (consider preference content before variant) _ h in
      let (rank, g, c) = >>=-eq-ok (group_rank variant.group_id variant.codec preference) _ e in
      considered variant variants before after rank next g c
        (best_variant-After variants next after rest)

  other_codec :
      (codec name : Text)
      → (eq_text codec name && not (is_atmos preference)) ≡ true
      → eq_text name (text "ec-3") ≡ false
      → eq_text codec (text "ec-3") ≡ is_atmos preference
  other_codec codec name h n =
      let (x, y) = &&-both (eq_text codec name) (not (is_atmos preference)) h in
      let same = (eq_text_iff codec name).0 x in
      let none_of : is_atmos preference ≡ false = ground arith in rw (same, n, none_of) refl

  -- The preference for Atmos takes Dolby Digital Plus and no other codec, every other preference takes
  -- no Dolby Digital Plus.
  Ranks-codec :
      (variant : StreamVariant) (rank : ℕ)
      → Ranks preference content variant rank
      → eq_text variant.codec (text "ec-3") ≡ is_atmos preference
  unfolding group_rank eq_text
  Ranks-codec variant rank h =
      let codec = variant.codec in
      elim (Bool-cases (
        eq_text codec (text "ec-3")
        && is_atmos preference
        && starts_with (text "audio-atmos") variant.group_id)) [
          | inl a ↦ let w = &&-both _ _ a in let z = &&-both _ _ w.0 in z.0 ∙ sym z.1
          | inr a ↦ elim (Bool-cases (eq_text codec (text "alac") && not (is_atmos preference))) [
            | inl b ↦ other_codec codec (text "alac") b refl
            | inr b ↦
                elim (Bool-cases (eq_text codec (text "mp4a.40.2") && not (is_atmos preference))) [
                  | inl c ↦ other_codec codec (text "mp4a.40.2") c refl
                  | inr c ↦
                      elim (Bool-cases
                        (eq_text codec (text "mp4a.40.5") && not (is_atmos preference))) [
                          | inl d ↦ other_codec codec (text "mp4a.40.5") d refl
                          | inr d ↦ let k = rw (group_rank, a, b, c, d) at h in cc
                        ]
                ]
          ]
        ]

  selected :
      (variants : List StreamVariant) (found : Option Best) (info : AlacStreamInfo)
      → After preference content variants none found
      → chosen preference found ≡ ok info
      → (best : Best) × FirstOf preference content variants best
        × NoneAbove preference content variants best.rank
        × (eq_text info.codec (text "ec-3") ≡ is_atmos preference)
        × (info ≡ record {
          stream_url = best.variant.uri;
          codec = best.variant.codec;
          sample_rate = best.sample_rate;
          bit_depth = best.bit_depth;
        })
  selected variants none info h c = cc
  selected variants (some best) info (above, inl e) c = cc
  selected variants (some best) info (above, inr (first, beats)) c =
      let same : info ≡ record {
        stream_url = best.variant.uri;
        codec = best.variant.codec;
        sample_rate = best.sample_rate;
        bit_depth = best.bit_depth;
      } =
        cc in
      (best, first, above, rw same (Ranks-codec best.variant best.rank first.2), same)

  -- The variant that is selected is the first one of the highest rank: no variant ranks above it, and
  -- each one in front of it ranks lower. The sample rate and the bit depth are its own, and it is Dolby
  -- Digital Plus exactly if the preference is Atmos.
  pub select_variant-FirstOf :
      (variants : List StreamVariant) (info : AlacStreamInfo)
      → select_variant variants preference content ≡ ok info
      → (best : Best) × FirstOf preference content variants best
        × NoneAbove preference content variants best.rank
        × (eq_text info.codec (text "ec-3") ≡ is_atmos preference)
        × (info ≡ record {
          stream_url = best.variant.uri;
          codec = best.variant.codec;
          sample_rate = best.sample_rate;
          bit_depth = best.bit_depth;
        })
  unfolding select_variant
  select_variant-FirstOf variants info h =
      let (found, e, c) = >>=-eq-ok (best_variant preference content variants none) _ h in
      selected variants found info (best_variant-After variants none found e) c
