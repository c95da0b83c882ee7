-- ===== src/Engine/Caption/Clamp.antt =====
-- `clamp_str_utf16` of crates/engine/src/orchestrator/helpers.rs.
use peerless_server.Prelude.{
  ℕ, ◌+◌, ◌-◌, ◌≤◌, ◌<◌, ◌≡◌, refl, ap, ◌⊎◌, inl, inr, [], ◌∷◌, ◌++◌, ltb, leb, Bool-cases, Text,
  arith,
}
use peerless_server.Engine.Caption.{len_utf16, count_utf16, fitting, ellipsis, clamp_str_utf16}

-- The longest prefix of the text with at most so many units, and what stands behind it.
abbrev pub LongestPrefix : ℕ → Text → Text → Type 0
LongestPrefix limit s prefix =
    (ch : ℕ) × (rest : Text) × (s ≡ prefix ++ ch ∷ rest)
    × (count_utf16 prefix ≤ limit)
    × (limit < count_utf16 prefix + len_utf16 ch)

fitting-LongestPrefix :
    (curr_len limit : ℕ) (s : Text)
    → curr_len ≤ limit
    → limit < curr_len + count_utf16 s
    → (ch : ℕ) × (rest : Text) × (s ≡ fitting curr_len limit s ++ ch ∷ rest)
      × (curr_len + count_utf16 (fitting curr_len limit s) ≤ limit)
      × (limit < curr_len + count_utf16 (fitting curr_len limit s) + len_utf16 ch)
unfolding fitting count_utf16
fitting-LongestPrefix curr_len limit [] h k = absurd (omega arith)
fitting-LongestPrefix curr_len limit (ch ∷ s) h k =
    elim (Bool-cases (ltb limit (curr_len + len_utf16 ch))) [
      | inl e ↦
          let over : limit < curr_len + len_utf16 ch = ground arith in
          rw (fitting, e) (ch, s, refl, omega arith, omega arith)
      | inr e ↦
          let low : curr_len + len_utf16 ch ≤ limit = ground arith in
          let (c, rest, eq, fits, next) =
            fitting-LongestPrefix (curr_len + len_utf16 ch) limit s low (omega arith) in
          rw (fitting, e) (c, rest, ap (◌∷◌ ch) eq, omega (arith, fits), omega (arith, next))
    ]

count_utf16-append : (s t : Text) → count_utf16 (s ++ t) ≡ count_utf16 s + count_utf16 t
unfolding count_utf16
count_utf16-append [] t = omega arith
count_utf16-append (ch ∷ s) t = omega (arith, count_utf16-append s t)

-- A clamped text has at most `max_utf16` UTF-16 units, if that is at least 1. A text that fits is kept;
-- of a longer one the longest prefix is kept that leaves a unit for the ellipsis behind it, and no
-- character is cut.
pub clamp_str_utf16-count_utf16 :
    (s : Text) (max_utf16 : ℕ)
    → 0 < max_utf16
    → (count_utf16 (clamp_str_utf16 s max_utf16) ≤ max_utf16)
      × (((count_utf16 s ≤ max_utf16) × (clamp_str_utf16 s max_utf16 ≡ s))
          ⊎ ((max_utf16 < count_utf16 s)
              × (prefix : Text) × LongestPrefix (max_utf16 - 1) s prefix
              × (clamp_str_utf16 s max_utf16 ≡ prefix ++ ellipsis ∷ [])))
unfolding clamp_str_utf16 count_utf16
clamp_str_utf16-count_utf16 s max_utf16 h = elim (Bool-cases (leb (count_utf16 s) max_utf16)) [
  | inl e ↦ let fits : count_utf16 s ≤ max_utf16 = ground arith in rw e (fits, inl (fits, refl))
  | inr e ↦
      let long : max_utf16 < count_utf16 s = ground arith in
      let (ch, rest, eq, fits, next) =
        fitting-LongestPrefix 0 (max_utf16 - 1) s (omega arith) (omega arith) in
      let prefix = fitting 0 (max_utf16 - 1) s in
      let sum = count_utf16-append prefix (ellipsis ∷ []) in
      let low : count_utf16 (prefix ++ ellipsis ∷ []) ≤ max_utf16 = omega (arith, sum, fits) in
      rw e (low, inr (long, prefix, (ch, rest, eq, omega (arith, fits), omega (arith, next)), refl))
]
