-- ===== src/Engine/Filename/Prefix.antt =====
-- `bound_utf8_prefix` cuts a string to the longest prefix that fits.
use peerless_server.Prelude.{
  ℕ, zero, suc, ◌+◌, ◌-◌, ◌≤◌, ◌<◌, ◌≡◌, refl, ap, inl, inr, Bool-cases, true, false, ◌&&◌, ◌||◌,
  [], ◌∷◌, ◌++◌, some, leb, ◌==◌, if◌then◌else◌, Text, byte_len, len_utf8, is_char_boundary,
  slice_to, arith,
}
use peerless_server.Engine.Filename.{retreat, bound_utf8_prefix}

pub len_utf8_pos : (c : ℕ) → 0 < len_utf8 c
len_utf8_pos c = ground arith

-- The characters that fit, one after the other.
unfoldable pub fit : Text → ℕ → Text
fit [] n = []
fit (c ∷ cs) n = let more = c ∷ fit cs (n - len_utf8 c) in if leb (len_utf8 c) n then more else []

slice_to-fit : (s : Text) (n : ℕ) → is_char_boundary s n ≡ true → slice_to s n ≡ some (fit s n)
unfolding slice_to fit is_char_boundary
slice_to-fit [] n h = ground arith
slice_to-fit (c ∷ cs) n h = ground (arith, len_utf8_pos c, slice_to-fit cs (n - len_utf8 c))

is_char_boundary-zero : (s : Text) → is_char_boundary s 0 ≡ true
unfolding is_char_boundary
is_char_boundary-zero [] = refl
is_char_boundary-zero (c ∷ cs) = refl

module _ (c : ℕ) (cs : Text) where
  -- `fit` and `is_char_boundary` at a first character of `k` bytes.
  fit_at : ℕ → ℕ → Text
  fit_at k n = let more = c ∷ fit cs (n - k) in if leb k n then more else []

  fit_at-suc :
      (k n : ℕ)
      → (suc n == 0 || (leb k (suc n) && is_char_boundary cs (suc n - k))) ≡ false
      → ((m : ℕ) → is_char_boundary cs (suc m) ≡ false → fit cs (suc m) ≡ fit cs m)
      → fit_at k (suc n) ≡ fit_at k n
  unfolding fit_at
  fit_at-suc k n h ih = elim (Bool-cases (leb k n)) [
    | inl le ↦
        let e : suc n - k ≡ suc (n - k) = ground arith in
        let t : leb k (suc n) ≡ true = ground arith in
        rw (le, t, e) (ap (◌∷◌ c) (ih (n - k) (ground (arith, e))))
    | inr gt ↦ elim (Bool-cases (leb k (suc n))) [
      | inl eq ↦ let e : suc n - k ≡ 0 = ground arith in ground (arith, is_char_boundary-zero cs, e)
      | inr past ↦ rw (gt, past) refl
    ]
  ]

fit-suc : (s : Text) (n : ℕ) → is_char_boundary s (suc n) ≡ false → fit s (suc n) ≡ fit s n
unfolding fit is_char_boundary fit_at
fit-suc [] n h = refl
fit-suc (c ∷ cs) n h = fit_at-suc c cs (len_utf8 c) n h (fit-suc cs)

slice_to-retreat : (s : Text) (n : ℕ) → slice_to s (retreat s n) ≡ some (fit s n)
unfolding retreat
slice_to-retreat s zero = slice_to-fit s 0 (is_char_boundary-zero s)
slice_to-retreat s (suc n) = elim (Bool-cases (is_char_boundary s (suc n))) [
  | inl e ↦ rw e (slice_to-fit s (suc n) e)
  | inr e ↦ rw (e, fit-suc s n e) (slice_to-retreat s n)
]

fit-of_le : (s : Text) (n : ℕ) → byte_len s ≤ n → fit s n ≡ s
unfolding fit
fit-of_le [] n h = refl
fit-of_le (c ∷ cs) n h =
    let t : leb (len_utf8 c) n ≡ true = ground arith in
    rw t (ap (◌∷◌ c) (fit-of_le cs (n - len_utf8 c) (omega arith)))

-- The slice is always on a boundary, so there is no panic.
pub bound_utf8_prefix-fit : (s : Text) (n : ℕ) → bound_utf8_prefix s n ≡ some (fit s n)
unfolding bound_utf8_prefix
bound_utf8_prefix-fit s n = elim (Bool-cases (leb (byte_len s) n)) [
  | inl e ↦ rw (e, fit-of_le s n (ground arith)) refl
  | inr e ↦ rw e (slice_to-retreat s n)
]

pub byte_len-fit : (s : Text) (n : ℕ) → byte_len (fit s n) ≤ n
unfolding fit
byte_len-fit [] n = omega arith
byte_len-fit (c ∷ cs) n = elim (Bool-cases (leb (len_utf8 c) n)) [
  | inl e ↦
      rw e
        (let h : len_utf8 c ≤ n = ground arith in omega (arith, byte_len-fit cs (n - len_utf8 c)))
  | inr e ↦ rw e (omega arith)
]

-- What is left out begins with a character that does not fit any more.
abbrev pub Overflows : ℕ → Text → Text → Type 0
Overflows n p [] = Unit {0}
Overflows n p (c ∷ cs) = n < byte_len p + len_utf8 c

Overflows-cons :
    (c n : ℕ) (p q : Text) → len_utf8 c ≤ n → Overflows (n - len_utf8 c) p q → Overflows n (c ∷ p) q
Overflows-cons c n p [] h o = tt
Overflows-cons c n p (d ∷ q) h o = omega arith

pub fit-Overflows : (s : Text) (n : ℕ) → (q : Text) × (s ≡ fit s n ++ q) × Overflows n (fit s n) q
unfolding fit
fit-Overflows [] n = ([], refl, tt)
fit-Overflows (c ∷ cs) n = elim (Bool-cases (leb (len_utf8 c) n)) [
  | inl e ↦
      let (q, t, o) = fit-Overflows cs (n - len_utf8 c) in
      rw e (q, ap (◌∷◌ c) t, Overflows-cons c n (fit cs (n - len_utf8 c)) q (ground arith) o)
  | inr e ↦ rw e (c ∷ cs, refl, ground arith)
]

-- `bound_utf8_prefix` never panics. It returns a prefix of the string with at most `max_bytes`
-- bytes, and the longest such prefix: the next character, if there is one, does not fit.
bound_utf8_prefix_longest :
    (s : Text) (max_bytes : ℕ)
    → (p : Text) × (q : Text) × (bound_utf8_prefix s max_bytes ≡ some p)
      × (s ≡ p ++ q)
      × (byte_len p ≤ max_bytes)
      × Overflows max_bytes p q
bound_utf8_prefix_longest s n =
    let (q, e, o) = fit-Overflows s n in
    (fit s n, q, bound_utf8_prefix-fit s n, e, byte_len-fit s n, o)
