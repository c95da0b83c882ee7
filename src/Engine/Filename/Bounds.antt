-- ===== src/Engine/Filename/Bounds.antt =====
-- What a `BoundedName` promises: its capacity, its characters and its suffix.
use mathlib.Core.List.{reverse, reverse-reverse, reverse-append}
use peerless_server.Prelude.{
  ℕ, ◌+◌, ◌-◌, ◌≤◌, ◌<◌, ◌≡◌, ◌≢◌, refl, ap, inl, inr, Bool-cases, Option-cases, false, ◌||◌, [],
  ◌∷◌, ◌++◌, Option, none, some, leb, if◌then◌else◌, Text, byte_len, len_utf8, arith, All,
  All-append, All-reverse, trim, trim_start, strip_prefix, strip_suffix, eq_text, eq_text_iff,
}
use peerless_server.Engine.Filename.Prefix.{fit, bound_utf8_prefix-fit, byte_len-fit}
use peerless_server.Engine.Filename.{
  is_forbidden_char, dot, dot_dot, is_empty, replace_forbidden, or_track, candidate, split_suffix,
  bound_around, sanitize_and_bound,
}

pub byte_len-append : (s t : Text) → byte_len (s ++ t) ≡ byte_len s + byte_len t
byte_len-append [] t = omega arith
byte_len-append (c ∷ s) t = omega (arith, byte_len-append s t)

abbrev pub IsAllowed : ℕ → Type 0
IsAllowed c = is_forbidden_char c ≡ false

-- A name that is a file's name: it is not empty, is no name of a directory, fits the capacity, and
-- has no forbidden character.
pub record IsName (limit : ℕ) (s : Text) : Type 0 where
  pub nonempty : s ≢ []
  pub not_dot : s ≢ dot
  pub not_dot_dot : s ≢ dot_dot
  pub fits : byte_len s ≤ limit
  pub allowed : All IsAllowed s

All-replace_forbidden : (s : Text) → All IsAllowed (replace_forbidden s)
unfolding replace_forbidden
All-replace_forbidden [] = tt
All-replace_forbidden (c ∷ cs) = (replaced, All-replace_forbidden cs)
  where
    replaced : IsAllowed (if is_forbidden_char c then b'_' else c)
    replaced = elim (Bool-cases (is_forbidden_char c)) [ inl e ↦ rw e refl | inr e ↦ rw e e ]

module _ (P : ℕ → Type 0) where
  All-trim_start : (s : Text) → All P s → All P (trim_start s)
  unfolding trim_start
  All-trim_start [] h = tt
  All-trim_start (c ∷ cs) h = ground (arith, All-trim_start cs)

  All-trim : (s : Text) → All P s → All P (trim s)
  unfolding trim
  All-trim s h = All-reverse P _ (All-trim_start _ (All-reverse P _ (All-trim_start s h)))

  All-fit : (s : Text) (n : ℕ) → All P s → All P (fit s n)
  unfolding fit
  All-fit [] n h = tt
  All-fit (c ∷ cs) n h = ground (arith, All-fit cs (n - len_utf8 c))

  All-left : (s t : Text) → All P (s ++ t) → All P s
  All-left [] t h = tt
  All-left (c ∷ s) t h = (h.0, All-left s t h.1)

  All-right : (s t : Text) → All P (s ++ t) → All P t
  All-right [] t h = h
  All-right (c ∷ s) t h = All-right s t h.1

strip_prefix-some : (p s : Text) {r : Text} → strip_prefix p s ≡ some r → s ≡ p ++ r
unfolding strip_prefix
strip_prefix-some [] s h = cc
strip_prefix-some (p ∷ ps) [] h = cc
strip_prefix-some (p ∷ ps) (c ∷ cs) {r} h = ground (arith, strip_prefix-some ps cs {r = r})

pub strip_suffix-some : (t s : Text) {r : Text} → strip_suffix t s ≡ some r → s ≡ r ++ t
unfolding strip_suffix
strip_suffix-some t s {r} h = elim (Option-cases (strip_prefix (reverse t) (reverse s))) [
  | inl e ↦ cc (e, h)
  | inr (back, e) ↦
      let q : reverse back ≡ r = ground (arith, e, h) in
      let f = ap reverse (strip_prefix-some (reverse t) (reverse s) e) in
      rw (reverse-reverse, reverse-append, reverse-reverse, q) at f
]

is_empty_iff : (s : Text) → is_empty s ≡ false → s ≢ []
is_empty_iff [] h e = cc
is_empty_iff (c ∷ s) h e = cc

or_track-IsName :
    (limit : ℕ) (s : Text)
    → 5 ≤ limit
    → byte_len s ≤ limit
    → All IsAllowed s
    → IsName limit (or_track s)
unfolding or_track
or_track-IsName limit s c h a =
    elim (Bool-cases (is_empty s || eq_text s dot || eq_text s dot_dot)) [
      | inl e ↦ rw e (record {
        nonempty = λ t. cc;
        not_dot = λ t. cc;
        not_dot_dot = λ t. cc;
        fits = omega arith;
        allowed = (refl, (refl, (refl, (refl, (refl, tt)))));
      })
      | inr e ↦ rw e (record {
        nonempty = is_empty_iff s (ground arith);
        not_dot = λ t. ground (arith, eq_text_iff s dot);
        not_dot_dot = λ t. ground (arith, eq_text_iff s dot_dot);
        fits = h;
        allowed = a;
      })
    ]

-- A string bounded around its suffix, if it has the suffix.
record Bounded (limit : ℕ) (s : Text) (b : Text) : Type 0 where
  fits : byte_len b ≤ limit
  allowed : All IsAllowed s → All IsAllowed b

fit-Bounded : (limit : ℕ) (s : Text) → Bounded limit s (fit s limit)
fit-Bounded limit s = record { fits = byte_len-fit s limit; allowed = All-fit IsAllowed s limit }

bound_around-Bounded :
    (limit : ℕ) (s : Text) (suffix : Option Text)
    → (b : Text) × (bound_around limit s (split_suffix s suffix) ≡ some b) × Bounded limit s b
unfolding bound_around split_suffix
bound_around-Bounded limit s none =
    (fit s limit, bound_utf8_prefix-fit s limit, fit-Bounded limit s)
bound_around-Bounded limit s (some sfx) = elim (Option-cases (strip_suffix sfx s)) [
  | inl e ↦ (
    fit s limit,
    rw (e, split_suffix, bound_around) (bound_utf8_prefix-fit s limit),
    fit-Bounded limit s,
  )
  | inr (prefix, e) ↦ elim (Bool-cases (leb limit (byte_len sfx))) [
    | inl long ↦ (
      fit s limit,
      rw (e, split_suffix, bound_around, long) (bound_utf8_prefix-fit s limit),
      fit-Bounded limit s,
    )
    | inr short ↦
        let room = limit - byte_len sfx in
        let whole = strip_suffix-some sfx s e in
        (
          fit prefix room ++ sfx,
          rw (e, split_suffix, bound_around, short, bound_utf8_prefix-fit prefix room) refl,
          record {
            fits =
                let l : byte_len sfx < limit = ground arith in
                omega (arith, byte_len-append (fit prefix room) sfx, byte_len-fit prefix room);
            allowed = λ h.
                let h' : All IsAllowed (prefix ++ sfx) = rw whole at h in
                All-append IsAllowed (fit prefix room) sfx
                  (All-fit IsAllowed prefix room (All-left IsAllowed prefix sfx h'))
                  (All-right IsAllowed prefix sfx h');
          },
        )
  ]
]

All-candidate : (name : Text) → All IsAllowed (candidate name)
unfolding or_track
All-candidate name =
    ground (arith, All-trim IsAllowed (replace_forbidden name) (All-replace_forbidden name))

-- With room for the word `track`, `sanitize_and_bound` turns every string and every suffix into a
-- name: it never panics, and the result is not empty, not `.` or `..`, has at most `MAX` bytes and
-- no forbidden character.
pub sanitize_and_bound-IsName :
    (limit : ℕ) (name : Text) (suffix : Option Text)
    → 5 ≤ limit
    → (r : Text) × (sanitize_and_bound limit name suffix ≡ some r) × IsName limit r
unfolding sanitize_and_bound
sanitize_and_bound-IsName limit name suffix h =
    let (b, e, v) = bound_around-Bounded limit (candidate name) suffix in
    (or_track b, rw e refl, or_track-IsName limit b h v.fits (v.allowed (All-candidate name)))
