-- ===== src/Engine/Caption/Escape.antt =====
-- `html_escape` of crates/engine/src/orchestrator/helpers.rs loses nothing.
use peerless_server.Prelude.{
  ℕ, zero, suc, ◌+◌, ◌≡◌, refl, ap, ◌∙◌, inl, inr, false, [], ◌∷◌, ◌++◌, Option, none, some, ◌==◌,
  if◌then◌else◌, Bool-cases, length, All, All-append, Text, text, strip_prefix, arith,
}
use peerless_server.Engine.Caption.{escaped, html_escape}

abbrev or_entity : Option Text → ℕ → Option (ℕ × Text) → Option (ℕ × Text)
or_entity none ch other = other
or_entity (some rest) ch other = some (ch, rest)

-- A character that is written as an entity, behind its `&`, and what follows it.
entity : Text → Option (ℕ × Text)
unfolding strip_prefix
entity s = or_entity (strip_prefix (text "amp;") s) b'&' (
    or_entity (strip_prefix (text "lt;") s) b'<' (
      or_entity (strip_prefix (text "gt;") s) b'>' (
        or_entity (strip_prefix (text "quot;") s) b'"'
          (or_entity (strip_prefix (text "#39;") s) 0x27 none))))

-- How a reader of HTML takes a text of so many characters: an independent description.
unfoldable pub read_html : ℕ → Text → Text
unfolding entity
read_html zero s = []
read_html (suc n) [] = []
read_html (suc n) (ch ∷ s) = elim (if ch == b'&' then entity s else none) [
  | none ↦ ch ∷ read_html n s
  | some (c, rest) ↦ c ∷ read_html n rest
]

read_html_plain :
    (ch : ℕ) (s : Text) (n : ℕ)
    → (ch == b'&') ≡ false
    → read_html (suc n) (ch ∷ s) ≡ ch ∷ read_html n s
unfolding read_html
read_html_plain ch s n h = rw (read_html, h) refl

read_html_nil : (n : ℕ) → read_html n [] ≡ []
unfolding read_html
read_html_nil zero = refl
read_html_nil (suc n) = refl

read_html-cons :
    (ch : ℕ) (s : Text) (n : ℕ) → read_html (suc n) (escaped ch ++ s) ≡ ch ∷ read_html n s
unfolding read_html entity strip_prefix
read_html-cons ch s n = elim (Bool-cases (ch == b'&')) [
  | inl a ↦ let same : ch ≡ b'&' = ground arith in rw same refl
  | inr a ↦ elim (Bool-cases (ch == b'<')) [
    | inl b ↦ let same : ch ≡ b'<' = ground arith in rw same refl
    | inr b ↦ elim (Bool-cases (ch == b'>')) [
      | inl c ↦ let same : ch ≡ b'>' = ground arith in rw same refl
      | inr c ↦ elim (Bool-cases (ch == b'"')) [
        | inl d ↦ let same : ch ≡ b'"' = ground arith in rw same refl
        | inr d ↦ elim (Bool-cases (ch == 0x27)) [
          | inl e ↦ let same : ch ≡ 0x27 = ground arith in rw same refl
          | inr e ↦ rw (a, b, c, d, e) (read_html_plain ch s n a)
        ]
      ]
    ]
  ]
]

-- No character of the text can open or close a tag or an attribute.
abbrev pub IsInert : ℕ → Type 0
IsInert ch =
    ((ch == b'<') ≡ false)
    × ((ch == b'>') ≡ false)
    × ((ch == b'"') ≡ false)
    × ((ch == 0x27) ≡ false)

escaped-IsInert : (ch : ℕ) → All IsInert (escaped ch)
escaped-IsInert ch = ground arith

read_html-html_escape : (s : Text) (n : ℕ) → read_html (length s + n) (html_escape s) ≡ s
unfolding html_escape read_html
read_html-html_escape [] n = read_html_nil (length {A = ℕ} [] + n)
read_html-html_escape (ch ∷ s) n =
    let e : length (ch ∷ s) + n ≡ suc (length s + n) = omega arith in
    rw e
      (read_html-cons ch (html_escape s) (length s + n) ∙ ap (◌∷◌ ch) (read_html-html_escape s n))

html_escape-IsInert : (s : Text) → All IsInert (html_escape s)
unfolding html_escape
html_escape-IsInert [] = tt
html_escape-IsInert (ch ∷ s) =
    All-append IsInert (escaped ch) (html_escape s) (escaped-IsInert ch) (html_escape-IsInert s)

-- An escaped text holds no `<`, `>`, `"` or `'`, and a reader of HTML takes exactly the text from it.
pub html_escape-read_html :
    (s : Text)
    → All IsInert (html_escape s) × ((n : ℕ) → read_html (length s + n) (html_escape s) ≡ s)
html_escape-read_html s = (html_escape-IsInert s, read_html-html_escape s)
