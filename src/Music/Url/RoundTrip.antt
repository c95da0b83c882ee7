-- ===== src/Music/Url/RoundTrip.antt =====
-- What a reader of a percent-encoded text takes from `urlencode` of crates/music/src/url.rs.
use peerless_server.Prelude.{
  IsByte, ℕ, zero, suc, ◌+◌, ◌-◌, ◌*◌, ◌≤◌, ◌≡◌, refl, ap, ◌∙◌, inl, inr, true, false, ◌||◌, List,
  [], ◌∷◌, ◌++◌, Option, none, some, ltb, leb, ◌==◌, if◌then◌else◌, Bool-cases, All, All-append,
  Text, arith,
}
use peerless_server.Music.Url.{
  encode_utf8, bytes, is_unreserved, encoded_byte, encode_bytes, urlencode,
}

-- Where a reader of percent-encoding stands: between two bytes, behind a percent sign, or behind the
-- first digit, of this value.
pub data Reading : Type 0 where
  plain after_percent : Reading
  after_digit : ℕ → Reading

abbrev hex_value : ℕ → ℕ
hex_value c = if leb c b'9' then c - b'0' else c - 55

abbrev next_reading : Reading → ℕ → Reading × Option ℕ
next_reading plain c = if c == b'%' then (after_percent, none) else (plain, some c)
next_reading after_percent c = (after_digit (hex_value c), none)
next_reading (after_digit high) c = (plain, some (high * 16 + hex_value c))

abbrev push : Option ℕ → List ℕ → List ℕ
push none rest = rest
push (some b) rest = b ∷ rest

unfoldable pub decode_from : Reading → Text → List ℕ
decode_from reading [] = []
decode_from reading (c ∷ s) = let r = next_reading reading c in push r.1 (decode_from r.0 s)

-- What is left of a character in UTF-8: the number of bytes still to come, and the bits so far.
abbrev next_bits : ℕ → ℕ → ℕ → ℕ × ℕ
next_bits zero bits b =
    if ltb b 0x80
    then (0, b)
    else if ltb b 0xe0
    then (1, b - 0xc0)
    else if ltb b 0xf0
    then (2, b - 0xe0)
    else (3, b - 0xf0)
next_bits (suc left) bits b = (left, bits * 64 + (b - 0x80))

unfoldable pub chars_from : ℕ → ℕ → List ℕ → Text
chars_from left bits [] = []
chars_from left bits (b ∷ s) =
    let r = next_bits left bits b in
    let rest = chars_from r.0 r.1 s in if r.0 == 0 then r.1 ∷ rest else rest

abbrev pub IsScalar : ℕ → Type 0
IsScalar c = c ≤ 0x10ffff

encode_utf8-IsByte : (c : ℕ) → IsScalar c → All IsByte (encode_utf8 c)
unfolding encode_utf8
encode_utf8-IsByte c h = elim (Bool-cases (ltb c 0x80)) [
  | inl a ↦ rw a (ground arith, tt)
  | inr a ↦ elim (Bool-cases (ltb c 0x800)) [
    | inl b ↦ rw (a, b) (ground arith, (ground arith, tt))
    | inr b ↦ elim (Bool-cases (ltb c 0x10000)) [
      | inl d ↦ rw (a, b, d) (ground arith, (ground arith, (ground arith, tt)))
      | inr d ↦ rw (a, b, d) (ground arith, (ground arith, (ground arith, (ground arith, tt))))
    ]
  ]
]

bytes-IsByte : (s : Text) → All IsScalar s → All IsByte (bytes s)
unfolding bytes
bytes-IsByte [] h = tt
bytes-IsByte (c ∷ s) h =
    All-append IsByte (encode_utf8 c) (bytes s) (encode_utf8-IsByte c h.0) (bytes-IsByte s h.1)

chars_from-encode_utf8 :
    (c : ℕ) (rest : List ℕ)
    → IsScalar c
    → chars_from 0 0 (encode_utf8 c ++ rest) ≡ c ∷ chars_from 0 c rest
unfolding encode_utf8 chars_from
chars_from-encode_utf8 c rest h = elim (Bool-cases (ltb c 0x80)) [
  | inl a ↦ rw a (ground arith)
  | inr a ↦ elim (Bool-cases (ltb c 0x800)) [
    | inl b ↦ rw (a, b) (ground arith)
    | inr b ↦ elim (Bool-cases (ltb c 0x10000)) [
      | inl d ↦ rw (a, b, d) (ground arith)
      | inr d ↦ rw (a, b, d) (ground arith)
    ]
  ]
]

decode_from-encoded_byte :
    (b : ℕ) (rest : Text)
    → IsByte b
    → decode_from plain (encoded_byte b ++ rest) ≡ b ∷ decode_from plain rest
unfolding decode_from
decode_from-encoded_byte b rest h = elim (Bool-cases (is_unreserved b)) [
  | inl e ↦ let sign : (b == b'%') ≡ false = ground arith in rw (e, sign) refl
  | inr e ↦ rw e (ground arith)
]

chars_from-start : (x y : ℕ) (rest : List ℕ) → chars_from 0 x rest ≡ chars_from 0 y rest
unfolding chars_from
chars_from-start x y [] = refl
chars_from-start x y (b ∷ rest) = refl

pub chars_from-bytes : (value : Text) → All IsScalar value → chars_from 0 0 (bytes value) ≡ value
unfolding bytes
chars_from-bytes [] h = unfold chars_from in refl
chars_from-bytes (c ∷ value) h =
    chars_from-encode_utf8 c (bytes value) h.0
    ∙ ap (◌∷◌ c) (chars_from-start c 0 (bytes value) ∙ chars_from-bytes value h.1)

decode_from-encode_bytes : (s : List ℕ) → All IsByte s → decode_from plain (encode_bytes s) ≡ s
unfolding encode_bytes
decode_from-encode_bytes [] h = unfold decode_from in refl
decode_from-encode_bytes (b ∷ s) h =
    decode_from-encoded_byte b (encode_bytes s) h.0 ∙ ap (◌∷◌ b) (decode_from-encode_bytes s h.1)

-- An unreserved character of RFC 3986, or a percent sign.
abbrev pub IsWritten : ℕ → Type 0
IsWritten c = (is_unreserved c || c == b'%') ≡ true

encoded_byte-IsWritten : (b : ℕ) → IsByte b → All IsWritten (encoded_byte b)
encoded_byte-IsWritten b h = elim (Bool-cases (is_unreserved b)) [
  | inl e ↦ rw e (rw e refl, tt)
  | inr e ↦ rw e (refl, (ground arith, (ground arith, tt)))
]

encode_bytes-IsWritten : (s : List ℕ) → All IsByte s → All IsWritten (encode_bytes s)
unfolding encode_bytes
encode_bytes-IsWritten [] h = tt
encode_bytes-IsWritten (b ∷ s) h =
    All-append IsWritten (encoded_byte b) (encode_bytes s) (encoded_byte-IsWritten b h.0)
      (encode_bytes-IsWritten s h.1)

-- An encoded text holds only unreserved characters and percent signs, and a reader of percent-encoding and
-- of UTF-8 takes exactly the text from it, whose characters are code points up to 0x10ffff.
pub urlencode-chars_from :
    (value : Text)
    → All IsScalar value
    → (All IsWritten (urlencode value))
      × (chars_from 0 0 (decode_from plain (urlencode value)) ≡ value)
unfolding urlencode
urlencode-chars_from value h =
    let b = bytes-IsByte value h in
    (
      encode_bytes-IsWritten (bytes value) b,
      rw (decode_from-encode_bytes (bytes value) b) (chars_from-bytes value h),
    )
