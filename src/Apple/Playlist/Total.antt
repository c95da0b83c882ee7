-- ===== src/Apple/Playlist/Total.antt =====
-- The parsers of crates/apple/src/wrapper/playlist.rs never panic: the `expect` on an attribute always
-- finds its `=`, since `split_attributes` has looked for it, and a quoted value is long enough to be
-- sliced.
use peerless_server.Engine.Filename.Bounds.{byte_len-append, strip_suffix-some}
use peerless_server.Prelude.{
  ◌||◌, ◌-◌, ◌+◌, ◌<◌, ltb, leb, text, byte_len, len_utf8, slice, slice_to, slice_from, ends_with,
  strip_suffix, contains_char, ◌++◌, arith, ℕ, Bool, true, false, not, ◌&&◌, ◌≡◌, ◌≢◌, refl, ap,
  ◌∙◌, ◌⊎◌, inl, inr, ◌==◌, List, [], ◌∷◌, reverse, Option, none, some, if◌then◌else◌, Result, ok,
  err, ◌>>=◌, >>=-eq-ok, Bool-cases, Option-cases, Result-cases, All, Text, trim, split_once,
}
use peerless_server.Stream.Range.{parse_u64}
use peerless_server.Stream.Pipe.{is_empty}
use peerless_server.Apple.Playlist.{
  WrapperError, malformed_attribute, panicked, validate_attribute_component, attributes_onto,
  split_attributes, attribute, each_attribute, read_attributes, is_quote_first, malformed_if,
  validate_value, parse_positive_u64, parse_positive_u32, invalid_unless_positive, parse_u32,
}

-- The result is no panic.
abbrev pub Total {ℓ} : {A : Type ℓ} → Result A WrapperError → Type ℓ
Total r = r ≢ err panicked

pub >>=-Total {ℓ κ} :
    {A : Type ℓ} {B : Type κ} (m : Result A WrapperError) (f : A → Result B WrapperError)
    → Total m
    → ((a : A) → Total (f a))
    → Total (m >>= f)
>>=-Total (err e) f h k = λ q. h (let d : e ≡ panicked = cc in ap err d)
>>=-Total (ok a) f h k = k a

pub ok-Total {ℓ} : {A : Type ℓ} (a : A) → Total (ok a)
ok-Total a h = cc

pub if-Total {ℓ} :
    {A : Type ℓ} (b : Bool) (x y : Result A WrapperError)
    → Total x
    → Total y
    → Total (if b then x else y)
if-Total true x y p q = p
if-Total false x y p q = q

-- A part that has an `=`.
abbrev HasKey : Text → Type 0
HasKey part = (key_value : Text × Text) × (split_once b'=' part ≡ some key_value)

validate_attribute_component-HasKey :
    (part : Text) {u : Unit {0}} → validate_attribute_component part ≡ ok u → HasKey part
unfolding validate_attribute_component
validate_attribute_component-HasKey part h = elim (Option-cases (split_once b'=' part)) [
  | inl e ↦ let k = rw (validate_attribute_component, e) at h in cc
  | inr (kv, e) ↦ (kv, e)
]

attributes_onto-HasKey :
    (piece : Text) (in_quotes : Bool) (s : Text) (parts : List Text)
    → attributes_onto piece in_quotes s ≡ ok parts
    → All HasKey parts
unfolding attributes_onto
attributes_onto-HasKey piece true [] parts h = cc
attributes_onto-HasKey piece false [] parts h =
    let part = trim (reverse piece) in
    let (u, v, e) = >>=-eq-ok (validate_attribute_component part) _ h in
    let same : part ∷ [] ≡ parts = cc in
    rw (← same) (validate_attribute_component-HasKey part v, tt)
attributes_onto-HasKey piece in_quotes (c ∷ cs) parts h = elim (Bool-cases (c == b'"')) [
  | inl q ↦
      attributes_onto-HasKey (c ∷ piece) (not in_quotes) cs parts (rw (attributes_onto, q) at h)
  | inr q ↦ elim (Bool-cases (c == b',' && not in_quotes)) [
    | inr k ↦
        attributes_onto-HasKey (c ∷ piece) in_quotes cs parts (rw (attributes_onto, q, k) at h)
    | inl k ↦
        let h' = rw (attributes_onto, q, k) at h in
        let part = trim (reverse piece) in
        let (u, v, e) = >>=-eq-ok (validate_attribute_component part) _ h' in
        let (others, w, f) = >>=-eq-ok (attributes_onto [] false cs) _ e in
        let same : part ∷ others ≡ parts = cc in
        rw (← same)
          (validate_attribute_component-HasKey part v, attributes_onto-HasKey [] false cs others w)
  ]
]

slice_to-append : (p t : Text) → slice_to (p ++ t) (byte_len p) ≡ some p
unfolding slice_to
slice_to-append [] [] = refl
slice_to-append [] (c ∷ t) = refl
slice_to-append (c ∷ p) t =
    let rest = slice_to-append p t in
    let positive : 0 < len_utf8 c = ground arith in
    let back : (len_utf8 c + byte_len p) - len_utf8 c ≡ byte_len p = omega arith in
    let some_left : (len_utf8 c + byte_len p == 0) ≡ false = ground arith in
    let within : leb (len_utf8 c) (len_utf8 c + byte_len p) ≡ true = ground arith in
    rw (some_left, within, back, rest) refl

slice_from-zero : (s : Text) → slice_from s 0 ≡ some s
unfolding slice_from
slice_from-zero [] = refl
slice_from-zero (c ∷ s) = refl

slice-append :
    (p : Text)
    → is_quote_first (p ++ text "\"") ≡ true
    → ltb (byte_len (p ++ text "\"")) 2 ≡ false
    → (quoted : Text) × (slice (p ++ text "\"") 1 (byte_len (p ++ text "\"") - 1) ≡ some quoted)
unfolding slice slice_from
slice-append [] first long = cc
slice-append (c ∷ p) first long =
    let l = byte_len-append p (text "\"") in
    let end : byte_len ((c ∷ p) ++ text "\"") - 1 ≡ byte_len (c ∷ p) = omega (arith, l) in
    let width : len_utf8 c ≡ 1 = ground arith in
    let begins : leb 1 (byte_len (c ∷ p)) ≡ true = ground arith in
    let cut : slice_to (c ∷ (p ++ text "\"")) (byte_len (c ∷ p)) ≡ some (c ∷ p) =
      slice_to-append (c ∷ p) (text "\"") in
    (p, rw (end, begins, cut, width) (slice_from-zero p))

-- A value of two bytes or more with a quote at each end is sliced between characters.
slice-quoted :
    (value : Text)
    → is_quote_first value ≡ true
    → ltb (byte_len value) 2 ≡ false
    → ends_with (text "\"") value ≡ true
    → (quoted : Text) × (slice value 1 (byte_len value - 1) ≡ some quoted)
unfolding ends_with
slice-quoted value first long ends = elim (Option-cases (strip_suffix (text "\"") value)) [
  | inl e ↦ absurd (let k = rw e at ends in cc)
  | inr (p, e) ↦
      let whole = strip_suffix-some (text "\"") value e in
      rw whole (slice-append p (rw whole at first) (rw whole at long))
]

malformed_if-Total : (b : Bool) → Total (malformed_if b)
malformed_if-Total true = λ h. cc
malformed_if-Total false = λ h. cc

validate_value-Total : (value : Text) → Total (validate_value value)
unfolding validate_value
validate_value-Total value = elim (Bool-cases (is_quote_first value)) [
  | inr first ↦ rw (validate_value, first) (malformed_if-Total (contains_char b'"' value))
  | inl first ↦ elim (Bool-cases (ltb (byte_len value) 2 || not (ends_with (text "\"") value))) [
    | inl bad ↦ rw (validate_value, first, bad) (λ h. cc)
    | inr good ↦
        let (quoted, e) = slice-quoted value first (ground arith) (ground arith) in
        rw (validate_value, first, good, e)
          (malformed_if-Total (is_empty quoted || contains_char b'"' quoted))
  ]
]

validate_attribute_component-Total : (part : Text) → Total (validate_attribute_component part)
unfolding validate_attribute_component
validate_attribute_component-Total part = elim (Option-cases (split_once b'=' part)) [
  | inl e ↦ rw (validate_attribute_component, e) (λ h. cc)
  | inr (kv, e) ↦
      rw (validate_attribute_component, e)
        (if-Total (is_empty (trim kv.0) || is_empty (trim kv.1)) _ _ (λ h. cc)
          (validate_value-Total (trim kv.1)))
]

attributes_onto-Total :
    (piece : Text) (in_quotes : Bool) (s : Text) → Total (attributes_onto piece in_quotes s)
unfolding attributes_onto
attributes_onto-Total piece true [] = λ h. cc
attributes_onto-Total piece false [] =
    let part = trim (reverse piece) in
    >>=-Total (validate_attribute_component part) _ (validate_attribute_component-Total part)
      (λ u h. cc)
attributes_onto-Total piece in_quotes (c ∷ cs) = elim (Bool-cases (c == b'"')) [
  | inl q ↦ rw (attributes_onto, q) (attributes_onto-Total (c ∷ piece) (not in_quotes) cs)
  | inr q ↦ elim (Bool-cases (c == b',' && not in_quotes)) [
    | inr k ↦ rw (attributes_onto, q, k) (attributes_onto-Total (c ∷ piece) in_quotes cs)
    | inl k ↦
        let part = trim (reverse piece) in
        rw (attributes_onto, q, k)
          (>>=-Total (validate_attribute_component part) _ (validate_attribute_component-Total part)
            (λ u.
              >>=-Total (attributes_onto [] false cs) _ (attributes_onto-Total [] false cs)
                (λ parts h. cc)))
  ]
]

module _ {S : Type 0} (step : S → Text → Text → Result S WrapperError)
    (total : (s : S) (key value : Text) → Total (step s key value)) where
  each_attribute-Total :
      (parts : List Text) (s : S) → All HasKey parts → Total (each_attribute step s parts)
  unfolding each_attribute attribute
  each_attribute-Total [] s all = λ h. cc
  each_attribute-Total (part ∷ parts) s ((kv, e), all) =
      let one : Total (attribute step s (split_once b'=' part)) = rw e (total s _ _) in
      >>=-Total (attribute step s (split_once b'=' part)) _ one
        (λ s'. each_attribute-Total parts s' all)

  split_attributes-cases :
      (attrs : Text)
      → (split_attributes attrs ≡ err malformed_attribute)
        ⊎ (split_attributes attrs ≡ attributes_onto [] false attrs)
  unfolding split_attributes
  split_attributes-cases attrs = elim (Bool-cases (is_empty (trim attrs))) [
    | inl h ↦ inl (rw h refl)
    | inr h ↦ inr (rw h refl)
  ]

  -- A list of attributes is read without a panic.
  pub read_attributes-Total : (s : S) (attrs : Text) → Total (read_attributes step s attrs)
  unfolding read_attributes
  read_attributes-Total s attrs = elim (split_attributes-cases attrs) [
    | inl e ↦ rw e (λ h. cc)
    | inr e ↦ elim (Result-cases (attributes_onto [] false attrs)) [
      | inl (parts, r) ↦
          rw (e, r) (each_attribute-Total parts s (attributes_onto-HasKey [] false attrs parts r))
      | inr (failure, r) ↦
          let t = attributes_onto-Total [] false attrs in
          rw (e, r) (λ h. t (let d : failure ≡ panicked = cc in r ∙ ap err d))
    ]
  ]

invalid_unless_positive-Total :
    (name value : Text) (n : Option ℕ) → Total (invalid_unless_positive name value n)
invalid_unless_positive-Total name value none h = cc
invalid_unless_positive-Total name value (some n) h = elim (Bool-cases (n == 0)) [
  | inl e ↦ let k = rw e at h in cc
  | inr e ↦ let k = rw e at h in cc
]

pub parse_positive_u64-Total : (value name : Text) → Total (parse_positive_u64 value name)
unfolding parse_positive_u64
parse_positive_u64-Total value name = invalid_unless_positive-Total name value (parse_u64 value)

pub parse_positive_u32-Total : (value name : Text) → Total (parse_positive_u32 value name)
unfolding parse_positive_u32
parse_positive_u32-Total value name = invalid_unless_positive-Total name value (parse_u32 value)
