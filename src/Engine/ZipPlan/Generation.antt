-- ===== src/Engine/ZipPlan/Generation.antt =====
-- The hash that names the generation of an archive: `album_generation_hash` of
-- crates/engine/src/zip.rs. The digest of SHA-256, from the third-party sha2, is the parameter
-- `digest`, a function of all the bytes that the hasher was given, one piece behind another.
use mathlib.Core.List.{append-nil}
use peerless_server.Prelude.{
  All-map, All-append, IsByte, ℕ, ◌+◌, ◌/◌, ◌%◌, ◌<◌, ◌≡◌, ◌≢◌, refl, ap, sym, ◌∙◌, ◌⊎◌, inl, inr,
  List, [], ◌∷◌, ◌++◌, ltb, if◌then◌else◌, Bool-cases, All, Text, text, eq_text, eq_text_iff, split,
  arith,
}
use peerless_server.Music.Url.{bytes}
use peerless_server.Music.Url.RoundTrip.{IsScalar, chars_from, chars_from-bytes}
use peerless_server.Stream.Range.Parse.{Avoids, split_single, split-append}

abbrev pub hex_digit : ℕ → ℕ
hex_digit n = if ltb n 10 then b'0' + n else 87 + n

-- `format!("{byte:02x}")` for each byte.
unfoldable pub hex_digest : List ℕ → Text
hex_digest [] = []
hex_digest (byte ∷ bytes) = hex_digit (byte / 16) ∷ hex_digit (byte % 16) ∷ hex_digest bytes

abbrev pub hashed_ids : List Text → Text
hashed_ids [] = []
hashed_ids (id ∷ ids) = 0 ∷ (id ++ hashed_ids ids)

-- What the hasher is given.
unfoldable pub generation_message : Text → Text → List Text → Text
generation_message provider album_id ordered_track_ids =
    text "alac-zip-gen-v1" ++ 0 ∷ (provider ++ 0 ∷ (album_id ++ hashed_ids ordered_track_ids))

unfoldable pub album_generation_hash : (List ℕ → List ℕ) → Text → Text → List Text → Text
unfolding hex_digest
album_generation_hash digest provider album_id ordered_track_ids =
    hex_digest (digest (bytes (generation_message provider album_id ordered_track_ids)))

hex_digit_injective : (n m : ℕ) → n < 16 → m < 16 → hex_digit n ≡ hex_digit m → n ≡ m
hex_digit_injective n m hn hm e = ground arith

hex_digest_injective :
    (s t : List ℕ) → All IsByte s → All IsByte t → hex_digest s ≡ hex_digest t → s ≡ t
unfolding hex_digest
hex_digest_injective [] [] hs ht e = refl
hex_digest_injective [] (b ∷ t) hs ht e = let k = e in cc
hex_digest_injective (a ∷ s) [] hs ht e = let k = e in cc
hex_digest_injective (a ∷ s) (b ∷ t) hs ht e =
    let high =
      hex_digit_injective (a / 16) (b / 16) (omega (arith, hs.0)) (omega (arith, ht.0))
        (let k = e in cc) in
    let low = hex_digit_injective (a % 16) (b % 16) (omega arith) (omega arith) (let k = e in cc) in
    let rest = hex_digest_injective s t hs.1 ht.1 (let k = e in cc) in
    let same : a ≡ b = omega (arith, high, low) in cc

-- The ids are read back from what the hasher was given.
split-hashed_ids :
    (first : Text) (ids : List Text)
    → All (Avoids 0) first
    → All (All (Avoids 0)) ids
    → split 0 (first ++ hashed_ids ids) ≡ first ∷ ids
split-hashed_ids first [] h k = rw append-nil (split_single 0 first h)
split-hashed_ids first (id ∷ ids) h k =
    split-append 0 first (id ++ hashed_ids ids) h ∙ ap (◌∷◌ first) (split-hashed_ids id ids k.0 k.1)

-- A code point other than NUL, which stands between the pieces.
abbrev pub IsPiece : ℕ → Type 0
IsPiece c = Avoids 0 c × IsScalar c

abbrev pub IsUnbroken : Text → Type 0
IsUnbroken s = All IsPiece s

IsUnbroken-Avoids : (s : Text) → IsUnbroken s → All (Avoids 0) s
IsUnbroken-Avoids s h = All-map IsPiece (Avoids 0) s (λ c k. k.0) h

IsUnbroken-IsScalar : (s : Text) → IsUnbroken s → All IsScalar s
IsUnbroken-IsScalar s h = All-map IsPiece IsScalar s (λ c k. k.1) h

hashed_ids-IsScalar : (ids : List Text) → All IsUnbroken ids → All IsScalar (hashed_ids ids)
hashed_ids-IsScalar [] h = tt
hashed_ids-IsScalar (id ∷ ids) h = (
  omega arith,
  All-append IsScalar id (hashed_ids ids) (IsUnbroken-IsScalar id h.0)
      (hashed_ids-IsScalar ids h.1),
)

split-generation_message :
    (provider album_id : Text) (ids : List Text)
    → All IsUnbroken (provider ∷ album_id ∷ ids)
    → split 0 (generation_message provider album_id ids)
      ≡ text "alac-zip-gen-v1" ∷ provider ∷ album_id ∷ ids
unfolding generation_message
split-generation_message provider album_id ids h =
    split-hashed_ids (text "alac-zip-gen-v1") (provider ∷ album_id ∷ ids) (grind arith)
      (All-map IsUnbroken (All (Avoids 0)) (provider ∷ album_id ∷ ids) IsUnbroken-Avoids h)

generation_message-IsScalar :
    (provider album_id : Text) (ids : List Text)
    → All IsUnbroken (provider ∷ album_id ∷ ids)
    → All IsScalar (generation_message provider album_id ids)
unfolding generation_message
generation_message-IsScalar provider album_id ids h =
    All-append IsScalar (text "alac-zip-gen-v1") (hashed_ids (provider ∷ album_id ∷ ids))
      (grind arith) (hashed_ids-IsScalar (provider ∷ album_id ∷ ids) h)

bytes_injective : (m n : Text) → All IsScalar m → All IsScalar n → bytes m ≡ bytes n → m ≡ n
bytes_injective m n hm hn e =
    sym (chars_from-bytes m hm) ∙ ap (chars_from 0 0) e ∙ chars_from-bytes n hn

-- Two albums with the same generation hash have the same provider, id and tracks in the same order, unless
-- the bytes that are hashed for them are a collision of the digest; the digest gives bytes, and the texts
-- are of code points other than NUL.
pub album_generation_hash-same :
    (digest : List ℕ → List ℕ) (provider album_id other_provider other_id : Text)
    (ids other_ids : List Text)
    → ((message : List ℕ) → All IsByte (digest message))
    → All IsUnbroken (provider ∷ album_id ∷ ids)
    → All IsUnbroken (other_provider ∷ other_id ∷ other_ids)
    → album_generation_hash digest provider album_id ids
      ≡ album_generation_hash digest other_provider other_id other_ids
    → (provider ≡ other_provider × album_id ≡ other_id × ids ≡ other_ids)
      ⊎ (bytes (generation_message provider album_id ids)
            ≢ bytes (generation_message other_provider other_id other_ids)
          × digest (bytes (generation_message provider album_id ids))
            ≡ digest (bytes (generation_message other_provider other_id other_ids)))
unfolding album_generation_hash
album_generation_hash-same digest p a q b ids jds octets h k e =
    let m = generation_message p a ids in
    let n = generation_message q b jds in
    elim (Bool-cases (eq_text (bytes m) (bytes n))) [
      | inl same ↦
          let equal =
            bytes_injective m n (generation_message-IsScalar p a ids h)
              (generation_message-IsScalar q b jds k) ((eq_text_iff (bytes m) (bytes n)).0 same) in
          let parts =
            sym (split-generation_message p a ids h)
            ∙ ap (split 0) equal
            ∙ split-generation_message q b jds k in
          inl (cc, cc, cc)
      | inr differs ↦ inr (
        (λ eq. let t = (eq_text_iff (bytes m) (bytes n)).1 eq in cc),
        hex_digest_injective (digest (bytes m)) (digest (bytes n)) (octets (bytes m))
            (octets (bytes n)) e,
      )
    ]
