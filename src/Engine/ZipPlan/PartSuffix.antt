-- ===== src/Engine/ZipPlan/PartSuffix.antt =====
-- The suffix that `plan_zip_parts_with_codec` of crates/engine/src/zip.rs gives the names of the parts.
-- Its length, its characters and the number in it.
use mathlib.Core.List.{append_assoc}
use peerless_server.Prelude.{
  ℕ, zero, suc, ◌+◌, ◌*◌, ◌/◌, ◌%◌, ◌≤◌, ◌<◌, ◌≡◌, ◌≢◌, refl, ap, sym, inl, inr, true, false, [],
  ◌∷◌, ◌++◌, ltb, ◌==◌, ◌||◌, Bool-cases, All, All-append, Text, text, eq_text, decimal,
  decimal_fuel, byte_len, arith,
}
use peerless_server.Stream.Range.{u64_max, parse_u64}
use peerless_server.Stream.Range.Parse.{Avoids}
use peerless_server.Stream.Range.Decimal.{IsDigit, decimal-IsDigit, parse_u64-decimal}
use peerless_server.Engine.Filename.{max_archive_filename_bytes}
use peerless_server.Engine.Filename.Bounds.{IsAllowed, byte_len-append}
use peerless_server.Engine.ZipPlan.{archive_codec_label, part_suffix}

-- A number below the kth power of ten.
abbrev tenfold : ℕ → ℕ
tenfold zero = 1
tenfold (suc k) = tenfold k * 10

byte_len-decimal_fuel : (f k n : ℕ) → n < tenfold (suc k) → byte_len (decimal_fuel f n) ≤ suc k
byte_len-decimal_fuel zero k n h = omega arith
byte_len-decimal_fuel (suc f) zero n h =
    let small : ltb n 10 ≡ true = ground arith in rw small (ground arith)
byte_len-decimal_fuel (suc f) (suc k) n h = elim (Bool-cases (ltb n 10)) [
  | inl small ↦ rw small (ground arith)
  | inr large ↦
      let more = byte_len-decimal_fuel f k (n / 10) (omega (arith, h)) in
      let last : byte_len ((b'0' + n % 10) ∷ []) ≡ 1 = ground arith in
      rw large (
        omega (arith, byte_len-append (decimal_fuel f (n / 10)) ((b'0' + n % 10) ∷ []), last, more))
]

byte_len-decimal : (n : ℕ) → n ≤ u64_max → byte_len (decimal n) ≤ 20
unfolding decimal
byte_len-decimal n h = byte_len-decimal_fuel (suc n) 19 n (omega (arith, h))

pub decimal_injective : (n m : ℕ) → n ≤ u64_max → m ≤ u64_max → decimal n ≡ decimal m → n ≡ m
decimal_injective n m hn hm e =
    let l = parse_u64-decimal n hn in let r = parse_u64-decimal m hm in let s = ap parse_u64 e in cc

digits-IsAllowed : (s : Text) → All IsDigit s → All IsAllowed s
digits-IsAllowed [] h = tt
digits-IsAllowed (c ∷ s) h = (ground (arith, h.0), digits-IsAllowed s h.1)

pub digits-Avoids : (s : Text) → All IsDigit s → All (Avoids b' ') s
digits-Avoids [] h = tt
digits-Avoids (c ∷ s) h = (ground (arith, h.0), digits-Avoids s h.1)

-- What stands behind the last space of a text is determined.
no_space : (a t s : Text) → All (Avoids b' ') s → s ≢ a ++ b' ' ∷ t
no_space [] t [] h e = cc
no_space [] t (c ∷ s) h e = let k = h.0 in let l = e in grind (arith, k, l)
no_space (x ∷ a) t [] h e = cc
no_space (x ∷ a) t (c ∷ s) h e = no_space a t s h.1 (let k = e in cc)

pub last_word :
    (a c s t : Text)
    → All (Avoids b' ') s
    → All (Avoids b' ') t
    → a ++ b' ' ∷ s ≡ c ++ b' ' ∷ t
    → s ≡ t
last_word [] [] s t hs ht e = let k = e in cc
last_word [] (y ∷ c) s t hs ht e = absurd (no_space c t s hs (let k = e in cc))
last_word (x ∷ a) [] s t hs ht e = absurd (no_space a s t ht (let k = sym e in cc))
last_word (x ∷ a) (y ∷ c) s t hs ht e = last_word a c s t hs ht (let k = e in cc)

-- Each label is short and has no forbidden character.
archive_codec_label_short :
    (codec : Text)
    → All IsAllowed (archive_codec_label codec) × (byte_len (archive_codec_label codec) ≤ 5)
unfolding archive_codec_label
archive_codec_label_short codec = elim (Bool-cases (eq_text codec (text "ec-3"))) [
  | inl e ↦ rw e ((refl, (refl, (refl, (refl, (refl, tt))))), omega arith)
  | inr e ↦
      elim (Bool-cases (
        eq_text codec (text "aac")
        || eq_text codec (text "mp4a.40.2")
        || eq_text codec (text "mp4a.40.5"))) [
          | inl k ↦ rw (e, k) ((refl, (refl, (refl, tt))), omega arith)
          | inr k ↦ elim (Bool-cases (eq_text codec (text "flac"))) [
            | inl l ↦ rw (e, k, l) ((refl, (refl, (refl, (refl, tt)))), omega arith)
            | inr l ↦ rw (e, k, l) ((refl, (refl, (refl, (refl, tt)))), omega arith)
          ]
        ]
]

-- Behind the number of a part.
abbrev pub of_total : ℕ → Text
of_total total = text " of " ++ (decimal total ++ text ").zip")

-- The suffix of a part that is not the only one.
abbrev pub numbered_suffix : Text → ℕ → ℕ → Text
numbered_suffix codec i total =
    text " [" ++ (archive_codec_label codec ++ (text "] (Part " ++ (decimal i ++ of_total total)))

pub part_suffix-numbered :
    (codec : Text) (i total : ℕ)
    → 1 < total
    → part_suffix (archive_codec_label codec) i total ≡ numbered_suffix codec i total
unfolding part_suffix
part_suffix-numbered codec i total h =
    let several : (total == 1) ≡ false = ground arith in rw several refl

pub numbered_suffix-IsAllowed :
    (codec : Text) (i total : ℕ) → All IsAllowed (numbered_suffix codec i total)
numbered_suffix-IsAllowed codec i total =
    let number : (n : ℕ) → All IsAllowed (decimal n) =
      λ n. digits-IsAllowed (decimal n) (decimal-IsDigit n) in
    let end : All IsAllowed (of_total total) = (
      refl,
      (
        refl,
        (
          refl,
          (
            refl,
            All-append IsAllowed (decimal total) (text ").zip") (number total)
                (refl, (refl, (refl, (refl, (refl, tt))))),
          ),
        ),
      ),
    ) in
    let middle : All IsAllowed (text "] (Part " ++ (decimal i ++ of_total total)) =
      All-append IsAllowed (text "] (Part ") (decimal i ++ of_total total)
        (refl, (refl, (refl, (refl, (refl, (refl, (refl, (refl, tt))))))))
        (All-append IsAllowed (decimal i) (of_total total) (number i) end) in
    (
      refl,
      (
        refl,
        All-append IsAllowed (archive_codec_label codec) _ (archive_codec_label_short codec).0
            middle,
      ),
    )

pub byte_len-numbered_suffix :
    (codec : Text) (i total : ℕ)
    → i ≤ u64_max
    → total ≤ u64_max
    → (2 < byte_len (numbered_suffix codec i total))
      × (byte_len (numbered_suffix codec i total) < max_archive_filename_bytes)
byte_len-numbered_suffix codec i total hi ht =
    let label = (archive_codec_label_short codec).1 in
    let a =
      byte_len-append (archive_codec_label codec)
        (text "] (Part " ++ (decimal i ++ of_total total)) in
    let b = byte_len-append (decimal i) (of_total total) in
    let c = byte_len-append (decimal total) (text ").zip") in
    let d = byte_len-decimal i hi in let e = byte_len-decimal total ht in (omega arith, omega arith)

pub numbered_suffix_last :
    (codec : Text) (i total : ℕ)
    → (start : Text) × (numbered_suffix codec i total ≡ start ++ b'p' ∷ [])
numbered_suffix_last codec i total =
    let start =
      text " ["
      ++ (archive_codec_label codec
          ++ (text "] (Part " ++ (decimal i ++ (text " of " ++ (decimal total ++ text ").zi"))))) in
    (start, simp append_assoc)
