-- ===== src/Stream/Range/Decimal.antt =====
-- Decimal numbers as `ByteRange::parse` reads them: a reference printer, and what reads it back.
use peerless_server.Prelude.{
  decimal_fuel, decimal, Text, ℕ, zero, suc, ◌+◌, ◌-◌, ◌*◌, ◌/◌, ◌%◌, ◌≤◌, ◌<◌, ◌≡◌, refl, true,
  ◌&&◌, [], ◌∷◌, ◌++◌, Option, none, some, ltb, leb, if◌then◌else◌, All, All-append, Bool-cases,
  inl, inr, arith,
}
use peerless_server.Stream.Range.{is_digit, u64_max, digits_onto, digits, parse_u64}

abbrev pub IsDigit : ℕ → Type 0
IsDigit c = is_digit c ≡ true

decimal_fuel-IsDigit : (f n : ℕ) → All IsDigit (decimal_fuel f n)
decimal_fuel-IsDigit zero n = tt
decimal_fuel-IsDigit (suc f) n = elim (Bool-cases (ltb n 10)) [
  | inl h ↦ rw h (ground arith, tt)
  | inr h ↦ rw h (
      All-append IsDigit (decimal_fuel f (n / 10)) _ (decimal_fuel-IsDigit f (n / 10))
        (ground arith, tt))
]

abbrev push_digit : Option ℕ → ℕ → Option ℕ
push_digit none c = none
push_digit (some v) c =
    if is_digit c && leb (v * 10 + (c - b'0')) u64_max then some (v * 10 + (c - b'0')) else none

digits_onto-concat :
    (acc c : ℕ) (xs : Text) → digits_onto acc (xs ++ c ∷ []) ≡ push_digit (digits_onto acc xs) c
unfolding digits_onto
digits_onto-concat acc c [] = ground arith
digits_onto-concat acc c (x ∷ xs) = ground (arith, digits_onto-concat (acc * 10 + (x - b'0')) c xs)

digits_onto-decimal_fuel :
    (f n : ℕ) → n < f → n ≤ u64_max → digits_onto 0 (decimal_fuel f n) ≡ some n
digits_onto-decimal_fuel zero n h k = elim h [ ]
digits_onto-decimal_fuel (suc f) n h k = elim (Bool-cases (ltb n 10)) [
  | inl small ↦ rw small (unfold digits_onto in ground arith)
  | inr large ↦ rw large (
      ground (
        arith,
        digits_onto-concat 0 (b'0' + n % 10) (decimal_fuel f (n / 10)),
        digits_onto-decimal_fuel f (n / 10),
      ))
]

-- Decimal notation begins with a digit.
decimal_fuel-head :
    (f n : ℕ) → n < f → (c : ℕ) × (cs : Text) × (decimal_fuel f n ≡ c ∷ cs) × IsDigit c
decimal_fuel-head zero n h = elim h [ ]
decimal_fuel-head (suc f) n h = elim (Bool-cases (ltb n 10)) [
  | inl small ↦ (b'0' + n, [], rw small refl, ground arith)
  | inr large ↦
      let (c, cs, e, d) = decimal_fuel-head f (n / 10) (ground arith) in
      (c, cs ++ (b'0' + n % 10) ∷ [], rw (large, e) refl, d)
]

pub decimal-IsDigit : (n : ℕ) → All IsDigit (decimal n)
unfolding decimal
decimal-IsDigit n = decimal_fuel-IsDigit (suc n) n

pub decimal-head : (n : ℕ) → (c : ℕ) × (cs : Text) × (decimal n ≡ c ∷ cs) × IsDigit c
unfolding decimal
decimal-head n = decimal_fuel-head (suc n) n (omega arith)

parse_u64_digit :
    (s : Text) {c n : ℕ} {cs : Text}
    → s ≡ c ∷ cs
    → IsDigit c
    → digits_onto 0 s ≡ some n
    → parse_u64 s ≡ some n
unfolding parse_u64 digits
parse_u64_digit [] e d h = cc
parse_u64_digit (x ∷ xs) e d h = ground arith

-- `u64::from_str` reads back the decimal notation of every 64-bit number.
pub parse_u64-decimal : (n : ℕ) → n ≤ u64_max → parse_u64 (decimal n) ≡ some n
unfolding decimal
parse_u64-decimal n h =
    let (c, cs, e, d) = decimal-head n in
    parse_u64_digit (decimal n) e d (digits_onto-decimal_fuel (suc n) n (omega arith) h)
