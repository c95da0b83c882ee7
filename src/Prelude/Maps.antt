-- ===== src/Prelude/Maps.antt =====
-- `HashMap<String, V>` as an association list: a key that is there keeps its place.
use mathlib.Core.Path.{◌≡◌, refl, sym, ◌∙◌}
use mathlib.Core.Logic.{inl, inr}
use mathlib.Core.Bool.{true, false}
use mathlib.Core.List.{List, [], ◌∷◌}
use mathlib.Core.Option.{Option, none, some}
use peerless_server.Prelude.Tests.{if◌then◌else◌, Bool-cases}
use peerless_server.Prelude.Strings.{Text, eq_text, eq_text_iff}

abbrev pub Map {ℓ} : Type ℓ → Type ℓ
Map V = List (Text × V)

abbrev pub lookup {ℓ} : {V : Type ℓ} → Text → Map V → Option V
lookup key [] = none
lookup key (entry ∷ entries) = if eq_text entry.0 key then some entry.1 else lookup key entries

abbrev pub insert {ℓ} : {V : Type ℓ} → Text → V → Map V → Map V
insert key value [] = (key, value) ∷ []
insert key value (entry ∷ entries) =
    let rest = insert key value entries in
    if eq_text entry.0 key then (key, value) ∷ entries else entry ∷ rest

abbrev pub remove {ℓ} : {V : Type ℓ} → Text → Map V → Map V
remove key [] = []
remove key (entry ∷ entries) =
    let rest = remove key entries in if eq_text entry.0 key then rest else entry ∷ rest

pub eq_text_refl : (a : Text) → eq_text a a ≡ true
eq_text_refl a = (eq_text_iff a a).1 refl

-- Two keys that differ from one another are not both equal to a third.
pub eq_text-ne : (a b c : Text) → eq_text a b ≡ false → eq_text a c ≡ true → eq_text b c ≡ false
eq_text-ne a b c h k = elim (Bool-cases (eq_text b c)) [
  | inl e ↦
      let p = (eq_text_iff a c).0 k in
      let q = (eq_text_iff b c).0 e in let r = (eq_text_iff a b).1 (p ∙ sym q) in cc
  | inr e ↦ e
]

pub lookup-insert {ℓ} :
    {V : Type ℓ} (key other : Text) (value : V) (m : Map V)
    → lookup key (insert other value m) ≡ (if eq_text other key then some value else lookup key m)
lookup-insert key other value [] = refl
lookup-insert key other value (e ∷ m) = elim (Bool-cases (eq_text e.0 other)) [
  | inl h ↦
      let p = (eq_text_iff e.0 other).0 h in
      elim (Bool-cases (eq_text other key)) [
        | inl k ↦ rw (h, k) refl
        | inr k ↦ let k' : eq_text e.0 key ≡ false = rw p k in rw (h, k, k') refl
      ]
  | inr h ↦ elim (Bool-cases (eq_text e.0 key)) [
    | inl k ↦ let n = eq_text-ne e.0 other key h k in rw (h, k, n) refl
    | inr k ↦ rw (h, k) (lookup-insert key other value m)
  ]
]

pub lookup-remove {ℓ} :
    {V : Type ℓ} (key other : Text) (m : Map V)
    → lookup key (remove other m) ≡ (if eq_text other key then none else lookup key m)
lookup-remove key other [] = elim (Bool-cases (eq_text other key)) [
  | inl k ↦ rw k refl
  | inr k ↦ rw k refl
]
lookup-remove key other (e ∷ m) = elim (Bool-cases (eq_text e.0 other)) [
  | inl h ↦
      let p = (eq_text_iff e.0 other).0 h in
      let rest = lookup-remove key other m in
      elim (Bool-cases (eq_text other key)) [
        | inl k ↦ rw (h, k) (rw k at rest)
        | inr k ↦ let k' : eq_text e.0 key ≡ false = rw p k in rw (h, k, k') (rw k at rest)
      ]
  | inr h ↦ elim (Bool-cases (eq_text e.0 key)) [
    | inl k ↦ let n = eq_text-ne e.0 other key h k in rw (h, k, n) refl
    | inr k ↦ rw (h, k) (lookup-remove key other m)
  ]
]
