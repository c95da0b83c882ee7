-- ===== src/Prelude/Results.antt =====
-- `Result<A, E>` of Rust, with `?` as the monad's bind, and the inversions of `Option` binds.
use mathlib.Core.Path.{◌≡◌, refl}
use mathlib.Core.Logic.{◌⊎◌, inl, inr}
use mathlib.Core.Option.{Option, none, some}
use mathlib.Core.Bool.{Bool}
use Prim.Native.Nat.{ℕ}
use peerless_server.Prelude.Tests.{leb, if◌then◌else◌}

-- A sum or product of Rust's `u64`, as `checked_add` and `checked_mul` give it.
abbrev pub checked : ℕ → Option ℕ
checked n = if leb n 0xffff_ffff_ffff_ffff then some n else none

-- `?` on an `Option`.
infixl 5 ◌>>◌
abbrev pub ◌>>◌ {ℓ κ} : {A : Type ℓ} {B : Type κ} → Option A → (A → Option B) → Option B
none >> next = none
some value >> next = next value

pub data Result {ℓ κ} (A : Type ℓ) (E : Type κ) : Type (ℓ ⊔ κ) where
  err : (error : E) → Result A E
  ok : (value : A) → Result A E

abbrev pub guard {κ} : {E : Type κ} → Bool → E → Result (Unit {0}) E
guard condition error = if condition then ok tt else err error

-- `Option::ok_or`.
abbrev pub ok_or {ℓ κ} : {A : Type ℓ} {E : Type κ} → Option A → E → Result A E
ok_or none error = err error
ok_or (some value) error = ok value

pub Result-cases {ℓ κ} :
    {A : Type ℓ} {E : Type κ} (r : Result A E) → ((a : A) × (r ≡ ok a)) ⊎ ((e : E) × (r ≡ err e))
Result-cases (err e) = inr (e, refl)
Result-cases (ok a) = inl (a, refl)

-- `?` on a `Result`, for do blocks.
infixl 5 ◌>>=◌
abbrev pub ◌>>=◌ {ℓ κ μ} :
    {A : Type ℓ} {B : Type κ} {E : Type μ} → Result A E → (A → Result B E) → Result B E
err error >>= next = err error
ok value >>= next = next value

pub >>=-eq-ok {ℓ κ μ} :
    {A : Type ℓ} {B : Type κ} {E : Type μ} (m : Result A E) (f : A → Result B E) {b : B}
    → (m >>= f) ≡ ok b
    → (a : A) × (m ≡ ok a) × (f a ≡ ok b)
>>=-eq-ok (err e) f h = cc
>>=-eq-ok (ok a) f h = (a, refl, h)
