-- ===== src/Prelude/Arithmetic.antt =====
-- Facts on products, quotients and remainders that `omega` does not find by itself.
use Prim.Native.Nat.{ℕ, ◌+◌, ◌*◌, ◌/◌, ◌≤◌, ◌<◌}
use native.Mathlib.Omega.{arith}

pub mul-le-mul : (a b c : ℕ) → a ≤ b → a * c ≤ b * c
mul-le-mul a b c h = grind arith

pub div_mono : (a b c : ℕ) → a ≤ b → a / c ≤ b / c
div_mono a b c h = grind arith

pub div-mul-le : (a c : ℕ) → a / c * c ≤ a
div-mul-le a c = grind arith

pub lt-suc-div-mul : (a c : ℕ) → 0 < c → a < (a / c + 1) * c
lt-suc-div-mul a c h = grind arith

pub mul-le_of_le_div : (i a c : ℕ) → i ≤ a / c → i * c ≤ a
mul-le_of_le_div i a c h = omega (arith, mul-le-mul i (a / c) c h, div-mul-le a c)

pub lt-mul_of_div_lt : (i a c : ℕ) → 0 < c → a / c < i → a < i * c
lt-mul_of_div_lt i a c p h =
    omega (arith, mul-le-mul (a / c + 1) i c (omega arith), lt-suc-div-mul a c p)
