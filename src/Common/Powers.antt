-- ===== src/Common/Powers.antt =====
-- Quotients and remainders by products, and by powers of two.
use Prim.Native.Nat.{ℕ, zero, suc, ◌+◌, ◌*◌, ◌/◌, ◌%◌, ◌^◌, ◌<◌}
use mathlib.Core.Path.{◌≡◌, ap}
use native.Mathlib.Omega.{arith}
use native.Mathlib.Nat.{add-zero, add-suc, pow-suc, div-add-mod', div-div-eq-div-mul, one-le-pow}

-- The remainder by a product is the digit above the remainder by the first factor.
pub mod-mul : (v m b : ℕ) → v % (m * b) ≡ v / m % b * m + v % m
mod-mul v m b = omega (
  arith,
  div-add-mod' v (m * b),
  div-add-mod' v m,
  ap (λ (t : ℕ). t * m) (div-add-mod' (v / m) b),
  ap (λ (t : ℕ). t * (m * b)) (div-div-eq-div-mul v m b),
)

pub two_pow_pos : (k : ℕ) → 0 < 2 ^ k
two_pow_pos k = one-le-pow k 2 (omega arith)

pub pow-add : (k j : ℕ) → 2 ^ (k + j) ≡ 2 ^ k * 2 ^ j
pow-add k zero = rw add-zero (omega arith)
pow-add k (suc j) = rw add-suc (
    omega (
      arith,
      pow-suc 2 (k + j),
      ap (λ (t : ℕ). t * 2) (pow-add k j),
      ap (λ (t : ℕ). 2 ^ k * t) (pow-suc 2 j),
    ))
