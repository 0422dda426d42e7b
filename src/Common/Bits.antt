-- ===== src/Common/Bits.antt =====
-- `&` with a mask of low bits or of high bits, at any number. The native operation has no laws at
-- variables but the digit recursion that it stands for.
use Prim.Native.Nat.{
  ℕ, zero, suc, ◌+◌, ◌-◌, ◌*◌, ◌%◌, ◌/◌, ◌^◌, ◌≤◌, ◌<◌, min, bit_and, digits, bit_and-bitwise,
}
use mathlib.Core.Path.{◌≡◌, refl, ap, ◌∙◌}
use native.Mathlib.Omega.{arith}
use native.Mathlib.Nat.{pow-suc, pow-succ', zero-mod, mod-eq_of_lt}
use symcc.Common.Powers.{mod-mul, two_pow_pos}

abbrev masked : ℕ → ℕ → ℕ → ℕ
masked n a mask = digits (λ _. zero) min n a mask

-- The remainder by 2 ^ (k + 1), by its lowest digit.
mod-double : (k a : ℕ) → a % 2 ^ suc k ≡ a / 2 % 2 ^ k * 2 + a % 2
mod-double k a = ap (λ (t : ℕ). a % t) (pow-succ' 2 k) ∙ mod-mul a 2 (2 ^ k)

-- The masks are variables with an equation, which the recursion halves.
masked-low : (n k a m : ℕ) → a ≤ n → m ≡ 2 ^ k - 1 → masked n a m ≡ a % 2 ^ k
masked-low zero k zero m h e = omega (arith, zero-mod (2 ^ k))
masked-low zero k (suc a) m h e = absurd (omega arith)
masked-low (suc n) k zero m h e = omega (arith, zero-mod (2 ^ k))
masked-low (suc n) zero (suc a) m h e =
    omega (arith, masked-low n zero (suc a / 2) (m / 2) (omega arith) (omega arith))
masked-low (suc n) (suc k) (suc a) m h e = omega (
  arith,
  masked-low n k (suc a / 2) (m / 2) (omega arith) (omega (arith, pow-suc 2 k, two_pow_pos k)),
  mod-double k (suc a),
  pow-suc 2 k,
  two_pow_pos k,
)

masked-high :
    (n w k a m : ℕ) → a ≤ n → k ≤ w → a < 2 ^ w → m ≡ 2 ^ w - 2 ^ k → masked n a m ≡ a - a % 2 ^ k
masked-high zero w k zero m h p q e = omega (arith, zero-mod (2 ^ k))
masked-high zero w k (suc a) m h p q e = absurd (omega arith)
masked-high (suc n) w k zero m h p q e = omega (arith, zero-mod (2 ^ k))
masked-high (suc n) w zero (suc a) m h p q e =
    omega (arith, masked-low (suc n) w (suc a) m h e, mod-eq_of_lt q)
masked-high (suc n) zero (suc k) (suc a) m h p q e = absurd (omega arith)
masked-high (suc n) (suc w) (suc k) (suc a) m h p q e = omega (
  arith,
  masked-high n w k (suc a / 2) (m / 2) (omega arith) (omega arith) (omega (arith, pow-suc 2 w))
      (omega (arith, pow-suc 2 w, pow-suc 2 k)),
  mod-double k (suc a),
  pow-suc 2 w,
  pow-suc 2 k,
)

pub bit_and_low : (k a : ℕ) → bit_and a (2 ^ k - 1) ≡ a % 2 ^ k
bit_and_low k a = bit_and-bitwise a (2 ^ k - 1) ∙ masked-low a k a (2 ^ k - 1) (omega arith) refl

pub bit_and_high : (w k a : ℕ) → k ≤ w → a < 2 ^ w → bit_and a (2 ^ w - 2 ^ k) ≡ a - a % 2 ^ k
bit_and_high w k a p q =
    bit_and-bitwise a (2 ^ w - 2 ^ k) ∙ masked-high a w k a (2 ^ w - 2 ^ k) (omega arith) p q refl
