-- ===== src/Common/Digits.antt =====
-- Numbers as bytes: the digits to the base 256, and the number that digits make up in either
-- order.
use Prim.Native.Nat.{ℕ, zero, suc, ◌+◌, ◌-◌, ◌*◌, ◌/◌, ◌%◌, ◌^◌, ◌<◌}
use mathlib.Core.Path.{◌≡◌, refl, ap, ◌∙◌}
use native.Mathlib.Omega.{arith}
use native.Mathlib.Nat.{div-eq_of_lt, add-mul-div_right, mul-le-mul_right}
use native.Mathlib.Decide.{ℕ_discrete}
use symcc.Common.Powers.{mod-mul, two_pow_pos, pow-add}

-- Digit `i`, the lowest first.
abbrev pub digit : ℕ → ℕ → ℕ
digit v i = v / 2 ^ (8 * i) % 256

-- The number with the digits `d 0` to `d (n - 1)`, the lowest first, and the highest first.
unfoldable pub little_value : (ℕ → ℕ) → ℕ → ℕ
little_value d zero = 0
little_value d (suc n) = little_value d n + d n * 2 ^ (8 * n)

unfoldable pub big_value : (ℕ → ℕ) → ℕ → ℕ
big_value d zero = 0
big_value d (suc n) = big_value d n * 256 + d n

pub weight-suc : (i : ℕ) → 2 ^ (8 * suc i) ≡ 2 ^ (8 * i) * 256
weight-suc i = ap (λ (t : ℕ). 2 ^ t) (eight i) ∙ pow-add (8 * i) 8
  where
    eight : (i : ℕ) → 8 * suc i ≡ 8 * i + 8
    eight i = omega arith

pub little_value-congr :
    (d e : ℕ → ℕ) (n : ℕ) → ((i : ℕ) → i < n → d i ≡ e i) → little_value d n ≡ little_value e n
unfolding little_value
little_value-congr d e zero h = refl
little_value-congr d e (suc n) h =
    rw (h n (omega arith), little_value-congr d e n λ i p. h i (omega arith)) refl

pub big_value-congr :
    (d e : ℕ → ℕ) (n : ℕ) → ((i : ℕ) → i < n → d i ≡ e i) → big_value d n ≡ big_value e n
unfolding big_value
big_value-congr d e zero h = refl
big_value-congr d e (suc n) h =
    rw (h n (omega arith), big_value-congr d e n λ i p. h i (omega arith)) refl

pub little_value_bound :
    (d : ℕ → ℕ) (n : ℕ) → ((i : ℕ) → i < n → d i < 256) → little_value d n < 2 ^ (8 * n)
unfolding little_value
little_value_bound d zero h = omega arith
little_value_bound d (suc n) h = omega (
  arith,
  weight-suc n,
  little_value_bound d n (λ i p. h i (omega arith)),
  mul-le-mul_right (2 ^ (8 * n)) (h n (omega arith)),
)

-- A higher digit does not show in a lower one.
pub digit-add_higher : (v m n i : ℕ) → i < n → digit (v + m * 2 ^ (8 * n)) i ≡ digit v i
digit-add_higher v m n i p =
    let k = 8 * (n - 1 - i) in
    let w : 2 ^ (8 * n) ≡ 2 ^ (8 * i) * (2 ^ 8 * 2 ^ k) =
      ap (λ (t : ℕ). 2 ^ t) (above p)
      ∙ pow-add (8 * i) (8 + k)
      ∙ ap (λ (t : ℕ). 2 ^ (8 * i) * t) (pow-add 8 k) in
    let sum : v + m * 2 ^ (8 * n) ≡ v + m * 2 ^ k * 256 * 2 ^ (8 * i) =
      omega (arith, ap (λ (t : ℕ). m * t) w) in
    rw (sum, add-mul-div_right v (m * 2 ^ k * 256) (two_pow_pos (8 * i))) (omega arith)
  where
    above : i < n → 8 * n ≡ 8 * i + (8 + 8 * (n - 1 - i))
    above p = omega arith

-- The digits of the number are the digits that it was made from.
pub digit-little_value :
    (d : ℕ → ℕ) (n i : ℕ) → ((j : ℕ) → j < n → d j < 256) → i < n → digit (little_value d n) i ≡ d i
unfolding little_value
digit-little_value d zero i h p = absurd (omega arith)
digit-little_value d (suc n) i h p = elim (ℕ_discrete i n) [
  | yes e ↦
      let low = little_value_bound d n (λ j q. h j (omega arith)) in
      rw (e, add-mul-div_right (little_value d n) (d n) (two_pow_pos (8 * n)), div-eq_of_lt low)
        (omega (arith, h n (omega arith)))
  | no e ↦
      digit-add_higher (little_value d n) (d n) n i (omega arith)
      ∙ digit-little_value d n i (λ j q. h j (omega arith)) (omega arith)
]

-- A number is made up of its digits.
pub little_value-digit : (v n : ℕ) → little_value (digit v) n ≡ v % 2 ^ (8 * n)
unfolding little_value
little_value-digit v zero = omega arith
little_value-digit v (suc n) =
    rw (little_value-digit v n, weight-suc n) (omega (arith, mod-mul v (2 ^ (8 * n)) 256))

little_value-first :
    (d : ℕ → ℕ) (n : ℕ) → little_value d (suc n) ≡ little_value (λ i. d (suc i)) n * 256 + d 0
unfolding little_value
little_value-first d zero = omega arith
little_value-first d (suc n) =
    omega (arith, little_value-first d n, ap (λ (t : ℕ). d (suc n) * t) (weight-suc n))

-- Highest first is lowest first with the digits turned round.
pub big_value-reverse : (d : ℕ → ℕ) (n : ℕ) → big_value d n ≡ little_value (λ i. d (n - 1 - i)) n
unfolding big_value little_value
big_value-reverse d zero = refl
big_value-reverse d (suc n) =
    let same =
      little_value-congr (λ i. d (suc n - 1 - suc i)) (λ i. d (n - 1 - i)) n
        λ i p. ap d (omega arith) in
    let first : d n ≡ d (suc n - 1 - 0) = ap d (omega arith) in
    rw (little_value-first (λ i. d (suc n - 1 - i)) n, same, ← big_value-reverse d n, ← first) refl

-- Reading the digits of a number highest first, from its highest digit on.
pub big_value-digit : (v n : ℕ) → big_value (λ i. digit v (n - 1 - i)) n ≡ v % 2 ^ (8 * n)
big_value-digit v n =
    big_value-reverse (λ i. digit v (n - 1 - i)) n
    ∙ little_value-congr (λ i. digit v (n - 1 - (n - 1 - i))) (digit v) n
        (λ i p. ap (digit v) (omega arith))
    ∙ little_value-digit v n
