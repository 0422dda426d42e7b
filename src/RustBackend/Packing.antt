-- ===== src/RustBackend/Packing.antt =====
-- The packing of an expression's number and width in runtime/rust_backend/Runtime.cpp.
use symcc.Common.{
  arith, true, false, ap, ==_refl, ℕ, ◌+◌, ◌*◌, ◌/◌, ◌%◌, ◌^◌, ◌≤◌, ◌<◌, ◌≡◌, refl, none, some,
  ◌==◌, ◌∙◌,
}
use symcc.Common.Bits.{bit_and_low}
use symcc.RustBackend.{symexpr, symexpr_id, symexpr_width, pointer_mod}

symexpr_width_lem : (x : ℕ) → symexpr_width x ≡ x % 2 ^ 8
unfolding symexpr_width
symexpr_width_lem x = bit_and_low 8 x

-- The number and the width that are packed into an expression.
pub record Packs (expr bits x : ℕ) : Type 0 where
  pub id : symexpr_id x ≡ expr
  pub width : symexpr_width x ≡ bits
  pub not_null : 0 < x
  pub word : x < pointer_mod

-- An expression's number, not 0 and of at most 56 bits, and its width survive the packing, but for
-- the bits of the width above the eighth: the result is not null, and both are read off it again.
pub symexpr-Packs :
    (expr width : ℕ)
    → 0 < expr
    → expr < 2 ^ 56
    → (x : ℕ) × (symexpr expr width ≡ some x) × Packs expr (width % 2 ^ 8) x
unfolding symexpr symexpr_id
symexpr-Packs e w pos small =
    let some_id : (e == 0) ≡ false = ground arith in
    let fits : (e * 2 ^ 8 % pointer_mod / 2 ^ 8 == e) ≡ true =
      ap (λ n. n == e) (omega arith) ∙ ==_refl e in
    let x = e * 2 ^ 8 % pointer_mod + w % 2 ^ 8 in
    (
      x,
      rw (some_id, fits) refl,
      record {
        id = omega arith;
        width = symexpr_width_lem x ∙ omega arith;
        not_null = omega arith;
        word = omega arith;
      },
    )

-- Packing the number and the width that are read off an expression whose number is not 0 gives this
-- expression again.
pub symexpr-symexpr_id :
    (x : ℕ) → x < pointer_mod → 0 < symexpr_id x → symexpr (symexpr_id x) (symexpr_width x) ≡ some x
unfolding symexpr symexpr_id
symexpr-symexpr_id x word pos =
    let some_id : (x / 2 ^ 8 == 0) ≡ false = ground arith in
    let fits : (x / 2 ^ 8 * 2 ^ 8 % pointer_mod / 2 ^ 8 == x / 2 ^ 8) ≡ true =
      ap (λ n. n == x / 2 ^ 8) (omega arith) ∙ ==_refl (x / 2 ^ 8) in
    rw (some_id, fits, symexpr_width_lem x) (ap some (omega arith))

pub symexpr-too_large :
    (expr width : ℕ) → 2 ^ 56 ≤ expr → expr < pointer_mod → symexpr expr width ≡ none
unfolding symexpr
symexpr-too_large e w large word =
    let some_id : (e == 0) ≡ false = ground arith in
    let lost : (e * 2 ^ 8 % pointer_mod / 2 ^ 8 == e) ≡ false = ground arith in
    rw (some_id, lost) refl
