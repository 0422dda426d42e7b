-- ===== src/SimpleBackend/Builders.antt =====
-- The functions of runtime/simple_backend/Runtime.cpp that build expressions.
use symcc.Common.{ℕ, ◌-◌, Bool, Option, none, some, [], ◌∷◌, if◌then◌else◌}
use symcc.SimpleBackend.{
  Z3, SimpleState, Z3Binary, Z3Rounded, bvneg, bvnot, z3_not, fpa_abs, fpa_is_nan, fpa_to_ieee_bv,
  bvadd, bvsub, bvmul, bvudiv, bvsdiv, bvurem, bvsrem, bvshl, bvlshr, bvashr, bvslt, bvsle, bvsgt,
  bvsge, bvult, bvule, bvugt, bvuge, eq, bvand, bvor, z3_xor, bvxor, concat, fpa_gt, fpa_geq,
  fpa_lt, fpa_leq, fpa_eq, fpa_rem, with_sort, register_expression,
}

-- The builders of the macro, and the operator of each.
pub data BinaryOp : Type 0 where
  add sub mul unsigned_div signed_div unsigned_rem signed_rem : BinaryOp
  shift_left logical_shift_right arithmetic_shift_right : BinaryOp
  signed_less_than signed_less_equal signed_greater_than signed_greater_equal : BinaryOp
  unsigned_less_than unsigned_less_equal unsigned_greater_than unsigned_greater_equal : BinaryOp
  equal bv_and bv_or bool_xor xor : BinaryOp
  float_ordered_greater_than float_ordered_greater_equal : BinaryOp
  float_ordered_less_than float_ordered_less_equal float_ordered_equal : BinaryOp

abbrev pub z3_name : BinaryOp → Z3Binary
z3_name add = bvadd
z3_name sub = bvsub
z3_name mul = bvmul
z3_name unsigned_div = bvudiv
z3_name signed_div = bvsdiv
z3_name unsigned_rem = bvurem
z3_name signed_rem = bvsrem
z3_name shift_left = bvshl
z3_name logical_shift_right = bvlshr
z3_name arithmetic_shift_right = bvashr
z3_name signed_less_than = bvslt
z3_name signed_less_equal = bvsle
z3_name signed_greater_than = bvsgt
z3_name signed_greater_equal = bvsge
z3_name unsigned_less_than = bvult
z3_name unsigned_less_equal = bvule
z3_name unsigned_greater_than = bvugt
z3_name unsigned_greater_equal = bvuge
z3_name equal = eq
z3_name bv_and = bvand
z3_name bv_or = bvor
z3_name bool_xor = z3_xor
z3_name xor = bvxor
z3_name float_ordered_greater_than = fpa_gt
z3_name float_ordered_greater_equal = fpa_geq
z3_name float_ordered_less_than = fpa_lt
z3_name float_ordered_less_equal = fpa_leq
z3_name float_ordered_equal = fpa_eq

module _ (Z : Z3) where
  abbrev pub Builder : Type 0
  Builder = SimpleState Z → ℕ × SimpleState Z

  abbrev pub register : ℕ → Builder
  register = register_expression Z

  -- A builder's result given to what follows.
  abbrev pub then_with : Builder → (ℕ → Builder) → Builder
  then_with f k s = let (e, t) = f s in k e t

  unfoldable pub build_integer : (value bits : ℕ) → Builder
  build_integer value bits =
      let sort = Z.mk_bv_sort bits in with_sort Z sort (register (Z.mk_unsigned_int64 value sort))

  unfoldable pub build_integer128 : (high low : ℕ) → Builder
  build_integer128 high low =
      then_with (build_integer high 64)
        λ h. then_with (build_integer low 64) λ l. register (Z.mk_binary concat h l)

  unfoldable pub build_float : Z.Double → Bool → Builder
  build_float value is_double =
      let sort = Z.mk_fpa_sort is_double in
      with_sort Z sort (register (Z.mk_fpa_numeral_double value sort))

  unfoldable pub build_null_pointer : Builder
  build_null_pointer s = (s.null_pointer, s)

  unfoldable pub build_true : Builder
  build_true s = (s.true_expr, s)

  unfoldable pub build_false : Builder
  build_false s = (s.false_expr, s)

  unfoldable pub build_bool : Bool → Builder
  build_bool value s = (if value then s.true_expr else s.false_expr, s)

  unfoldable pub build_neg : ℕ → Builder
  build_neg expr = register (Z.mk_unary bvneg expr)

  unfoldable pub build_binary : BinaryOp → ℕ → ℕ → Builder
  build_binary op a b = register (Z.mk_binary (z3_name op) a b)

  -- `_sym_build_fp_add`, `_sub`, `_mul` and `_div`.
  unfoldable pub build_fp : Z3Rounded → ℕ → ℕ → Builder
  build_fp op a b s = register (Z.mk_rounded op s.rounding_mode a b) s

  unfoldable pub build_fp_rem : ℕ → ℕ → Builder
  build_fp_rem a b = register (Z.mk_binary fpa_rem a b)

  unfoldable pub build_fp_abs : ℕ → Builder
  build_fp_abs a = register (Z.mk_unary fpa_abs a)

  unfoldable pub build_not : ℕ → Builder
  build_not expr = register (Z.mk_unary bvnot expr)

  unfoldable pub build_not_equal : ℕ → ℕ → Builder
  build_not_equal a b = register (Z.mk_unary z3_not (Z.mk_binary eq a b))

  unfoldable pub build_bool_and : ℕ → ℕ → Builder
  build_bool_and a b = register (Z.mk_and (a ∷ b ∷ []))

  unfoldable pub build_bool_or : ℕ → ℕ → Builder
  build_bool_or a b = register (Z.mk_or (a ∷ b ∷ []))

  unfoldable pub build_float_unordered : ℕ → ℕ → Builder
  build_float_unordered a b =
      register (Z.mk_or (Z.mk_unary fpa_is_nan a ∷ Z.mk_unary fpa_is_nan b ∷ []))

  unfoldable pub build_float_ordered : ℕ → ℕ → Builder
  build_float_ordered a b =
      then_with (build_float_unordered a b) λ e. register (Z.mk_unary z3_not e)

  unfoldable pub build_float_ordered_not_equal : ℕ → ℕ → Builder
  build_float_ordered_not_equal a b =
      then_with (build_binary float_ordered_equal a b) λ e. register (Z.mk_unary z3_not e)

  -- One of the two is no number, or the given comparison holds.
  abbrev pub unordered_or : (ℕ → ℕ → Builder) → ℕ → ℕ → Builder
  unordered_or ordered a b =
      then_with (ordered a b)
        λ e. register (Z.mk_or (Z.mk_unary fpa_is_nan a ∷ Z.mk_unary fpa_is_nan b ∷ e ∷ []))

  unfoldable pub build_float_unordered_greater_than : ℕ → ℕ → Builder
  build_float_unordered_greater_than = unordered_or (build_binary float_ordered_greater_than)

  unfoldable pub build_float_unordered_greater_equal : ℕ → ℕ → Builder
  build_float_unordered_greater_equal = unordered_or (build_binary float_ordered_greater_equal)

  unfoldable pub build_float_unordered_less_than : ℕ → ℕ → Builder
  build_float_unordered_less_than = unordered_or (build_binary float_ordered_less_than)

  unfoldable pub build_float_unordered_less_equal : ℕ → ℕ → Builder
  build_float_unordered_less_equal = unordered_or (build_binary float_ordered_less_equal)

  unfoldable pub build_float_unordered_equal : ℕ → ℕ → Builder
  build_float_unordered_equal = unordered_or (build_binary float_ordered_equal)

  unfoldable pub build_float_unordered_not_equal : ℕ → ℕ → Builder
  build_float_unordered_not_equal = unordered_or build_float_ordered_not_equal

  unfoldable pub build_sext : (expr bits : ℕ) → Builder
  build_sext expr bits = register (Z.mk_sign_ext bits expr)

  unfoldable pub build_zext : (expr bits : ℕ) → Builder
  build_zext expr bits = register (Z.mk_zero_ext bits expr)

  -- A width of 0 is no width of a bit vector.
  unfoldable pub build_trunc : (expr bits : ℕ) → Builder
  build_trunc expr bits = register (Z.mk_extract (bits - 1) 0 expr)

  unfoldable pub build_int_to_float : ℕ → (is_double is_signed : Bool) → Builder
  build_int_to_float value is_double is_signed s =
      let sort = Z.mk_fpa_sort is_double in
      let mode = s.rounding_mode in
      with_sort Z sort
        (register (
          if is_signed
          then Z.mk_fpa_to_fp_signed mode value sort
          else Z.mk_fpa_to_fp_unsigned mode value sort))
        s

  unfoldable pub build_float_to_float : ℕ → Bool → Builder
  build_float_to_float expr to_double s =
      let sort = Z.mk_fpa_sort to_double in
      with_sort Z sort (register (Z.mk_fpa_to_fp_float s.rounding_mode expr sort)) s

  -- The two that take a null pointer.
  unfoldable pub build_bits_to_float : Option ℕ → Bool → SimpleState Z → Option ℕ × SimpleState Z
  build_bits_to_float none to_double s = (none, s)
  build_bits_to_float (some expr) to_double s =
      let sort = Z.mk_fpa_sort to_double in
      let (e, t) = with_sort Z sort (register (Z.mk_fpa_to_fp_bv expr sort)) s in (some e, t)

  unfoldable pub build_float_to_bits : Option ℕ → SimpleState Z → Option ℕ × SimpleState Z
  build_float_to_bits none s = (none, s)
  build_float_to_bits (some expr) s =
      let (e, t) = register (Z.mk_unary fpa_to_ieee_bv expr) s in (some e, t)

  unfoldable pub build_float_to_signed_integer : (expr bits : ℕ) → Builder
  build_float_to_signed_integer expr bits =
      register (Z.mk_fpa_to_sbv Z.mk_fpa_round_toward_zero expr bits)

  unfoldable pub build_float_to_unsigned_integer : (expr bits : ℕ) → Builder
  build_float_to_unsigned_integer expr bits =
      register (Z.mk_fpa_to_ubv Z.mk_fpa_round_toward_zero expr bits)

  -- The two integers are arguments of one call, so their order is not fixed; here the last is built
  -- first.
  unfoldable pub build_bool_to_bit : ℕ → Builder
  build_bool_to_bit expr =
      then_with (build_integer 0 1)
        λ no. then_with (build_integer 1 1) λ yes. register (Z.mk_ite expr yes no)

  unfoldable pub concat_helper : ℕ → ℕ → Builder
  concat_helper a b = register (Z.mk_binary concat a b)

  unfoldable pub extract_helper : (expr first_bit last_bit : ℕ) → Builder
  extract_helper expr first last = register (Z.mk_extract first last expr)

  -- The reference to the sort that `_sym_bits_helper` takes is given back.
  unfoldable pub bits_helper : ℕ → ℕ
  bits_helper expr = Z.get_bv_sort_size (Z.get_sort expr)
