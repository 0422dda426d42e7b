-- ===== src/RustBackend/Requests.antt =====
-- The functions of runtime/rust_backend/Runtime.cpp that build expressions, as requests, with what the
-- library answers and the width that an answer has.
use symcc.Common.{ℕ, ◌+◌, ◌-◌, ◌%◌, ◌≡◌, ◌==◌, Bool, false, if◌then◌else◌}
use symcc.RustBackend.{
  RustLibrary, RustRun, UnaryOp, BvOp, BoolOp, symexpr_id, symexpr_width, pointer_mod,
  build_integer, build_integer128, build_float, get_input_byte, build_null_pointer, build_true,
  build_false, build_bool, build_unary, build_bv, build_boolean, build_sext, build_zext,
  build_trunc, build_int_to_float, build_float_to_float, build_bits_to_float, build_float_to_bits,
  build_float_to_signed_integer, build_float_to_unsigned_integer, build_bool_to_bit, concat_helper,
  extract_helper,
}

module _ (R : RustLibrary) where
  -- The calls of the builders. Two of them give null for a null pointer, and are called with others here.
  pub data Request : Type 0 where
    integer : (value bits : ℕ) → Request
    integer128 : (high low : ℕ) → Request
    float : R.Float → (is_double : Bool) → Request
    input_byte : (offset value : ℕ) → Request
    null_pointer true_expr false_expr : Request
    bool : Bool → Request
    unary : UnaryOp → ℕ → Request
    bv : BvOp → ℕ → ℕ → Request
    boolean : BoolOp → ℕ → ℕ → Request
    sext zext trunc : (expr bits : ℕ) → Request
    int_to_float : ℕ → (is_double is_signed : Bool) → Request
    float_to_float : ℕ → (to_double : Bool) → Request
    float_to_signed_integer float_to_unsigned_integer : (expr bits : ℕ) → Request
    bits_to_float : (expr : ℕ) → (expr == 0) ≡ false → (to_double : Bool) → Request
    float_to_bits : (expr : ℕ) → (expr == 0) ≡ false → Request
    bool_to_bit : ℕ → Request
    concat : ℕ → ℕ → Request
    extract : (expr first_bit last_bit : ℕ) → Request

  abbrev pub build : Request → RustRun R ℕ
  build (integer v w) = build_integer R v w
  build (integer128 h l) = build_integer128 R h l
  build (float v d) = build_float R v d
  build (input_byte o v) = get_input_byte R o v
  build null_pointer = build_null_pointer R
  build true_expr = build_true R
  build false_expr = build_false R
  build (bool b) = build_bool R b
  build (unary op e) = build_unary R op e
  build (bv op a b) = build_bv R op a b
  build (boolean op a b) = build_boolean R op a b
  build (sext e w) = build_sext R e w
  build (zext e w) = build_zext R e w
  build (trunc e w) = build_trunc R e w
  build (int_to_float e d g) = build_int_to_float R e d g
  build (float_to_float e d) = build_float_to_float R e d
  build (float_to_signed_integer e w) = build_float_to_signed_integer R e w
  build (float_to_unsigned_integer e w) = build_float_to_unsigned_integer R e w
  build (bits_to_float e n d) = build_bits_to_float R e d
  build (float_to_bits e n) = build_float_to_bits R e
  build (bool_to_bit e) = build_bool_to_bit R e
  build (concat a b) = concat_helper R a b
  build (extract e f l) = extract_helper R e f l

  -- The library's answer.
  abbrev pub answer : Request → R.State → ℕ × R.State
  answer (integer v w) = R.integer v w
  answer (integer128 h l) = R.integer128 h l
  answer (float v d) = R.float v d
  answer (input_byte o v) = R.input_byte o v
  answer null_pointer = R.null_pointer
  answer true_expr = R.true_expr
  answer false_expr = R.false_expr
  answer (bool b) = R.bool b
  answer (unary op e) = R.unary op (symexpr_id e)
  answer (bv op a b) = R.bv op (symexpr_id a) (symexpr_id b)
  answer (boolean op a b) = R.boolean op (symexpr_id a) (symexpr_id b)
  answer (sext e w) = R.sext (symexpr_id e) w
  answer (zext e w) = R.zext (symexpr_id e) w
  answer (trunc e w) = R.trunc (symexpr_id e) w
  answer (int_to_float e d g) = R.int_to_float (symexpr_id e) d g
  answer (float_to_float e d) = R.float_to_float (symexpr_id e) d
  answer (float_to_signed_integer e w) = R.float_to_signed_integer (symexpr_id e) w
  answer (float_to_unsigned_integer e w) = R.float_to_unsigned_integer (symexpr_id e) w
  answer (bits_to_float e n d) = R.bits_to_float (symexpr_id e) d
  answer (float_to_bits e n) = R.float_to_bits (symexpr_id e)
  answer (bool_to_bit e) = R.bool_to_bit (symexpr_id e)
  answer (concat a b) = R.concat (symexpr_id a) (symexpr_id b)
  answer (extract e f l) = R.extract (symexpr_id e) f l

  -- The width of what is asked for: that of the operands for bit vectors, 0 for a Boolean.
  abbrev pub width_of : Request → ℕ
  width_of (integer v w) = w
  width_of (integer128 h l) = 128
  width_of (float v d) = if d then 64 else 32
  width_of (input_byte o v) = 8
  width_of null_pointer = 64
  width_of true_expr = 0
  width_of false_expr = 0
  width_of (bool b) = 0
  width_of (unary op e) = symexpr_width e
  width_of (bv op a b) = symexpr_width a
  width_of (boolean op a b) = 0
  width_of (sext e w) = symexpr_width e + w
  width_of (zext e w) = symexpr_width e + w
  width_of (trunc e w) = w
  width_of (int_to_float e d g) = if d then 64 else 32
  width_of (float_to_float e d) = if d then 64 else 32
  width_of (float_to_signed_integer e w) = w
  width_of (float_to_unsigned_integer e w) = w
  width_of (bits_to_float e n d) = if d then 64 else 32
  width_of (float_to_bits e n) = symexpr_width e
  width_of (bool_to_bit e) = 1
  width_of (concat a b) = symexpr_width a + symexpr_width b
  width_of (extract e f l) = (f + (pointer_mod - l) + 1) % pointer_mod
