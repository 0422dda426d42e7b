-- ===== src/RustBackend.antt =====
-- runtime/rust_backend/Runtime.cpp: the backend that passes each call on to a Rust library. A
-- `SymExpr` is the library's number of the expression, shifted up by eight bits, with the
-- expression's width in the low eight bits; 0 is the null pointer. The library is a parameter.
pub mod Building
pub mod Calls
pub mod Collection
pub mod Packing
pub mod Requests
use Prim.Native.Nat.{bit_and}
use symcc.Common.{
  ℕ, ◌+◌, ◌-◌, ◌*◌, ◌/◌, ◌%◌, ◌^◌, Bool, true, false, not, Option, none, some, List, [], ◌∷◌, map,
  ◌==◌, ltb, if◌then◌else◌, length,
}
use symcc.Common.Cmd.{Cmd, pure, ◌>>=◌, ◌>>◌, require, keep}
use symcc.Shadow.{Pages}
use symcc.GarbageCollection.{ExpressionRegion, insert, collect_reachable_expressions}
use symcc.GarbageCollection.Sweep.{sweep}

-- The builders of the macro for one operand, of the macro for bit vectors and floats, and of the
-- macro for Booleans.
pub data UnaryOp : Type 0 where
  neg fp_abs bit_not : UnaryOp

pub data BvOp : Type 0 where
  add sub mul unsigned_div signed_div unsigned_rem signed_rem : BvOp
  shift_left logical_shift_right arithmetic_shift_right : BvOp
  bv_and bv_or bool_xor xor : BvOp
  fp_add fp_sub fp_mul fp_div fp_rem : BvOp

pub data BoolOp : Type 0 where
  signed_less_than signed_less_equal signed_greater_than signed_greater_equal : BoolOp
  unsigned_less_than unsigned_less_equal unsigned_greater_than unsigned_greater_equal : BoolOp
  equal not_equal bool_and bool_or : BoolOp
  float_ordered_greater_than float_ordered_greater_equal : BoolOp
  float_ordered_less_than float_ordered_less_equal : BoolOp
  float_ordered_equal float_ordered_not_equal float_ordered float_unordered : BoolOp
  float_unordered_greater_than float_unordered_greater_equal : BoolOp
  float_unordered_less_than float_unordered_less_equal : BoolOp
  float_unordered_equal float_unordered_not_equal : BoolOp

-- The functions of the Rust library: those that build an expression give its number.
pub record RustLibrary : Type 1 where
  pub State : Type 0
  pub Float : Type 0
  pub integer : (value bits : ℕ) → State → ℕ × State
  pub integer128 : (high low : ℕ) → State → ℕ × State
  pub float : Float → Bool → State → ℕ × State
  pub input_byte : (offset value : ℕ) → State → ℕ × State
  pub null_pointer : State → ℕ × State
  pub bool : Bool → State → ℕ × State
  pub true_expr : State → ℕ × State
  pub false_expr : State → ℕ × State
  pub unary : UnaryOp → ℕ → State → ℕ × State
  pub bv : BvOp → ℕ → ℕ → State → ℕ × State
  pub boolean : BoolOp → ℕ → ℕ → State → ℕ × State
  pub sext : (expr bits : ℕ) → State → ℕ × State
  pub zext : (expr bits : ℕ) → State → ℕ × State
  pub trunc : (expr bits : ℕ) → State → ℕ × State
  pub int_to_float : ℕ → (is_double is_signed : Bool) → State → ℕ × State
  pub float_to_float : ℕ → (to_double : Bool) → State → ℕ × State
  pub bits_to_float : ℕ → (to_double : Bool) → State → ℕ × State
  pub float_to_bits : ℕ → State → ℕ × State
  pub float_to_signed_integer : (expr bits : ℕ) → State → ℕ × State
  pub float_to_unsigned_integer : (expr bits : ℕ) → State → ℕ × State
  pub bool_to_bit : ℕ → State → ℕ × State
  pub concat : ℕ → ℕ → State → ℕ × State
  pub extract : (expr first_bit last_bit : ℕ) → State → ℕ × State
  pub read_memory : (addr value host length : ℕ) → Bool → State → ℕ × State
  pub write_memory : (addr written host length : ℕ) → Bool → State → State
  pub memcpy : (sym_dest sym_src sym_len dest src length : ℕ) → State → State
  pub memset : (sym_dest sym_val sym_len memory value length : ℕ) → State → State
  pub memmove : (sym_dest sym_src sym_len dest src length : ℕ) → State → State
  pub push_path_constraint : (constraint : ℕ) → (taken : Bool) → (site_id : ℕ) → State → State
  pub concretize_pointer : (expr ptr site_id : ℕ) → State → State
  pub concretize_size : (expr size site_id : ℕ) → State → State
  pub notify_call : ℕ → State → State
  pub notify_ret : ℕ → State → State
  pub notify_basic_block : ℕ → State → State
  pub notify_param_expr : (index expr : ℕ) → State → State
  pub notify_ret_expr : ℕ → State → State
  pub expression_unreachable : List ℕ → State → State

-- `uintptr_t` has 64 bits.
abbrev pub pointer_mod : ℕ
pointer_mod = 2 ^ 64

unfoldable pub symexpr_width : ℕ → ℕ
symexpr_width expr = bit_and expr 255

unfoldable pub symexpr_id : ℕ → ℕ
symexpr_id expr = expr / 2 ^ 8

-- The width is a `uint8_t`, and the eight bits that it is put into are zero after the shift.
unfoldable pub symexpr : (expr width : ℕ) → Option ℕ
symexpr expr width =
    let shifted = expr * 2 ^ 8 % pointer_mod in
    if expr == 0
    then some 0
    else (if shifted / 2 ^ 8 == expr then some (shifted + width % 2 ^ 8) else none)

pub record RustState (R : RustLibrary) : Type 0 where
  pub library : R.State
  pub allocated_expressions : List ℕ

module _ (R : RustLibrary) where
  open R use {State, Float}

  abbrev pub RustRun : Type 0 → Type 0
  RustRun A = Cmd (RustState R) A

  unfoldable pub register_expression : ℕ → RustRun ℕ
  register_expression expr = do
    require (not (expr == 0))
    λ s. some (expr, record s { allocated_expressions = insert s.allocated_expressions expr })

  -- A call of the library, and one whose result is packed with a width and registered.
  abbrev pub tell : (State → State) → RustRun (Unit {0})
  tell f s = some (tt, record s { library = f s.library })

  unfoldable pub packed : (width : ℕ) → (State → ℕ × State) → RustRun ℕ
  packed width f s =
      let (e, t) = f s.library in
      (do x ← keep (symexpr e width); register_expression x) (record s { library = t })

  abbrev float_width : Bool → ℕ
  float_width is_double = if is_double then 64 else 32

  unfoldable pub build_integer : (value bits : ℕ) → RustRun ℕ
  build_integer value bits = packed bits (R.integer value bits)

  unfoldable pub build_integer128 : (high low : ℕ) → RustRun ℕ
  build_integer128 high low = packed 128 (R.integer128 high low)

  unfoldable pub build_float : Float → Bool → RustRun ℕ
  build_float value is_double = packed (float_width is_double) (R.float value is_double)

  unfoldable pub get_input_byte : (offset value : ℕ) → RustRun ℕ
  get_input_byte offset value = packed 8 (R.input_byte offset value)

  unfoldable pub build_null_pointer : RustRun ℕ
  build_null_pointer = packed 64 R.null_pointer

  unfoldable pub build_true : RustRun ℕ
  build_true = packed 0 R.true_expr

  unfoldable pub build_false : RustRun ℕ
  build_false = packed 0 R.false_expr

  unfoldable pub build_bool : Bool → RustRun ℕ
  build_bool value = packed 0 (R.bool value)

  unfoldable pub build_unary : UnaryOp → ℕ → RustRun ℕ
  build_unary op expr = packed (symexpr_width expr) (R.unary op (symexpr_id expr))

  unfoldable pub build_bv : BvOp → ℕ → ℕ → RustRun ℕ
  build_bv op a b = packed (symexpr_width a) (R.bv op (symexpr_id a) (symexpr_id b))

  unfoldable pub build_boolean : BoolOp → ℕ → ℕ → RustRun ℕ
  build_boolean op a b = packed 0 (R.boolean op (symexpr_id a) (symexpr_id b))

  unfoldable pub build_sext : (expr bits : ℕ) → RustRun ℕ
  build_sext expr bits = packed (symexpr_width expr + bits) (R.sext (symexpr_id expr) bits)

  unfoldable pub build_zext : (expr bits : ℕ) → RustRun ℕ
  build_zext expr bits = packed (symexpr_width expr + bits) (R.zext (symexpr_id expr) bits)

  unfoldable pub build_trunc : (expr bits : ℕ) → RustRun ℕ
  build_trunc expr bits = packed bits (R.trunc (symexpr_id expr) bits)

  unfoldable pub build_int_to_float : ℕ → (is_double is_signed : Bool) → RustRun ℕ
  build_int_to_float expr is_double is_signed =
      packed (float_width is_double) (R.int_to_float (symexpr_id expr) is_double is_signed)

  unfoldable pub build_float_to_float : ℕ → Bool → RustRun ℕ
  build_float_to_float expr to_double =
      packed (float_width to_double) (R.float_to_float (symexpr_id expr) to_double)

  unfoldable pub build_bits_to_float : ℕ → Bool → RustRun ℕ
  build_bits_to_float expr to_double =
      if expr == 0
      then pure 0
      else packed (float_width to_double) (R.bits_to_float (symexpr_id expr) to_double)

  unfoldable pub build_float_to_bits : ℕ → RustRun ℕ
  build_float_to_bits expr =
      if expr == 0 then pure 0 else packed (symexpr_width expr) (R.float_to_bits (symexpr_id expr))

  unfoldable pub build_float_to_signed_integer : (expr bits : ℕ) → RustRun ℕ
  build_float_to_signed_integer expr bits =
      packed bits (R.float_to_signed_integer (symexpr_id expr) bits)

  unfoldable pub build_float_to_unsigned_integer : (expr bits : ℕ) → RustRun ℕ
  build_float_to_unsigned_integer expr bits =
      packed bits (R.float_to_unsigned_integer (symexpr_id expr) bits)

  unfoldable pub build_bool_to_bit : ℕ → RustRun ℕ
  build_bool_to_bit expr = packed 1 (R.bool_to_bit (symexpr_id expr))

  unfoldable pub concat_helper : ℕ → ℕ → RustRun ℕ
  concat_helper a b =
      packed (symexpr_width a + symexpr_width b) (R.concat (symexpr_id a) (symexpr_id b))

  -- `first_bit - last_bit + 1` on `size_t`.
  unfoldable pub extract_helper : (expr first_bit last_bit : ℕ) → RustRun ℕ
  extract_helper expr first last =
      packed ((first + (pointer_mod - last) + 1) % pointer_mod)
        (R.extract (symexpr_id expr) first last)
