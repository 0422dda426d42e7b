-- ===== src/QsymBackend.antt =====
-- runtime/qsym_backend/Runtime.cpp: the backend on Qsym, a submodule, which is a parameter. A raw
-- pointer to an expression is a number, a shared pointer is a `Ref`; the backend hands out raw
-- pointers and keeps one shared pointer for each. A computation stops where `std::map::at` throws.
-- The target has 64 bits.
pub mod Building
pub mod Collection
pub mod Inputs
pub mod Lifetime
pub mod Printing
pub mod Requests
pub mod Solving
use symcc.Common.{
  ℕ, zero, suc, ◌+◌, ◌-◌, ◌%◌, ◌^◌, Bool, Option, none, some, List, [], ◌∷◌, ◌++◌, is_some,
  if◌then◌else◌, leb, length,
}
use symcc.Common.Assoc.{lookup, insert}
use symcc.Common.Cmd.{Cmd, pure, ◌>>=◌, ◌>>◌}

-- The builders of the macro.
pub data BinaryOp : Type 0 where
  add sub mul unsigned_div signed_div unsigned_rem signed_rem : BinaryOp
  shift_left logical_shift_right arithmetic_shift_right : BinaryOp
  signed_less_than signed_less_equal signed_greater_than signed_greater_equal : BinaryOp
  unsigned_less_than unsigned_less_equal unsigned_greater_than unsigned_greater_equal : BinaryOp
  equal not_equal bool_and bit_and bool_or bit_or bool_xor xor : BinaryOp

-- Qsym's `create...` functions of two operands.
pub data QsymBinary : Type 0 where
  create_add create_sub create_mul create_udiv create_sdiv create_urem create_srem : QsymBinary
  create_shl create_lshr create_ashr : QsymBinary
  create_slt create_sle create_sgt create_sge create_ult create_ule create_ugt create_uge :
      QsymBinary
  create_equal create_distinct create_land create_and create_lor create_or create_xor : QsymBinary
  create_concat : QsymBinary

abbrev pub qsym_name : BinaryOp → QsymBinary
qsym_name add = create_add
qsym_name sub = create_sub
qsym_name mul = create_mul
qsym_name unsigned_div = create_udiv
qsym_name signed_div = create_sdiv
qsym_name unsigned_rem = create_urem
qsym_name signed_rem = create_srem
qsym_name shift_left = create_shl
qsym_name logical_shift_right = create_lshr
qsym_name arithmetic_shift_right = create_ashr
qsym_name signed_less_than = create_slt
qsym_name signed_less_equal = create_sle
qsym_name signed_greater_than = create_sgt
qsym_name signed_greater_equal = create_sge
qsym_name unsigned_less_than = create_ult
qsym_name unsigned_less_equal = create_ule
qsym_name unsigned_greater_than = create_ugt
qsym_name unsigned_greater_equal = create_uge
qsym_name equal = create_equal
qsym_name not_equal = create_distinct
qsym_name bool_and = create_land
qsym_name bit_and = create_and
qsym_name bool_or = create_lor
qsym_name bit_or = create_or
qsym_name bool_xor = create_distinct
qsym_name xor = create_xor

pub record Qsym : Type 1 where
  pub Ref : Type 0
  -- The expression builder, the solver without its input, and the call stack.
  pub State : Type 0
  pub Z3Expr : Type 0
  -- The raw pointer in a shared pointer.
  pub get : Ref → ℕ
  pub create_constant : (value bits : ℕ) → State → Ref × State
  pub create_wide_constant : (low high bits : ℕ) → State → Ref × State
  pub create_true : State → Ref × State
  pub create_false : State → Ref × State
  pub create_bool : Bool → State → Ref × State
  pub create_binary : QsymBinary → Ref → Ref → State → Ref × State
  pub create_neg : Ref → State → Ref × State
  pub create_not : Ref → State → Ref × State
  pub create_sext : Ref → (bits : ℕ) → State → Ref × State
  pub create_zext : Ref → (bits : ℕ) → State → Ref × State
  pub create_trunc : Ref → (bits : ℕ) → State → Ref × State
  pub create_read : (offset : ℕ) → State → Ref × State
  pub create_extract : Ref → (index bits : ℕ) → State → Ref × State
  pub bool_to_bit : Ref → (bits : ℕ) → State → Ref × State
  -- Methods that are called on the raw pointer.
  pub bits : ℕ → ℕ
  pub to_string : ℕ → List ℕ
  pub simplify : ℕ → State → State
  pub to_z3_expr : ℕ → State → Z3Expr × State
  pub add_jcc : Ref → (taken : Bool) → (site : ℕ) → State → State
  pub solver_push : State → State
  pub solver_add : Z3Expr → State → State
  pub is_sat : State → Bool × State
  pub solver_pop : State → State
  pub visit_call : (site : ℕ) → State → State
  pub visit_ret : (site : ℕ) → State → State
  pub visit_basic_block : (site : ℕ) → State → State

-- `inputs` is the solver's copy of the input.
pub record QsymState (Q : Qsym) : Type 0 where
  pub library : Q.State
  pub allocated_expressions : List (ℕ × Q.Ref)
  pub inputs : List ℕ

module _ (Q : Qsym) where
  abbrev pub QsymRun : Type 0 → Type 0
  QsymRun A = Cmd (QsymState Q) A

  unfoldable pub register_expression : Q.Ref → QsymRun ℕ
  register_expression expr s =
      let raw_expr = Q.get expr in
      some (
        raw_expr,
        if is_some (lookup raw_expr s.allocated_expressions)
            then s
            else record s { allocated_expressions = insert raw_expr expr s.allocated_expressions },
      )

  -- `allocatedExpressions.at(expr)`
  abbrev pub at : ℕ → QsymRun Q.Ref
  at expr s = elim (lookup expr s.allocated_expressions) [ none ↦ none | some ref ↦ some (ref, s) ]

  -- A call of the library.
  abbrev pub call : {A : Type 0} → (Q.State → A × Q.State) → QsymRun A
  call f s = let (a, t) = f s.library in some (a, record s { library = t })

  abbrev pub tell : (Q.State → Q.State) → QsymRun (Unit {0})
  tell f s = some (tt, record s { library = f s.library })

  unfoldable pub build_integer : (value bits : ℕ) → QsymRun ℕ
  build_integer value bits = call (Q.create_constant value bits) >>= register_expression

  unfoldable pub build_integer128 : (high low : ℕ) → QsymRun ℕ
  build_integer128 high low = call (Q.create_wide_constant low high 128) >>= register_expression

  unfoldable pub build_null_pointer : QsymRun ℕ
  build_null_pointer = call (Q.create_constant 0 64) >>= register_expression

  unfoldable pub build_true : QsymRun ℕ
  build_true = call Q.create_true >>= register_expression

  unfoldable pub build_false : QsymRun ℕ
  build_false = call Q.create_false >>= register_expression

  unfoldable pub build_bool : Bool → QsymRun ℕ
  build_bool value = call (Q.create_bool value) >>= register_expression

  unfoldable pub build_binary : BinaryOp → ℕ → ℕ → QsymRun ℕ
  build_binary op a b = do
    ra ← at a
    rb ← at b
    call (Q.create_binary (qsym_name op) ra rb) >>= register_expression

  unfoldable pub build_neg : ℕ → QsymRun ℕ
  build_neg expr = do ref ← at expr; call (Q.create_neg ref) >>= register_expression

  unfoldable pub build_not : ℕ → QsymRun ℕ
  build_not expr = do ref ← at expr; call (Q.create_not ref) >>= register_expression

  -- The source calls `bits` on the raw pointer, before or after the look-up. For a pointer that is not
  -- registered the first is undefined behaviour, and the run stops here, too.
  unfoldable pub build_sext : (expr bits : ℕ) → QsymRun ℕ
  build_sext expr bits = do
    ref ← at expr
    call (Q.create_sext ref (bits + Q.bits expr)) >>= register_expression

  unfoldable pub build_zext : (expr bits : ℕ) → QsymRun ℕ
  build_zext expr bits = do
    ref ← at expr
    call (Q.create_zext ref (bits + Q.bits expr)) >>= register_expression

  unfoldable pub build_trunc : (expr bits : ℕ) → QsymRun ℕ
  build_trunc expr bits = do ref ← at expr; call (Q.create_trunc ref bits) >>= register_expression

  unfoldable pub concat_helper : ℕ → ℕ → QsymRun ℕ
  concat_helper a b = do
    ra ← at a
    rb ← at b
    call (Q.create_binary create_concat ra rb) >>= register_expression

  -- The arithmetic is that of `size_t`.
  unfoldable pub extract_helper : (expr first_bit last_bit : ℕ) → QsymRun ℕ
  extract_helper expr first last = do
    ref ← at expr
    call (Q.create_extract ref last ((first + 2 ^ 64 - last + 1) % 2 ^ 64)) >>= register_expression

  unfoldable pub bits_helper : ℕ → ℕ
  bits_helper expr = Q.bits expr

  unfoldable pub build_bool_to_bit : ℕ → QsymRun ℕ
  build_bool_to_bit expr = do ref ← at expr; call (Q.bool_to_bit ref 1) >>= register_expression
