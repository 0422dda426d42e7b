-- ===== src/Compiler/Visitors.antt =====
-- The visitors of compiler/Symbolizer.cpp for instructions that compute a value, and those that push a path
-- constraint. Each takes the number of its instruction and what it asks of it.
pub mod Emitted
use symcc.Common.{
  ℕ, ◌+◌, ◌-◌, ◌*◌, ◌%◌, ◌^◌, Bool, true, false, not, ◌&&◌, ◌||◌, Option, none, some, List, [], ◌∷◌,
  ◌++◌, ◌==◌, is_some, if◌then◌else◌, length,
}
use symcc.Common.Cmd.{pure, ◌>>=◌, ◌>>◌, keep}
use symcc.Compiler.Ir.{Ty, integer, floating, pointer, DataLayout, is_little_endian}
use symcc.Compiler.Handlers.{
  BinaryOps, and_op, or_op, xor_op, Predicate, icmp_eq, Function, build_bool_and, build_bool_or,
  build_bool_xor, build_bool_to_bit, build_sext, build_zext, build_trunc, build_int_to_float,
  build_float_to_float, build_bits_to_float, build_float_to_bits, build_float_to_signed_int,
  build_float_to_unsigned_int, push_path_constraint, push_switch_constraint, build_insert,
  build_extract, binary_operator_handlers, comparison_handlers,
}
use symcc.Compiler.Emission.{
  Value, local, constant_int, null_pointer, equal, type_of, Place, before, constraint_block, select,
  phi, SymbolicComputation, empty_computation, last_value, merge, PhiNode, State,
  get_symbolic_expression, Emit, expression, expression_or_null, set_expression, create,
  all_symbolic, get_target_preferred_int, int_ptr, create_call, force_build_runtime_call,
  build_runtime_call, register_symbolic_computation, register_if_any,
}
use symcc.Compiler.Values.{int8, int1, create_value_expression}
use symcc.Compiler.Offsets.{aggregate_member_offset}
use symcc.Compiler.Addresses.{integer_bit_width}

abbrev pub is_boolean : Ty → Bool
is_boolean (integer w) = w == 1
is_boolean _ = false

abbrev pub boolean_handler : BinaryOps → Option Function
boolean_handler and_op = some build_bool_and
boolean_handler or_op = some build_bool_or
boolean_handler xor_op = some build_bool_xor
boolean_handler _ = none

-- The handler of a binary operator. On Booleans three operators have one of their own, and the
-- source does not reach the others.
unfoldable pub binary_handler : BinaryOps → (operand_type : Ty) → Option Function
binary_handler opcode t =
    if not (is_boolean t) then some (binary_operator_handlers opcode) else boolean_handler opcode

abbrev pub is_double_ty : Ty → Bool
is_double_ty (floating b) = b
is_double_ty _ = false

module _ (L : DataLayout) (address : Value → ℕ) where
  -- A call with its result, recorded as the expression of the instruction: the form that most
  -- visitors have.
  unfoldable pub symbolize : (id : ℕ) → Function → List (Value × Bool) → Emit (Unit {0})
  symbolize id f args = do
    c ← build_runtime_call L address (before id) f args
    register_if_any c (some id)

  unfoldable pub visit_binary_operator : (id : ℕ) → BinaryOps → Value → Value → Emit (Unit {0})
  visit_binary_operator id opcode a b = do
    handler ← keep (binary_handler opcode (type_of a))
    symbolize id handler (all_symbolic (a ∷ b ∷ []))

  unfoldable pub visit_cmp_inst : (id : ℕ) → Predicate → Value → Value → Emit (Unit {0})
  visit_cmp_inst id predicate a b = do
    handler ← keep (comparison_handlers predicate)
    symbolize id handler (all_symbolic (a ∷ b ∷ []))

  -- The constraint of a condition, which has no result.
  unfoldable pub push_condition : (id : ℕ) → Ty → Value → Emit (Unit {0})
  push_condition id t condition = do
    c ← build_runtime_call L address (before id) push_path_constraint (
        (condition, true)
        ∷ (condition, false)
        ∷ (get_target_preferred_int L address (local id t), false)
        ∷ [])
    register_if_any c none

  unfoldable pub visit_select_inst :
      (id : ℕ) → Ty → (condition true_value false_value : Value) → Emit (Unit {0})
  visit_select_inst id t condition true_value false_value = do
    push_condition id t condition
    λ s.
        if is_some (get_symbolic_expression s true_value)
          || is_some (get_symbolic_expression s false_value)
        then ((do
          a ← expression_or_null true_value
          b ← expression_or_null false_value
          chosen ← create (before id) (select condition a b) pointer
          set_expression id (some chosen))
            s)
        else some (tt, s)

  -- Only a conditional branch has a condition.
  unfoldable pub visit_branch_inst : (id : ℕ) → Ty → Option Value → Emit (Unit {0})
  visit_branch_inst id t none = pure tt
  visit_branch_inst id t (some condition) = push_condition id t condition

  -- A cast that keeps the expression, if there is one.
  unfoldable pub copy_expression : (id : ℕ) → Value → Emit (Unit {0})
  copy_expression id v = do e ← expression v; if is_some e then set_expression id e else pure tt

  -- By the types; other casts between them the source does not handle.
  unfoldable pub bit_cast_between : (id : ℕ) → Value → (src dest : Ty) → Emit (Unit {0})
  bit_cast_between id v (integer w) (floating is_double) =
      symbolize id build_bits_to_float ((v, true) ∷ (int1 is_double, false) ∷ [])
  bit_cast_between id v (floating is_double) (integer w) = do
    c ← build_runtime_call L address (before id) build_float_to_bits ((v, true) ∷ [])
    register_if_any c none
  bit_cast_between id v pointer pointer = copy_expression id v
  bit_cast_between id v _ _ = λ s. none

  unfoldable pub visit_bit_cast_inst : (id : ℕ) → (dest : Ty) → Value → Emit (Unit {0})
  visit_bit_cast_inst id dest v = bit_cast_between id v (type_of v) dest

  unfoldable pub visit_trunc_inst : (id : ℕ) → (dest : Ty) → Value → Emit (Unit {0})
  visit_trunc_inst id dest v =
      symbolize id build_trunc ((v, true) ∷ (int8 (integer_bit_width dest), false) ∷ [])

  unfoldable pub visit_int_to_ptr_inst : (id : ℕ) → Value → Emit (Unit {0})
  visit_int_to_ptr_inst id v = copy_expression id v

  unfoldable pub visit_ptr_to_int_inst : (id : ℕ) → Value → Emit (Unit {0})
  visit_ptr_to_int_inst id v = copy_expression id v

  unfoldable pub visit_si_to_fp_inst : (id : ℕ) → (dest : Ty) → Value → Emit (Unit {0})
  visit_si_to_fp_inst id dest v =
      symbolize id build_int_to_float
        ((v, true) ∷ (int1 (is_double_ty dest), false) ∷ (int1 true, false) ∷ [])

  unfoldable pub visit_ui_to_fp_inst : (id : ℕ) → (dest : Ty) → Value → Emit (Unit {0})
  visit_ui_to_fp_inst id dest v =
      symbolize id build_int_to_float
        ((v, true) ∷ (int1 (is_double_ty dest), false) ∷ (int1 false, false) ∷ [])

  unfoldable pub visit_fp_ext_inst : (id : ℕ) → (dest : Ty) → Value → Emit (Unit {0})
  visit_fp_ext_inst id dest v =
      symbolize id build_float_to_float ((v, true) ∷ (int1 (is_double_ty dest), false) ∷ [])

  unfoldable pub visit_fp_trunc_inst : (id : ℕ) → (dest : Ty) → Value → Emit (Unit {0})
  visit_fp_trunc_inst id dest v =
      symbolize id build_float_to_float ((v, true) ∷ (int1 (is_double_ty dest), false) ∷ [])

  unfoldable pub visit_fp_to_si : (id : ℕ) → (dest : Ty) → Value → Emit (Unit {0})
  visit_fp_to_si id dest v =
      symbolize id build_float_to_signed_int
        ((v, true) ∷ (int8 (integer_bit_width dest), false) ∷ [])

  unfoldable pub visit_fp_to_ui : (id : ℕ) → (dest : Ty) → Value → Emit (Unit {0})
  visit_fp_to_ui id dest v =
      symbolize id build_float_to_unsigned_int
        ((v, true) ∷ (int8 (integer_bit_width dest), false) ∷ [])

  -- By the function for the extension. A Boolean becomes a bit first, whether it is symbolic or not.
  unfoldable pub extend : (id : ℕ) → (target : Function) → (dest : Ty) → Value → Emit (Unit {0})
  extend id target dest v =
      let src_width = integer_bit_width (type_of v) in
      if src_width == 1
      then (do
        bit ← force_build_runtime_call L address (before id) build_bool_to_bit ((v, true) ∷ [])
        let c = merge empty_computation bit
        extended ←
            force_build_runtime_call L address (before id) target
              ((last_value c, false) ∷ (int8 (integer_bit_width dest - 1), false) ∷ [])
        register_symbolic_computation (merge c extended) (some id))
      else symbolize id target ((v, true) ∷ (int8 (integer_bit_width dest - src_width), false) ∷ [])

  -- A sign extension or a zero extension: the source's `visitCastInst`, which skips other casts.
  unfoldable pub visit_cast_inst :
      (id : ℕ) → (is_signed : Bool) → (dest : Ty) → Value → Emit (Unit {0})
  visit_cast_inst id is_signed dest v =
      extend id (if is_signed then build_sext else build_zext) dest v
