-- ===== src/Compiler/Calls.antt =====
-- The parts of compiler/Symbolizer.cpp for functions, blocks, calls and returns, and the dispatch over the
-- instructions of a function.
pub mod Emitted
use symcc.Common.{
  ℕ, ◌+◌, ◌%◌, ◌^◌, Bool, true, false, not, ◌&&◌, Option, none, some, List, [], ◌∷◌, ◌++◌, ◌==◌,
  is_some, if◌then◌else◌, map,
}
use symcc.Common.Cmd.{pure, ◌>>=◌, ◌>>◌, when}
use symcc.Compiler.Ir.{Ty, integer, pointer, unsized, DataLayout, int_ptr_type}
use symcc.Compiler.Handlers.{
  BinaryOps, Predicate, Function, build_bswap, build_float_abs, set_parameter_expression,
  get_parameter_expression, set_return_expression, get_return_expression, notify_call, notify_ret,
  notify_basic_block,
}
use symcc.Compiler.Emission.{
  zext_or_trunc, Value, local, constant_int, null_pointer, convert, Place, before, return_point,
  block_start, function_entry, State, Emit, expression_or_null, set_expression,
  get_target_preferred_int, create_call, concretize_pointer_at, all_symbolic,
}
use symcc.Compiler.Values.{int8}
use symcc.Compiler.Visitors.{symbolize, copy_expression}

-- The intrinsics that the source tells apart; `ignored` are those that it passes over in silence,
-- and `concretized` those with a warning.
pub data Intrinsic : Type 0 where
  memcpy memset memmove expect fabs bswap ignored concretized : Intrinsic

-- What is called: a function, or the address of one.
pub data Callee : Type 0 where
  intrinsic : Intrinsic → Callee
  direct : Callee
  indirect : Value → Callee

-- A parameter of a function, with whether it is used.
pub record Parameter : Type 0 where
  pub id : ℕ
  pub is_used : Bool

module _ (L : DataLayout) (address : Value → ℕ) where
  -- A call that gives the expression of a value of the program.
  unfoldable pub expression_from : Place → (id : ℕ) → Function → List Value → Emit (Unit {0})
  expression_from place id f args = do
    e ← create_call L address place f args
    set_expression id (some e)

  -- The arguments from number `n` on.
  unfoldable pub symbolize_arguments : List Parameter → (n : ℕ) → Emit (Unit {0})
  symbolize_arguments [] n = pure tt
  symbolize_arguments (p ∷ ps) n = do
    when p.is_used (expression_from function_entry p.id get_parameter_expression (int8 n ∷ []))
    symbolize_arguments ps (n + 1)

  unfoldable pub symbolize_function_arguments : (is_main : Bool) → List Parameter → Emit (Unit {0})
  symbolize_function_arguments is_main ps = if is_main then pure tt else symbolize_arguments ps 0

  unfoldable pub insert_basic_block_notification : (block : ℕ) → Emit (Unit {0})
  insert_basic_block_notification block = do
    create_call L address (block_start block) notify_basic_block
        (get_target_preferred_int L address (local block unsized) ∷ [])
    pure tt

  -- The three memory functions: the expressions of the operands, the operands, and the length as
  -- an integer that is as wide as a pointer.
  unfoldable pub memory_call : (id : ℕ) → Function → (a b length : Value) → Emit (Unit {0})
  memory_call id f a b length = do
    symbolic_a ← expression_or_null a
    symbolic_b ← expression_or_null b
    symbolic_length ← expression_or_null length
    create_call L address (before id) f (
        symbolic_a
        ∷ symbolic_b
        ∷ symbolic_length
        ∷ a
        ∷ b
        ∷ convert zext_or_trunc length (int_ptr_type L)
        ∷ [])
    pure tt

  -- An intrinsic with too few arguments is no code of LLVM.
  unfoldable pub handle_intrinsic_call : (id : ℕ) → Intrinsic → List Value → Emit (Unit {0})
  handle_intrinsic_call id Intrinsic.memcpy (dest ∷ src ∷ size ∷ _) =
      memory_call id Function.memcpy dest src size
  handle_intrinsic_call id Intrinsic.memset (dest ∷ value ∷ size ∷ _) =
      memory_call id Function.memset dest value size
  handle_intrinsic_call id Intrinsic.memmove (dest ∷ src ∷ size ∷ _) =
      memory_call id Function.memmove dest src size
  handle_intrinsic_call id expect (v ∷ _) = copy_expression L address id v
  handle_intrinsic_call id fabs (v ∷ _) =
      symbolize L address id build_float_abs (all_symbolic (v ∷ []))
  handle_intrinsic_call id bswap (v ∷ _) =
      symbolize L address id build_bswap (all_symbolic (v ∷ []))
  handle_intrinsic_call id ignored _ = pure tt
  handle_intrinsic_call id concretized _ = pure tt
  handle_intrinsic_call id _ _ = λ s. none

  unfoldable pub set_parameters : (id : ℕ) → List Value → (n : ℕ) → Emit (Unit {0})
  set_parameters id [] n = pure tt
  set_parameters id (arg ∷ args) n = do
    e ← expression_or_null arg
    create_call L address (before id) set_parameter_expression (int8 n ∷ e ∷ [])
    set_parameters id args (n + 1)

  unfoldable pub concretize_callee : (id : ℕ) → Callee → Emit (Unit {0})
  concretize_callee id (indirect v) = concretize_pointer_at L address (before id) v
  concretize_callee id _ = pure tt

  -- A call of a function that may be instrumented.
  unfoldable pub notify_function_call :
      (id : ℕ) → Ty → Callee → List Value → (is_used : Bool) → Emit (Unit {0})
  notify_function_call id t callee args is_used = do
    let site = get_target_preferred_int L address (local id t)
    create_call L address (return_point id) notify_ret (site ∷ [])
    create_call L address (before id) notify_call (site ∷ [])
    concretize_callee id callee
    set_parameters id args 0
    when is_used (do
      create_call L address (before id) set_return_expression (null_pointer ∷ [])
      expression_from (return_point id) id get_return_expression [])

  unfoldable pub handle_function_call :
      (id : ℕ) → Ty → Callee → List Value → (is_used : Bool) → Emit (Unit {0})
  handle_function_call id t (intrinsic i) args is_used = handle_intrinsic_call id i args
  handle_function_call id t callee args is_used = notify_function_call id t callee args is_used

  -- Inline assembly is passed over with a warning.
  unfoldable pub handle_inline_assembly : Emit (Unit {0})
  handle_inline_assembly = pure tt

  unfoldable pub visit_call_inst :
      (id : ℕ)
      → Ty
      → (is_inline_asm : Bool) → Callee
      → List Value
      → (is_used : Bool) → Emit (Unit {0})
  visit_call_inst id t is_inline_asm callee args is_used =
      if is_inline_asm
      then handle_inline_assembly
      else handle_function_call id t callee args is_used

  -- The return point of an invoke is in the block of the normal edge, which is split if it is critical.
  unfoldable pub visit_invoke_inst :
      (id : ℕ) → Ty → Callee → List Value → (is_used : Bool) → Emit (Unit {0})
  visit_invoke_inst id t callee args is_used = handle_function_call id t callee args is_used

  unfoldable pub visit_return_inst : (id : ℕ) → Option Value → Emit (Unit {0})
  visit_return_inst id none = pure tt
  visit_return_inst id (some v) = do
    e ← expression_or_null v
    create_call L address (before id) set_return_expression (e ∷ [])
    pure tt

  unfoldable pub visit_indirect_br_inst : (id : ℕ) → (addr : Value) → Emit (Unit {0})
  visit_indirect_br_inst id addr = concretize_pointer_at L address (before id) addr
