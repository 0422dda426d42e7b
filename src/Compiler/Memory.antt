-- ===== src/Compiler/Memory.antt =====
-- The visitors of compiler/Symbolizer.cpp for memory, aggregates, PHI nodes and switches, and the end of the
-- processing of PHI nodes.
pub mod Emitted
use symcc.Common.{
  ℕ, ◌+◌, ◌%◌, ◌^◌, Bool, true, false, not, ◌&&◌, Option, none, some, List, [], ◌∷◌, ◌++◌, ◌==◌,
  is_some, if◌then◌else◌, length, map,
}
use symcc.Common.Cmd.{pure, ◌>>=◌, ◌>>◌, keep, when}
use symcc.Compiler.Ir.{Ty, integer, floating, pointer, DataLayout, int_ptr_type, is_little_endian}
use symcc.Compiler.Handlers.{
  build_equal, build_bits_to_float, build_float_to_bits, push_switch_constraint, read_memory,
  write_memory, build_insert, build_extract,
}
use symcc.Compiler.Emission.{
  ptr_to_int, Value, local, emitted, constant_int, null_pointer, convert, equal, type_of, Place,
  before, constraint_block, Code, call, select, phi, PhiNode, State, get_symbolic_expression,
  get_symbolic_expression_or_null, Emit, expression, expression_or_null, set_expression, create,
  get_target_preferred_int, int_ptr, create_call, concretize_pointer_at,
}
use symcc.Compiler.Values.{int8, int1, create_value_expression}
use symcc.Compiler.Offsets.{aggregate_member_offset}
use symcc.Compiler.Visitors.{is_double_ty, symbolize}

abbrev pub is_floating : Ty → Bool
is_floating (floating b) = true
is_floating _ = false

abbrev pub flag8 : Bool → Value
flag8 b = constant_int 8 (if b then 1 else 0)

module _ (L : DataLayout) (address : Value → ℕ) where
  -- The expression of a floating-point value from that of its bits, and back.
  unfoldable pub as_float : (id : ℕ) → Ty → Value → Emit Value
  as_float id t read =
      if is_floating t
      then create_call L address (before id) build_bits_to_float (read ∷ int1 (is_double_ty t) ∷ [])
      else pure read

  unfoldable pub as_bits : (id : ℕ) → Ty → Value → Emit Value
  as_bits id t expr =
      if is_floating t
      then create_call L address (before id) build_float_to_bits (expr ∷ [])
      else pure expr

  unfoldable pub visit_load_inst : (id : ℕ) → Ty → (addr : Value) → Emit (Unit {0})
  visit_load_inst id t addr = do
    pointer_expr ← expression_or_null addr
    concretize_pointer_at L address (before id) addr
    read ← create_call L address (before id) read_memory (
        pointer_expr
        ∷ convert ptr_to_int addr (int_ptr_type L)
        ∷ int_ptr L address (L.type_store_size t)
        ∷ flag8 (is_little_endian L t)
        ∷ [])
    value ← as_float id t read
    set_expression id (some value)

  unfoldable pub visit_store_inst : (id : ℕ) → (value addr : Value) → Emit (Unit {0})
  visit_store_inst id value addr = do
    symbolic_addr ← expression_or_null addr
    concretize_pointer_at L address (before id) addr
    expr ← expression_or_null value
    written ← as_bits id (type_of value) expr
    create_call L address (before id) write_memory (
        symbolic_addr
        ∷ written
        ∷ convert ptr_to_int addr (int_ptr_type L)
        ∷ int_ptr L address (L.type_store_size (type_of value))
        ∷ flag8 L.little_endian
        ∷ [])
    pure tt

  abbrev pub int64 : ℕ → Value
  int64 n = constant_int 64 (n % 2 ^ 64)

  unfoldable pub visit_insert_value_inst :
      (id : ℕ) → (aggregate inserted : Value) → List ℕ → Emit (Unit {0})
  visit_insert_value_inst id aggregate inserted indices = do
    offset ← keep (aggregate_member_offset L (type_of aggregate) indices)
    symbolize L address id build_insert (
        (aggregate, true)
        ∷ (inserted, true)
        ∷ (int64 offset, false)
        ∷ (flag8 (is_little_endian L (type_of inserted)), false)
        ∷ [])

  unfoldable pub visit_extract_value_inst :
      (id : ℕ) → Ty → (aggregate : Value) → List ℕ → Emit (Unit {0})
  visit_extract_value_inst id t aggregate indices = do
    offset ← keep (aggregate_member_offset L (type_of aggregate) indices)
    symbolize L address id build_extract (
        (aggregate, true)
        ∷ (int64 offset, false)
        ∷ (int64 (L.type_store_size t), false)
        ∷ (flag8 (is_little_endian L t), false)
        ∷ [])

  -- The calls for the cases from `i` on, under the test whether the condition is symbolic.
  unfoldable pub switch_cases :
      (id : ℕ)
      → Ty
      → (condition condition_expr : Value) → (cases : List Value) → (i num_cases : ℕ)
      → Emit (Unit {0})
  switch_cases id t condition condition_expr [] i num_cases = pure tt
  switch_cases id t condition condition_expr (c ∷ cases) i num_cases = do
    value_expr ← create_value_expression L address (constraint_block id) c
    case_constraint ←
        create_call L address (constraint_block id) build_equal (condition_expr ∷ value_expr ∷ [])
    create_call L address (constraint_block id) push_switch_constraint (
        case_constraint
        ∷ equal condition c
        ∷ get_target_preferred_int L address (local id t)
        ∷ int_ptr L address i
        ∷ int_ptr L address num_cases
        ∷ [])
    switch_cases id t condition condition_expr cases (i + 1) num_cases

  -- The condition's expression, if it has one.
  unfoldable pub switch_on :
      (id : ℕ) → Ty → (condition : Value) → (cases : List Value) → Option Value → Emit (Unit {0})
  switch_on id t condition cases none = pure tt
  switch_on id t condition cases (some e) = switch_cases id t condition e cases 0 (length cases)

  unfoldable pub visit_switch_inst :
      (id : ℕ) → Ty → (condition : Value) → (cases : List Value) → Emit (Unit {0})
  visit_switch_inst id t condition cases = do
    e ← expression condition
    switch_on id t condition cases e

abbrev pub add_phi_node : PhiNode → Emit (Unit {0})
add_phi_node p s = some (tt, record s { phi_nodes = s.phi_nodes ++ p ∷ [] })

-- A dummy node with null for each incoming value, to be finished later.
unfoldable pub visit_phi_node : (id : ℕ) → (incoming : List Value) → Emit (Unit {0})
visit_phi_node id incoming = do
  add_phi_node (record { node = id; incoming = incoming })
  expr_phi ← create (before id) (phi (map (λ v. null_pointer) incoming)) pointer
  set_expression id (some expr_phi)
