-- ===== src/Compiler/Addresses.antt =====
-- `visitGetElementPtrInst` of compiler/Symbolizer.cpp: the calls that compute an address from a symbolic
-- pointer and symbolic indices.
pub mod Contributions
pub mod Correct
pub mod Scaling
pub mod Sums
pub mod Emitted
use symcc.Common.{
  ℕ, ◌+◌, ◌-◌, ◌*◌, ◌%◌, ◌^◌, Bool, true, false, not, ◌&&◌, Option, none, some, List, [], ◌∷◌, ◌==◌,
  is_some, if◌then◌else◌,
}
use symcc.Common.Cmd.{pure, ◌>>=◌}
use symcc.Compiler.Ir.{Ty, integer, DataLayout}
use symcc.Compiler.Handlers.{build_sext, build_mul, build_add}
use symcc.Compiler.Emission.{
  Value, constant_int, type_of, Place, before, SymbolicComputation, empty_computation, last_value,
  merge, State, get_symbolic_expression, Emit, int_ptr, force_build_runtime_call,
  register_symbolic_computation, set_expression,
}

-- What `gep_type_iterator` gives for one index: a member of a structure, whose index is a
-- constant, or an element, with the type that is indexed.
pub data Step : Type 0 where
  member_step : (name index : ℕ) → Step
  element_step : (indexed_type : Ty) (index : Value) → Step

abbrev pub operand : Step → Value
operand (member_step s i) = constant_int 32 i
operand (element_step t v) = v

-- A constant integer that is zero.
abbrev pub is_zero : Value → Bool
is_zero (constant_int w n) = n == 0
is_zero _ = false

abbrev pub all_zero : List Step → Bool
all_zero [] = true
all_zero (x ∷ xs) = is_zero (operand x) && all_zero xs

abbrev pub all_concrete : State → List Step → Bool
all_concrete s [] = true
all_concrete s (x ∷ xs) = not (is_some (get_symbolic_expression s (operand x))) && all_concrete s xs

abbrev pub integer_bit_width : Ty → ℕ
integer_bit_width (integer w) = w
integer_bit_width _ = 0

module _ (L : DataLayout) (address : Value → ℕ) where
  -- The product of an index and the size of an element. The number of bits by which the index is
  -- extended is an 8-bit constant, computed from two `unsigned int`.
  unfoldable pub scale :
      Place → (element_size : ℕ) → Value → SymbolicComputation → Emit SymbolicComputation
  scale place element_size index c =
      let width = integer_bit_width (type_of index) in
      if not (width == L.ptr_bits)
      then (do
        extended ←
            force_build_runtime_call L address place build_sext (
              (index, true)
              ∷ (constant_int 8 ((L.ptr_bits + (2 ^ 32 - width)) % 2 ^ 8), false)
              ∷ [])
        let c' = merge c extended
        product ←
            force_build_runtime_call L address place build_mul
              ((last_value c', false) ∷ (int_ptr L address element_size, true) ∷ [])
        pure (merge c' product))
      else (do
        product ←
            force_build_runtime_call L address place build_mul
              ((index, true) ∷ (int_ptr L address element_size, true) ∷ [])
        pure (merge c product))

  -- The last addition of one round. The address so far is the pointer operand in the first one.
  unfoldable pub add_contribution :
      Place
      → (contribution : Value × Bool) (current : Value × Bool) → SymbolicComputation
      → Emit SymbolicComputation
  add_contribution place contribution current c = do
    sum ← force_build_runtime_call L address place build_add (contribution ∷ current ∷ [])
    pure (merge c sum)

  -- One round: the computation so far and the address, with a mark if that is the pointer operand
  -- still. Sizes and offsets are `unsigned int`.
  unfoldable pub address_step :
      Place → Step → SymbolicComputation × Value × Bool → Emit (SymbolicComputation × Value × Bool)
  address_step place (member_step name index) (c, current, first) = do
    let offset = L.element_offset name (index % 2 ^ 32) % 2 ^ 32
    c' ← add_contribution place (int_ptr L address offset, true) (current, first) c
    pure (c', last_value c', false)
  address_step place (element_step t index) (c, current, first) =
      if is_zero index then pure (c, current, first) else (do
        scaled ← scale place (L.type_alloc_size t % 2 ^ 32) index c
        c' ← add_contribution place (last_value scaled, false) (current, first) scaled
        pure (c', last_value c', false))

  unfoldable pub address_steps :
      Place
      → List Step
      → SymbolicComputation × Value × Bool
      → Emit (SymbolicComputation × Value × Bool)
  address_steps place [] acc = pure acc
  address_steps place (x ∷ xs) acc = do acc' ← address_step place x acc; address_steps place xs acc'

  unfoldable pub visit_get_element_ptr_inst :
      (id : ℕ) → (pointer_operand : Value) → List Step → Emit (Unit {0})
  visit_get_element_ptr_inst id ptr steps s =
      if not (is_some (get_symbolic_expression s ptr)) && all_concrete s steps
      then some (tt, s)
      else (if all_zero steps
          then set_expression id (get_symbolic_expression s ptr) s
          else ((do
            (c, current, first) ← address_steps (before id) steps (empty_computation, ptr, true)
            register_symbolic_computation c (some id))
              s))
