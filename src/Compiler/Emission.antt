-- ===== src/Compiler/Emission.antt =====
-- compiler/Symbolizer.h and the ends of compiler/Symbolizer.cpp: the state of the `Symbolizer` of one function,
-- the calls that it emits, and the record of symbolic computations. An instruction of the program
-- is a number, and so is one that is emitted, in the order of emission. What `IRBuilder` makes to
-- convert a concrete value is a value itself, and constants are not folded.
pub mod Meaning
pub mod Merging
pub mod Steps
pub mod Tracing
pub mod WellFormed
use symcc.Common.{
  ℕ, suc, ◌+◌, ◌%◌, ◌^◌, Bool, true, false, not, ◌&&◌, Option, none, some, List, [], ◌∷◌, ◌++◌,
  ◌==◌, is_some, if◌then◌else◌, map,
}
use symcc.Common.Cmd.{Cmd, pure, ◌>>=◌, ◌>>◌}
use symcc.Compiler.Ir.{Ty, integer, pointer, DataLayout, int_ptr_type}
use symcc.Compiler.Handlers.{Function, concretize_pointer, concretize_size, result}

pub data Conversion : Type 0 where
  ptr_to_int zext_or_trunc zext_or_bit_cast trunc fp_cast bit_cast : Conversion
  lshr : (amount : ℕ) → Conversion

-- `local` is an argument, an instruction or a block of the program, and `emitted` an instruction
-- of the pass. `equal` is a comparison of two concrete values, and `stored v` the address of a
-- variable on the stack that holds `v`.
pub data Value : Type 0 where
  local : (id : ℕ) → Ty → Value
  constant_int : (width value : ℕ) → Value
  null_pointer : Value
  emitted : (number : ℕ) → Ty → Value
  convert : Conversion → Value → Ty → Value
  equal : Value → Value → Value
  stored : Value → Value

abbrev pub type_of : Value → Ty
type_of (local id t) = t
type_of (constant_int w v) = integer w
type_of null_pointer = pointer
type_of (emitted n t) = t
type_of (convert c v t) = t
type_of (equal a b) = integer 1
type_of (stored v) = pointer

-- Where an emitted instruction stands: before an instruction of the program, where a call returns to,
-- at the entry of the function, at the start of a block, or under the test of a switch.
pub data Place : Type 0 where
  before return_point constraint_block block_start : (id : ℕ) → Place
  function_entry : Place

pub data Code : Type 0 where
  call : Function → List Value → Code
  select : (condition true_value false_value : Value) → Code
  phi : List Value → Code

pub record Emitted : Type 0 where
  pub number : ℕ
  pub place : Place
  pub code : Code

pub record Input : Type 0 where
  pub concrete_value : Value
  pub operand_index : ℕ
  pub user : ℕ

pub record SymbolicComputation : Type 0 where
  pub first_instruction : Option ℕ
  pub last_instruction : Option ℕ
  pub inputs : List Input

-- A PHI node of the program, with its incoming values.
pub record PhiNode : Type 0 where
  pub node : ℕ
  pub incoming : List Value

pub record State : Type 0 where
  pub next : ℕ
  pub code : List Emitted
  pub symbolic_expressions : ℕ → Option Value
  pub phi_nodes : List PhiNode
  pub expression_uses : List SymbolicComputation

abbrev pub empty_state : State
empty_state = record {
  next = 0;
  code = [];
  symbolic_expressions = λ id. none;
  phi_nodes = [];
  expression_uses = [];
}

abbrev pub empty_computation : SymbolicComputation
empty_computation = record { first_instruction = none; last_instruction = none; inputs = [] }

-- The last instruction as a value; before a merge there is none.
abbrev pub last_value : SymbolicComputation → Value
last_value c = elim c.last_instruction [ none ↦ null_pointer | some n ↦ emitted n pointer ]

-- `SymbolicComputation::merge`, with another computation.
unfoldable pub merge : SymbolicComputation → SymbolicComputation → SymbolicComputation
merge c other = record {
  first_instruction = elim c.first_instruction [ none ↦ other.first_instruction | some n ↦ some n ];
  last_instruction = other.last_instruction;
  inputs = c.inputs ++ other.inputs;
}

-- Only arguments and instructions are keys of the map, so a constant is not found.
unfoldable pub get_symbolic_expression : State → Value → Option Value
get_symbolic_expression s (local id t) = s.symbolic_expressions id
get_symbolic_expression s _ = none

unfoldable pub get_symbolic_expression_or_null : State → Value → Value
get_symbolic_expression_or_null s v = elim (get_symbolic_expression s v) [
  | none ↦ null_pointer
  | some e ↦ e
]

abbrev pub Emit : Type 0 → Type 0
Emit A = Cmd State A

-- The expression of a value, or null, as a step.
abbrev pub expression : Value → Emit (Option Value)
expression v s = some (get_symbolic_expression s v, s)

abbrev pub expression_or_null : Value → Emit Value
expression_or_null v s = some (get_symbolic_expression_or_null s v, s)

-- `symbolicExpressions[I] = e`
abbrev pub set_expression : (id : ℕ) → Option Value → Emit (Unit {0})
set_expression id e s =
    some
      (tt, record s { symbolic_expressions = λ k. if id == k then e else s.symbolic_expressions k })

-- `IRB.Create…`: the new instruction, with its type.
unfoldable pub create : Place → Code → Ty → Emit Value
create place code t s = some (
  emitted s.next t,
  record s {
    next = s.next + 1;
    code = s.code ++ record { number = s.next; place = place; code = code } ∷ [];
  },
)

-- The inputs of a call: its symbolic arguments.
unfoldable pub inputs_from : List (Value × Bool) → (index user : ℕ) → List Input
inputs_from [] index user = []
inputs_from ((arg, symbolic) ∷ args) index user =
    let rest = inputs_from args (index + 1) user in
    if symbolic
    then record { concrete_value = arg; operand_index = index; user = user } ∷ rest
    else rest

unfoldable pub function_args : State → List (Value × Bool) → List Value
function_args s [] = []
function_args s ((arg, symbolic) ∷ args) =
    (if symbolic then get_symbolic_expression_or_null s arg else arg) ∷ function_args s args

-- No argument has an expression.
unfoldable pub all_null : State → List (Value × Bool) → Bool
all_null s [] = true
all_null s ((arg, symbolic) ∷ args) =
    not (is_some (get_symbolic_expression s arg)) && all_null s args

abbrev pub all_symbolic : List Value → List (Value × Bool)
all_symbolic = map (λ v. (v, true))

-- With a concrete value, the result is its expression.
unfoldable pub register_symbolic_computation :
    SymbolicComputation → (concrete : Option ℕ) → Emit (Unit {0})
register_symbolic_computation c concrete s = some (
  tt,
  record s {
    symbolic_expressions = elim concrete [
      | none ↦ s.symbolic_expressions
      | some id ↦ λ k. if id == k then some (last_value c) else s.symbolic_expressions k
    ];
    expression_uses = s.expression_uses ++ c ∷ [];
  },
)

-- The overload for what `buildRuntimeCall` returns.
unfoldable pub register_if_any :
    Option SymbolicComputation → (concrete : Option ℕ) → Emit (Unit {0})
register_if_any none concrete = pure tt
register_if_any (some c) concrete = register_symbolic_computation c concrete

module _ (L : DataLayout) (address : Value → ℕ) where
  -- `getTargetPreferredInt`: a pointer to an object of the compiler, as an integer of the target.
  abbrev pub get_target_preferred_int : Value → Value
  get_target_preferred_int v = constant_int L.ptr_bits (address v % 2 ^ L.ptr_bits)

  -- `ConstantInt::get(intPtrType, n)`
  abbrev pub int_ptr : ℕ → Value
  int_ptr n = constant_int L.ptr_bits (n % 2 ^ L.ptr_bits)

  unfoldable pub create_call : Place → Function → List Value → Emit Value
  create_call place f args = create place (call f args) (result L f)

  unfoldable pub force_build_runtime_call :
      Place → Function → List (Value × Bool) → Emit SymbolicComputation
  force_build_runtime_call place f args s =
      (do
        c ← create_call place f (function_args s args)
        pure (record {
          first_instruction = some s.next;
          last_instruction = some s.next;
          inputs = inputs_from args 0 s.next;
        }))
        s

  unfoldable pub build_runtime_call :
      Place → Function → List (Value × Bool) → Emit (Option SymbolicComputation)
  build_runtime_call place f args s =
      if all_null s args
      then some (none, s)
      else ((do c ← force_build_runtime_call place f args; pure (some c)) s)

  -- Of a value with an expression.
  unfoldable pub concretize_pointer_of : Place → Value → Option Value → Emit (Unit {0})
  concretize_pointer_of place v none = pure tt
  concretize_pointer_of place v (some e) = do
    create_call place concretize_pointer
        (e ∷ convert bit_cast v pointer ∷ get_target_preferred_int v ∷ [])
    pure tt

  unfoldable pub concretize_pointer_at : Place → Value → Emit (Unit {0})
  concretize_pointer_at place v s = concretize_pointer_of place v (get_symbolic_expression s v) s

  unfoldable pub concretize_size_of : Place → Value → Option Value → Emit (Unit {0})
  concretize_size_of place v none = pure tt
  concretize_size_of place v (some e) = do
    create_call place concretize_size (e ∷ v ∷ get_target_preferred_int v ∷ [])
    pure tt

  unfoldable pub concretize_size_at : Place → Value → Emit (Unit {0})
  concretize_size_at place v s = concretize_size_of place v (get_symbolic_expression s v) s
