-- ===== src/Compiler/Passing/Computations.antt =====
-- A symbolic computation from its registration in compiler/Symbolizer.h to the run of the code into which
-- `shortCircuitExpressionUses` of compiler/Symbolizer.cpp wraps it.
pub mod Inputs
pub mod Results
use mathlib.Core.Option.{some-injective}
use symcc.Common.{==_refl}
use symcc.Common.{
  arith, ℕ, zero, suc, ◌+◌, ◌<◌, ◌≤◌, ◌≡◌, refl, sym, ap, ◌∙◌, Bool, true, false, not, ◌&&◌, Option,
  none, some, List, [], ◌∷◌, ◌++◌, ◌==◌, if◌then◌else◌, map, get_elem?, is_some, subst,
  Option-cases, Bool-cases, inl, inr,
}
use symcc.Backend.{Backend}
use symcc.Compiler
use symcc.Compiler.{
  CheckedComputation, short_circuit_expression_uses, run_short_circuit, all_concrete,
  is_null_pointer,
}
use symcc.Compiler.ShortCircuit.{expected, fits, short_circuit_expression_uses_lem}
use symcc.Compiler.Emission.{
  Value, type_of, null_pointer, emitted, Code, call, Emitted, Input, SymbolicComputation, State,
  inputs_from, all_null, before, last_value, Place, build_runtime_call, force_build_runtime_call,
  create_call, register_if_any, register_symbolic_computation, function_args, all_symbolic,
  get_symbolic_expression_or_null, get_symbolic_expression, select, phi,
}
use symcc.Compiler.Emission.WellFormed.{Emissions, Uses, no_more, next_use, IsWellFormed}
use symcc.Compiler.Ir.{pointer, DataLayout}
use symcc.Compiler.Handlers.{Function, BinaryOps}
use symcc.Common.Cmd.{Returns, returns}
use symcc.Compiler.Visitors.{symbolize, binary_handler, visit_binary_operator}
use symcc.Compiler.Emission
use symcc.Compiler.Passing.{Frame, expression_value, expression_in, expression_in-none}

abbrev pub call_operands : Code → List Value
call_operands (call f args) = args
call_operands (select c a b) = c ∷ a ∷ b ∷ []
call_operands (phi values) = values

abbrev pub called_function : Code → Option Function
called_function (call f args) = some f
called_function _ = none

-- What is asked of the emitted instruction with a number.
abbrev pub of_number : {A : Type 0} → (missing : A) → (Code → A) → ℕ → List Emitted → A
of_number missing ask number [] = missing
of_number missing ask number (c ∷ cs) =
    let rest = of_number missing ask number cs in if c.number == number then ask c.code else rest

abbrev pub operands_of : ℕ → List Emitted → List Value
operands_of = of_number [] call_operands

abbrev pub value_at : List Value → ℕ → Value
value_at [] i = null_pointer
value_at (x ∷ xs) zero = x
value_at (x ∷ xs) (suc i) = value_at xs i

-- `getSymbolicOperand`
abbrev pub get_symbolic_operand : List Emitted → Input → Value
get_symbolic_operand code i = value_at (operands_of i.user code) i.operand_index

-- `isa<ConstantPointerNull>`
abbrev pub is_null_value : Value → Bool
is_null_value null_pointer = true
is_null_value _ = false

-- What is known of an input, and of an argument, when the pass has seen the whole function.
abbrev pub known_input : List Emitted → Input → Compiler.Input Value
known_input code i = record {
  is_null = is_null_value (get_symbolic_operand code i);
  concrete_value = i.concrete_value;
}

abbrev pub known_argument : State → Value → Compiler.Input Value
known_argument s v = record {
  is_null = is_null_value (get_symbolic_expression_or_null s v);
  concrete_value = v;
}

abbrev pub ends_at : ℕ → SymbolicComputation → Bool
ends_at number c = elim c.last_instruction [ none ↦ false | some k ↦ k == number ]

abbrev pub find_computation : ℕ → List SymbolicComputation → Option SymbolicComputation
find_computation number [] = none
find_computation number (c ∷ cs) =
    let rest = find_computation number cs in if ends_at number c then some c else rest

-- `create` is the run of the code that makes an expression for a value, and `compute` that of the
-- calls of a computation on its operands.
module _ (B : Backend) {S : Type 0} (create : Value → S → Option B.Expr × S)
    (compute : Function → List (Option B.Expr) → S → Option B.Expr × S) (frame : Frame B) where
  open B use {Expr}

  abbrev pub run_wrapped :
      Function
      → Option (CheckedComputation Value)
      → List (Option Expr)
      → S
      → Option (Option Expr × S)
  run_wrapped f none operands t = none
  run_wrapped f (some wrapped) operands t =
      some (run_short_circuit create (compute f) wrapped operands t)

  -- A registered computation of one call, wrapped. Without an input an assertion fails.
  abbrev pub run_computation :
      List Emitted → Function → SymbolicComputation → S → Option (Option Expr × S)
  run_computation code f c t =
      run_wrapped f (short_circuit_expression_uses (map (known_input code) c.inputs) true)
        (map (λ i. expression_value B frame (get_symbolic_operand code i)) c.inputs) t

  abbrev pub run_found :
      List Emitted → Option Function → Option SymbolicComputation → S → Option (Option Expr × S)
  run_found code (some f) (some c) t = run_computation code f c t
  run_found code _ _ t = none

  abbrev pub run_value : State → Option Value → S → Option (Option Expr × S)
  run_value s none t = some (none, t)
  run_value s (some (emitted n τ)) t =
      run_found s.code (of_number none called_function n s.code)
        (find_computation n s.expression_uses) t
  run_value s (some _) t = none

  -- The run that gives the expression of an instruction's result: null if it has none.
  abbrev pub run_result : State → (id : ℕ) → S → Option (Option Expr × S)
  run_result s id t = run_value s (s.symbolic_expressions id) t
