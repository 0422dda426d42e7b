-- ===== src/Compiler.antt =====
-- compiler/Symbolizer.cpp: `shortCircuitExpressionUses`, which wraps a symbolic computation, a sequence of
-- calls of the runtime, into tests that skip it when its inputs are concrete. The code that it
-- emits is data here, with an evaluation; the expressions, the values and the state of the running
-- program are parameters.
pub mod Addresses
pub mod Calls
pub mod Emission
pub mod Handlers
pub mod Ir
pub mod Memory
pub mod Offsets
pub mod Pass
pub mod Passing
pub mod Phis
pub mod ShortCircuit
pub mod Values
pub mod Visitors
use symcc.Common.{
  ℕ, zero, suc, ◌+◌, Bool, true, false, not, ◌&&◌, Option, none, some, List, [], ◌∷◌, ◌==◌,
  if◌then◌else◌,
}

-- An input of the computation: whether its expression is the null pointer at compile time already,
-- and its value.
pub record Input (V : Type 0) : Type 0 where
  pub is_null : Bool
  pub concrete_value : V

-- The code for one input in the slow path: the operand as it is, an expression that is created
-- for the value, or a test for null that creates one if need be.
pub data ArgumentCode (V : Type 0) : Type 0 where
  original : ArgumentCode V
  created : V → ArgumentCode V
  checked : V → ArgumentCode V

-- The code for a computation: the slow path, which a test that all operands are null skips.
pub record CheckedComputation (V : Type 0) : Type 0 where
  pub arguments : List (ArgumentCode V)
  pub result_used : Bool

module _ {V : Type 0} where
  -- `numUnknownConcreteness`
  abbrev pub count_unknown : List (Input V) → ℕ
  count_unknown [] = 0
  count_unknown (i ∷ is) = (if i.is_null then 0 else 1) + count_unknown is

  unfoldable pub emit_argument : (unknown : ℕ) → Input V → ArgumentCode V
  emit_argument unknown i =
      let need_runtime_check = not i.is_null in
      if need_runtime_check && (unknown == 1)
      then original
      else (if need_runtime_check then checked i.concrete_value else created i.concrete_value)

  unfoldable pub emit_arguments : (unknown : ℕ) → List (Input V) → List (ArgumentCode V)
  emit_arguments unknown [] = []
  emit_arguments unknown (i ∷ is) = emit_argument unknown i ∷ emit_arguments unknown is

  -- A computation has an input.
  unfoldable pub short_circuit_expression_uses :
      List (Input V) → (result_used : Bool) → Option (CheckedComputation V)
  short_circuit_expression_uses [] used = none
  short_circuit_expression_uses (i ∷ is) used =
      some (record {
        arguments = emit_arguments (count_unknown (i ∷ is)) (i ∷ is);
        result_used = used;
      })

module _ {E : Type 0} where
  abbrev pub is_null_pointer : Option E → Bool
  is_null_pointer none = true
  is_null_pointer (some e) = false

  -- The conjunction of the null checks.
  abbrev pub all_concrete : List (Option E) → Bool
  all_concrete [] = true
  all_concrete (e ∷ es) = is_null_pointer e && all_concrete es

-- The run of the emitted code. `create` is the code that makes an expression for a value, and
-- `compute` the computation itself, on its operands.
module _ {V E S : Type 0} (create : V → S → Option E × S)
    (compute : List (Option E) → S → Option E × S) where
  abbrev pub run_argument : ArgumentCode V → Option E → S → Option E × S
  run_argument original e s = (e, s)
  run_argument (created v) e s = create v s
  run_argument (checked v) none s = create v s
  run_argument (checked v) (some e) s = (some e, s)

  unfoldable pub run_arguments : List (ArgumentCode V) → List (Option E) → S → List (Option E) × S
  run_arguments [] es s = ([], s)
  run_arguments (c ∷ cs) [] s = ([], s)
  run_arguments (c ∷ cs) (e ∷ es) s =
      let (first, t) = run_argument c e s in
      let (rest, u) = run_arguments cs es t in (first ∷ rest, u)

  -- What the uses of the result see: null after the fast path. A result without uses has no node.
  unfoldable pub run_short_circuit : CheckedComputation V → List (Option E) → S → Option E × S
  run_short_circuit code operands s =
      if all_concrete operands
      then (none, s)
      else (let (arguments, t) = run_arguments code.arguments operands s in
          let (result, u) = compute arguments t in (if code.result_used then result else none, u))
