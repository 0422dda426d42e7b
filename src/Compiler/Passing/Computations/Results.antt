-- ===== src/Compiler/Passing/Computations/Results.antt =====
-- The result of a visitor of compiler/Symbolizer.cpp that registers one call, when its code runs.
use symcc.Common.{==_refl}
use symcc.Common.{
  arith, ℕ, ◌+◌, ◌≡◌, refl, sym, ap, ◌∙◌, Bool, true, Option, none, some, List, [], ◌∷◌, ◌++◌,
  if◌then◌else◌, map, Bool-cases, inl, inr,
}
use symcc.Backend.{Backend}
use symcc.Compiler.{CheckedComputation, short_circuit_expression_uses}
use symcc.Compiler.ShortCircuit.{expected, short_circuit_expression_uses_lem}
use symcc.Compiler.Emission.{
  Value, type_of, null_pointer, emitted, Code, call, Emitted, Input, SymbolicComputation, State,
  inputs_from, all_null, before, last_value, Place, build_runtime_call, force_build_runtime_call,
  create_call, register_if_any, register_symbolic_computation, function_args, all_symbolic,
  get_symbolic_expression_or_null, get_symbolic_expression, select, phi,
}
use symcc.Compiler.Emission.WellFormed.{IsWellFormed}
use symcc.Compiler.Ir.{pointer, DataLayout}
use symcc.Compiler.Handlers.{Function, BinaryOps}
use symcc.Common.Cmd.{Returns, returns}
use symcc.Compiler.Visitors.{symbolize, binary_handler, visit_binary_operator}
use symcc.Compiler.Emission
use symcc.Compiler.Passing.{Frame, expression_in}
use symcc.Compiler.Passing.Computations.{
  value_at, call_operands, called_function, find_computation, run_found, run_value, run_wrapped,
  known_argument, run_computation, run_result,
}
use symcc.Compiler.Passing.Computations.Inputs.{
  of_number_last, find_computation_last, value_at_argument, inputs_known, inputs_expressions,
  arguments_fit, arguments_concrete, ArgumentsFrom,
}

-- A call with symbolic arguments, the next one of a state, as a computation and as it is registered.
module _ (s : State) (f : Function) (args : List Value) (id : ℕ) where
  abbrev next_call : Emitted
  next_call = record {
    number = s.next;
    place = before id;
    code = call f (function_args s (all_symbolic args));
  }

  abbrev next_computation : SymbolicComputation
  next_computation = record {
    first_instruction = some s.next;
    last_instruction = some s.next;
    inputs = inputs_from (all_symbolic args) 0 s.next;
  }

  abbrev registered : Bool → State
  registered is_id = record s {
    next = s.next + 1;
    code = s.code ++ next_call ∷ [];
    symbolic_expressions =
        λ k. if is_id then some (emitted s.next pointer) else s.symbolic_expressions id;
    expression_uses = s.expression_uses ++ next_computation ∷ [];
  }

module _ (L : DataLayout) (address : Value → ℕ) (B : Backend) {S : Type 0}
    (create : Value → S → Option B.Expr × S)
    (compute : Function → List (Option B.Expr) → S → Option B.Expr × S) (frame : Frame B) where
  -- What the wrapped computation of a call with symbolic arguments gives.
  call_run :
      (s : State) (f : Function) (v : Value) (args : List Value) (id : ℕ) (t : S)
      → IsWellFormed L s.next s
      → run_computation B create compute frame
          (s.code ++ next_call s f (v ∷ args) id ∷ [])
          f
          (next_computation s f (v ∷ args) id)
          t
        ≡ some (
            expected create
              (compute f)
              (map (known_argument s) (v ∷ args))
              true
              (map (expression_in B frame s) (v ∷ args))
              t)
  call_run s f v args id t w =
      let code = s.code ++ next_call s f (v ∷ args) id ∷ [] in
      let at : ArgumentsFrom s code s.next 0 (v ∷ args) = λ i x e.
        ap (λ (vs : List Value). value_at vs (0 + i))
          (of_number_last [] call_operands L 0 s.next s.code (next_call s f (v ∷ args) id)
            w.emissions refl)
        ∙ ap (value_at (function_args s (all_symbolic (v ∷ args)))) (omega arith)
        ∙ value_at_argument s (v ∷ args) i x e in
      let known = inputs_known s code s.next 0 (v ∷ args) at in
      let operands = inputs_expressions s code s.next B frame 0 (v ∷ args) at in
      let (wrapped, made, ran) =
        short_circuit_expression_uses_lem create (compute f) (known_argument s v)
          (map (known_argument s) args) true (map (expression_in B frame s) (v ∷ args)) t
          (arguments_fit B create (compute f) frame s (v ∷ args)) in
      (λ k.
        run_wrapped B create compute frame f (short_circuit_expression_uses (known k) true)
          (operands k) t)
      ∙ ap
          (λ (o : Option (CheckedComputation Value)).
            run_wrapped B create compute frame f o (map (expression_in B frame s) (v ∷ args)) t)
          made
      ∙ ap some ran

  expected_quick :
      (f : Function) (args : List Value) (s : State) (t : S)
      → all_null s (all_symbolic args) ≡ true
      → expected create
          (compute f)
          (map (known_argument s) args)
          true
          (map (expression_in B frame s) args)
          t
        ≡ (none, t)
  expected_quick f args s t h = rw (arguments_concrete B create (compute f) frame s args h) refl

  pub symbolize-run_result :
      (s : State) (id : ℕ) (f : Function) (v : Value) (args : List Value) (t : S)
      → IsWellFormed L s.next s
      → s.symbolic_expressions id ≡ none
      → Returns
          (λ _ u.
            run_result B create compute frame u id t
            ≡ some (
                expected create
                  (compute f)
                  (map (known_argument s) (v ∷ args))
                  true
                  (map (expression_in B frame s) (v ∷ args))
                  t))
          (symbolize L address id f (all_symbolic (v ∷ args)) s)
  unfolding symbolize build_runtime_call force_build_runtime_call create_call Emission.create
      register_if_any register_symbolic_computation
  symbolize-run_result s id f v args t w free =
      elim (Bool-cases (all_null s (all_symbolic (v ∷ args)))) [
        | inl concrete ↦ rw concrete (
            returns (
              ap (λ (o : Option Value). run_value B create compute frame s o t) free
              ∙ ap some (sym (expected_quick f (v ∷ args) s t concrete))))
        | inr symbolic ↦ rw symbolic (
            returns (
              ap
                (λ (b : Bool).
                  run_result B create compute frame (registered s f (v ∷ args) id b) id t)
                (==_refl id)
              ∙ ap
                  (λ (o : Option Function).
                    run_found B create compute frame (s.code ++ next_call s f (v ∷ args) id ∷ []) o
                      (find_computation s.next
                        (s.expression_uses ++ next_computation s f (v ∷ args) id ∷ []))
                      t)
                  (of_number_last none called_function L 0 s.next s.code
                    (next_call s f (v ∷ args) id) w.emissions refl)
              ∙ ap
                  (λ (o : Option SymbolicComputation).
                    run_found B create compute frame (s.code ++ next_call s f (v ∷ args) id ∷ [])
                      (some f) o t)
                  (find_computation_last 0 s.next s.expression_uses
                    (next_computation s f (v ∷ args) id) s.next w.uses (omega arith) refl)
              ∙ call_run s f v args id t w))
      ]

  -- After a binary operator whose operation the pass handles by a function of the runtime was visited, in a
  -- well-formed state without an expression for it: the emitted code, wrapped into the tests for
  -- null, gives null for its result where both operands are null at run time, and else what the
  -- function gives for the operands, of which one that is null is replaced by an expression created
  -- for its value. The run of the code that creates expressions, and that of the function, are any.
  pub visit_binary_operator-run_result :
      (s : State) (id : ℕ) (opcode : BinaryOps) (a b : Value) (f : Function) (t : S)
      → binary_handler opcode (type_of a) ≡ some f
      → IsWellFormed L s.next s
      → s.symbolic_expressions id ≡ none
      → Returns
          (λ _ u.
            run_result B create compute frame u id t
            ≡ some (
                expected create
                  (compute f)
                  (map (known_argument s) (a ∷ b ∷ []))
                  true
                  (map (expression_in B frame s) (a ∷ b ∷ []))
                  t))
          (visit_binary_operator L address id opcode a b s)
  unfolding visit_binary_operator
  visit_binary_operator-run_result s id opcode a b f t h w free =
      rw h (symbolize-run_result s id f a (b ∷ []) t w free)
