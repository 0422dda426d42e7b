-- ===== src/Compiler/Passing/Arguments.antt =====
-- The expressions of arguments on their way from the caller to the callee: handleFunctionCall and
-- symbolizeFunctionArguments of compiler/Symbolizer.cpp, on the storage of runtime/RuntimeCommon.cpp.
pub mod Callee
pub mod Caller
use mathlib.Core.Option.{some-injective}
use native.Mathlib.Nat.{mod-eq_of_lt}
use symcc.Common.{
  arith, ℕ, zero, suc, ◌+◌, ◌%◌, ◌^◌, ◌≤◌, ◌<◌, ◌≡◌, refl, sym, ap, ◌∙◌, Bool, true, false, Option,
  none, some, List, [], ◌∷◌, length, get_elem?, get_elem?-lt, ◌==◌, if◌then◌else◌, ◌≢◌,
}
use symcc.Common.Cmd.{
  Returns, returns, Returns-bind, Returns-mono, Returns-of, and_then, when, ◌>>◌,
}
use symcc.Backend.{Backend}
use symcc.Runtime.{Machine}
use symcc.Runtime
use symcc.Compiler.Ir.{Ty, pointer, DataLayout}
use symcc.Compiler.Handlers.{
  result, set_parameter_expression, get_parameter_expression, notify_call, notify_ret,
  set_return_expression, get_return_expression,
}
use symcc.Compiler.Emission.{
  Value, local, emitted, before, return_point, function_entry, State, empty_state, null_pointer,
  create_call, get_symbolic_expression_or_null, get_symbolic_expression,
}
use symcc.Compiler.Values.{int8}
use symcc.Compiler.Calls.{
  direct, Parameter, set_parameters, symbolize_arguments, symbolize_function_arguments,
  concretize_callee, notify_function_call, handle_function_call, expression_from,
}
use symcc.Compiler.Passing.{
  Frame, Activation, execute, code_at, Ran, create_call-Ran, create_call-Ran_elsewhere,
  expression_in, empty-Ran, execute_at, enter, expression_in_map, store, before-same,
  expression_in-same,
}
use symcc.Compiler.Passing.Arguments.Caller.{handle_function_call-Prepared}
use symcc.Compiler.Passing.Arguments.Callee.{AreDistinct, symbolize_arguments-Received}

module _ (B : Backend) (outer inner : Value → ℕ) (L : DataLayout) (address : Value → ℕ) where
  -- Where nothing of the pass stands before the call yet, and the call has at most 256 arguments: after the
  -- code before a direct call of a function other than `main` and that at the entry of the callee, the expression of a used
  -- parameter in the callee is that of the argument at the same place in the caller. The parameters
  -- are different values. The code of both functions comes to its end.
  pub symbolize_function_arguments-handle_function_call :
      (s : State) (id : ℕ) (t : Ty) (args : List Value) (is_used is_main : Bool)
      (ps : List Parameter) (frame : Frame B) (m : Machine B) (i : ℕ) (v : Value) (p : Parameter)
      (τ : Ty)
      → is_main ≡ false
      → code_at (before id) s.code ≡ []
      → length args ≤ 256
      → AreDistinct ps
      → get_elem? args i ≡ some v
      → get_elem? ps i ≡ some p
      → p.is_used ≡ true
      → Returns
          (λ _ u.
            Returns
              (λ _ w.
                Returns
                  (λ _ (results, _).
                    expression_in B results w (local p.id τ) ≡ expression_in B frame s v)
                  (enter B outer inner u w id frame m))
              (symbolize_function_arguments L address is_main ps empty_state))
          (handle_function_call L address id t direct args is_used s)
  unfolding symbolize_function_arguments
  symbolize_function_arguments-handle_function_call s id t args is_used is_main ps frame m i v p τ
        other h l d e q used =
      Returns-mono (handle_function_call-Prepared B outer L address s id t args is_used frame m h l)
        λ _ u x. rw other (
          Returns-mono
            (symbolize_arguments-Received B inner L address 0 ps empty_state
              ((λ k. none), x.machine) (λ k. none) x.machine d refl)
            λ _ w y.
              Returns-of tt (y.results, x.machine)
                (ap
                    (λ (r : Option (Unit {0} × Activation B)).
                      and_then r (λ _ a. execute_at B inner function_entry w ((λ k. none), a.1)))
                    x.ran
                  ∙ y.ran)
                (y.found i p τ q used (omega (arith, get_elem?-lt args i e, l))
                  ∙ ap x.machine.function_arguments (omega arith)
                  ∙ x.given i v e))
