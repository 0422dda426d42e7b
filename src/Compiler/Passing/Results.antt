-- ===== src/Compiler/Passing/Results.antt =====
-- The expression of a result on its way from the callee to the caller: visitReturnInst and the last part
-- of handleFunctionCall of compiler/Symbolizer.cpp, on the storage of runtime/RuntimeCommon.cpp.
use symcc.Common.{
  arith, ℕ, ◌+◌, ◌≡◌, refl, ap, ◌∙◌, true, Option, none, some, List, [], ◌∷◌, length, ◌≤◌,
}
use symcc.Common.Cmd.{
  Returns, returns, Returns-bind, Returns-mono, Returns-of, Returns-and, and_then,
}
use symcc.Backend.{Backend}
use symcc.Runtime.{Machine}
use symcc.Runtime
use symcc.Compiler.Ir.{Ty, pointer, DataLayout}
use symcc.Compiler.Handlers.{
  result, notify_call, notify_ret, set_return_expression, get_return_expression,
}
use symcc.Compiler.Emission.{Value, local, emitted, before, return_point, State}
use symcc.Compiler.Calls.{
  direct, set_parameters, notify_function_call, handle_function_call, concretize_callee,
  expression_from, visit_return_inst,
}
use symcc.Compiler.Passing.{
  Frame, Activation, execute, code_at, Ran, create_call-Ran, create_call-Ran_elsewhere,
  expression_in, execute_at, empty-Ran, before-same, return_point-same, expression_in_map, store,
  leave, call_through,
}
use symcc.Compiler.Passing.Arguments.Caller.{handle_function_call-Prepared}

module _ (B : Backend) (env : Value → ℕ) (L : DataLayout) (address : Value → ℕ) where
  -- A call that is used, after it has returned with a machine.
  record Resumed (id : ℕ) (frame : Frame B) (m : Machine B) (u : State) : Type 0 where
    results : Frame B
    machine : Machine B
    ran : Ran B env (return_point id) u (frame, m) (results, machine)
    found : (τ : Ty) → expression_in B results u (local id τ) ≡ m.return_value
    emptied : machine.return_value ≡ none

  set_parameters-Ran :
      (id n : ℕ) (args : List Value) (s : State) (a b : Activation B)
      → Ran B env (return_point id) s a b
      → Returns (λ _ u. Ran B env (return_point id) u a b) (set_parameters L address id args n s)
  unfolding set_parameters
  set_parameters-Ran id n [] s a b r = returns r
  set_parameters-Ran id n (v ∷ args) s a b r =
      Returns-bind
        (create_call-Ran_elsewhere B env L address s a (return_point id) (before id) _ _ refl r)
        λ _ t (_, _, _, r'). set_parameters-Ran id (n + 1) args t a b r'

  handle_function_call-Resumed :
      (s : State) (id : ℕ) (t : Ty) (args : List Value) (frame : Frame B) (m : Machine B)
      → code_at (return_point id) s.code ≡ []
      → Returns
          (λ _ u. Resumed id frame m u)
          (handle_function_call L address id t direct args true s)
  unfolding handle_function_call notify_function_call concretize_callee execute expression_from
      result Runtime.get_return_expression
  handle_function_call-Resumed s id t args frame m h =
      Returns-bind
        (create_call-Ran B env L address s (frame, m) (return_point id) notify_ret _
          (return_point-same id) (empty-Ran B env (return_point id) s (frame, m) h) refl)
        λ _ a (_, _, _, r).
          Returns-bind
            (create_call-Ran_elsewhere B env L address a (frame, m) (return_point id) (before id)
              notify_call _ refl r)
            λ _ b (_, _, _, r').
              Returns-bind (set_parameters-Ran id 0 args b (frame, m) _ r') λ _ c r''.
                Returns-bind
                  (create_call-Ran_elsewhere B env L address c (frame, m) (return_point id)
                    (before id) set_return_expression _ refl r'')
                  λ _ d (_, _, _, x).
                    Returns-bind
                      (create_call-Ran B env L address d (frame, m) (return_point id)
                        get_return_expression [] (return_point-same id) x refl)
                      λ e u (is_new, _, _, y). returns (record {
                        results = _;
                        machine = _;
                        ran = y;
                        found = λ τ.
                            expression_in_map B (store B d.next m.return_value frame) _ id τ
                              (emitted d.next pointer) (ground (arith, ap some is_new))
                            ∙ ground arith;
                        emptied = refl;
                      })

  -- Where nothing of the pass stands before the call and at its return point yet, and the call has at
  -- most 256 arguments: if what is called leaves the return value of the machine alone, as a function
  -- without emitted code does, then the used result of a direct call has no expression afterwards,
  -- whatever the machine held as a return value at first.
  pub handle_function_call-uninstrumented :
      (s : State) (id : ℕ) (t τ : Ty) (args : List Value) (frame : Frame B) (m : Machine B)
      (body : Machine B → Machine B)
      → ((n : Machine B) → (body n).return_value ≡ n.return_value)
      → code_at (before id) s.code ≡ []
      → code_at (return_point id) s.code ≡ []
      → length args ≤ 256
      → Returns
          (λ _ u.
            Returns
              (λ _ (results, _). expression_in B results u (local id τ) ≡ none)
              (call_through B env u id frame body m))
          (handle_function_call L address id t direct args true s)
  handle_function_call-uninstrumented s id t τ args frame m body same h k l =
      Returns-mono
        (Returns-and (λ _ _ x _ u. Resumed id frame (body x.machine) u)
          (handle_function_call-Prepared B env L address s id t args true frame m h l)
          λ _ _ x. handle_function_call-Resumed s id t args frame (body x.machine) k)
        λ _ u (x, y).
          Returns-of tt (y.results, y.machine)
            (ap
                (λ (r : Option (Unit {0} × Activation B)).
                  and_then r (λ _ a. execute_at B env (return_point id) u (frame, body a.1)))
                x.ran
              ∙ y.ran)
            (y.found τ ∙ same x.machine ∙ x.cleared refl)

module _ (B : Backend) (inner outer : Value → ℕ) (L : DataLayout) (address : Value → ℕ) where
  -- Where the result of the call is used, and nothing of the pass stands before the return instruction and
  -- at the return point yet: after
  -- the code before the return in the callee, run in its activation, and that at the return point
  -- in the caller, the expression of the used result of a direct call in the caller is that of the
  -- returned value in the callee, and the machine holds no return value.
  pub handle_function_call-visit_return_inst :
      (c s : State) (ret id : ℕ) (v : Value) (t τ : Ty) (args : List Value)
      (callee_frame caller_frame : Frame B) (m : Machine B)
      → code_at (before ret) c.code ≡ []
      → code_at (return_point id) s.code ≡ []
      → Returns
          (λ _ w.
            Returns
              (λ _ u.
                Returns
                  (λ _ (results, m').
                    (expression_in B results u (local id τ) ≡ expression_in B callee_frame c v)
                    × (m'.return_value ≡ none))
                  (leave B inner outer w u ret id callee_frame caller_frame m))
              (handle_function_call L address id t direct args true s))
          (visit_return_inst L address ret (some v) c)
  unfolding visit_return_inst execute Runtime.set_return_expression
  handle_function_call-visit_return_inst c s ret id v t τ args callee_frame caller_frame m h k =
      Returns-bind
        (create_call-Ran B inner L address c (callee_frame, m) (before ret) set_return_expression _
          (before-same ret) (empty-Ran B inner (before ret) c (callee_frame, m) h) refl)
        λ _ w (_, _, _, r). returns (
          Returns-mono (handle_function_call-Resumed B outer L address s id t args caller_frame _ k)
            λ _ u x.
              Returns-of tt (x.results, x.machine)
                (ap
                    (λ (r : Option (Unit {0} × Activation B)).
                      and_then r
                        (λ _ a. execute_at B outer (return_point id) u (caller_frame, a.1)))
                    r
                  ∙ x.ran)
                (x.found τ, x.emptied))
