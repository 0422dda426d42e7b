-- ===== src/Compiler/Passing/Arguments/Caller.antt =====
-- The code around a call in the caller: handleFunctionCall of compiler/Symbolizer.cpp, on the storage of
-- runtime/RuntimeCommon.cpp.
use mathlib.Core.Option.{some-injective}
use native.Mathlib.Nat.{mod-eq_of_lt}
use symcc.Common.{
  arith, ℕ, zero, suc, ◌+◌, ◌≤◌, ◌<◌, ◌≡◌, refl, ap, ◌∙◌, Bool, true, false, Option, none, some,
  List, [], ◌∷◌, length, get_elem?, ◌==◌, if◌then◌else◌,
}
use symcc.Common.Cmd.{Returns, returns, Returns-bind, Returns-mono, when, ◌>>◌}
use symcc.Backend.{Backend}
use symcc.Runtime.{Machine}
use symcc.Runtime
use symcc.Compiler.Ir.{Ty, DataLayout}
use symcc.Compiler.Handlers.{
  set_parameter_expression, notify_call, notify_ret, set_return_expression, get_return_expression,
}
use symcc.Compiler.Emission.{Value, before, return_point, State, null_pointer, create_call}
use symcc.Compiler.Calls.{
  direct, set_parameters, concretize_callee, notify_function_call, handle_function_call,
  expression_from,
}
use symcc.Compiler.Passing.{
  Frame, Activation, execute, code_at, Ran, create_call-Ran, create_call-Ran_elsewhere,
  expression_in, empty-Ran, before-same, expression_in-same,
}

module _ (B : Backend) (env : Value → ℕ) (L : DataLayout) (address : Value → ℕ) where
  abbrev with_argument : ℕ → Option B.Expr → Machine B → Machine B
  with_argument index e m = record m {
    backend = B.notify_param_expr index e m.backend;
    function_arguments = λ i. if index == i then e else m.function_arguments i;
  }

  -- The arguments from number `n` on are in the storage, and those below as they were.
  record Handed (id n : ℕ) (args : List Value) (s : State) (a : Activation B) (frame : Frame B)
      (m : Machine B) (u : State) : Type 0 where
    machine : Machine B
    ran : Ran B env (before id) u a (frame, machine)
    below : (j : ℕ) → j < n → machine.function_arguments j ≡ m.function_arguments j
    given :
        (i : ℕ) (v : Value)
        → get_elem? args i ≡ some v
        → machine.function_arguments (n + i) ≡ expression_in B frame s v

  argument_below :
      (n j : ℕ) (e : Option B.Expr) (m : Machine B)
      → j < n
      → (with_argument n e m).function_arguments j ≡ m.function_arguments j
  argument_below n j e m l = ground arith

  argument_at :
      (n : ℕ) (e : Option B.Expr) (m : Machine B) → (with_argument n e m).function_arguments n ≡ e
  argument_at n e m = ground arith

  given_cons :
      (id n : ℕ) (v : Value) (args : List Value) (s t : State) (a : Activation B) (frame : Frame B)
      (m : Machine B) {u : State}
      → t.symbolic_expressions ≡ s.symbolic_expressions
      → (k : Handed id (n + 1) args t a frame (with_argument n (expression_in B frame s v) m) u)
      → (i : ℕ) (w : Value) → get_elem? (v ∷ args) i ≡ some w
      → k.machine.function_arguments (n + i) ≡ expression_in B frame s w
  given_cons id n v args s t a frame m same k zero w p =
      ap k.machine.function_arguments (omega arith)
      ∙ k.below n (omega arith)
      ∙ argument_at n (expression_in B frame s v) m
      ∙ ap (expression_in B frame s) (some-injective v w p)
  given_cons id n v args s t a frame m same k (suc i) w p =
      ap k.machine.function_arguments (omega arith)
      ∙ k.given i w p
      ∙ expression_in-same B frame s t w same

  set_parameters-Handed :
      (id n : ℕ) (args : List Value) (s : State) (a : Activation B) (frame : Frame B)
      (m : Machine B)
      → n + length args ≤ 256
      → Ran B env (before id) s a (frame, m)
      → Returns (λ _ u. Handed id n args s a frame m u) (set_parameters L address id args n s)
  unfolding set_parameters execute Runtime.set_parameter_expression
  set_parameters-Handed id n [] s a frame m h r =
      returns (record { machine = m; ran = r; below = λ j l. refl; given = λ i v p. absurd (cc p) })
  set_parameters-Handed id n (v ∷ args) s a frame m h r =
      Returns-bind
        (create_call-Ran B env L address s a (before id) set_parameter_expression _
          {c = (frame, with_argument n (expression_in B frame s v) m)} (before-same id) r
          (ap (λ i. some (tt, (frame, with_argument i (expression_in B frame s v) m)))
            (mod-eq_of_lt (omega arith))))
        λ _ t (_, _, same, ran).
          Returns-mono
            (set_parameters-Handed id (n + 1) args t a frame
              (with_argument n (expression_in B frame s v) m) (omega arith) ran)
            λ _ u k. record {
              machine = k.machine;
              ran = k.ran;
              below = λ j l.
                  k.below j (omega arith) ∙ argument_below n j (expression_in B frame s v) m l;
              given = given_cons id n v args s t a frame m same k;
            }

  -- The code for a result that is used: the return value is cleared.
  result-Ran :
      (id : ℕ) (is_used : Bool) (s : State) (a : Activation B) (frame : Frame B) (m : Machine B)
      → Ran B env (before id) s a (frame, m)
      → Returns
          (λ _ u.
            (m' : Machine B) × Ran B env (before id) u a (frame, m')
            × (m'.function_arguments ≡ m.function_arguments)
            × (is_used ≡ true → m'.return_value ≡ none))
          (when is_used
            (do
              create_call L address (before id) set_return_expression (null_pointer ∷ [])
              expression_from L address (return_point id) id get_return_expression [])
            s)
  unfolding expression_from execute Runtime.set_return_expression
  result-Ran id false s a frame m r = returns (m, r, refl, λ e. absurd (cc e))
  result-Ran id true s a frame m r =
      Returns-bind
        (create_call-Ran B env L address s a (before id) set_return_expression _ (before-same id) r
          refl)
        λ _ t (_, _, _, r').
          Returns-bind
            (create_call-Ran_elsewhere B env L address t a (before id) (return_point id)
              get_return_expression [] refl r')
            λ _ u (_, _, _, r''). returns (record m { return_value = none }, r'', refl, λ e. refl)

  -- What a call makes of the machine, before the control goes over to the callee.
  pub record Prepared (id : ℕ) (is_used : Bool) (args : List Value) (s : State) (frame : Frame B)
      (m : Machine B) (u : State) : Type 0 where
    pub machine : Machine B
    pub ran : Ran B env (before id) u (frame, m) (frame, machine)
    pub cleared : is_used ≡ true → machine.return_value ≡ none
    pub given :
        (i : ℕ) (v : Value)
        → get_elem? args i ≡ some v
        → machine.function_arguments i ≡ expression_in B frame s v

  pub handle_function_call-Prepared :
      (s : State) (id : ℕ) (t : Ty) (args : List Value) (is_used : Bool) (frame : Frame B)
      (m : Machine B)
      → code_at (before id) s.code ≡ []
      → length args ≤ 256
      → Returns
          (λ _ u. Prepared id is_used args s frame m u)
          (handle_function_call L address id t direct args is_used s)
  unfolding handle_function_call notify_function_call concretize_callee execute
  handle_function_call-Prepared s id t args is_used frame m h l =
      Returns-bind
        (create_call-Ran_elsewhere B env L address s (frame, m) (before id) (return_point id)
          notify_ret _ refl (empty-Ran B env (before id) s (frame, m) h))
        λ _ a (_, _, p, r).
          Returns-bind
            (create_call-Ran B env L address a (frame, m) (before id) notify_call _ (before-same id)
              r refl)
            λ _ b (_, _, q, r').
              Returns-bind
                (set_parameters-Handed id 0 args b (frame, m) frame _ (omega (arith, l)) r')
                λ _ c k.
                  Returns-mono (result-Ran id is_used c (frame, m) frame k.machine k.ran)
                    λ _ u (m', ran, kept, cleared). record {
                      machine = m';
                      ran = ran;
                      cleared = cleared;
                      given = λ i v e.
                          ap (λ (f : ℕ → Option B.Expr). f i) kept
                          ∙ ap k.machine.function_arguments (omega arith)
                          ∙ k.given i v e
                          ∙ expression_in-same B frame s b v (q ∙ p);
                    }
