-- ===== src/Compiler/Emission/Tracing.antt =====
-- What a computation of compiler/Symbolizer.cpp computes, as it grows by one call.
use symcc.Common.{
  arith, ℕ, ◌+◌, ◌≡◌, ap, subst, ◌∙◌, inl, inr, Bool, true, false, some, List, [], ◌∷◌, ◌++◌,
}
use mathlib.Core.List.{append_assoc}
use symcc.Common.Cmd.{Returns, returns, Returns-bind, and_then}
use symcc.Compiler.Ir.{DataLayout}
use symcc.Compiler.Handlers.{Function}
use symcc.Compiler.Emission.{
  Value, Place, call, Emitted, Input, SymbolicComputation, merge, last_value, State, create,
  function_args, inputs_from, create_call, force_build_runtime_call,
}
use symcc.Compiler.Emission.Meaning.{
  Number, apply, plain, AreResults, argument_numbers, UsersFrom, Earlier, operand_numbers_lem,
  Trace, Given, AreResults-append,
}

Earlier-raise :
    (n : ℕ) (xs ys : List Input)
    → Earlier n 0 xs
    → Earlier (n + 1) 0 ys
    → Earlier (n + 1) 0 (xs ++ ys)
Earlier-raise n [] ys e f = f
Earlier-raise n (x ∷ xs) ys (inl l, e) f = (inl (omega arith), Earlier-raise n xs ys e f)
Earlier-raise n (x ∷ xs) ys (inr (m, l), e) f = absurd (omega arith)

inputs_from-Earlier :
    (n j : ℕ) (args : List (Value × Bool)) → Earlier (n + 1) 0 (inputs_from args j n)
unfolding inputs_from
inputs_from-Earlier n j [] = tt
inputs_from-Earlier n j ((v, true) ∷ args) = (inl (omega arith), inputs_from-Earlier n (j + 1) args)
inputs_from-Earlier n j ((v, false) ∷ args) = inputs_from-Earlier n (j + 1) args

inputs_from-UsersFrom :
    (n j : ℕ) (args : List (Value × Bool)) (after : List Input)
    → UsersFrom (n + 1) after
    → UsersFrom n (inputs_from args j n ++ after)
unfolding inputs_from
inputs_from-UsersFrom n j [] after u = lower after u
  where
    lower : (xs : List Input) → UsersFrom (n + 1) xs → UsersFrom n xs
    lower [] u = tt
    lower (x ∷ xs) (l, u) = (omega arith, lower xs u)
inputs_from-UsersFrom n j ((v, true) ∷ args) after u =
    (omega arith, inputs_from-UsersFrom n (j + 1) args after u)
inputs_from-UsersFrom n j ((v, false) ∷ args) after u = inputs_from-UsersFrom n (j + 1) args after u

module _ (L : DataLayout) (address : Value → ℕ) (env : Value → ℕ) (results : ℕ → Number) where
  -- One more call: what was known stays known, and so is the result of the call.
  pub force_build_runtime_call-Given :
      {start : State} {c : SymbolicComputation} {s : State} (t : Trace start c s) (Q : Type 0)
      (y : Number) (place : Place) (f : Function) (args : List (Value × Bool))
      → Given L env results t (Q × (apply f (argument_numbers L env results args) ≡ y))
      → Returns
          (λ d u.
            (r : Trace start (merge c d) u) × Given L env results r
              (Q × (plain L env results (last_value (merge c d)) ≡ y)))
          (force_build_runtime_call L address place f args s)
  unfolding force_build_runtime_call create_call create merge
  force_build_runtime_call-Given {start} {c} {s} t Q y place f args g = returns (
    record {
      emitted_since = t.emitted_since ++ e ∷ [];
      code_lem =
          ap (λ (l : List Emitted). l ++ e ∷ []) t.code_lem
          ∙ append_assoc start.code t.emitted_since (e ∷ []);
      uses_lem = t.uses_lem;
      before =
          Earlier-raise s.next c.inputs (inputs_from args 0 s.next) t.before
            (inputs_from-Earlier s.next 0 args);
    },
    known,
  )
    where
      e : Emitted
      e = record { number = s.next; place = place; code = call f (function_args s args) }

      known :
          (after : List Input)
          → UsersFrom (s.next + 1) after
          → AreResults L env results
              ((c.inputs ++ inputs_from args 0 s.next) ++ after)
              (t.emitted_since ++ e ∷ [])
          → Q × (results s.next ≡ y)
      known after u r =
          let regrouped =
            subst (λ (l : List Input). AreResults L env results l (t.emitted_since ++ e ∷ []))
              (append_assoc c.inputs (inputs_from args 0 s.next) after) r in
          let (a, b) =
            AreResults-append L env results (c.inputs ++ (inputs_from args 0 s.next ++ after))
              t.emitted_since e regrouped in
          let (q, p) =
            g (inputs_from args 0 s.next ++ after) (inputs_from-UsersFrom s.next 0 args after u)
              a in
          (
            q,
            b
                ∙ ap (apply f)
                    (operand_numbers_lem L env results s s.next args 0 c.inputs after t.before u)
                ∙ p,
          )

  pub append_call-Given :
      {start : State} {c : SymbolicComputation} {s : State} (t : Trace start c s) (Q : Type 0)
      (y : Number) (place : Place) (f : Function) (args : List (Value × Bool))
      → Given L env results t (Q × (apply f (argument_numbers L env results args) ≡ y))
      → Returns
          (λ d u.
            (r : Trace start d u) × Given L env results r
              (Q × (plain L env results (last_value d) ≡ y)))
          (and_then
            (force_build_runtime_call L address place f args s)
            (λ d u. some (merge c d, u)))
  append_call-Given t Q y place f args g =
      Returns-bind (force_build_runtime_call-Given t Q y place f args g) λ d u r. returns r
