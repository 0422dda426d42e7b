-- ===== src/Compiler/Passing/Arguments/Callee.antt =====
-- The code at the entry of the callee: symbolizeFunctionArguments of compiler/Symbolizer.cpp, on the
-- storage of runtime/RuntimeCommon.cpp.
use mathlib.Core.Option.{some-injective}
use native.Mathlib.Nat.{mod-eq_of_lt}
use symcc.Common.{
  arith, ℕ, zero, suc, ◌+◌, ◌%◌, ◌^◌, ◌≤◌, ◌<◌, ◌≡◌, refl, sym, ap, ◌∙◌, Bool, true, false, Option,
  some, List, [], ◌∷◌, get_elem?, ◌≢◌,
}
use symcc.Common.Cmd.{Returns, returns, Returns-bind, Returns-mono, when}
use symcc.Backend.{Backend}
use symcc.Runtime.{Machine}
use symcc.Runtime
use symcc.Compiler.Ir.{Ty, pointer, DataLayout}
use symcc.Compiler.Handlers.{result, get_parameter_expression}
use symcc.Compiler.Emission.{
  Value, local, emitted, function_entry, State, get_symbolic_expression_or_null,
  get_symbolic_expression,
}
use symcc.Compiler.Values.{int8}
use symcc.Compiler.Calls.{Parameter, symbolize_arguments, expression_from}
use symcc.Compiler.Passing.{
  Frame, Activation, execute, Ran, create_call-Ran, expression_in, expression_in_map, store,
}

-- No parameter of the list is that value, and no two are the same.
abbrev pub Absent : ℕ → List Parameter → Type 0
Absent id [] = Unit {0}
Absent id (p ∷ ps) = (id ≢ p.id) × Absent id ps

abbrev pub AreDistinct : List Parameter → Type 0
AreDistinct [] = Unit {0}
AreDistinct (p ∷ ps) = Absent p.id ps × AreDistinct ps

module _ (B : Backend) (env : Value → ℕ) (L : DataLayout) (address : Value → ℕ) where
  -- One parameter, number `n`.
  record Taken (n id : ℕ) (is_used : Bool) (t : State) (a : Activation B) (frame : Frame B)
      (m : Machine B) (u : State) : Type 0 where
    results : Frame B
    ran : Ran B env function_entry u a (results, m)
    kept : (k : ℕ) → k < t.next → results k ≡ frame k
    above : t.next ≤ u.next
    others : (j : ℕ) → j ≢ id → u.symbolic_expressions j ≡ t.symbolic_expressions j
    found :
        is_used ≡ true
        → n < 256
        → (k : ℕ) × (u.symbolic_expressions id ≡ some (emitted k pointer))
          × (k < u.next)
          × (results k ≡ m.function_arguments n)

  parameter-Taken :
      (n id : ℕ) (is_used : Bool) (t : State) (a : Activation B) (frame : Frame B) (m : Machine B)
      → Ran B env function_entry t a (frame, m)
      → Returns
          (λ _ u. Taken n id is_used t a frame m u)
          (when is_used
            (expression_from L address function_entry id get_parameter_expression (int8 n ∷ []))
            t)
  unfolding expression_from result execute Runtime.get_parameter_expression
  parameter-Taken n id false t a frame m r = returns (record {
    results = frame;
    ran = r;
    kept = λ k l. refl;
    above = omega arith;
    others = λ k d. refl;
    found = λ e l. absurd (cc e);
  })
  parameter-Taken n id true t a frame m r =
      Returns-bind
        (create_call-Ran B env L address t a function_entry get_parameter_expression (int8 n ∷ [])
          refl r refl)
        λ e u (is_new, next, same, ran). returns (record {
          results = store B t.next (m.function_arguments (n % 2 ^ 8)) frame;
          ran = ran;
          kept = λ k l. ground arith;
          above = omega (arith, next);
          others = λ k d. ground (arith, ap (λ (f : ℕ → Option Value). f k) same);
          found = λ h l. (
            t.next,
            ground (arith, ap some is_new),
            omega (arith, next),
            rw (mod-eq_of_lt l) (ground arith),
          );
        })

  -- The parameters from number `n` on.
  pub record Received (n : ℕ) (ps : List Parameter) (t : State) (a : Activation B) (frame : Frame B)
      (m : Machine B) (u : State) : Type 0 where
    pub results : Frame B
    pub ran : Ran B env function_entry u a (results, m)
    pub kept : (k : ℕ) → k < t.next → results k ≡ frame k
    pub others : (id : ℕ) → Absent id ps → u.symbolic_expressions id ≡ t.symbolic_expressions id
    pub found :
        (i : ℕ) (p : Parameter) (τ : Ty)
        → get_elem? ps i ≡ some p
        → p.is_used ≡ true
        → n + i < 256
        → expression_in B results u (local p.id τ) ≡ m.function_arguments (n + i)

  found_cons :
      (n : ℕ) (p : Parameter) (ps : List Parameter) (t v u : State) (a : Activation B)
      (frame : Frame B) (m : Machine B)
      → Absent p.id ps
      → (k : Taken n p.id p.is_used t a frame m v) → (r : Received (n + 1) ps v a k.results m u)
      → (i : ℕ) (q : Parameter) (τ : Ty) → get_elem? (p ∷ ps) i ≡ some q
      → q.is_used ≡ true
      → n + i < 256
      → expression_in B r.results u (local q.id τ) ≡ m.function_arguments (n + i)
  unfolding get_symbolic_expression_or_null get_symbolic_expression
  found_cons n p ps t v u a frame m d k r zero q τ e used l =
      let is_p = some-injective p q e in
      let (j, x, y, z) = k.found (ap (λ (p : Parameter). p.is_used) is_p ∙ used) (omega arith) in
      let in_map : u.symbolic_expressions q.id ≡ some (emitted j pointer) =
        ap (λ (p : Parameter). u.symbolic_expressions p.id) (sym is_p) ∙ r.others p.id d ∙ x in
      expression_in_map B r.results u q.id τ (emitted j pointer) in_map
      ∙ r.kept j y
      ∙ z
      ∙ ap m.function_arguments (omega arith)
  found_cons n p ps t v u a frame m d k r (suc i) q τ e used l =
      r.found i q τ e used (omega arith) ∙ ap m.function_arguments (omega arith)

  pub symbolize_arguments-Received :
      (n : ℕ) (ps : List Parameter) (t : State) (a : Activation B) (frame : Frame B) (m : Machine B)
      → AreDistinct ps
      → Ran B env function_entry t a (frame, m)
      → Returns (λ _ u. Received n ps t a frame m u) (symbolize_arguments L address ps n t)
  unfolding symbolize_arguments
  symbolize_arguments-Received n [] t a frame m d r = returns (record {
    results = frame;
    ran = r;
    kept = λ k l. refl;
    others = λ id x. refl;
    found = λ i p τ e. absurd (cc e);
  })
  symbolize_arguments-Received n (p ∷ ps) t a frame m (d, ds) r =
      Returns-bind (parameter-Taken n p.id p.is_used t a frame m r) λ _ v k.
        Returns-mono (symbolize_arguments-Received (n + 1) ps v a k.results m ds k.ran) λ _ u x.
          record {
            results = x.results;
            ran = x.ran;
            kept = λ j l. x.kept j (omega (arith, l, k.above)) ∙ k.kept j l;
            others = λ id (e, es). x.others id es ∙ k.others id e;
            found = found_cons n p ps t v u a frame m d k x;
          }
