-- ===== src/Compiler/Passing/Computations/Inputs.antt =====
-- The inputs of the last call that was emitted, as `shortCircuitExpressionUses` of compiler/Symbolizer.cpp
-- finds them.
use mathlib.Core.Option.{some-injective}
use symcc.Common.{
  arith, ℕ, zero, suc, ◌+◌, ◌<◌, ◌≤◌, ◌≡◌, refl, ap, ◌∙◌, true, false, not, ◌&&◌, Option, some,
  List, [], ◌∷◌, ◌++◌, map, get_elem?, is_some, subst, Option-cases, inl, inr,
}
use symcc.Backend.{Backend}
use symcc.Compiler.{all_concrete, is_null_pointer}
use symcc.Compiler.ShortCircuit.{fits}
use symcc.Compiler.Emission.{
  Value, null_pointer, emitted, Code, Emitted, SymbolicComputation, State, inputs_from, all_null,
  function_args, all_symbolic, get_symbolic_expression_or_null, get_symbolic_expression,
}
use symcc.Compiler.Emission.WellFormed.{Emissions, Uses, no_more, next_use}
use symcc.Compiler.Ir.{DataLayout}
use symcc.Compiler.Passing.{Frame, expression_value, expression_in, expression_in-none}
use symcc.Compiler.Passing.Computations.{
  of_number, operands_of, value_at, is_null_value, find_computation, ends_at, known_input,
  known_argument, get_symbolic_operand,
}

pub of_number_last :
    {A : Type 0} (missing : A) (ask : Code → A) (L : DataLayout) (k next : ℕ) (cs : List Emitted)
    (c : Emitted)
    → Emissions L k cs next
    → c.number ≡ next
    → of_number missing ask next (cs ++ c ∷ []) ≡ ask c.code
of_number_last missing ask L k next [] c e p = ground (arith, p)
of_number_last missing ask L k next (x ∷ xs) c (n, t, e) p =
    let l = Emissions-le L (suc k) next xs e in
    ground (arith, n, l, of_number_last missing ask L (suc k) next xs c e p)
  where
    Emissions-le :
        (L : DataLayout) (k next : ℕ) (cs : List Emitted) → Emissions L k cs next → k ≤ next
    Emissions-le L k next [] e = omega (arith, e)
    Emissions-le L k next (x ∷ xs) (n, t, e) = omega (arith, Emissions-le L (suc k) next xs e)

Uses-le : {lo hi : ℕ} {cs : List SymbolicComputation} → Uses lo cs hi → lo ≤ hi
Uses-le (no_more p) = p
Uses-le (next_use s i us) = omega (arith, s.above, s.ordered, s.below, Uses-le us)

ends_earlier :
    (c : SymbolicComputation) (last number : ℕ)
    → c.last_instruction ≡ some last
    → last < number
    → ends_at number c ≡ false
ends_earlier c last number e l = rw e (ground arith)

pub find_computation_last :
    (lo hi : ℕ) (cs : List SymbolicComputation) (c : SymbolicComputation) (number : ℕ)
    → Uses lo cs hi
    → hi ≤ number
    → c.last_instruction ≡ some number
    → find_computation number (cs ++ c ∷ []) ≡ some c
find_computation_last lo hi [] c number (no_more p) l e = rw e (ground arith)
find_computation_last lo hi (d ∷ ds) c number (next_use s i us) l e =
    rw (ends_earlier d s.last number s.is_last (omega (arith, s.below, Uses-le us)))
      (find_computation_last _ hi ds c number us l e)

pub value_at_argument :
    (s : State) (args : List Value) (i : ℕ) (v : Value)
    → get_elem? args i ≡ some v
    → value_at (function_args s (all_symbolic args)) i ≡ get_symbolic_expression_or_null s v
unfolding function_args
value_at_argument s [] i v e = absurd (cc e)
value_at_argument s (x ∷ xs) zero v e =
    ap (get_symbolic_expression_or_null s) (some-injective x v e)
value_at_argument s (x ∷ xs) (suc i) v e = value_at_argument s xs i v e

-- The inputs of a call are its arguments, from number `j` on.
module _ (s : State) (code : List Emitted) (number : ℕ) where
  abbrev pub ArgumentsFrom : ℕ → List Value → Type 0
  ArgumentsFrom j args =
      (i : ℕ) (v : Value)
      → get_elem? args i ≡ some v
      → value_at (operands_of number code) (j + i) ≡ get_symbolic_expression_or_null s v

  ArgumentsFrom-tail :
      (j : ℕ) (v : Value) (args : List Value)
      → ArgumentsFrom j (v ∷ args)
      → ArgumentsFrom (j + 1) args
  ArgumentsFrom-tail j v args h i w e =
      ap (value_at (operands_of number code)) (omega arith) ∙ h (suc i) w e

  pub inputs_known :
      (j : ℕ) (args : List Value)
      → ArgumentsFrom j args
      → map (known_input code) (inputs_from (all_symbolic args) j number)
        ≡ map (known_argument s) args
  unfolding inputs_from
  inputs_known j [] h = refl
  inputs_known j (v ∷ args) h =
      let operand : value_at (operands_of number code) j ≡ get_symbolic_expression_or_null s v =
        ap (value_at (operands_of number code)) (omega arith) ∙ h 0 v refl in
      λ k.
        record { is_null = is_null_value (operand k); concrete_value = v }
        ∷ inputs_known (j + 1) args (ArgumentsFrom-tail j v args h) k

  pub inputs_expressions :
      (B : Backend) (frame : Frame B) (j : ℕ) (args : List Value)
      → ArgumentsFrom j args
      → map
          (λ i. expression_value B frame (get_symbolic_operand code i))
          (inputs_from (all_symbolic args) j number)
        ≡ map (expression_in B frame s) args
  unfolding inputs_from
  inputs_expressions B frame j [] h = refl
  inputs_expressions B frame j (v ∷ args) h =
      let operand : value_at (operands_of number code) j ≡ get_symbolic_expression_or_null s v =
        ap (value_at (operands_of number code)) (omega arith) ∙ h 0 v refl in
      λ k.
        expression_value B frame (operand k)
        ∷ inputs_expressions B frame (j + 1) args (ArgumentsFrom-tail j v args h) k

-- A null expression of the pass is null at run time.
module _ (B : Backend) {S : Type 0} (create : Value → S → Option B.Expr × S)
    (compute : List (Option B.Expr) → S → Option B.Expr × S) (frame : Frame B) (s : State) where
  null_value :
      (e : Value) → is_null_value e ≡ true → is_null_pointer (expression_value B frame e) ≡ true
  null_value null_pointer p = refl
  null_value (emitted n t) p = absurd (cc p)
  null_value _ p = refl

  pub arguments_fit :
      (args : List Value)
      → fits create compute (map (known_argument s) args) (map (expression_in B frame s) args)
        ≡ true
  arguments_fit [] = refl
  arguments_fit (v ∷ args) =
      ground (arith, null_value (get_symbolic_expression_or_null s v), arguments_fit args)

  pub arguments_concrete :
      (args : List Value)
      → all_null s (all_symbolic args) ≡ true
      → all_concrete (map (expression_in B frame s) args) ≡ true
  unfolding all_null
  arguments_concrete [] h = refl
  arguments_concrete (v ∷ args) h = elim (Option-cases (get_symbolic_expression s v)) [
    | inl n ↦ rw (expression_in-none B frame s v n) (
        arguments_concrete args (
          subst (λ (o : Option Value). (not (is_some o) && all_null s (all_symbolic args)) ≡ true) n
            h))
    | inr (e, p) ↦ absurd (
        cc (
          subst (λ (o : Option Value). (not (is_some o) && all_null s (all_symbolic args)) ≡ true) p
            h))
  ]
