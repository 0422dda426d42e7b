-- ===== src/Compiler/Emission/Merging.antt =====
-- `SymbolicComputation::merge` of compiler/Symbolizer.h, for a computation that the visitors put together
-- call by call.
use symcc.Common.{arith, ℕ, ◌≤◌, ◌≡◌, refl, ap, ◌∙◌, Bool, true, ◌||◌, some, List, [], ◌∷◌, ◌++◌}
use symcc.Common.Cmd.{Returns, returns, Returns-bind, and_then}
use symcc.Compiler.Ir.{pointer, DataLayout}
use symcc.Compiler.Handlers.{Function, parameters}
use symcc.Compiler.Emission.{
  Value, type_of, Input, SymbolicComputation, empty_computation, merge, last_value, State, Place,
  force_build_runtime_call,
}
use symcc.Compiler.Emission.WellFormed.{InputsWithin, has_input, Spans, IsWellFormed}
use symcc.Compiler.Emission.Steps.{arg_types, any_symbolic, force_build_runtime_call-IsWellFormed}

-- A computation to which more calls are appended.
pub data Pending (lo hi : ℕ) : SymbolicComputation → Type 0 where
  fresh : lo ≤ hi → Pending lo hi empty_computation
  begun : {c : SymbolicComputation} → Spans lo hi c → Pending lo hi c

pub InputsWithin-append :
    (first mid last : ℕ) (xs ys : List Input)
    → mid ≤ last
    → InputsWithin first mid xs
    → InputsWithin first last ys
    → InputsWithin first last (xs ++ ys)
InputsWithin-append first mid last [] ys p a b = b
InputsWithin-append first mid last (x ∷ xs) ys p (q, r, a) b =
    (q, omega arith, InputsWithin-append first mid last xs ys p a b)

pub InputsWithin-lower :
    (first mid last : ℕ) (xs : List Input)
    → first ≤ mid
    → InputsWithin mid last xs
    → InputsWithin first last xs
InputsWithin-lower first mid last [] p a = tt
InputsWithin-lower first mid last (x ∷ xs) p (q, r, a) =
    (omega arith, r, InputsWithin-lower first mid last xs p a)

pub merge-Spans :
    {lo mid hi : ℕ} {c d : SymbolicComputation}
    → Pending lo mid c
    → Spans mid hi d
    → Spans lo hi (merge c d)
unfolding merge
merge-Spans (fresh p) s = record {
  first = s.first;
  last = s.last;
  is_first = s.is_first;
  is_last = s.is_last;
  above = omega (arith, s.above);
  ordered = s.ordered;
  below = s.below;
  within = s.within;
}
merge-Spans {c = c} {d = d} (begun p) s = record {
  first = p.first;
  last = s.last;
  is_first = ground (arith, p.is_first);
  is_last = s.is_last;
  above = p.above;
  ordered = omega (arith, p.ordered, p.below, s.above, s.ordered);
  below = s.below;
  within =
      InputsWithin-append _ _ _ c.inputs d.inputs (omega (arith, p.below, s.above, s.ordered))
        p.within
        (InputsWithin-lower _ _ _ d.inputs (omega (arith, p.ordered, p.below, s.above)) s.within);
}

pub has_input-append : (xs ys : List Input) → has_input (xs ++ ys) ≡ (has_input xs || has_input ys)
has_input-append [] ys = refl
has_input-append (x ∷ xs) ys = refl

pub has_input-merge :
    (c d : SymbolicComputation)
    → has_input (merge c d).inputs ≡ (has_input c.inputs || has_input d.inputs)
unfolding merge
has_input-merge c d = has_input-append c.inputs d.inputs

-- Where a computation has begun, its last instruction is an expression.
pub last_value-type :
    {lo hi : ℕ} {c : SymbolicComputation} → Spans lo hi c → type_of (last_value c) ≡ pointer
last_value-type p = ground (arith, p.is_last)

-- A computation that has at least one input.
abbrev pub Grown : DataLayout → ℕ → SymbolicComputation → State → Type 0
Grown L bound c u = IsWellFormed L bound u × Spans bound u.next c × (has_input c.inputs ≡ true)

module _ (L : DataLayout) (address : Value → ℕ) {bound : ℕ} {s : State} where
  -- One more call, of which the result or the computation so far has an input.
  pub append_call-Grown :
      (place : Place) (f : Function) (args : List (Value × Bool)) (c : SymbolicComputation)
      → arg_types args ≡ parameters L f
      → (has_input c.inputs || any_symbolic args) ≡ true
      → Pending bound s.next c
      → IsWellFormed L bound s
      → Returns (Grown L bound) (
          and_then (force_build_runtime_call L address place f args s) (λ d u. some (merge c d, u)))
  append_call-Grown place f args c typed h p w =
      Returns-bind (force_build_runtime_call-IsWellFormed L address place f args typed w)
        λ d u (q, i, v, e).
          returns
            (v, merge-Spans p q, has_input-merge c d ∙ ap (λ b. has_input c.inputs || b) i ∙ h)
