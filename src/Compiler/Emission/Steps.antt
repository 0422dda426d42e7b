-- ===== src/Compiler/Emission/Steps.antt =====
-- What the emission of one call in compiler/Symbolizer.h does to the state of the pass.
use symcc.Common.{
  arith, ℕ, ◌+◌, ◌<◌, ◌≡◌, refl, ap, ◌∙◌, Bool, true, false, ◌||◌, Option, none, some, List, [],
  ◌∷◌, map, if◌then◌else◌, Bool-cases, inl, inr,
}
use symcc.Common.Cmd.{Returns, returns, Returns-bind, Returns-mono, and_then}
use symcc.Compiler.Ir.{Ty, pointer, integer, DataLayout}
use symcc.Compiler.Handlers.{Function, parameters, result, concretize_pointer}
use symcc.Compiler.Emission.{
  Value, emitted, type_of, Place, call, SymbolicComputation, State, get_symbolic_expression,
  set_expression, create, function_args, inputs_from, create_call, force_build_runtime_call,
  build_runtime_call, all_null, register_if_any, concretize_pointer_of, concretize_pointer_at,
}
use symcc.Compiler.Emission.WellFormed.{
  settle, InputsWithin, has_input, Spans, IsExpression, IsWellFormed, expression-type,
  set_expression-IsWellFormed, expression_lem, create-IsWellFormed, register-IsWellFormed,
}

-- The types of the arguments of a call of the runtime, of which the symbolic ones are expressions.
abbrev pub arg_types : List (Value × Bool) → List Ty
arg_types [] = []
arg_types ((v, symbolic) ∷ args) = (if symbolic then pointer else type_of v) ∷ arg_types args

abbrev pub any_symbolic : List (Value × Bool) → Bool
any_symbolic [] = false
any_symbolic ((v, symbolic) ∷ args) = symbolic || any_symbolic args

-- All computations so far are registered.
abbrev pub Settled : DataLayout → State → Type 0
Settled L s = IsWellFormed L s.next s

pub IsExpression-type : {n : ℕ} {v : Value} → IsExpression n v → type_of v ≡ pointer
IsExpression-type (k, e, l) = ap type_of e

module _ {L : DataLayout} {s : State} where
  -- An expression of the map, or one that has just been made, as that of an instruction.
  pub set_expression-Settled :
      (id : ℕ) (o : Option Value)
      → ((e : Value) → o ≡ some e → IsExpression s.next e)
      → Settled L s
      → Returns (λ _ u. Settled L u) (set_expression id o s)
  set_expression-Settled id o h w =
      Returns-mono (set_expression-IsWellFormed id o h w) λ _ _ (v, _). settle v

  pub new_expression-Settled :
      (id : ℕ) (v : Value)
      → IsExpression s.next v
      → Settled L s
      → Returns (λ _ u. Settled L u) (set_expression id (some v) s)
  new_expression-Settled id v (k, p, l) w =
      set_expression-Settled id (some v) (λ e q. (k, ground (arith, p, q), l)) w

pub function_args-types :
    {L : DataLayout} {bound : ℕ} {s : State} (args : List (Value × Bool))
    → IsWellFormed L bound s
    → map type_of (function_args s args) ≡ arg_types args
unfolding function_args
function_args-types [] w = refl
function_args-types ((v, true) ∷ args) w =
    ground (arith, expression-type v w, function_args-types args w)
function_args-types ((v, false) ∷ args) w = ground (arith, function_args-types args w)

inputs_within :
    (args : List (Value × Bool)) (i user : ℕ) → InputsWithin user user (inputs_from args i user)
unfolding inputs_from
inputs_within [] i user = tt
inputs_within ((v, true) ∷ args) i user =
    (omega arith, omega arith, inputs_within args (i + 1) user)
inputs_within ((v, false) ∷ args) i user = inputs_within args (i + 1) user

has_input-inputs_from :
    (args : List (Value × Bool)) (i user : ℕ)
    → has_input (inputs_from args i user) ≡ any_symbolic args
unfolding inputs_from
has_input-inputs_from [] i user = refl
has_input-inputs_from ((v, true) ∷ args) i user = refl
has_input-inputs_from ((v, false) ∷ args) i user = has_input-inputs_from args (i + 1) user

-- The state after one more instruction.
abbrev pub Created : DataLayout → ℕ → State → Ty → Value → State → Type 0
Created L bound s t v u =
    (v ≡ emitted s.next t)
    × IsWellFormed L bound u
    × (u.next ≡ s.next + 1)
    × (u.symbolic_expressions ≡ s.symbolic_expressions)

-- A computation that is one call, the last one.
abbrev pub Built : DataLayout → ℕ → State → Bool → SymbolicComputation → State → Type 0
Built L bound s symbolic c u =
    Spans s.next u.next c
    × (has_input c.inputs ≡ symbolic)
    × IsWellFormed L bound u
    × (u.next ≡ s.next + 1)

module _ (L : DataLayout) (address : Value → ℕ) {bound : ℕ} {s : State} where
  pub create_call-IsWellFormed :
      (place : Place) (f : Function) (args : List Value)
      → map type_of args ≡ parameters L f
      → IsWellFormed L bound s
      → Returns (Created L bound s (result L f)) (create_call L address place f args s)
  unfolding create_call create
  create_call-IsWellFormed place f args typed w =
      returns (refl, create-IsWellFormed place (call f args) typed w, refl, refl)

  pub force_build_runtime_call-IsWellFormed :
      (place : Place) (f : Function) (args : List (Value × Bool))
      → arg_types args ≡ parameters L f
      → IsWellFormed L bound s
      → Returns
          (Built L bound s (any_symbolic args))
          (force_build_runtime_call L address place f args s)
  unfolding force_build_runtime_call create_call create
  force_build_runtime_call-IsWellFormed place f args typed w = returns (
    record {
      first = s.next;
      last = s.next;
      is_first = refl;
      is_last = refl;
      above = omega arith;
      ordered = omega arith;
      below = omega arith;
      within = inputs_within args 0 s.next;
    },
    has_input-inputs_from args 0 s.next,
    create-IsWellFormed place (call f (function_args s args)) (function_args-types args w ∙ typed)
        w,
    refl,
  )

module _ (L : DataLayout) (address : Value → ℕ) {s : State} where
  -- A call of the runtime that is built if need be and registered.
  pub build_and_register-Settled :
      (place : Place) (f : Function) (args : List (Value × Bool)) (concrete : Option ℕ)
      → arg_types args ≡ parameters L f
      → any_symbolic args ≡ true
      → Settled L s
      → Returns
          (λ _ u. Settled L u)
          (and_then (build_runtime_call L address place f args s) (λ c. register_if_any c concrete))
  unfolding build_runtime_call register_if_any
  build_and_register-Settled place f args concrete typed symbolic w =
      elim (Bool-cases (all_null s args)) [
        | inl y ↦ rw y (returns w)
        | inr n ↦
            rw n (built (force_build_runtime_call-IsWellFormed L address place f args typed w))
      ]
    where
      built :
          {r : Option (SymbolicComputation × State)}
          → Returns (Built L s.next s (any_symbolic args)) r
          → Returns
              (λ _ u. Settled L u)
              (and_then (and_then r (λ c t. some (some c, t))) (λ c. register_if_any c concrete))
      built (returns (p, h, v, e)) =
          Returns-mono (register-IsWellFormed concrete p (h ∙ symbolic) (omega arith) v)
            λ _ _ (x, _). settle x

  -- A call that is not recorded as a computation.
  pub emit_call-Settled :
      (place : Place) (f : Function) (args : List Value)
      → map type_of args ≡ parameters L f
      → Settled L s
      → Returns
          (λ v u. Settled L u × (v ≡ emitted s.next (result L f)) × (s.next < u.next))
          (create_call L address place f args s)
  emit_call-Settled place f args typed w =
      Returns-mono (create_call-IsWellFormed L address place f args typed w)
        λ _ u (e, v, n, _). (settle v, e, omega (arith, n))

  -- One that gives an expression.
  pub emit_result-Settled :
      (place : Place) (f : Function) (args : List Value)
      → map type_of args ≡ parameters L f
      → result L f ≡ pointer
      → Settled L s
      → Returns (λ v u. Settled L u × IsExpression u.next v) (create_call L address place f args s)
  emit_result-Settled place f args typed r w =
      Returns-mono (emit_call-Settled place f args typed w)
        λ _ _ (v, e, l). (v, (s.next, e ∙ ap (λ t. emitted s.next t) r, l))

  concretize_pointer_of-Settled :
      (place : Place) (v : Value) (o : Option Value)
      → ((e : Value) → o ≡ some e → IsExpression s.next e)
      → Settled L s
      → Returns (λ _ u. Settled L u) (concretize_pointer_of L address place v o s)
  unfolding concretize_pointer_of parameters
  concretize_pointer_of-Settled place v none h w = returns w
  concretize_pointer_of-Settled place v (some e) h w =
      Returns-bind
        (emit_call-Settled place concretize_pointer _
          (ap (λ t. t ∷ pointer ∷ integer L.ptr_bits ∷ []) (IsExpression-type (h e refl))) w)
        λ _ _ (x, _, _). returns x

  pub concretize_pointer_at-Settled :
      (place : Place) (v : Value)
      → Settled L s
      → Returns (λ _ u. Settled L u) (concretize_pointer_at L address place v s)
  unfolding concretize_pointer_at
  concretize_pointer_at-Settled place v w =
      concretize_pointer_of-Settled place v (get_symbolic_expression s v) (expression_lem v w) w
