-- ===== src/Compiler/Emission/WellFormed.antt =====
-- What holds of the state of the pass in compiler/Symbolizer.cpp between two instructions.
use symcc.Common.{
  arith, ℕ, suc, ◌+◌, ◌≤◌, ◌<◌, ◌≡◌, refl, sym, ◌∙◌, Bool, true, false, Option, none, some, List,
  [], ◌∷◌, ◌++◌, ◌==◌, map, if◌then◌else◌, Bool-cases, inl, inr, Option-cases,
}
use symcc.Common.Cmd.{Returns, returns}
use symcc.Compiler.Ir.{integer, pointer, DataLayout}
use symcc.Compiler.Handlers.{parameters}
use symcc.Compiler.Emission.{
  Value, local, constant_int, null_pointer, emitted, convert, equal, stored, type_of, Place, Code,
  call, select, phi, Emitted, Input, SymbolicComputation, last_value, State, set_expression,
  get_symbolic_expression, get_symbolic_expression_or_null, register_symbolic_computation,
}

-- The inputs are operands of instructions from `first` to `last`.
abbrev pub InputsWithin : (first last : ℕ) → List Input → Type 0
InputsWithin first last [] = Unit
InputsWithin first last (i ∷ is) = (first ≤ i.user) × (i.user ≤ last) × InputsWithin first last is

abbrev pub has_input : List Input → Bool
has_input [] = false
has_input (i ∷ is) = true

-- A computation that consists of instructions from `lo` on, below `hi`.
pub record Spans (lo hi : ℕ) (c : SymbolicComputation) : Type 0 where
  pub first : ℕ
  pub last : ℕ
  pub is_first : c.first_instruction ≡ some first
  pub is_last : c.last_instruction ≡ some last
  pub above : lo ≤ first
  pub ordered : first ≤ last
  pub below : last < hi
  pub within : InputsWithin first last c.inputs

-- Computations that follow one another without a common instruction, each with an input.
pub data Uses : ℕ → List SymbolicComputation → ℕ → Type 0 where
  no_more : {lo hi : ℕ} → lo ≤ hi → Uses lo [] hi
  next_use :
      {lo mid hi : ℕ} {c : SymbolicComputation} {cs : List SymbolicComputation}
      → Spans lo mid c
      → has_input c.inputs ≡ true
      → Uses mid cs hi
      → Uses lo (c ∷ cs) hi

-- An expression: an instruction of the pass that has been emitted.
abbrev pub IsExpression : ℕ → Value → Type 0
IsExpression next e = (k : ℕ) × (e ≡ emitted k pointer) × (k < next)

module _ (L : DataLayout) where
  -- The operands have the types that the declaration of the function asks for.
  abbrev pub IsTyped : Code → Type 0
  IsTyped (call f args) = map type_of args ≡ parameters L f
  IsTyped (select c a b) = (type_of c ≡ integer 1) × (type_of a ≡ pointer) × (type_of b ≡ pointer)
  IsTyped (phi values) = map type_of values ≡ map (λ v. pointer) values

  -- Instructions numbered from `k` on, up to `next`.
  abbrev pub Emissions : ℕ → List Emitted → ℕ → Type 0
  Emissions k [] next = k ≡ next
  Emissions k (i ∷ is) next = (i.number ≡ k) × IsTyped i.code × Emissions (suc k) is next

  -- The computations that are registered end before `bound`.
  pub record IsWellFormed (bound : ℕ) (s : State) : Type 0 where
    pub emissions : Emissions 0 s.code s.next
    pub expressions :
        (id : ℕ) (e : Value) → s.symbolic_expressions id ≡ some e → IsExpression s.next e
    pub uses : Uses 0 s.expression_uses bound
    pub bounded : bound ≤ s.next

  pub Emissions-append :
      (k next : ℕ) (is : List Emitted) (i : Emitted)
      → Emissions k is next
      → i.number ≡ next
      → IsTyped i.code
      → Emissions k (is ++ i ∷ []) (next + 1)
  Emissions-append k next [] i e n t = (n ∙ sym e, t, omega arith)
  Emissions-append k next (j ∷ is) i (m, u, e) n t =
      (m, u, Emissions-append (suc k) next is i e n t)

pub Spans-lower :
    {lo mid hi : ℕ} {c : SymbolicComputation} → lo ≤ mid → Spans mid hi c → Spans lo hi c
Spans-lower p s = record {
  first = s.first;
  last = s.last;
  is_first = s.is_first;
  is_last = s.is_last;
  above = omega (arith, s.above);
  ordered = s.ordered;
  below = s.below;
  within = s.within;
}

pub Uses-append :
    {lo mid hi : ℕ} {cs : List SymbolicComputation} {c : SymbolicComputation}
    → Uses lo cs mid
    → Spans mid hi c
    → has_input c.inputs ≡ true
    → Uses lo (cs ++ c ∷ []) hi
Uses-append (no_more p) s h = next_use (Spans-lower p s) h (no_more (omega arith))
Uses-append (next_use t i us) s h = next_use t i (Uses-append us s h)

pub Uses-mono :
    {lo mid hi : ℕ} {cs : List SymbolicComputation} → Uses lo cs mid → mid ≤ hi → Uses lo cs hi
Uses-mono (no_more p) q = no_more (omega arith)
Uses-mono (next_use t i us) q = next_use t i (Uses-mono us q)

module _ {L : DataLayout} {bound : ℕ} {s : State} where
  pub expression-type :
      (v : Value) → IsWellFormed L bound s → type_of (get_symbolic_expression_or_null s v) ≡ pointer
  unfolding get_symbolic_expression_or_null get_symbolic_expression
  expression-type (local id t) w = elim (Option-cases (s.symbolic_expressions id)) [
    | inl n ↦ ground (arith, n)
    | inr (e, p) ↦ let (k, q, h) = w.expressions id e p in ground (arith, p, q)
  ]
  expression-type (constant_int n m) w = refl
  expression-type null_pointer w = refl
  expression-type (emitted n t) w = refl
  expression-type (convert c v t) w = refl
  expression-type (equal a b) w = refl
  expression-type (stored v) w = refl

  -- Between two instructions nothing is pending.
  pub settle : IsWellFormed L bound s → IsWellFormed L s.next s
  settle w = record {
    emissions = w.emissions;
    expressions = w.expressions;
    uses = Uses-mono w.uses w.bounded;
    bounded = omega arith;
  }

  pub expression_lem :
      (v : Value)
      → IsWellFormed L bound s
      → (e : Value) → get_symbolic_expression s v ≡ some e
      → IsExpression s.next e
  unfolding get_symbolic_expression
  expression_lem (local id t) w e p = w.expressions id e p
  expression_lem (constant_int n m) w e p = absurd (ground (arith, p))
  expression_lem null_pointer w e p = absurd (ground (arith, p))
  expression_lem (emitted n t) w e p = absurd (ground (arith, p))
  expression_lem (convert c v t) w e p = absurd (ground (arith, p))
  expression_lem (equal a b) w e p = absurd (ground (arith, p))
  expression_lem (stored v) w e p = absurd (ground (arith, p))

  -- A new entry of the map.
  inserted_lem :
      (id : ℕ) (o : Option Value)
      → ((e : Value) → o ≡ some e → IsExpression s.next e)
      → IsWellFormed L bound s
      → (k : ℕ) (e : Value) → (if id == k then o else s.symbolic_expressions k) ≡ some e
      → IsExpression s.next e
  inserted_lem id o h w k e r = elim (Bool-cases (id == k)) [
    | inl y ↦ h e (ground (arith, y, r))
    | inr n ↦ w.expressions k e (ground (arith, n, r))
  ]

  pub set_expression-IsWellFormed :
      (id : ℕ) (o : Option Value)
      → ((e : Value) → o ≡ some e → IsExpression s.next e)
      → IsWellFormed L bound s
      → Returns (λ _ u. IsWellFormed L bound u × (u.next ≡ s.next)) (set_expression id o s)
  set_expression-IsWellFormed id o h w = returns (
    record {
      emissions = w.emissions;
      expressions = inserted_lem id o h w;
      uses = w.uses;
      bounded = w.bounded;
    },
    refl,
  )

  pub create-IsWellFormed :
      (place : Place) (code : Code)
      → IsTyped L code
      → IsWellFormed L bound s
      → IsWellFormed L bound (record s {
        next = s.next + 1;
        code = s.code ++ record { number = s.next; place = place; code = code } ∷ [];
      })
  create-IsWellFormed place code typed w = record {
    emissions = Emissions-append L 0 s.next s.code _ w.emissions refl typed;
    expressions = λ id e p. let (k, q, h) = w.expressions id e p in (k, q, omega arith);
    uses = w.uses;
    bounded = omega (arith, w.bounded);
  }

module _ {L : DataLayout} {bound hi : ℕ} {s : State} {c : SymbolicComputation} where
  pub register-IsWellFormed :
      (concrete : Option ℕ)
      → Spans bound hi c
      → has_input c.inputs ≡ true
      → hi ≤ s.next
      → IsWellFormed L bound s
      → Returns
          (λ _ t. (IsWellFormed L hi t) × (t.next ≡ s.next))
          (register_symbolic_computation c concrete s)
  unfolding register_symbolic_computation
  register-IsWellFormed none p h q w = returns (
    record {
      emissions = w.emissions;
      expressions = w.expressions;
      uses = Uses-append w.uses p h;
      bounded = q;
    },
    refl,
  )
  register-IsWellFormed (some id) p h q w = returns (
    record {
      emissions = w.emissions;
      expressions =
          inserted_lem id (some (last_value c))
            (λ e r. (p.last, ground (arith, r, p.is_last), omega (arith, p.below))) w;
      uses = Uses-append w.uses p h;
      bounded = q;
    },
    refl,
  )
