-- ===== src/Compiler/Passing.antt =====
-- The code that compiler/Symbolizer.cpp emits around a call, run on the shared runtime of
-- runtime/RuntimeCommon.cpp: one activation of a function holds the results of the calls that were
-- emitted into it, and all share the machine.
pub mod Accesses
pub mod Arguments
pub mod Computations
pub mod Results
use mathlib.Core.List.{append-nil}
use symcc.Common.{
  arith, ℕ, ◌+◌, ltb, Bool, true, false, Option, none, some, List, [], ◌∷◌, ◌++◌, ◌==◌,
  if◌then◌else◌, ◌≡◌, refl, sym, ◌∙◌, ap, inl, inr, Bool-cases,
}
use symcc.Common.Cmd.{Cmd, and_then, relay, Returns, returns}
use symcc.Backend.{Backend}
use symcc.Runtime.{Machine}
use symcc.Runtime
use symcc.Compiler.Ir.{Ty, DataLayout}
use symcc.Compiler.Handlers.{
  Function, result, set_parameter_expression, get_parameter_expression, set_return_expression,
  get_return_expression, notify_call, notify_ret, read_memory, write_memory,
}
use symcc.Compiler.Emission.{
  Value, local, constant_int, null_pointer, emitted, convert, ptr_to_int, equal, stored,
  get_symbolic_expression, Place, before, return_point, constraint_block, block_start,
  function_entry, Code, call, Emitted, State, get_symbolic_expression_or_null, create, create_call,
}

abbrev pub same_place : Place → Place → Bool
same_place (before a) (before b) = a == b
same_place (return_point a) (return_point b) = a == b
same_place (constraint_block a) (constraint_block b) = a == b
same_place (block_start a) (block_start b) = a == b
same_place function_entry function_entry = true
same_place _ _ = false

-- What stands at a place: `IRBuilder` keeps the order of emission there.
abbrev pub code_at : Place → List Emitted → List Emitted
code_at place [] = []
code_at place (c ∷ cs) =
    let rest = code_at place cs in if same_place c.place place then c ∷ rest else rest

pub code_at-append :
    (place : Place) (xs ys : List Emitted)
    → code_at place (xs ++ ys) ≡ code_at place xs ++ code_at place ys
code_at-append place [] ys = refl
code_at-append place (x ∷ xs) ys = elim (Bool-cases (same_place x.place place)) [
  | inl here ↦ rw here (ap (x ∷◌) (code_at-append place xs ys))
  | inr there ↦ rw there (code_at-append place xs ys)
]

-- The expression of a value is looked up in the map of the pass alone.
pub get_symbolic_expression-same :
    (s t : State) (v : Value)
    → t.symbolic_expressions ≡ s.symbolic_expressions
    → get_symbolic_expression t v ≡ get_symbolic_expression s v
unfolding get_symbolic_expression
get_symbolic_expression-same s t (local id k) p = ap (λ (f : ℕ → Option Value). f id) p
get_symbolic_expression-same s t (constant_int w n) p = refl
get_symbolic_expression-same s t null_pointer p = refl
get_symbolic_expression-same s t (emitted n k) p = refl
get_symbolic_expression-same s t (convert c v k) p = refl
get_symbolic_expression-same s t (equal v w) p = refl
get_symbolic_expression-same s t (stored v) p = refl

module _ (B : Backend) where
  open B use {Expr}

  -- The results of the calls that were emitted into a function.
  abbrev pub Frame : Type 0
  Frame = ℕ → Option Expr

  abbrev pub Activation : Type 0
  Activation = Frame × Machine B

  abbrev pub expression_value : Frame → Value → Option Expr
  expression_value frame (emitted n t) = frame n
  expression_value frame _ = none

  abbrev pub store : ℕ → Option Expr → Frame → Frame
  store number e frame = λ k. if number == k then e else frame k

  -- A call of the runtime without a result, and one whose result is an expression.
  abbrev pub procedure : Cmd (Machine B) (Unit {0}) → Cmd Activation (Unit {0})
  procedure f (frame, m) = relay (f m) (λ m'. (frame, m'))

  abbrev pub with_result :
      ℕ → Frame → Option (Option Expr × Machine B) → Option (Unit {0} × Activation)
  with_result number frame none = none
  with_result number frame (some (e, m)) = some (tt, (store number e frame, m))

  -- The expression of a value of the program, in an activation.
  abbrev pub expression_in : Frame → State → Value → Option Expr
  expression_in frame s v = expression_value frame (get_symbolic_expression_or_null s v)

  pub expression_in-same :
      (frame : Frame) (s t : State) (v : Value)
      → t.symbolic_expressions ≡ s.symbolic_expressions
      → expression_in frame t v ≡ expression_in frame s v
  unfolding get_symbolic_expression_or_null
  expression_in-same frame s t v p =
      ap
        (λ (o : Option Value). expression_value frame (elim o [ none ↦ null_pointer | some e ↦ e ]))
        (get_symbolic_expression-same s t v p)

  pub expression_in-none :
      (frame : Frame) (s : State) (v : Value)
      → get_symbolic_expression s v ≡ none
      → expression_in frame s v ≡ none
  unfolding get_symbolic_expression_or_null
  expression_in-none frame s v p =
      ap
        (λ (o : Option Value). expression_value frame (elim o [ none ↦ null_pointer | some e ↦ e ]))
        p

  pub expression_in_map :
      (frame : Frame) (s : State) (id : ℕ) (t : Ty) (e : Value)
      → s.symbolic_expressions id ≡ some e
      → expression_in frame s (local id t) ≡ expression_value frame e
  unfolding get_symbolic_expression_or_null get_symbolic_expression
  expression_in_map frame s id t e p =
      ap
        (λ (o : Option Value). expression_value frame (elim o [ none ↦ null_pointer | some e ↦ e ]))
        p

-- `env` gives the values of the program.
module _ (B : Backend) (env : Value → ℕ) where
  open B use {Expr}

  -- The functions of the runtime that a call, a load and a store need. Others have no run here.
  unfoldable pub execute : (number : ℕ) → Code → Cmd (Activation B) (Unit {0})
  execute n (call set_parameter_expression (constant_int w i ∷ e ∷ [])) (frame, m) =
      procedure B (Runtime.set_parameter_expression B i (expression_value B frame e)) (frame, m)
  execute n (call get_parameter_expression (constant_int w i ∷ [])) (frame, m) =
      with_result B n frame (Runtime.get_parameter_expression B i m)
  execute n (call set_return_expression (e ∷ [])) (frame, m) =
      procedure B (Runtime.set_return_expression B (expression_value B frame e)) (frame, m)
  execute n (call get_return_expression []) (frame, m) =
      with_result B n frame (Runtime.get_return_expression B m)
  execute n (call notify_call (constant_int w site ∷ [])) (frame, m) =
      some (tt, (frame, record m { backend = B.notify_call site m.backend }))
  execute n (call notify_ret (constant_int w site ∷ [])) (frame, m) =
      some (tt, (frame, record m { backend = B.notify_ret site m.backend }))
  execute n
        (call read_memory
          (p ∷ convert ptr_to_int addr t ∷ constant_int w size ∷ constant_int v little ∷ []))
        (frame, m) =
      with_result B n frame
        (Runtime.read_memory B (expression_value B frame p) (env addr) size (ltb 0 little) m)
  execute n
        (call write_memory
          (p ∷ e ∷ convert ptr_to_int addr t ∷ constant_int w size ∷ constant_int v little ∷ []))
        (frame, m) =
      procedure B
        (Runtime.write_memory B (expression_value B frame p) (expression_value B frame e) (env addr)
          size (ltb 0 little))
        (frame, m)
  execute n _ a = none

  abbrev pub execute_all : List Emitted → Cmd (Activation B) (Unit {0})
  execute_all [] a = some (tt, a)
  execute_all (c ∷ cs) a = and_then (execute c.number c.code a) (λ _. execute_all cs)

  -- The emitted code at a place.
  abbrev pub execute_at : Place → State → Cmd (Activation B) (Unit {0})
  execute_at place s = execute_all (code_at place s.code)

  and_then_assoc :
      (r : Option (Unit {0} × Activation B)) (f g : Cmd (Activation B) (Unit {0}))
      {h : Cmd (Activation B) (Unit {0})}
      → ((a : Activation B) → h a ≡ and_then (f a) (λ _. g))
      → and_then r (λ _. h) ≡ and_then (and_then r (λ _. f)) (λ _. g)
  and_then_assoc none f g k = refl
  and_then_assoc (some (_, a)) f g k = k a

  execute_all-append :
      (xs ys : List Emitted) (a : Activation B)
      → execute_all (xs ++ ys) a ≡ and_then (execute_all xs a) (λ _. execute_all ys)
  execute_all-append [] ys a = refl
  execute_all-append (x ∷ xs) ys a =
      and_then_assoc (execute x.number x.code a) (execute_all xs) (execute_all ys)
        (execute_all-append xs ys)

  -- The code at a place, from one activation to another.
  abbrev pub Ran : Place → State → Activation B → Activation B → Type 0
  Ran place s a b = execute_at place s a ≡ some (tt, b)

  pub empty-Ran :
      (place : Place) (s : State) (a : Activation B) → code_at place s.code ≡ [] → Ran place s a a
  empty-Ran place s a h = ap (λ (c : List Emitted). execute_all c a) h

  -- A call that was emitted into a state, after which the code at a place has run.
  abbrev pub Emits :
      DataLayout → Place → Function → State → (a b : Activation B) → Value → State → Type 0
  Emits L place f s a b v u =
      (v ≡ emitted s.next (result L f))
      × (u.next ≡ s.next + 1)
      × (u.symbolic_expressions ≡ s.symbolic_expressions)
      × Ran place u a b

  ran_snoc :
      (xs : List Emitted) (x : Emitted) (a : Activation B) {b c : Activation B}
      → execute_all xs a ≡ some (tt, b)
      → execute x.number x.code b ≡ some (tt, c)
      → execute_all (xs ++ x ∷ []) a ≡ some (tt, c)
  ran_snoc xs x a r e = rw (execute_all-append xs (x ∷ []) a, r, e)

  module _ (L : DataLayout) (address : Value → ℕ) (s : State) (a : Activation B)
      {b : Activation B} where
    -- One more call at the place.
    pub create_call-Ran :
        (place : Place) (f : Function) (args : List Value) {c : Activation B}
        → same_place place place ≡ true
        → Ran place s a b
        → execute s.next (call f args) b ≡ some (tt, c)
        → Returns (Emits L place f s a c) (create_call L address place f args s)
    unfolding create_call create
    create_call-Ran place f args h r e = returns (
      refl,
      refl,
      refl,
      rw (code_at-append place s.code, h) (ran_snoc (code_at place s.code) _ a r e),
    )

    -- A call elsewhere.
    pub create_call-Ran_elsewhere :
        (here place : Place) (f : Function) (args : List Value)
        → same_place place here ≡ false
        → Ran here s a b
        → Returns (Emits L here f s a b) (create_call L address place f args s)
    unfolding create_call create
    create_call-Ran_elsewhere here place f args h r =
        returns (refl, refl, refl, rw (code_at-append here s.code, h, append-nil) r)

-- `outer` gives the values of the caller, and `inner` those of the callee.
module _ (B : Backend) where
  -- The code before a call in the caller, then that at the entry of the callee, in a new activation.
  abbrev pub enter :
      (outer inner : Value → ℕ)
      → (caller callee : State) → (id : ℕ) → Frame B
      → Machine B
      → Option (Unit {0} × Activation B)
  enter outer inner caller callee id frame m =
      and_then (execute_at B outer (before id) caller (frame, m))
        λ _ a. execute_at B inner function_entry callee ((λ k. none), a.1)

  -- The code at return instruction `ret` in the callee, then that at the return point of the call `id`.
  abbrev pub leave :
      (inner outer : Value → ℕ)
      → (callee caller : State) → (ret id : ℕ) → (callee_frame caller_frame : Frame B) → Machine B
      → Option (Unit {0} × Activation B)
  leave inner outer callee caller ret id callee_frame caller_frame m =
      and_then (execute_at B inner (before ret) callee (callee_frame, m))
        λ _ a. execute_at B outer (return_point id) caller (caller_frame, a.1)

  -- A call of a function without emitted code, which makes of the machine what it will.
  abbrev pub call_through :
      (outer : Value → ℕ)
      → State
      → (id : ℕ) → Frame B
      → (Machine B → Machine B)
      → Machine B
      → Option (Unit {0} × Activation B)
  call_through outer caller id frame body m =
      and_then (execute_at B outer (before id) caller (frame, m))
        λ _ a. execute_at B outer (return_point id) caller (frame, body a.1)

pub before-same : (id : ℕ) → same_place (before id) (before id) ≡ true
before-same id = ground arith

pub return_point-same : (id : ℕ) → same_place (return_point id) (return_point id) ≡ true
return_point-same id = ground arith
