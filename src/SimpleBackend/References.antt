-- ===== src/SimpleBackend/References.antt =====
-- The set of allocated expressions of runtime/simple_backend/Runtime.cpp and Z3's reference counts:
-- `registerExpression` and `_sym_collect_garbage`.
use symcc.Common.{
  arith, ℕ, ◌≤◌, ◌<◌, ◌≡◌, ◌↔◌, refl, ap, ◌∙◌, true, false, Option, List, ◌==◌, ◌||◌, length, ltb,
  Bool-cases, inl, inr,
}
use symcc.Shadow.{Pages}
use symcc.GarbageCollection.{ExpressionRegion, contains, insert, Reachable}
use symcc.GarbageCollection.Sweep.{contains-insert_lem, sweep-Reachable}
use symcc.SimpleBackend.{Z3, SimpleState, register_expression}
use symcc.SimpleBackend.Constraints.{collect_garbage}

module _ (Z : Z3) where
  -- Z3 keeps what has a reference: the backend has one for each expression that it has handed out.
  abbrev pub Held : SimpleState Z → Type 0
  Held s = (x : ℕ) → contains s.allocated_expressions x ≡ true → 0 < s.refs x

  registered :
      (e : ℕ) (s : SimpleState Z)
      → (register_expression Z e s).1.allocated_expressions ≡ insert s.allocated_expressions e
  unfolding register_expression
  registered e s = elim (Bool-cases (contains s.allocated_expressions e)) [
    | inl known ↦ rw known refl
    | inr new ↦ rw new refl
  ]

  -- Registering an expression that is known changes nothing; one that is not is put into the set and
  -- gets a reference. Either way the set has this expression and those before, each with
  -- a reference if it was so before.
  pub register_expression-Held :
      (e : ℕ) (s : SimpleState Z)
      → Held s
      → Held (register_expression Z e s).1
        × ((x : ℕ)
            → contains (register_expression Z e s).1.allocated_expressions x
              ≡ ((x == e) || contains s.allocated_expressions x))
  unfolding register_expression
  register_expression-Held e s held = (
    kept,
    λ x. ap (λ l. contains l x) (registered e s) ∙ contains-insert_lem s.allocated_expressions x e,
  )
    where
      kept : Held (register_expression Z e s).1
      kept = elim (Bool-cases (contains s.allocated_expressions e)) [
        | inl known ↦ rw known held
        | inr new ↦ rw new λ x there. elim (Bool-cases (e == x)) [
          | inl same ↦ rw same (omega arith)
          | inr other ↦ rw other (held x (ground arith))
        ]
      ]

  -- A collection that is due keeps exactly the allocated expressions that are reachable, each with its
  -- reference; and the reference counts stay as they are, those of the erased expressions too.
  pub collect_garbage-Held :
      (threshold : ℕ) (heap : ℕ → Option ℕ) (regions : List ExpressionRegion) (pages : Pages ℕ)
      (s : SimpleState Z)
      → threshold ≤ length s.allocated_expressions
      → Held s
      → Held (collect_garbage Z threshold heap regions pages s)
        × ((x : ℕ)
            → (contains (collect_garbage Z threshold heap regions pages s).allocated_expressions x
                ≡ true)
              ↔ ((contains s.allocated_expressions x ≡ true) × Reachable heap regions pages x))
        × ((x : ℕ) → (collect_garbage Z threshold heap regions pages s).refs x ≡ s.refs x)
  unfolding collect_garbage
  collect_garbage-Held threshold heap regions pages s many held =
      let due : ltb (length s.allocated_expressions) threshold ≡ false = ground (arith, many) in
      rw due (
        λ x there.
            held x ((sweep-Reachable heap regions pages s.allocated_expressions x).0 there).0,
        λ x. sweep-Reachable heap regions pages s.allocated_expressions x,
        λ x. refl,
      )
