-- ===== src/Compiler/Addresses/Emitted.antt =====
-- The state of the pass after `visitGetElementPtrInst` of compiler/Symbolizer.cpp.
use symcc.Common.{
  arith, ℕ, ◌≤◌, ◌≡◌, refl, ap, Bool, true, false, not, ◌||◌, ◌&&◌, some, List, [], ◌∷◌, ◌==◌,
  is_some, Bool-cases, inl, inr, ◌⊎◌,
}
use symcc.Common.Cmd.{Returns, returns, Returns-bind, Returns-mono, and_then}
use symcc.Compiler.Ir.{DataLayout, pointer}
use symcc.Compiler.Handlers.{parameters, build_sext, build_mul, build_add}
use symcc.Compiler.Emission.{
  Value, type_of, Place, before, SymbolicComputation, empty_computation, merge, last_value, State,
  int_ptr, get_symbolic_expression, register_symbolic_computation,
}
use symcc.Compiler.Emission.WellFormed.{
  has_input, IsWellFormed, set_expression-IsWellFormed, expression_lem, settle,
  register-IsWellFormed,
}
use symcc.Compiler.Emission.Steps.{Settled, arg_types, force_build_runtime_call-IsWellFormed}
use symcc.Compiler.Emission.Merging.{
  Pending, fresh, begun, Grown, append_call-Grown, merge-Spans, last_value-type,
}
use symcc.Compiler.Addresses.{
  Step, member_step, element_step, is_zero, all_zero, operand, all_concrete, integer_bit_width,
  scale, add_contribution, address_step, address_steps, visit_get_element_ptr_inst,
}

module _ (L : DataLayout) (address : Value → ℕ) (bound : ℕ) where
  -- Where the loop stands: at the pointer operand, or at a sum.
  data Ready (s : State) : SymbolicComputation × Value × Bool → Type 0 where
    at_pointer :
        {v : Value} → IsWellFormed L bound s → bound ≤ s.next → Ready s (empty_computation, v, true)
    moved :
        {c : SymbolicComputation} {v : Value}
        → Grown L bound c s
        → type_of v ≡ pointer
        → Ready s (c, v, false)

  scale-Grown :
      (place : Place) (size : ℕ) (index : Value) (c : SymbolicComputation) (s : State)
      → Pending bound s.next c
      → IsWellFormed L bound s
      → Returns (Grown L bound) (scale L address place size index c s)
  unfolding scale parameters
  scale-Grown place size index c s p w =
      elim (Bool-cases (integer_bit_width (type_of index) == L.ptr_bits)) [
        | inl y ↦ rw y (
            append_call-Grown L address place build_mul
              ((index, true) ∷ (int_ptr L address size, true) ∷ []) c refl (ground arith) p w)
        | inr n ↦ rw n (
            Returns-bind
              (force_build_runtime_call-IsWellFormed L address place build_sext
                ((index, true) ∷ (_, false) ∷ []) refl w)
              λ d u (q, i, v, e).
                append_call-Grown L address place build_mul
                  ((last_value (merge c d), false) ∷ (int_ptr L address size, true) ∷ [])
                  (merge c d) (ap (λ t. t ∷ pointer ∷ []) (last_value-type (merge-Spans p q)))
                  (ground arith) (begun (merge-Spans p q)) v)
      ]

  -- An addition, with an input before it or in it.
  add_contribution-Ready :
      (place : Place) (a b : Value) (x y : Bool) (c : SymbolicComputation) (s : State)
      → arg_types ((a, x) ∷ (b, y) ∷ []) ≡ pointer ∷ pointer ∷ []
      → (has_input c.inputs || (x || (y || false))) ≡ true
      → Pending bound s.next c
      → IsWellFormed L bound s
      → Returns
          (λ r t. Ready t r × (r.2 ≡ false))
          (and_then
            (add_contribution L address place (a, x) (b, y) c s)
            (λ d u. some ((d, last_value d, false), u)))
  unfolding add_contribution parameters
  add_contribution-Ready place a b x y c s typed h p w =
      Returns-bind
        (append_call-Grown L address place build_add ((a, x) ∷ (b, y) ∷ []) c typed h p w)
        λ d u g. returns (moved g (last_value-type g.1), refl)

  -- The address so far is a pointer, or it is passed by its expression.
  add_scaled-Ready :
      (place : Place) (v : Value) (b : Bool) (d : SymbolicComputation) (u : State)
      → (b ≡ true) ⊎ (type_of v ≡ pointer)
      → Grown L bound d u
      → Returns
          (λ r t. Ready t r × (r.2 ≡ false))
          (and_then
            (add_contribution L address place (last_value d, false) (v, b) d u)
            (λ e t. some ((e, last_value e, false), t)))
  add_scaled-Ready place v true d u t (w, p, h) =
      add_contribution-Ready place (last_value d) v false true d u
        (ap (λ q. q ∷ pointer ∷ []) (last_value-type p)) (ground (arith, h)) (begun p) w
  add_scaled-Ready place v false d u (inr t) (w, p, h) =
      add_contribution-Ready place (last_value d) v false false d u
        (ground (arith, last_value-type p, t)) (ground (arith, h)) (begun p) w
  add_scaled-Ready place v false d u (inl f) (w, p, h) = absurd (ground (arith, f))

  address_step-Ready :
      (place : Place) (x : Step) (acc : SymbolicComputation × Value × Bool) (s : State)
      → Ready s acc
      → Returns
          (λ r t. Ready t r × ((acc.2 && is_zero (operand x)) ≡ false → r.2 ≡ false))
          (address_step L address place x acc s)
  unfolding address_step
  address_step-Ready place (member_step name i) (c, v, true) s (at_pointer w b) =
      Returns-mono
        (add_contribution-Ready place _ v true true empty_computation s refl refl (fresh b) w)
        λ _ _ (q, e). (q, λ _. e)
  address_step-Ready place (member_step name i) (c, v, false) s (moved (w, p, h) t) =
      Returns-mono
        (add_contribution-Ready place _ v true false c s (ap (λ u. pointer ∷ u ∷ []) t)
          (ground (arith, h)) (begun p) w)
        λ _ _ (q, e). (q, λ _. e)
  address_step-Ready place (element_step ty index) (c, v, true) s (at_pointer w b) =
      elim (Bool-cases (is_zero index)) [
        | inl y ↦ rw y (returns (at_pointer w b, λ z. z))
        | inr n ↦ rw n (
            Returns-bind (scale-Grown place _ index empty_computation s (fresh b) w) λ d u g.
              Returns-mono (add_scaled-Ready place v true d u (inl refl) g)
                λ _ _ (q, e). (q, λ _. e))
      ]
  address_step-Ready place (element_step ty index) (c, v, false) s (moved (w, p, h) t) =
      elim (Bool-cases (is_zero index)) [
        | inl y ↦ rw y (returns (moved (w, p, h) t, λ _. refl))
        | inr n ↦ rw n (
            Returns-bind (scale-Grown place _ index c s (begun p) w) λ d u g.
              Returns-mono (add_scaled-Ready place v false d u (inr t) g) λ _ _ (q, e). (q, λ _. e))
      ]

  address_steps-Ready :
      (place : Place) (xs : List Step) (acc : SymbolicComputation × Value × Bool) (s : State)
      → Ready s acc
      → (acc.2 && all_zero xs) ≡ false
      → Returns (λ r t. Ready t r × (r.2 ≡ false)) (address_steps L address place xs acc s)
  unfolding address_steps
  address_steps-Ready place [] acc s r h = returns (r, ground (arith, h))
  address_steps-Ready place (x ∷ xs) acc s r h =
      Returns-bind (address_step-Ready place x acc s r)
        λ acc' t (q, e). address_steps-Ready place xs acc' t q (rest acc' e)
    where
      rest :
          (acc' : SymbolicComputation × Value × Bool)
          → ((acc.2 && is_zero (operand x)) ≡ false → acc'.2 ≡ false)
          → (acc'.2 && all_zero xs) ≡ false
      rest acc' e = elim (Bool-cases (acc.2 && is_zero (operand x))) [
        | inl y ↦ ground (arith, y, h)
        | inr n ↦ ground (arith, e n)
      ]

module _ (L : DataLayout) (address : Value → ℕ) where
  -- The computation that is registered, once there is one.
  register-Settled :
      (id : ℕ) (r : SymbolicComputation × Value × Bool) (s t : State)
      → Ready L address s.next t r
      → r.2 ≡ false
      → Returns (λ _ u. Settled L u) (register_symbolic_computation r.0 (some id) t)
  register-Settled id r s t (moved (w, p, h) ty) f =
      Returns-mono (register-IsWellFormed (some id) p h (omega arith) w) λ _ _ (v, _). settle v
  register-Settled id r s t (at_pointer w b) f = absurd (ground (arith, f))

  pub visit_get_element_ptr_inst-Settled :
      (id : ℕ) (ptr : Value) (steps : List Step) (s : State)
      → Settled L s
      → Returns (λ _ u. Settled L u) (visit_get_element_ptr_inst L address id ptr steps s)
  unfolding visit_get_element_ptr_inst
  visit_get_element_ptr_inst-Settled id ptr steps s w =
      elim (Bool-cases (not (is_some (get_symbolic_expression s ptr)) && all_concrete s steps)) [
        | inl y ↦ rw y (returns w)
        | inr n ↦ elim (Bool-cases (all_zero steps)) [
          | inl z ↦
              rw (n, z)
                (Returns-mono
                  (set_expression-IsWellFormed id (get_symbolic_expression s ptr)
                    (expression_lem ptr w) w)
                  λ _ _ (v, _). settle v)
          | inr m ↦
              rw (n, m)
                (Returns-bind
                  (address_steps-Ready L address s.next (before id) steps
                    (empty_computation, ptr, true) s (at_pointer w (omega arith)) m)
                  λ r t (q, e). register-Settled id r s t q e)
        ]
      ]
