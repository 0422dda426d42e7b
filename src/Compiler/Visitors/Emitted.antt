-- ===== src/Compiler/Visitors/Emitted.antt =====
-- The state of the pass after the visitors of compiler/Symbolizer.cpp for computed values and for path
-- constraints.
use symcc.Common.{
  arith, ℕ, ◌≡◌, refl, sym, ap, ◌∙◌, Bool, true, false, not, ◌||◌, none, some, List, [], ◌∷◌, ◌==◌,
  is_some, Bool-cases, inl, inr,
}
use symcc.Common.Cmd.{Returns, returns, Returns-bind, Returns-mono, ◌>>=◌}
use symcc.Compiler.Ir.{Ty, integer, floating, pointer, DataLayout}
use symcc.Compiler.Handlers.{
  BinaryOps, and_op, or_op, xor_op, Predicate, fcmp_false, fcmp_true, Function, parameters,
  push_path_constraint, build_float_to_bits, build_bool_to_bit, build_sext, build_zext,
  binary_operator_handlers, comparison_handlers,
}
use symcc.Compiler.Emission.{
  Value, type_of, before, select, State, empty_computation, merge, last_value,
  get_symbolic_expression, get_symbolic_expression_or_null, create, expression_or_null,
  set_expression, emitted, register_symbolic_computation, force_build_runtime_call, all_symbolic,
}
use symcc.Compiler.Emission.WellFormed.{
  has_input, settle, expression_lem, expression-type, create-IsWellFormed, register-IsWellFormed,
}
use symcc.Compiler.Emission.Steps.{
  Settled, arg_types, any_symbolic, new_expression-Settled, set_expression-Settled,
  build_and_register-Settled, force_build_runtime_call-IsWellFormed,
}
use symcc.Compiler.Emission.Merging.{fresh, begun, merge-Spans, last_value-type, has_input-merge}
use symcc.Compiler.Visitors.{
  is_boolean, boolean_handler, binary_handler, symbolize, visit_binary_operator, visit_cmp_inst,
  push_condition, visit_select_inst, copy_expression, bit_cast_between, visit_bit_cast_inst, extend,
  visit_cast_inst,
}
use symcc.Compiler.Addresses.{integer_bit_width}

-- The operators that there are functions for on Booleans.
abbrev pub is_logical : BinaryOps → Bool
is_logical and_op = true
is_logical or_op = true
is_logical xor_op = true
is_logical _ = false

-- The two comparisons that ignore their operands.
abbrev pub is_constant : Predicate → Bool
is_constant fcmp_false = true
is_constant fcmp_true = true
is_constant _ = false

-- The bit casts that the source handles.
abbrev pub is_handled_cast : (src dest : Ty) → Bool
is_handled_cast (integer w) (floating d) = true
is_handled_cast (floating d) (integer w) = true
is_handled_cast pointer pointer = true
is_handled_cast _ _ = false

-- A function of two expressions that gives one.
abbrev IsBinary : DataLayout → Function → Type 0
IsBinary L f = (parameters L f ≡ pointer ∷ pointer ∷ [])

binary_operator_handlers-IsBinary :
    (L : DataLayout) (o : BinaryOps) → IsBinary L (binary_operator_handlers o)
unfolding binary_operator_handlers parameters
binary_operator_handlers-IsBinary L and_op = refl
binary_operator_handlers-IsBinary L _ = refl

boolean_handler_lem :
    (L : DataLayout) (o : BinaryOps)
    → is_logical o ≡ true
    → (f : Function) × (boolean_handler o ≡ some f) × IsBinary L f
unfolding parameters
boolean_handler_lem L and_op h = (_, refl, refl)
boolean_handler_lem L or_op h = (_, refl, refl)
boolean_handler_lem L xor_op h = (_, refl, refl)
boolean_handler_lem L _ h = absurd (ground (arith, h))

binary_handler_lem :
    (L : DataLayout) (o : BinaryOps) (t : Ty)
    → (not (is_boolean t) || is_logical o) ≡ true
    → (f : Function) × (binary_handler o t ≡ some f) × IsBinary L f
unfolding binary_handler
binary_handler_lem L o t h = elim (Bool-cases (is_boolean t)) [
  | inl y ↦ rw y (boolean_handler_lem L o (ground (arith, y, h)))
  | inr n ↦ rw n (_, refl, binary_operator_handlers-IsBinary L o)
]

comparison_handlers_lem :
    (L : DataLayout) (p : Predicate)
    → is_constant p ≡ false
    → (f : Function) × (comparison_handlers p ≡ some f) × IsBinary L f
unfolding comparison_handlers parameters
comparison_handlers_lem L fcmp_false h = absurd (ground (arith, h))
comparison_handlers_lem L fcmp_true h = absurd (ground (arith, h))
comparison_handlers_lem L _ h = (_, refl, refl)

module _ (L : DataLayout) (address : Value → ℕ) {s : State} where
  pub symbolize-Settled :
      (id : ℕ) (f : Function) (args : List (Value × Bool))
      → arg_types args ≡ parameters L f
      → any_symbolic args ≡ true
      → Settled L s
      → Returns (λ _ u. Settled L u) (symbolize L address id f args s)
  unfolding symbolize
  symbolize-Settled id f args typed h w =
      build_and_register-Settled L address (before id) f args (some id) typed h w

  pub visit_binary_operator-Settled :
      (id : ℕ) (o : BinaryOps) (a b : Value)
      → (not (is_boolean (type_of a)) || is_logical o) ≡ true
      → Settled L s
      → Returns (λ _ u. Settled L u) (visit_binary_operator L address id o a b s)
  unfolding visit_binary_operator
  visit_binary_operator-Settled id o a b h w =
      let (f, e, t) = binary_handler_lem L o (type_of a) h in
      rw e (symbolize-Settled id f (all_symbolic (a ∷ b ∷ [])) (sym t) refl w)

  pub visit_cmp_inst-Settled :
      (id : ℕ) (p : Predicate) (a b : Value)
      → is_constant p ≡ false
      → Settled L s
      → Returns (λ _ u. Settled L u) (visit_cmp_inst L address id p a b s)
  unfolding visit_cmp_inst
  visit_cmp_inst-Settled id p a b h w =
      let (f, e, t) = comparison_handlers_lem L p h in
      rw e (symbolize-Settled id f (all_symbolic (a ∷ b ∷ [])) (sym t) refl w)

  pub push_condition-Settled :
      (id : ℕ) (t : Ty) (condition : Value)
      → type_of condition ≡ integer 1
      → Settled L s
      → Returns (λ _ u. Settled L u) (push_condition L address id t condition s)
  unfolding push_condition parameters
  push_condition-Settled id t condition h w =
      build_and_register-Settled L address (before id) push_path_constraint _ none
        (ap (λ u. pointer ∷ u ∷ integer L.ptr_bits ∷ []) h) refl w

  pub copy_expression-Settled :
      (id : ℕ) (v : Value)
      → Settled L s
      → Returns (λ _ u. Settled L u) (copy_expression L address id v s)
  unfolding copy_expression
  copy_expression-Settled id v w = elim (Bool-cases (is_some (get_symbolic_expression s v))) [
    | inl y ↦ rw y (set_expression-Settled id (get_symbolic_expression s v) (expression_lem v w) w)
    | inr n ↦ rw n (returns w)
  ]

  bit_cast_between-Settled :
      (id : ℕ) (v : Value) (src dest : Ty)
      → is_handled_cast src dest ≡ true
      → Settled L s
      → Returns (λ _ u. Settled L u) (bit_cast_between L address id v src dest s)
  unfolding bit_cast_between parameters
  bit_cast_between-Settled id v (integer a) (floating d) h w = symbolize-Settled id _ _ refl refl w
  bit_cast_between-Settled id v (floating d) (integer a) h w =
      build_and_register-Settled L address (before id) build_float_to_bits _ none refl refl w
  bit_cast_between-Settled id v pointer pointer h w = copy_expression-Settled id v w
  bit_cast_between-Settled id v _ _ h w = absurd (ground (arith, h))

  pub visit_bit_cast_inst-Settled :
      (id : ℕ) (dest : Ty) (v : Value)
      → is_handled_cast (type_of v) dest ≡ true
      → Settled L s
      → Returns (λ _ u. Settled L u) (visit_bit_cast_inst L address id dest v s)
  unfolding visit_bit_cast_inst
  visit_bit_cast_inst-Settled id dest v h w = bit_cast_between-Settled id v (type_of v) dest h w

module _ (L : DataLayout) (address : Value → ℕ) where
  -- The expression of a choice, after its condition.
  chosen-Settled :
      (id : ℕ) (c a b : Value) (s : State)
      → type_of c ≡ integer 1
      → Settled L s
      → Returns
          (λ _ u. Settled L u)
          (((do
            x ← expression_or_null a
            y ← expression_or_null b
            chosen ← create (before id) (select c x y) pointer
            set_expression id (some chosen)))
            s)
  unfolding create
  chosen-Settled id c a b s h w =
      new_expression-Settled id (emitted s.next pointer) (s.next, refl, omega arith)
        (settle (
          create-IsWellFormed (before id)
            (select c (get_symbolic_expression_or_null s a) (get_symbolic_expression_or_null s b))
            (h, expression-type a w, expression-type b w) w))

  pub visit_select_inst-Settled :
      (id : ℕ) (t : Ty) (c a b : Value) (s : State)
      → type_of c ≡ integer 1
      → Settled L s
      → Returns (λ _ u. Settled L u) (visit_select_inst L address id t c a b s)
  unfolding visit_select_inst
  visit_select_inst-Settled id t c a b s h w =
      Returns-bind (push_condition-Settled L address id t c h w) λ _ u v.
        elim (Bool-cases
          (is_some (get_symbolic_expression u a) || is_some (get_symbolic_expression u b))) [
            | inl y ↦ rw y (chosen-Settled id c a b u h v)
            | inr n ↦ rw n (returns v)
          ]

  -- A Boolean that is made a bit and extended.
  extend_bit-Settled :
      (id : ℕ) (f : Function) (n v : Value) (s : State)
      → parameters L f ≡ pointer ∷ type_of n ∷ []
      → Settled L s
      → Returns
          (λ _ u. Settled L u)
          ((do
            bit ← force_build_runtime_call L address (before id) build_bool_to_bit ((v, true) ∷ [])
            let c = merge empty_computation bit
            extended ←
                force_build_runtime_call L address
                  (before id)
                  f
                  ((last_value c, false) ∷ (n, false) ∷ [])
            register_symbolic_computation (merge c extended) (some id))
            s)
  unfolding parameters
  extend_bit-Settled id f n v s typed w =
      Returns-bind
        (force_build_runtime_call-IsWellFormed L address (before id) build_bool_to_bit
          ((v, true) ∷ []) refl w)
        λ bit t (p, h, x, e).
          let q = merge-Spans (fresh (omega arith)) p in
          Returns-bind
            (force_build_runtime_call-IsWellFormed L address (before id) f
              ((last_value (merge empty_computation bit), false) ∷ (n, false) ∷ [])
              (ap (λ u. u ∷ type_of n ∷ []) (last_value-type q) ∙ sym typed) x)
            λ extended u (r, i, y, g).
              Returns-mono
                (register-IsWellFormed (some id) (merge-Spans (begun q) r)
                  (has_input-merge _ extended
                    ∙ ap (λ b. b || has_input extended.inputs) (has_input-merge _ bit ∙ h))
                  (omega arith) y)
                λ _ _ (z, _). settle z

  extend-Settled :
      (id : ℕ) (f : Function) (dest : Ty) (v : Value) (s : State)
      → parameters L f ≡ pointer ∷ integer 8 ∷ []
      → Settled L s
      → Returns (λ _ u. Settled L u) (extend L address id f dest v s)
  unfolding extend
  extend-Settled id f dest v s typed w = elim (Bool-cases (integer_bit_width (type_of v) == 1)) [
    | inl y ↦ rw y (extend_bit-Settled id f _ v s typed w)
    | inr n ↦ rw n (symbolize-Settled L address id f _ (sym typed) refl w)
  ]

  pub visit_cast_inst-Settled :
      (id : ℕ) (is_signed : Bool) (dest : Ty) (v : Value) (s : State)
      → Settled L s
      → Returns (λ _ u. Settled L u) (visit_cast_inst L address id is_signed dest v s)
  unfolding visit_cast_inst parameters
  visit_cast_inst-Settled id true dest v s w = extend-Settled id build_sext dest v s refl w
  visit_cast_inst-Settled id false dest v s w = extend-Settled id build_zext dest v s refl w
