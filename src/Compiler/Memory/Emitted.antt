-- ===== src/Compiler/Memory/Emitted.antt =====
-- The state of the pass after the visitors of compiler/Symbolizer.cpp for memory, aggregates, PHI nodes and
-- switches.
use symcc.Common.{
  arith, ℕ, ◌+◌, ◌≡◌, refl, ap, Bool, true, false, ◌&&◌, Option, none, some, List, [], ◌∷◌, ◌++◌,
  map, Bool-cases, inl, inr, length,
}
use symcc.Common.Cmd.{Returns, returns, Returns-bind, Returns-mono}
use symcc.Compiler.Ir.{Ty, integer, pointer, struct, array, DataLayout}
use symcc.Compiler.Handlers.{
  parameters, result, build_bits_to_float, build_float_to_bits, read_memory, write_memory,
  build_insert, build_extract, build_equal, push_switch_constraint,
}
use symcc.Compiler.Emission.{
  Value, null_pointer, emitted, type_of, before, constraint_block, phi, State,
  get_symbolic_expression, get_symbolic_expression_or_null, create,
}
use symcc.Compiler.Emission.WellFormed.{
  IsExpression, IsWellFormed, settle, expression-type, expression_lem, create-IsWellFormed,
}
use symcc.Compiler.Emission.Steps.{
  Settled, emit_call-Settled, emit_result-Settled, concretize_pointer_at-Settled,
  new_expression-Settled, IsExpression-type,
}
use symcc.Compiler.Values.Emitted.{create_value_expression-Settled, is_expressible}
use symcc.Compiler.Visitors.Emitted.{symbolize-Settled}
use symcc.Compiler.Offsets.{select_member, member_offset, aggregate_member_offset}
use symcc.Compiler.Memory.{
  is_floating, as_float, as_bits, visit_load_inst, visit_store_inst, visit_insert_value_inst,
  visit_extract_value_inst, switch_cases, switch_on, visit_switch_inst, visit_phi_node,
}

-- The indices lead through structures and arrays. LLVM's verifier makes sure that each is within them.
abbrev pub is_member : DataLayout → Ty → List ℕ → Bool
is_member L t [] = true
is_member L (struct s) (i ∷ is) = is_member L (L.element_type s i) is
is_member L (array t n) (i ∷ is) = is_member L t is
is_member L _ (i ∷ is) = false

-- The values that a switch distinguishes can be made expressions.
abbrev pub all_expressible : List Value → Bool
all_expressible [] = true
all_expressible (v ∷ vs) = is_expressible (type_of v) && all_expressible vs

member_offset_lem :
    (L : DataLayout) (is : List ℕ) (offset : ℕ) (t : Ty)
    → is_member L t is ≡ true
    → (o : ℕ) × (member_offset L offset t is ≡ some o)
unfolding member_offset select_member
member_offset_lem L [] offset t h = (offset, refl)
member_offset_lem L (i ∷ is) offset (struct s) h = member_offset_lem L is _ (L.element_type s i) h
member_offset_lem L (i ∷ is) offset (array t n) h = member_offset_lem L is _ t h
member_offset_lem L (i ∷ is) offset _ h = absurd (ground (arith, h))

ap2 : {A B C : Type 0} (f : A → B → C) {a a' : A} {b b' : B} → a ≡ a' → b ≡ b' → f a b ≡ f a' b'
ap2 f p q = λ i. f (p i) (q i)

module _ (L : DataLayout) (address : Value → ℕ) {s : State} where
  as_float-Settled :
      (id : ℕ) (t : Ty) (v : Value)
      → IsExpression s.next v
      → Settled L s
      → Returns (λ e u. Settled L u × IsExpression u.next e) (as_float L address id t v s)
  unfolding as_float parameters result
  as_float-Settled id t v e w = elim (Bool-cases (is_floating t)) [
    | inl y ↦ rw y (
        emit_result-Settled L address (before id) build_bits_to_float _
          (ap (λ (t : Ty). t ∷ integer 1 ∷ []) (IsExpression-type e)) refl w)
    | inr n ↦ rw n (returns (w, e))
  ]

  as_bits-Settled :
      (id : ℕ) (t : Ty) (v : Value)
      → type_of v ≡ pointer
      → Settled L s
      → Returns (λ e u. Settled L u × (type_of e ≡ pointer)) (as_bits L address id t v s)
  unfolding as_bits parameters result
  as_bits-Settled id t v e w = elim (Bool-cases (is_floating t)) [
    | inl y ↦ rw y (
        Returns-mono
          (emit_result-Settled L address (before id) build_float_to_bits _
            (ap (λ (t : Ty). t ∷ []) e) refl w)
          λ _ _ (x, f). (x, IsExpression-type f))
    | inr n ↦ rw n (returns (w, e))
  ]

module _ (L : DataLayout) (address : Value → ℕ) {s : State} where
  pub visit_load_inst-Settled :
      (id : ℕ) (t : Ty) (addr : Value)
      → Settled L s
      → Returns (λ _ u. Settled L u) (visit_load_inst L address id t addr s)
  unfolding visit_load_inst parameters result
  visit_load_inst-Settled id t addr w =
      Returns-bind (concretize_pointer_at-Settled L address (before id) addr w) λ _ a x.
        Returns-bind
          (emit_result-Settled L address (before id) read_memory _
            (ap (λ (t : Ty). t ∷ integer L.ptr_bits ∷ integer L.ptr_bits ∷ integer 8 ∷ [])
              (expression-type addr w))
            refl x)
          λ read b (y, e).
            Returns-bind (as_float-Settled L address id t read e y)
              λ value c (z, f). new_expression-Settled id value f z

  pub visit_store_inst-Settled :
      (id : ℕ) (value addr : Value)
      → Settled L s
      → Returns (λ _ u. Settled L u) (visit_store_inst L address id value addr s)
  unfolding visit_store_inst parameters
  visit_store_inst-Settled id value addr w =
      Returns-bind (concretize_pointer_at-Settled L address (before id) addr w) λ _ a x.
        Returns-bind
          (as_bits-Settled L address id (type_of value) (get_symbolic_expression_or_null a value)
            (expression-type value x) x)
          λ written b (y, e).
            Returns-bind
              (emit_call-Settled L address (before id) write_memory
                (get_symbolic_expression_or_null s addr ∷ written ∷ _ ∷ _ ∷ _ ∷ [])
                (ap2
                  (λ (t u : Ty). t ∷ u ∷ integer L.ptr_bits ∷ integer L.ptr_bits ∷ integer 8 ∷ [])
                  (expression-type addr w) e)
                y)
              λ _ _ (z, _, _). returns z

  pub visit_insert_value_inst-Settled :
      (id : ℕ) (aggregate inserted : Value) (is : List ℕ)
      → is_member L (type_of aggregate) is ≡ true
      → Settled L s
      → Returns (λ _ u. Settled L u) (visit_insert_value_inst L address id aggregate inserted is s)
  unfolding visit_insert_value_inst aggregate_member_offset parameters
  visit_insert_value_inst-Settled id aggregate inserted is h w =
      let (o, e) = member_offset_lem L is 0 (type_of aggregate) h in
      rw e (symbolize-Settled L address id build_insert _ refl refl w)

  pub visit_extract_value_inst-Settled :
      (id : ℕ) (t : Ty) (aggregate : Value) (is : List ℕ)
      → is_member L (type_of aggregate) is ≡ true
      → Settled L s
      → Returns (λ _ u. Settled L u) (visit_extract_value_inst L address id t aggregate is s)
  unfolding visit_extract_value_inst aggregate_member_offset parameters
  visit_extract_value_inst-Settled id t aggregate is h w =
      let (o, e) = member_offset_lem L is 0 (type_of aggregate) h in
      rw e (symbolize-Settled L address id build_extract _ refl refl w)

module _ (L : DataLayout) (address : Value → ℕ) where
  switch_cases-Settled :
      (id : ℕ) (t : Ty) (c e : Value) (cases : List Value) (i n : ℕ) (s : State)
      → all_expressible cases ≡ true
      → type_of e ≡ pointer
      → Settled L s
      → Returns (λ _ u. Settled L u) (switch_cases L address id t c e cases i n s)
  unfolding switch_cases parameters result
  switch_cases-Settled id t c e [] i n s h p w = returns w
  switch_cases-Settled id t c e (v ∷ cases) i n s h p w =
      Returns-bind
        (create_value_expression-Settled L address (constraint_block id) v (ground (arith, h)) w)
        λ value a (x, f).
          Returns-bind
            (emit_result-Settled L address (constraint_block id) build_equal (e ∷ value ∷ [])
              (ap2 (λ (t u : Ty). t ∷ u ∷ []) p (IsExpression-type f)) refl x)
            λ constraint b (y, g).
              Returns-bind
                (emit_call-Settled L address (constraint_block id) push_switch_constraint
                  (constraint ∷ _ ∷ _ ∷ _ ∷ _ ∷ [])
                  (ap
                    (λ (t : Ty).
                      t
                      ∷ integer 1
                      ∷ integer L.ptr_bits
                      ∷ integer L.ptr_bits
                      ∷ integer L.ptr_bits
                      ∷ [])
                    (IsExpression-type g))
                  y)
                λ _ d (z, _, _).
                  switch_cases-Settled id t c e cases (i + 1) n d (ground (arith, h)) p z

  switch_on-Settled :
      (id : ℕ) (t : Ty) (c : Value) (cases : List Value) (o : Option Value) (s : State)
      → all_expressible cases ≡ true
      → ((e : Value) → o ≡ some e → IsExpression s.next e)
      → Settled L s
      → Returns (λ _ u. Settled L u) (switch_on L address id t c cases o s)
  unfolding switch_on
  switch_on-Settled id t c cases none s h k w = returns w
  switch_on-Settled id t c cases (some e) s h k w =
      switch_cases-Settled id t c e cases 0 (length cases) s h (IsExpression-type (k e refl)) w

  pub visit_switch_inst-Settled :
      (id : ℕ) (t : Ty) (c : Value) (cases : List Value) (s : State)
      → all_expressible cases ≡ true
      → Settled L s
      → Returns (λ _ u. Settled L u) (visit_switch_inst L address id t c cases s)
  unfolding visit_switch_inst
  visit_switch_inst-Settled id t c cases s h w =
      switch_on-Settled id t c cases (get_symbolic_expression s c) s h (expression_lem c w) w

  nulls_typed :
      (vs : List Value)
      → map type_of (map (λ (v : Value). null_pointer) vs)
        ≡ map (λ (v : Value). pointer) (map (λ (v : Value). null_pointer) vs)
  nulls_typed [] = refl
  nulls_typed (v ∷ vs) = ap (λ (ts : List Ty). pointer ∷ ts) (nulls_typed vs)

  pub visit_phi_node-Settled :
      (id : ℕ) (incoming : List Value) (s : State)
      → Settled L s
      → Returns (λ _ u. Settled L u) (visit_phi_node id incoming s)
  unfolding visit_phi_node create
  visit_phi_node-Settled id incoming s w =
      new_expression-Settled id (emitted s.next pointer) (s.next, refl, omega arith)
        (settle (
          create-IsWellFormed (before id) (phi (map (λ v. null_pointer) incoming))
            (nulls_typed incoming) (with_phi_node w)))
    where
      with_phi_node :
          Settled L s
          → IsWellFormed L s.next (record s {
            phi_nodes = s.phi_nodes ++ record { node = id; incoming = incoming } ∷ [];
          })
      with_phi_node w = record {
        emissions = w.emissions;
        expressions = w.expressions;
        uses = w.uses;
        bounded = w.bounded;
      }
