-- ===== src/Compiler/Phis/Finished.antt =====
-- `finalizePHINodes` of compiler/Symbolizer.cpp, against a description of what becomes of each emitted
-- instruction by itself.
use symcc.Common.{
  arith, ℕ, ◌≡◌, refl, ap, sym, ◌∙◌, Bool, true, false, not, ◌&&◌, ◌||◌, Option, none, some, List,
  [], ◌∷◌, ◌==◌, if◌then◌else◌, map, ◌>>=◌, Bool-cases, inl, inr, eq_of_==, is_some,
}
use symcc.Compiler.Emission.{
  Value, local, constant_int, null_pointer, convert, equal, stored, emitted, Code, call, select,
  phi, Emitted, PhiNode, State, get_symbolic_expression, get_symbolic_expression_or_null,
}
use symcc.Compiler.Phis.{
  all_incoming_null, set_incoming, fill_nodes, is_erased, replace_value, replace_uses, erase_nodes,
  finalize_phi_nodes,
}
use symcc.Compiler.Phis.Meaning.{
  Nodes, absent, any_operand, operands, any_use, AreNodes, expression_of, or_null, any_symbolic,
  all_expressions, is_constant_node, with_incoming, operand, with_null, kept_instructions,
}

passed_over : (a b c : Bool) → (b || c) ≡ (a && false || b || c)
passed_over true b c = refl
passed_over false b c = refl

put_first : (a b c : Bool) → (b || (a || c)) ≡ (a && true || b || c)
put_first true true c = refl
put_first true false c = refl
put_first false b c = refl

module _ (s : State) where
  expression_lem : (v : Value) → get_symbolic_expression s v ≡ expression_of s v
  unfolding get_symbolic_expression
  expression_lem (local id t) = refl
  expression_lem (emitted n t) = refl
  expression_lem (constant_int w n) = refl
  expression_lem null_pointer = refl
  expression_lem (convert c v t) = refl
  expression_lem (equal a b) = refl
  expression_lem (stored v) = refl

  all_incoming_null_lem : (vs : List Value) → all_incoming_null s vs ≡ not (any_symbolic s vs)
  unfolding all_incoming_null
  all_incoming_null_lem [] = refl
  all_incoming_null_lem (v ∷ vs) =
      rw (expression_lem v, all_incoming_null_lem vs)
        (neither (is_some (expression_of s v)) (any_symbolic s vs))
    where
      neither : (a b : Bool) → (not a && not b) ≡ not (a || b)
      neither true b = refl
      neither false b = refl

  all_expressions_lem :
      (vs : List Value) → map (get_symbolic_expression_or_null s) vs ≡ all_expressions s vs
  unfolding get_symbolic_expression_or_null get_symbolic_expression
  all_expressions_lem [] = refl
  all_expressions_lem (v ∷ vs) =
      rw (expression_lem v) (λ i. elim_lem (expression_of s v) i ∷ all_expressions_lem vs i)
    where
      elim_lem : (e : Option Value) → (elim e [ none ↦ null_pointer | some x ↦ x ]) ≡ or_null s e
      elim_lem none = refl
      elim_lem (some e) = refl

  -- The instructions with the nodes filled in, and the nodes that are to be erased.
  abbrev filled : Nodes → List Emitted → List Emitted
  filled ps [] = []
  filled ps (i ∷ is) = record i { code = with_incoming s ps i.number i.code } ∷ filled ps is

  abbrev constant_nodes : Nodes → List ℕ → List ℕ
  constant_nodes [] found = found
  constant_nodes ((n, p) ∷ ps) found =
      constant_nodes ps (if any_symbolic s p.incoming then found else n ∷ found)

  filled_none : (is : List Emitted) → filled [] is ≡ is
  filled_none [] = refl
  filled_none (i ∷ is) = ap (λ (r : List Emitted). i ∷ r) (filled_none is)

  filled_constant :
      (n : ℕ) (p : PhiNode) (ps : Nodes) (is : List Emitted)
      → any_symbolic s p.incoming ≡ false
      → filled ((n, p) ∷ ps) is ≡ filled ps is
  filled_constant n p ps [] h = refl
  filled_constant n p ps (i ∷ is) h = ground (arith, h, filled_constant n p ps is h)

  with_incoming-absent :
      (ps : Nodes) (n : ℕ) (c : Code) → absent n ps ≡ true → with_incoming s ps n c ≡ c
  with_incoming-absent [] n c h = refl
  with_incoming-absent ((m, p) ∷ ps) n c h = ground (arith, h, with_incoming-absent ps n c)

  filled-set_incoming :
      (n : ℕ) (p : PhiNode) (ps : Nodes) (is : List Emitted)
      → any_symbolic s p.incoming ≡ true
      → absent n ps ≡ true
      → filled ((n, p) ∷ ps) is ≡ filled ps (set_incoming n (all_expressions s p.incoming) is)
  unfolding set_incoming
  filled-set_incoming n p ps [] h a = refl
  filled-set_incoming n p ps (i ∷ is) h a =
      let ih = filled-set_incoming n p ps is h a in
      elim (Bool-cases (i.number == n)) [
        | inl y ↦
            let e = eq_of_== i.number n y in
            let code = phi (all_expressions s p.incoming) in
            let kept = with_incoming-absent ps i.number code (rw e a) in
            rw (y, h) (λ k. record i { code = sym kept k } ∷ ih k)
        | inr m ↦ rw m (
            ap (λ (r : List Emitted). record i { code = with_incoming s ps i.number i.code } ∷ r)
              ih)
      ]

  fill_nodes_lem :
      (ps : Nodes) (code : List Emitted) (found : List ℕ)
      → AreNodes s ps
      → fill_nodes s (map (λ (q : ℕ × PhiNode). q.1) ps) code found
        ≡ some (filled ps code, constant_nodes ps found)
  unfolding fill_nodes
  fill_nodes_lem [] code found h =
      ap (λ (r : List Emitted). some (r, found)) (sym (filled_none code))
  fill_nodes_lem ((n, p) ∷ ps) code found (e, a, h) =
      elim (Bool-cases (any_symbolic s p.incoming)) [
        | inr y ↦
            rw (e, all_incoming_null_lem p.incoming, y)
              (fill_nodes_lem ps code (n ∷ found) h
                ∙ ap (λ (r : List Emitted). some (r, constant_nodes ps (n ∷ found)))
                    (sym (filled_constant n p ps code y)))
        | inl m ↦
            rw (e, all_incoming_null_lem p.incoming, m, all_expressions_lem p.incoming)
              (fill_nodes_lem ps (set_incoming n (all_expressions s p.incoming) code) found h
                ∙ ap (λ (r : List Emitted). some (r, constant_nodes ps found))
                    (sym (filled-set_incoming n p ps code m a)))
      ]

  is_erased-constant_nodes :
      (ps : Nodes) (found : List ℕ) (n : ℕ)
      → is_erased (constant_nodes ps found) n ≡ (is_constant_node s ps n || is_erased found n)
  unfolding is_erased
  is_erased-constant_nodes [] found n = refl
  is_erased-constant_nodes ((m, p) ∷ ps) found n = elim (Bool-cases (any_symbolic s p.incoming)) [
    | inl y ↦ rw y (
        is_erased-constant_nodes ps found n
        ∙ passed_over (m == n) (is_constant_node s ps n) (is_erased found n))
    | inr y ↦ rw y (
        is_erased-constant_nodes ps (m ∷ found) n
        ∙ put_first (m == n) (is_constant_node s ps n) (is_erased found n))
  ]

  module _ (ps : Nodes) where
    erased_lem : (n : ℕ) → is_erased (constant_nodes ps []) n ≡ is_constant_node s ps n
    unfolding is_erased
    erased_lem n = is_erased-constant_nodes ps [] n ∙ without (is_constant_node s ps n)
      where
        without : (b : Bool) → (b || false) ≡ b
        without true = refl
        without false = refl

    replace_value_lem : (v : Value) → replace_value (constant_nodes ps []) v ≡ operand s ps v
    unfolding replace_value
    replace_value_lem (emitted n t) = rw (erased_lem n) refl
    replace_value_lem (local id t) = refl
    replace_value_lem (constant_int w n) = refl
    replace_value_lem null_pointer = refl
    replace_value_lem (convert c v t) = refl
    replace_value_lem (equal a b) = refl
    replace_value_lem (stored v) = refl

    replace_all_lem :
        (vs : List Value) → map (replace_value (constant_nodes ps [])) vs ≡ map (operand s ps) vs
    replace_all_lem [] = refl
    replace_all_lem (v ∷ vs) = λ i. replace_value_lem v i ∷ replace_all_lem vs i

    replace_uses_lem : (c : Code) → replace_uses (constant_nodes ps []) c ≡ with_null s ps c
    unfolding replace_uses
    replace_uses_lem (call f args) = ap (call f) (replace_all_lem args)
    replace_uses_lem (select c a b) =
        λ i. select (replace_value_lem c i) (replace_value_lem a i) (replace_value_lem b i)
    replace_uses_lem (phi values) = ap phi (replace_all_lem values)

    erase_nodes_lem :
        (is : List Emitted)
        → erase_nodes (constant_nodes ps []) (filled ps is) ≡ kept_instructions s ps is
    unfolding erase_nodes
    erase_nodes_lem [] = refl
    erase_nodes_lem (i ∷ is) =
        rw
          (
            erased_lem i.number,
            erase_nodes_lem is,
            replace_uses_lem (with_incoming s ps i.number i.code),
          )
          refl

    operand-not :
        (v : Value) (vs : List Value)
        → any_operand (is_constant_node s ps) (operand s ps v ∷ vs)
          ≡ any_operand (is_constant_node s ps) vs
    operand-not (emitted n t) vs = elim (Bool-cases (is_constant_node s ps n)) [
      | inl y ↦ rw y refl
      | inr m ↦ rw (m, m) refl
    ]
    operand-not (local id t) vs = refl
    operand-not (constant_int w n) vs = refl
    operand-not null_pointer vs = refl
    operand-not (convert c v t) vs = refl
    operand-not (equal a b) vs = refl
    operand-not (stored v) vs = refl

    operands-not :
        (vs : List Value) → any_operand (is_constant_node s ps) (map (operand s ps) vs) ≡ false
    operands-not [] = refl
    operands-not (v ∷ vs) = operand-not v (map (operand s ps) vs) ∙ operands-not vs

    with_null-not :
        (c : Code) → any_operand (is_constant_node s ps) (operands (with_null s ps c)) ≡ false
    with_null-not (call f args) = operands-not args
    with_null-not (select c a b) = operands-not (c ∷ a ∷ b ∷ [])
    with_null-not (phi values) = operands-not values

    kept_instructions-not :
        (is : List Emitted) → any_use (is_constant_node s ps) (kept_instructions s ps is) ≡ false
    kept_instructions-not [] = refl
    kept_instructions-not (i ∷ is) = elim (Bool-cases (is_constant_node s ps i.number)) [
      | inl y ↦ rw y (kept_instructions-not is)
      | inr m ↦
          rw (m, with_null-not (with_incoming s ps i.number i.code))
            (rw m (kept_instructions-not is))
    ]

  -- The end of the processing of PHI nodes comes to an end, and does to each emitted instruction by
  -- itself: the node of a PHI node whose incoming values all have no expression is removed, and its
  -- uses become null; any other node gets, for each incoming value, its expression, or null; other
  -- instructions keep their code but for those uses. No instruction that is left is a removed node or
  -- has one as an operand, and no value has an expression afterwards. The expression of each PHI node is
  -- an emitted node of its own.
  pub finalize_phi_nodes_lem :
      (ps : Nodes)
      → s.phi_nodes ≡ map (λ (q : ℕ × PhiNode). q.1) ps
      → AreNodes s ps
      → (u : State) × (finalize_phi_nodes s ≡ some u)
        × (u.code ≡ kept_instructions s ps s.code)
        × (any_use (is_constant_node s ps) u.code ≡ false)
        × (u.symbolic_expressions ≡ λ id. none)
  unfolding finalize_phi_nodes
  finalize_phi_nodes_lem ps e h = (
    _,
    ap
          (λ (r : List PhiNode). fill_nodes s r s.code [] >>= λ f.
            some (record s { code = erase_nodes f.1 f.0; symbolic_expressions = λ id. none }))
          e
        ∙ ap
            (λ (r : Option (List Emitted × List ℕ)). r >>= λ f.
              some (record s { code = erase_nodes f.1 f.0; symbolic_expressions = λ id. none }))
            (fill_nodes_lem ps s.code [] h)
        ∙ ap (λ (r : List Emitted). some (record s { code = r; symbolic_expressions = λ id. none }))
            (erase_nodes_lem ps s.code),
    refl,
    kept_instructions-not ps s.code,
    refl,
  )
