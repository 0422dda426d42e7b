-- ===== src/Compiler/Values/Emitted.antt =====
-- The state of the pass after `createValueExpression` of compiler/Symbolizer.cpp.
use symcc.Common.{
  ℕ, ◌≡◌, refl, ap, Bool, true, false, ◌==◌, leb, [], ◌∷◌, Bool-cases, inl, inr, arith, eq_of_==,
  ◌∙◌,
}
use symcc.Common.Cmd.{Returns}
use symcc.Compiler.Ir.{Ty, integer, floating, pointer, struct, array, unsized, DataLayout}
use symcc.Compiler.Handlers.{
  parameters, result, build_bool, build_integer, build_integer128, build_float, read_memory,
  build_null_pointer,
}
use symcc.Compiler.Emission.{Value, stored, type_of, Place, State}
use symcc.Compiler.Emission.WellFormed.{IsExpression, expression-type}
use symcc.Compiler.Emission.Steps.{Settled, emit_result-Settled}
use symcc.Compiler.Values.{is_null_constant, create_expression_of_type, create_value_expression}

-- The types whose values the source makes expressions for.
abbrev pub is_expressible : Ty → Bool
is_expressible (array t n) = false
is_expressible unsized = false
is_expressible _ = true

module _ (L : DataLayout) (address : Value → ℕ) (place : Place) (v : Value) {s : State} where
  create_expression_of_type-Settled :
      (t : Ty)
      → type_of v ≡ t
      → is_expressible t ≡ true
      → Settled L s
      → Returns
          (λ e u. Settled L u × IsExpression u.next e)
          (create_expression_of_type L address place v t s)
  unfolding create_expression_of_type parameters result
  create_expression_of_type-Settled (integer w) p h x = elim (Bool-cases (w == 1)) [
    | inl y ↦ rw y (
        emit_result-Settled L address place build_bool _
          (ap (λ (t : Ty). t ∷ []) (p ∙ ap integer (eq_of_== w 1 y))) refl x)
    | inr n ↦ elim (Bool-cases (leb w 64)) [
      | inl y ↦ rw (n, y) (emit_result-Settled L address place build_integer _ refl refl x)
      | inr m ↦ rw (n, m) (emit_result-Settled L address place build_integer128 _ refl refl x)
    ]
  ]
  create_expression_of_type-Settled (floating d) p h x =
      emit_result-Settled L address place build_float _ refl refl x
  create_expression_of_type-Settled pointer p h x =
      emit_result-Settled L address place build_integer _ refl refl x
  create_expression_of_type-Settled (struct name) p h x =
      emit_result-Settled L address place read_memory _
        (ap (λ (t : Ty). t ∷ integer L.ptr_bits ∷ integer L.ptr_bits ∷ integer 8 ∷ [])
          (expression-type (stored v) x))
        refl x
  create_expression_of_type-Settled (array t n) p h x = absurd (ground (arith, h))
  create_expression_of_type-Settled unsized p h x = absurd (ground (arith, h))

  pub create_value_expression-Settled :
      is_expressible (type_of v) ≡ true
      → Settled L s
      → Returns
          (λ e u. Settled L u × IsExpression u.next e)
          (create_value_expression L address place v s)
  unfolding create_value_expression parameters result
  create_value_expression-Settled h x = elim (Bool-cases (is_null_constant v)) [
    | inl y ↦ rw y (emit_result-Settled L address place build_null_pointer [] refl refl x)
    | inr n ↦ rw n (create_expression_of_type-Settled (type_of v) refl h x)
  ]
