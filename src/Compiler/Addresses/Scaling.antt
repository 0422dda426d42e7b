-- ===== src/Compiler/Addresses/Scaling.antt =====
-- The product of an index with the size of an element, in `visitGetElementPtrInst` of
-- compiler/Symbolizer.cpp.
use symcc.Common.{
  arith, ℕ, ◌+◌, ◌-◌, ◌*◌, ◌%◌, ◌^◌, ◌≤◌, ◌<◌, ◌≡◌, refl, ap, sym, ◌∙◌, true, false, [], ◌∷◌, ◌==◌,
  ltb, Bool-cases, inl, inr, eq_of_==,
}
use symcc.Common.Cmd.{Returns, Returns-bind}
use symcc.Compiler.Ir.{integer, DataLayout}
use symcc.Compiler.Handlers.{result, build_sext, build_mul}
use symcc.Compiler.Emission.{
  Value, constant_int, type_of, Place, SymbolicComputation, merge, last_value, State, int_ptr,
}
use symcc.Compiler.Emission.Meaning.{
  Number, sign_extend, apply, concrete, plain, bits_of, Trace, Given,
}
use symcc.Compiler.Emission.Tracing.{append_call-Given, force_build_runtime_call-Given}
use symcc.Compiler.Addresses.{integer_bit_width, scale}
use symcc.Compiler.Addresses.Contributions.{mul-mod-mod, index_value, wrapped, width_lem}

module _ (L : DataLayout) (address : Value → ℕ) (env : Value → ℕ) (results : ℕ → Number)
    (start : State) (small : L.ptr_bits < 2 ^ 8) where
  -- The product of a number with the size of an element.
  product_lem :
      (x : Number) (k size : ℕ)
      → x ≡ (L.ptr_bits, k)
      → apply build_mul (x ∷ concrete L env (int_ptr L address size) ∷ []) ≡ wrapped L (k * size)
  product_lem x k size e =
      ap (λ (z : Number). apply build_mul (z ∷ concrete L env (int_ptr L address size) ∷ [])) e
      ∙ ap (λ (z : ℕ). (L.ptr_bits, z)) (mul-mod-mod k size (2 ^ L.ptr_bits))

  same_width : (p i : ℕ) → sign_extend p p i ≡ i
  same_width p i = elim (Bool-cases (ltb i (2 ^ (p - 1)))) [
    | inl y ↦ rw y refl
    | inr n ↦ rw n (omega arith)
  ]

  module _ (index : Value) (w : ℕ) (typed : type_of index ≡ integer w)
      (narrow : w ≤ L.ptr_bits) where
    width : (concrete L env index).0 ≡ w
    width = width_lem L env index ∙ ap (bits_of L) typed

    unextended : w ≡ L.ptr_bits → concrete L env index ≡ (L.ptr_bits, index_value L env index)
    unextended e =
        let v = (concrete L env index).1 in
        let f = width ∙ e in
        λ k. (
          f k,
          (sym (same_width L.ptr_bits v) ∙ ap (λ (m : ℕ). sign_extend m L.ptr_bits v) (sym f)) k,
        )

    extended :
        apply build_sext (
          concrete L env index
          ∷ (8, (L.ptr_bits + (2 ^ 32 - integer_bit_width (type_of index))) % 2 ^ 8)
          ∷ [])
        ≡ (L.ptr_bits, index_value L env index)
    extended =
        let v = (concrete L env index).1 in
        let m = (concrete L env index).0 in
        let e : m + (L.ptr_bits + (2 ^ 32 - integer_bit_width (type_of index))) % 2 ^ 8
            ≡ L.ptr_bits =
          omega (arith, width, ap integer_bit_width typed) in
        λ k. (e k, sign_extend m (e k) v)

    pub scale-Given :
        (place : Place) (size : ℕ) (c : SymbolicComputation) (s : State) (t : Trace start c s)
        (Q : Type 0)
        → Given L env results t Q
        → Returns
            (λ d u.
              (r : Trace start d u) × Given L env results r (
                Q
                × (plain L env results (last_value d)
                    ≡ wrapped L (index_value L env index * size))))
            (scale L address place size index c s)
    unfolding scale result
    scale-Given place size c s t Q g =
        elim (Bool-cases (integer_bit_width (type_of index) == L.ptr_bits)) [
          | inl y ↦ rw y (
              append_call-Given L address env results t Q _ place build_mul
                ((index, true) ∷ (int_ptr L address size, true) ∷ [])
                (λ after u r. (
                  g after u r,
                  product_lem (concrete L env index) (index_value L env index) size
                      (unextended (sym (ap integer_bit_width typed) ∙ eq_of_== _ _ y)),
                )))
          | inr n ↦ rw n (
              Returns-bind
                (force_build_runtime_call-Given L address env results t Q _ place build_sext
                  ((index, true) ∷ (constant_int 8 _, false) ∷ [])
                  (λ after u r. (g after u r, extended)))
                λ d u (r, h).
                  append_call-Given L address env results r Q _ place build_mul
                    ((last_value (merge c d), false) ∷ (int_ptr L address size, true) ∷ [])
                    (λ after v k. (
                      (h after v k).0,
                      product_lem (plain L env results (last_value (merge c d)))
                          (index_value L env index) size (h after v k).1,
                    )))
        ]
