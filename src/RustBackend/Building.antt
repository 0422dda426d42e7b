-- ===== src/RustBackend/Building.antt =====
-- The results of the builders of runtime/rust_backend/Runtime.cpp, against the library's answers.
use symcc.Common.{
  arith, ℕ, ◌+◌, ◌%◌, ◌^◌, ◌≤◌, ◌<◌, ◌≡◌, refl, ◌∙◌, ap, false, ◌||◌, none, some, ◌==◌,
}
use symcc.GarbageCollection.{contains, insert}
use symcc.GarbageCollection.Sweep.{contains-insert_lem}
use symcc.RustBackend.{
  RustLibrary, RustState, symexpr_id, symexpr_width, pointer_mod, register_expression, packed,
  build_integer, build_integer128, build_float, get_input_byte, build_null_pointer, build_true,
  build_false, build_bool, build_unary, build_bv, build_boolean, build_sext, build_zext,
  build_trunc, build_int_to_float, build_float_to_float, build_float_to_signed_integer,
  build_bits_to_float, build_float_to_bits, build_float_to_unsigned_integer, build_bool_to_bit,
  concat_helper, extract_helper,
}
use symcc.RustBackend.Requests.{
  Request, build, answer, width_of, integer, integer128, float, input_byte, null_pointer, true_expr,
  false_expr, bool, unary, bv, boolean, sext, zext, trunc, int_to_float, float_to_float,
  float_to_signed_integer, float_to_unsigned_integer, bits_to_float, float_to_bits, bool_to_bit,
  concat, extract,
}
use symcc.RustBackend.Packing.{Packs, symexpr-Packs, symexpr-too_large}

module _ (R : RustLibrary) where
  -- The call of the library is made, and the set of expressions grows by the result alone.
  pub record Registered (t : R.State) (x : ℕ) (s s' : RustState R) : Type 0 where
    pub library : s'.library ≡ t
    pub grows :
        (y : ℕ)
        → contains s'.allocated_expressions y ≡ ((y == x) || contains s.allocated_expressions y)

  packed-Packs :
      (w : ℕ) (f : R.State → ℕ × R.State) (s : RustState R)
      → 0 < (f s.library).0
      → (f s.library).0 < 2 ^ 56
      → (x : ℕ) × (s' : RustState R) × (packed R w f s ≡ some (x, s'))
        × Packs (f s.library).0 (w % 2 ^ 8) x
        × Registered (f s.library).1 x s s'
  unfolding packed register_expression
  packed-Packs w f s pos small =
      let (e, t) = f s.library in
      let (x, run, packs) = symexpr-Packs e w pos small in
      let some_id : (x == 0) ≡ false = ground (arith, packs.not_null) in
      (
        x,
        record s { library = t; allocated_expressions = insert s.allocated_expressions x },
        rw (run, some_id) refl,
        packs,
        record { library = refl; grows = λ y. contains-insert_lem s.allocated_expressions y x },
      )

  packed-too_large :
      (w : ℕ) (f : R.State → ℕ × R.State) (s : RustState R)
      → 2 ^ 56 ≤ (f s.library).0
      → (f s.library).0 < pointer_mod
      → packed R w f s ≡ none
  unfolding packed
  packed-too_large w f s large word = rw (symexpr-too_large (f s.library).0 w large word) refl

  -- Each builder packs the library's answer with the width of its request, in eight bits.
  build_lem : (q : Request R) → build R q ≡ packed R (width_of R q) (answer R q)
  unfolding build_integer build_integer128 build_float get_input_byte build_null_pointer build_true
      build_false build_bool build_unary build_bv build_boolean build_sext build_zext build_trunc
      build_int_to_float build_float_to_float build_float_to_signed_integer build_bits_to_float
      build_float_to_bits build_float_to_unsigned_integer build_bool_to_bit concat_helper
      extract_helper
  build_lem (integer v w) = refl
  build_lem (integer128 h l) = refl
  build_lem (float v d) = refl
  build_lem (input_byte o v) = refl
  build_lem null_pointer = refl
  build_lem true_expr = refl
  build_lem false_expr = refl
  build_lem (bool b) = refl
  build_lem (unary op e) = refl
  build_lem (bv op a b) = refl
  build_lem (boolean op a b) = refl
  build_lem (sext e w) = refl
  build_lem (zext e w) = refl
  build_lem (trunc e w) = refl
  build_lem (int_to_float e d g) = refl
  build_lem (float_to_float e d) = refl
  build_lem (float_to_signed_integer e w) = refl
  build_lem (float_to_unsigned_integer e w) = refl
  build_lem (bits_to_float e n d) = rw n refl
  build_lem (float_to_bits e n) = rw n refl
  build_lem (bool_to_bit e) = refl
  build_lem (concat a b) = refl
  build_lem (extract e f l) = refl

  -- Each builder, when the library answers with a number from 1 to 2^56 - 1, and when the operand is
  -- not null of the two that give null for a null pointer (`_sym_build_bits_to_float` and
  -- `_sym_build_float_to_bits`): the result is not null and has the number of the answer and the width of the request,
  -- but for the bits of the width above the eighth; it is added to the expressions that are kept
  -- for the collection, and nothing else is.
  pub build-Packs :
      (q : Request R) (s : RustState R)
      → 0 < (answer R q s.library).0
      → (answer R q s.library).0 < 2 ^ 56
      → (x : ℕ) × (s' : RustState R) × (build R q s ≡ some (x, s'))
        × Packs (answer R q s.library).0 (width_of R q % 2 ^ 8) x
        × Registered (answer R q s.library).1 x s s'
  build-Packs q s pos small =
      rw (build_lem q) (packed-Packs (width_of R q) (answer R q) s pos small)

  -- A number of the library that needs more than 56 bits is no expression: the assertion of the
  -- packing fails in each of these builders.
  pub build-too_large :
      (q : Request R) (s : RustState R)
      → 2 ^ 56 ≤ (answer R q s.library).0
      → (answer R q s.library).0 < pointer_mod
      → build R q s ≡ none
  build-too_large q s large word =
      rw (build_lem q) (packed-too_large (width_of R q) (answer R q) s large word)

  -- The concatenation of two expressions whose widths make up 256 bits has, when the library
  -- answers with a number from 1 to 2^56 - 1, an expression of width 0.
  pub concat_helper-wraps :
      (a b : ℕ) (s : RustState R)
      → symexpr_width a + symexpr_width b ≡ 256
      → 0 < (R.concat (symexpr_id a) (symexpr_id b) s.library).0
      → (R.concat (symexpr_id a) (symexpr_id b) s.library).0 < 2 ^ 56
      → (x : ℕ) × (s' : RustState R) × (concat_helper R a b s ≡ some (x, s'))
        × (symexpr_width x ≡ 0)
  concat_helper-wraps a b s wide pos small =
      let (x, s', run, packs, _) = build-Packs (concat a b) s pos small in
      (x, s', run, packs.width ∙ ap (λ w. w % 2 ^ 8) wide)
