-- ===== src/Compiler/Addresses/Correct.antt =====
-- The address that `visitGetElementPtrInst` of compiler/Symbolizer.cpp computes, against the meaning of the
-- instruction.
use symcc.Common.{
  arith, ℕ, ◌+◌, ◌%◌, ◌^◌, ◌<◌, ◌≡◌, refl, ap, sym, subst, ◌∙◌, Bool, true, false, ◌&&◌, some, List,
  [], ◌∷◌, ◌++◌, not, is_some,
}
use mathlib.Core.List.{append-nil}
use symcc.Common.Cmd.{Returns, returns, Returns-bind}
use symcc.Compiler.Ir.{pointer, DataLayout}
use symcc.Compiler.Emission.{
  Value, type_of, before, SymbolicComputation, empty_computation, last_value, State,
  get_symbolic_expression, Emitted, Input, register_symbolic_computation,
}
use symcc.Compiler.Emission.Meaning.{Number, concrete, plain, bits_of, AreResults}
use symcc.Compiler.Addresses.{Step, all_zero, all_concrete, visit_get_element_ptr_inst}
use symcc.Compiler.Addresses.Contributions.{contributions, AreIndices, width_lem}
use symcc.Compiler.Addresses.Sums.{Reaches, address_steps-Reaches}

-- The computation that is recorded for the instruction, with the calls that are emitted, gives the
-- number `n`, as wide as a pointer.
abbrev pub Computes :
    DataLayout → (env : Value → ℕ) → (results : ℕ → Number) → State → (id n : ℕ) → State → Type 0
Computes L env results s id n u =
    (new : List Emitted) × (c : SymbolicComputation) × (u.code ≡ s.code ++ new)
    × (u.expression_uses ≡ s.expression_uses ++ c ∷ [])
    × (u.symbolic_expressions id ≡ some (last_value c))
    × (AreResults L env results c.inputs new
        → ((plain L env results (last_value c)).0 ≡ L.ptr_bits)
          × ((plain L env results (last_value c)).1 % 2 ^ L.ptr_bits ≡ n % 2 ^ L.ptr_bits))

module _ (L : DataLayout) (address : Value → ℕ) (env : Value → ℕ) (results : ℕ → Number) (s : State)
    (small : L.ptr_bits < 2 ^ 8) where
  -- The loop starts at the pointer operand.
  start_lem :
      (ptr : Value)
      → type_of ptr ≡ pointer
      → Reaches L address env results s small
          (concrete L env ptr).1
          (empty_computation, ptr, true)
          s
  start_lem ptr p = (
    record { emitted_since = []; code_lem = sym (append-nil s.code); uses_lem = refl; before = tt },
    (λ after u r. (
      (concrete L env ptr).1,
      (λ i. ((width_lem L env ptr ∙ ap (bits_of L) p) i, (concrete L env ptr).1)),
      refl,
    )),
    (λ (e : true ≡ false). cc),
  )

  register_lem :
      (id n : ℕ) (r : SymbolicComputation × Value × Bool) (t : State)
      → Reaches L address env results s small n r t
      → r.2 ≡ false
      → Returns
          (λ _ u. Computes L env results s id n u)
          (register_symbolic_computation r.0 (some id) t)
  unfolding register_symbolic_computation
  register_lem id n (c, v, false) t (w, g, l) f = returns (
    w.emitted_since,
    c,
    w.code_lem,
    ap (λ (us : List SymbolicComputation). us ++ c ∷ []) w.uses_lem,
    ground arith,
    (λ r.
        let (a, e, q) = g [] tt (
          subst (λ (is : List Input). AreResults L env results is w.emitted_since)
            (sym (append-nil c.inputs)) r) in
        let k = ap (plain L env results) (sym (l refl)) ∙ e in
        (ap (λ (x : Number). x.0) k, ap (λ (x : Number). x.1 % 2 ^ L.ptr_bits) k ∙ q)),
  )
  register_lem id n (c, v, true) t w f = absurd (ground (arith, f))

  -- The calls that are emitted for a `getelementptr` compute its address, on the slow path, where
  -- inputs stand for their concrete values: the last result is as wide as a pointer, and equal, modulo
  -- that width, to the pointer operand plus the offset of each member plus each index times the
  -- size of an element, the index taken with its sign. The instruction gets this result as its
  -- expression. The pointer operand is a pointer; the indices are integers no wider than a pointer,
  -- which has less than 256 bits; offsets and sizes are below 2^32; an operand is symbolic, and
  -- an index is not zero.
  pub visit_get_element_ptr_inst-Computes :
      (id : ℕ) (ptr : Value) (steps : List Step)
      → type_of ptr ≡ pointer
      → AreIndices L env steps
      → (not (is_some (get_symbolic_expression s ptr)) && all_concrete s steps) ≡ false
      → all_zero steps ≡ false
      → Returns
          (λ _ u.
            Computes L env results s id (contributions L env steps + (concrete L env ptr).1) u)
          (visit_get_element_ptr_inst L address id ptr steps s)
  unfolding visit_get_element_ptr_inst
  visit_get_element_ptr_inst-Computes id ptr steps p i h z =
      rw (h, z)
        (Returns-bind
          (address_steps-Reaches L address env results s small (before id) steps
            (concrete L env ptr).1 (empty_computation, ptr, true) s i z (start_lem ptr p))
          λ r t (q, f). register_lem id _ r t q f)
