-- ===== src/Compiler/Addresses/Sums.antt =====
-- The loop of `visitGetElementPtrInst` in compiler/Symbolizer.cpp, round by round: the sum so far.
use symcc.Common.{
  arith, ℕ, ◌+◌, ◌-◌, ◌*◌, ◌%◌, ◌^◌, ◌<◌, ◌≡◌, refl, ap, sym, subst, ◌∙◌, Bool, true, false, ◌&&◌,
  some, List, [], ◌∷◌, Bool-cases, inl, inr,
}
use symcc.Common.Powers.{two_pow_pos}
use native.Mathlib.Nat.{mod-mod}
use symcc.Common.Cmd.{Returns, returns, Returns-bind, Returns-mono, and_then}
use symcc.Compiler.Ir.{Ty, DataLayout}
use symcc.Compiler.Handlers.{result, build_add}
use symcc.Compiler.Emission.{
  Value, constant_int, emitted, local, null_pointer, convert, equal, stored, Place,
  SymbolicComputation, last_value, State, int_ptr,
}
use symcc.Compiler.Emission.Meaning.{Number, apply, concrete, plain, argument_numbers, Trace, Given}
use symcc.Compiler.Emission.Tracing.{append_call-Given}
use symcc.Compiler.Addresses.{
  Step, member_step, element_step, operand, is_zero, all_zero, add_contribution, address_step,
  address_steps,
}
use symcc.Compiler.Addresses.Contributions.{
  add_congruent, index_value, contribution, contributions, IsIndex, wrapped, AreIndices,
}
use symcc.Compiler.Addresses.Scaling.{scale-Given}

module _ (L : DataLayout) (address : Value → ℕ) (env : Value → ℕ) (results : ℕ → Number)
    (start : State) (small : L.ptr_bits < 2 ^ 8) where
  -- What an argument stands for.
  abbrev pub argument : Value → Bool → Number
  argument v true = concrete L env v
  argument v false = plain L env results v

  two_arguments :
      (a b : Value) (x y : Bool)
      → argument_numbers L env results ((a, x) ∷ (b, y) ∷ []) ≡ argument a x ∷ argument b y ∷ []
  two_arguments a b true true = refl
  two_arguments a b true false = refl
  two_arguments a b false true = refl
  two_arguments a b false false = refl

  -- An argument that stands for `n`, as wide as a pointer.
  abbrev pub At : Value → Bool → ℕ → Type 0
  At v b n = (a : ℕ) × (argument v b ≡ (L.ptr_bits, a)) × (a % 2 ^ L.ptr_bits ≡ n % 2 ^ L.ptr_bits)

  -- Where the loop stands, with the sum so far.
  abbrev pub Reaches : ℕ → SymbolicComputation × Value × Bool → State → Type 0
  Reaches n (c, v, b) s =
      (t : Trace start c s) × Given L env results t (At v b n) × (b ≡ false → v ≡ last_value c)

  sum_of :
      (a b : Value) (x y : Bool) (m n : ℕ)
      → At a x m
      → At b y n
      → apply build_add (argument_numbers L env results ((a, x) ∷ (b, y) ∷ [])) ≡ wrapped L (m + n)
  sum_of a b x y m n (i, p, q) (j, r, s) =
      ap (apply build_add) (two_arguments a b x y ∙ (λ k. p k ∷ r k ∷ []))
      ∙ ap (λ (k : ℕ). (L.ptr_bits, k)) (add_congruent i m j n _ q s)

  -- An addition to the sum so far.
  add_contribution-Reaches :
      (place : Place) (a v : Value) (x b : Bool) (m n : ℕ) (c : SymbolicComputation) (s : State)
      (t : Trace start c s)
      → Given L env results t (At a x m × At v b n)
      → Returns
          (λ r u. Reaches (m + n) r u × (r.2 ≡ false))
          (and_then
            (add_contribution L address place (a, x) (v, b) c s)
            (λ d u. some ((d, last_value d, false), u)))
  unfolding add_contribution result
  add_contribution-Reaches place a v x b m n c s t g =
      Returns-bind
        (append_call-Given L address env results t (Unit {0}) (wrapped L (m + n)) place build_add
          ((a, x) ∷ (v, b) ∷ [])
          (λ after u r. let (p, q) = g after u r in (tt, sum_of a v x b m n p q)))
        λ d u (r, h). returns (
          (
            r,
            (λ after k e.
                ((m + n) % 2 ^ L.ptr_bits, (h after k e).1, mod-mod (m + n) (2 ^ L.ptr_bits))),
            (λ _. refl),
          ),
          refl,
        )

  -- An element whose index is zero contributes nothing.
  zero_index : (index : Value) → is_zero index ≡ true → index_value L env index ≡ 0
  zero_index (constant_int w n) h = ground (arith, h, two_pow_pos (w - 1))
  zero_index (local id t) h = absurd (ground (arith, h))
  zero_index null_pointer h = absurd (ground (arith, h))
  zero_index (emitted n t) h = absurd (ground (arith, h))
  zero_index (convert c v t) h = absurd (ground (arith, h))
  zero_index (equal a b) h = absurd (ground (arith, h))
  zero_index (stored v) h = absurd (ground (arith, h))

  offset_lem :
      (name i : ℕ)
      → i < 2 ^ 32
      → L.element_offset name i < 2 ^ 32
      → At
          (int_ptr L address (L.element_offset name (i % 2 ^ 32) % 2 ^ 32))
          true
          (L.element_offset name i)
  offset_lem name i h k =
      let e : i % 2 ^ 32 ≡ i = omega arith in
      let f : L.element_offset name i % 2 ^ 32 ≡ L.element_offset name i = omega (arith, k) in
      (
        _,
        refl,
        mod-mod _ (2 ^ L.ptr_bits)
            ∙ ap (λ (z : ℕ). z % 2 ^ L.ptr_bits)
                (ap (λ (z : ℕ). L.element_offset name z % 2 ^ 32) e ∙ f),
      )

  scaled_lem :
      (index : Value) (ty : Ty)
      → L.type_alloc_size ty < 2 ^ 32
      → (v : Value)
      → plain L env results v
        ≡ wrapped L (index_value L env index * (L.type_alloc_size ty % 2 ^ 32))
      → At v false (index_value L env index * L.type_alloc_size ty)
  scaled_lem index ty h v e =
      let f : L.type_alloc_size ty % 2 ^ 32 ≡ L.type_alloc_size ty = omega (arith, h) in
      (
        _,
        e,
        mod-mod _ (2 ^ L.ptr_bits) ∙ ap (λ (z : ℕ). index_value L env index * z % 2 ^ L.ptr_bits) f,
      )

  still :
      (v : Value) (b : Bool) (index : Value) (ty : Ty) (n : ℕ)
      → is_zero index ≡ true
      → At v b n
      → At v b (index_value L env index * L.type_alloc_size ty + n)
  still v b index ty n y (a, e, f) =
      let z : n ≡ 0 * L.type_alloc_size ty + n = omega arith in
      (
        a,
        e,
        f
            ∙ ap (λ (k : ℕ). k % 2 ^ L.ptr_bits)
                (z ∙ ap (λ (k : ℕ). k * L.type_alloc_size ty + n) (sym (zero_index index y))),
      )

  and_true : (b : Bool) → (b && true) ≡ false → b ≡ false
  and_true true h = h
  and_true false h = refl

  address_step-Reaches :
      (place : Place) (x : Step) (n : ℕ) (acc : SymbolicComputation × Value × Bool) (s : State)
      → IsIndex L env x
      → Reaches n acc s
      → Returns
          (λ r u.
            Reaches (contribution L env x + n) r u
            × ((acc.2 && is_zero (operand x)) ≡ false → r.2 ≡ false))
          (address_step L address place x acc s)
  unfolding address_step
  address_step-Reaches place (member_step name i) n (c, v, b) s (h, k) (t, g, l) =
      Returns-mono
        (add_contribution-Reaches place _ v true b (L.element_offset name i) n c s t
          (λ after u r. (offset_lem name i h k, g after u r)))
        λ _ _ (q, e). (q, λ _. e)
  address_step-Reaches place (element_step ty index) n (c, v, b) s (w, p, q, h) (t, g, l) =
      elim (Bool-cases (is_zero index)) [
        | inl y ↦
            rw y (returns ((t, (λ after u r. still v b index ty n y (g after u r)), l), and_true b))
        | inr m ↦ rw m (
            Returns-bind
              (scale-Given L address env results start small index w p q place
                (L.type_alloc_size ty % 2 ^ 32) c s t (At v b n) g)
              λ d u (r, k).
                Returns-mono
                  (add_contribution-Reaches place (last_value d) v false b
                    (index_value L env index * L.type_alloc_size ty) n d u r
                    (λ after z j.
                      (scaled_lem index ty h (last_value d) (k after z j).1, (k after z j).0)))
                  λ _ _ (x, e). (x, λ _. e))
      ]

  pub address_steps-Reaches :
      (place : Place) (xs : List Step) (n : ℕ) (acc : SymbolicComputation × Value × Bool)
      (s : State)
      → AreIndices L env xs
      → (acc.2 && all_zero xs) ≡ false
      → Reaches n acc s
      → Returns
          (λ r u. Reaches (contributions L env xs + n) r u × (r.2 ≡ false))
          (address_steps L address place xs acc s)
  unfolding address_steps
  address_steps-Reaches place [] n acc s i z w =
      returns (subst (λ (k : ℕ). Reaches k acc s) (omega arith) w, ground (arith, z))
  address_steps-Reaches place (x ∷ xs) n acc s (i, is) z w =
      Returns-bind (address_step-Reaches place x n acc s i w) λ acc' t (q, e).
        Returns-mono
          (address_steps-Reaches place xs (contribution L env x + n) acc' t is (rest acc' e) q)
          λ r u (p, f). (subst (λ (k : ℕ). Reaches k r u) (omega arith) p, f)
    where
      rest :
          (acc' : SymbolicComputation × Value × Bool)
          → ((acc.2 && is_zero (operand x)) ≡ false → acc'.2 ≡ false)
          → (acc'.2 && all_zero xs) ≡ false
      rest acc' e = elim (Bool-cases (acc.2 && is_zero (operand x))) [
        | inl y ↦ ground (arith, y, z)
        | inr m ↦ ground (arith, e m)
      ]
