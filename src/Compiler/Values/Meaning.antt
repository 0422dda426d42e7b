-- ===== src/Compiler/Values/Meaning.antt =====
-- The expressions that the calls of `createValueExpression` in compiler/Symbolizer.cpp stand for, by what the
-- functions of the runtime build.
use symcc.Common.{
  arith, ℕ, Bool, ltb, if◌then◌else◌, ◌+◌, ◌*◌, ◌/◌, ◌%◌, ◌^◌, ◌≤◌, ◌<◌, ◌≡◌, ◌⊎◌, refl, ap, sym,
  subst, ◌∙◌, true, false, Option, none, some, List, [], ◌∷◌, ◌++◌, ◌==◌, leb, Bool-cases, inl, inr,
  map,
}
use native.Mathlib.Nat.{mod-eq_of_lt, pow-le-pow_right}
use symcc.Compiler.Ir.{Ty, integer, floating, pointer, struct, array, unsized, DataLayout}
use symcc.Compiler.Handlers.{
  Function, result, build_bool, build_integer, build_integer128, build_null_pointer,
}
use symcc.Compiler.Emission.{
  ptr_to_int, zext_or_bit_cast, trunc, lshr, Value, local, constant_int, null_pointer, emitted,
  convert, equal, stored, type_of, Place, call, State, create, create_call,
}
use symcc.Compiler.Emission.Meaning.{bits_of}
use symcc.Compiler.Values.{is_null_constant, create_expression_of_type, create_value_expression}

-- The values that conversions give: extensions keep a value, and truncations its low bits.
abbrev pub value_of : (env : Value → ℕ) → Value → ℕ
value_of env (constant_int w n) = n
value_of env null_pointer = 0
value_of env (convert zext_or_bit_cast v t) = value_of env v
value_of env (convert trunc v (integer w)) = value_of env v % 2 ^ w
value_of env (convert ptr_to_int v (integer w)) = value_of env v % 2 ^ w
value_of env (convert (lshr k) v t) = value_of env v / 2 ^ k
value_of env v = env v

-- What an expression for a value is: a Boolean, which is of a sort of its own and is true for a value that
-- is not zero, or a bit vector.
pub data Constant : Type 0 where
  boolean : Bool → Constant
  bit_vector : (width value : ℕ) → Constant

-- What the functions build, or nothing for other functions.
abbrev pub built : DataLayout → Function → List ℕ → Option Constant
built L build_bool (v ∷ []) = some (boolean (ltb 0 v))
built L build_integer (v ∷ bits ∷ []) = some (bit_vector bits (v % 2 ^ bits))
built L build_integer128 (high ∷ low ∷ []) = some (bit_vector 128 (high * 2 ^ 64 + low))
built L build_null_pointer [] = some (bit_vector L.ptr_bits 0)
built L _ _ = none

-- What a value of a type has to be: LLVM's type of one bit holds the Booleans.
abbrev pub constant_of : DataLayout → Ty → ℕ → Constant
constant_of L (integer w) v = if w == 1 then boolean (ltb 0 v) else bit_vector w v
constant_of L t v = bit_vector (bits_of L t) v

-- One call is emitted, which builds the constant.
abbrev pub Builds :
    DataLayout → (env : Value → ℕ) → Place → State → Constant → Option (Value × State) → Type 0
Builds L env place s n r =
    (f : Function) × (args : List Value) × (r
      ≡ some (
        emitted s.next pointer,
        record s {
          next = s.next + 1;
          code = s.code ++ record { number = s.next; place = place; code = call f args } ∷ [];
        },
      ))
    × (built L f (map (value_of env) args) ≡ some n)

-- The integers and pointers that are made constants of their own width.
abbrev pub IsWord : DataLayout → Ty → Type 0
IsWord L (integer w) = (w ≤ 64) ⊎ (w ≡ 128)
IsWord L pointer = L.ptr_bits ≤ 64
IsWord L _ = ⊥

null_lem :
    (L : DataLayout) (env : Value → ℕ) (v : Value)
    → is_null_constant v ≡ true
    → ◌≡◌ {A = Option Constant}
        (some (bit_vector L.ptr_bits 0))
        (some (constant_of L (type_of v) (value_of env v)))
null_lem L env null_pointer h = refl
null_lem L env (local id t) h = absurd (ground (arith, h))
null_lem L env (constant_int w n) h = absurd (ground (arith, h))
null_lem L env (emitted n t) h = absurd (ground (arith, h))
null_lem L env (convert c v t) h = absurd (ground (arith, h))
null_lem L env (equal a b) h = absurd (ground (arith, h))
null_lem L env (stored v) h = absurd (ground (arith, h))

module _ (L : DataLayout) (address : Value → ℕ) (env : Value → ℕ) (place : Place) (v : Value)
    (s : State) where
  narrow :
      (w : ℕ)
      → w ≤ 64
      → value_of env v < 2 ^ w
      → ◌≡◌ {A = Option Constant}
          (some (bit_vector (w % 2 ^ 8) (value_of env v % 2 ^ (w % 2 ^ 8))))
          (some (bit_vector w (value_of env v)))
  narrow w h b =
      let e : w % 2 ^ 8 ≡ w = omega arith in
      let f = ap (λ (k : ℕ). value_of env v % 2 ^ k) e ∙ mod-eq_of_lt b in
      λ i. some (bit_vector (e i) (f i))

  wide : (w : ℕ) → (w ≤ 64) ⊎ (w ≡ 128) → leb w 64 ≡ false → w ≡ 128
  wide w (inl l) m = absurd (ground (arith, m))
  wide w (inr e) m = e

  -- The halves of a value of 128 bits.
  halves :
      (w : ℕ)
      → w ≡ 128
      → value_of env v < 2 ^ w
      → ◌≡◌ {A = Option Constant}
          (some
            (bit_vector 128 (value_of env v / 2 ^ 64 % 2 ^ 64 * 2 ^ 64 + value_of env v % 2 ^ 64)))
          (some (bit_vector w (value_of env v)))
  halves w e b =
      let c : value_of env v < 2 ^ 128 = subst (λ (k : ℕ). value_of env v < 2 ^ k) e b in
      let f : value_of env v / 2 ^ 64 % 2 ^ 64 * 2 ^ 64 + value_of env v % 2 ^ 64 ≡ value_of env v =
        omega arith in
      λ i. some (bit_vector (sym e i) (f i))

  integer-Builds :
      (w : ℕ)
      → (w ≤ 64) ⊎ (w ≡ 128)
      → value_of env v < 2 ^ w
      → Builds L env place s
          (constant_of L (integer w) (value_of env v))
          (create_expression_of_type L address place v (integer w) s)
  unfolding create_expression_of_type create_call create result
  integer-Builds w h b = elim (Bool-cases (w == 1)) [
    | inl y ↦ rw y (build_bool, _, refl, refl)
    | inr n ↦ elim (Bool-cases (leb w 64)) [
      | inl y ↦ rw (n, y) (build_integer, _, refl, narrow w (ground (arith, y)) b)
      | inr m ↦ rw (n, m) (build_integer128, _, refl, halves w (wide w h m) b)
    ]
  ]

  word-Builds :
      (t : Ty)
      → IsWord L t
      → value_of env v < 2 ^ bits_of L t
      → Builds L env place s
          (constant_of L t (value_of env v))
          (create_expression_of_type L address place v t s)
  unfolding create_expression_of_type create_call create result
  word-Builds (integer w) h b = integer-Builds w h b
  word-Builds pointer h b =
      let c : value_of env v < 2 ^ 64 =
        omega (arith, pow-le-pow_right {n = 2} (omega arith) {i = L.ptr_bits} {j = 64} h) in
      (
        build_integer,
        _,
        refl,
        ap (λ (k : ℕ). some (bit_vector (L.ptr_bits % 2 ^ 8) (k % 2 ^ (L.ptr_bits % 2 ^ 8))))
              (mod-eq_of_lt c)
            ∙ narrow L.ptr_bits h b,
      )
  word-Builds (floating d) h b = elim h [ ]
  word-Builds (struct name) h b = elim h [ ]
  word-Builds (array t n) h b = elim h [ ]
  word-Builds unsized h b = elim h [ ]

  -- The call that is emitted for a concrete value builds the constant that the value is: for an integer
  -- of one bit a Boolean, which is true for 1 and false for 0; for integers of up to 64 bits, of 128
  -- bits, and for pointers of up to 64 bits, the null pointer included, a bit vector that is as wide
  -- as the value's type and has the value. The value fits its type.
  pub create_value_expression-Builds :
      IsWord L (type_of v)
      → value_of env v < 2 ^ bits_of L (type_of v)
      → Builds L env place s
          (constant_of L (type_of v) (value_of env v))
          (create_value_expression L address place v s)
  unfolding create_value_expression create_call create result
  create_value_expression-Builds h b = elim (Bool-cases (is_null_constant v)) [
    | inl y ↦ rw y (build_null_pointer, [], refl, null_lem L env v y)
    | inr n ↦ rw n (word-Builds (type_of v) h b)
  ]
