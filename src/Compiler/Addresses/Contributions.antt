-- ===== src/Compiler/Addresses/Contributions.antt =====
-- The meaning of `getelementptr`, which compiler/Symbolizer.cpp computes by emitted calls: the pointer, plus
-- the offset of each member, plus each index, with its sign, times the size of an element.
use symcc.Common.{ℕ, ◌+◌, ◌*◌, ◌/◌, ◌%◌, ◌^◌, ◌≤◌, ◌<◌, ◌≡◌, refl, ap, sym, ◌∙◌, List, [], ◌∷◌}
use native.Mathlib.Nat.{add-mod, mod-add-div, mul-add, mul_left_comm, add-mul-mod_self_left}
use symcc.Compiler.Ir.{integer, DataLayout}
use symcc.Compiler.Emission.{
  Value, constant_int, emitted, local, null_pointer, convert, equal, stored, type_of,
}
use symcc.Compiler.Emission.Meaning.{Number, sign_extend, concrete, bits_of}
use symcc.Compiler.Addresses.{Step, member_step, element_step}

pub mul-mod-mod : (i a m : ℕ) → i * (a % m) % m ≡ i * a % m
mul-mod-mod i a m =
    sym (add-mul-mod_self_left (i * (a % m)) m (i * (a / m)))
    ∙ ap (λ (k : ℕ). k % m)
        (ap (λ (k : ℕ). i * (a % m) + k) (mul_left_comm m i (a / m))
          ∙ sym (mul-add i (a % m) (m * (a / m)))
          ∙ ap (λ (k : ℕ). i * k) (mod-add-div a m))

pub add_congruent : (a b c d m : ℕ) → a % m ≡ b % m → c % m ≡ d % m → (a + c) % m ≡ (b + d) % m
add_congruent a b c d m p q = add-mod a c m ∙ ap2 p q ∙ sym (add-mod b d m)
  where
    ap2 : {x y z w : ℕ} → x ≡ y → z ≡ w → (x + z) % m ≡ (y + w) % m
    ap2 e f = λ i. (e i + f i) % m

-- A number as wide as a pointer.
abbrev pub wrapped : DataLayout → ℕ → Number
wrapped L n = (L.ptr_bits, n % 2 ^ L.ptr_bits)

module _ (L : DataLayout) (env : Value → ℕ) where
  -- An index with its sign, in as many bits as a pointer has.
  abbrev pub index_value : Value → ℕ
  index_value v = sign_extend (concrete L env v).0 L.ptr_bits (concrete L env v).1

  abbrev pub contribution : Step → ℕ
  contribution (member_step name i) = L.element_offset name i
  contribution (element_step t index) = index_value index * L.type_alloc_size t

  abbrev pub contributions : List Step → ℕ
  contributions [] = 0
  contributions (x ∷ xs) = contribution x + contributions xs

  -- An index is an integer, no wider than a pointer. Sizes and offsets fit into 32 bits.
  abbrev pub IsIndex : Step → Type 0
  IsIndex (member_step name i) = (i < 2 ^ 32) × (L.element_offset name i < 2 ^ 32)
  IsIndex (element_step t index) =
      (w : ℕ) × (type_of index ≡ integer w) × (w ≤ L.ptr_bits) × (L.type_alloc_size t < 2 ^ 32)

  abbrev pub AreIndices : List Step → Type 0
  AreIndices [] = Unit {0}
  AreIndices (x ∷ xs) = IsIndex x × AreIndices xs

  pub width_lem : (v : Value) → (concrete L env v).0 ≡ bits_of L (type_of v)
  width_lem (constant_int w n) = refl
  width_lem (local id t) = refl
  width_lem null_pointer = refl
  width_lem (emitted n t) = refl
  width_lem (convert c v t) = refl
  width_lem (equal a b) = refl
  width_lem (stored v) = refl
