-- ===== src/Compiler/Offsets/Bounds.antt =====
-- The offsets that `aggregateMemberOffset` of compiler/Symbolizer.cpp computes, against the sums that they
-- stand for. What is assumed of the layout is that the members of a structure lie in it one after
-- the other, and that an array is as large as its elements.
use symcc.Common.{
  arith, ℕ, ◌+◌, ◌*◌, ◌%◌, ◌^◌, ◌≤◌, ◌<◌, ◌≡◌, sym, ap, subst, ◌∙◌, ◌⊎◌, inl, inr, some, List, [],
  ◌∷◌,
}
use native.Mathlib.Nat.{mul-le-mul_right, add-mul, mul_comm}
use symcc.Compiler.Ir.{Ty, struct, array, DataLayout}
use symcc.Compiler.Offsets.{select_member, member_offset, aggregate_member_offset}

pub record LayoutLaws (L : DataLayout) : Type 0 where
  pub member_count : ℕ → ℕ
  pub member_within :
      (s i : ℕ)
      → i < member_count s
      → L.element_offset s i + L.type_alloc_size (L.element_type s i) ≤ L.type_alloc_size (struct s)
  pub members_apart :
      (s i j : ℕ)
      → i < j
      → j < member_count s
      → L.element_offset s i + L.type_alloc_size (L.element_type s i) ≤ L.element_offset s j
  pub array_size : (t : Ty) (n : ℕ) → L.type_alloc_size (array t n) ≡ n * L.type_alloc_size t

module _ (L : DataLayout) (laws : LayoutLaws L) where
  open laws use {member_count, member_within, members_apart, array_size}

  -- Indices into existing members.
  abbrev pub IsPath : Ty → List ℕ → Type 0
  IsPath t [] = Unit {0}
  IsPath (struct s) (i ∷ is) = (i < member_count s) × IsPath (L.element_type s i) is
  IsPath (array t n) (i ∷ is) = (i < n) × IsPath t is
  IsPath _ (i ∷ is) = ⊥

  -- The type of the member, and the sum of the offsets on the way.
  abbrev pub selected : Ty → List ℕ → Ty
  selected t [] = t
  selected (struct s) (i ∷ is) = selected (L.element_type s i) is
  selected (array t n) (i ∷ is) = selected t is
  selected t (i ∷ is) = t

  abbrev pub sum_of_offsets : Ty → List ℕ → ℕ
  sum_of_offsets t [] = 0
  sum_of_offsets (struct s) (i ∷ is) = L.element_offset s i + sum_of_offsets (L.element_type s i) is
  sum_of_offsets (array t n) (i ∷ is) = i * L.type_alloc_size t + sum_of_offsets t is
  sum_of_offsets t (i ∷ is) = 0

  -- An element lies in its array, and before the next.
  element_within :
      (t : Ty) (i n : ℕ)
      → i < n
      → i * L.type_alloc_size t + L.type_alloc_size t ≤ n * L.type_alloc_size t
  element_within t i n h = omega (
    arith,
    mul-le-mul_right {m = i + 1} {n = n} (L.type_alloc_size t) (omega arith),
    add-mul i 1 (L.type_alloc_size t),
  )

  sum_within :
      (is : List ℕ) (t : Ty)
      → IsPath t is
      → sum_of_offsets t is + L.type_alloc_size (selected t is) ≤ L.type_alloc_size t
  sum_within [] t h = omega arith
  sum_within (i ∷ is) (struct s) (h, p) =
      omega (arith, sum_within is (L.element_type s i) p, member_within s i h)
  sum_within (i ∷ is) (array t n) (h, p) =
      omega (arith, sum_within is t p, element_within t i n h, array_size t n)
  sum_within (i ∷ is) _ h = elim h [ ]

  member_offset_lem :
      (is : List ℕ) (o : ℕ) (t : Ty)
      → IsPath t is
      → L.type_alloc_size t < 2 ^ 32
      → o + L.type_alloc_size t < 2 ^ 64
      → member_offset L o t is ≡ some (o + sum_of_offsets t is)
  unfolding member_offset select_member
  member_offset_lem [] o t h b c = ap some (omega arith)
  member_offset_lem (i ∷ is) o (struct s) (h, p) b c =
      let inside = member_within s i h in
      let u : Ty = L.element_type s i in
      let e : (o + L.element_offset s i) % 2 ^ 64 ≡ o + L.element_offset s i =
        omega (arith, inside) in
      ap (λ (k : ℕ). member_offset L k u is) e
      ∙ member_offset_lem is (o + L.element_offset s i) u p (omega (arith, inside))
          (omega (arith, inside))
      ∙ ap some (omega arith)
  member_offset_lem (i ∷ is) o (array t n) (h, p) b c =
      let inside = element_within t i n h in
      let bound = array_size t n in
      let e : L.type_alloc_size t % 2 ^ 32 ≡ L.type_alloc_size t = omega (arith, inside, bound) in
      let f : L.type_alloc_size t % 2 ^ 32 * i ≡ i * L.type_alloc_size t =
        ap (λ (k : ℕ). k * i) e ∙ mul_comm (L.type_alloc_size t) i in
      let g : (o + L.type_alloc_size t % 2 ^ 32 * i % 2 ^ 32) % 2 ^ 64
          ≡ o + i * L.type_alloc_size t =
        omega (arith, inside, bound, f) in
      ap (λ (k : ℕ). member_offset L k t is) g
      ∙ member_offset_lem is (o + i * L.type_alloc_size t) t p (omega (arith, inside, bound))
          (omega (arith, inside, bound))
      ∙ ap some (omega arith)
  member_offset_lem (i ∷ is) o _ h b c = elim h [ ]

  -- Two members of one aggregate, of which the first comes earlier.
  abbrev pub Before : List ℕ → List ℕ → Ty → Type 0
  Before [] js t = ⊥
  Before (i ∷ is) [] t = ⊥
  Before (i ∷ is) (j ∷ js) (struct s) = (i < j) ⊎ ((i ≡ j) × Before is js (L.element_type s i))
  Before (i ∷ is) (j ∷ js) (array t n) = (i < j) ⊎ ((i ≡ j) × Before is js t)
  Before (i ∷ is) (j ∷ js) t = ⊥

  before_lem :
      (is js : List ℕ) (t : Ty)
      → IsPath t is
      → IsPath t js
      → Before is js t
      → sum_of_offsets t is + L.type_alloc_size (selected t is) ≤ sum_of_offsets t js
  before_lem (i ∷ is) (j ∷ js) (struct s) (h, p) (k, q) (inl l) =
      omega (arith, sum_within is (L.element_type s i) p, members_apart s i j l k)
  before_lem (i ∷ is) (j ∷ js) (struct s) (h, p) (k, q) (inr (e, b)) =
      let ih =
        before_lem is js (L.element_type s i) p
          (subst (λ (m : ℕ). IsPath (L.element_type s m) js) (sym e) q) b in
      omega
        (arith, ih, ap (λ (m : ℕ). L.element_offset s m + sum_of_offsets (L.element_type s m) js) e)
  before_lem (i ∷ is) (j ∷ js) (array t n) (h, p) (k, q) (inl l) =
      omega (arith, sum_within is t p, element_within t i j l)
  before_lem (i ∷ is) (j ∷ js) (array t n) (h, p) (k, q) (inr (e, b)) =
      omega (arith, before_lem is js t p q b, ap (λ (m : ℕ). m * L.type_alloc_size t) e)
  before_lem [] js _ h k b = elim b [ ]
  before_lem (i ∷ is) [] _ h k b = elim b [ ]
  before_lem (i ∷ is) (j ∷ js) _ h k b = elim b [ ]

  -- For indices into existing members of an aggregate of less than 4 GiB, the offset is the sum of the
  -- offsets on the way, the member lies within the aggregate, and a member that comes earlier ends
  -- before it: the insertions and extractions of different members do not touch the same bytes.
  pub aggregate_member_offset_bounds :
      (t : Ty) (is js : List ℕ)
      → IsPath t is
      → IsPath t js
      → Before is js t
      → L.type_alloc_size t < 2 ^ 32
      → (aggregate_member_offset L t is ≡ some (sum_of_offsets t is))
        × (aggregate_member_offset L t js ≡ some (sum_of_offsets t js))
        × (sum_of_offsets t is + L.type_alloc_size (selected t is) ≤ sum_of_offsets t js)
        × (sum_of_offsets t js + L.type_alloc_size (selected t js) ≤ L.type_alloc_size t)
  unfolding aggregate_member_offset
  aggregate_member_offset_bounds t is js p q b h = (
    member_offset_lem is 0 t p h (omega arith) ∙ ap some (omega arith),
    member_offset_lem js 0 t q h (omega arith) ∙ ap some (omega arith),
    before_lem is js t p q b,
    sum_within js t q,
  )
