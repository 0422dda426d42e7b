-- ===== src/Compiler/Offsets.antt =====
-- `aggregateMemberOffset` of compiler/Symbolizer.cpp: where a member of a nested aggregate stands.
pub mod Bounds
use symcc.Common.{ℕ, ◌+◌, ◌*◌, ◌%◌, ◌^◌, Option, none, some, List, [], ◌∷◌, ◌>>=◌}
use symcc.Compiler.Ir.{Ty, struct, array, DataLayout}

module _ (L : DataLayout) where
  -- The member that one index selects: its offset and its type. Other types have no members, which
  -- a cast of the source asserts. The size of an element is an `unsigned int`.
  unfoldable pub select_member : Ty → (index : ℕ) → Option (ℕ × Ty)
  select_member (struct s) index = some (L.element_offset s index, L.element_type s index)
  select_member (array t n) index = some (L.type_alloc_size t % 2 ^ 32 * index % 2 ^ 32, t)
  select_member _ index = none

  -- The sum is a 64-bit integer.
  unfoldable pub member_offset : (offset : ℕ) → Ty → List ℕ → Option ℕ
  member_offset offset t [] = some offset
  member_offset offset t (index ∷ indices) = do
    (o, u) ← select_member t index
    member_offset ((offset + o) % 2 ^ 64) u indices

  unfoldable pub aggregate_member_offset : Ty → List ℕ → Option ℕ
  aggregate_member_offset t indices = member_offset 0 t indices
