-- ===== src/Compiler/Ir.antt =====
-- The types of LLVM's intermediate representation and the layout of data in memory, as
-- compiler/Symbolizer.cpp asks for them. LLVM itself is not modelled: a structure is a number, and its
-- members are part of the layout, which is a parameter.
use symcc.Common.{ℕ, Bool, true, false, not, ◌&&◌}

-- `floating true` is `double`; `unsized` stands for types without values, as `void`.
pub data Ty : Type 0 where
  integer : (width : ℕ) → Ty
  floating : (is_double : Bool) → Ty
  pointer : Ty
  struct : (name : ℕ) → Ty
  array : (element : Ty) (count : ℕ) → Ty
  unsized : Ty

-- `DataLayout`, and the members of the structures.
pub record DataLayout : Type 0 where
  pub little_endian : Bool
  pub ptr_bits : ℕ
  pub type_store_size : Ty → ℕ
  pub type_alloc_size : Ty → ℕ
  pub element_type : (name index : ℕ) → Ty
  pub element_offset : (name index : ℕ) → ℕ

abbrev pub is_aggregate_type : Ty → Bool
is_aggregate_type (struct s) = true
is_aggregate_type (array t n) = true
is_aggregate_type _ = false

unfoldable pub is_little_endian : DataLayout → Ty → Bool
is_little_endian L t = not (is_aggregate_type t) && L.little_endian

-- The integer type at least as wide as a pointer.
abbrev pub int_ptr_type : DataLayout → Ty
int_ptr_type L = integer L.ptr_bits
