-- ===== src/Compiler/Values.antt =====
-- `createValueExpression` of compiler/Symbolizer.cpp: the call that makes an expression for a concrete
-- value.
pub mod Emitted
pub mod Meaning
use symcc.Common.{
  ℕ, ◌%◌, ◌^◌, Bool, true, false, Option, none, some, List, [], ◌∷◌, ◌==◌, leb, if◌then◌else◌,
}
use symcc.Common.Cmd.{pure, ◌>>=◌}
use symcc.Compiler.Ir.{
  Ty, integer, floating, pointer, struct, array, unsized, DataLayout, int_ptr_type,
}
use symcc.Compiler.Handlers.{
  build_null_pointer, build_bool, build_integer, build_integer128, build_float, read_memory,
}
use symcc.Compiler.Emission.{
  ptr_to_int, zext_or_bit_cast, trunc, fp_cast, lshr, Value, local, constant_int, null_pointer,
  emitted, convert, equal, stored, type_of, Place, Emit, expression_or_null, int_ptr, create_call,
}

-- `isa<ConstantPointerNull>`
abbrev pub is_null_constant : Value → Bool
is_null_constant null_pointer = true
is_null_constant _ = false

abbrev pub int8 : ℕ → Value
int8 n = constant_int 8 (n % 2 ^ 8)

abbrev pub int1 : Bool → Value
int1 b = constant_int 1 (if b then 1 else 0)

module _ (L : DataLayout) (address : Value → ℕ) where
  -- By the type of the value. There is no code for an array or a type without values.
  unfoldable pub create_expression_of_type : Place → Value → Ty → Emit Value
  create_expression_of_type place v (integer bits) =
      if bits == 1
      then create_call L address place build_bool (v ∷ [])
      else (if leb bits 64
          then create_call L address place build_integer
              (convert zext_or_bit_cast v (integer 64) ∷ int8 bits ∷ [])
          else create_call L address place build_integer128 (
              convert trunc (convert (lshr 64) v (integer bits)) (integer 64)
              ∷ convert trunc v (integer 64)
              ∷ []))
  create_expression_of_type place v (floating is_double) =
      create_call L address place build_float
        (convert fp_cast v (floating true) ∷ int1 is_double ∷ [])
  create_expression_of_type place v pointer =
      create_call L address place build_integer
        (convert ptr_to_int v (integer 64) ∷ int8 L.ptr_bits ∷ [])
  create_expression_of_type place v (struct name) = do
    pointer_expr ← expression_or_null (stored v)
    create_call L address place read_memory (
        pointer_expr
        ∷ convert ptr_to_int (stored v) (int_ptr_type L)
        ∷ int_ptr L address (L.type_store_size (struct name))
        ∷ int8 0
        ∷ [])
  create_expression_of_type place v (array t n) = λ s. none
  create_expression_of_type place v unsized = λ s. none

  unfoldable pub create_value_expression : Place → Value → Emit Value
  create_value_expression place v =
      if is_null_constant v
      then create_call L address place build_null_pointer []
      else create_expression_of_type place v (type_of v)
