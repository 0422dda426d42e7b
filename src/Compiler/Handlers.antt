-- ===== src/Compiler/Handlers.antt =====
-- compiler/Runtime.cpp: the functions of the runtime that instrumented code calls, their declared types,
-- and the tables of the functions for binary operators and comparisons.
use symcc.Common.{true, Option, none, some, List, [], ◌∷◌}
use symcc.Compiler.Ir.{Ty, integer, floating, pointer, unsized, DataLayout, int_ptr_type}

-- `Instruction::BinaryOps`
pub data BinaryOps : Type 0 where
  add sub mul udiv sdiv urem srem shl lshr ashr and_op or_op xor_op fadd fsub fmul : BinaryOps
  fdiv frem : BinaryOps

-- `CmpInst::Predicate`
pub data Predicate : Type 0 where
  icmp_eq icmp_ne icmp_ugt icmp_uge icmp_ult icmp_ule icmp_sgt icmp_sge icmp_slt : Predicate
  icmp_sle fcmp_ogt fcmp_oge fcmp_olt fcmp_ole fcmp_oeq fcmp_one fcmp_ord fcmp_uno : Predicate
  fcmp_ugt fcmp_uge fcmp_ult fcmp_ule fcmp_ueq fcmp_une fcmp_false fcmp_true : Predicate

-- The functions, by the names that `Runtime` gives them; those of the two tables are named by what
-- they build.
pub data Function : Type 0 where
  build_integer build_integer128 build_float build_null_pointer build_true : Function
  build_false build_bool build_sext build_zext build_trunc build_bswap : Function
  build_int_to_float build_float_to_float build_bits_to_float build_float_to_bits : Function
  build_float_to_signed_int build_float_to_unsigned_int build_float_abs : Function
  build_bool_and build_bool_or build_bool_xor build_bool_to_bit push_path_constraint : Function
  push_switch_constraint concretize_pointer concretize_size set_parameter_expression : Function
  get_parameter_expression set_return_expression get_return_expression memcpy memset : Function
  memmove read_memory write_memory build_insert build_extract notify_call notify_ret : Function
  notify_basic_block : Function
  build_add build_sub build_mul build_unsigned_div build_signed_div : Function
  build_unsigned_rem build_signed_rem build_shift_left build_logical_shift_right : Function
  build_arithmetic_shift_right build_and build_or build_xor build_fp_add : Function
  build_fp_sub build_fp_mul build_fp_div build_fp_rem : Function
  build_equal build_not_equal build_unsigned_greater_than : Function
  build_unsigned_greater_equal build_unsigned_less_than build_unsigned_less_equal : Function
  build_signed_greater_than build_signed_greater_equal build_signed_less_than : Function
  build_signed_less_equal build_float_ordered_greater_than : Function
  build_float_ordered_greater_equal build_float_ordered_less_than : Function
  build_float_ordered_less_equal build_float_ordered_equal : Function
  build_float_ordered_not_equal build_float_ordered build_float_unordered : Function
  build_float_unordered_greater_than build_float_unordered_greater_equal : Function
  build_float_unordered_less_than build_float_unordered_less_equal : Function
  build_float_unordered_equal build_float_unordered_not_equal : Function

-- The declared types of the parameters, and of the result.
unfoldable pub parameters : DataLayout → Function → List Ty
parameters L build_integer = integer 64 ∷ integer 8 ∷ []
parameters L build_integer128 = integer 64 ∷ integer 64 ∷ []
parameters L build_float = floating true ∷ integer 1 ∷ []
parameters L build_null_pointer = []
parameters L build_true = []
parameters L build_false = []
parameters L build_bool = integer 1 ∷ []
parameters L build_sext = pointer ∷ integer 8 ∷ []
parameters L build_zext = pointer ∷ integer 8 ∷ []
parameters L build_trunc = pointer ∷ integer 8 ∷ []
parameters L build_bswap = pointer ∷ []
parameters L build_int_to_float = pointer ∷ integer 1 ∷ integer 1 ∷ []
parameters L build_float_to_float = pointer ∷ integer 1 ∷ []
parameters L build_bits_to_float = pointer ∷ integer 1 ∷ []
parameters L build_float_to_bits = pointer ∷ []
parameters L build_float_to_signed_int = pointer ∷ integer 8 ∷ []
parameters L build_float_to_unsigned_int = pointer ∷ integer 8 ∷ []
parameters L build_float_abs = pointer ∷ []
parameters L build_bool_and = pointer ∷ pointer ∷ []
parameters L build_bool_or = pointer ∷ pointer ∷ []
parameters L build_bool_xor = pointer ∷ pointer ∷ []
parameters L build_bool_to_bit = pointer ∷ []
parameters L push_path_constraint = pointer ∷ integer 1 ∷ int_ptr_type L ∷ []
parameters L push_switch_constraint =
    pointer ∷ integer 1 ∷ int_ptr_type L ∷ int_ptr_type L ∷ int_ptr_type L ∷ []
parameters L concretize_pointer = pointer ∷ pointer ∷ int_ptr_type L ∷ []
parameters L concretize_size = pointer ∷ int_ptr_type L ∷ int_ptr_type L ∷ []
parameters L set_parameter_expression = integer 8 ∷ pointer ∷ []
parameters L get_parameter_expression = integer 8 ∷ []
parameters L set_return_expression = pointer ∷ []
parameters L get_return_expression = []
parameters L memcpy = pointer ∷ pointer ∷ pointer ∷ pointer ∷ pointer ∷ int_ptr_type L ∷ []
parameters L memset = pointer ∷ pointer ∷ pointer ∷ pointer ∷ integer 8 ∷ int_ptr_type L ∷ []
parameters L memmove = pointer ∷ pointer ∷ pointer ∷ pointer ∷ pointer ∷ int_ptr_type L ∷ []
parameters L read_memory = pointer ∷ int_ptr_type L ∷ int_ptr_type L ∷ integer 8 ∷ []
parameters L write_memory = pointer ∷ pointer ∷ int_ptr_type L ∷ int_ptr_type L ∷ integer 8 ∷ []
parameters L build_insert = pointer ∷ pointer ∷ integer 64 ∷ integer 8 ∷ []
parameters L build_extract = pointer ∷ integer 64 ∷ integer 64 ∷ integer 8 ∷ []
parameters L notify_call = int_ptr_type L ∷ []
parameters L notify_ret = int_ptr_type L ∷ []
parameters L notify_basic_block = int_ptr_type L ∷ []
parameters L _ = pointer ∷ pointer ∷ []

unfoldable pub result : DataLayout → Function → Ty
result L push_path_constraint = unsized
result L push_switch_constraint = unsized
result L concretize_pointer = unsized
result L set_parameter_expression = unsized
result L set_return_expression = unsized
result L memcpy = unsized
result L memset = unsized
result L memmove = unsized
result L write_memory = unsized
result L notify_call = unsized
result L notify_ret = unsized
result L notify_basic_block = unsized
result L _ = pointer

-- `binaryOperatorHandlers`, and `comparisonHandlers`, which has no function for two predicates.
unfoldable pub binary_operator_handlers : BinaryOps → Function
binary_operator_handlers add = build_add
binary_operator_handlers sub = build_sub
binary_operator_handlers mul = build_mul
binary_operator_handlers udiv = build_unsigned_div
binary_operator_handlers sdiv = build_signed_div
binary_operator_handlers urem = build_unsigned_rem
binary_operator_handlers srem = build_signed_rem
binary_operator_handlers shl = build_shift_left
binary_operator_handlers lshr = build_logical_shift_right
binary_operator_handlers ashr = build_arithmetic_shift_right
binary_operator_handlers and_op = build_and
binary_operator_handlers or_op = build_or
binary_operator_handlers xor_op = build_xor
binary_operator_handlers fadd = build_fp_add
binary_operator_handlers fsub = build_fp_sub
binary_operator_handlers fmul = build_fp_mul
binary_operator_handlers fdiv = build_fp_div
binary_operator_handlers frem = build_fp_rem

unfoldable pub comparison_handlers : Predicate → Option Function
comparison_handlers icmp_eq = some build_equal
comparison_handlers icmp_ne = some build_not_equal
comparison_handlers icmp_ugt = some build_unsigned_greater_than
comparison_handlers icmp_uge = some build_unsigned_greater_equal
comparison_handlers icmp_ult = some build_unsigned_less_than
comparison_handlers icmp_ule = some build_unsigned_less_equal
comparison_handlers icmp_sgt = some build_signed_greater_than
comparison_handlers icmp_sge = some build_signed_greater_equal
comparison_handlers icmp_slt = some build_signed_less_than
comparison_handlers icmp_sle = some build_signed_less_equal
comparison_handlers fcmp_ogt = some build_float_ordered_greater_than
comparison_handlers fcmp_oge = some build_float_ordered_greater_equal
comparison_handlers fcmp_olt = some build_float_ordered_less_than
comparison_handlers fcmp_ole = some build_float_ordered_less_equal
comparison_handlers fcmp_oeq = some build_float_ordered_equal
comparison_handlers fcmp_one = some build_float_ordered_not_equal
comparison_handlers fcmp_ord = some build_float_ordered
comparison_handlers fcmp_uno = some build_float_unordered
comparison_handlers fcmp_ugt = some build_float_unordered_greater_than
comparison_handlers fcmp_uge = some build_float_unordered_greater_equal
comparison_handlers fcmp_ult = some build_float_unordered_less_than
comparison_handlers fcmp_ule = some build_float_unordered_less_equal
comparison_handlers fcmp_ueq = some build_float_unordered_equal
comparison_handlers fcmp_une = some build_float_unordered_not_equal
comparison_handlers fcmp_false = none
comparison_handlers fcmp_true = none
