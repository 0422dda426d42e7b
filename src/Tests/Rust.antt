-- ===== src/Tests/Rust.antt =====
-- The Rust backend, with a library that numbers its expressions.
use symcc.Common.{
  arith, ℕ, ◌+◌, ◌%◌, ◌^◌, ◌≡◌, refl, Option, none, some, [], ◌∷◌, ◌==◌, if◌then◌else◌,
}
use symcc.Shadow.{Pages}
use symcc.RustBackend.{RustLibrary, RustState, symexpr_width, concat_helper}
use symcc.RustBackend.Packing.{Packs}
use symcc.RustBackend.Requests.{Request, concat, answer, build, width_of}
use symcc.RustBackend.Building.{Registered, build-Packs, concat_helper-wraps}

abbrev fresh : ℕ → ℕ × ℕ
fresh s = (s + 1, s + 1)

abbrev library : RustLibrary
library = record {
  State = ℕ;
  Float = ℕ;
  integer = λ x0 x1. fresh;
  integer128 = λ x0 x1. fresh;
  float = λ x0 x1. fresh;
  input_byte = λ x0 x1. fresh;
  null_pointer = fresh;
  bool = λ x0. fresh;
  true_expr = fresh;
  false_expr = fresh;
  unary = λ x0 x1. fresh;
  bv = λ x0 x1 x2. fresh;
  boolean = λ x0 x1 x2. fresh;
  sext = λ x0 x1. fresh;
  zext = λ x0 x1. fresh;
  trunc = λ x0 x1. fresh;
  int_to_float = λ x0 x1 x2. fresh;
  float_to_float = λ x0 x1. fresh;
  bits_to_float = λ x0 x1. fresh;
  float_to_bits = λ x0. fresh;
  float_to_signed_integer = λ x0 x1. fresh;
  float_to_unsigned_integer = λ x0 x1. fresh;
  bool_to_bit = λ x0. fresh;
  concat = λ x0 x1. fresh;
  extract = λ x0 x1 x2. fresh;
  read_memory = λ x0 x1 x2 x3 x4. fresh;
  write_memory = λ x0 x1 x2 x3 x4 s. s;
  memcpy = λ x0 x1 x2 x3 x4 x5 s. s;
  memset = λ x0 x1 x2 x3 x4 x5 s. s;
  memmove = λ x0 x1 x2 x3 x4 x5 s. s;
  push_path_constraint = λ x0 x1 x2 s. s;
  concretize_pointer = λ x0 x1 x2 s. s;
  concretize_size = λ x0 x1 x2 s. s;
  notify_call = λ x0 s. s;
  notify_ret = λ x0 s. s;
  notify_basic_block = λ x0 s. s;
  notify_param_expr = λ x0 x1 s. s;
  notify_ret_expr = λ x0 s. s;
  expression_unreachable = λ x0 s. s;
}

abbrev start : RustState library
start = record { library = 41; allocated_expressions = 10368 ∷ 10376 ∷ [] }

abbrev pair : Request library
pair = concat 10368 10376

build_example :
    (x : ℕ) × (s' : RustState library) × (build library pair start ≡ some (x, s'))
    × Packs (answer library pair start.library).0 (width_of library pair % 2 ^ 8) x
    × Registered library (answer library pair start.library).1 x start s'
build_example = build-Packs library pair start (omega arith) (omega arith)

wraps_example :
    (x : ℕ) × (s' : RustState library) × (concat_helper library 10368 10368 start ≡ some (x, s'))
    × (symexpr_width x ≡ 0)
unfolding symexpr_width
wraps_example = concat_helper-wraps library 10368 10368 start refl (omega arith) (omega arith)

abbrev pages : Pages ℕ
pages = (4096, λ o. if o == 12 then some 10368 else none) ∷ []

abbrev cells : ℕ → Option ℕ
cells a = none
