-- ===== src/SimpleBackend/Instance.antt =====
-- runtime/simple_backend/Runtime.cpp as an implementation of the interface of RuntimeCommon.h: the
-- shared runtime and the wrappers run on it.
use symcc.Common.{ℕ, ◌+◌, ◌*◌, ◌<◌, ◌≡◌, refl, Bool, Option, none, some}
use symcc.Backend.{Backend, BackendLaws}
use symcc.SimpleBackend.{Z3, SimpleState, get_input_byte, register_expression}
use symcc.SimpleBackend.Builders.{
  build_integer, concat_helper, extract_helper, bits_helper, build_zext, build_trunc, build_binary,
  build_not_equal, build_bool_and, build_bool_or, equal, bv_and, bv_or, unsigned_less_than,
  unsigned_greater_than,
}
use symcc.SimpleBackend.Constraints.{
  push_path_constraint, concretize, backend_memcpy, backend_memset, backend_memmove,
  backend_read_memory, backend_write_memory,
}
use symcc.SimpleBackend.Laws.{Z3Laws}
use symcc.Shadow.{word_mod}
use symcc.Runtime.{Machine, write_memory, read_memory}
use symcc.Runtime.Transfer.{Bytes}
use symcc.Runtime.Writing.{read_memory-write_memory}

abbrev state_of : {S : Type 0} → Option (Unit {0} × S) → Option S
state_of none = none
state_of (some (_, s)) = some s

module _ (Z : Z3) where
  -- The notifications, `_sym_notify_call` and the like, do nothing.
  abbrev pub simple_backend : Backend
  simple_backend = record {
    Expr = ℕ;
    State = SimpleState Z;
    bits = bits_helper Z;
    build_integer = build_integer Z;
    concat_helper = concat_helper Z;
    extract_helper = extract_helper Z;
    build_zext = build_zext Z;
    build_trunc = build_trunc Z;
    build_equal = build_binary Z equal;
    build_not_equal = build_not_equal Z;
    build_bool_and = build_bool_and Z;
    build_bool_or = build_bool_or Z;
    build_and = build_binary Z bv_and;
    build_or = build_binary Z bv_or;
    build_unsigned_less_than = build_binary Z unsigned_less_than;
    build_unsigned_greater_than = build_binary Z unsigned_greater_than;
    get_input_byte = get_input_byte Z;
    push_path_constraint = λ c taken site s. state_of (push_path_constraint Z c taken site s);
    concretize_pointer = λ e p site s. state_of (concretize Z e p site s);
    concretize_size = λ e n site s. state_of (concretize Z e n site s);
    backend_memcpy = λ d v l dest src n s. state_of (backend_memcpy Z d v l dest src n s);
    backend_memset = λ d v l mem val n s. state_of (backend_memset Z d v l mem val n s);
    backend_memmove = λ d v l dest src n s. state_of (backend_memmove Z d v l dest src n s);
    backend_read_memory = λ a v addr n little s. backend_read_memory Z a v addr s;
    backend_write_memory = λ a v addr n little s. state_of (backend_write_memory Z a v addr s);
    notify_param_expr = λ index e s. s;
    notify_ret_expr = λ e s. s;
    notify_call = λ site s. s;
    notify_ret = λ site s. s;
  }

  abbrev pub simple_laws : Z3Laws Z → BackendLaws simple_backend
  unfolding bits_helper build_integer concat_helper extract_helper register_expression
      backend_read_memory backend_write_memory concretize
  simple_laws L = record {
    Env = L.Env;
    value = L.value;
    value_bound = L.value_bound;
    bits-integer = λ v w s. L.size_integer v w;
    value-integer = λ ρ v w s. L.value_integer ρ v w;
    bits-concat = λ a b s. L.size_concat a b;
    value-concat = λ ρ a b s. L.value_concat ρ a b;
    bits-extract = λ e hi lo s. L.size_extract e hi lo;
    value-extract = λ ρ e hi lo s. L.value_extract ρ e hi lo;
    read_value = λ v a n little s. (s, refl);
    write_returns = λ v a n little s. (s, refl);
  }

module _ (Z : Z3) (L : Z3Laws Z) where
  -- On the backend on Z3, an expression of 8 bits for each byte that `_sym_write_memory` writes at a
  -- concrete address is read back by `_sym_read_memory` as a term of the same width which has the same
  -- value under every assignment, and neither call fails. The range is not empty, does not reach the
  -- end of the address space and held terms of bytes, and the width of the expression is below 2^64.
  pub simple_backend_read_back :
      (m : Machine (simple_backend Z)) (e a n : ℕ) (little : Bool)
      → 0 < n
      → bits_helper Z e ≡ 8 * n
      → bits_helper Z e < word_mod
      → a + n < word_mod
      → Bytes (simple_backend Z) m a n
      → (m' : Machine (simple_backend Z)) × (write_memory
            (simple_backend Z)
            none
            (some e)
            a
            n
            little
            m
          ≡ some (tt, m'))
        × (r : ℕ) × (m'' : Machine (simple_backend Z)) × (read_memory
              (simple_backend Z)
              none
              a
              n
              little
              m'
            ≡ some (some r, m''))
        × (bits_helper Z r ≡ bits_helper Z e)
        × ((ρ : L.Env) → L.value ρ r ≡ L.value ρ e)
  unfolding simple_laws
  simple_backend_read_back = read_memory-write_memory (simple_backend Z) (simple_laws Z L)
