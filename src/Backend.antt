-- ===== src/Backend.antt =====
-- The functions of runtime/RuntimeCommon.h that a backend provides, as the shared runtime and the
-- wrappers of the C library call them, and the code of the pass: an interface. A null `SymExpr` is `none`. Each function
-- takes the backend's state and returns the new one; `none` stands for an assertion that fails or
-- an exception.
use symcc.Common.{ℕ, suc, ◌+◌, ◌-◌, ◌*◌, ◌/◌, ◌%◌, ◌^◌, ◌≤◌, ◌<◌, ◌≡◌, Bool, Option, none, some}

pub record Backend : Type 1 where
  pub Expr : Type 0
  pub State : Type 0
  -- `_sym_bits_helper`
  pub bits : Expr → ℕ
  -- `_sym_build_integer(value, bits)`
  pub build_integer : ℕ → ℕ → State → Expr × State
  -- `_sym_concat_helper(a, b)` and `_sym_extract_helper(expr, first_bit, last_bit)`
  pub concat_helper : Expr → Expr → State → Expr × State
  pub extract_helper : Expr → ℕ → ℕ → State → Expr × State
  pub build_zext : Expr → ℕ → State → Expr × State
  pub build_trunc : Expr → ℕ → State → Expr × State
  pub build_equal : Expr → Expr → State → Expr × State
  pub build_not_equal : Expr → Expr → State → Expr × State
  pub build_bool_and : Expr → Expr → State → Expr × State
  pub build_bool_or : Expr → Expr → State → Expr × State
  pub build_and : Expr → Expr → State → Expr × State
  pub build_or : Expr → Expr → State → Expr × State
  pub build_unsigned_less_than : Expr → Expr → State → Expr × State
  pub build_unsigned_greater_than : Expr → Expr → State → Expr × State
  -- `_sym_get_input_byte(offset, value)`
  pub get_input_byte : ℕ → ℕ → State → Option Expr × State
  -- `_sym_push_path_constraint(constraint, taken, site_id)`
  pub push_path_constraint : Option Expr → Bool → ℕ → State → Option State
  pub concretize_pointer : Option Expr → ℕ → ℕ → State → Option State
  pub concretize_size : Option Expr → ℕ → ℕ → State → Option State
  -- `_sym_backend_memcpy(sym_dest, sym_src, sym_len, dest, src, length)`, and so on
  pub backend_memcpy : Option Expr → Option Expr → Option Expr → ℕ → ℕ → ℕ → State → Option State
  pub backend_memset : Option Expr → Option Expr → Option Expr → ℕ → ℕ → ℕ → State → Option State
  pub backend_memmove : Option Expr → Option Expr → Option Expr → ℕ → ℕ → ℕ → State → Option State
  pub backend_read_memory :
      Option Expr → Option Expr → ℕ → ℕ → Bool → State → Option (Option Expr × State)
  pub backend_write_memory : Option Expr → Option Expr → ℕ → ℕ → Bool → State → Option State
  pub notify_param_expr : ℕ → Option Expr → State → State
  pub notify_ret_expr : Expr → State → State
  -- `_sym_notify_call(site_id)` and `_sym_notify_ret(site_id)`, which only emitted code calls
  pub notify_call : ℕ → State → State
  pub notify_ret : ℕ → State → State

-- What the shared runtime relies on. An expression stands for a bit vector under each assignment
-- to the input; `concat` puts its first argument above its second, `extract` cuts out the bits from
-- `last_bit` to `first_bit`, and the memory functions neither fail on a null address nor
-- change the value that is read.
pub record BackendLaws (B : Backend) : Type 1 where
  pub Env : Type 0
  pub value : Env → B.Expr → ℕ
  pub value_bound : (ρ : Env) (e : B.Expr) → value ρ e < 2 ^ B.bits e
  pub bits-integer : (v w : ℕ) (s : B.State) → B.bits (B.build_integer v w s).0 ≡ w
  pub value-integer :
      (ρ : Env) (v w : ℕ) (s : B.State) → value ρ (B.build_integer v w s).0 ≡ v % 2 ^ w
  pub bits-concat :
      (a b : B.Expr) (s : B.State) → B.bits (B.concat_helper a b s).0 ≡ B.bits a + B.bits b
  pub value-concat :
      (ρ : Env) (a b : B.Expr) (s : B.State)
      → value ρ (B.concat_helper a b s).0 ≡ value ρ a * 2 ^ B.bits b + value ρ b
  pub bits-extract :
      (e : B.Expr) (hi lo : ℕ) (s : B.State)
      → lo ≤ hi
      → hi < B.bits e
      → B.bits (B.extract_helper e hi lo s).0 ≡ suc (hi - lo)
  pub value-extract :
      (ρ : Env) (e : B.Expr) (hi lo : ℕ) (s : B.State)
      → lo ≤ hi
      → hi < B.bits e
      → value ρ (B.extract_helper e hi lo s).0 ≡ value ρ e / 2 ^ lo % 2 ^ suc (hi - lo)
  pub read_value :
      (v : Option B.Expr) (a n : ℕ) (little : Bool) (s : B.State)
      → (t : B.State) × (B.backend_read_memory none v a n little s ≡ some (v, t))
  pub write_returns :
      (v : Option B.Expr) (a n : ℕ) (little : Bool) (s : B.State)
      → (t : B.State) × (B.backend_write_memory none v a n little s ≡ some t)
