-- ===== src/QsymBackend/Solving.antt =====
-- Path constraints, concretization, memory operations and tracing in
-- runtime/qsym_backend/Runtime.cpp. A null `SymExpr` is `none`.
use symcc.Common.{ℕ, Bool, true, Option, none, some, List}
use symcc.Common.Cmd.{pure, ◌>>=◌, ◌>>◌}
use symcc.QsymBackend.{Qsym, QsymRun, at, call, tell, build_integer, build_binary, equal}

module _ (Q : Qsym) where
  unfoldable pub push_path_constraint :
      Option ℕ → (taken : Bool) → (site_id : ℕ) → QsymRun Q (Unit {0})
  push_path_constraint none taken site = pure tt
  push_path_constraint (some constraint) taken site = do
    ref ← at Q constraint
    tell Q (Q.add_jcc ref taken site)

  -- `_sym_concretize_pointer` and `_sym_concretize_size`
  unfoldable pub concretize : Option ℕ → (value site_id : ℕ) → QsymRun Q (Unit {0})
  concretize none value site = pure tt
  concretize (some expr) value site = do
    number ← build_integer Q value 64
    constraint ← build_binary Q equal expr number
    push_path_constraint (some constraint) true site

  -- The operations on memory have nothing to do.
  unfoldable pub backend_read_memory :
      (addr_expr concolic_read_value : Option ℕ)
      → (host_addr length : ℕ) → (little_endian : Bool) → QsymRun Q (Option ℕ)
  backend_read_memory addr value host n little = pure value

  unfoldable pub backend_write_memory :
      (symbolic_addr written : Option ℕ)
      → (concrete_addr concrete_length : ℕ) → (little_endian : Bool) → QsymRun Q (Unit {0})
  backend_write_memory addr written concrete n little = pure tt

  -- `_sym_backend_memcpy`, `_sym_backend_memset` and `_sym_backend_memmove`
  unfoldable pub backend_memcpy :
      (sym_dest sym_src sym_len : Option ℕ) → (dest src length : ℕ) → QsymRun Q (Unit {0})
  backend_memcpy sd ss sl dest src n = pure tt

  -- The functions on floating-point numbers, which Qsym does not support.
  unfoldable pub unsupported : List (Option ℕ) → Option ℕ
  unsupported operands = none

  unfoldable pub notify_call : (site_id : ℕ) → QsymRun Q (Unit {0})
  notify_call site = tell Q (Q.visit_call site)

  unfoldable pub notify_ret : (site_id : ℕ) → QsymRun Q (Unit {0})
  notify_ret site = tell Q (Q.visit_ret site)

  unfoldable pub notify_basic_block : (site_id : ℕ) → QsymRun Q (Unit {0})
  notify_basic_block site = tell Q (Q.visit_basic_block site)

  unfoldable pub notify_param_expr : (index : ℕ) → Option ℕ → QsymRun Q (Unit {0})
  notify_param_expr index expr = pure tt

  unfoldable pub notify_ret_expr : Option ℕ → QsymRun Q (Unit {0})
  notify_ret_expr expr = pure tt

  unfoldable pub feasible : ℕ → QsymRun Q Bool
  feasible expr = do
    tell Q (Q.simplify expr)
    tell Q Q.solver_push
    z3_expr ← call Q (Q.to_z3_expr expr)
    tell Q (Q.solver_add z3_expr)
    result ← call Q Q.is_sat
    tell Q Q.solver_pop
    pure result
