-- ===== src/SimpleBackend/Constraints.antt =====
-- Path constraints, concretization, memory operations and garbage collection in
-- runtime/simple_backend/Runtime.cpp. A null `SymExpr` is `none`.
use symcc.Common.{
  ℕ, Bool, true, false, not, Option, none, some, List, ◌∷◌, ltb, if◌then◌else◌, length,
}
use symcc.Common.Cmd.{Cmd, pure, ◌>>=◌, ◌>>◌, require}
use symcc.Shadow.{Pages}
use symcc.GarbageCollection.{ExpressionRegion, collect_reachable_expressions}
use symcc.GarbageCollection.Sweep.{sweep}
use symcc.SimpleBackend.{
  Z3, SimpleState, z3_not, Lbool, l_true, l_false, l_undef, diverging_input, no_diverging_input,
  inc_ref, dec_ref,
}
use symcc.SimpleBackend.Builders.{build_integer, build_binary, equal}

abbrev pub is_l_true : Lbool → Bool
is_l_true l_true = true
is_l_true l_false = false
is_l_true l_undef = false

module _ (Z : Z3) where
  abbrev pub SimpleRun : Type 0 → Type 0
  SimpleRun A = Cmd (SimpleState Z) A

  abbrev pub update : (SimpleState Z → SimpleState Z) → SimpleRun (Unit {0})
  update f s = some (tt, f s)

  abbrev pub on_solver : (Z.Solver → Z.Solver) → SimpleRun (Unit {0})
  on_solver f s = some (tt, record s { solver = f s.solver })

  abbrev pub check : SimpleRun Lbool
  check s = let (feasible, z) = Z.solver_check s.solver in some (feasible, record s { solver = z })

  -- The attempt to find an input for the other branch.
  unfoldable pub try_alternative : (alternative : ℕ) → SimpleRun (Unit {0})
  try_alternative alternative = do
    on_solver Z.solver_push
    on_solver (Z.solver_assert alternative)
    feasible ← check
    update (λ s. record s {
      log =
          (if is_l_true feasible
            then diverging_input (Z.solver_get_model s.solver)
            else no_diverging_input)
          ∷ s.log;
    })
    on_solver Z.solver_pop

  unfoldable pub push_path_constraint :
      Option ℕ → (taken : Bool) → (site_id : ℕ) → SimpleRun (Unit {0})
  push_path_constraint none taken site = pure tt
  push_path_constraint (some expr) taken site = do
    let constraint = Z.simplify expr
    update (inc_ref Z constraint)
    if Z.is_eq_ast constraint Z.mk_true
        then (do require taken; update (dec_ref Z constraint))
        else (if Z.is_eq_ast constraint Z.mk_false
            then (do require (not taken); update (dec_ref Z constraint))
            else (do
              let not_constraint = Z.simplify (Z.mk_unary z3_not constraint)
              update (inc_ref Z not_constraint)
              try_alternative (if taken then not_constraint else constraint)
              let new_constraint = if taken then constraint else not_constraint
              update (inc_ref Z new_constraint)
              on_solver (Z.solver_assert new_constraint)
              feasible ← check
              require (is_l_true feasible)
              update (dec_ref Z constraint)
              update (dec_ref Z not_constraint)))

  -- `_sym_concretize_pointer` and `_sym_concretize_size`: the value is a 64-bit number.
  unfoldable pub concretize : Option ℕ → (value site_id : ℕ) → SimpleRun (Unit {0})
  concretize none value site = pure tt
  concretize (some expr) value site = do
    number ← λ s. some (build_integer Z value 64 s)
    constraint ← λ s. some (build_binary Z equal expr number s)
    push_path_constraint (some constraint) true site

  unfoldable pub backend_read_memory :
      (addr_expr concolic_read_value : Option ℕ) → (addr : ℕ) → SimpleRun (Option ℕ)
  backend_read_memory addr_expr value addr = do concretize addr_expr addr 0; pure value

  unfoldable pub backend_write_memory :
      (symbolic_addr written : Option ℕ) → (concrete_addr : ℕ) → SimpleRun (Unit {0})
  backend_write_memory addr written concrete = concretize addr concrete 0

  unfoldable pub backend_memcpy :
      (sym_dest sym_src sym_len : Option ℕ) → (dest src length : ℕ) → SimpleRun (Unit {0})
  backend_memcpy sd ss sl dest src n = do
    concretize sd dest 0
    concretize ss src 0
    concretize sl n 0

  unfoldable pub backend_memset :
      (sym_dest sym_val sym_len : Option ℕ) → (memory value length : ℕ) → SimpleRun (Unit {0})
  backend_memset sd sv sl memory value n = do concretize sd memory 0; concretize sl n 0

  unfoldable pub backend_memmove :
      (sym_dest sym_src sym_len : Option ℕ) → (dest src length : ℕ) → SimpleRun (Unit {0})
  backend_memmove sd ss sl dest src n = do
    concretize sd dest 0
    concretize ss src 0
    concretize sl n 0

  unfoldable pub feasible : ℕ → SimpleRun Bool
  feasible expr = do
    let simple = Z.simplify expr
    update (inc_ref Z simple)
    on_solver Z.solver_push
    on_solver (Z.solver_assert simple)
    result ← check
    on_solver Z.solver_pop
    update (dec_ref Z simple)
    pure (is_l_true result)

  -- The threshold comes from the configuration, and `heap`, `regions` and `pages` are what the search
  -- looks at.
  unfoldable pub collect_garbage :
      (threshold : ℕ)
      → (ℕ → Option ℕ)
      → List ExpressionRegion
      → Pages ℕ
      → SimpleState Z
      → SimpleState Z
  collect_garbage threshold heap regions pages s =
      if ltb (length s.allocated_expressions) threshold then s else record s {
        allocated_expressions =
            (sweep (collect_reachable_expressions heap regions pages) s.allocated_expressions).0;
      }
