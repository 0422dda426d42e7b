-- ===== src/RustBackend/Calls.antt =====
-- The functions of runtime/rust_backend/Runtime.cpp that hand constraints, memory operations and
-- notifications on to the Rust library, and the garbage collection.
use symcc.Common.{
  ℕ, zero, suc, Bool, true, false, not, Option, none, some, List, [], ◌∷◌, map, ◌==◌, ltb,
  if◌then◌else◌, length,
}
use symcc.Common.Cmd.{pure, ◌>>=◌, when, keep}
use symcc.Shadow.{Pages, ReadShadowIterator, read_iterator, next_read, read_cell}
use symcc.GarbageCollection.{ExpressionRegion, collect_reachable_expressions}
use symcc.GarbageCollection.Sweep.{sweep}
use symcc.RustBackend.{
  RustLibrary, RustRun, symexpr, symexpr_id, symexpr_width, register_expression, tell,
}

abbrev pub is_empty : List ℕ → Bool
is_empty [] = true
is_empty (x ∷ xs) = false

abbrev pub push_id : Option (Option ℕ) → Option (List ℕ) → Option (List ℕ)
push_id none rest = none
push_id (some e) none = none
push_id (some none) (some ids) = some (symexpr_id 0 ∷ ids)
push_id (some (some e)) (some ids) = some (symexpr_id e ∷ ids)

-- The ids of the shadow of a range, over the bytes left.
unfoldable pub symbolic_exprs : ℕ → Pages ℕ → ReadShadowIterator → Option (List ℕ)
symbolic_exprs zero g it = some []
symbolic_exprs (suc n) g it =
    push_id (read_cell symexpr_width g it) (symbolic_exprs n g (next_read g it))

unfoldable pub get_symbolic_exprs_for_memory : Pages ℕ → (addr nbytes : ℕ) → Option (List ℕ)
get_symbolic_exprs_for_memory g addr n = symbolic_exprs n g (read_iterator g addr)

module _ (R : RustLibrary) where
  unfoldable pub push_path_constraint : ℕ → (taken : Bool) → (site_id : ℕ) → RustRun R (Unit {0})
  push_path_constraint constraint taken site =
      when (not (constraint == 0))
        (tell R (R.push_path_constraint (symexpr_id constraint) taken site))

  unfoldable pub concretize_pointer : (expr ptr site_id : ℕ) → RustRun R (Unit {0})
  concretize_pointer expr ptr site =
      when (not (expr == 0)) (tell R (R.concretize_pointer (symexpr_id expr) ptr site))

  unfoldable pub concretize_size : (expr concrete_size site_id : ℕ) → RustRun R (Unit {0})
  concretize_size expr size site =
      when (not (expr == 0)) (tell R (R.concretize_size (symexpr_id expr) size site))

  unfoldable pub backend_read_memory :
      (addr_expr concolic_read_value addr length : ℕ) → (little_endian : Bool) → RustRun R ℕ
  backend_read_memory addr_expr value addr n little s =
      let (e, t) =
        R.read_memory (symexpr_id addr_expr) (symexpr_id value) addr n little s.library in
      (if e == 0
          then pure 0
          else (do x ← keep (symexpr e (symexpr_width value)); register_expression R x))
        (record s { library = t })

  unfoldable pub backend_write_memory :
      (addr written concrete_addr concrete_length : ℕ) → Bool → RustRun R (Unit {0})
  backend_write_memory addr written concrete n little =
      tell R (R.write_memory (symexpr_id addr) (symexpr_id written) concrete n little)

  unfoldable pub backend_memcpy :
      (sym_dest sym_src sym_len dest src length : ℕ) → RustRun R (Unit {0})
  backend_memcpy sd ss sl dest src n =
      tell R (R.memcpy (symexpr_id sd) (symexpr_id ss) (symexpr_id sl) dest src n)

  unfoldable pub backend_memset :
      (sym_dest sym_val sym_len memory value length : ℕ) → RustRun R (Unit {0})
  backend_memset sd sv sl memory value n =
      tell R (R.memset (symexpr_id sd) (symexpr_id sv) (symexpr_id sl) memory value n)

  unfoldable pub backend_memmove :
      (sym_dest sym_src sym_len dest src length : ℕ) → RustRun R (Unit {0})
  backend_memmove sd ss sl dest src n =
      tell R (R.memmove (symexpr_id sd) (symexpr_id ss) (symexpr_id sl) dest src n)

  unfoldable pub notify_call : ℕ → RustRun R (Unit {0})
  notify_call site = tell R (R.notify_call site)

  unfoldable pub notify_ret : ℕ → RustRun R (Unit {0})
  notify_ret site = tell R (R.notify_ret site)

  unfoldable pub notify_basic_block : ℕ → RustRun R (Unit {0})
  notify_basic_block site = tell R (R.notify_basic_block site)

  unfoldable pub notify_param_expr : (index expr : ℕ) → RustRun R (Unit {0})
  notify_param_expr index expr = tell R (R.notify_param_expr index (symexpr_id expr))

  unfoldable pub notify_ret_expr : ℕ → RustRun R (Unit {0})
  notify_ret_expr expr = tell R (R.notify_ret_expr (symexpr_id expr))

  -- The expressions that are swept go to the library, if there are any. Here the threshold comes
  -- from the configuration, and `heap`, `regions` and `pages` are what the search looks at.
  unfoldable pub collect_garbage :
      (threshold : ℕ) → (ℕ → Option ℕ) → List ExpressionRegion → Pages ℕ → RustRun R (Unit {0})
  collect_garbage threshold heap regions pages s =
      if ltb (length s.allocated_expressions) threshold
      then some (tt, s)
      else (let (kept, erased) =
            sweep (collect_reachable_expressions heap regions pages) s.allocated_expressions in
          when (not (is_empty erased)) (tell R (R.expression_unreachable (map symexpr_id erased)))
            (record s { allocated_expressions = kept }))

-- `_sym_expr_to_string` and `_sym_feasible` have no implementation.
unfoldable pub expr_to_string : ℕ → Option (List ℕ)
expr_to_string expr = none

unfoldable pub feasible : ℕ → Bool
feasible expr = false
