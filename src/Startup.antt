-- ===== src/Startup.antt =====
-- `_sym_initialize` of runtime/simple_backend/Runtime.cpp, runtime/qsym_backend/Runtime.cpp and
-- runtime/rust_backend/Runtime.cpp. What they print is left out; a run that `exit` or an exception ends
-- has no result.
use symcc.Common.{
  ℕ, ◌≡◌, refl, Bool, true, ◌&&◌, Option, none, some, [], ◌∷◌, if◌then◌else◌, ◌>>=◌, Bool-cases,
  Option-cases, inl, inr,
}
use symcc.Backend.{Backend}
use symcc.Config.{
  Text, Configuration, Environment, load_config, no_input, stdin_input, memory_input, file_input,
}
use symcc.Wrappers.{CLibrary, Process, init_libc_wrappers}
use symcc.SimpleBackend.{Z3, SimpleState, inc_ref, dec_ref}

-- `g_initialized`, `g_config`, the state of the wrappers, and what a backend sets up.
pub record Startup (B : Backend) (C : CLibrary) (R : Type 0) : Type 0 where
  pub initialized : Bool
  pub configuration : Configuration
  pub process : Process B C
  pub backend : R

-- `g_log`: the file is the one that `fopen` gives for the name.
pub data Log : Type 0 where
  stderr : Log
  log_file : Text → Log

abbrev pub open_log : Text → Log
open_log [] = stderr
open_log (c ∷ cs) = log_file (c ∷ cs)

module _ {B : Backend} {C : CLibrary} {R : Type 0} where
  -- The part that the backends share, and what a backend does after it.
  abbrev start :
      (Configuration → R → Option R) → Environment → Startup B C R → Option (Startup B C R)
  start rest env s = do
    config ← load_config env s.configuration
    wrappers ← init_libc_wrappers B C config.input s.process
    ready ← rest config s.backend
    some (record {
      initialized = true;
      configuration = config;
      process = wrappers.1;
      backend = ready;
    })

  unfoldable pub initialize :
      (Configuration → R → Option R) → Environment → Startup B C R → Option (Startup B C R)
  initialize rest env s = if s.initialized then some s else start rest env s

  -- When a backend is initialized again, under any environment, nothing changes; and where the first
  -- time ends the run there is no second time.
  pub initialize-initialize :
      (rest : Configuration → R → Option R) (env env' : Environment) (s : Startup B C R)
      → (initialize rest env s >>= initialize rest env') ≡ initialize rest env s
  unfolding initialize
  initialize-initialize rest env env' s = elim (Bool-cases s.initialized) [
    | inl done ↦ rw done refl
    | inr fresh ↦ rw fresh (elim (Option-cases (load_config env s.configuration)) [
      | inl thrown ↦ rw thrown refl
      | inr (config, loaded) ↦
          rw loaded (elim (Option-cases (init_libc_wrappers B C config.input s.process)) [
            | inl stopped ↦ rw stopped refl
            | inr (wrappers, told) ↦ rw told (elim (Option-cases (rest config s.backend)) [
              | inl ended ↦ rw ended refl
              | inr (ready, set) ↦ rw set refl
            ])
          ])
    ])
  ]

-- The expression builder of the QSYM backend.
pub data ExprBuilder : Type 0 where
  prune_expr_builder symbolic_expr_builder : ExprBuilder

-- Without symbolic input neither the solver nor the builder is made.
unfoldable pub start_qsym :
    (exists is_directory : Text → Bool)
    → Configuration
    → Option ExprBuilder
    → Option (Option ExprBuilder)
start_qsym exists is_directory config builder =
    let ready =
      if exists config.output_dir && is_directory config.output_dir
      then some (some (if config.pruning then prune_expr_builder else symbolic_expr_builder))
      else none in
    elim config.input [
      | no_input ↦ some builder
      | stdin_input ↦ ready
      | memory_input ↦ ready
      | file_input name ↦ ready
    ]

unfoldable pub start_rust : Configuration → Log → Option Log
start_rust config log = some (open_log config.log_file)

-- The functions of Z3 that only the start calls.
pub record Z3Start (Z : Z3) : Type 0 where
  pub mk_fpa_round_nearest_ties_to_even : ℕ
  pub mk_int : (value sort : ℕ) → ℕ
  pub mk_solver : Z.Solver

module _ (Z : Z3) (S : Z3Start Z) where
  -- The constants of a new context, of which each keeps a reference.
  unfoldable pub new_state : SimpleState Z
  new_state =
      let sort = Z.mk_bv_sort 64 in
      let null = S.mk_int 0 sort in
      let mode = S.mk_fpa_round_nearest_ties_to_even in
      let empty : SimpleState Z = record {
        refs = λ x. 0;
        allocated_expressions = [];
        stdin_bytes = [];
        solver = S.mk_solver;
        log = [];
        rounding_mode = mode;
        null_pointer = null;
        true_expr = Z.mk_true;
        false_expr = Z.mk_false;
      } in
      let with_null = dec_ref Z sort (inc_ref Z null (inc_ref Z sort (inc_ref Z mode empty))) in
      inc_ref Z Z.mk_false (inc_ref Z Z.mk_true with_null)

  unfoldable pub start_simple :
      Configuration → Option (SimpleState Z × Log) → Option (Option (SimpleState Z × Log))
  start_simple config state = some (some (new_state, open_log config.log_file))
