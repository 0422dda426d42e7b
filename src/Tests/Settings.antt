-- ===== src/Tests/Settings.antt =====
-- An environment with a file, two flags and a threshold.
use symcc.Common.{◌≡◌, refl, true, none, some, [], ◌∷◌}
use symcc.Config.{Environment, stoul, digits}
use symcc.Config.Values.{flag, number}
use symcc.Config.Loading.{accepted}

abbrev environment : Environment
environment = record {
  output_dir = none;
  input_file = some (97 ∷ []);
  memory_input = some (79 ∷ 70 ∷ 102 ∷ []);
  no_symbolic_input = none;
  log_file = some (98 ∷ []);
  linearization = some (89 ∷ 101 ∷ 83 ∷ []);
  afl_coverage_map = none;
  gc_threshold = some (32 ∷ 52 ∷ 50 ∷ 120 ∷ []);
}

-- The flags are read in any case, and the threshold up to the first character that is no digit.
environment-accepted : accepted environment ≡ true
unfolding accepted flag number
environment-accepted = refl

threshold_42 : stoul (32 ∷ 52 ∷ 50 ∷ 120 ∷ []) ≡ some 42
unfolding stoul digits
threshold_42 = refl
