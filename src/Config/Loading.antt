-- ===== src/Config/Loading.antt =====
-- `loadConfig` of runtime/Config.cpp: which environments it accepts, and the configuration that it
-- makes of one.
use symcc.Common.{Bool, true, false, not, ◌&&◌, Option, none, some, if◌then◌else◌, is_some, []}
use mathlib.Core.Option
use symcc.Config.Values.{flag, number}
use symcc.Config.{
  Text, InputSource, no_input, stdin_input, memory_input, file_input, Configuration,
  initial_configuration, Environment,
}

-- Is a flag there and on?
abbrev pub on : Option (Option Bool) → Bool
on (some (some true)) = true
on (some (some false)) = false
on (some none) = false
on none = false

-- What a variable says if it is there: nothing at all if it is ill-formed.
abbrev pub reading : {A : Type 0} → (Text → Option A) → Option Text → Option (Option A)
reading f none = some none
reading f (some text) = Option.map some (f text)

abbrev pub flag_of : Option Text → Option (Option Bool)
flag_of variable = reading flag variable

-- The environments without an ill-formed variable and without both a file and the memory as input.
unfoldable pub accepted : Environment → Bool
accepted env =
    (is_some (flag_of env.memory_input)
      && not (is_some env.input_file && on (flag_of env.memory_input)))
    && (is_some (flag_of env.no_symbolic_input)
        && (is_some (flag_of env.linearization) && is_some (reading number env.gc_threshold)))

abbrev pub or_default : {A : Type 0} → Option (Option A) → A → A
or_default (some (some a)) d = a
or_default (some none) d = d
or_default none d = d

-- The input before the flag for concrete runs is seen, and after it.
abbrev pub source : Option Text → Option (Option Bool) → InputSource
source none memory = if on memory then memory_input else stdin_input
source (some name) memory = file_input name

unfoldable pub configuration : Environment → Configuration
configuration env = record {
  input =
      if on (flag_of env.no_symbolic_input)
      then no_input
      else source env.input_file (flag_of env.memory_input);
  output_dir = or_default (some env.output_dir) initial_configuration.output_dir;
  log_file = or_default (some env.log_file) [];
  pruning = or_default (flag_of env.linearization) false;
  afl_coverage_map = or_default (some env.afl_coverage_map) [];
  garbage_collection_threshold = or_default (reading number env.gc_threshold) 5000000;
}
