-- ===== src/Config.antt =====
-- runtime/Config.h and runtime/Config.cpp: the configuration and how it is read from the environment.
-- A string is the list of its characters' codes.
pub mod Values
pub mod Loading
use symcc.Common.{
  ℕ, zero, suc, ◌+◌, ◌-◌, ◌*◌, ◌%◌, ◌^◌, Bool, true, false, not, ◌&&◌, ◌||◌, Option, none, some,
  List, [], ◌∷◌, map, ◌==◌, ltb, leb, if◌then◌else◌, ◌>>=◌,
}

abbrev pub Text : Type 0
Text = List ℕ

-- The `std::variant` of `Config::input`.
pub data InputSource : Type 0 where
  no_input : InputSource
  stdin_input : InputSource
  memory_input : InputSource
  file_input : (file_name : Text) → InputSource

-- `std::holds_alternative<MemoryInput>(g_config.input)`
unfoldable pub is_memory_input : InputSource → Bool
is_memory_input no_input = false
is_memory_input stdin_input = false
is_memory_input memory_input = true
is_memory_input (file_input name) = false

abbrev pub is_file_input : InputSource → Bool
is_file_input no_input = false
is_file_input stdin_input = false
is_file_input memory_input = false
is_file_input (file_input name) = true

pub record Configuration : Type 0 where
  pub input : InputSource
  pub output_dir : Text
  pub log_file : Text
  pub pruning : Bool
  pub afl_coverage_map : Text
  pub garbage_collection_threshold : ℕ

-- The initializers; the output directory is "/tmp/output".
abbrev pub initial_configuration : Configuration
initial_configuration = record {
  input = stdin_input;
  output_dir = 47 ∷ 116 ∷ 109 ∷ 112 ∷ 47 ∷ 111 ∷ 117 ∷ 116 ∷ 112 ∷ 117 ∷ 116 ∷ [];
  log_file = [];
  pruning = false;
  afl_coverage_map = [];
  garbage_collection_threshold = 5000000;
}

abbrev pub same_text : Text → Text → Bool
same_text [] [] = true
same_text [] (d ∷ ds) = false
same_text (c ∷ cs) [] = false
same_text (c ∷ cs) (d ∷ ds) = (c == d) && same_text cs ds

-- `std::tolower`
unfoldable pub to_lower : ℕ → ℕ
to_lower c = if leb 65 c && leb c 90 then c + 32 else c

-- "1", "on" and "yes", and "", "0", "off" and "no"; an exception for anything else.
unfoldable pub check_flag_string : Text → Option Bool
check_flag_string text =
    let value = map to_lower text in
    if same_text value (49 ∷ [])
      || same_text value (111 ∷ 110 ∷ [])
      || same_text value (121 ∷ 101 ∷ 115 ∷ [])
    then some true
    else (if same_text value []
          || same_text value (48 ∷ [])
          || same_text value (111 ∷ 102 ∷ 102 ∷ [])
          || same_text value (110 ∷ 111 ∷ [])
        then some false
        else none)

abbrev is_digit : ℕ → Bool
is_digit c = leb 48 c && leb c 57

-- `std::stoul`: white space, a sign, and the digits up to the first other character. It throws where
-- there is no digit and where the number needs more than 64 bits.
unfoldable pub digits : Text → ℕ → ℕ
digits [] n = n
digits (c ∷ cs) n = if is_digit c then digits cs (10 * n + (c - 48)) else n

abbrev magnitude : Text → Option ℕ
magnitude [] = none
magnitude (c ∷ cs) =
    let n = digits (c ∷ cs) 0 in if is_digit c && ltb n (2 ^ 64) then some n else none

abbrev signed : Text → Option ℕ
signed [] = none
signed (c ∷ cs) =
    if c == 45
    then (do n ← magnitude cs; some ((2 ^ 64 - n) % 2 ^ 64))
    else (if c == 43 then magnitude cs else magnitude (c ∷ cs))

unfoldable pub stoul : Text → Option ℕ
stoul [] = none
stoul (c ∷ cs) = if (c == 32) || leb 9 c && leb c 13 then stoul cs else signed (c ∷ cs)

-- What `getenv` gives for each variable.
pub record Environment : Type 0 where
  pub output_dir : Option Text
  pub input_file : Option Text
  pub memory_input : Option Text
  pub no_symbolic_input : Option Text
  pub log_file : Option Text
  pub linearization : Option Text
  pub afl_coverage_map : Option Text
  pub gc_threshold : Option Text

-- A variable that replaces a setting if it is there.
abbrev pub replace : {A : Type 0} → Option A → A → A
replace none old = old
replace (some new) old = new

-- A variable that is parsed if it is there: the parse can throw.
abbrev pub parse : {A : Type 0} → (Text → Option A) → Option Text → Option (Option A)
parse f none = some none
parse f (some text) = do a ← f text; some (some a)

-- The steps of `loadConfig` that set `input` after the file name.
abbrev pub set_memory_input : Option Bool → Configuration → Option Configuration
set_memory_input none c = some c
set_memory_input (some false) c = some c
set_memory_input (some true) c =
    if is_file_input c.input then none else some (record c { input = memory_input })

abbrev pub set_no_input : Option Bool → Configuration → Configuration
set_no_input none c = c
set_no_input (some false) c = c
set_no_input (some true) c = record c { input = no_input }

abbrev pub set_input_file : Option Text → Configuration → Configuration
set_input_file none c = c
set_input_file (some name) c = record c { input = file_input name }

unfoldable pub load_config : Environment → Configuration → Option Configuration
load_config env start = do
  let c1 = record start { output_dir = replace env.output_dir start.output_dir }
  let c2 = set_input_file env.input_file c1
  memory ← parse check_flag_string env.memory_input
  c3 ← set_memory_input memory c2
  concrete ← parse check_flag_string env.no_symbolic_input
  let c4 = set_no_input concrete c3
  let c5 = record c4 { log_file = replace env.log_file c4.log_file }
  pruning ← parse check_flag_string env.linearization
  let c6 = record c5 { pruning = replace pruning c5.pruning }
  let c7 = record c6 { afl_coverage_map = replace env.afl_coverage_map c6.afl_coverage_map }
  threshold ← parse stoul env.gc_threshold
  some (record c7 {
    garbage_collection_threshold = replace threshold c7.garbage_collection_threshold;
  })
