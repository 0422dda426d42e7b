-- ===== src/Tests/Simple.antt =====
-- The backend on Z3, with a small solver.
use symcc.Common.{
  arith, ℕ, ◌≡◌, ◌↔◌, refl, Bool, true, false, none, some, List, [], ◌∷◌, ◌==◌, if◌then◌else◌,
}
use symcc.Common.Cmd.{Returns}
use symcc.Shadow.{Pages, load_cell}
use symcc.GarbageCollection.{contains, Reachable}
use symcc.Shadow.View.{shadow_at}
use symcc.Runtime.{Machine, write_memory, read_memory}
use symcc.Runtime.Transfer.{Bytes}
use symcc.SimpleBackend.Builders.{bits_helper}
use symcc.SimpleBackend.Instance.{simple_backend, simple_backend_read_back}
use symcc.Tests.Solver.{small_z3, small_laws, all_of}
use symcc.SimpleBackend.{SimpleState, eq, get_input_byte}
use symcc.SimpleBackend.Constraints.{backend_memcpy, collect_garbage}
use symcc.SimpleBackend.Path.{Branch, Asserts, Complete, push_all, push_all-follows}
use symcc.SimpleBackend.Pins.{Narrowed, all_pins, backend_memcpy-Narrowed}
use symcc.SimpleBackend.Inputs.{requests, get_input_byte-requests, get_input_byte-skipped}
use symcc.SimpleBackend.References.{Held, collect_garbage-Held}

abbrev start : SimpleState small_z3
start = record {
  refs = λ x. 0;
  allocated_expressions = [];
  stdin_bytes = [];
  solver = ([], []);
  log = [];
  rounding_mode = 0;
  null_pointer = 0;
  true_expr = 7;
  false_expr = 4;
}

-- The byte of the input that is 65 under the second input, and the test for it.
abbrev first_byte : ℕ
first_byte = small_z3.mk_stdin_const 0 8

abbrev is_letter : ℕ
is_letter = small_z3.mk_binary eq first_byte (small_z3.mk_unsigned_int64 65 8)

abbrev path : List Branch
path = (some is_letter, true, 100) ∷ (none, false, 200) ∷ (some is_letter, true, 300) ∷ []

complete : Complete small_z3 small_laws true
complete z h = let a : all_of true z.0 ≡ true = h in rw a refl

path_example :
    Returns
      (λ _ s'. Asserts small_z3 small_laws path start s')
      (push_all small_z3 small_laws path start)
path_example = push_all-follows small_z3 small_laws true path start complete refl refl

-- A pointer of 64 bits that is 65 under the second input.
abbrev pointer : ℕ
pointer = small_z3.mk_stdin_const 0 64

memcpy_pin_example :
    Returns
      (λ _ s'.
        Narrowed small_z3 small_laws
          (λ σ. all_pins small_z3 small_laws σ (some pointer) none (some pointer) 65 4096 65)
          start
          s')
      (backend_memcpy small_z3 (some pointer) none (some pointer) 65 4096 65 start)
memcpy_pin_example =
    backend_memcpy-Narrowed small_z3 small_laws true (some pointer) none (some pointer) 65 4096 65
      start refl tt refl complete refl refl

requests_example :
    (get_input_byte small_z3 2 0
      (requests small_z3 ((1, 5) ∷ (7, 6) ∷ []) (get_input_byte small_z3 2 9 start).1)).0
    ≡ (get_input_byte small_z3 2 9 start).0
requests_example = get_input_byte-requests small_z3 2 9 0 ((1, 5) ∷ (7, 6) ∷ []) start

skipped_example :
    (get_input_byte small_z3 1 0
      (requests small_z3 ((7, 6) ∷ []) (get_input_byte small_z3 2 9 start).1)).0
    ≡ none
skipped_example =
    get_input_byte-skipped small_z3 2 1 9 0 ((7, 6) ∷ []) start (omega arith) (omega arith)

-- Two expressions are allocated, and one of them is reachable.
abbrev busy : SimpleState small_z3
busy = record start { refs = λ x. 1; allocated_expressions = 55 ∷ 56 ∷ [] }

abbrev pages : Pages ℕ
pages = (4096, λ o. if o == 12 then some 55 else none) ∷ []

collect_on_z3_example :
    Held small_z3 (collect_garbage small_z3 2 (λ a. none) [] pages busy)
    × ((x : ℕ)
        → (contains (collect_garbage small_z3 2 (λ a. none) [] pages busy).allocated_expressions x
            ≡ true)
          ↔ ((contains busy.allocated_expressions x ≡ true) × Reachable (λ a. none) [] pages x))
    × ((x : ℕ) → (collect_garbage small_z3 2 (λ a. none) [] pages busy).refs x ≡ busy.refs x)
collect_on_z3_example =
    collect_garbage-Held small_z3 2 (λ a. none) [] pages busy (omega arith) (λ x there. omega arith)

abbrev machine : Machine (simple_backend small_z3)
machine = record {
  backend = start;
  shadow_pages = [];
  memory = λ a. a;
  return_value = none;
  function_arguments = λ i. none;
  switch_cache = [];
  memory_input_offset = 0;
}

no_shadow : Bytes (simple_backend small_z3) machine 4094 4
unfolding shadow_at load_cell
no_shadow x p q = refl

abbrev word : ℕ
word = small_z3.mk_stdin_const 0 32

read_back_on_z3_example :
    (m' : Machine (simple_backend small_z3)) × (write_memory
        (simple_backend small_z3)
        none
        (some word)
        4094
        4
        true
        machine
      ≡ some (tt, m'))
    × (r : ℕ) × (m'' : Machine (simple_backend small_z3)) × (read_memory
          (simple_backend small_z3)
          none
          4094
          4
          true
          m'
        ≡ some (some r, m''))
    × (bits_helper small_z3 r ≡ bits_helper small_z3 word)
    × ((ρ : Bool) → small_laws.value ρ r ≡ small_laws.value ρ word)
unfolding bits_helper
read_back_on_z3_example =
    simple_backend_read_back small_z3 small_laws machine word 4094 4 true (omega arith) refl
      (omega arith) (omega arith) no_shadow
