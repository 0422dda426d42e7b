-- ===== src/Tests/Runs.antt =====
-- Runs of the shared runtime on the small backend.
use symcc.Common.{
  arith, ℕ, ◌^◌, ◌<◌, ◌≡◌, refl, Bool, true, false, none, some, List, [], ◌∷◌, ◌==◌, if◌then◌else◌,
  inl,
}
use symcc.Common.Cmd.{Returns, advance}
use symcc.Shadow.{page_start, page_offset, load_cell}
use symcc.Shadow.Addresses.{page_split}
use symcc.Shadow.View.{shadow_at}
use symcc.Shadow.Copy.{Copied}
use symcc.Shadow.Fill.{within}
use symcc.Runtime.{
  Machine, CachedPathConstraint, cached, memcpy, memset, memmove, read_memory, write_memory,
}
use symcc.Runtime.Transfer.{SameProgram, view, memcpy_shadow, memmove_shadow, memset_shadow}
use symcc.Runtime.Reading.{StandsFor, at_state, read_memory-StandsFor}
use symcc.Runtime.Writing.{read_memory-write_memory}
use symcc.Runtime.Aggregates.{build_extract, build_insert}
use symcc.Runtime.Aggregates.Values.{IsSlice, build_extract-IsSlice}
use symcc.Runtime.Aggregates.Insertion.{HasBytes, inserted_byte, build_insert-HasBytes}
use symcc.Runtime.Switch.{push_cases}
use symcc.Runtime.Switch.Order.{
  push_onto, in_order, push_cases-in_order, push_cases-twice, taken_count,
}
use symcc.Tests.Toy.{ToyExpr, toy, toy_laws, toy_value, constant, input}
use symcc.Tests.Shadows.{one_page, one_page-BytesIn}

abbrev machine : Machine toy
machine = record {
  backend = [];
  shadow_pages = one_page;
  memory = λ a. a;
  return_value = none;
  function_arguments = λ i. none;
  switch_cache = [];
  memory_input_offset = 7;
}

below : (x : ℕ) → x < 4096 → shadow_at one_page x ≡ none
unfolding shadow_at load_cell
below x p =
    let other : (4096 == page_start x) ≡ false = ground (arith, page_split x (omega arith)) in
    rw (shadow_at, load_cell, other) refl

memcpy_example :
    Returns
      (λ _ m'.
        Copied (view toy machine) one_page 4096 4094 6 m'.shadow_pages × SameProgram toy machine m')
      (memcpy toy none none (some (constant 6 64)) 4094 4096 6 machine)
memcpy_example =
    memcpy_shadow toy machine none none (some (constant 6 64)) 4094 4096 6 (omega arith)
      (omega arith) (inl (omega arith)) (one_page-BytesIn 4096 6) (one_page-BytesIn 4094 6) refl

memmove_example :
    Returns
      (λ _ m'.
        Copied (view toy machine) one_page 4096 4098 6 m'.shadow_pages × SameProgram toy machine m')
      (memmove toy none none none 4098 4096 6 machine)
memmove_example =
    memmove_shadow toy machine none none none 4098 4096 6 (omega arith) (omega arith)
      (one_page-BytesIn 4096 6) (one_page-BytesIn 4098 6) refl

memset_example :
    Returns
      (λ _ m'.
        ((b : ℕ)
          → b < 2 ^ 64
          → view toy m' b ≡ (if within b 4098 9 then none else view toy machine b))
        × SameProgram toy machine m')
      (memset toy none none none 4098 0 9 machine)
memset_example =
    memset_shadow toy machine none none none 4098 0 9 (omega arith) (one_page-BytesIn 4098 9) refl

read_symbolic_example :
    (e : ToyExpr) × (t : List ℕ) × (read_memory toy none 4094 4 true machine
      ≡ some (some e, at_state toy toy_laws machine t))
    × StandsFor toy toy_laws machine true 4094 4 e
unfolding shadow_at load_cell page_start page_offset
read_symbolic_example =
    read_memory-StandsFor toy toy_laws machine 4094 4 4097 true (omega arith) (omega arith)
      (one_page-BytesIn 4094 4) (omega arith) (omega arith) refl

read_back_example :
    (m' : Machine toy) × (write_memory toy none (some (constant 77 32)) 4094 4 true machine
      ≡ some (tt, m'))
    × (r : ToyExpr) × (m'' : Machine toy) × (read_memory toy none 4094 4 true m'
        ≡ some (some r, m''))
    × (r.width ≡ 32)
    × ((ρ : ℕ → ℕ) → toy_value ρ r ≡ toy_value ρ (constant 77 32))
read_back_example =
    read_memory-write_memory toy toy_laws machine (constant 77 32) 4094 4 true (omega arith) refl
      (omega arith) (omega arith) (one_page-BytesIn 4094 4)

extract_example :
    (r : ToyExpr) × (t : List ℕ) × (build_extract toy (constant 77 64) 2 4 true machine
      ≡ some (r, at_state toy toy_laws machine t))
    × IsSlice toy toy_laws (constant 77 64) 8 2 4 true r
extract_example =
    build_extract-IsSlice toy toy_laws machine (constant 77 64) 8 2 4 true refl (omega arith)
      (omega arith) (omega arith)

insert_example :
    (r : ToyExpr) × (t : List ℕ) × (build_insert toy (constant 77 64) (constant 5 16) 3 true machine
      ≡ some (r, at_state toy toy_laws machine t))
    × HasBytes toy toy_laws 8
        (λ ρ. inserted_byte true (toy_value ρ (constant 77 64)) 8 (toy_value ρ (constant 5 16)) 2 3)
        r
insert_example =
    build_insert-HasBytes toy toy_laws machine (constant 77 64) (constant 5 16) 8 2 3 true refl
      (omega arith) refl (omega arith) (omega arith) λ p. refl

abbrev cases : Bool → List (CachedPathConstraint ToyExpr)
cases last = cached none false 4 ∷ cached (some (input 0)) true 5 ∷ cached none last 6 ∷ []

switch_example :
    push_cases toy (cases false) 0 3 machine
    ≡ advance
        (push_onto toy (in_order toy (cases false)) [])
        (λ t. record machine { backend = t; switch_cache = [] })
unfolding taken_count
switch_example =
    push_cases-in_order toy machine (cases false) refl (omega arith) (omega arith) (omega arith)

switch_twice_example : push_cases toy (cases true) 0 3 machine ≡ none
unfolding taken_count
switch_twice_example = push_cases-twice toy machine (cases true) refl (omega arith) (omega arith)
