-- ===== src/Tests/Instrumentation.antt =====
-- The instrumentation of a small function, on a machine with pointers of 64 bits.
use symcc.Common.{
  arith, ℕ, zero, suc, ◌+◌, ◌*◌, ◌/◌, ◌<◌, ◌≤◌, ◌≡◌, refl, true, false, none, some, List, [], ◌∷◌,
  ◌++◌, inl, inr, ◌==◌, if◌then◌else◌,
}
use symcc.Common.Cmd.{Returns}
use symcc.Compiler.Ir.{Ty, integer, floating, pointer, struct, array, unsized, DataLayout}
use symcc.Compiler.Handlers.{
  build_sext, build_mul, build_add, result, add, icmp_ult, get_parameter_expression,
}
use symcc.Compiler.Emission.{
  Value, local, constant_int, null_pointer, emitted, before, Emitted, Input, function_entry, call,
  State, empty_state, get_symbolic_expression, get_symbolic_expression_or_null,
  force_build_runtime_call, create_call, create, merge, function_args, inputs_from,
  register_symbolic_computation,
}
use symcc.Compiler.Emission.WellFormed.{IsWellFormed}
use symcc.Compiler.Emission.Meaning.{Number, AreResults}
use symcc.Compiler.Addresses.{
  element_step, scale, add_contribution, address_step, address_steps, visit_get_element_ptr_inst,
}
use symcc.Compiler.Addresses.Correct.{Computes, visit_get_element_ptr_inst-Computes}
use symcc.Compiler.Offsets.{aggregate_member_offset}
use symcc.Compiler.Offsets.Bounds.{LayoutLaws, aggregate_member_offset_bounds}
use symcc.Compiler.Calls.{direct}
use symcc.Compiler.Pass.{
  SourceFunction, binary_operator, cmp_inst, branch_inst, return_inst, load_inst, call_inst,
  get_element_ptr_inst, visit_function,
}
use symcc.Compiler.Pass.Emitted.{visit_function-WellFormed}

-- The sizes of values. Each structure has two members, of four bytes and of eight.
abbrev size_of : Ty → ℕ
size_of (integer w) = w / 8
size_of (floating d) = 8
size_of pointer = 8
size_of (struct s) = 16
size_of (array t n) = n * size_of t
size_of unsized = 0

abbrev member_of : ℕ → ℕ → Ty
member_of s zero = integer 32
member_of s (suc i) = integer 64

abbrev offset_of : ℕ → ℕ → ℕ
offset_of s zero = 0
offset_of s (suc i) = 8

abbrev pub layout : DataLayout
layout = record {
  little_endian = true;
  ptr_bits = 64;
  type_store_size = size_of;
  type_alloc_size = size_of;
  element_type = member_of;
  element_offset = offset_of;
}

member_within : (s i : ℕ) → i < 2 → offset_of s i + size_of (member_of s i) ≤ size_of (struct s)
member_within s zero h = omega arith
member_within s (suc i) h = omega arith

members_apart :
    (s i j : ℕ) → i < j → j < 2 → offset_of s i + size_of (member_of s i) ≤ offset_of s j
members_apart s zero zero h k = absurd (omega arith)
members_apart s zero (suc j) h k = omega arith
members_apart s (suc i) j h k = absurd (omega arith)

layout-LayoutLaws : LayoutLaws layout
layout-LayoutLaws = record {
  member_count = λ s. 2;
  member_within = member_within;
  members_apart = members_apart;
  array_size = λ t n. refl;
}

abbrev pub address : Value → ℕ
address v = 4096

-- The members of the second element of an array of three structures.
offsets_example :
    (aggregate_member_offset layout (array (struct 0) 3) (1 ∷ 0 ∷ []) ≡ some 16)
    × (aggregate_member_offset layout (array (struct 0) 3) (1 ∷ 1 ∷ []) ≡ some 24)
    × (20 ≤ 24)
    × (32 ≤ 48)
unfolding layout-LayoutLaws
offsets_example =
    aggregate_member_offset_bounds layout layout-LayoutLaws (array (struct 0) 3) (1 ∷ 0 ∷ [])
      (1 ∷ 1 ∷ []) (omega arith) (omega arith) (inr (refl, inl (omega arith))) (omega arith)

-- Argument 7, of 32 bits, is symbolic.
abbrev index : Value
index = local 7 (integer 32)

abbrev base : Value
base = local 8 pointer

abbrev before_address : State
before_address = record empty_state {
  next = 1;
  code =
      record {
        number = 0;
        place = function_entry;
        code = call get_parameter_expression (constant_int 8 0 ∷ []);
      }
      ∷ [];
  symbolic_expressions = λ id. if id == 7 then some (emitted 0 pointer) else none;
}

-- The index is -1, and the base 1000.
abbrev environment : Value → ℕ
environment (local id t) = if id == 7 then 0xffff_ffff else 1000
environment v = 0

abbrev results : ℕ → Number
results n =
    if n == 1
    then (64, 0xffff_ffff_ffff_ffff)
    else (if n == 2 then (64, 0xffff_ffff_ffff_fffc) else (64, 996))

address_example :
    Returns
      (λ _ u.
        Computes layout environment results before_address 9
          (0xffff_ffff_ffff_ffff * 4 + 0 + 1000)
          u)
      (visit_get_element_ptr_inst layout address 9 base
        (element_step (integer 32) index ∷ [])
        before_address)
unfolding get_symbolic_expression
address_example =
    visit_get_element_ptr_inst-Computes layout address environment results before_address
      (omega arith) 9 base (element_step (integer 32) index ∷ []) refl
      ((32, refl, omega arith, omega arith), tt) refl refl

-- int f(int *p, int n) { return n < 10 ? g(p[n] + 1) : 0; }, in four blocks.
abbrev function : SourceFunction
function = record {
  is_main = false;
  is_ctor = false;
  parameters = record { id = 1; is_used = true } ∷ record { id = 2; is_used = true } ∷ [];
  blocks = 20 ∷ 21 ∷ 22 ∷ [];
  instructions =
      record {
        id = 3;
        type = integer 1;
        operation = cmp_inst icmp_ult (local 2 (integer 32)) (constant_int 32 10);
      }
      ∷ record { id = 4; type = unsized; operation = branch_inst (some (local 3 (integer 1))) }
      ∷ record {
        id = 5;
        type = pointer;
        operation =
            get_element_ptr_inst (local 1 pointer)
              (element_step (integer 32) (local 2 (integer 32)) ∷ []);
      }
      ∷ record { id = 6; type = integer 32; operation = load_inst (local 5 pointer) }
      ∷ record {
        id = 7;
        type = integer 32;
        operation = binary_operator add (local 6 (integer 32)) (constant_int 32 1);
      }
      ∷ record {
        id = 8;
        type = integer 32;
        operation = call_inst false direct (local 7 (integer 32) ∷ []) true;
      }
      ∷ record { id = 9; type = unsized; operation = return_inst (some (local 8 (integer 32))) }
      ∷ [];
}

function_example :
    Returns
      (λ _ u. IsWellFormed layout u.next u)
      (visit_function layout address function empty_state)
function_example =
    visit_function-WellFormed layout address function
      (refl, (refl, (tt, (tt, (refl, (tt, (tt, tt)))))))

-- The calls for this address: an extension, a product and a sum.
abbrev calls : List Emitted
calls =
    record {
      number = 1;
      place = before 9;
      code = call build_sext (emitted 0 pointer ∷ constant_int 8 32 ∷ []);
    }
    ∷ record {
      number = 2;
      place = before 9;
      code = call build_mul (emitted 1 pointer ∷ null_pointer ∷ []);
    }
    ∷ record {
      number = 3;
      place = before 9;
      code = call build_add (emitted 2 pointer ∷ null_pointer ∷ []);
    }
    ∷ []

abbrev inputs : List Input
inputs =
    record { concrete_value = index; operand_index = 0; user = 1 }
    ∷ record { concrete_value = constant_int 64 4; operand_index = 1; user = 2 }
    ∷ record { concrete_value = base; operand_index = 1; user = 3 }
    ∷ []

address_calls :
    visit_get_element_ptr_inst layout address 9 base
      (element_step (integer 32) index ∷ [])
      before_address
    ≡ some (
      tt,
      record before_address {
        next = 4;
        code = before_address.code ++ calls;
        symbolic_expressions = λ id.
            if 9 == id then some (emitted 3 pointer) else before_address.symbolic_expressions id;
        expression_uses =
            record { first_instruction = some 1; last_instruction = some 3; inputs = inputs } ∷ [];
      },
    )
unfolding visit_get_element_ptr_inst address_steps address_step scale add_contribution
    force_build_runtime_call create_call create merge function_args inputs_from
    get_symbolic_expression get_symbolic_expression_or_null register_symbolic_computation result
address_calls = refl

address_results : AreResults layout environment results inputs calls
address_results = (refl, (refl, (refl, tt)))
