-- ===== src/Tests/Activations.antt =====
-- A function f(x) on the small backend, which calls g(x, 5), a function of two parameters that returns the
-- first, and stores x and loads it again.
use symcc.Common.{◌+◌, Option, map, Bool-cases, inl, inr}
use symcc.Common.{arith, ℕ, ◌≡◌, refl, true, false, none, some, List, [], ◌∷◌, ◌==◌, if◌then◌else◌}
use symcc.Common.Cmd.{Returns, and_then, ◌>>◌}
use symcc.Compiler.Ir.{integer, pointer, is_little_endian}
use symcc.Compiler.Handlers.{
  Function, get_parameter_expression, build_add, add, parameters, binary_operator_handlers,
}
use symcc.Compiler.ShortCircuit.{expected}
use symcc.Compiler.Visitors.{binary_handler, visit_binary_operator}
use symcc.Compiler.Emission.WellFormed.{IsExpression, IsWellFormed, no_more}
use symcc.Compiler.Passing.Computations.{known_argument, run_result}
use symcc.Compiler.Passing.Computations.Results.{visit_binary_operator-run_result}
use symcc.Compiler.Emission.{
  Value, local, constant_int, get_symbolic_expression, get_symbolic_expression_or_null, emitted,
  call, function_entry, before, State, empty_state,
}
use symcc.Compiler.Calls.{
  direct, Parameter, symbolize_function_arguments, handle_function_call, visit_return_inst,
}
use symcc.Compiler.Passing.{execute_at, Frame, expression_in, enter, leave, call_through}
use symcc.Compiler.Memory.{visit_store_inst, visit_load_inst}
use symcc.Compiler.Passing.Accesses.{visit_load_inst-visit_store_inst}
use symcc.Compiler.Passing.Arguments.{symbolize_function_arguments-handle_function_call}
use symcc.Compiler.Passing.Results.{
  handle_function_call-visit_return_inst, handle_function_call-uninstrumented,
}
use symcc.Runtime.{Machine}
use symcc.Tests.Toy.{toy, toy_laws, toy_value, input, constant, ToyExpr}
use symcc.Tests.Instrumentation.{layout, address}
use symcc.Tests.Shadows.{one_page, one_page-BytesIn}

-- The storage holds what earlier calls left.
abbrev machine : Machine toy
machine = record {
  backend = [];
  shadow_pages = one_page;
  memory = λ a. a;
  return_value = some (constant 1 8);
  function_arguments = λ i. some (constant i 8);
  switch_cache = [];
  memory_input_offset = 0;
}

-- The argument x of f is value 7, with the expression that its entry has loaded.
abbrev caller : State
caller = record empty_state {
  next = 1;
  code =
      record {
        number = 0;
        place = function_entry;
        code = call get_parameter_expression (constant_int 8 0 ∷ []);
      }
      ∷ [];
  symbolic_expressions = λ id. if id == 7 then some (emitted 0 pointer) else none;
}

abbrev caller_results : Frame toy
caller_results k = if k == 0 then some (input 3) else none

abbrev environment : Value → ℕ
environment v = 4096

abbrev x : Value
x = local 7 (integer 32)

abbrev arguments : List Value
arguments = x ∷ constant_int 32 5 ∷ []

abbrev callee_parameters : List Parameter
callee_parameters = record { id = 1; is_used = true } ∷ record { id = 2; is_used = true } ∷ []

parameter_example :
    Returns
      (λ _ u.
        Returns
          (λ _ w.
            Returns
              (λ _ (results, _).
                expression_in toy results w (local 1 (integer 32))
                ≡ expression_in toy caller_results caller x)
              (enter toy environment environment u w 9 caller_results machine))
          (symbolize_function_arguments layout address false callee_parameters empty_state))
      (handle_function_call layout address 9 (integer 32) direct arguments true caller)
parameter_example =
    symbolize_function_arguments-handle_function_call toy environment environment layout address
      caller 9 (integer 32) arguments true false callee_parameters caller_results machine 0 x
      (record { id = 1; is_used = true }) (integer 32) refl refl (omega arith) ((cc, tt), (tt, tt))
      refl refl refl

-- The callee returns its first parameter, value 1.
abbrev callee : State
callee = record caller {
  symbolic_expressions = λ id. if id == 1 then some (emitted 0 pointer) else none;
}

return_example :
    Returns
      (λ _ w.
        Returns
          (λ _ u.
            Returns
              (λ _ (results, m').
                (expression_in toy results u (local 9 (integer 32))
                  ≡ expression_in toy caller_results callee (local 1 (integer 32)))
                × (m'.return_value ≡ none))
              (leave toy environment environment w u 4 9 caller_results caller_results machine))
          (handle_function_call layout address 9 (integer 32) direct arguments true caller))
      (visit_return_inst layout address 4 (some (local 1 (integer 32))) callee)
return_example =
    handle_function_call-visit_return_inst toy environment environment layout address callee caller
      4 9 (local 1 (integer 32)) (integer 32) (integer 32) arguments caller_results caller_results
      machine refl refl

-- The callee is a function of a library, which clears the memory.
abbrev library_call : Machine toy → Machine toy
library_call m = record m { memory = λ a. 0 }

uninstrumented_example :
    Returns
      (λ _ u.
        Returns
          (λ _ (results, _). expression_in toy results u (local 9 (integer 32)) ≡ none)
          (call_through toy environment u 9 caller_results library_call machine))
      (handle_function_call layout address 9 (integer 32) direct arguments true caller)
uninstrumented_example =
    handle_function_call-uninstrumented toy environment layout address caller 9 (integer 32)
      (integer 32) arguments caller_results machine library_call (λ n. refl) refl refl (omega arith)

-- The value x, of four bytes, is stored at address 4094 and loaded again.
abbrev memory_frame : Frame toy
memory_frame k = if k == 0 then some (constant 77 32) else none

abbrev pointer_value : Value → ℕ
pointer_value v = 4094

access_example :
    Returns
      (λ _ u.
        Returns
          (λ _ (results, _).
            (r : ToyExpr) × (expression_in toy results u (local 12 (integer 32)) ≡ some r)
            × (r.width ≡ 32)
            × ((ρ : ℕ → ℕ) → toy_value ρ r ≡ toy_value ρ (constant 77 32)))
          (and_then
            (execute_at toy pointer_value (before 11) u (memory_frame, machine))
            λ _. execute_at toy pointer_value (before 12) u))
      ((do
        visit_store_inst layout address 11 x (local 8 pointer)
        visit_load_inst layout address 12 (integer 32) (local 8 pointer))
        caller)
unfolding is_little_endian get_symbolic_expression get_symbolic_expression_or_null
access_example =
    visit_load_inst-visit_store_inst toy toy_laws pointer_value layout address caller 11 12 x
      (local 8 pointer) (integer 32) memory_frame machine (constant 77 32) (omega arith) refl refl
      refl refl refl refl (omega arith) (omega arith) refl (omega arith) (omega arith)
      (one_page-BytesIn 4094 4)

-- x + 5, where the state counts the expressions that were created.
abbrev create_constant : Value → ℕ → Option ToyExpr × ℕ
create_constant (constant_int w n) t = (some (constant n w), t + 1)
create_constant _ t = (some (constant 0 32), t + 1)

abbrev compute_sum : Function → List (Option ToyExpr) → ℕ → Option ToyExpr × ℕ
compute_sum build_add (some a ∷ some b ∷ []) t =
    (some (record { width = a.width; denote = λ ρ. a.denote ρ + b.denote ρ }), t)
compute_sum _ _ t = (none, t)

caller_expressions :
    (id : ℕ) (e : Value) → caller.symbolic_expressions id ≡ some e → IsExpression 1 e
caller_expressions id e p = elim (Bool-cases (id == 7)) [
  | inl is_x ↦ (0, ground (arith, p, is_x), omega arith)
  | inr other ↦ absurd (ground (arith, p, other))
]

caller-IsWellFormed : IsWellFormed layout 1 caller
unfolding parameters
caller-IsWellFormed = record {
  emissions = (refl, refl, refl);
  expressions = λ id e p. caller_expressions id e p;
  uses = no_more (omega arith);
  bounded = omega arith;
}

sum_example :
    Returns
      (λ _ u.
        run_result toy create_constant compute_sum memory_frame u 13 0
        ≡ some (
            expected create_constant
              (compute_sum build_add)
              (map (known_argument caller) (x ∷ constant_int 32 5 ∷ []))
              true
              (map (expression_in toy memory_frame caller) (x ∷ constant_int 32 5 ∷ []))
              0))
      (visit_binary_operator layout address 13 add x (constant_int 32 5) caller)
unfolding binary_handler binary_operator_handlers
sum_example =
    visit_binary_operator-run_result layout address toy create_constant compute_sum memory_frame
      caller 13 add x (constant_int 32 5) build_add 0 refl caller-IsWellFormed refl

-- One expression is created, for 5.
sum_run :
    expected create_constant
      (compute_sum build_add)
      (map (known_argument caller) (x ∷ constant_int 32 5 ∷ []))
      true
      (map (expression_in toy memory_frame caller) (x ∷ constant_int 32 5 ∷ []))
      0
    ≡ (some (record { width = 32; denote = λ ρ. 82 }), 1)
unfolding get_symbolic_expression get_symbolic_expression_or_null
sum_run = refl
