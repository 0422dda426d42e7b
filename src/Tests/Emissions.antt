-- ===== src/Tests/Emissions.antt =====
-- Expressions for values, and the end of the processing of PHI nodes.
use symcc.Common.{
  arith, ℕ, ◌+◌, ◌^◌, ◌≡◌, refl, false, none, some, [], ◌∷◌, inr, ◌==◌, if◌then◌else◌,
}
use symcc.Compiler.Ir.{integer, pointer}
use symcc.Compiler.Handlers.{get_parameter_expression, build_add}
use symcc.Compiler.Emission.{
  Value, local, constant_int, null_pointer, emitted, function_entry, before, call, phi, PhiNode,
  State, empty_state,
}
use symcc.Compiler.Values.{create_value_expression}
use symcc.Compiler.Values.Meaning.{bit_vector, Builds, create_value_expression-Builds}
use symcc.Compiler.Phis.{finalize_phi_nodes}
use symcc.Compiler.Phis.Meaning.{Nodes, any_use, is_constant_node, kept_instructions}
use symcc.Compiler.Phis.Finished.{finalize_phi_nodes_lem}
use symcc.Tests.Instrumentation.{layout, address}

-- A value of 128 bits.
abbrev wide : Value
wide = local 3 (integer 128)

abbrev wide_environment : Value → ℕ
wide_environment v = 2 ^ 100 + 5

value_example :
    Builds layout wide_environment
      (before 4)
      empty_state
      (bit_vector 128 (2 ^ 100 + 5))
      (create_value_expression layout address (before 4) wide empty_state)
value_example =
    create_value_expression-Builds layout address wide_environment (before 4) wide empty_state
      (inr refl) (omega arith)

-- Two PHI nodes, of which the second has constants only, and a call that uses both.
abbrev first_node : PhiNode
first_node = record { node = 30; incoming = local 7 (integer 32) ∷ local 31 (integer 32) ∷ [] }

abbrev second_node : PhiNode
second_node = record { node = 31; incoming = constant_int 32 1 ∷ constant_int 32 2 ∷ [] }

abbrev with_nodes : State
with_nodes = record {
  next = 4;
  code =
      record {
        number = 0;
        place = function_entry;
        code = call get_parameter_expression (constant_int 8 0 ∷ []);
      }
      ∷ record { number = 1; place = before 30; code = phi (null_pointer ∷ null_pointer ∷ []) }
      ∷ record { number = 2; place = before 31; code = phi (null_pointer ∷ null_pointer ∷ []) }
      ∷ record {
        number = 3;
        place = before 32;
        code = call build_add (emitted 1 pointer ∷ emitted 2 pointer ∷ []);
      }
      ∷ [];
  symbolic_expressions = λ id.
      if id == 7
      then some (emitted 0 pointer)
      else (if id == 30
          then some (emitted 1 pointer)
          else (if id == 31 then some (emitted 2 pointer) else none));
  phi_nodes = first_node ∷ second_node ∷ [];
  expression_uses = [];
}

abbrev nodes : Nodes
nodes = (1, first_node) ∷ (2, second_node) ∷ []

nodes_example :
    (u : State) × (finalize_phi_nodes with_nodes ≡ some u)
    × (u.code ≡ kept_instructions with_nodes nodes with_nodes.code)
    × (any_use (is_constant_node with_nodes nodes) u.code ≡ false)
    × (u.symbolic_expressions ≡ λ id. none)
nodes_example = finalize_phi_nodes_lem with_nodes nodes refl (refl, refl, (refl, refl, tt))
