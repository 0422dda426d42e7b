-- ===== src/Compiler/Pass/Emitted.antt =====
-- The state of the pass over a whole function, as compiler/Pass.cpp runs it.
use symcc.Common.{arith, ℕ, ◌≡◌, refl, true, false, not, ◌||◌, none, some, List, [], ◌∷◌}
use symcc.Common.Cmd.{Returns, returns, Returns-bind}
use symcc.Compiler.Ir.{Ty, integer, DataLayout}
use symcc.Compiler.Handlers.{
  parameters, build_trunc, build_int_to_float, build_float_to_float, build_float_to_signed_int,
  build_float_to_unsigned_int,
}
use symcc.Compiler.Emission.{Value, type_of, State, empty_state}
use symcc.Compiler.Emission.WellFormed.{no_more, IsWellFormed}
use symcc.Compiler.Emission.Steps.{Settled, concretize_pointer_at-Settled}
use symcc.Compiler.Addresses.Emitted.{visit_get_element_ptr_inst-Settled}
use symcc.Compiler.Visitors.{
  is_boolean, visit_trunc_inst, visit_int_to_ptr_inst, visit_ptr_to_int_inst, visit_si_to_fp_inst,
  visit_ui_to_fp_inst, visit_fp_ext_inst, visit_fp_trunc_inst, visit_fp_to_si, visit_fp_to_ui,
  visit_branch_inst,
}
use symcc.Compiler.Visitors.Emitted.{
  is_logical, is_constant, is_handled_cast, symbolize-Settled, visit_binary_operator-Settled,
  visit_cmp_inst-Settled, push_condition-Settled, copy_expression-Settled,
  visit_bit_cast_inst-Settled, visit_select_inst-Settled, visit_cast_inst-Settled,
}
use symcc.Compiler.Memory.Emitted.{
  is_member, all_expressible, visit_load_inst-Settled, visit_store_inst-Settled,
  visit_insert_value_inst-Settled, visit_extract_value_inst-Settled, visit_switch_inst-Settled,
  visit_phi_node-Settled,
}
use symcc.Compiler.Calls.{
  visit_indirect_br_inst, visit_call_inst, visit_invoke_inst, handle_inline_assembly,
}
use symcc.Compiler.Calls.Emitted.{
  CallIsVerified, symbolize_function_arguments-Settled, insert_basic_block_notification-Settled,
  handle_function_call-Settled, visit_return_inst-Settled,
}
use symcc.Compiler.Pass.{
  Operation, binary_operator, cmp_inst, select_inst, return_inst, branch_inst, indirect_br_inst,
  call_inst, load_inst, store_inst, get_element_ptr_inst, bit_cast_inst, trunc_inst,
  int_to_ptr_inst, ptr_to_int_inst, si_to_fp_inst, ui_to_fp_inst, fp_ext_inst, fp_trunc_inst,
  fp_to_si, fp_to_ui, cast_inst, phi_node, insert_value_inst, extract_value_inst, switch_inst,
  invoke_inst, alloca_inst, unreachable_inst, other_cast, other_inst, Instruction, SourceFunction,
  perform, visit_all, notify_blocks, visit_function,
}

-- What LLVM's verifier grants of an instruction, and that it is one that the source handles: a
-- Boolean operator is `and`, `or` or `xor`, a comparison looks at its operands, and a bit cast
-- is between integers and floating-point numbers or between pointers.
abbrev pub IsHandled : DataLayout → Ty → Operation → Type 0
IsHandled L t (binary_operator o a b) = (not (is_boolean (type_of a)) || is_logical o) ≡ true
IsHandled L t (cmp_inst p a b) = is_constant p ≡ false
IsHandled L t (select_inst c a b) = type_of c ≡ integer 1
IsHandled L t (branch_inst (some c)) = type_of c ≡ integer 1
IsHandled L t (call_inst false f args used) = CallIsVerified f args
IsHandled L t (call_inst true f args used) = Unit {0}
IsHandled L t (invoke_inst f args used) = CallIsVerified f args
IsHandled L t (bit_cast_inst v) = is_handled_cast (type_of v) t ≡ true
IsHandled L t (insert_value_inst g v is) = is_member L (type_of g) is ≡ true
IsHandled L t (extract_value_inst g is) = is_member L (type_of g) is ≡ true
IsHandled L t (switch_inst c cases) = all_expressible cases ≡ true
IsHandled L t _ = Unit {0}

abbrev pub AllHandled : DataLayout → List Instruction → Type 0
AllHandled L [] = Unit {0}
AllHandled L (i ∷ is) = IsHandled L i.type i.operation × AllHandled L is

module _ (L : DataLayout) (address : Value → ℕ) where
  perform-Settled :
      (id : ℕ) (t : Ty) (o : Operation) (s : State)
      → IsHandled L t o
      → Settled L s
      → Returns (λ _ u. Settled L u) (perform L address id t o s)
  unfolding perform visit_call_inst visit_invoke_inst handle_inline_assembly parameters
      visit_trunc_inst visit_int_to_ptr_inst visit_ptr_to_int_inst visit_si_to_fp_inst
      visit_ui_to_fp_inst visit_fp_ext_inst visit_fp_trunc_inst visit_fp_to_si visit_fp_to_ui
      visit_branch_inst visit_indirect_br_inst
  perform-Settled id t (binary_operator o a b) s h w =
      visit_binary_operator-Settled L address id o a b h w
  perform-Settled id t (cmp_inst p a b) s h w = visit_cmp_inst-Settled L address id p a b h w
  perform-Settled id t (select_inst c a b) s h w =
      visit_select_inst-Settled L address id t c a b s h w
  perform-Settled id t (return_inst v) s h w = visit_return_inst-Settled L address id v s w
  perform-Settled id t (branch_inst none) s h w = returns w
  perform-Settled id t (branch_inst (some c)) s h w = push_condition-Settled L address id t c h w
  perform-Settled id t (indirect_br_inst a) s h w = concretize_pointer_at-Settled L address _ a w
  perform-Settled id t (call_inst true f args used) s h w = returns w
  perform-Settled id t (invoke_inst f args used) s h w =
      handle_function_call-Settled L address id t f args used s h w
  perform-Settled id t (call_inst false f args used) s h w =
      handle_function_call-Settled L address id t f args used s h w
  perform-Settled id t (load_inst a) s h w = visit_load_inst-Settled L address id t a w
  perform-Settled id t (store_inst v a) s h w = visit_store_inst-Settled L address id v a w
  perform-Settled id t (get_element_ptr_inst p steps) s h w =
      visit_get_element_ptr_inst-Settled L address id p steps s w
  perform-Settled id t (bit_cast_inst v) s h w = visit_bit_cast_inst-Settled L address id t v h w
  perform-Settled id t (trunc_inst v) s h w =
      symbolize-Settled L address id build_trunc _ refl refl w
  perform-Settled id t (int_to_ptr_inst v) s h w = copy_expression-Settled L address id v w
  perform-Settled id t (ptr_to_int_inst v) s h w = copy_expression-Settled L address id v w
  perform-Settled id t (si_to_fp_inst v) s h w =
      symbolize-Settled L address id build_int_to_float _ refl refl w
  perform-Settled id t (ui_to_fp_inst v) s h w =
      symbolize-Settled L address id build_int_to_float _ refl refl w
  perform-Settled id t (fp_ext_inst v) s h w =
      symbolize-Settled L address id build_float_to_float _ refl refl w
  perform-Settled id t (fp_trunc_inst v) s h w =
      symbolize-Settled L address id build_float_to_float _ refl refl w
  perform-Settled id t (fp_to_si v) s h w =
      symbolize-Settled L address id build_float_to_signed_int _ refl refl w
  perform-Settled id t (fp_to_ui v) s h w =
      symbolize-Settled L address id build_float_to_unsigned_int _ refl refl w
  perform-Settled id t (cast_inst is_signed v) s h w =
      visit_cast_inst-Settled L address id is_signed t v s w
  perform-Settled id t (phi_node vs) s h w = visit_phi_node-Settled L address id vs s w
  perform-Settled id t (insert_value_inst g v is) s h w =
      visit_insert_value_inst-Settled L address id g v is h w
  perform-Settled id t (extract_value_inst g is) s h w =
      visit_extract_value_inst-Settled L address id t g is h w
  perform-Settled id t (switch_inst c cases) s h w =
      visit_switch_inst-Settled L address id t c cases s h w
  perform-Settled id t alloca_inst s h w = returns w
  perform-Settled id t unreachable_inst s h w = returns w
  perform-Settled id t other_cast s h w = returns w
  perform-Settled id t other_inst s h w = returns w

  visit_all-Settled :
      (is : List Instruction) (s : State)
      → AllHandled L is
      → Settled L s
      → Returns (λ _ u. Settled L u) (visit_all L address is s)
  unfolding visit_all
  visit_all-Settled [] s h w = returns w
  visit_all-Settled (i ∷ is) s (h, hs) w =
      Returns-bind (perform-Settled i.id i.type i.operation s h w)
        λ _ t x. visit_all-Settled is t hs x

  notify_blocks-Settled :
      (bs : List ℕ) (s : State)
      → Settled L s
      → Returns (λ _ u. Settled L u) (notify_blocks L address bs s)
  unfolding notify_blocks
  notify_blocks-Settled [] s w = returns w
  notify_blocks-Settled (b ∷ bs) s w =
      Returns-bind (insert_basic_block_notification-Settled L address b s w)
        λ _ t x. notify_blocks-Settled bs t x

  empty_state-Settled : Settled L empty_state
  empty_state-Settled = record {
    emissions = refl;
    expressions = λ id e p. absurd (ground (arith, p));
    uses = no_more (omega arith);
    bounded = omega arith;
  }

  -- The instrumentation of a function of which each instruction is handled comes to an end. Then
  -- the instructions that were emitted have distinct numbers in order, and each call passes exactly
  -- the types that the declaration of the runtime function asks for; each expression that is
  -- recorded for a value is an emitted instruction; and the recorded computations are made of emitted
  -- instructions, do not overlap, follow one another, and each has an input that is an operand
  -- within it.
  pub visit_function-WellFormed :
      (f : SourceFunction)
      → AllHandled L f.instructions
      → Returns (λ _ u. IsWellFormed L u.next u) (visit_function L address f empty_state)
  unfolding visit_function
  visit_function-WellFormed f h =
      Returns-bind
        (symbolize_function_arguments-Settled L address f.is_main f.parameters empty_state
          empty_state-Settled)
        λ _ s w.
          Returns-bind (notify_blocks-Settled f.blocks s w)
            λ _ t x. visit_all-Settled f.instructions t h x
