-- ===== src/Compiler/Pass.antt =====
-- compiler/Pass.cpp: the instrumentation of one function, and the dispatch of the visitors of
-- compiler/Symbolizer.cpp over its instructions.
pub mod Emitted
use symcc.Common.{
  ℕ, Bool, true, false, not, Option, none, some, List, [], ◌∷◌, ◌++◌, ◌==◌, if◌then◌else◌,
}
use symcc.Common.Cmd.{pure, ◌>>=◌, ◌>>◌}
use symcc.Compiler.Ir.{Ty, DataLayout}
use symcc.Compiler.Handlers.{BinaryOps, Predicate}
use symcc.Compiler.Emission.{Value, State, empty_state, Emit}
use symcc.Compiler.Addresses.{Step, visit_get_element_ptr_inst}
use symcc.Compiler.Visitors.{
  visit_binary_operator, visit_cmp_inst, visit_select_inst, visit_branch_inst, visit_bit_cast_inst,
  visit_trunc_inst, visit_int_to_ptr_inst, visit_ptr_to_int_inst, visit_si_to_fp_inst,
  visit_ui_to_fp_inst, visit_fp_ext_inst, visit_fp_trunc_inst, visit_fp_to_si, visit_fp_to_ui,
  visit_cast_inst,
}
use symcc.Compiler.Memory.{
  visit_load_inst, visit_store_inst, visit_insert_value_inst, visit_extract_value_inst,
  visit_switch_inst, visit_phi_node,
}
use symcc.Compiler.Calls.{
  Callee, Parameter, symbolize_function_arguments, insert_basic_block_notification, visit_call_inst,
  visit_invoke_inst, visit_return_inst, visit_indirect_br_inst,
}
use symcc.Compiler.Phis.{finalize_phi_nodes}

-- What the visitors ask of an instruction. `other_cast` is a cast that visitCastInst does not
-- handle, and `other_inst` what is left to visitInstruction: landing pads, and all that the pass does
-- not know.
pub data Operation : Type 0 where
  binary_operator : BinaryOps → Value → Value → Operation
  cmp_inst : Predicate → Value → Value → Operation
  select_inst : (condition true_value false_value : Value) → Operation
  return_inst branch_inst : Option Value → Operation
  indirect_br_inst : Value → Operation
  call_inst : (is_inline_asm : Bool) → Callee → List Value → (is_used : Bool) → Operation
  invoke_inst : Callee → List Value → (is_used : Bool) → Operation
  load_inst : (addr : Value) → Operation
  store_inst : (value addr : Value) → Operation
  get_element_ptr_inst : Value → List Step → Operation
  bit_cast_inst trunc_inst int_to_ptr_inst ptr_to_int_inst : Value → Operation
  si_to_fp_inst ui_to_fp_inst fp_ext_inst fp_trunc_inst fp_to_si fp_to_ui : Value → Operation
  cast_inst : (is_signed : Bool) → Value → Operation
  phi_node : List Value → Operation
  insert_value_inst : (aggregate inserted : Value) → List ℕ → Operation
  extract_value_inst : (aggregate : Value) → List ℕ → Operation
  switch_inst : (condition : Value) → (cases : List Value) → Operation
  alloca_inst unreachable_inst other_cast other_inst : Operation

pub record Instruction : Type 0 where
  pub id : ℕ
  pub type : Ty
  pub operation : Operation

-- A function: the parameters, the blocks and all instructions, in order.
pub record SourceFunction : Type 0 where
  pub is_main : Bool
  pub is_ctor : Bool
  pub parameters : List Parameter
  pub blocks : List ℕ
  pub instructions : List Instruction

module _ (L : DataLayout) (address : Value → ℕ) where
  unfoldable pub perform : (id : ℕ) → Ty → Operation → Emit (Unit {0})
  perform id t (binary_operator opcode a b) = visit_binary_operator L address id opcode a b
  perform id t (cmp_inst p a b) = visit_cmp_inst L address id p a b
  perform id t (select_inst c a b) = visit_select_inst L address id t c a b
  perform id t (return_inst v) = visit_return_inst L address id v
  perform id t (branch_inst c) = visit_branch_inst L address id t c
  perform id t (indirect_br_inst a) = visit_indirect_br_inst L address id a
  perform id t (call_inst asm f args used) = visit_call_inst L address id t asm f args used
  perform id t (invoke_inst f args used) = visit_invoke_inst L address id t f args used
  perform id t (load_inst a) = visit_load_inst L address id t a
  perform id t (store_inst v a) = visit_store_inst L address id v a
  perform id t (get_element_ptr_inst p steps) = visit_get_element_ptr_inst L address id p steps
  perform id t (bit_cast_inst v) = visit_bit_cast_inst L address id t v
  perform id t (trunc_inst v) = visit_trunc_inst L address id t v
  perform id t (int_to_ptr_inst v) = visit_int_to_ptr_inst L address id v
  perform id t (ptr_to_int_inst v) = visit_ptr_to_int_inst L address id v
  perform id t (si_to_fp_inst v) = visit_si_to_fp_inst L address id t v
  perform id t (ui_to_fp_inst v) = visit_ui_to_fp_inst L address id t v
  perform id t (fp_ext_inst v) = visit_fp_ext_inst L address id t v
  perform id t (fp_trunc_inst v) = visit_fp_trunc_inst L address id t v
  perform id t (fp_to_si v) = visit_fp_to_si L address id t v
  perform id t (fp_to_ui v) = visit_fp_to_ui L address id t v
  perform id t (cast_inst is_signed v) = visit_cast_inst L address id is_signed t v
  perform id t (phi_node vs) = visit_phi_node id vs
  perform id t (insert_value_inst g v is) = visit_insert_value_inst L address id g v is
  perform id t (extract_value_inst g is) = visit_extract_value_inst L address id t g is
  perform id t (switch_inst c cases) = visit_switch_inst L address id t c cases
  perform id t alloca_inst = pure tt
  perform id t unreachable_inst = pure tt
  perform id t other_cast = pure tt
  perform id t other_inst = pure tt

  unfoldable pub visit_all : List Instruction → Emit (Unit {0})
  visit_all [] = pure tt
  visit_all (i ∷ is) = do perform i.id i.type i.operation; visit_all is

  unfoldable pub notify_blocks : List ℕ → Emit (Unit {0})
  notify_blocks [] = pure tt
  notify_blocks (b ∷ bs) = do insert_basic_block_notification L address b; notify_blocks bs

  -- The arguments, the blocks and the instructions.
  unfoldable pub visit_function : SourceFunction → Emit (Unit {0})
  visit_function f = do
    symbolize_function_arguments L address f.is_main f.parameters
    notify_blocks f.blocks
    visit_all f.instructions

  -- Up to the end of the processing of PHI nodes. The constructor of the module is left alone.
  unfoldable pub instrument_function : SourceFunction → Option State
  instrument_function f =
      if f.is_ctor
      then some empty_state
      else elim (visit_function f empty_state) [ none ↦ none | some r ↦ finalize_phi_nodes r.1 ]
