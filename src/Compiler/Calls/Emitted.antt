-- ===== src/Compiler/Calls/Emitted.antt =====
-- The state of the pass after the code for functions, blocks, calls and returns of
-- compiler/Symbolizer.cpp.
use symcc.Common.{
  ℕ, ◌+◌, ◌≡◌, refl, sym, ap, ◌∙◌, map, Bool, true, false, Option, none, some, List, [], ◌∷◌,
}
use symcc.Common.Cmd.{Returns, returns, Returns-bind, when, ◌>>◌}
use symcc.Compiler.Ir.{Ty, integer, pointer, DataLayout}
use symcc.Compiler.Handlers.{
  Function, parameters, result, set_parameter_expression, get_parameter_expression,
  set_return_expression, get_return_expression, notify_call, notify_ret, notify_basic_block,
  build_float_abs, build_bswap,
}
use symcc.Compiler.Emission.{
  Value, null_pointer, type_of, before, return_point, block_start, function_entry, State,
  get_symbolic_expression_or_null, create_call, Place, Emit, all_symbolic,
}
use symcc.Compiler.Emission.WellFormed.{expression-type}
use symcc.Compiler.Emission.Steps.{
  Settled, emit_call-Settled, emit_result-Settled, concretize_pointer_at-Settled,
  new_expression-Settled,
}
use symcc.Compiler.Visitors.Emitted.{symbolize-Settled, copy_expression-Settled}
use symcc.Compiler.Calls.{
  Intrinsic, expect, fabs, bswap, ignored, concretized, Callee, intrinsic, indirect, Parameter,
  symbolize_arguments, symbolize_function_arguments, insert_basic_block_notification, memory_call,
  handle_intrinsic_call, set_parameters, concretize_callee, expression_from, notify_function_call,
  handle_function_call, visit_return_inst,
}

-- What the verifier of LLVM grants of the operands of an intrinsic.
abbrev pub HasOperands : Intrinsic → List Value → Type 0
HasOperands Intrinsic.memcpy (dest ∷ src ∷ size ∷ _) =
    (type_of dest ≡ pointer) × (type_of src ≡ pointer)
HasOperands Intrinsic.memset (dest ∷ value ∷ size ∷ _) =
    (type_of dest ≡ pointer) × (type_of value ≡ integer 8)
HasOperands Intrinsic.memmove (dest ∷ src ∷ size ∷ _) =
    (type_of dest ≡ pointer) × (type_of src ≡ pointer)
HasOperands expect (v ∷ _) = Unit {0}
HasOperands fabs (v ∷ _) = Unit {0}
HasOperands bswap (v ∷ _) = Unit {0}
HasOperands ignored _ = Unit {0}
HasOperands concretized _ = Unit {0}
HasOperands _ _ = ⊥

abbrev pub CallIsVerified : Callee → List Value → Type 0
CallIsVerified (intrinsic i) args = HasOperands i args
CallIsVerified _ args = Unit {0}

module _ (L : DataLayout) (address : Value → ℕ) where
  expression_from-Settled :
      (place : Place) (id : ℕ) (f : Function) (args : List Value) (s : State)
      → map type_of args ≡ parameters L f
      → result L f ≡ pointer
      → Settled L s
      → Returns (λ _ u. Settled L u) (expression_from L address place id f args s)
  unfolding expression_from
  expression_from-Settled place id f args s p q w =
      Returns-bind (emit_result-Settled L address place f args p q w)
        λ e u (x, k). new_expression-Settled id e k x

  when-Settled :
      (b : Bool) (m : Emit (Unit {0})) (s : State)
      → Returns (λ _ u. Settled L u) (m s)
      → Settled L s
      → Returns (λ _ u. Settled L u) (when b m s)
  when-Settled true m s r w = r
  when-Settled false m s r w = returns w

  symbolize_arguments-Settled :
      (ps : List Parameter) (n : ℕ) (s : State)
      → Settled L s
      → Returns (λ _ u. Settled L u) (symbolize_arguments L address ps n s)
  unfolding symbolize_arguments parameters result
  symbolize_arguments-Settled [] n s w = returns w
  symbolize_arguments-Settled (p ∷ ps) n s w =
      Returns-bind
        (when-Settled p.is_used _ s
          (expression_from-Settled function_entry p.id get_parameter_expression _ s refl refl w) w)
        λ _ t x. symbolize_arguments-Settled ps (n + 1) t x

  pub symbolize_function_arguments-Settled :
      (is_main : Bool) (ps : List Parameter) (s : State)
      → Settled L s
      → Returns (λ _ u. Settled L u) (symbolize_function_arguments L address is_main ps s)
  unfolding symbolize_function_arguments
  symbolize_function_arguments-Settled true ps s w = returns w
  symbolize_function_arguments-Settled false ps s w = symbolize_arguments-Settled ps 0 s w

  pub insert_basic_block_notification-Settled :
      (block : ℕ) (s : State)
      → Settled L s
      → Returns (λ _ u. Settled L u) (insert_basic_block_notification L address block s)
  unfolding insert_basic_block_notification parameters
  insert_basic_block_notification-Settled block s w =
      Returns-bind (emit_call-Settled L address (block_start block) notify_basic_block _ refl w)
        λ _ _ (x, _, _). returns x

  -- The types of the operands of a memory function, from those of two of them.
  memory_call-Settled :
      (id : ℕ) (f : Function) (a b size : Value) (s : State)
      → parameters L f
        ≡ pointer ∷ pointer ∷ pointer ∷ type_of a ∷ type_of b ∷ integer L.ptr_bits ∷ []
      → Settled L s
      → Returns (λ _ u. Settled L u) (memory_call L address id f a b size s)
  unfolding memory_call
  memory_call-Settled id f a b size s p w =
      Returns-bind
        (emit_call-Settled L address (before id) f
          (get_symbolic_expression_or_null s a
            ∷ get_symbolic_expression_or_null s b
            ∷ get_symbolic_expression_or_null s size
            ∷ a
            ∷ b
            ∷ _
            ∷ [])
          ((λ i.
              expression-type a w i
              ∷ expression-type b w i
              ∷ expression-type size w i
              ∷ type_of a
              ∷ type_of b
              ∷ integer L.ptr_bits
              ∷ [])
            ∙ sym p)
          w)
        λ _ _ (x, _, _). returns x

  handle_intrinsic_call-Settled :
      (id : ℕ) (i : Intrinsic) (args : List Value) (s : State)
      → HasOperands i args
      → Settled L s
      → Returns (λ _ u. Settled L u) (handle_intrinsic_call L address id i args s)
  unfolding handle_intrinsic_call parameters
  handle_intrinsic_call-Settled id Intrinsic.memcpy (a ∷ b ∷ n ∷ _) s (p, q) w =
      memory_call-Settled id Function.memcpy a b n s
        (λ i. pointer ∷ pointer ∷ pointer ∷ sym p i ∷ sym q i ∷ integer L.ptr_bits ∷ []) w
  handle_intrinsic_call-Settled id Intrinsic.memset (a ∷ b ∷ n ∷ _) s (p, q) w =
      memory_call-Settled id Function.memset a b n s
        (λ i. pointer ∷ pointer ∷ pointer ∷ sym p i ∷ sym q i ∷ integer L.ptr_bits ∷ []) w
  handle_intrinsic_call-Settled id Intrinsic.memmove (a ∷ b ∷ n ∷ _) s (p, q) w =
      memory_call-Settled id Function.memmove a b n s
        (λ i. pointer ∷ pointer ∷ pointer ∷ sym p i ∷ sym q i ∷ integer L.ptr_bits ∷ []) w
  handle_intrinsic_call-Settled id expect (v ∷ _) s h w = copy_expression-Settled L address id v w
  handle_intrinsic_call-Settled id fabs (v ∷ _) s h w =
      symbolize-Settled L address id build_float_abs (all_symbolic (v ∷ [])) refl refl w
  handle_intrinsic_call-Settled id bswap (v ∷ _) s h w =
      symbolize-Settled L address id build_bswap (all_symbolic (v ∷ [])) refl refl w
  handle_intrinsic_call-Settled id ignored args s h w = returns w
  handle_intrinsic_call-Settled id concretized args s h w = returns w
  handle_intrinsic_call-Settled id _ _ s h w = elim h [ ]

  set_parameters-Settled :
      (id : ℕ) (args : List Value) (n : ℕ) (s : State)
      → Settled L s
      → Returns (λ _ u. Settled L u) (set_parameters L address id args n s)
  unfolding set_parameters parameters
  set_parameters-Settled id [] n s w = returns w
  set_parameters-Settled id (v ∷ args) n s w =
      Returns-bind
        (emit_call-Settled L address (before id) set_parameter_expression
          (_ ∷ get_symbolic_expression_or_null s v ∷ [])
          (ap (λ (t : Ty). integer 8 ∷ t ∷ []) (expression-type v w)) w)
        λ _ t (x, _, _). set_parameters-Settled id args (n + 1) t x

  concretize_callee-Settled :
      (id : ℕ) (c : Callee) (s : State)
      → Settled L s
      → Returns (λ _ u. Settled L u) (concretize_callee L address id c s)
  unfolding concretize_callee
  concretize_callee-Settled id (indirect v) s w =
      concretize_pointer_at-Settled L address (before id) v w
  concretize_callee-Settled id _ s w = returns w

  -- The result of a call that is used, as its expression.
  result-Settled :
      (id : ℕ) (s : State)
      → Settled L s
      → Returns
          (λ _ u. Settled L u)
          ((do
            create_call L address (before id) set_return_expression (null_pointer ∷ [])
            expression_from L address (return_point id) id get_return_expression [])
            s)
  unfolding parameters result
  result-Settled id s w =
      Returns-bind
        (emit_call-Settled L address (before id) set_return_expression (null_pointer ∷ []) refl w)
        λ _ t (x, _, _).
          expression_from-Settled (return_point id) id get_return_expression [] t refl refl x

  notify_function_call-Settled :
      (id : ℕ) (t : Ty) (c : Callee) (args : List Value) (is_used : Bool) (s : State)
      → Settled L s
      → Returns (λ _ u. Settled L u) (notify_function_call L address id t c args is_used s)
  unfolding notify_function_call parameters
  notify_function_call-Settled id t c args is_used s w =
      Returns-bind (emit_call-Settled L address (return_point id) notify_ret (_ ∷ []) refl w)
        λ _ a (x, _, _).
          Returns-bind (emit_call-Settled L address (before id) notify_call (_ ∷ []) refl x)
            λ _ b (y, _, _). Returns-bind (concretize_callee-Settled id c b y) λ _ d z.
              Returns-bind (set_parameters-Settled id args 0 d z)
                λ _ e v. when-Settled is_used _ e (result-Settled id e v) v

  pub handle_function_call-Settled :
      (id : ℕ) (t : Ty) (c : Callee) (args : List Value) (is_used : Bool) (s : State)
      → CallIsVerified c args
      → Settled L s
      → Returns (λ _ u. Settled L u) (handle_function_call L address id t c args is_used s)
  unfolding handle_function_call
  handle_function_call-Settled id t (intrinsic i) args is_used s h w =
      handle_intrinsic_call-Settled id i args s h w
  handle_function_call-Settled id t c args is_used s h w =
      notify_function_call-Settled id t c args is_used s w

  pub visit_return_inst-Settled :
      (id : ℕ) (v : Option Value) (s : State)
      → Settled L s
      → Returns (λ _ u. Settled L u) (visit_return_inst L address id v s)
  unfolding visit_return_inst parameters
  visit_return_inst-Settled id none s w = returns w
  visit_return_inst-Settled id (some v) s w =
      Returns-bind
        (emit_call-Settled L address (before id) set_return_expression
          (get_symbolic_expression_or_null s v ∷ []) (ap (λ (t : Ty). t ∷ []) (expression-type v w))
          w)
        λ _ _ (x, _, _). returns x
