-- ===== src/Compiler/Passing/Accesses.antt =====
-- A value on its way through memory: visitStoreInst and visitLoadInst of compiler/Symbolizer.cpp, run on
-- _sym_write_memory and _sym_read_memory of runtime/RuntimeCommon.cpp.
use mathlib.Core.List.{append-nil}
use native.Mathlib.Nat.{mod-eq_of_lt}
use symcc.Common.{
  arith, ℕ, ◌+◌, ◌*◌, ◌^◌, ◌%◌, ◌<◌, ◌≡◌, ◌≢◌, refl, sym, ap, ◌∙◌, Bool, false, Option, none, some,
  List, [], ◌∷◌, ltb, if◌then◌else◌,
}
use symcc.Common.Cmd.{
  Returns, returns, Returns-bind, Returns-mono, Returns-of, Returns-and, and_then, ◌>>◌,
}
use symcc.Backend.{Backend, BackendLaws}
use symcc.Shadow.{word_mod}
use symcc.Runtime.{Machine}
use symcc.Runtime
use symcc.Runtime.Transfer.{Bytes}
use symcc.Runtime.Writing.{read_memory-write_memory}
use symcc.Compiler.Ir.{Ty, pointer, DataLayout, int_ptr_type, is_little_endian}
use symcc.Compiler.Handlers.{Function, result, read_memory, write_memory}
use symcc.Compiler.Emission.{
  Value, local, constant_int, convert, ptr_to_int, emitted, type_of, Place, before, call, State,
  get_symbolic_expression, get_symbolic_expression_or_null, create, create_call, Emitted,
  concretize_pointer_at, concretize_pointer_of,
}
use symcc.Compiler.Memory.{is_floating, flag8, as_float, as_bits, visit_load_inst, visit_store_inst}
use symcc.Compiler.Passing.{
  Frame, Activation, execute, code_at, same_place, code_at-append, Ran, Emits, create_call-Ran,
  execute_at, execute_all, get_symbolic_expression-same, empty-Ran, before-same, expression_in,
  expression_in_map, expression_in-none, expression_value, store,
}

before-other : (k id : ℕ) → k ≢ id → same_place (before id) (before k) ≡ false
before-other k id d = ground arith

flag_lem : (b : Bool) → ltb 0 (if b then 1 else 0) ≡ b
flag_lem b = ground arith

-- The code of a state is that of another, but for the place of one instruction.
abbrev Elsewhere : (id : ℕ) → (s u : State) → Type 0
Elsewhere id s u = (k : ℕ) → k ≢ id → code_at (before k) u.code ≡ code_at (before k) s.code

module _ (B : Backend) (env : Value → ℕ) (L : DataLayout) (address : Value → ℕ) where
  create_call-Elsewhere :
      (id : ℕ) (f : Function) (args : List Value) (s : State) (a : Activation B)
      {b c : Activation B}
      → Ran B env (before id) s a b
      → execute B env s.next (call f args) b ≡ some (tt, c)
      → Returns
          (λ v u. Emits B env L (before id) f s a c v u × Elsewhere id s u)
          (create_call L address (before id) f args s)
  unfolding create_call create
  create_call-Elsewhere id f args s a r e =
      Returns-and (λ _ _ _ _ u. Elsewhere id s u)
        (create_call-Ran B env L address s a (before id) f args (before-same id) r e)
        λ _ _ _.
          returns
            (λ k d. rw (code_at-append (before k) s.code, before-other k id d, append-nil) refl)

  concretize_pointer_at-none :
      (place : Place) (addr : Value) (s : State)
      → get_symbolic_expression s addr ≡ none
      → concretize_pointer_at L address place addr s ≡ some (tt, s)
  unfolding concretize_pointer_at concretize_pointer_of
  concretize_pointer_at-none place addr s p = rw p refl

  as_bits_plain :
      (id : ℕ) (t : Ty) (v : Value) (s : State)
      → is_floating t ≡ false
      → as_bits L address id t v s ≡ some (v, s)
  unfolding as_bits
  as_bits_plain id t v s p = rw p refl

  as_float_plain :
      (id : ℕ) (t : Ty) (v : Value) (s : State)
      → is_floating t ≡ false
      → as_float L address id t v s ≡ some (v, s)
  unfolding as_float
  as_float_plain id t v s p = rw p refl

  -- The call that a store emits.
  execute-write_memory :
      (number : ℕ) (p v addr : Value) (τ : Ty) (w n : ℕ) (little : Bool) (frame : Frame B)
      (m m' : Machine B) (e : B.Expr)
      → expression_value B frame p ≡ none
      → expression_value B frame v ≡ some e
      → n < 2 ^ w
      → Runtime.write_memory B none (some e) (env addr) n little m ≡ some (tt, m')
      → execute B env number
          (call write_memory
            (p ∷ v ∷ convert ptr_to_int addr τ ∷ constant_int w (n % 2 ^ w) ∷ flag8 little ∷ []))
          (frame, m)
        ≡ some (tt, (frame, m'))
  unfolding execute
  execute-write_memory number p v addr τ w n little frame m m' e a b l r =
      rw (a, b, mod-eq_of_lt l, flag_lem little, r) refl

  -- The call that a load emits.
  execute-read_memory :
      (number : ℕ) (p addr : Value) (τ : Ty) (w n : ℕ) (little : Bool) (frame : Frame B)
      (m m' : Machine B) (r : Option B.Expr)
      → expression_value B frame p ≡ none
      → n < 2 ^ w
      → Runtime.read_memory B none (env addr) n little m ≡ some (r, m')
      → execute B env number
          (call read_memory
            (p ∷ convert ptr_to_int addr τ ∷ constant_int w (n % 2 ^ w) ∷ flag8 little ∷ []))
          (frame, m)
        ≡ some (tt, (store B number r frame, m'))
  unfolding execute
  execute-read_memory number p addr τ w n little frame m m' r a l q =
      rw (a, mod-eq_of_lt l, flag_lem little, q) refl

  visit_store_inst-Ran :
      (id : ℕ) (v addr : Value) (s : State) (a : Activation B) (frame : Frame B) (m m' : Machine B)
      (e : B.Expr)
      → is_floating (type_of v) ≡ false
      → get_symbolic_expression s addr ≡ none
      → expression_in B frame s v ≡ some e
      → L.type_store_size (type_of v) < 2 ^ L.ptr_bits
      → Runtime.write_memory B none
          (some e)
          (env addr)
          (L.type_store_size (type_of v))
          L.little_endian
          m
        ≡ some (tt, m')
      → Ran B env (before id) s a (frame, m)
      → Returns
          (λ _ u.
            (u.symbolic_expressions ≡ s.symbolic_expressions)
            × Ran B env (before id) u a (frame, m')
            × Elsewhere id s u)
          (visit_store_inst L address id v addr s)
  unfolding visit_store_inst
  visit_store_inst-Ran id v addr s a frame m m' e p c x l w r =
      rw
        (
          concretize_pointer_at-none (before id) addr s c,
          as_bits_plain id (type_of v) (get_symbolic_expression_or_null s v) s p,
        )
        (Returns-bind
          (create_call-Elsewhere id write_memory _ s a r (
            execute-write_memory s.next (get_symbolic_expression_or_null s addr)
              (get_symbolic_expression_or_null s v) addr (int_ptr_type L) L.ptr_bits
              (L.type_store_size (type_of v)) L.little_endian frame m m' e
              (expression_in-none B frame s addr c) x l w))
          λ _ u ((_, _, same, ran), others). returns (same, ran, others))

  visit_load_inst-Ran :
      (id : ℕ) (t : Ty) (addr : Value) (s : State) (a : Activation B) (frame : Frame B)
      (m m' : Machine B) (o : Option B.Expr) (τ : Ty)
      → is_floating t ≡ false
      → is_little_endian L t ≡ L.little_endian
      → get_symbolic_expression s addr ≡ none
      → L.type_store_size t < 2 ^ L.ptr_bits
      → Runtime.read_memory B none (env addr) (L.type_store_size t) L.little_endian m ≡ some (o, m')
      → Ran B env (before id) s a (frame, m)
      → Returns
          (λ _ u.
            (results : Frame B) × Ran B env (before id) u a (results, m')
            × (expression_in B results u (local id τ) ≡ o)
            × Elsewhere id s u)
          (visit_load_inst L address id t addr s)
  unfolding visit_load_inst result
  visit_load_inst-Ran id t addr s a frame m m' o τ p b c l q r =
      rw (concretize_pointer_at-none (before id) addr s c, b)
        (Returns-bind
          (create_call-Elsewhere id read_memory _ s a r (
            execute-read_memory s.next (get_symbolic_expression_or_null s addr) addr
              (int_ptr_type L) L.ptr_bits (L.type_store_size t) L.little_endian frame m m' o
              (expression_in-none B frame s addr c) l q))
          λ v u ((new, _, _, ran), others). rw (as_float_plain id t v u p) (
            returns (
              store B s.next o frame,
              ran,
              expression_in_map B (store B s.next o frame) _ id τ (emitted s.next pointer)
                    (ground (arith, ap some new))
                  ∙ ground arith,
              others,
            )))

module _ (B : Backend) (laws : BackendLaws B) (env : Value → ℕ) (L : DataLayout)
    (address : Value → ℕ) where
  open laws use {Env, value}

  -- A store and then a load of the same type at the same address, whose pointer has no expression: where
  -- the stored value has an expression, so has the loaded one after the code before the store and
  -- the code before the load, with the same width and the same value under every assignment. Nothing
  -- of the pass stands before the two instructions yet. The type is neither a floating-point type
  -- nor an aggregate that the byte order of the load mirrors, its size is not zero and fits into a
  -- pointer, and the expression has that size. The range does not reach the end of the address
  -- space and held expressions of bytes.
  pub visit_load_inst-visit_store_inst :
      (s : State) (written loaded : ℕ) (v addr : Value) (τ : Ty) (frame : Frame B) (m : Machine B)
      (e : B.Expr)
      → written ≢ loaded
      → code_at (before written) s.code ≡ []
      → code_at (before loaded) s.code ≡ []
      → is_floating (type_of v) ≡ false
      → is_little_endian L (type_of v) ≡ L.little_endian
      → get_symbolic_expression s addr ≡ none
      → expression_in B frame s v ≡ some e
      → 0 < L.type_store_size (type_of v)
      → L.type_store_size (type_of v) < 2 ^ L.ptr_bits
      → B.bits e ≡ 8 * L.type_store_size (type_of v)
      → B.bits e < word_mod
      → env addr + L.type_store_size (type_of v) < word_mod
      → Bytes B m (env addr) (L.type_store_size (type_of v))
      → Returns
          (λ _ u.
            Returns
              (λ _ (results, _).
                (r : B.Expr) × (expression_in B results u (local loaded τ) ≡ some r)
                × (B.bits r ≡ B.bits e)
                × ((ρ : Env) → value ρ r ≡ value ρ e))
              (and_then
                (execute_at B env (before written) u (frame, m))
                λ _. execute_at B env (before loaded) u))
          ((do
            visit_store_inst L address written v addr
            visit_load_inst L address loaded (type_of v) addr)
            s)
  visit_load_inst-visit_store_inst s written loaded v addr τ frame m e apart h k p b c x pos l w
        small fits bytes =
      let (m', run, r, m'', run', w', is) =
        read_memory-write_memory B laws m e (env addr) (L.type_store_size (type_of v))
          L.little_endian pos w small fits bytes in
      Returns-bind
        (visit_store_inst-Ran B env L address written v addr s (frame, m) frame m m' e p c x l run
          (empty-Ran B env (before written) s (frame, m) h))
        λ _ t (same, stored, others).
          Returns-mono
            (visit_load_inst-Ran B env L address loaded (type_of v) addr t (frame, m') frame m' m''
              (some r) τ p b (get_symbolic_expression-same s t addr same ∙ c) l run'
              (empty-Ran B env (before loaded) t (frame, m')
                (others loaded (λ q. apart (sym q)) ∙ k)))
            λ _ u (results, ran, found, others').
              Returns-of tt (results, m'')
                (ap
                    (λ (c : List Emitted).
                      and_then (execute_all B env c (frame, m))
                        λ _. execute_at B env (before loaded) u)
                    (others' written apart)
                  ∙ ap
                      (λ (o : Option (Unit {0} × Activation B)).
                        and_then o λ _. execute_at B env (before loaded) u)
                      stored
                  ∙ ran)
                (r, found, w', is)
