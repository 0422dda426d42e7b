-- ===== src/QsymBackend/Building.antt =====
-- What the functions of runtime/qsym_backend/Runtime.cpp that build expressions do with the map of
-- allocated expressions.
use mathlib.Core.Option.{some-injective}
use symcc.Common.{
  arith, ℕ, ◌+◌, ◌-◌, ◌%◌, ◌^◌, ◌≡◌, refl, sym, ap, ◌∙◌, true, ◌||◌, some, [], ◌∷◌, ◌==◌, is_some,
  Bool-cases, Option-cases, inl, inr, eq_of_==,
}
use symcc.Common.Assoc.{lookup, insert, lookup-insert}
use symcc.Common.Cmd.{Returns, returns, ◌>>=◌}
use symcc.QsymBackend.{
  Qsym, QsymState, QsymRun, qsym_name, create_concat, register_expression, call, at, build_integer,
  build_integer128, build_null_pointer, build_true, build_false, build_bool, build_binary,
  build_neg, build_not, build_sext, build_zext, build_trunc, concat_helper, extract_helper,
  build_bool_to_bit,
}
use symcc.QsymBackend.Inputs.{get_input_byte, push_input_byte}
use symcc.QsymBackend.Requests.{
  Request, integer, integer128, null_pointer, true_expr, false_expr, bool, input_byte, neg,
  complement, bool_to_bit, binary, sext, zext, trunc, concat, extract, operands, build,
  is_registered, all_registered,
}

module _ (Q : Qsym) where
  -- Each shared pointer stands under the raw pointer that is in it.
  abbrev pub Owned : QsymState Q → Type 0
  Owned s = (x : ℕ) (ref : Q.Ref) → lookup x s.allocated_expressions ≡ some ref → Q.get ref ≡ x

  -- The map has the expression and those that it had before.
  abbrev pub Grown : QsymState Q → ℕ → QsymState Q → Type 0
  Grown s e s' = Owned s' × ((x : ℕ) → is_registered Q s' x ≡ ((x == e) || is_registered Q s x))

  register_expression-Grown :
      (ref : Q.Ref) (s : QsymState Q) → Owned s → Returns (Grown s) (register_expression Q ref s)
  unfolding register_expression
  register_expression-Grown ref s owned = elim (Bool-cases (is_registered Q s (Q.get ref))) [
    | inl known ↦ rw known (returns (owned, λ x. old x known))
    | inr new ↦ rw new (returns (λ x r h. own x r h, λ x. grow x))
  ]
    where
      old :
          (x : ℕ)
          → is_registered Q s (Q.get ref) ≡ true
          → is_registered Q s x ≡ ((x == Q.get ref) || is_registered Q s x)
      old x known = elim (Bool-cases (x == Q.get ref)) [
        | inl same ↦ rw same (ap (is_registered Q s) (eq_of_== x (Q.get ref) same) ∙ known)
        | inr other ↦ rw other refl
      ]

      own :
          (x : ℕ) (r : Q.Ref)
          → lookup x (insert (Q.get ref) ref s.allocated_expressions) ≡ some r
          → Q.get r ≡ x
      own x r h =
          let l = lookup-insert (Q.get ref) x ref s.allocated_expressions in
          elim (Bool-cases (Q.get ref == x)) [
            | inl same ↦
                ap Q.get (some-injective _ _ (sym h ∙ l ∙ rw same refl))
                ∙ eq_of_== (Q.get ref) x same
            | inr other ↦ owned x r (sym (l ∙ rw other refl) ∙ h)
          ]

      grow :
          (x : ℕ)
          → is_some (lookup x (insert (Q.get ref) ref s.allocated_expressions))
            ≡ ((x == Q.get ref) || is_registered Q s x)
      grow x = ground (arith, lookup-insert (Q.get ref) x ref s.allocated_expressions)

  built :
      (f : Q.State → Q.Ref × Q.State) (s : QsymState Q)
      → Owned s
      → Returns (Grown s) ((call Q f >>= register_expression Q) s)
  built f s owned =
      register_expression-Grown (f s.library).0 (record s { library = (f s.library).1 }) owned

  -- What needs a registered expression gets its shared pointer.
  at-registered :
      {A : Type 0} {P : A → QsymState Q → Type 0} (a : ℕ) (k : Q.Ref → QsymRun Q A)
      (s : QsymState Q)
      → is_registered Q s a ≡ true
      → ((ref : Q.Ref) → Returns P (k ref s))
      → Returns P ((at Q a >>= k) s)
  at-registered a k s h next = elim (Option-cases (lookup a s.allocated_expressions)) [
    | inl missing ↦ absurd (ground (arith, missing))
    | inr (ref, found) ↦ rw (found, at) (next ref)
  ]

  at-both :
      {A : Type 0} {P : A → QsymState Q → Type 0} (a b : ℕ) (k : Q.Ref → Q.Ref → QsymRun Q A)
      (s : QsymState Q)
      → all_registered Q s (a ∷ b ∷ []) ≡ true
      → ((ra rb : Q.Ref) → Returns P (k ra rb s))
      → Returns P ((at Q a >>= λ ra. at Q b >>= λ rb. k ra rb) s)
  at-both a b k s h next =
      at-registered a (λ ra. at Q b >>= λ rb. k ra rb) s (ground arith)
        λ ra. at-registered b (k ra) s (ground arith) (next ra)

  -- Each function that builds an expression, on expressions that are registered: nothing is
  -- thrown, the result is registered, with the expressions that were so before and no other, and
  -- each shared pointer still stands under its own raw pointer, as it did before.
  pub build-Grown :
      (q : Request) (s : QsymState Q)
      → Owned s
      → all_registered Q s (operands q) ≡ true
      → Returns (Grown s) (build Q q s)
  unfolding build_integer build_integer128 build_null_pointer build_true build_false build_bool
      get_input_byte build_neg build_not build_bool_to_bit build_binary build_sext build_zext
      build_trunc concat_helper extract_helper
  build-Grown (integer v w) s owned h = built (Q.create_constant v w) s owned
  build-Grown (integer128 hi lo) s owned h = built (Q.create_wide_constant lo hi 128) s owned
  build-Grown null_pointer s owned h = built (Q.create_constant 0 64) s owned
  build-Grown true_expr s owned h = built Q.create_true s owned
  build-Grown false_expr s owned h = built Q.create_false s owned
  build-Grown (bool b) s owned h = built (Q.create_bool b) s owned
  build-Grown (input_byte o v) s owned h =
      built (Q.create_read o) (record s { inputs = push_input_byte o v s.inputs }) owned
  build-Grown (neg e) s owned h =
      at-registered e _ s (ground arith) λ r. built (Q.create_neg r) s owned
  build-Grown (complement e) s owned h =
      at-registered e _ s (ground arith) λ r. built (Q.create_not r) s owned
  build-Grown (bool_to_bit e) s owned h =
      at-registered e _ s (ground arith) λ r. built (Q.bool_to_bit r 1) s owned
  build-Grown (binary op a b) s owned h =
      at-both a b _ s h λ ra rb. built (Q.create_binary (qsym_name op) ra rb) s owned
  build-Grown (sext e w) s owned h =
      at-registered e _ s (ground arith) λ r. built (Q.create_sext r (w + Q.bits e)) s owned
  build-Grown (zext e w) s owned h =
      at-registered e _ s (ground arith) λ r. built (Q.create_zext r (w + Q.bits e)) s owned
  build-Grown (trunc e w) s owned h =
      at-registered e _ s (ground arith) λ r. built (Q.create_trunc r w) s owned
  build-Grown (concat a b) s owned h =
      at-both a b _ s h λ ra rb. built (Q.create_binary create_concat ra rb) s owned
  build-Grown (extract e f l) s owned h =
      at-registered e _ s (ground arith)
        λ r. built (Q.create_extract r l ((f + 2 ^ 64 - l + 1) % 2 ^ 64)) s owned
