-- ===== src/Compiler/ShortCircuit.antt =====
-- The code that `shortCircuitExpressionUses` of compiler/Symbolizer.cpp emits, against a description that
-- does without its savings.
use symcc.Common.{
  arith, ℕ, ◌≡◌, refl, ap, Bool, true, false, not, ◌&&◌, ◌||◌, Option, none, some, List, [], ◌∷◌,
  ◌==◌, if◌then◌else◌, eq_of_==, Bool-cases, inl, inr,
}
use symcc.Compiler.{
  Input, CheckedComputation, count_unknown, emit_argument, emit_arguments,
  short_circuit_expression_uses, is_null_pointer, all_concrete, run_arguments, run_short_circuit,
}

module _ {V E S : Type 0} (create : V → S → Option E × S)
    (compute : List (Option E) → S → Option E × S) where
  -- Each null operand gets an expression for its value, and the others stay.
  abbrev pub complete : List (Input V) → List (Option E) → S → List (Option E) × S
  complete [] es s = ([], s)
  complete (i ∷ is) [] s = ([], s)
  complete (i ∷ is) (none ∷ es) s =
      let (first, t) = create i.concrete_value s in
      let (rest, u) = complete is es t in (first ∷ rest, u)
  complete (i ∷ is) (some e ∷ es) s = let (rest, u) = complete is es s in (some e ∷ rest, u)

  -- Null if all operands are, and else the computation on completed operands.
  abbrev pub expected : List (Input V) → Bool → List (Option E) → S → Option E × S
  expected is used operands s =
      if all_concrete operands
      then (none, s)
      else (let (arguments, t) = complete is operands s in
          let (result, u) = compute arguments t in (if used then result else none, u))

  -- There is an operand for each input, and one that is null at compile time is null.
  abbrev pub fits : List (Input V) → List (Option E) → Bool
  fits [] [] = true
  fits [] (e ∷ es) = false
  fits (i ∷ is) [] = false
  fits (i ∷ is) (e ∷ es) = (not i.is_null || is_null_pointer e) && fits is es

  -- No operand of unknown concreteness is null.
  abbrev unknown_symbolic : List (Input V) → List (Option E) → Bool
  unknown_symbolic [] es = true
  unknown_symbolic (i ∷ is) [] = true
  unknown_symbolic (i ∷ is) (e ∷ es) =
      (i.is_null || not (is_null_pointer e)) && unknown_symbolic is es

  -- Without unknown operands all are null, and the only one is not when not all are.
  none_unknown :
      (is : List (Input V)) (es : List (Option E))
      → fits is es ≡ true
      → count_unknown is ≡ 0
      → (all_concrete es ≡ true) × (unknown_symbolic is es ≡ true)
  none_unknown [] [] f c = (refl, refl)
  none_unknown [] (e ∷ es) f c = absurd (ground arith)
  none_unknown (i ∷ is) [] f c = (refl, refl)
  none_unknown (i ∷ is) (e ∷ es) f c = elim (Bool-cases i.is_null) [
    | inl n ↦
        let ih = none_unknown is es (ground (arith, n)) (ground (arith, n)) in
        (ground (arith, n, ih.0), ground (arith, n, ih.1))
    | inr n ↦ absurd (ground (arith, n))
  ]

  one_unknown :
      (is : List (Input V)) (es : List (Option E))
      → fits is es ≡ true
      → count_unknown is ≡ 1
      → all_concrete es ≡ false
      → unknown_symbolic is es ≡ true
  one_unknown [] es f c a = refl
  one_unknown (i ∷ is) [] f c a = refl
  one_unknown (i ∷ is) (e ∷ es) f c a = elim (Bool-cases i.is_null) [
    | inl n ↦
        let ih = one_unknown is es (ground (arith, n)) (ground (arith, n)) (ground (arith, n)) in
        ground (arith, n, ih)
    | inr n ↦
        let rest = none_unknown is es (ground (arith, n)) (ground (arith, n)) in
        ground (arith, n, rest.0, rest.1)
  ]

  -- An input's code does what the completion does.
  arguments_lem :
      (unknown : ℕ) (is : List (Input V)) (es : List (Option E)) (s : S)
      → fits is es ≡ true
      → (not (unknown == 1) || unknown_symbolic is es) ≡ true
      → run_arguments create compute (emit_arguments unknown is) es s ≡ complete is es s
  unfolding run_arguments emit_arguments emit_argument
  arguments_lem unknown [] es s f u = refl
  arguments_lem unknown (i ∷ is) [] s f u = refl
  arguments_lem unknown (i ∷ is) (none ∷ es) s f u = elim (Bool-cases i.is_null) [
    | inl n ↦
        let (e, t) = create i.concrete_value s in
        let ih = arguments_lem unknown is es t (ground (arith, n)) (ground (arith, n, u)) in
        rw n (ap (λ r. (e ∷ r.0, r.1)) ih)
    | inr n ↦ elim (Bool-cases (unknown == 1)) [
      | inl one ↦ absurd (ground (arith, n, one, u))
      | inr many ↦
          let (e, t) = create i.concrete_value s in
          let ih = arguments_lem unknown is es t (ground (arith, n)) (ground (arith, many)) in
          rw (n, many) (ap (λ r. (e ∷ r.0, r.1)) ih)
    ]
  ]
  arguments_lem unknown (i ∷ is) (some e ∷ es) s f u = elim (Bool-cases i.is_null) [
    | inl n ↦ absurd (ground (arith, n, f))
    | inr n ↦
        let ih = arguments_lem unknown is es s (ground (arith, n)) (ground (arith, n, u)) in
        elim (Bool-cases (unknown == 1)) [
          | inl one ↦ rw (n, one) (ap (λ r. (some e ∷ r.0, r.1)) ih)
          | inr many ↦ rw (n, many) (ap (λ r. (some e ∷ r.0, r.1)) ih)
        ]
  ]

  -- The emitted code of a computation gives what is expected of it: null, without any work, if all
  -- operands are null, and else the computation on operands of which each that is null is replaced by an
  -- expression created for its value, in order; the tests that the code leaves out are not needed.
  -- A computation has an input; there is an operand for each, which is null where it is null
  -- at compile time already.
  pub short_circuit_expression_uses_lem :
      (i : Input V) (is : List (Input V)) (used : Bool) (operands : List (Option E)) (s : S)
      → fits (i ∷ is) operands ≡ true
      → (code : CheckedComputation V) × (short_circuit_expression_uses (i ∷ is) used ≡ some code)
        × (run_short_circuit create compute code operands s ≡ expected (i ∷ is) used operands s)
  unfolding short_circuit_expression_uses run_short_circuit
  short_circuit_expression_uses_lem i is used operands s f = (
    _,
    refl,
    elim (Bool-cases (all_concrete operands)) [
      | inl quick ↦ rw quick refl
      | inr slow ↦
          rw (slow, arguments_lem (count_unknown (i ∷ is)) (i ∷ is) operands s f (symbolic slow))
            refl
    ],
  )
    where
      symbolic :
          all_concrete operands ≡ false
          → (not (count_unknown (i ∷ is) == 1) || unknown_symbolic (i ∷ is) operands) ≡ true
      symbolic slow = elim (Bool-cases (count_unknown (i ∷ is) == 1)) [
        | inl one ↦ rw (one, one_unknown (i ∷ is) operands f (eq_of_== _ 1 one) slow) refl
        | inr many ↦ rw many refl
      ]
