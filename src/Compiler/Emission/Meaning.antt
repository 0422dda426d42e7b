-- ===== src/Compiler/Emission/Meaning.antt =====
-- What the calls of one computation compute that compiler/Symbolizer.cpp emits for an address. It is the
-- slow path: an input stands for its concrete value, and another operand for the result of an
-- earlier call. A number is a width with a value.
use symcc.Common.{
  arith, ℕ, ◌+◌, ◌-◌, ◌*◌, ◌%◌, ◌^◌, ◌≤◌, ◌<◌, ◌≡◌, refl, ap, sym, ◌∙◌, Bool, true, false, ◌&&◌,
  Option, none, some, List, [], ◌∷◌, ◌++◌, ltb, ◌==◌, if◌then◌else◌, ◌⊎◌, inl, inr,
}
use mathlib.Core.List.{append_assoc}
use symcc.Compiler.Ir.{Ty, integer, DataLayout}
use symcc.Compiler.Handlers.{Function, build_add, build_mul, build_sext}
use symcc.Compiler.Emission.{
  Value, constant_int, emitted, type_of, Code, call, Emitted, Input, SymbolicComputation, State,
  function_args, inputs_from, get_symbolic_expression_or_null,
}

abbrev pub Number : Type 0
Number = ℕ × ℕ

-- The sign extension of a value from `w` bits to `v`, in two's complement.
abbrev pub sign_extend : (w v value : ℕ) → ℕ
sign_extend w v value = if ltb value (2 ^ (w - 1)) then value else value + (2 ^ v - 2 ^ w)

-- The functions of bit-vector arithmetic that an address needs.
abbrev pub apply : Function → List Number → Number
apply build_add ((w, a) ∷ (v, b) ∷ []) = (w, (a + b) % 2 ^ w)
apply build_mul ((w, a) ∷ (v, b) ∷ []) = (w, a * b % 2 ^ w)
apply build_sext ((w, a) ∷ (v, k) ∷ []) = (w + k, sign_extend w (w + k) a)
apply _ _ = (0, 0)

abbrev pub find_input : (user index : ℕ) → List Input → Option Value
find_input user index [] = none
find_input user index (i ∷ is) =
    if (i.user == user) && (i.operand_index == index)
    then some i.concrete_value
    else find_input user index is

abbrev pub bits_of : DataLayout → Ty → ℕ
bits_of L (integer w) = w
bits_of L _ = L.ptr_bits

-- `env` gives the values of the program.
abbrev pub concrete : DataLayout → (env : Value → ℕ) → Value → Number
concrete L env (constant_int w n) = (w, n)
concrete L env v = (bits_of L (type_of v), env v)

-- `results` gives those of the emitted calls.
module _ (L : DataLayout) (env : Value → ℕ) (results : ℕ → Number) where
  abbrev pub plain : Value → Number
  plain (emitted n t) = results n
  plain v = concrete L env v

  abbrev pub operand_number : Option Value → Value → Number
  operand_number none v = plain v
  operand_number (some c) v = concrete L env c

  abbrev pub operand_numbers : List Input → (user index : ℕ) → List Value → List Number
  operand_numbers inputs user index [] = []
  operand_numbers inputs user index (v ∷ vs) =
      operand_number (find_input user index inputs) v ∷ operand_numbers inputs user (index + 1) vs

  abbrev pub meaning : List Input → Emitted → Code → Number
  meaning inputs i (call f args) = apply f (operand_numbers inputs i.number 0 args)
  meaning inputs i _ = results i.number

  -- The results are those of the calls.
  abbrev pub AreResults : List Input → List Emitted → Type 0
  AreResults inputs [] = Unit {0}
  AreResults inputs (i ∷ is) = (results i.number ≡ meaning inputs i i.code) × AreResults inputs is

  -- What the arguments of `forceBuildRuntimeCall` stand for.
  abbrev pub argument_numbers : List (Value × Bool) → List Number
  argument_numbers [] = []
  argument_numbers ((v, true) ∷ args) = concrete L env v ∷ argument_numbers args
  argument_numbers ((v, false) ∷ args) = plain v ∷ argument_numbers args

abbrev pub UsersFrom : ℕ → List Input → Type 0
UsersFrom n [] = Unit {0}
UsersFrom n (i ∷ is) = (n ≤ i.user) × UsersFrom n is

-- The inputs are of calls before `n`, or of that call at an operand before `j`.
abbrev pub Earlier : (n j : ℕ) → List Input → Type 0
Earlier n j [] = Unit {0}
Earlier n j (i ∷ is) = ((i.user < n) ⊎ ((i.user ≡ n) × (i.operand_index < j))) × Earlier n j is

find_skip :
    (n j : ℕ) (before xs : List Input)
    → Earlier n j before
    → find_input n j (before ++ xs) ≡ find_input n j xs
find_skip n j [] xs e = refl
find_skip n j (i ∷ is) xs (inl l, e) = ground (arith, find_skip n j is xs e)
find_skip n j (i ∷ is) xs (inr (m, l), e) = ground (arith, find_skip n j is xs e)

find_later : (n j : ℕ) (xs : List Input) → UsersFrom (n + 1) xs → find_input n j xs ≡ none
find_later n j [] u = refl
find_later n j (i ∷ is) (l, u) = ground (arith, find_later n j is u)

find_beyond :
    (args : List (Value × Bool)) (n j k : ℕ) (after : List Input)
    → j < k
    → UsersFrom (n + 1) after
    → find_input n j (inputs_from args k n ++ after) ≡ none
unfolding inputs_from
find_beyond [] n j k after l u = find_later n j after u
find_beyond ((v, true) ∷ args) n j k after l u =
    ground (arith, find_beyond args n j (k + 1) after (omega arith) u)
find_beyond ((v, false) ∷ args) n j k after l u = find_beyond args n j (k + 1) after (omega arith) u

Earlier-append :
    (n j : ℕ) (before : List Input) (i : Input)
    → Earlier n j before
    → i.user ≡ n
    → i.operand_index ≡ j
    → Earlier n (j + 1) (before ++ i ∷ [])
Earlier-append n j [] i e p q = (inr (p, omega arith), tt)
Earlier-append n j (k ∷ ks) i (inl l, e) p q = (inl l, Earlier-append n j ks i e p q)
Earlier-append n j (k ∷ ks) i (inr (m, l), e) p q =
    (inr (m, omega arith), Earlier-append n j ks i e p q)

Earlier-suc : (n j : ℕ) (before : List Input) → Earlier n j before → Earlier n (j + 1) before
Earlier-suc n j [] e = tt
Earlier-suc n j (k ∷ ks) (inl l, e) = (inl l, Earlier-suc n j ks e)
Earlier-suc n j (k ∷ ks) (inr (m, l), e) = (inr (m, omega arith), Earlier-suc n j ks e)

module _ (L : DataLayout) (env : Value → ℕ) (results : ℕ → Number) (s : State) (n : ℕ) where
  -- A call's operands stand for what its arguments do, whatever inputs other calls have.
  pub operand_numbers_lem :
      (args : List (Value × Bool)) (j : ℕ) (before after : List Input)
      → Earlier n j before
      → UsersFrom (n + 1) after
      → operand_numbers L env results
          (before ++ (inputs_from args j n ++ after))
          n
          j
          (function_args s args)
        ≡ argument_numbers L env results args
  unfolding inputs_from function_args
  operand_numbers_lem [] j before after e u = refl
  operand_numbers_lem ((v, true) ∷ args) j before after e u =
      let i : Input = record { concrete_value = v; operand_index = j; user = n } in
      let found = find_skip n j before (i ∷ (inputs_from args (j + 1) n ++ after)) e in
      let rest =
        operand_numbers_lem args (j + 1) (before ++ i ∷ []) after
          (Earlier-append n j before i e refl refl) u in
      let others = inputs_from args (j + 1) n ++ after in
      let present : find_input n j (before ++ i ∷ others) ≡ some v = found ∙ ground arith in
      let regroup =
        ap (λ (l : List Input). operand_numbers L env results l n (j + 1) (function_args s args))
          (sym (append_assoc before (i ∷ []) others)) in
      λ k.
        operand_number L env results (present k) (get_symbolic_expression_or_null s v)
        ∷ (regroup ∙ rest) k
  operand_numbers_lem ((v, false) ∷ args) j before after e u =
      let rest = operand_numbers_lem args (j + 1) before after (Earlier-suc n j before e) u in
      let absent =
        find_skip n j before (inputs_from args (j + 1) n ++ after) e
        ∙ find_beyond args n j (j + 1) after (omega arith) u in
      λ k. operand_number L env results (absent k) v ∷ rest k

-- The calls that were emitted since a state, with the inputs of the computation that they make.
pub record Trace (start : State) (c : SymbolicComputation) (s : State) : Type 0 where
  pub emitted_since : List Emitted
  pub code_lem : s.code ≡ start.code ++ emitted_since
  pub uses_lem : s.expression_uses ≡ start.expression_uses
  pub before : Earlier s.next 0 c.inputs

module _ (L : DataLayout) (env : Value → ℕ) (results : ℕ → Number) where
  -- What the results of these calls give, also when the computation goes on.
  abbrev pub Given :
      {start : State} {c : SymbolicComputation} {s : State} → Trace start c s → Type 0 → Type 0
  Given {c = c} {s = s} t P =
      (after : List Input)
      → UsersFrom s.next after
      → AreResults L env results (c.inputs ++ after) t.emitted_since
      → P

  pub AreResults-append :
      (inputs : List Input) (is : List Emitted) (i : Emitted)
      → AreResults L env results inputs (is ++ i ∷ [])
      → AreResults L env results inputs is
        × (results i.number ≡ meaning L env results inputs i i.code)
  AreResults-append inputs [] i (e, r) = (tt, e)
  AreResults-append inputs (k ∷ ks) i (e, r) =
      let (a, b) = AreResults-append inputs ks i r in ((e, a), b)
