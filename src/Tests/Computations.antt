-- ===== src/Tests/Computations.antt =====
-- A computation with an input that is null at compile time and one that is not.
use symcc.Common.{ℕ, ◌+◌, ◌≡◌, refl, true, false, Option, none, some, List, [], ◌∷◌}
use symcc.Compiler.{Input, CheckedComputation, short_circuit_expression_uses, run_short_circuit}
use symcc.Compiler.ShortCircuit.{expected, short_circuit_expression_uses_lem}

abbrev create : ℕ → ℕ → Option ℕ × ℕ
create v s = (some (100 + v), s + 1)

abbrev sum : List (Option ℕ) → ℕ
sum [] = 0
sum (none ∷ es) = sum es
sum (some e ∷ es) = e + sum es

abbrev compute : List (Option ℕ) → ℕ → Option ℕ × ℕ
compute es s = (some (sum es), s + 10)

abbrev constant : Input ℕ
constant = record { is_null = true; concrete_value = 5 }

abbrev variable : Input ℕ
variable = record { is_null = false; concrete_value = 6 }

computation_example :
    (code : CheckedComputation ℕ) × (short_circuit_expression_uses (constant ∷ variable ∷ []) true
      ≡ some code)
    × (run_short_circuit create compute code (none ∷ some 7 ∷ []) 0
        ≡ expected create compute (constant ∷ variable ∷ []) true (none ∷ some 7 ∷ []) 0)
computation_example =
    short_circuit_expression_uses_lem create compute constant (variable ∷ []) true
      (none ∷ some 7 ∷ []) 0 refl

-- The computation gets an expression for the constant, and the variable's own.
computation_run :
    expected create compute (constant ∷ variable ∷ []) true (none ∷ some 7 ∷ []) 0 ≡ (some 112, 11)
computation_run = refl
