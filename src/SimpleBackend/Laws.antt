-- ===== src/SimpleBackend/Laws.antt =====
-- What runtime/simple_backend/Runtime.cpp relies on of Z3: the meaning of the terms that it uses,
-- and the stack of assertions of a solver.
use symcc.Common.{
  ℕ, suc, ◌+◌, ◌-◌, ◌*◌, ◌/◌, ◌%◌, ◌^◌, ◌≤◌, ◌<◌, ◌≡◌, Bool, true, false, not, List, ◌∷◌, ◌==◌,
}
use symcc.SimpleBackend.{Z3, z3_not, eq, concat}

pub record Z3Laws (Z : Z3) : Type 1 where
  -- The meaning of a bit vector and of a Boolean under an assignment to the input.
  pub Env : Type 0
  pub value : Env → ℕ → ℕ
  pub holds : Env → ℕ → Bool
  pub value_bound : (ρ : Env) (e : ℕ) → value ρ e < 2 ^ Z.get_bv_sort_size (Z.get_sort e)
  pub size_integer :
      (v w : ℕ) → Z.get_bv_sort_size (Z.get_sort (Z.mk_unsigned_int64 v (Z.mk_bv_sort w))) ≡ w
  pub value_integer :
      (ρ : Env) (v w : ℕ) → value ρ (Z.mk_unsigned_int64 v (Z.mk_bv_sort w)) ≡ v % 2 ^ w
  pub size_concat :
      (a b : ℕ)
      → Z.get_bv_sort_size (Z.get_sort (Z.mk_binary concat a b))
        ≡ Z.get_bv_sort_size (Z.get_sort a) + Z.get_bv_sort_size (Z.get_sort b)
  pub value_concat :
      (ρ : Env) (a b : ℕ)
      → value ρ (Z.mk_binary concat a b)
        ≡ value ρ a * 2 ^ Z.get_bv_sort_size (Z.get_sort b) + value ρ b
  pub size_extract :
      (e hi lo : ℕ)
      → lo ≤ hi
      → hi < Z.get_bv_sort_size (Z.get_sort e)
      → Z.get_bv_sort_size (Z.get_sort (Z.mk_extract hi lo e)) ≡ suc (hi - lo)
  pub value_extract :
      (ρ : Env) (e hi lo : ℕ)
      → lo ≤ hi
      → hi < Z.get_bv_sort_size (Z.get_sort e)
      → value ρ (Z.mk_extract hi lo e) ≡ value ρ e / 2 ^ lo % 2 ^ suc (hi - lo)
  pub holds_true : (ρ : Env) → holds ρ Z.mk_true ≡ true
  pub holds_false : (ρ : Env) → holds ρ Z.mk_false ≡ false
  pub holds_not : (ρ : Env) (e : ℕ) → holds ρ (Z.mk_unary z3_not e) ≡ not (holds ρ e)
  -- `Z3_mk_eq` asks for operands of one sort; on others the error handler ends the run.
  pub holds_eq :
      (ρ : Env) (a b : ℕ)
      → Z.get_bv_sort_size (Z.get_sort a) ≡ Z.get_bv_sort_size (Z.get_sort b)
      → holds ρ (Z.mk_binary eq a b) ≡ (value ρ a == value ρ b)
  pub holds_simplify : (ρ : Env) (e : ℕ) → holds ρ (Z.simplify e) ≡ holds ρ e
  pub eq_of_is_eq_ast : (a b : ℕ) → Z.is_eq_ast a b ≡ true → a ≡ b
  -- The assertions of a solver, and those to which it comes back by each `Z3_solver_pop`.
  pub assertions : Z.Solver → List ℕ
  pub scopes : Z.Solver → List (List ℕ)
  pub assertions_push : (z : Z.Solver) → assertions (Z.solver_push z) ≡ assertions z
  pub scopes_push : (z : Z.Solver) → scopes (Z.solver_push z) ≡ assertions z ∷ scopes z
  pub assertions_assert :
      (e : ℕ) (z : Z.Solver) → assertions (Z.solver_assert e z) ≡ e ∷ assertions z
  pub scopes_assert : (e : ℕ) (z : Z.Solver) → scopes (Z.solver_assert e z) ≡ scopes z
  pub assertions_check : (z : Z.Solver) → assertions (Z.solver_check z).1 ≡ assertions z
  pub scopes_check : (z : Z.Solver) → scopes (Z.solver_check z).1 ≡ scopes z
  pub assertions_pop :
      (z : Z.Solver) (l : List ℕ) (ls : List (List ℕ))
      → scopes z ≡ l ∷ ls
      → assertions (Z.solver_pop z) ≡ l
  pub scopes_pop :
      (z : Z.Solver) (l : List ℕ) (ls : List (List ℕ))
      → scopes z ≡ l ∷ ls
      → scopes (Z.solver_pop z) ≡ ls
