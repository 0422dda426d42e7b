-- ===== src/Tests/Qsyms.antt =====
-- The backend on Qsym, with a library that numbers its expressions.
use mathlib.Core.Option.{some-injective}
use symcc.Common.{
  inl, inr, Bool-cases, subst, sym, eq_of_==, arith, ltb, get_elem?, length, ◌≤◌, ℕ, ◌+◌, ◌≡◌, refl,
  true, Option, none, some, List, [], ◌∷◌, ◌==◌, if◌then◌else◌,
}
use symcc.Common.Cmd.{Returns}
use symcc.Shadow.{Pages}
use symcc.GarbageCollection.{contains, Reachable, in_shadow}
use symcc.QsymBackend.{Qsym, QsymState, add, build_binary, register_expression}
use symcc.QsymBackend.Requests.{Request, binary}
use symcc.QsymBackend.Building.{Owned}
use symcc.QsymBackend.Printing.{minimum, expr_to_string, expr_to_string_lem}
use symcc.QsymBackend.Lifetime.{
  Event, built, collected, run, Uses, ends, builds, collects, run-Uses,
}

abbrev fresh : ℕ → ℕ × ℕ
fresh s = (s + 1, s + 1)

abbrev library : Qsym
library = record {
  Ref = ℕ;
  State = ℕ;
  Z3Expr = ℕ;
  get = λ r. r;
  create_constant = λ x0 x1. fresh;
  create_wide_constant = λ x0 x1 x2. fresh;
  create_true = fresh;
  create_false = fresh;
  create_bool = λ x0. fresh;
  create_binary = λ x0 x1 x2. fresh;
  create_neg = λ x0. fresh;
  create_not = λ x0. fresh;
  create_sext = λ x0 x1. fresh;
  create_zext = λ x0 x1. fresh;
  create_trunc = λ x0 x1. fresh;
  create_read = λ x0. fresh;
  create_extract = λ x0 x1 x2. fresh;
  bool_to_bit = λ x0 x1. fresh;
  bits = λ e. 8;
  to_string = λ e. e ∷ [];
  simplify = λ x0 s. s;
  to_z3_expr = λ e s. (e, s);
  add_jcc = λ x0 x1 x2 s. s;
  solver_push = λ s. s;
  solver_add = λ x0 s. s;
  is_sat = λ s. (true, s);
  solver_pop = λ s. s;
  visit_call = λ x0 s. s;
  visit_ret = λ x0 s. s;
  visit_basic_block = λ x0 s. s;
}

abbrev start : QsymState library
start = record { library = 60; allocated_expressions = (55, 55) ∷ (56, 56) ∷ []; inputs = [] }

abbrev sum : Request
sum = binary add 55 56

start-Owned : Owned library start
start-Owned x ref h = ground arith

-- One sum, then a collection that can reach one of its operands and the result, then another sum.
abbrev cell : ℕ → Option ℕ
cell o = if o == 12 then some 55 else (if o == 13 then some 61 else none)

abbrev pages : Pages ℕ
pages = (4096, cell) ∷ []

abbrev cells : ℕ → Option ℕ
cells a = none

abbrev events : List Event
events = built sum ∷ collected 2 cells [] pages ∷ built (binary add 55 61) ∷ []

-- The collection can reach 55 and 61.
reached : (x : ℕ) → contains (61 ∷ 55 ∷ []) x ≡ true → Reachable cells [] pages x
reached x h = elim (Bool-cases (x == 61)) [
  | inl e ↦
      subst (Reachable cells [] pages) (sym (eq_of_== x 61 e))
        (in_shadow 0 13 (4096, cell) refl (omega arith) refl)
  | inr n ↦
      subst (Reachable cells [] pages) (sym (eq_of_== x 55 (ground arith)))
        (in_shadow 0 12 (4096, cell) refl (omega arith) refl)
]

events-Uses : Uses library (55 ∷ 56 ∷ []) start events
unfolding build_binary register_expression
events-Uses = builds refl λ e s' ran.
    subst (λ (p : ℕ × QsymState library). Uses library (p.0 ∷ 55 ∷ 56 ∷ []) p.1 rest)
      (some-injective _ _ ran)
      (collects (61 ∷ 55 ∷ []) (λ x h. (ground arith, reached x h)) (builds refl (λ e s' r. ends)))
  where
    rest : List Event
    rest = collected 2 cells [] pages ∷ built (binary add 55 61) ∷ []

run_example : Returns (λ _ s'. Owned library s') (run library events start)
run_example =
    run-Uses library (55 ∷ 56 ∷ []) start events start-Owned (λ x there. ground arith) events-Uses

print_example :
    (length (expr_to_string library 9) ≤ 4096)
    × ((i : ℕ)
        → get_elem? (expr_to_string library 9) i ≡ (
            if ltb i (minimum 1 4095)
            then get_elem? (9 ∷ []) i
            else (if i == minimum 1 4095 then some 0 else none)))
print_example = expr_to_string_lem library 9
