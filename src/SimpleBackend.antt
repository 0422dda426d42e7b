-- ===== src/SimpleBackend.antt =====
-- runtime/simple_backend/Runtime.cpp: the backend on the Z3 API, which is a parameter. A `Z3_ast` is
-- the number of a term; Z3 gives one term to equal arguments. The reference counts that the backend
-- keeps are part of the state, and so is what it reports in its log.
pub mod Builders
pub mod Constraints
pub mod Inputs
pub mod Instance
pub mod Laws
pub mod Path
pub mod Pins
pub mod References
use symcc.Common.{
  ℕ, zero, suc, ◌+◌, ◌-◌, Bool, true, false, Option, none, some, List, [], ◌∷◌, ◌++◌, ◌==◌, ltb,
  if◌then◌else◌, length, get_elem?,
}
use symcc.GarbageCollection.{contains, insert}

-- The operators of Z3 that the backend uses, by their number of operands. Those of floats that round
-- take the rounding mode first.
pub data Z3Unary : Type 0 where
  bvneg bvnot z3_not fpa_abs fpa_is_nan fpa_to_ieee_bv : Z3Unary

pub data Z3Binary : Type 0 where
  bvadd bvsub bvmul bvudiv bvsdiv bvurem bvsrem bvshl bvlshr bvashr : Z3Binary
  bvslt bvsle bvsgt bvsge bvult bvule bvugt bvuge eq : Z3Binary
  bvand bvor z3_xor bvxor concat : Z3Binary
  fpa_gt fpa_geq fpa_lt fpa_leq fpa_eq fpa_rem : Z3Binary

pub data Z3Rounded : Type 0 where
  fpa_add fpa_sub fpa_mul fpa_div : Z3Rounded

-- `Z3_lbool`
pub data Lbool : Type 0 where
  l_true l_false l_undef : Lbool

pub record Z3 : Type 1 where
  pub Double : Type 0
  pub Solver : Type 0
  pub mk_bv_sort : ℕ → ℕ
  pub mk_fpa_sort : (is_double : Bool) → ℕ
  pub get_sort : ℕ → ℕ
  pub get_bv_sort_size : ℕ → ℕ
  pub mk_unsigned_int64 : (value sort : ℕ) → ℕ
  pub mk_fpa_numeral_double : Double → (sort : ℕ) → ℕ
  -- The constant whose name is "stdin" and a number.
  pub mk_stdin_const : (index sort : ℕ) → ℕ
  pub mk_true : ℕ
  pub mk_false : ℕ
  pub mk_unary : Z3Unary → ℕ → ℕ
  pub mk_binary : Z3Binary → ℕ → ℕ → ℕ
  pub mk_rounded : Z3Rounded → (mode a b : ℕ) → ℕ
  pub mk_and : List ℕ → ℕ
  pub mk_or : List ℕ → ℕ
  pub mk_sign_ext : (bits expr : ℕ) → ℕ
  pub mk_zero_ext : (bits expr : ℕ) → ℕ
  pub mk_extract : (high low expr : ℕ) → ℕ
  pub mk_fpa_to_fp_signed : (mode value sort : ℕ) → ℕ
  pub mk_fpa_to_fp_unsigned : (mode value sort : ℕ) → ℕ
  pub mk_fpa_to_fp_float : (mode expr sort : ℕ) → ℕ
  pub mk_fpa_to_fp_bv : (expr sort : ℕ) → ℕ
  pub mk_fpa_round_toward_zero : ℕ
  pub mk_fpa_to_sbv : (mode expr bits : ℕ) → ℕ
  pub mk_fpa_to_ubv : (mode expr bits : ℕ) → ℕ
  pub mk_ite : (test yes no : ℕ) → ℕ
  pub simplify : ℕ → ℕ
  pub is_eq_ast : ℕ → ℕ → Bool
  pub solver_push : Solver → Solver
  pub solver_assert : ℕ → Solver → Solver
  pub solver_check : Solver → Lbool × Solver
  pub solver_pop : Solver → Solver
  -- The model of the last check.
  pub solver_get_model : Solver → ℕ

-- What the log says of an attempt to find another input.
pub data Report : Type 0 where
  diverging_input : (model : ℕ) → Report
  no_diverging_input : Report

pub record SimpleState (Z : Z3) : Type 0 where
  pub refs : ℕ → ℕ
  pub allocated_expressions : List ℕ
  pub stdin_bytes : List (Option ℕ)
  pub solver : Z.Solver
  pub log : List Report
  pub rounding_mode : ℕ
  pub null_pointer : ℕ
  pub true_expr : ℕ
  pub false_expr : ℕ

-- `std::vector::resize` to a size that is not smaller.
abbrev pub nulls : ℕ → List (Option ℕ)
nulls zero = []
nulls (suc n) = none ∷ nulls n

abbrev pub entry : Option (Option ℕ) → Option ℕ
entry none = none
entry (some e) = e

module _ (Z : Z3) where
  -- `Z3_inc_ref` and `Z3_dec_ref`.
  abbrev pub inc_ref : ℕ → SimpleState Z → SimpleState Z
  inc_ref e s = record s { refs = λ x. if e == x then s.refs x + 1 else s.refs x }

  abbrev pub dec_ref : ℕ → SimpleState Z → SimpleState Z
  dec_ref e s = record s { refs = λ x. if e == x then s.refs x - 1 else s.refs x }

  -- A computation with a reference to a sort.
  abbrev pub with_sort :
      {A : Type 0} → ℕ → (SimpleState Z → A × SimpleState Z) → SimpleState Z → A × SimpleState Z
  with_sort sort f s = let (a, t) = f (inc_ref sort s) in (a, dec_ref sort t)

  unfoldable pub register_expression : ℕ → SimpleState Z → ℕ × SimpleState Z
  register_expression expr s = (
    expr,
    if contains s.allocated_expressions expr
        then s
        else inc_ref expr
            (record s { allocated_expressions = insert s.allocated_expressions expr }),
  )

  unfoldable pub build_variable : (index bits : ℕ) → SimpleState Z → ℕ × SimpleState Z
  build_variable index bits =
      let sort = Z.mk_bv_sort bits in
      let result = Z.mk_stdin_const index sort in with_sort sort (λ s. (result, inc_ref result s))

  unfoldable pub get_input_byte : (offset value : ℕ) → SimpleState Z → Option ℕ × SimpleState Z
  get_input_byte offset value s =
      let size = length s.stdin_bytes in
      if ltb offset size
      then (entry (get_elem? s.stdin_bytes offset), s)
      else (let (var, t) = build_variable size 8 s in
          (
            some var,
            record t { stdin_bytes = t.stdin_bytes ++ (nulls (offset - size) ++ some var ∷ []) },
          ))
