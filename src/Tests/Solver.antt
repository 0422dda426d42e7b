-- ===== src/Tests/Solver.antt =====
-- A small Z3 for tests. The input is one bit; a term is a bit vector for each of its two values,
-- coded as a number, and a Boolean is a bit vector of width 1. The solver tries both inputs.
use native.Mathlib.Nat.{
  mod-lt, mod-eq_of_lt, mul-add-mod_self_right, mul-add-div_right, mul-le-mul_right, pow-suc,
  div-eq_of_lt, mod-mod, add-mod_left, add-zero,
}
use symcc.Common.{
  arith, ℕ, zero, suc, ◌+◌, ◌-◌, ◌*◌, ◌/◌, ◌%◌, ◌^◌, ◌≤◌, ◌<◌, ◌≡◌, refl, ap, ◌∙◌, Bool, true,
  false, not, ◌&&◌, ◌||◌, List, [], ◌∷◌, ◌==◌, ltb, if◌then◌else◌, eq_of_==,
}
use symcc.Common.Powers.{two_pow_pos, pow-add}
use symcc.Tests.Toy.{concat_bound}
use symcc.SimpleBackend.{Z3, Z3Unary, Z3Binary, z3_not, eq, concat, l_true, l_false}
use symcc.SimpleBackend.Laws.{Z3Laws}

-- A number 2^w * 2^w + x with x below 2^w * 2^w has size w.
abbrev size : (fuel e : ℕ) → ℕ
size zero e = 0
size (suc fuel) e = elim (ltb e 4) [ true ↦ 0 | false ↦ suc (size fuel (e / 4)) ]

square : (w : ℕ) → 2 ^ suc w * 2 ^ suc w ≡ 4 * (2 ^ w * 2 ^ w)
square w = rw (pow-suc 2 w) (grind arith)

size_lem : (fuel w x p : ℕ) → w ≤ fuel → p ≡ 2 ^ w * 2 ^ w → x < p → size fuel (p + x) ≡ w
size_lem zero zero x p f q h = refl
size_lem zero (suc w) x p f q h = absurd (omega arith)
size_lem (suc fuel) zero x p f q h = ground arith
size_lem (suc fuel) (suc w) x p f q h =
    let r = 2 ^ w * 2 ^ w in
    let quarter : (p + x) / 4 ≡ r + x / 4 = omega (arith, square w) in
    let ih = size_lem fuel w (x / 4) r (omega arith) refl (omega (arith, square w)) in
    let pos : 0 < r = omega (arith, pow-add w w, two_pow_pos (w + w)) in
    let four : 4 ≤ p + x = omega (arith, square w) in
    let large : ltb (p + x) 4 ≡ false = ground arith in
    rw (large, size) (ap suc (ap (size fuel) quarter ∙ ih))

width_fits : (w : ℕ) → w ≤ 2 ^ w
width_fits zero = omega arith
width_fits (suc w) = rw (pow-suc 2 w) (omega (arith, width_fits w, two_pow_pos w))

-- The term of a width with the given values under the two inputs.
abbrev term : (w v0 v1 : ℕ) → ℕ
term w v0 v1 = 2 ^ w * 2 ^ w + (v0 % 2 ^ w * 2 ^ w + v1 % 2 ^ w)

abbrev width : ℕ → ℕ
width e = size e e

pair_bound : (w a c : ℕ) → a < 2 ^ w → c < 2 ^ w → a * 2 ^ w + c < 2 ^ w * 2 ^ w
pair_bound w a c p q = omega (arith, mul-le-mul_right (2 ^ w) p)

pub width-term : (w v0 v1 : ℕ) → width (term w v0 v1) ≡ w
width-term w v0 v1 =
    size_lem (term w v0 v1) w (v0 % 2 ^ w * 2 ^ w + v1 % 2 ^ w) (2 ^ w * 2 ^ w)
      (omega (arith, width_fits w, width_fits (w + w), pow-add w w)) refl
      (pair_bound w (v0 % 2 ^ w) (v1 % 2 ^ w) (mod-lt v0 (two_pow_pos w))
        (mod-lt v1 (two_pow_pos w)))

abbrev value : Bool → ℕ → ℕ
value ρ e = (if ρ then e else e / 2 ^ width e) % 2 ^ width e

split_term : (w v0 v1 : ℕ) → term w v0 v1 ≡ (2 ^ w + v0 % 2 ^ w) * 2 ^ w + v1 % 2 ^ w
split_term w v0 v1 = grind arith

value-term : (ρ : Bool) (w v0 v1 : ℕ) → value ρ (term w v0 v1) ≡ (if ρ then v1 else v0) % 2 ^ w
value-term true w v0 v1 =
    ap (λ n. term w v0 v1 % 2 ^ n) (width-term w v0 v1)
    ∙ ap (λ e. e % 2 ^ w) (split_term w v0 v1)
    ∙ mul-add-mod_self_right (2 ^ w + v0 % 2 ^ w) (2 ^ w) (v1 % 2 ^ w)
    ∙ mod-mod v1 (2 ^ w)
value-term false w v0 v1 =
    ap (λ n. term w v0 v1 / 2 ^ n % 2 ^ n) (width-term w v0 v1)
    ∙ ap (λ e. e / 2 ^ w % 2 ^ w) (split_term w v0 v1)
    ∙ ap (λ e. e % 2 ^ w) (mul-add-div_right (two_pow_pos w) (2 ^ w + v0 % 2 ^ w) (v1 % 2 ^ w))
    ∙ ap (λ e. (2 ^ w + v0 % 2 ^ w + e) % 2 ^ w) (div-eq_of_lt (mod-lt v1 (two_pow_pos w)))
    ∙ ap (λ e. e % 2 ^ w) (add-zero (2 ^ w + v0 % 2 ^ w))
    ∙ add-mod_left (2 ^ w) (v0 % 2 ^ w)
    ∙ mod-mod v0 (2 ^ w)

abbrev holds : Bool → ℕ → Bool
holds ρ e = value ρ e == 1

abbrev bit : Bool → ℕ
bit b = if b then 1 else 0

-- A term from its values under the two inputs.
abbrev both : ℕ → (Bool → ℕ) → ℕ
both w f = term w (f false) (f true)

pub value-both : (ρ : Bool) (w : ℕ) (f : Bool → ℕ) → value ρ (both w f) ≡ f ρ % 2 ^ w
value-both true w f = value-term true w (f false) (f true)
value-both false w f = value-term false w (f false) (f true)

pub holds-both : (ρ : Bool) (f : Bool → Bool) → holds ρ (both 1 (λ σ. bit (f σ))) ≡ f ρ
holds-both ρ f = ap (λ v. v == 1) (value-both ρ 1 (λ σ. bit (f σ))) ∙ bit_lem (f ρ)
  where
    bit_lem : (b : Bool) → (bit b % 2 ^ 1 == 1) ≡ b
    bit_lem true = refl
    bit_lem false = refl

abbrev unary : Z3Unary → ℕ → ℕ
unary z3_not e = both 1 (λ ρ. bit (not (holds ρ e)))
unary op e = both (width e) (λ ρ. 0)

abbrev binary : Z3Binary → ℕ → ℕ → ℕ
binary eq a b = both 1 (λ ρ. bit (value ρ a == value ρ b))
binary concat a b = both (width a + width b) (λ ρ. value ρ a * 2 ^ width b + value ρ b)
binary op a b = both (width a) (λ ρ. 0)

abbrev pub all_of : Bool → List ℕ → Bool
all_of ρ [] = true
all_of ρ (e ∷ es) = holds ρ e && all_of ρ es

abbrev Stack : Type 0
Stack = List ℕ × List (List ℕ)

abbrev head : List ℕ → List (List ℕ) → List ℕ
head d [] = d
head d (l ∷ ls) = l

abbrev tail : List (List ℕ) → List (List ℕ)
tail [] = []
tail (l ∷ ls) = ls

abbrev pop : Stack → Stack
pop (l, []) = (l, [])
pop (l, m ∷ ms) = (m, ms)

pub popped_assertions : (z : Stack) (l : List ℕ) (ls : List (List ℕ)) → z.1 ≡ l ∷ ls → (pop z).0 ≡ l
popped_assertions (a, []) l ls h = cc
popped_assertions (a, m ∷ ms) l ls h = ap (head a) h

pub popped_scopes : (z : Stack) (l : List ℕ) (ls : List (List ℕ)) → z.1 ≡ l ∷ ls → (pop z).1 ≡ ls
popped_scopes (a, []) l ls h = cc
popped_scopes (a, m ∷ ms) l ls h = ap tail h

pub value_bound : (ρ : Bool) (e : ℕ) → value ρ e < 2 ^ width e
value_bound ρ e = mod-lt (if ρ then e else e / 2 ^ width e) (two_pow_pos (width e))

abbrev pub small_z3 : Z3
small_z3 = record {
  Double = ℕ;
  Solver = Stack;
  mk_bv_sort = λ w. w;
  mk_fpa_sort = λ d. if d then 64 else 32;
  get_sort = width;
  get_bv_sort_size = λ w. w;
  mk_unsigned_int64 = λ v w. both w (λ ρ. v);
  mk_fpa_numeral_double = λ v w. both w (λ ρ. v);
  mk_stdin_const = λ i w. both w (λ ρ. if ρ then 65 + i else 0);
  mk_true = both 1 (λ ρ. bit true);
  mk_false = both 1 (λ ρ. bit false);
  mk_unary = unary;
  mk_binary = binary;
  mk_rounded = λ op mode a b. both (width a) (λ ρ. 0);
  mk_and = λ es. both 1 (λ ρ. bit (all_of ρ es));
  mk_or = λ es. both 1 (λ ρ. 0);
  mk_sign_ext = λ bits e. both (width e + bits) (λ ρ. value ρ e);
  mk_zero_ext = λ bits e. both (width e + bits) (λ ρ. value ρ e);
  mk_extract = λ hi lo e. both (suc (hi - lo)) (λ ρ. value ρ e / 2 ^ lo);
  mk_fpa_to_fp_signed = λ mode v w. both w (λ ρ. 0);
  mk_fpa_to_fp_unsigned = λ mode v w. both w (λ ρ. 0);
  mk_fpa_to_fp_float = λ mode v w. both w (λ ρ. 0);
  mk_fpa_to_fp_bv = λ e w. both w (λ ρ. value ρ e);
  mk_fpa_round_toward_zero = 0;
  mk_fpa_to_sbv = λ mode e w. both w (λ ρ. 0);
  mk_fpa_to_ubv = λ mode e w. both w (λ ρ. 0);
  mk_ite = λ c a b. both (width a) (λ ρ. if holds ρ c then value ρ a else value ρ b);
  simplify = λ e. e;
  is_eq_ast = λ a b. a == b;
  solver_push = λ z. (z.0, z.0 ∷ z.1);
  solver_assert = λ e z. (e ∷ z.0, z.1);
  solver_check = λ z. (if all_of true z.0 || all_of false z.0 then l_true else l_false, z);
  solver_pop = pop;
  solver_get_model = λ z. bit (all_of true z.0);
}

abbrev pub small_laws : Z3Laws small_z3
small_laws = record {
  Env = Bool;
  value = value;
  holds = holds;
  value_bound = value_bound;
  size_integer = λ v w. width-term w v v;
  value_integer = λ ρ v w. value-both ρ w (λ _. v);
  size_concat = λ a b. width-term (width a + width b) _ _;
  value_concat = λ ρ a b.
      value-both ρ (width a + width b) (λ ρ. value ρ a * 2 ^ width b + value ρ b)
      ∙ mod-eq_of_lt (
          concat_bound (width a) (width b) (value ρ a) (value ρ b) (value_bound ρ a)
            (value_bound ρ b));
  size_extract = λ e hi lo p q. width-term (suc (hi - lo)) _ _;
  value_extract = λ ρ e hi lo p q. value-both ρ (suc (hi - lo)) (λ ρ. value ρ e / 2 ^ lo);
  holds_true = λ ρ. holds-both ρ (λ _. true);
  holds_false = λ ρ. holds-both ρ (λ _. false);
  holds_not = λ ρ e. holds-both ρ (λ σ. not (holds σ e));
  holds_eq = λ ρ a b same. holds-both ρ (λ σ. value σ a == value σ b);
  holds_simplify = λ ρ e. refl;
  eq_of_is_eq_ast = eq_of_==;
  assertions = λ z. z.0;
  scopes = λ z. z.1;
  assertions_push = λ z. refl;
  scopes_push = λ z. refl;
  assertions_assert = λ e z. refl;
  scopes_assert = λ e z. refl;
  assertions_check = λ z. refl;
  scopes_check = λ z. refl;
  assertions_pop = λ z l ls h. popped_assertions z l ls h;
  scopes_pop = λ z l ls h. popped_scopes z l ls h;
}
