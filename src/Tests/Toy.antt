-- ===== src/Tests/Toy.antt =====
-- A backend for tests: an expression is a width and a function of the input, and the state is the
-- list of the sites of the constraints that were pushed, the last one first. A constraint whose
-- site is 0 fails.
use native.Mathlib.Nat.{mod-lt, mod-eq_of_lt, mul-le-mul_right}
use symcc.Common.{
  arith, ℕ, suc, ◌+◌, ◌-◌, ◌*◌, ◌/◌, ◌%◌, ◌^◌, ◌<◌, refl, Option, none, some, List, ◌∷◌, ◌==◌,
  if◌then◌else◌,
}
use symcc.Common.Powers.{two_pow_pos, pow-add}
use symcc.Backend.{Backend, BackendLaws}

pub record ToyExpr : Type 0 where
  pub width : ℕ
  pub denote : (ℕ → ℕ) → ℕ

abbrev pub toy_value : (ℕ → ℕ) → ToyExpr → ℕ
toy_value ρ e = e.denote ρ % 2 ^ e.width

abbrev pub constant : ℕ → ℕ → ToyExpr
constant v w = record { width = w; denote = λ ρ. v }

-- Byte `i` of the input.
abbrev pub input : ℕ → ToyExpr
input i = record { width = 8; denote = λ ρ. ρ i }

abbrev binary : (ℕ → ℕ → ℕ) → ToyExpr → ToyExpr → List ℕ → ToyExpr × List ℕ
binary f a b s = (record { width = a.width; denote = λ ρ. f (toy_value ρ a) (toy_value ρ b) }, s)

abbrev compare : (ℕ → ℕ → ℕ) → ToyExpr → ToyExpr → List ℕ → ToyExpr × List ℕ
compare f a b s = (record { width = 1; denote = λ ρ. f (toy_value ρ a) (toy_value ρ b) }, s)

abbrev ignore : {A : Type 0} → A → List ℕ → Option (List ℕ)
ignore a s = some s

abbrev pub toy : Backend
toy = record {
  Expr = ToyExpr;
  State = List ℕ;
  bits = λ e. e.width;
  build_integer = λ v w s. (constant v w, s);
  concat_helper = λ a b s. (
    record { width = a.width + b.width; denote = λ ρ. toy_value ρ a * 2 ^ b.width + toy_value ρ b },
    s,
  );
  extract_helper =
      λ e hi lo s. (record { width = suc (hi - lo); denote = λ ρ. toy_value ρ e / 2 ^ lo }, s);
  build_zext = λ e w s. (record { width = e.width + w; denote = λ ρ. toy_value ρ e }, s);
  build_trunc = λ e w s. (record { width = w; denote = λ ρ. toy_value ρ e }, s);
  build_equal = compare (λ v w. if v == w then 1 else 0);
  build_not_equal = compare (λ v w. if v == w then 0 else 1);
  build_bool_and = compare (λ v w. v * w);
  build_bool_or = compare (λ v w. if v + w == 0 then 0 else 1);
  build_and = binary (λ v w. v * w);
  build_or = binary (λ v w. v + w);
  build_unsigned_less_than = compare (λ v w. if v - w == 0 then (if v == w then 0 else 1) else 0);
  build_unsigned_greater_than = compare (λ v w. if v - w == 0 then 0 else 1);
  get_input_byte = λ i v s. (some (input i), s);
  push_path_constraint = λ e b i s. if i == 0 then none else some (i ∷ s);
  concretize_pointer = λ e v i s. some s;
  concretize_size = λ e v i s. some s;
  backend_memcpy = λ d e n x y z s. some s;
  backend_memset = λ d e n x y z s. some s;
  backend_memmove = λ d e n x y z s. some s;
  backend_read_memory = λ a v x n little s. some (v, s);
  backend_write_memory = λ a v x n little s. some s;
  notify_param_expr = λ i e s. s;
  notify_ret_expr = λ e s. s;
  notify_call = λ site s. s;
  notify_ret = λ site s. s;
}

pub concat_bound : (a b v w : ℕ) → v < 2 ^ a → w < 2 ^ b → v * 2 ^ b + w < 2 ^ (a + b)
concat_bound a b v w p q = rw (pow-add a b) (omega (arith, mul-le-mul_right (2 ^ b) p))

abbrev pub toy_laws : BackendLaws toy
toy_laws = record {
  Env = ℕ → ℕ;
  value = toy_value;
  value_bound = λ ρ e. mod-lt (e.denote ρ) (two_pow_pos e.width);
  bits-integer = λ v w s. refl;
  value-integer = λ ρ v w s. refl;
  bits-concat = λ a b s. refl;
  value-concat = λ ρ a b s. mod-eq_of_lt (
      concat_bound a.width b.width (toy_value ρ a) (toy_value ρ b)
        (mod-lt (a.denote ρ) (two_pow_pos a.width)) (mod-lt (b.denote ρ) (two_pow_pos b.width)));
  bits-extract = λ e hi lo s p q. refl;
  value-extract = λ ρ e hi lo s p q. refl;
  read_value = λ v a n little s. (s, refl);
  write_returns = λ v a n little s. (s, refl);
}
