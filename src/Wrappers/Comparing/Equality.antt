-- ===== src/Wrappers/Comparing/Equality.antt =====
-- The constraint that the wrapper of `memcmp` in runtime/LibcWrappers.cpp pushes, against the equality of
-- the two ranges.
use symcc.Common.{ℕ, zero, suc, ◌+◌, ◌≡◌, Bool, true, ◌&&◌, Option, none, some, ◌==◌}
use symcc.Backend.{Backend, BackendLaws}
use symcc.Runtime.{Machine}
use symcc.Runtime.Reading.{byte_value}
use symcc.Wrappers.{CLibrary, Process}

-- What the wrappers rely on of the backend's tests.
pub record TestLaws (B : Backend) (L : BackendLaws B) : Type 0 where
  pub holds : L.Env → B.Expr → Bool
  pub holds-equal :
      (ρ : L.Env) (x y : B.Expr) (s : B.State)
      → holds ρ (B.build_equal x y s).0 ≡ (L.value ρ x == L.value ρ y)
  pub holds-bool_and :
      (ρ : L.Env) (x y : B.Expr) (s : B.State)
      → holds ρ (B.build_bool_and x y s).0 ≡ (holds ρ x && holds ρ y)

module _ (B : Backend) (L : BackendLaws B) (T : TestLaws B L) where
  open B use {Expr, State, bits}
  open L use {Env, value}

  -- The bytes of two ranges have the same values under an assignment, the last ones first.
  abbrev pub ranges_equal : Env → Machine B → (a b n : ℕ) → Bool
  ranges_equal ρ m a b zero = true
  ranges_equal ρ m a b (suc n) =
      ranges_equal ρ m a b n && (byte_value B L ρ m (a + n) == byte_value B L ρ m (b + n))

  -- A test of the first `n` bytes.
  abbrev Tests : Machine B → (a b n : ℕ) → Expr → Type 0
  Tests m a b n e = (ρ : Env) → T.holds ρ e ≡ ranges_equal ρ m a b n

  -- The process after a constraint was pushed, if it could be.
  abbrev pub compared :
      (C : CLibrary) → (result : ℕ) → Process B C → Option State → Option (ℕ × Process B C)
  compared C result p none = none
  compared C result p (some t) =
      some (result, record p { machine = record p.machine { backend = t; return_value = none } })
