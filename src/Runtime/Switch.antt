-- ===== src/Runtime/Switch.antt =====
-- `_sym_push_switch_constraint` of runtime/RuntimeCommon.cpp, and the calls of it that the
-- instrumentation of one switch makes, one for each case in order.
pub mod Order
use symcc.Common.{
  ℕ, zero, suc, ◌+◌, Bool, true, false, not, Option, none, some, List, [], ◌∷◌, ◌++◌, ◌==◌, is_some,
  if◌then◌else◌, length,
}
use symcc.Common.Cmd.{pure, ◌>>=◌, ◌>>◌, when, require}
use symcc.Backend.{Backend}
use symcc.Runtime.{Machine, Run, CachedPathConstraint, cached, sub_size, call}

abbrev pub is_empty : {A : Type 0} → List A → Bool
is_empty [] = true
is_empty (x ∷ xs) = false

module _ (B : Backend) where
  open B use {Expr}

  -- One call of `_sym_push_path_constraint`.
  abbrev pub push : CachedPathConstraint Expr → Run B (Unit {0})
  push (cached constraint taken site_id) = call B (B.push_path_constraint constraint taken site_id)

  -- The loop over the cache, with the taken constraint that was met.
  unfoldable pub flush :
      List (CachedPathConstraint Expr)
      → Option (CachedPathConstraint Expr)
      → Run B (Option (CachedPathConstraint Expr))
  flush [] taken_constraint = pure taken_constraint
  flush (cached constraint false site_id ∷ cs) taken_constraint =
      push (cached constraint false site_id) >> flush cs taken_constraint
  flush (cached constraint true site_id ∷ cs) taken_constraint =
      require (not (is_some taken_constraint)) >> flush cs (some (cached constraint true site_id))

  -- The last push, of the taken constraint.
  abbrev pub push_taken : Option (CachedPathConstraint Expr) → Run B (Unit {0})
  push_taken none = pure tt
  push_taken (some c) = push c

  abbrev pub set_cache : List (CachedPathConstraint Expr) → Run B (Unit {0})
  set_cache cs m = some (tt, record m { switch_cache = cs })

  unfoldable pub push_switch_constraint :
      CachedPathConstraint Expr → (index num_cases : ℕ) → Run B (Unit {0})
  push_switch_constraint c index num_cases m =
      (do
        when (index == 0) (require (is_empty m.switch_cache))
        set_cache (m.switch_cache ++ c ∷ [])
        if not (index == sub_size num_cases 1) then pure tt else (do
          taken_constraint ← flush (m.switch_cache ++ c ∷ []) none
          push_taken taken_constraint
          set_cache []))
        m

  -- The calls for the cases from `index` on.
  unfoldable pub push_cases :
      List (CachedPathConstraint Expr) → (index num_cases : ℕ) → Run B (Unit {0})
  push_cases [] index num_cases = pure tt
  push_cases (c ∷ cs) index num_cases =
      push_switch_constraint c index num_cases >> push_cases cs (index + 1) num_cases
