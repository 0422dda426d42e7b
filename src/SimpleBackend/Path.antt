-- ===== src/SimpleBackend/Path.antt =====
-- `_sym_push_path_constraint` of runtime/simple_backend/Runtime.cpp: the solver's assertions, against
-- the branches that the program has taken.
use symcc.Common.{
  arith, ℕ, ◌≡◌, refl, sym, ap, ◌∙◌, Bool, true, false, not, ◌&&◌, Option, none, some, List, [],
  ◌∷◌, if◌then◌else◌, Bool-cases, inl, inr,
}
use symcc.Common.Cmd.{pure, require, ◌>>◌, Returns, returns, Returns-bind, Returns-mono}
use symcc.SimpleBackend.{Z3, SimpleState, z3_not, inc_ref, dec_ref}
use symcc.SimpleBackend.Laws.{Z3Laws}
use symcc.SimpleBackend.Constraints.{
  SimpleRun, update, is_l_true, try_alternative, push_path_constraint,
}

-- A constraint, whether its branch was taken, and where.
abbrev pub Branch : Type 0
Branch = Option ℕ × Bool × ℕ

module _ (Z : Z3) (L : Z3Laws Z) where
  open L use {Env, holds, assertions, scopes}

  abbrev pub all_hold : Env → List ℕ → Bool
  all_hold ρ [] = true
  all_hold ρ (c ∷ cs) = holds ρ c && all_hold ρ cs

  -- An input under which the program takes the branch in the same way; a concrete branch asks for
  -- nothing.
  abbrev pub agrees : Env → Option ℕ → Bool → Bool
  agrees ρ none taken = true
  agrees ρ (some c) taken = if taken then holds ρ c else not (holds ρ c)

  abbrev pub follows : Env → List Branch → Bool
  follows ρ [] = true
  follows ρ ((c, taken, site) ∷ path) = follows ρ path && agrees ρ c taken

  abbrev pub push_all : List Branch → SimpleRun Z (Unit {0})
  push_all [] = pure tt
  push_all ((c, taken, site) ∷ path) = push_path_constraint Z c taken site >> push_all path

  -- The solver answers that a set of assertions that holds for the input can be satisfied.
  abbrev pub Complete : Env → Type 0
  Complete ρ =
      (z : Z.Solver) → all_hold ρ (assertions z) ≡ true → is_l_true (Z.solver_check z).0 ≡ true

  try_alternative-keeps :
      (e : ℕ) (s : SimpleState Z)
      → Returns
          (λ _ s'.
            (assertions s'.solver ≡ assertions s.solver) × (scopes s'.solver ≡ scopes s.solver))
          (try_alternative Z e s)
  unfolding try_alternative
  try_alternative-keeps e s =
      let z = Z.solver_assert e (Z.solver_push s.solver) in
      let saved : scopes (Z.solver_check z).1 ≡ assertions s.solver ∷ scopes s.solver =
        L.scopes_check z ∙ L.scopes_assert e (Z.solver_push s.solver) ∙ L.scopes_push s.solver in
      returns (
        L.assertions_pop (Z.solver_check z).1 (assertions s.solver) (scopes s.solver) saved,
        L.scopes_pop (Z.solver_check z).1 (assertions s.solver) (scopes s.solver) saved,
      )

  -- The constraint that is asserted for a branch.
  abbrev asserted : ℕ → Bool → ℕ
  asserted c taken = if taken then Z.simplify c else Z.simplify (Z.mk_unary z3_not (Z.simplify c))

  holds-asserted :
      (ρ : Env) (c : ℕ) (taken : Bool) → holds ρ (asserted c taken) ≡ agrees ρ (some c) taken
  holds-asserted ρ c true = L.holds_simplify ρ c
  holds-asserted ρ c false =
      L.holds_simplify ρ (Z.mk_unary z3_not (Z.simplify c))
      ∙ L.holds_not ρ (Z.simplify c)
      ∙ ap not (L.holds_simplify ρ c)

  -- The state after a branch, against the one before it.
  abbrev pub Extended : Option ℕ → Bool → SimpleState Z → SimpleState Z → Type 0
  Extended c taken s s' =
      ((ρ : Env)
        → all_hold ρ (assertions s'.solver)
          ≡ (agrees ρ c taken && all_hold ρ (assertions s.solver)))
      × (scopes s'.solver ≡ scopes s.solver)

  simplified_true :
      (c : ℕ) → Z.is_eq_ast (Z.simplify c) Z.mk_true ≡ true → (σ : Env) → holds σ c ≡ true
  simplified_true c e σ =
      sym (L.holds_simplify σ c)
      ∙ ap (holds σ) (L.eq_of_is_eq_ast (Z.simplify c) Z.mk_true e)
      ∙ L.holds_true σ

  simplified_false :
      (c : ℕ) → Z.is_eq_ast (Z.simplify c) Z.mk_false ≡ true → (σ : Env) → holds σ c ≡ false
  simplified_false c e σ =
      sym (L.holds_simplify σ c)
      ∙ ap (holds σ) (L.eq_of_is_eq_ast (Z.simplify c) Z.mk_false e)
      ∙ L.holds_false σ

  -- The solver with the asserted constraint finds its assertions satisfiable.
  asserted-ok :
      (ρ : Env) (c : ℕ) (taken : Bool) (z z1 : Z.Solver)
      → Complete ρ
      → agrees ρ (some c) taken ≡ true
      → all_hold ρ (assertions z) ≡ true
      → assertions z1 ≡ assertions z
      → is_l_true (Z.solver_check (Z.solver_assert (asserted c taken) z1)).0 ≡ true
  asserted-ok ρ c taken z z1 complete a h same = complete (Z.solver_assert (asserted c taken) z1) (
      rw (L.assertions_assert (asserted c taken) z1, same)
        (ap (λ b. b && all_hold ρ (assertions z)) (holds-asserted ρ c taken ∙ a) ∙ h))

  after_assert :
      (c : ℕ) (taken : Bool) (z z1 : Z.Solver)
      → assertions z1 ≡ assertions z
      → (σ : Env)
      → all_hold σ (assertions (Z.solver_check (Z.solver_assert (asserted c taken) z1)).1)
        ≡ (agrees σ (some c) taken && all_hold σ (assertions z))
  after_assert c taken z z1 same σ =
      ap (all_hold σ) (
        L.assertions_check (Z.solver_assert (asserted c taken) z1)
        ∙ L.assertions_assert (asserted c taken) z1
        ∙ ap (λ l. asserted c taken ∷ l) same)
      ∙ ap (λ b. b && all_hold σ (assertions z)) (holds-asserted σ c taken)

  pub push_path_constraint-Extended :
      (ρ : Env) (c : Option ℕ) (taken : Bool) (site : ℕ) (s : SimpleState Z)
      → Complete ρ
      → agrees ρ c taken ≡ true
      → all_hold ρ (assertions s.solver) ≡ true
      → Returns (λ _ s'. Extended c taken s s') (push_path_constraint Z c taken site s)
  unfolding push_path_constraint
  push_path_constraint-Extended ρ none taken site s complete a h = returns (λ σ. refl, refl)
  push_path_constraint-Extended ρ (some c) taken site s complete a h =
      elim (Bool-cases (Z.is_eq_ast (Z.simplify c) Z.mk_true)) [
        | inl t ↦ rw t (easy taken true (simplified_true c t) a)
        | inr nt ↦ elim (Bool-cases (Z.is_eq_ast (Z.simplify c) Z.mk_false)) [
          | inl f ↦ rw (nt, f) (easy taken false (simplified_false c f) a)
          | inr nf ↦
              rw (nt, nf)
                (Returns-bind
                  (try_alternative-keeps
                    (if taken then Z.simplify (Z.mk_unary z3_not (Z.simplify c)) else Z.simplify c)
                    _)
                  (λ u s1 kept.
                    let ok = asserted-ok ρ c taken s.solver s1.solver complete a h kept.0 in
                    rw ok (
                      returns (
                        after_assert c taken s.solver s1.solver kept.0,
                        L.scopes_check (Z.solver_assert (asserted c taken) s1.solver)
                            ∙ L.scopes_assert (asserted c taken) s1.solver
                            ∙ kept.1,
                      ))))
        ]
      ]
    where
      easy :
          (taken b : Bool)
          → ((σ : Env) → holds σ c ≡ b)
          → agrees ρ (some c) taken ≡ true
          → Returns
              (λ _ s'. Extended (some c) taken s s')
              ((require (if b then taken else not taken) >> update Z (dec_ref Z (Z.simplify c)))
                (inc_ref Z (Z.simplify c) s))
      easy true true same a = returns (λ σ. rw (same σ) refl, refl)
      easy false false same a = returns (λ σ. rw (same σ) refl, refl)
      easy true false same a = absurd (ground (arith, same ρ))
      easy false true same a = absurd (ground (arith, same ρ))

  -- The states from which a path can be pushed, against the one after it.
  abbrev pub Asserts : List Branch → SimpleState Z → SimpleState Z → Type 0
  Asserts path s s' =
      ((ρ : Env)
        → all_hold ρ (assertions s'.solver) ≡ (follows ρ path && all_hold ρ (assertions s.solver)))
      × (scopes s'.solver ≡ scopes s.solver)

  Asserts-cons :
      (c : Option ℕ) (taken : Bool) (site : ℕ) (path : List Branch) (s s1 s2 : SimpleState Z)
      → Extended c taken s s1
      → Asserts path s1 s2
      → Asserts ((c, taken, site) ∷ path) s s2
  Asserts-cons c taken site path s s1 s2 first rest =
      (λ σ. let f = first.0 σ in let r = rest.0 σ in ground arith, rest.1 ∙ first.1)

  -- Under an input whose run has taken a path of branches, no assertion of the backend fails when the
  -- branches are pushed, provided that the solver answers that assertions which hold under this input
  -- are satisfiable. Afterwards the solver's assertions hold under exactly the inputs under which those
  -- before held and the program takes every branch of the path in the same way; the attempts at the
  -- other branches leave nothing behind, and no scope stays open.
  pub push_all-follows :
      (ρ : Env) (path : List Branch) (s : SimpleState Z)
      → Complete ρ
      → follows ρ path ≡ true
      → all_hold ρ (assertions s.solver) ≡ true
      → Returns (λ _ s'. Asserts path s s') (push_all path s)
  push_all-follows ρ [] s complete f h = returns (λ σ. refl, refl)
  push_all-follows ρ ((c, taken, site) ∷ path) s complete f h =
      let a : agrees ρ c taken ≡ true = ground arith in
      let g : follows ρ path ≡ true = ground arith in
      Returns-bind (push_path_constraint-Extended ρ c taken site s complete a h) λ _ s1 first.
        let h1 : all_hold ρ (assertions s1.solver) ≡ true =
          first.0 ρ ∙ ap (λ b. b && all_hold ρ (assertions s.solver)) a ∙ h in
        Returns-mono (push_all-follows ρ path s1 complete g h1)
          (λ _ s2 rest. Asserts-cons c taken site path s s1 s2 first rest)
