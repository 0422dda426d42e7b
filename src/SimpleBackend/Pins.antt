-- ===== src/SimpleBackend/Pins.antt =====
-- Concretization in runtime/simple_backend/Runtime.cpp, alone and in the memory operations: the
-- solver's assertions, against the concrete values.
use symcc.Common.{
  arith, ℕ, ◌%◌, ◌^◌, ◌≡◌, refl, sym, ◌∙◌, ap, Bool, true, ◌&&◌, Option, none, some, ◌==◌,
}
use symcc.Common.Cmd.{Returns, returns, Returns-bind, Returns-mono}
use symcc.SimpleBackend.{Z3, SimpleState, register_expression}
use symcc.SimpleBackend.Builders.{build_integer, build_binary, equal}
use symcc.SimpleBackend.Laws.{Z3Laws}
use symcc.SimpleBackend.Constraints.{concretize, backend_memcpy}
use symcc.SimpleBackend.Path.{all_hold, Complete, push_path_constraint-Extended}

module _ (Z : Z3) (L : Z3Laws Z) where
  open L use {Env, value, assertions, scopes}

  -- The expression, if there is one, has the value as a number of 64 bits.
  abbrev pub pins : Env → Option ℕ → ℕ → Bool
  pins ρ none v = true
  pins ρ (some e) v = value ρ e == v % 2 ^ 64

  -- The expression, if there is one, is a bit vector of 64 bits, like the number it is compared with.
  abbrev pub HasWord : Option ℕ → Type 0
  HasWord none = Unit {0}
  HasWord (some e) = Z.get_bv_sort_size (Z.get_sort e) ≡ 64

  -- The solver's assertions after a run, against those before it and one condition more.
  abbrev pub Narrowed : (Env → Bool) → SimpleState Z → SimpleState Z → Type 0
  Narrowed condition s s' =
      ((ρ : Env)
        → all_hold Z L ρ (assertions s'.solver)
          ≡ (condition ρ && all_hold Z L ρ (assertions s.solver)))
      × (scopes s'.solver ≡ scopes s.solver)

  register_solver : (e : ℕ) (s : SimpleState Z) → (register_expression Z e s).1.solver ≡ s.solver
  unfolding register_expression
  register_solver e s = ground arith

  equal_solver :
      (e v : ℕ) (s : SimpleState Z)
      → (build_binary Z equal e (build_integer Z v 64 s).0 (build_integer Z v 64 s).1).1.solver
        ≡ s.solver
  unfolding build_integer build_binary
  equal_solver e v s = register_solver _ _ ∙ register_solver _ _

  holds_equal :
      (ρ : Env) (e v : ℕ) (s : SimpleState Z)
      → HasWord (some e)
      → L.holds ρ (build_binary Z equal e (build_integer Z v 64 s).0 (build_integer Z v 64 s).1).0
        ≡ (value ρ e == v % 2 ^ 64)
  unfolding build_integer build_binary register_expression
  holds_equal ρ e v s wide =
      L.holds_eq ρ e _ (wide ∙ sym (L.size_integer v 64))
      ∙ ap (λ n. value ρ e == n) (L.value_integer ρ v 64)

  -- On a run that agrees with the values, concretization of an expression of 64 bits does not fail, and the solver's assertions
  -- hold afterwards under exactly the inputs under which those before held and the expression has the
  -- concrete value, as a number of 64 bits. A null expression changes nothing.
  pub concretize-Narrowed :
      (ρ : Env) (e : Option ℕ) (v site : ℕ) (s : SimpleState Z)
      → HasWord e
      → Complete Z L ρ
      → pins ρ e v ≡ true
      → all_hold Z L ρ (assertions s.solver) ≡ true
      → Returns (λ _ s'. Narrowed (λ σ. pins σ e v) s s') (concretize Z e v site s)
  unfolding concretize
  concretize-Narrowed ρ none v site s wide complete p h = returns (λ σ. refl, refl)
  concretize-Narrowed ρ (some e) v site s wide complete p h =
      let same = equal_solver e v s in
      let t = (build_binary Z equal e (build_integer Z v 64 s).0 (build_integer Z v 64 s).1).1 in
      Returns-mono
        (push_path_constraint-Extended Z L ρ _ true site _ complete (holds_equal ρ e v s wide ∙ p)
          (ap (λ z. all_hold Z L ρ (assertions z)) same ∙ h))
        (λ u s' extended. (
          λ σ.
              extended.0 σ
              ∙ ap (λ b. b && all_hold Z L σ (assertions t.solver)) (holds_equal σ e v s wide)
              ∙ ap (λ z. pins σ (some e) v && all_hold Z L σ (assertions z)) same,
          extended.1 ∙ ap scopes same,
        ))

  abbrev pub all_pins : Env → (sd ss sl : Option ℕ) → (dest src n : ℕ) → Bool
  all_pins ρ sd ss sl dest src n = pins ρ sl n && (pins ρ ss src && pins ρ sd dest)

  -- Conditions that hold for the input keep the assertions true.
  still :
      (ρ : Env) (condition : Env → Bool) (s s' : SimpleState Z)
      → Narrowed condition s s'
      → condition ρ ≡ true
      → all_hold Z L ρ (assertions s.solver) ≡ true
      → all_hold Z L ρ (assertions s'.solver) ≡ true
  still ρ condition s s' narrowed c h =
      narrowed.0 ρ ∙ ap (λ b. b && all_hold Z L ρ (assertions s.solver)) c ∙ h

  Narrowed-trans :
      (c1 c2 : Env → Bool) (s s1 s2 : SimpleState Z)
      → Narrowed c1 s s1
      → Narrowed c2 s1 s2
      → Narrowed (λ σ. c2 σ && c1 σ) s s2
  Narrowed-trans c1 c2 s s1 s2 first second =
      (λ σ. let f = first.0 σ in let r = second.0 σ in ground arith, second.1 ∙ first.1)

  -- On a run that agrees with them, `_sym_backend_memcpy` does not fail, and afterwards the
  -- solver's assertions hold under exactly the inputs under which those before held and the
  -- destination, the source and the length have their concrete values. The expressions of the three,
  -- where there are any, are bit vectors of 64 bits.
  pub backend_memcpy-Narrowed :
      (ρ : Env) (sd ss sl : Option ℕ) (dest src n : ℕ) (s : SimpleState Z)
      → HasWord sd
      → HasWord ss
      → HasWord sl
      → Complete Z L ρ
      → all_pins ρ sd ss sl dest src n ≡ true
      → all_hold Z L ρ (assertions s.solver) ≡ true
      → Returns
          (λ _ s'. Narrowed (λ σ. all_pins σ sd ss sl dest src n) s s')
          (backend_memcpy Z sd ss sl dest src n s)
  unfolding backend_memcpy
  backend_memcpy-Narrowed ρ sd ss sl dest src n s wd ws wl complete p h =
      let pd : pins ρ sd dest ≡ true = ground arith in
      let ps : pins ρ ss src ≡ true = ground arith in
      let pl : pins ρ sl n ≡ true = ground arith in
      Returns-bind (concretize-Narrowed ρ sd dest 0 s wd complete pd h) λ _ s1 first.
        let h1 = still ρ (λ σ. pins σ sd dest) s s1 first pd h in
        Returns-bind (concretize-Narrowed ρ ss src 0 s1 ws complete ps h1) λ _ s2 second.
          let both =
            Narrowed-trans (λ σ. pins σ sd dest) (λ σ. pins σ ss src) s s1 s2 first second in
          let h2 = still ρ (λ σ. pins σ ss src) s1 s2 second ps h1 in
          Returns-mono (concretize-Narrowed ρ sl n 0 s2 wl complete pl h2)
            (λ _ s3 third. Narrowed-trans _ (λ σ. pins σ sl n) s s2 s3 both third)
