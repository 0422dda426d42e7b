-- ===== src/Runtime/Switch/Order.antt =====
-- The order in which `_sym_push_switch_constraint` of runtime/RuntimeCommon.cpp passes the
-- constraints of a switch to the backend.
use mathlib.Core.List.{append_assoc}
use symcc.Common.{
  arith, refl, sym, ap, ◌∙◌, ℕ, suc, ◌+◌, ◌≤◌, ◌<◌, ◌≡◌, Bool, true, false, not, Option, none, some,
  List, [], ◌∷◌, ◌++◌, ◌==◌, if◌then◌else◌, length, length-append,
}
use symcc.Common.Cmd.{Cmd, and_then, pure, ◌>>=◌, ◌>>◌, when, require, advance}
use symcc.Backend.{Backend}
use symcc.Runtime.{Machine, Run, CachedPathConstraint, cached, sub_size}
use symcc.Runtime.Switch.{
  push, flush, push_taken, set_cache, push_switch_constraint, push_cases, is_empty,
}
use symcc.Shadow.{word_mod}

-- The constraints that are not taken, in their order.
unfoldable pub not_taken :
    {E : Type 0} → List (CachedPathConstraint E) → List (CachedPathConstraint E)
not_taken [] = []
not_taken (cached e true i ∷ cs) = not_taken cs
not_taken (cached e false i ∷ cs) = cached e false i ∷ not_taken cs

-- The first constraint that is taken.
unfoldable pub taken_one :
    {E : Type 0} → List (CachedPathConstraint E) → Option (CachedPathConstraint E)
taken_one [] = none
taken_one (cached e true i ∷ cs) = some (cached e true i)
taken_one (cached e false i ∷ cs) = taken_one cs

unfoldable pub taken_count : {E : Type 0} → List (CachedPathConstraint E) → ℕ
taken_count [] = 0
taken_count (cached e true i ∷ cs) = suc (taken_count cs)
taken_count (cached e false i ∷ cs) = taken_count cs

and_then_assoc :
    {S A C D : Type 0} (r : Option (A × S)) (f : A → Cmd S C) (g : C → Cmd S D)
    → and_then (and_then r f) g ≡ and_then r (λ a s. and_then (f a s) g)
and_then_assoc none f g = refl
and_then_assoc (some (a, s)) f g = refl

and_then-congr :
    {S A C : Type 0} (r : Option (A × S)) (f g : A → Cmd S C)
    → ((a : A) (s : S) → f a s ≡ g a s)
    → and_then r f ≡ and_then r g
and_then-congr none f g h = refl
and_then-congr (some (a, s)) f g h = h a s

and_then-pure : {S : Type 0} (r : Option (Unit {0} × S)) → and_then r (λ a. pure tt) ≡ r
and_then-pure none = refl
and_then-pure (some (a, s)) = refl

and_then-none :
    {S A C : Type 0} (r : Option (A × S)) (f : A → Cmd S C)
    → ((a : A) (s : S) → f a s ≡ none)
    → and_then r f ≡ none
and_then-none none f h = refl
and_then-none (some (a, s)) f h = h a s

abbrev bind : {S T : Type 0} → Option S → (S → Option T) → Option T
bind none k = none
bind (some s) k = k s

bind-congr :
    {S T : Type 0} (r : Option S) (f g : S → Option T) → ((s : S) → f s ≡ g s) → bind r f ≡ bind r g
bind-congr none f g h = refl
bind-congr (some s) f g h = h s

bind_assoc :
    {S T U : Type 0} (r : Option S) (f : S → Option T) (g : T → Option U)
    → bind (bind r f) g ≡ bind r (λ s. bind (f s) g)
bind_assoc none f g = refl
bind_assoc (some s) f g = refl

advance-bind :
    {S T : Type 0} (r : Option T) (p k : T → S) (q : T → Option T) (f : Unit {0} → Cmd S (Unit {0}))
    → ((t : T) → f tt (p t) ≡ advance (q t) k)
    → and_then (advance r p) f ≡ advance (bind r q) k
advance-bind none p k q f h = refl
advance-bind (some t) p k q f h = h t

abbrev to_list : {A : Type 0} → Option A → List A
to_list none = []
to_list (some a) = a ∷ []

module _ (B : Backend) where
  open B use {Expr}

  -- The constraints in the given order.
  unfoldable pub push_all : List (CachedPathConstraint Expr) → Run B (Unit {0})
  push_all [] = pure tt
  push_all (c ∷ cs) = push B c >> push_all cs

  flush-some :
      (cs : List (CachedPathConstraint Expr)) (c : CachedPathConstraint Expr) (m : Machine B)
      → taken_count cs ≡ 0
      → flush B cs (some c) m ≡ (push_all (not_taken cs) >> pure (some c)) m
  unfolding flush push_all not_taken taken_count
  flush-some [] c m h = refl
  flush-some (cached e true k ∷ ds) c m h = absurd (omega arith)
  flush-some (cached e false k ∷ ds) c m h =
      and_then-congr (push B (cached e false k) m) _ _ (λ u t. flush-some ds c t h)
      ∙ sym (and_then_assoc (push B (cached e false k) m) _ _)

  -- The loop of a call that completes the cache, when at most one constraint is taken.
  flush_lem :
      (cs : List (CachedPathConstraint Expr)) (m : Machine B)
      → taken_count cs ≤ 1
      → flush B cs none m ≡ (push_all (not_taken cs) >> pure (taken_one cs)) m
  unfolding flush push_all not_taken taken_one taken_count
  flush_lem [] m h = refl
  flush_lem (cached e true k ∷ ds) m h = flush-some ds (cached e true k) m (omega arith)
  flush_lem (cached e false k ∷ ds) m h =
      and_then-congr (push B (cached e false k) m) _ _ (λ u t. flush_lem ds t h)
      ∙ sym (and_then_assoc (push B (cached e false k) m) _ _)

  -- A second taken constraint stops the loop.
  flush-some-twice :
      (cs : List (CachedPathConstraint Expr)) (c : CachedPathConstraint Expr) (m : Machine B)
      → 0 < taken_count cs
      → flush B cs (some c) m ≡ none
  unfolding flush taken_count
  flush-some-twice [] c m h = absurd (omega arith)
  flush-some-twice (cached e true k ∷ ds) c m h = refl
  flush-some-twice (cached e false k ∷ ds) c m h =
      and_then-none (push B (cached e false k) m) _ (λ u t. flush-some-twice ds c t h)

  flush-twice :
      (cs : List (CachedPathConstraint Expr)) (m : Machine B)
      → 1 < taken_count cs
      → flush B cs none m ≡ none
  unfolding flush taken_count
  flush-twice [] m h = absurd (omega arith)
  flush-twice (cached e true k ∷ ds) m h = flush-some-twice ds (cached e true k) m (omega arith)
  flush-twice (cached e false k ∷ ds) m h =
      and_then-none (push B (cached e false k) m) _ (λ u t. flush-twice ds t h)

  -- One constraint passed to the backend, and several one after the other, up to the first call that
  -- fails.
  abbrev push_one : CachedPathConstraint Expr → B.State → Option B.State
  push_one (cached e b i) s = B.push_path_constraint e b i s

  unfoldable pub push_onto : List (CachedPathConstraint Expr) → B.State → Option B.State
  push_onto [] s = some s
  push_onto (c ∷ cs) s = bind (push_one c s) (push_onto cs)

  push_onto-append :
      (xs ys : List (CachedPathConstraint Expr)) (s : B.State)
      → push_onto (xs ++ ys) s ≡ bind (push_onto xs s) (push_onto ys)
  unfolding push_onto
  push_onto-append [] ys s = refl
  push_onto-append (c ∷ cs) ys s =
      bind-congr (push_one c s) _ _ (λ t. push_onto-append cs ys t)
      ∙ sym (bind_assoc (push_one c s) _ _)

  push_all_lem :
      (cs : List (CachedPathConstraint Expr)) (m : Machine B)
      → push_all cs m ≡ advance (push_onto cs m.backend) (λ t. record m { backend = t })
  unfolding push_all push_onto
  push_all_lem [] m = refl
  push_all_lem (cached e b i ∷ cs) m =
      advance-bind (B.push_path_constraint e b i m.backend) _ _ _ _
        (λ t. push_all_lem cs (record m { backend = t }))

  -- The constraints of a switch in the order of the backend's calls: those not taken first.
  abbrev pub in_order : List (CachedPathConstraint Expr) → List (CachedPathConstraint Expr)
  in_order cs = not_taken cs ++ to_list (taken_one cs)

  -- What the last call of a switch does once the cache is complete.
  abbrev complete : List (CachedPathConstraint Expr) → Run B (Unit {0})
  complete cs = flush B cs none >>= λ t. push_taken B t >> set_cache B []

  finish :
      (r : Option B.State) (c : Option (CachedPathConstraint Expr)) (m : Machine B)
      → and_then
          (and_then (advance r (λ t. record m { backend = t })) (λ u. pure c))
          (λ t. push_taken B t >> set_cache B [])
        ≡ advance
            (bind r (push_onto (to_list c)))
            (λ t. record m { backend = t; switch_cache = [] })
  unfolding push_onto
  finish none c m = refl
  finish (some t) none m = refl
  finish (some t) (some (cached e b i)) m = finish_one (B.push_path_constraint e b i t)
    where
      finish_one :
          (r : Option B.State)
          → and_then (advance r (λ t. record m { backend = t })) (λ u. set_cache B [])
            ≡ advance (bind r some) (λ t. record m { backend = t; switch_cache = [] })
      finish_one none = refl
      finish_one (some t) = refl

  complete_lem :
      (cs : List (CachedPathConstraint Expr)) (m : Machine B)
      → taken_count cs ≤ 1
      → complete cs m
        ≡ advance
            (push_onto (in_order cs) m.backend)
            (λ t. record m { backend = t; switch_cache = [] })
  complete_lem cs m h =
      rw (flush_lem cs m h, push_all_lem (not_taken cs) m)
        (finish (push_onto (not_taken cs) m.backend) (taken_one cs) m)
      ∙ ap (λ r. advance r (λ t. record m { backend = t; switch_cache = [] }))
          (sym (push_onto-append (not_taken cs) (to_list (taken_one cs)) m.backend))

  at_cache : Machine B → List (CachedPathConstraint Expr) → Machine B
  at_cache m cs = record m { switch_cache = cs }

  -- The assertion of a first call.
  start_lem :
      (pre : List (CachedPathConstraint Expr)) (m : Machine B) (i : ℕ)
      → i ≡ length pre
      → when (i == 0) (require (is_empty pre)) m ≡ some (tt, m)
  start_lem [] m i h = rw h refl
  start_lem (c ∷ cs) m i h = let later : (i == 0) ≡ false = ground (arith, h) in rw later refl

  push_lem :
      (c : CachedPathConstraint Expr) (pre : List (CachedPathConstraint Expr)) (m : Machine B)
      (i n : ℕ) (last : Bool)
      → i ≡ length pre
      → (i == sub_size n 1) ≡ last
      → push_switch_constraint B c i n (at_cache m pre)
        ≡ (if not last then pure tt else complete (pre ++ c ∷ [])) (at_cache m (pre ++ c ∷ []))
  unfolding push_switch_constraint at_cache
  push_lem c pre m i n last h e = rw (start_lem pre (at_cache m pre) i h, e) refl

  -- The calls for the cases that are left, when those before them are in the cache.
  push_cases_lem :
      (c : CachedPathConstraint Expr) (pre cs : List (CachedPathConstraint Expr)) (m : Machine B)
      (i n : ℕ)
      → i ≡ length pre
      → n ≡ length pre + suc (length cs)
      → n < word_mod
      → push_cases B (c ∷ cs) i n (at_cache m pre)
        ≡ complete (pre ++ c ∷ cs) (at_cache m (pre ++ c ∷ cs))
  unfolding push_cases
  push_cases_lem c pre [] m i n hi hn small =
      rw (push_lem c pre m i n true hi (ground arith)) (and_then-pure (complete (pre ++ c ∷ []) _))
  push_cases_lem c pre (d ∷ ds) m i n hi hn small =
      rw (push_lem c pre m i n false hi (ground arith)) (
        push_cases_lem d (pre ++ c ∷ []) ds m (i + 1) n (omega (arith, length-append pre (c ∷ [])))
          (omega (arith, length-append pre (c ∷ []))) small
        ∙ ap (λ all. complete all (at_cache m all)) (append_assoc pre (c ∷ []) (d ∷ ds)))

  -- The calls for the cases of a switch from an empty cache, when there is at least one case,
  -- fewer than 2^64 and at most one of them taken: the backend gets the constraints that are not
  -- taken, in the order of the cases, and after them the taken one; the cache is empty again, and
  -- nothing else changes. A failure of one of the backend's calls is one of the whole.
  pub push_cases-in_order :
      (m : Machine B) (cs : List (CachedPathConstraint Expr))
      → m.switch_cache ≡ []
      → 0 < length cs
      → length cs < word_mod
      → taken_count cs ≤ 1
      → push_cases B cs 0 (length cs) m
        ≡ advance
            (push_onto (in_order cs) m.backend)
            (λ t. record m { backend = t; switch_cache = [] })
  unfolding at_cache
  push_cases-in_order m [] empty some_case small h = absurd (omega arith)
  push_cases-in_order m (c ∷ cs) empty some_case small h =
      ap (push_cases B (c ∷ cs) 0 (length (c ∷ cs))) (ap (at_cache m) empty)
      ∙ push_cases_lem c [] cs m 0 (length (c ∷ cs)) refl (omega arith) small
      ∙ complete_lem (c ∷ cs) (at_cache m (c ∷ cs)) h

  -- The calls for the cases of a switch, fewer than 2^64, from an empty cache, when at least two
  -- of them are taken: the run stops without a result, by the assertion or by a failure of the
  -- backend before it.
  pub push_cases-twice :
      (m : Machine B) (cs : List (CachedPathConstraint Expr))
      → m.switch_cache ≡ []
      → length cs < word_mod
      → 1 < taken_count cs
      → push_cases B cs 0 (length cs) m ≡ none
  unfolding at_cache taken_count
  push_cases-twice m [] empty small h = absurd (omega arith)
  push_cases-twice m (c ∷ cs) empty small h =
      ap (push_cases B (c ∷ cs) 0 (length (c ∷ cs))) (ap (at_cache m) empty)
      ∙ push_cases_lem c [] cs m 0 (length (c ∷ cs)) refl (omega arith) small
      ∙ rw (flush-twice (c ∷ cs) (at_cache m (c ∷ cs)) h) refl
