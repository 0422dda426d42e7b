-- ===== src/GarbageCollection/Reachability.antt =====
-- `collectReachableExpressions` of runtime/GarbageCollection.cpp finds the expressions that are
-- reachable, and no others.
use mathlib.Core.Option.{some-injective, none-ne-some}
use symcc.Common.{
  arith, ℕ, zero, suc, ◌+◌, ◌<◌, ◌≤◌, ◌≡◌, ◌⊎◌, ◌↔◌, inl, inr, refl, sym, ap, subst, ◌∙◌, true,
  Option, none, some, List, [], ◌∷◌, ◌==◌, get_elem?, Bool-cases, ==_refl, eq_of_==,
}
use symcc.Shadow.{Pages, Region}
use symcc.GarbageCollection.{
  ExpressionRegion, contains, add, collect_block, region_cells, region_length, page_length,
  page_cells, collect_each, collect_reachable_expressions, Reachable, in_region, in_shadow,
}

-- The cells of a block from `i` on, `n` of them, hold the expression somewhere.
abbrev InBlock : ℕ → Region ℕ → ℕ → ℕ → Type 0
InBlock n cells i x = (j : ℕ) × (i ≤ j) × (j < i + n) × (cells j ≡ some x)

contains-add :
    (set : List ℕ) (c : Option ℕ) (x : ℕ)
    → contains (add set c) x ≡ true
    → (contains set x ≡ true) ⊎ (c ≡ some x)
contains-add set none x h = inl h
contains-add set (some y) x h = elim (Bool-cases (contains set y)) [
  | inl k ↦ inl (ground arith)
  | inr k ↦ elim (Bool-cases (x == y)) [
    | inl e ↦ inr (ap some (sym (eq_of_== x y e)))
    | inr e ↦ inl (ground arith)
  ]
]

-- What is in the set stays there, and what is added is there afterwards.
contains-add_old :
    (set : List ℕ) (c : Option ℕ) (x : ℕ) → contains set x ≡ true → contains (add set c) x ≡ true
contains-add_old set none x h = h
contains-add_old set (some y) x h = elim (Bool-cases (contains set y)) [
  | inl k ↦ rw k h
  | inr k ↦ ground arith
]

contains-add_new : (set : List ℕ) (x : ℕ) → contains (add set (some x)) x ≡ true
contains-add_new set x = elim (Bool-cases (contains set x)) [
  | inl k ↦ ground arith
  | inr k ↦ rw k (rw (==_refl x) refl)
]

collect_block-found :
    (n : ℕ) (cells : Region ℕ) (i x : ℕ) (set : List ℕ)
    → contains (collect_block n cells i set) x ≡ true
    → (contains set x ≡ true) ⊎ InBlock n cells i x
unfolding collect_block
collect_block-found zero cells i x set h = inl h
collect_block-found (suc n) cells i x set h =
    elim (collect_block-found n cells (i + 1) x (add set (cells i)) h) [
      | inr (j, p, q, e) ↦ inr (j, omega arith, omega arith, e)
      | inl k ↦ elim (contains-add set (cells i) x k) [
        | inl old ↦ inl old
        | inr new ↦ inr (i, omega arith, omega arith, new)
      ]
    ]

collect_block-keeps :
    (n : ℕ) (cells : Region ℕ) (i x : ℕ) (set : List ℕ)
    → contains set x ≡ true
    → contains (collect_block n cells i set) x ≡ true
unfolding collect_block
collect_block-keeps zero cells i x set h = h
collect_block-keeps (suc n) cells i x set h =
    collect_block-keeps n cells (i + 1) x (add set (cells i)) (contains-add_old set (cells i) x h)

collect_block-finds :
    (n : ℕ) (cells : Region ℕ) (i j x : ℕ) (set : List ℕ)
    → i ≤ j
    → j < i + n
    → cells j ≡ some x
    → contains (collect_block n cells i set) x ≡ true
unfolding collect_block
collect_block-finds zero cells i j x set p q e = absurd (omega arith)
collect_block-finds (suc n) cells i j x set p q e = elim (Bool-cases (i == j)) [
  | inl same ↦
      let here : cells i ≡ some x = ap cells (eq_of_== i j same) ∙ e in
      collect_block-keeps n cells (i + 1) x (add set (cells i)) (rw here (contains-add_new set x))
  | inr other ↦
      collect_block-finds n cells (i + 1) j x (add set (cells i)) (ground arith) (omega arith) e
]

module _ {A : Type 0} (length : A → ℕ) (cells : A → Region ℕ) (x : ℕ) where
  -- Some element of the list has the expression in its block.
  abbrev InSome : List A → Type 0
  InSome xs = (k : ℕ) × (a : A) × (get_elem? xs k ≡ some a) × InBlock (length a) (cells a) 0 x

  collect_each-found :
      (xs : List A) (set : List ℕ)
      → contains (collect_each length cells xs set) x ≡ true
      → (contains set x ≡ true) ⊎ InSome xs
  unfolding collect_each
  collect_each-found [] set h = inl h
  collect_each-found (a ∷ xs) set h =
      elim (collect_each-found xs (collect_block (length a) (cells a) 0 set) h) [
        | inr (k, s, e, b) ↦ inr (suc k, s, e, b)
        | inl k ↦ elim (collect_block-found (length a) (cells a) 0 x set k) [
          | inl old ↦ inl old
          | inr b ↦ inr (0, a, refl, b)
        ]
      ]

  collect_each-keeps :
      (xs : List A) (set : List ℕ)
      → contains set x ≡ true
      → contains (collect_each length cells xs set) x ≡ true
  unfolding collect_each
  collect_each-keeps [] set h = h
  collect_each-keeps (a ∷ xs) set h =
      collect_each-keeps xs _ (collect_block-keeps (length a) (cells a) 0 x set h)

  collect_each-finds :
      (xs : List A) (set : List ℕ) (k : ℕ) (a : A)
      → get_elem? xs k ≡ some a
      → InBlock (length a) (cells a) 0 x
      → contains (collect_each length cells xs set) x ≡ true
  unfolding collect_each
  collect_each-finds [] set k a e b = absurd (none-ne-some a e)
  collect_each-finds (c ∷ xs) set zero a e (j, p, q, h) = collect_each-keeps xs _ (
      collect_block-finds (length c) (cells c) 0 j x set p
        (subst (λ d. j < 0 + length d) (sym (some-injective c a e)) q)
        (ap (λ d. cells d j) (some-injective c a e) ∙ h))
  collect_each-finds (c ∷ xs) set (suc k) a e b =
      collect_each-finds xs (collect_block (length c) (cells c) 0 set) k a e b

-- The set that `collectReachableExpressions` returns holds an expression exactly when it is
-- reachable: it stands in a registered region or in a shadow page.
pub collect_reachable_expressions-Reachable :
    (heap : ℕ → Option ℕ) (regions : List ExpressionRegion) (pages : Pages ℕ) (x : ℕ)
    → (contains (collect_reachable_expressions heap regions pages) x ≡ true)
      ↔ Reachable heap regions pages x
unfolding collect_reachable_expressions
collect_reachable_expressions-Reachable heap regions pages x = (
  λ h. elim (collect_each-found page_length page_cells x pages _ h) [
    | inr (k, m, e, b) ↦ in_shadow k b.0 m e (omega (arith, b.2)) b.3
    | inl h' ↦ elim (collect_each-found region_length (region_cells heap) x regions [] h') [
      | inr (k, r, e, b) ↦ in_region k b.0 r e (omega (arith, b.2)) b.3
      | inl impossible ↦ absurd (ground arith)
    ]
  ],
  elim [
    | in_region k i r e q c ↦ collect_each-keeps page_length page_cells x pages _ (
        collect_each-finds region_length (region_cells heap) x regions [] k r e
          (i, omega arith, omega arith, c))
    | in_shadow k i m e q c ↦
        collect_each-finds page_length page_cells x pages _ k m e (i, omega arith, omega arith, c)
  ],
)
