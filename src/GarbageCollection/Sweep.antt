-- ===== src/GarbageCollection/Sweep.antt =====
-- The loop of `_sym_collect_garbage` that the backends in runtime/ share: it walks over the set of
-- allocated expressions and erases those that are not reachable.
use symcc.Common.{
  arith, ℕ, ◌≡◌, ◌↔◌, refl, Bool, true, false, not, ◌&&◌, ◌||◌, List, [], ◌∷◌, ◌==◌, if◌then◌else◌,
  Option, Bool-cases, inl, inr, ap, eq_of_==, sym, ◌∙◌,
}
use symcc.Shadow.{Pages}
use symcc.GarbageCollection.{
  ExpressionRegion, contains, insert, collect_reachable_expressions, Reachable,
}
use symcc.GarbageCollection.Reachability.{collect_reachable_expressions-Reachable}

and_false : (b : Bool) → (b && false) ≡ false
and_false true = refl
and_false false = refl

-- What stays, and what is erased.
unfoldable pub sweep : (reachable allocated : List ℕ) → List ℕ × List ℕ
sweep reachable [] = ([], [])
sweep reachable (x ∷ xs) =
    let (kept, erased) = sweep reachable xs in
    if contains reachable x then (x ∷ kept, erased) else (kept, x ∷ erased)

pub contains-insert_lem :
    (set : List ℕ) (x y : ℕ) → contains (insert set y) x ≡ ((x == y) || contains set x)
contains-insert_lem set x y = elim (Bool-cases (contains set y)) [
  | inl h ↦ elim (Bool-cases (x == y)) [
    | inl e ↦ rw (h, eq_of_== x y e, h) (ground arith)
    | inr e ↦ rw (h, e) refl
  ]
  | inr h ↦ rw h refl
]

pub sweep-kept :
    (reachable allocated : List ℕ) (x : ℕ)
    → contains (sweep reachable allocated).0 x ≡ (contains allocated x && contains reachable x)
unfolding sweep
sweep-kept reachable [] x = refl
sweep-kept reachable (y ∷ ys) x =
    let ih = sweep-kept reachable ys x in
    elim (Bool-cases (x == y)) [
      | inl e ↦
          let same = ap (contains reachable) (eq_of_== x y e) in
          elim (Bool-cases (contains reachable y)) [
            | inl h ↦ rw (h, e) (sym (same ∙ h))
            | inr h ↦ rw (h, e, same, h) (ih ∙ rw (same, h) (and_false (contains ys x)))
          ]
      | inr e ↦ elim (Bool-cases (contains reachable y)) [
        | inl h ↦ rw (h, e) ih
        | inr h ↦ rw (h, e) ih
      ]
    ]

pub sweep-erased :
    (reachable allocated : List ℕ) (x : ℕ)
    → contains (sweep reachable allocated).1 x
      ≡ (contains allocated x && not (contains reachable x))
unfolding sweep
sweep-erased reachable [] x = refl
sweep-erased reachable (y ∷ ys) x =
    let ih = sweep-erased reachable ys x in
    elim (Bool-cases (x == y)) [
      | inl e ↦
          let same = ap (contains reachable) (eq_of_== x y e) in
          elim (Bool-cases (contains reachable y)) [
            | inl h ↦ rw (h, e, same, h) (ih ∙ rw (same, h) (and_false (contains ys x)))
            | inr h ↦ rw (h, e) (sym (ap not (same ∙ h)))
          ]
      | inr e ↦ elim (Bool-cases (contains reachable y)) [
        | inl h ↦ rw (h, e) ih
        | inr h ↦ rw (h, e) ih
      ]
    ]

and-eq_true : (a b : Bool) → ((a && b) ≡ true) ↔ ((a ≡ true) × (b ≡ true))
and-eq_true true b = (λ h. (refl, h), λ h. h.1)
and-eq_true false b = (λ h. (h, cc), λ h. h.0)

-- What stays of a set is what is in it and reachable.
pub sweep-Reachable :
    (heap : ℕ → Option ℕ) (regions : List ExpressionRegion) (pages : Pages ℕ) (allocated : List ℕ)
    (x : ℕ)
    → (contains (sweep (collect_reachable_expressions heap regions pages) allocated).0 x ≡ true)
      ↔ ((contains allocated x ≡ true) × Reachable heap regions pages x)
sweep-Reachable heap regions pages allocated x =
    let reachable = collect_reachable_expressions heap regions pages in
    let (found, finds) = collect_reachable_expressions-Reachable heap regions pages x in
    let (apart, together) = and-eq_true (contains allocated x) (contains reachable x) in
    let same = sweep-kept reachable allocated x in
    (λ h. let (a, r) = apart (sym same ∙ h) in (a, found r), λ h. same ∙ together (h.0, finds h.1))
