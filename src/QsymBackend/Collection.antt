-- ===== src/QsymBackend/Collection.antt =====
-- `_sym_collect_garbage` of runtime/qsym_backend/Runtime.cpp: the shared pointers that it drops.
use symcc.Common.{
  arith, ℕ, ◌≤◌, ◌≡◌, ◌↔◌, refl, sym, ap, ◌∙◌, Bool, true, false, Option, none, some, List, [], ◌∷◌,
  ◌==◌, is_some, Bool-cases, inl, inr, eq_of_==, if◌then◌else◌, ltb, length,
}
use symcc.Common.Assoc.{lookup}
use symcc.Shadow.{Pages}
use symcc.GarbageCollection.{ExpressionRegion, contains, collect_reachable_expressions, Reachable}
use symcc.GarbageCollection.Reachability.{collect_reachable_expressions-Reachable}
use symcc.QsymBackend.{Qsym, QsymState}
use symcc.QsymBackend.Requests.{is_registered}
use symcc.QsymBackend.Building.{Owned}

-- The loop over the map: an entry whose key is not reachable is erased.
unfoldable pub erase_unreachable : {V : Type 0} → (reachable : List ℕ) → List (ℕ × V) → List (ℕ × V)
erase_unreachable reachable [] = []
erase_unreachable reachable ((key, value) ∷ rest) =
    let kept = erase_unreachable reachable rest in
    if contains reachable key then (key, value) ∷ kept else kept

lookup-erase_unreachable :
    {V : Type 0} (reachable : List ℕ) (entries : List (ℕ × V)) (x : ℕ)
    → lookup x (erase_unreachable reachable entries)
      ≡ (if contains reachable x then lookup x entries else none)
unfolding erase_unreachable
lookup-erase_unreachable reachable [] x = ground arith
lookup-erase_unreachable reachable ((key, value) ∷ rest) x =
    let ih = lookup-erase_unreachable reachable rest x in
    elim (Bool-cases (key == x)) [
      | inl same ↦
          let c : contains reachable x ≡ contains reachable key =
            ap (contains reachable) (sym (eq_of_== key x same)) in
          elim (Bool-cases (contains reachable key)) [
            | inl y ↦ rw (y, same, c, y) refl
            | inr n ↦ rw (n, same, c, n) (ih ∙ rw (c, n) refl)
          ]
      | inr other ↦ elim (Bool-cases (contains reachable key)) [
        | inl y ↦ rw (y, other) ih
        | inr n ↦ rw (n, other) ih
      ]
    ]

module _ {V : Type 0} where
  if-some : (b : Bool) (o : Option V) (r : V) → (if b then o else none) ≡ some r → o ≡ some r
  if-some true o r h = h
  if-some false o r h = cc

  if-is_some :
      (b : Bool) (o : Option V)
      → (is_some (if b then o else none) ≡ true) ↔ ((is_some o ≡ true) × (b ≡ true))
  if-is_some true o = (λ h. (h, refl), λ h. h.0)
  if-is_some false o = (λ h. cc, λ h. h.1)

module _ (Q : Qsym) where
  -- The threshold comes from the configuration, and `heap`, `regions` and `pages` are what the search
  -- looks at.
  unfoldable pub collect_garbage :
      (threshold : ℕ) → (ℕ → Option ℕ) → List ExpressionRegion → Pages ℕ → QsymState Q → QsymState Q
  collect_garbage threshold heap regions pages s =
      if ltb (length s.allocated_expressions) threshold then s else record s {
        allocated_expressions =
            erase_unreachable (collect_reachable_expressions heap regions pages)
              s.allocated_expressions;
      }

  -- A collection that is due: exactly the registered expressions that are reachable stay registered,
  -- with the shared pointers that they had, so each still stands under its own raw pointer.
  pub collect_garbage-Owned :
      (threshold : ℕ) (heap : ℕ → Option ℕ) (regions : List ExpressionRegion) (pages : Pages ℕ)
      (s : QsymState Q)
      → threshold ≤ length s.allocated_expressions
      → Owned Q s
      → Owned Q (collect_garbage threshold heap regions pages s)
        × ((x : ℕ)
            → (is_registered Q (collect_garbage threshold heap regions pages s) x ≡ true)
              ↔ ((is_registered Q s x ≡ true) × Reachable heap regions pages x))
  unfolding collect_garbage
  collect_garbage-Owned threshold heap regions pages s many owned =
      let due : ltb (length s.allocated_expressions) threshold ≡ false = ground (arith, many) in
      let reachable = collect_reachable_expressions heap regions pages in
      let l = lookup-erase_unreachable reachable s.allocated_expressions in
      rw due (
        λ x ref h. owned x ref (if-some (contains reachable x) _ ref (sym (l x) ∙ h)),
        λ x.
            let (found, finds) = collect_reachable_expressions-Reachable heap regions pages x in
            let (apart, together) =
              if-is_some (contains reachable x) (lookup x s.allocated_expressions) in
            let same = ap is_some (l x) in
            (
              λ h. let (known, there) = apart (sym same ∙ h) in (known, found there),
              λ h. same ∙ together (h.0, finds h.1),
            ),
      )
