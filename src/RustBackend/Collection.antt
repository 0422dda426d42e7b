-- ===== src/RustBackend/Collection.antt =====
-- `_sym_collect_garbage` of runtime/rust_backend/Runtime.cpp.
use symcc.Common.{
  arith, ℕ, ◌≡◌, ◌≤◌, ◌↔◌, refl, true, false, not, ◌&&◌, Option, some, List, [], ◌∷◌, map, length,
  ltb, if◌then◌else◌,
}
use symcc.Common.Cmd.{when}
use symcc.Shadow.{Pages}
use symcc.GarbageCollection.{ExpressionRegion, contains, collect_reachable_expressions, Reachable}
use symcc.GarbageCollection.Sweep.{sweep, sweep-Reachable, sweep-erased}
use symcc.RustBackend.{RustLibrary, RustState, symexpr_id, tell}
use symcc.RustBackend.Calls.{collect_garbage, is_empty}

module _ (R : RustLibrary) where
  -- The collection, when there are at least as many expressions as the threshold says: the
  -- expressions that stay are those that are reachable, and the library hears of the ids of the
  -- others, each of which is allocated and not reachable, unless there are none.
  pub collect_garbage-Reachable :
      (threshold : ℕ) (heap : ℕ → Option ℕ) (regions : List ExpressionRegion) (pages : Pages ℕ)
      (s : RustState R)
      → threshold ≤ length s.allocated_expressions
      → (s' : RustState R) × (erased : List ℕ) × (collect_garbage R threshold heap regions pages s
          ≡ some (tt, s'))
        × (s'.library ≡ (
            if is_empty erased
            then s.library
            else R.expression_unreachable (map symexpr_id erased) s.library))
        × ((x : ℕ)
            → ((contains s'.allocated_expressions x ≡ true)
                ↔ ((contains s.allocated_expressions x ≡ true) × Reachable heap regions pages x))
              × (contains erased x ≡ (
                  contains s.allocated_expressions x
                  && not (contains (collect_reachable_expressions heap regions pages) x))))
  unfolding collect_garbage
  collect_garbage-Reachable threshold heap regions pages s many =
      let (kept, erased) =
        sweep (collect_reachable_expressions heap regions pages) s.allocated_expressions in
      let due : ltb (length s.allocated_expressions) threshold ≡ false = ground (arith, many) in
      (
        record {
          library =
              if is_empty erased
              then s.library
              else R.expression_unreachable (map symexpr_id erased) s.library;
          allocated_expressions = kept;
        },
        erased,
        rw due (told erased kept),
        refl,
        λ x. (
          sweep-Reachable heap regions pages s.allocated_expressions x,
          sweep-erased (collect_reachable_expressions heap regions pages) s.allocated_expressions x,
        ),
      )
    where
      told :
          (erased kept : List ℕ)
          → when
              (not (is_empty erased))
              (tell R (R.expression_unreachable (map symexpr_id erased)))
              (record s { allocated_expressions = kept })
            ≡ some (
              tt,
              record {
                library =
                    if is_empty erased
                    then s.library
                    else R.expression_unreachable (map symexpr_id erased) s.library;
                allocated_expressions = kept;
              },
            )
      told [] kept = refl
      told (x ∷ xs) kept = refl
