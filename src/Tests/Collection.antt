-- ===== src/Tests/Collection.antt =====
-- A collection with one region and one shadow page.
use symcc.Common.{
  ℕ, ◌+◌, ◌≡◌, ◌↔◌, true, Option, none, some, List, [], ◌∷◌, ◌==◌, leb, if◌then◌else◌,
}
use symcc.Shadow.{Pages}
use symcc.GarbageCollection.{ExpressionRegion, contains, collect_reachable_expressions, Reachable}
use symcc.GarbageCollection.Reachability.{collect_reachable_expressions-Reachable}

abbrev heap : ℕ → Option ℕ
heap a = if leb 1000 a then some (a + 7) else none

abbrev regions : List ExpressionRegion
regions = record { start = 992; length = 3 } ∷ []

abbrev pages : Pages ℕ
pages = (4096, λ o. if o == 12 then some 55 else none) ∷ []

collection_example :
    (contains (collect_reachable_expressions heap regions pages) 1015 ≡ true)
    ↔ Reachable heap regions pages 1015
collection_example = collect_reachable_expressions-Reachable heap regions pages 1015
