-- ===== src/GarbageCollection.antt =====
-- runtime/GarbageCollection.h and runtime/GarbageCollection.cpp: the search for expressions that are
-- still in use. A `SymExpr` is the number of its address, and `heap` gives the pointer that stands
-- at an address; a null pointer is `none`.
pub mod Reachability
pub mod Sweep
use symcc.Common.{
  ℕ, zero, suc, ◌+◌, ◌*◌, ◌<◌, ◌≡◌, Bool, true, false, ◌||◌, Option, none, some, List, [], ◌∷◌,
  ◌++◌, ◌==◌, if◌then◌else◌, get_elem?,
}
use symcc.Shadow.{Pages, Region, page_size}

-- `ExpressionRegion`
pub record ExpressionRegion : Type 0 where
  pub start : ℕ
  pub length : ℕ

-- `registerExpressionRegion`
unfoldable pub register_expression_region :
    ExpressionRegion → List ExpressionRegion → List ExpressionRegion
register_expression_region r regions = regions ++ r ∷ []

-- `std::set<SymExpr>` as a list without repetitions: `count` and `insert`.
abbrev pub contains : List ℕ → ℕ → Bool
contains [] x = false
contains (y ∷ ys) x = (x == y) || contains ys x

abbrev pub insert : List ℕ → ℕ → List ℕ
insert set x = if contains set x then set else x ∷ set

-- One round of the loop: the pointer is inserted unless it is null.
abbrev pub add : List ℕ → Option ℕ → List ℕ
add set none = set
add set (some e) = insert set e

-- The loop over a block, from cell `i` on over the rounds left.
unfoldable pub collect_block : ℕ → Region ℕ → ℕ → List ℕ → List ℕ
collect_block zero cells i set = set
collect_block (suc n) cells i set = collect_block n cells (i + 1) (add set (cells i))

-- The cells of a region: a pointer has 8 bytes.
abbrev pub region_cells : (ℕ → Option ℕ) → ExpressionRegion → Region ℕ
region_cells heap r i = heap (r.start + 8 * i)

-- A loop that searches the block of each element of a list.
unfoldable pub collect_each :
    {A : Type 0} (length : A → ℕ) (cells : A → Region ℕ) → List A → List ℕ → List ℕ
collect_each length cells [] set = set
collect_each length cells (a ∷ rest) set =
    collect_each length cells rest (collect_block (length a) (cells a) 0 set)

abbrev pub region_length : ExpressionRegion → ℕ
region_length r = r.length

abbrev pub page_length : ℕ × Region ℕ → ℕ
page_length mapping = page_size

abbrev pub page_cells : ℕ × Region ℕ → Region ℕ
page_cells mapping = mapping.1

unfoldable pub collect_reachable_expressions :
    (ℕ → Option ℕ) → List ExpressionRegion → Pages ℕ → List ℕ
collect_reachable_expressions heap regions pages =
    collect_each page_length page_cells pages
      (collect_each region_length (region_cells heap) regions [])

-- An expression that the program can still reach: it stands in a registered region or in the
-- shadow of a byte.
pub data Reachable (heap : ℕ → Option ℕ) (regions : List ExpressionRegion) (pages : Pages ℕ) (x : ℕ)
    : Type 0 where
  in_region :
      (k i : ℕ) (r : ExpressionRegion)
      → get_elem? regions k ≡ some r
      → i < r.length
      → heap (r.start + 8 * i) ≡ some x
      → Reachable heap regions pages x
  in_shadow :
      (k i : ℕ) (mapping : ℕ × Region ℕ)
      → get_elem? pages k ≡ some mapping
      → i < page_size
      → mapping.1 i ≡ some x
      → Reachable heap regions pages x
