-- ===== src/Tests/Shadows.antt =====
-- Runs of the shadow memory at concrete addresses.
use symcc.Common.{
  arith, ℕ, ◌+◌, ◌≤◌, ◌<◌, ◌≡◌, ◌↔◌, refl, Bool, true, none, some, [], ◌∷◌, ◌==◌, if◌then◌else◌,
  leb, Bool-cases, inl, inr,
}
use symcc.Shadow.{Pages, Region, is_byte, is_concrete, page_start, page_offset, load_cell}
use symcc.Shadow.View.{shadow_at}
use symcc.Shadow.Concrete.{BytesIn, is_concrete_lem}
use symcc.Tests.Toy.{ToyExpr, input}

-- The first five bytes of the page at 4096 are bytes of the input.
abbrev pub inputs : Region ToyExpr
inputs o = if leb 5 o then none else some (input o)

abbrev pub one_page : Pages ToyExpr
one_page = (4096, inputs) ∷ []

abbrev pub width : ToyExpr → ℕ
width e = e.width

inputs-is_byte : (o : ℕ) → is_byte width (inputs o) ≡ true
inputs-is_byte o = elim (Bool-cases (leb 5 o)) [ inl y ↦ rw y refl | inr n ↦ rw n refl ]

pub one_page-BytesIn : (a n : ℕ) → BytesIn width one_page a n
unfolding shadow_at load_cell
one_page-BytesIn a n x p q = elim (Bool-cases (4096 == page_start x)) [
  | inl y ↦ rw (is_byte, y) (inputs-is_byte (page_offset x))
  | inr n ↦ rw (is_byte, n) refl
]

is_concrete_example :
    (b : Bool) × (is_concrete width one_page 4090 8 ≡ some b)
    × ((b ≡ true) ↔ ((x : ℕ) → 4090 ≤ x → x < 4090 + 8 → shadow_at one_page x ≡ none))
is_concrete_example = is_concrete_lem width one_page 4090 8 (omega arith) (one_page-BytesIn 4090 8)
