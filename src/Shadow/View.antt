-- ===== src/Shadow/View.antt =====
-- The shadow as a function of addresses, and what the writes of the iterators do to it.
use symcc.Common.{
  ℕ, ◌<◌, ◌≡◌, Bool, true, false, Option, none, arith, ◌==◌, if◌then◌else◌, is_some, Option-cases,
  inl, inr,
}
use symcc.Common.Assoc.{lookup, lookup-insert}
use symcc.Shadow.{
  Pages, Cell, zeros, update, cell_of, word_mod, page_start, page_offset, load_cell, store_cell,
  get_shadow, get_or_create_shadow,
}
use symcc.Shadow.Addresses.{page_injective}

module _ {E : Type 0} where
  -- The expression that shadows an address.
  unfoldable pub shadow_at : Pages E → ℕ → Option E
  shadow_at g a = load_cell g (cell_of a)

  abbrev pub has_page : Pages E → ℕ → Bool
  has_page g a = is_some (lookup (page_start a) g)

  -- Two maps that shadow every address alike.
  abbrev pub SameShadow : Pages E → Pages E → Type 0
  SameShadow g h = (a : ℕ) → shadow_at g a ≡ shadow_at h a

  pub shadow_at-none : (g : Pages E) (a : ℕ) → has_page g a ≡ false → shadow_at g a ≡ none
  unfolding shadow_at load_cell
  shadow_at-none g a h = ground arith

  pub shadow_at-store_cell :
      (g : Pages E) (a b : ℕ) (v : Option E)
      → a < word_mod
      → b < word_mod
      → has_page g a ≡ true
      → shadow_at (store_cell g (cell_of a) v) b ≡ (if a == b then v else shadow_at g b)
  unfolding shadow_at load_cell store_cell
  shadow_at-store_cell g a b v ha hb h = elim (Option-cases (lookup (page_start a) g)) [
    | inl e ↦ absurd (ground arith)
    | inr (r, e) ↦ ground (
      arith,
      lookup-insert (page_start a) (page_start b) (update r (page_offset a) v) g,
      page_injective a b ha hb,
    )
  ]

  pub has_page-store_cell :
      (g : Pages E) (c : Cell) (b : ℕ) (v : Option E) → has_page (store_cell g c v) b ≡ has_page g b
  unfolding store_cell
  has_page-store_cell g c b v = elim (Option-cases (lookup c.page g)) [
    | inl e ↦ rw (e, store_cell)
    | inr (r, e) ↦
        rw (e, store_cell)
          (ground (arith, lookup-insert c.page (page_start b) (update r c.offset v) g))
  ]

  pub get_or_create_shadow-cell : (g : Pages E) (a : ℕ) → (get_or_create_shadow g a).0 ≡ cell_of a
  unfolding get_or_create_shadow get_shadow
  get_or_create_shadow-cell g a = ground arith

  pub shadow_at-get_or_create_shadow :
      (g : Pages E) (a b : ℕ) → shadow_at (get_or_create_shadow g a).1 b ≡ shadow_at g b
  unfolding get_or_create_shadow get_shadow shadow_at load_cell
  shadow_at-get_or_create_shadow g a b =
      ground (arith, lookup-insert (page_start a) (page_start b) zeros g)

  pub has_page-get_or_create_shadow :
      (g : Pages E) (a b : ℕ)
      → has_page (get_or_create_shadow g a).1 b
        ≡ (if page_start a == page_start b then true else has_page g b)
  unfolding get_or_create_shadow get_shadow
  has_page-get_or_create_shadow g a b =
      ground (arith, lookup-insert (page_start a) (page_start b) zeros g)
