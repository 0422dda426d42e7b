-- ===== src/Shadow/Writing.antt =====
-- The write iterators of runtime/Shadow.h as positions in the shadow: where they write, and which
-- pages they make.
use symcc.Common.{
  ℕ, suc, ◌<◌, ◌≡◌, refl, ◌∙◌, ap, true, arith, ◌==◌, Bool-cases, eq_of_==, inl, inr, is_some,
}
use symcc.Common.Assoc.{lookup}
use symcc.Shadow.{
  Pages, WriteShadowIterator, cell_of, word_mod, next_address, previous_address, page_start,
  get_or_create_shadow, next_write, previous_write, write_iterator, next_cell, previous_cell,
}
use symcc.Shadow.Addresses.{cell_of-next, cell_of-previous}
use symcc.Shadow.View.{
  has_page, SameShadow, get_or_create_shadow-cell, shadow_at-get_or_create_shadow,
  has_page-get_or_create_shadow,
}
use symcc.Shadow.Reading.{KeepsPages}

module _ {E : Type 0} where
  -- The iterator stands at `x`, on a page that has a shadow.
  pub record Writes (g : Pages E) (x : ℕ) (it : WriteShadowIterator) : Type 0 where
    pub at : it.address ≡ x
    pub cell : it.shadow ≡ cell_of x
    pub present : has_page g x ≡ true

  -- What making an iterator or moving it does to the pages.
  pub record Extends (g h : Pages E) : Type 0 where
    pub same : SameShadow h g
    pub keeps : KeepsPages g h

  pub Extends-refl : (g : Pages E) → Extends g g
  Extends-refl g = record { same = λ a. refl; keeps = λ a e. e }

  pub Extends-trans : (g h k : Pages E) → Extends g h → Extends h k → Extends g k
  Extends-trans g h k p q = record {
    same = λ a. q.same a ∙ p.same a;
    keeps = λ a e. q.keeps a (p.keeps a e);
  }

  get_or_create_shadow-Extends : (g : Pages E) (a : ℕ) → Extends g (get_or_create_shadow g a).1
  get_or_create_shadow-Extends g a = record {
    same = shadow_at-get_or_create_shadow g a;
    keeps = λ b e. ground (arith, has_page-get_or_create_shadow g a b);
  }

  -- The result of making a write iterator at `x`, or of moving one there.
  abbrev pub WritesAt : Pages E → ℕ → WriteShadowIterator × Pages E → Type 0
  WritesAt g x r = Writes r.1 x r.0 × Extends g r.1

  pub write_iterator-WritesAt : (g : Pages E) (x : ℕ) → WritesAt g x (write_iterator g x)
  write_iterator-WritesAt g x = (
    record {
      at = refl;
      cell = get_or_create_shadow-cell g x;
      present = ground (arith, has_page-get_or_create_shadow g x x);
    },
    get_or_create_shadow-Extends g x,
  )

  pub next_write-WritesAt :
      (g : Pages E) (x : ℕ) (it : WriteShadowIterator)
      → suc x < word_mod
      → Writes g x it
      → WritesAt g (suc x) (next_write g it)
  unfolding next_write
  next_write-WritesAt g x it h w =
      let e : next_address it.address ≡ suc x = omega (arith, w.at) in
      rw (e, w.at)
        (elim (Bool-cases (page_start (suc x) == page_start x)) [
          | inl on ↦
              let p = eq_of_== _ _ on in
              rw on (
                record {
                  at = refl;
                  cell = ap next_cell w.cell ∙ cell_of-next x h p;
                  present = ap (λ j. is_some (lookup j g)) p ∙ w.present;
                },
                Extends-refl g,
              )
          | inr off ↦ rw off (write_iterator-WritesAt g (suc x))
        ])

  pub previous_write-WritesAt :
      (g : Pages E) (x : ℕ) (it : WriteShadowIterator)
      → suc x < word_mod
      → Writes g (suc x) it
      → WritesAt g x (previous_write g it)
  unfolding previous_write
  previous_write-WritesAt g x it h w =
      let e : previous_address it.address ≡ x = omega (arith, w.at) in
      rw (e, w.at)
        (elim (Bool-cases (page_start x == page_start (suc x))) [
          | inl on ↦
              let p = eq_of_== _ _ on in
              rw on (
                record {
                  at = refl;
                  cell = ap previous_cell w.cell ∙ cell_of-previous x h p;
                  present = ap (λ j. is_some (lookup j g)) p ∙ w.present;
                },
                Extends-refl g,
              )
          | inr off ↦ rw off (write_iterator-WritesAt g x)
        ])
