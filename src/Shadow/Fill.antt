-- ===== src/Shadow/Fill.antt =====
-- `std::fill` over the write iterators of runtime/Shadow.h.
use symcc.Common.{
  ℕ, zero, suc, ◌+◌, ◌%◌, ◌<◌, ◌≡◌, refl, ◌∙◌, ap, Bool, ◌&&◌, Option, true, arith, ◌==◌, leb, ltb,
  if◌then◌else◌,
}
use symcc.Shadow.{
  Pages, WriteShadowIterator, word_mod, next_write, write_iterator, store_cell, fill_loop, fill,
}
use symcc.Shadow.View.{shadow_at, has_page, shadow_at-store_cell, has_page-store_cell}
use symcc.Shadow.Writing.{Writes, WritesAt, write_iterator-WritesAt, next_write-WritesAt}

-- Does `a` lie among the `n` addresses from `lo` on?
abbrev pub within : ℕ → ℕ → ℕ → Bool
within a lo n = leb lo a && ltb a (lo + n)

module _ {E : Type 0} where
  -- A write iterator stays good where pages are added or written.
  pub Writes-keep :
      (g h : Pages E) (x : ℕ) (it : WriteShadowIterator)
      → Writes g x it
      → (has_page g x ≡ true → has_page h x ≡ true)
      → Writes h x it
  Writes-keep g h x it w keep = record { at = w.at; cell = w.cell; present = keep w.present }

  -- `*it = v`.
  pub shadow_at-write :
      (g : Pages E) (x b : ℕ) (it : WriteShadowIterator) (v : Option E)
      → x < word_mod
      → b < word_mod
      → Writes g x it
      → shadow_at (store_cell g it.shadow v) b ≡ (if x == b then v else shadow_at g b)
  shadow_at-write g x b it v hx hb w =
      ap (λ c. shadow_at (store_cell g c v) b) w.cell ∙ shadow_at-store_cell g x b v hx hb w.present

  -- `*it = v; ++it;`
  pub write_step :
      (g : Pages E) (x : ℕ) (it : WriteShadowIterator) (v : Option E)
      → suc x < word_mod
      → Writes g x it
      → WritesAt (store_cell g it.shadow v) (suc x) (next_write (store_cell g it.shadow v) it)
  write_step g x it v h w =
      next_write-WritesAt (store_cell g it.shadow v) x it h (
        Writes-keep g (store_cell g it.shadow v) x it w
          λ p. has_page-store_cell g it.shadow x v ∙ p)

  pub shadow_at-fill_loop :
      (n : ℕ) (g : Pages E) (x b : ℕ) (it : WriteShadowIterator) (v : Option E)
      → x + n < word_mod
      → b < word_mod
      → Writes g x it
      → shadow_at (fill_loop n g it v) b ≡ (if within b x n then v else shadow_at g b)
  unfolding fill_loop
  shadow_at-fill_loop zero g x b it v h hb w = ground arith
  shadow_at-fill_loop (suc n) g x b it v h hb w =
      let (w', ext) = write_step g x it v (omega arith) w in
      let (it', g') = next_write (store_cell g it.shadow v) it in
      shadow_at-fill_loop n _ (suc x) b _ v (omega arith) hb w'
      ∙ rw (ext.same b, shadow_at-write g x b it v (omega arith) hb w) (ground arith)

  -- `std::fill` over the write iterators of a range that does not reach the end of the address
  -- space writes the value to each byte of the range and to no other.
  pub shadow_at-fill :
      (g : Pages E) (a n : ℕ) (v : Option E) (b : ℕ)
      → a + n < word_mod
      → b < word_mod
      → shadow_at (fill g a n v) b ≡ (if within b a n then v else shadow_at g b)
  unfolding fill
  shadow_at-fill g a n v b h hb =
      let (w, e) = write_iterator-WritesAt g a in
      let (_, e') = write_iterator-WritesAt (write_iterator g a).1 ((a + n) % word_mod) in
      shadow_at-fill_loop n _ a b _ v h hb (Writes-keep _ _ a _ w (e'.keeps a))
      ∙ rw (e'.same b, e.same b) refl
