-- ===== src/Shadow/Reading.antt =====
-- The read iterators of runtime/Shadow.h as positions in the shadow: what they yield, across the
-- borders of pages and while write iterators make pages.
use symcc.Common.{
  ℕ, suc, ◌≤◌, ◌<◌, ◌≡◌, refl, sym, ◌∙◌, ap, true, false, Option, none, some, arith, ◌==◌,
  Bool-cases, Option-cases, eq_of_==, inl, inr, is_some,
}
use symcc.Common.Assoc.{lookup}
use symcc.Shadow.{
  Pages, Cell, ReadShadowIterator, cell_of, word_mod, next_address, previous_address, page_start,
  get_shadow, next_read, previous_read, read_cell, read_iterator, load_cell, is_byte, next_cell,
  previous_cell, move,
}
use symcc.Shadow.Addresses.{cell_of-next, cell_of-previous}
use symcc.Shadow.View.{shadow_at, has_page, shadow_at-none}

module _ {E : Type 0} where
  -- `h` has the pages of `g`, and perhaps more.
  abbrev pub KeepsPages : Pages E → Pages E → Type 0
  KeepsPages g h = (a : ℕ) → has_page g a ≡ true → has_page h a ≡ true

  -- A pointer into the shadow that a read iterator holds at `x`, for reading `f` in the range from
  -- `lo` to `hi`. A null pointer may be older than the shadow of its page.
  pub record Sees (f : ℕ → Option E) (g : Pages E) (lo hi x : ℕ) (s : Option Cell) : Type 0 where
    pub intact : (a : ℕ) → lo ≤ a → a < hi → shadow_at g a ≡ f a
    pub unshadowed : s ≡ none → (a : ℕ) → lo ≤ a → a < hi → page_start a ≡ page_start x → f a ≡ none
    pub shadowed : (c : Cell) → s ≡ some c → (c ≡ cell_of x) × (has_page g x ≡ true)

  pub record Reads (f : ℕ → Option E) (g : Pages E) (lo hi x : ℕ) (it : ReadShadowIterator)
      : Type 0 where
    pub at : it.address ≡ x
    pub sees : Sees f g lo hi x it.shadow

  -- Writes outside a smaller range leave a read iterator good for that range.
  pub Reads-mono :
      (f : ℕ → Option E) (g h : Pages E) (lo hi lo' hi' x : ℕ) (it : ReadShadowIterator)
      → Reads f g lo hi x it
      → KeepsPages g h
      → lo ≤ lo'
      → hi' ≤ hi
      → ((a : ℕ) → lo' ≤ a → a < hi' → shadow_at h a ≡ shadow_at g a)
      → Reads f h lo' hi' x it
  Reads-mono f g h lo hi lo' hi' x it r keep p q same = record {
    at = r.at;
    sees = record {
      intact = λ a s t. same a s t ∙ r.sees.intact a (omega arith) (omega arith);
      unshadowed = λ e a s t. r.sees.unshadowed e a (omega arith) (omega arith);
      shadowed = λ c e. ((r.sees.shadowed c e).0, keep x (r.sees.shadowed c e).1);
    };
  }

  get_shadow-none : (g : Pages E) (x : ℕ) → get_shadow g x ≡ none → has_page g x ≡ false
  unfolding get_shadow
  get_shadow-none g x e = ground arith

  get_shadow-some :
      (g : Pages E) (x : ℕ) (c : Cell)
      → get_shadow g x ≡ some c
      → (c ≡ cell_of x) × (has_page g x ≡ true)
  unfolding get_shadow
  get_shadow-some g x c e = ground arith

  get_shadow-Sees :
      (f : ℕ → Option E) (g : Pages E) (lo hi x : ℕ)
      → ((a : ℕ) → lo ≤ a → a < hi → shadow_at g a ≡ f a)
      → Sees f g lo hi x (get_shadow g x)
  get_shadow-Sees f g lo hi x same = record {
    intact = same;
    unshadowed = λ e a p q t.
        sym (same a p q)
        ∙ shadow_at-none g a (ap (λ k. is_some (lookup k g)) t ∙ get_shadow-none g x e);
    shadowed = get_shadow-some g x;
  }

  -- A step that stays on the page moves the pointer, if there is one.
  move-Sees :
      (f : ℕ → Option E) (g : Pages E) (lo hi x y : ℕ) (k : Cell → Cell) (s : Option Cell)
      → Sees f g lo hi x s
      → page_start y ≡ page_start x
      → k (cell_of x) ≡ cell_of y
      → Sees f g lo hi y (move k s)
  move-Sees f g lo hi x y k none r p e = record {
    intact = r.intact;
    unshadowed = λ _ a s t u. r.unshadowed refl a s t (u ∙ p);
    shadowed = λ c i. cc;
  }
  move-Sees f g lo hi x y k (some c) r p e = record {
    intact = r.intact;
    unshadowed = λ i. cc;
    shadowed = λ d i.
        (cc ((r.shadowed c refl).0), ap (λ j. is_some (lookup j g)) p ∙ (r.shadowed c refl).1);
  }

  -- A fresh iterator reads the shadow.
  pub read_iterator-Reads :
      (f : ℕ → Option E) (g : Pages E) (lo hi x : ℕ)
      → ((a : ℕ) → lo ≤ a → a < hi → shadow_at g a ≡ f a)
      → Reads f g lo hi x (read_iterator g x)
  read_iterator-Reads f g lo hi x same = record {
    at = refl;
    sees = get_shadow-Sees f g lo hi x same;
  }

  pub next_read-Reads :
      (f : ℕ → Option E) (g : Pages E) (lo hi x : ℕ) (it : ReadShadowIterator)
      → suc x < word_mod
      → Reads f g lo hi x it
      → Reads f g lo hi (suc x) (next_read g it)
  unfolding next_read
  next_read-Reads f g lo hi x it h r =
      let e : next_address it.address ≡ suc x = omega (arith, r.at) in
      rw (e, r.at)
        (elim (Bool-cases (page_start (suc x) == page_start x)) [
          | inl on ↦
              let p = eq_of_== _ _ on in
              rw on (record {
                at = refl;
                sees =
                    move-Sees f g lo hi x (suc x) next_cell it.shadow r.sees p (cell_of-next x h p);
              })
          | inr off ↦
              rw off (record { at = refl; sees = get_shadow-Sees f g lo hi (suc x) r.sees.intact })
        ])

  pub previous_read-Reads :
      (f : ℕ → Option E) (g : Pages E) (lo hi x : ℕ) (it : ReadShadowIterator)
      → suc x < word_mod
      → Reads f g lo hi (suc x) it
      → Reads f g lo hi x (previous_read g it)
  unfolding previous_read
  previous_read-Reads f g lo hi x it h r =
      let e : previous_address it.address ≡ x = omega (arith, r.at) in
      rw (e, r.at)
        (elim (Bool-cases (page_start x == page_start (suc x))) [
          | inl on ↦
              let p = eq_of_== _ _ on in
              let k = cell_of-previous x h p in
              rw on (record {
                at = refl;
                sees = move-Sees f g lo hi (suc x) x previous_cell it.shadow r.sees p k;
              })
          | inr off ↦
              rw off (record { at = refl; sees = get_shadow-Sees f g lo hi x r.sees.intact })
        ])

  -- In the range a read iterator yields what it is to read, and its assertion holds for a byte.
  pub read_cell-Reads :
      (bits : E → ℕ) (f : ℕ → Option E) (g : Pages E) (lo hi x : ℕ) (it : ReadShadowIterator)
      → Reads f g lo hi x it
      → lo ≤ x
      → x < hi
      → is_byte bits (f x) ≡ true
      → read_cell bits g it ≡ some (f x)
  unfolding read_cell
  read_cell-Reads bits f g lo hi x it r p q byte = elim (Option-cases it.shadow) [
    | inl e ↦ rw (e, r.sees.unshadowed e x p q refl)
    | inr (c, e) ↦
        let v : load_cell g c ≡ f x =
          ap (load_cell g) (r.sees.shadowed c e).0 ∙ unfold shadow_at in r.sees.intact x p q in
        rw (e, v, byte)
  ]
