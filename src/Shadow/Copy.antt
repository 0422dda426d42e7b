-- ===== src/Shadow/Copy.antt =====
-- `std::copy` and `std::copy_backward` from read iterators to write iterators.
use symcc.Common.{
  ℕ, zero, suc, ◌+◌, ◌-◌, ◌%◌, ◌≤◌, ◌<◌, ◌≡◌, refl, ◌∙◌, ap, subst, Bool-cases, Option, true, some,
  arith, ◌==◌, ltb, ◌⊎◌, inl, inr, if◌then◌else◌,
}
use symcc.Shadow.{
  Pages, ReadShadowIterator, WriteShadowIterator, word_mod, next_read, next_write, read_iterator,
  write_iterator, store_cell, is_byte, copy_loop, copy, copy_backward_loop, copy_backward,
  previous_read, previous_write,
}
use symcc.Shadow.View.{shadow_at, has_page-store_cell}
use symcc.Shadow.Reading.{
  Reads, Reads-mono, read_iterator-Reads, next_read-Reads, previous_read-Reads, read_cell-Reads,
}
use symcc.Shadow.Writing.{Writes, write_iterator-WritesAt, previous_write-WritesAt}
use symcc.Shadow.Concrete.{BytesIn}
use symcc.Shadow.Fill.{within, Writes-keep, shadow_at-write, write_step}

module _ {E : Type 0} where
  -- One round of a copy and the rounds that follow it.
  shift-forward :
      (f : ℕ → Option E) (x y n b : ℕ) (old : Option E)
      → (if within b (suc y) n then f (suc x + (b - suc y)) else if y == b then f x else old)
        ≡ (if within b y (suc n) then f (x + (b - y)) else old)
  shift-forward f x y n b old = elim (Bool-cases (y == b)) [
    | inl e ↦ let k : x + (b - y) ≡ x = ground arith in ground (arith, ap f k)
    | inr e ↦ elim (Bool-cases (ltb y b)) [
      | inl s ↦ let k : suc x + (b - suc y) ≡ x + (b - y) = ground arith in ground (arith, ap f k)
      | inr s ↦ ground arith
    ]
  ]

  shift-backward :
      (f : ℕ → Option E) (x y n b : ℕ) (old : Option E)
      → (if within b y n then f (x + (b - y)) else if y + n == b then f (x + n) else old)
        ≡ (if within b y (suc n) then f (x + (b - y)) else old)
  shift-backward f x y n b old = elim (Bool-cases (y + n == b)) [
    | inl e ↦ let k : x + (b - y) ≡ x + n = ground arith in ground (arith, ap f k)
    | inr e ↦ ground arith
  ]

  -- The shadow `h` is `g` but for the `n` bytes from `y` on, which hold what `f` is from `x` on.
  abbrev pub Copied : (ℕ → Option E) → Pages E → (x y n : ℕ) → Pages E → Type 0
  Copied f g x y n h =
      (b : ℕ)
      → b < word_mod
      → shadow_at h b ≡ (if within b y n then f (x + (b - y)) else shadow_at g b)

  module _ (bits : E → ℕ) (f : ℕ → Option E) where
    copy_loop-Copied :
        (n : ℕ) (g : Pages E) (x y hi : ℕ) (src : ReadShadowIterator) (dst : WriteShadowIterator)
        → x + n ≡ hi
        → hi < word_mod
        → y + n < word_mod
        → (y ≤ x) ⊎ (hi ≤ y)
        → ((a : ℕ) → x ≤ a → a < hi → is_byte bits (f a) ≡ true)
        → Reads f g x hi x src
        → Writes g y dst
        → (h : Pages E) × (copy_loop bits n g src dst ≡ some h) × Copied f g x y n h
    unfolding copy_loop
    copy_loop-Copied zero g x y hi src dst e p q apart byte r w = (g, refl, λ b hb. ground arith)
    copy_loop-Copied (suc n) g x y hi src dst e p q apart byte r w =
        let v = f x in
        let g1 = store_cell g dst.shadow v in
        let (w', ext) = write_step g y dst v (omega arith) w in
        let g2 = (next_write g1 dst).1 in
        let at = λ (b : ℕ) (hb : b < word_mod).
          ext.same b ∙ shadow_at-write g y b dst v (omega arith) hb w in
        let r' = next_read-Reads f g2 (suc x) hi x src (omega arith) (
          Reads-mono f g g2 x hi (suc x) hi x src r
            (λ a k. ext.keeps a (has_page-store_cell g dst.shadow a v ∙ k)) (omega arith)
            (omega arith) λ a s t. at a (omega arith) ∙ ground arith) in
        let (h, c, same) =
          copy_loop-Copied n g2 (suc x) (suc y) hi (next_read g2 src) (next_write g1 dst).0
            (omega arith) p (omega arith) (omega arith) (λ a s t. byte a (omega arith) t) r' w' in
        (
          h,
          rw
              (read_cell-Reads bits f g x hi x src r (omega arith) (omega arith)
                (byte x (omega arith) (omega arith)))
              c,
          λ b hb. same b hb ∙ rw (at b hb) (shift-forward f x y n b _),
        )

    copy_backward_loop-Copied :
        (n : ℕ) (g : Pages E) (x y xe ye : ℕ) (src : ReadShadowIterator) (dst : WriteShadowIterator)
        → xe ≡ x + n
        → ye ≡ y + n
        → xe < word_mod
        → ye < word_mod
        → x ≤ y
        → ((a : ℕ) → x ≤ a → a < xe → is_byte bits (f a) ≡ true)
        → Reads f g x xe xe src
        → Writes g ye dst
        → (h : Pages E) × (copy_backward_loop bits n g src dst ≡ some h) × Copied f g x y n h
    unfolding copy_backward_loop
    copy_backward_loop-Copied zero g x y xe ye src dst ex ey p q up byte r w =
        (g, refl, λ b hb. ground arith)
    copy_backward_loop-Copied (suc n) g x y xe ye src dst ex ey p q up byte r w =
        let ex' : xe ≡ suc (x + n) = omega arith in
        let ey' : ye ≡ suc (y + n) = omega arith in
        let r1 =
          previous_read-Reads f g x xe (x + n) src (omega arith)
            (subst (λ k. Reads f g x xe k src) ex' r) in
        let (w1, ext) =
          previous_write-WritesAt g (y + n) dst (omega arith) (subst (λ k. Writes g k dst) ey' w) in
        let g1 = (previous_write g dst).1 in
        let dst1 = (previous_write g dst).0 in
        let v = f (x + n) in
        let g2 = store_cell g1 dst1.shadow v in
        let at : (b : ℕ)
            → b < word_mod
            → shadow_at g2 b ≡ (if y + n == b then v else shadow_at g b) =
          λ b hb. shadow_at-write g1 (y + n) b dst1 v (omega arith) hb w1 ∙ rw (ext.same b) refl in
        let r2 =
          Reads-mono f g g2 x xe x (x + n) (x + n) (previous_read g src) r1
            (λ a k. has_page-store_cell g1 dst1.shadow a v ∙ ext.keeps a k) (omega arith)
            (omega arith) λ a s t. at a (omega arith) ∙ ground arith in
        let w2 =
          Writes-keep g1 g2 (y + n) dst1 w1 λ k. has_page-store_cell g1 dst1.shadow (y + n) v ∙ k in
        let (h, c, same) =
          copy_backward_loop-Copied n g2 x y (x + n) (y + n) (previous_read g src) dst1 refl refl
            (omega arith) (omega arith) up (λ a s t. byte a s (omega arith)) r2 w2 in
        (
          h,
          rw
              (read_cell-Reads bits f g x xe (x + n) (previous_read g src) r1 (omega arith)
                (omega arith) (byte (x + n) (omega arith) (omega arith)))
              c,
          λ b hb. same b hb ∙ rw (at b hb) (shift-backward f x y n b _),
        )

  -- `std::copy` over the iterators, where the target does not begin inside the source behind its
  -- first byte, fails no assertion, and afterwards each byte of the target has what its source
  -- byte had before and every other byte what it had. The ranges do not reach the end of the
  -- address space, and the source holds expressions of bytes.
  pub copy-Copied :
      (bits : E → ℕ) (g : Pages E) (x y n : ℕ)
      → x + n < word_mod
      → y + n < word_mod
      → (y ≤ x) ⊎ (x + n ≤ y)
      → BytesIn bits g x n
      → (h : Pages E) × (copy bits g x y n ≡ some h) × Copied (shadow_at g) g x y n h
  unfolding copy
  copy-Copied bits g x y n p q apart byte =
      let (w, ext) = write_iterator-WritesAt g y in
      let g1 = (write_iterator g y).1 in
      let r =
        Reads-mono (shadow_at g) g g1 x (x + n) x (x + n) x (read_iterator g x)
          (read_iterator-Reads (shadow_at g) g x (x + n) x λ a s t. refl) ext.keeps (omega arith)
          (omega arith) λ a s t. ext.same a in
      let (h, c, same) =
        copy_loop-Copied bits (shadow_at g) n g1 x y (x + n) (read_iterator g x)
          (write_iterator g y).0 refl p q apart byte r w in
      (h, c, λ b hb. same b hb ∙ rw (ext.same b) refl)

  -- `std::copy_backward` over the iterators, where the target does not begin below the source,
  -- fails no assertion, and afterwards each byte of the target has what its source byte had before
  -- and every other byte what it had. The ranges do not reach the end of the address space, and
  -- the source holds expressions of bytes.
  pub copy_backward-Copied :
      (bits : E → ℕ) (g : Pages E) (x y n : ℕ)
      → x + n < word_mod
      → y + n < word_mod
      → x ≤ y
      → BytesIn bits g x n
      → (h : Pages E) × (copy_backward bits g x y n ≡ some h) × Copied (shadow_at g) g x y n h
  unfolding copy_backward
  copy_backward-Copied bits g x y n p q up byte =
      let ex : (x + n) % word_mod ≡ x + n = omega arith in
      let ey : (y + n) % word_mod ≡ y + n = omega arith in
      rw (ex, ey)
        (let (w, ext) = write_iterator-WritesAt g (y + n) in
          let g1 = (write_iterator g (y + n)).1 in
          let r =
            Reads-mono (shadow_at g) g g1 x (x + n) x (x + n) (x + n) (read_iterator g (x + n))
              (read_iterator-Reads (shadow_at g) g x (x + n) (x + n) λ a s t. refl) ext.keeps
              (omega arith) (omega arith) λ a s t. ext.same a in
          let (h, c, same) =
            copy_backward_loop-Copied bits (shadow_at g) n g1 x y (x + n) (y + n)
              (read_iterator g (x + n)) (write_iterator g (y + n)).0 refl refl p q up byte r w in
          (h, c, λ b hb. same b hb ∙ rw (ext.same b) refl))
