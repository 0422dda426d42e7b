-- ===== src/Shadow/Concrete.antt =====
-- `isConcrete` of runtime/Shadow.h: its fast path and its walk give one answer.
use symcc.Common.{
  ℕ, zero, suc, ◌+◌, ◌%◌, ◌≤◌, ◌<◌, ◌≡◌, refl, sym, ◌∙◌, ap, ◌↔◌, Bool, true, false, not, ◌&&◌,
  none, some, arith, ◌==◌, if◌then◌else◌, is_some, Bool-cases, Option-cases, eq_of_==, inl, inr,
}
use symcc.Common.Assoc.{lookup}
use symcc.Shadow.{
  Pages, ReadShadowIterator, word_mod, page_start, read_iterator, next_read, is_byte, all_null,
  is_concrete,
}
use symcc.Shadow.Addresses.{page_start-between}
use symcc.Shadow.View.{shadow_at, has_page, shadow_at-none}
use symcc.Shadow.Reading.{Reads, Reads-mono, read_iterator-Reads, next_read-Reads, read_cell-Reads}

module _ {E : Type 0} where
  -- No byte of the `n` from `a` on has an expression.
  unfoldable pub none_from : Pages E → ℕ → ℕ → Bool
  none_from g a zero = true
  none_from g a (suc n) = if is_some (shadow_at g a) then false else none_from g (suc a) n

  pub none_from-true :
      (g : Pages E) (a n : ℕ)
      → none_from g a n ≡ true
      → (x : ℕ) → a ≤ x
      → x < a + n
      → shadow_at g x ≡ none
  unfolding none_from
  none_from-true g a zero h x p q = absurd (omega arith)
  none_from-true g a (suc n) h x p q = elim (Bool-cases (a == x)) [
    | inl e ↦ ap (shadow_at g) (sym (eq_of_== a x e)) ∙ ground arith
    | inr e ↦ none_from-true g (suc a) n (ground arith) x (ground arith) (omega arith)
  ]

  pub none_from_of :
      (g : Pages E) (a n : ℕ)
      → ((x : ℕ) → a ≤ x → x < a + n → shadow_at g x ≡ none)
      → none_from g a n ≡ true
  unfolding none_from
  none_from_of g a zero h = refl
  none_from_of g a (suc n) h =
      rw (h a (omega arith) (omega arith))
        (none_from_of g (suc a) n λ x p q. h x (omega arith) (omega arith))

  pub none_from-false :
      (g : Pages E) (a n : ℕ)
      → none_from g a n ≡ false
      → (x : ℕ) × (a ≤ x) × (x < a + n) × (is_some (shadow_at g x) ≡ true)
  unfolding none_from
  none_from-false g a zero h = cc
  none_from-false g a (suc n) h = elim (Bool-cases (is_some (shadow_at g a))) [
    | inl e ↦ (a, omega arith, omega arith, e)
    | inr e ↦
        let (x, p, q, s) = none_from-false g (suc a) n (ground arith) in
        (x, omega arith, omega arith, s)
  ]

  -- Every expression that shadows the range is one of 8 bits.
  abbrev pub BytesIn : (E → ℕ) → Pages E → ℕ → ℕ → Type 0
  BytesIn bits g a n = (x : ℕ) → a ≤ x → x < a + n → is_byte bits (shadow_at g x) ≡ true

  all_null-none_from :
      (bits : E → ℕ) (g : Pages E) (a n hi : ℕ) (it : ReadShadowIterator)
      → a + n ≡ hi
      → hi < word_mod
      → BytesIn bits g a n
      → Reads (shadow_at g) g a hi a it
      → all_null bits n g it ≡ some (none_from g a n)
  unfolding all_null none_from
  all_null-none_from bits g a zero hi it e h byte r = refl
  all_null-none_from bits g a (suc n) hi it e h byte r =
      rw
        (read_cell-Reads bits (shadow_at g) g a hi a it r (omega arith) (omega arith)
          (byte a (omega arith) (omega arith)))
        (elim (Option-cases (shadow_at g a)) [
          | inl s ↦ rw s (
              all_null-none_from bits g (suc a) n hi (next_read g it) (omega arith) h
                (λ x p q. byte x (omega arith) (omega arith))
                (next_read-Reads (shadow_at g) g (suc a) hi a it (omega arith) (
                  Reads-mono (shadow_at g) g g a hi (suc a) hi a it r (λ x k. k) (omega arith)
                    (omega arith) λ x p q. refl)))
          | inr (v, s) ↦ rw s
        ])

  -- The fast path: the range lies on one page, and that page has no shadow.
  same_page :
      (g : Pages E) (a n : ℕ)
      → a + n < word_mod
      → page_start a ≡ page_start (a + n)
      → has_page g a ≡ false
      → none_from g a n ≡ true
  same_page g a n h p e = none_from_of g a n λ x s t.
      shadow_at-none g x
        (ap (λ k. is_some (lookup k g)) (page_start-between a x (a + n) h s (omega arith) p) ∙ e)

  pub is_concrete-none_from :
      (bits : E → ℕ) (g : Pages E) (a n : ℕ)
      → a + n < word_mod
      → BytesIn bits g a n
      → is_concrete bits g a n ≡ some (none_from g a n)
  unfolding is_concrete
  is_concrete-none_from bits g a n h byte =
      let end : (a + n) % word_mod ≡ a + n = omega arith in
      let walk : all_null bits n g (read_iterator g a) ≡ some (none_from g a n) =
        all_null-none_from bits g a n (a + n) (read_iterator g a) refl h byte
          (read_iterator-Reads (shadow_at g) g a (a + n) a λ x p q. refl) in
      rw end (elim (Bool-cases ((page_start a == page_start (a + n)) && not (has_page g a))) [
        | inl fast ↦
            let p = eq_of_== (page_start a) (page_start (a + n)) (ground arith) in
            rw fast (sym (ap some (same_page g a n h p (ground arith))))
        | inr slow ↦ rw slow walk
      ])

  -- `isConcrete` fails no assertion on a range that holds expressions of bytes and does not reach
  -- the end of the address space. It answers true exactly when no byte of the range has an
  -- expression.
  pub is_concrete_lem :
      (bits : E → ℕ) (g : Pages E) (a n : ℕ)
      → a + n < word_mod
      → BytesIn bits g a n
      → (b : Bool) × (is_concrete bits g a n ≡ some b)
        × ((b ≡ true) ↔ ((x : ℕ) → a ≤ x → x < a + n → shadow_at g x ≡ none))
  is_concrete_lem bits g a n h byte = (
    none_from g a n,
    is_concrete-none_from bits g a n h byte,
    (none_from-true g a n, none_from_of g a n),
  )
