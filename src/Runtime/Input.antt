-- ===== src/Runtime/Input.antt =====
-- `_sym_make_symbolic` and `symcc_make_symbolic` of runtime/RuntimeCommon.cpp: bytes of the input as
-- shadow of memory. `memory_input_offset` is the static variable of the second function.
use symcc.Common.{
  arith, ℕ, zero, suc, ◌+◌, ◌<◌, ◌≤◌, ◌≡◌, ◌⊎◌, inl, inr, refl, sym, ◌∙◌, ap, Option, some, List,
  [], ◌∷◌, ◌==◌, if◌then◌else◌, length, get_elem?,
}
use symcc.Common.Cmd.{pure, ◌>>=◌, ◌>>◌, require}
use symcc.Backend.{Backend}
use symcc.Config.{InputSource, is_memory_input, memory_input}
use symcc.Shadow.{Pages, WriteShadowIterator, word_mod, write_iterator, next_write, store_cell}
use symcc.Shadow.View.{shadow_at}
use symcc.Shadow.Writing.{Writes, write_iterator-WritesAt}
use symcc.Shadow.Fill.{shadow_at-write, write_step, Writes-keep}
use symcc.Runtime.{Machine, Run, add_size, build}

module _ (B : Backend) where
  open B use {Expr, State}

  -- The `std::generate`, over the rounds left; `i` counts the bytes from `address` on.
  unfoldable pub generate :
      ℕ → (address i input_offset : ℕ) → WriteShadowIterator → Run B (Unit {0})
  generate zero a i offset it = pure tt
  generate (suc n) a i offset it = do
    byte ← λ m. build B (B.get_input_byte offset (m.memory (add_size a i))) m
    it' ← λ m.
        let (it', g) = next_write (store_cell m.shadow_pages it.shadow byte) it in
        some (it', record m { shadow_pages = g })
    generate n a (i + 1) (add_size offset 1) it'

  unfoldable pub make_symbolic : (address byte_length input_offset : ℕ) → Run B (Unit {0})
  make_symbolic a n offset m =
      let (it, g) = write_iterator m.shadow_pages a in
      let (_, g') = write_iterator g (add_size a n) in
      generate n a 0 offset it (record m { shadow_pages = g' })

  unfoldable pub symcc_make_symbolic : InputSource → (start byte_length : ℕ) → Run B (Unit {0})
  symcc_make_symbolic input a n m =
      (do
        require (is_memory_input input)
        make_symbolic a n m.memory_input_offset
        λ m'. some (tt, record m' { memory_input_offset = add_size m'.memory_input_offset n }))
        m

  -- The backend's answers to requests for `n` bytes of the input in order, the first at `offset`, of
  -- which the program has copies in memory from `a` on.
  unfoldable pub input_bytes :
      ℕ → (memory : ℕ → ℕ) → (a offset : ℕ) → State → List (Option Expr) × State
  input_bytes zero memory a offset s = ([], s)
  input_bytes (suc n) memory a offset s =
      let (e, t) = B.get_input_byte offset (memory a) s in
      let (es, u) = input_bytes n memory (suc a) (suc offset) t in (e ∷ es, u)

  -- The shadow of the addresses from `x` on is the list, and that of the others is what `g` has.
  pub record Filled (g : Pages Expr) (x : ℕ) (es : List (Option Expr)) (h : Pages Expr)
      : Type 0 where
    pub inside : (j : ℕ) → j < length es → get_elem? es j ≡ some (shadow_at h (x + j))
    pub outside :
        (a : ℕ) → a < word_mod → (a < x) ⊎ (x + length es ≤ a) → shadow_at h a ≡ shadow_at g a

  length-input_bytes :
      (n : ℕ) (memory : ℕ → ℕ) (a offset : ℕ) (s : State)
      → length (input_bytes n memory a offset s).0 ≡ n
  unfolding input_bytes
  length-input_bytes zero memory a offset s = refl
  length-input_bytes (suc n) memory a offset s =
      ap suc
        (length-input_bytes n memory (suc a) (suc offset) (B.get_input_byte offset (memory a) s).1)

  -- One round.
  generate-suc :
      (n : ℕ) (m : Machine B) (x i y offset offset' : ℕ) (it : WriteShadowIterator)
      (end : Option (Unit {0} × Machine B))
      → add_size x i ≡ y
      → add_size offset 1 ≡ offset'
      → (let b = B.get_input_byte offset (m.memory y) m.backend in
          let step = next_write (store_cell m.shadow_pages it.shadow b.0) it in
          generate n x (i + 1) offset' step.0 (record m { backend = b.1; shadow_pages = step.1 })
          ≡ end)
      → generate (suc n) x i offset it m ≡ end
  unfolding generate
  generate-suc n m x i y offset offset' it end at next rest = rw (at, next) rest

  generate-Filled :
      (n : ℕ) (m : Machine B) (x i y offset : ℕ) (it : WriteShadowIterator)
      → y ≡ x + i
      → y + n < word_mod
      → offset + n < word_mod
      → Writes m.shadow_pages y it
      → (h : Pages Expr) × (generate n x i offset it m
          ≡ some (
            tt,
            record m { backend = (input_bytes n m.memory y offset m.backend).1; shadow_pages = h },
          ))
        × Filled m.shadow_pages y (input_bytes n m.memory y offset m.backend).0 h
  unfolding generate input_bytes
  generate-Filled zero m x i y offset it q fits small at = (
    m.shadow_pages,
    refl,
    record { inside = λ j p. absurd (omega arith); outside = λ a ha o. refl },
  )
  generate-Filled (suc n) m x i y offset it q fits small at =
      let g = m.shadow_pages in
      let b = B.get_input_byte offset (m.memory y) m.backend in
      let g1 = store_cell g it.shadow b.0 in
      let (at', ext) = write_step g y it b.0 (omega arith) at in
      let g2 = (next_write g1 it).1 in
      let it' = (next_write g1 it).0 in
      let address : add_size x i ≡ y = omega arith in
      let next : add_size offset 1 ≡ suc offset = omega arith in
      let stored : (a : ℕ)
          → a < word_mod
          → shadow_at g2 a ≡ (if y == a then b.0 else shadow_at g a) =
        λ a ha. ext.same a ∙ shadow_at-write g y a it b.0 (omega arith) ha at in
      let (h, run, rest) =
        generate-Filled n (record m { backend = b.1; shadow_pages = g2 }) x (i + 1) (suc y)
          (suc offset) it' (omega arith) (omega arith) (omega arith) at' in
      (
        h,
        generate-suc n m x i y offset (suc offset) it _ address next run,
        record {
          inside = elim [
            | zero ↦ λ p. ap some (
                sym (
                  ap (shadow_at h) (omega arith)
                  ∙ rest.outside y (omega arith) (inl (omega arith))
                  ∙ stored y (omega arith)
                  ∙ ground arith))
            | suc j ↦
                λ p. rest.inside j (omega arith) ∙ ap (λ a. some (shadow_at h a)) (omega arith)
          ];
          outside = λ a ha o.
              rest.outside a ha (elim o [ inl l ↦ inl (omega arith) | inr r ↦ inr (omega arith) ])
              ∙ stored a ha
              ∙ ground arith;
        },
      )

  -- `_sym_make_symbolic`: the shadow of the range becomes the backend's expressions for the bytes of
  -- the input from the given offset on, each asked for once, in order and with the byte that the
  -- program has there; the shadow of other addresses stays. The range does not reach the end of
  -- the address space, and the offset does not overflow.
  pub make_symbolic-Filled :
      (m : Machine B) (a n offset : ℕ)
      → a + n < word_mod
      → offset + n < word_mod
      → (h : Pages Expr) × (make_symbolic a n offset m
          ≡ some (
            tt,
            record m { backend = (input_bytes n m.memory a offset m.backend).1; shadow_pages = h },
          ))
        × (length (input_bytes n m.memory a offset m.backend).0 ≡ n)
        × Filled m.shadow_pages a (input_bytes n m.memory a offset m.backend).0 h
  unfolding make_symbolic
  make_symbolic-Filled m a n offset fits small =
      let g = m.shadow_pages in
      let (at, ext) = write_iterator-WritesAt g a in
      let g1 = (write_iterator g a).1 in
      let end = add_size a n in
      let (_, ext') = write_iterator-WritesAt g1 end in
      let g2 = (write_iterator g1 end).1 in
      let it = (write_iterator g a).0 in
      let (h, run, filled) =
        generate-Filled n (record m { shadow_pages = g2 }) a 0 a offset it (omega arith) fits small
          (Writes-keep g1 g2 a it at (ext'.keeps a)) in
      (
        h,
        run,
        length-input_bytes n m.memory a offset m.backend,
        record {
          inside = filled.inside;
          outside = λ b hb o. filled.outside b hb o ∙ ext'.same b ∙ ext.same b;
        },
      )

  -- `symcc_make_symbolic` under the memory input: as `_sym_make_symbolic` from the offset behind the
  -- bytes of the earlier calls, which then moves on by the length. The range does not reach the end
  -- of the address space, and the offset does not overflow.
  pub symcc_make_symbolic-Filled :
      (m : Machine B) (a n : ℕ)
      → a + n < word_mod
      → m.memory_input_offset + n < word_mod
      → (h : Pages Expr) × (symcc_make_symbolic memory_input a n m
          ≡ some (
            tt,
            record m {
              backend = (input_bytes n m.memory a m.memory_input_offset m.backend).1;
              shadow_pages = h;
              memory_input_offset = m.memory_input_offset + n;
            },
          ))
        × Filled m.shadow_pages a (input_bytes n m.memory a m.memory_input_offset m.backend).0 h
  unfolding symcc_make_symbolic is_memory_input
  symcc_make_symbolic-Filled m a n fits small =
      let (h, run, _, filled) = make_symbolic-Filled m a n m.memory_input_offset fits small in
      let offset : add_size m.memory_input_offset n ≡ m.memory_input_offset + n = omega arith in
      (h, rw (run, offset) refl, filled)
