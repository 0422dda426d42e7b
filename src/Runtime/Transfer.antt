-- ===== src/Runtime/Transfer.antt =====
-- `_sym_memcpy`, `_sym_memmove` and `_sym_memset` of runtime/RuntimeCommon.cpp: what they do to the
-- shadow, on every branch.
use symcc.Common.{
  ℕ, ◌+◌, ◌-◌, ◌≤◌, ◌<◌, ◌≡◌, refl, sym, ◌∙◌, Bool, true, false, not, ◌&&◌, ◌||◌, Option, some,
  arith, ltb, if◌then◌else◌, is_some, Bool-cases, ◌⊎◌, inl, inr,
}
use symcc.Common.Cmd.{Returns, returns, when, ◌>>◌}
use symcc.Backend.{Backend}
use symcc.Shadow.{Pages, word_mod, copy, copy_backward, fill}
use symcc.Shadow.View.{shadow_at}
use symcc.Shadow.Concrete.{none_from, none_from-true, is_concrete-none_from, BytesIn}
use symcc.Shadow.Fill.{within, shadow_at-fill}
use symcc.Shadow.Copy.{Copied, copy-Copied, copy_backward-Copied}
use symcc.Runtime.{Machine, Sym, call, change, concrete, symbolic_ranges, memcpy, memset, memmove}

module _ (B : Backend) where
  -- The shadow and the backend's state may differ, and nothing else does.
  pub record SameProgram (m m' : Machine B) : Type 0 where
    pub memory : m'.memory ≡ m.memory
    pub return_value : m'.return_value ≡ m.return_value
    pub function_arguments : m'.function_arguments ≡ m.function_arguments
    pub switch_cache : m'.switch_cache ≡ m.switch_cache
    pub memory_input_offset : m'.memory_input_offset ≡ m.memory_input_offset

  abbrev pub view : Machine B → ℕ → Sym B
  view m = shadow_at m.shadow_pages

  abbrev pub Bytes : Machine B → ℕ → ℕ → Type 0
  Bytes m a n = BytesIn B.bits m.shadow_pages a n

  pub concrete_lem :
      (m : Machine B) (a n : ℕ)
      → a + n < word_mod
      → Bytes m a n
      → concrete B a n m ≡ some (none_from m.shadow_pages a n, m)
  unfolding concrete
  concrete_lem m a n h byte = rw (is_concrete-none_from B.bits m.shadow_pages a n h byte)

  symbolic_ranges_lem :
      (m : Machine B) (src dest n : ℕ)
      → src + n < word_mod
      → dest + n < word_mod
      → Bytes m src n
      → Bytes m dest n
      → symbolic_ranges B src dest n m
        ≡ some (not (none_from m.shadow_pages src n && none_from m.shadow_pages dest n), m)
  unfolding symbolic_ranges
  symbolic_ranges_lem m src dest n p q bs bd =
      rw (concrete_lem m src n p bs) (elim (Bool-cases (none_from m.shadow_pages src n)) [
        | inl e ↦ rw (e, concrete_lem m dest n q bd) refl
        | inr e ↦ rw e refl
      ])

  same_program :
      (m : Machine B) (t : B.State) (g : Pages B.Expr)
      → SameProgram m (record m { backend = t; shadow_pages = g })
  same_program m t g = record {
    memory = refl;
    return_value = refl;
    function_arguments = refl;
    switch_cache = refl;
    memory_input_offset = refl;
  }

  -- The common end of the three functions: the backend's call and the change of the shadow, each
  -- under its condition.
  call-change :
      (m : Machine B) (P : Pages B.Expr → Type 0) (told data' : Bool) (f : B.State → Option B.State)
      (k : Pages B.Expr → Option (Pages B.Expr)) (t : B.State)
      → f m.backend ≡ some t
      → (data' ≡ true → (h : Pages B.Expr) × (k m.shadow_pages ≡ some h) × P h)
      → (data' ≡ false → P m.shadow_pages)
      → Returns
          (λ _ m'. P m'.shadow_pages × SameProgram m m')
          ((when told (call B f) >> when data' (change B k)) m)
  call-change m P false false f k t ok yes' no' =
      returns (no' refl, same_program m m.backend m.shadow_pages)
  call-change m P true false f k t ok yes' no' =
      rw ok (returns (no' refl, same_program m t m.shadow_pages))
  call-change m P false true f k t ok yes' no' =
      let (h, e, p) = yes' refl in rw e (returns (p, same_program m m.backend h))
  call-change m P true true f k t ok yes' no' =
      let (h, e, p) = yes' refl in rw (ok, e) (returns (p, same_program m t h))

  -- Where neither range has an expression, the copy would change nothing.
  unchanged-Copied :
      (g : Pages B.Expr) (src dest n : ℕ)
      → src + n < word_mod
      → (none_from g src n && none_from g dest n) ≡ true
      → Copied (shadow_at g) g src dest n g
  unchanged-Copied g src dest n p e b hb = elim (Bool-cases (within b dest n)) [
    | inl i ↦ rw i (
        none_from-true g dest n (ground arith) b (ground arith) (ground arith)
        ∙ sym
            (none_from-true g src n (ground arith) (src + (b - dest)) (omega arith) (ground arith)))
    | inr o ↦ rw o refl
  ]

  -- The copy of `_sym_memmove`, in the direction that spares the bytes still to be read.
  abbrev move_shadow : (src dest n : ℕ) → Pages B.Expr → Option (Pages B.Expr)
  move_shadow src dest n g =
      if ltb src dest then copy_backward B.bits g src dest n else copy B.bits g src dest n

  move_shadow-Copied :
      (g : Pages B.Expr) (src dest n : ℕ)
      → src + n < word_mod
      → dest + n < word_mod
      → BytesIn B.bits g src n
      → (h : Pages B.Expr) × (move_shadow src dest n g ≡ some h)
        × Copied (shadow_at g) g src dest n h
  move_shadow-Copied g src dest n p q bs = elim (Bool-cases (ltb src dest)) [
    | inl up ↦ rw up (copy_backward-Copied B.bits g src dest n p q (ground arith) bs)
    | inr down ↦ rw down (copy-Copied B.bits g src dest n p q (inl (ground arith)) bs)
  ]

  -- After `_sym_memcpy` each byte of the target range has the expression that its source byte had,
  -- and every other byte has the one that it had, whether the copy was skipped or made. The run
  -- fails no assertion, and it changes only the shadow and the backend's state. Conditions: the
  -- ranges do not reach the end of the address space and hold expressions of bytes, the target
  -- does not begin inside the source behind its first byte, and the backend accepts its call.
  pub memcpy_shadow :
      (m : Machine B) (sd ss sz : Sym B) (dest src n : ℕ) {t : B.State}
      → src + n < word_mod
      → dest + n < word_mod
      → (dest ≤ src) ⊎ (src + n ≤ dest)
      → Bytes m src n
      → Bytes m dest n
      → B.backend_memcpy sd ss sz dest src n m.backend ≡ some t
      → Returns
          (λ _ m'. Copied (view m) m.shadow_pages src dest n m'.shadow_pages × SameProgram m m')
          (memcpy B sd ss sz dest src n m)
  unfolding memcpy
  memcpy_shadow m sd ss sz dest src n {t} p q apart bs bd ok =
      rw (symbolic_ranges_lem m src dest n p q bs bd) (
        call-change m (λ h. Copied (view m) m.shadow_pages src dest n h)
          (is_some sd
            || is_some ss
            || is_some sz
            || (not (none_from m.shadow_pages src n && none_from m.shadow_pages dest n)))
          (not (none_from m.shadow_pages src n && none_from m.shadow_pages dest n))
          (B.backend_memcpy sd ss sz dest src n) (λ g. copy B.bits g src dest n) t ok
          (λ _. copy-Copied B.bits m.shadow_pages src dest n p q apart bs)
          λ e. unchanged-Copied m.shadow_pages src dest n p (ground arith))

  -- After `_sym_memmove`, however the ranges overlap, each byte of the target range has the
  -- expression that its source byte had, and every other byte has the one that it had, whether the
  -- copy was skipped or made. The run fails no assertion, and it changes only the shadow and the
  -- backend's state. The ranges do not reach the end of the address space and hold expressions of
  -- bytes, and the backend accepts its call.
  pub memmove_shadow :
      (m : Machine B) (sd ss sz : Sym B) (dest src n : ℕ) {t : B.State}
      → src + n < word_mod
      → dest + n < word_mod
      → Bytes m src n
      → Bytes m dest n
      → B.backend_memmove sd ss sz dest src n m.backend ≡ some t
      → Returns
          (λ _ m'. Copied (view m) m.shadow_pages src dest n m'.shadow_pages × SameProgram m m')
          (memmove B sd ss sz dest src n m)
  unfolding memmove
  memmove_shadow m sd ss sz dest src n {t} p q bs bd ok =
      rw (symbolic_ranges_lem m src dest n p q bs bd) (
        call-change m (λ h. Copied (view m) m.shadow_pages src dest n h)
          (is_some sd
            || is_some ss
            || is_some sz
            || (not (none_from m.shadow_pages src n && none_from m.shadow_pages dest n)))
          (not (none_from m.shadow_pages src n && none_from m.shadow_pages dest n))
          (B.backend_memmove sd ss sz dest src n) (move_shadow src dest n) t ok
          (λ _. move_shadow-Copied m.shadow_pages src dest n p q bs)
          λ e. unchanged-Copied m.shadow_pages src dest n p (ground arith))

  -- After `_sym_memset` each byte of the range has the expression of the value as it was passed,
  -- or none if there is none, and every other byte has the one that it had, on every branch. The
  -- run fails no assertion, and it changes only the shadow and the backend's state. The range does
  -- not reach the end of the address space and held expressions of bytes, and the backend accepts
  -- its call.
  pub memset_shadow :
      (m : Machine B) (sd sv sz : Sym B) (addr value n : ℕ) {t : B.State}
      → addr + n < word_mod
      → Bytes m addr n
      → B.backend_memset sd sv sz addr value n m.backend ≡ some t
      → Returns
          (λ _ m'.
            ((b : ℕ) → b < word_mod → view m' b ≡ (if within b addr n then sv else view m b))
            × SameProgram m m')
          (memset B sd sv sz addr value n m)
  unfolding memset
  memset_shadow m sd sv sz addr value n {t} p bs ok =
      let g = m.shadow_pages in
      rw (concrete_lem m addr n p bs) (
        call-change m
          (λ h. (b : ℕ) → b < word_mod → shadow_at h b ≡ (if within b addr n then sv else view m b))
          (is_some sd || is_some sv || is_some sz || not (none_from m.shadow_pages addr n))
          (is_some sv || not (none_from m.shadow_pages addr n))
          (B.backend_memset sd sv sz addr value n) (λ g. some (fill g addr n sv)) t ok
          (λ _. (fill g addr n sv, refl, λ b hb. shadow_at-fill g addr n sv b p hb))
          λ e b hb. elim (Bool-cases (within b addr n)) [
            | inl i ↦ rw i (
                none_from-true g addr n (ground arith) b (ground arith) (ground arith)
                ∙ ground arith)
            | inr o ↦ rw o refl
          ])
