-- ===== src/Runtime/Writing.antt =====
-- `_sym_write_memory` of runtime/RuntimeCommon.cpp: the expressions that a write leaves in the
-- shadow, and reading back what was written.
use symcc.Common.{
  ℕ, ◌⊎◌, zero, suc, ◌+◌, ◌-◌, ◌*◌, ◌^◌, ◌≤◌, ◌<◌, ◌≡◌, refl, sym, ◌∙◌, ap, subst, Bool, true,
  false, not, ◌||◌, none, some, arith, ◌==◌, if◌then◌else◌, is_some, Bool-cases, inl, inr, eq_of_==,
  ==_refl,
}
use symcc.Common.Digits.{
  digit, little_value-congr, little_value-digit, big_value-congr, big_value-digit,
}
use native.Mathlib.Nat.{mod-eq_of_lt}
use symcc.Backend.{Backend, BackendLaws}
use symcc.Shadow.{
  Pages, WriteShadowIterator, word_mod, is_byte, write_iterator, next_write, store_cell,
}
use symcc.Shadow.View.{shadow_at}
use symcc.Shadow.Writing.{Writes, write_iterator-WritesAt}
use symcc.Shadow.Fill.{shadow_at-write, write_step, Writes-keep}
use symcc.Shadow.Concrete.{none_from}
use symcc.Runtime.{Machine, write_loop, write_memory, read_memory, sub_size, mul_size, add_size}
use symcc.Runtime.Transfer.{view, Bytes, concrete_lem}
use symcc.Runtime.Reading.{read_memory-StandsFor, ordered_value, byte_value, value_of, at_state}

-- Which byte of a value of `n` bytes, the lowest first, stands at place `i` in memory.
abbrev pub place : Bool → ℕ → ℕ → ℕ
place little n i = if little then i else n - 1 - i

module _ (B : Backend) (L : BackendLaws B) where
  open B use {Expr, State, bits}
  open L use {Env, value}

  -- The expression is byte `k` of `e`.
  pub record IsByteOf (e : Expr) (k : ℕ) (b : Expr) : Type 0 where
    pub width : bits b ≡ 8
    pub contents : (ρ : Env) → value ρ b ≡ digit (value ρ e) k

  byte_expr : Bool → Expr → ℕ → ℕ → State → Expr × State
  byte_expr little e len i =
      if little
      then B.extract_helper e (sub_size (8 * (i + 1)) 1) (8 * i)
      else B.extract_helper e (sub_size (mul_size (sub_size len i) 8) 1)
          (mul_size (sub_size (sub_size len i) 1) 8)

  extract_byte :
      (e : Expr) (k hi lo : ℕ) (t : State)
      → lo ≡ 8 * k
      → hi ≡ 8 * k + 7
      → hi < bits e
      → IsByteOf e k (B.extract_helper e hi lo t).0
  extract_byte e k hi lo t p q h =
      let n : suc (hi - lo) ≡ 8 = omega arith in
      record {
        width = L.bits-extract e hi lo t (omega arith) h ∙ n;
        contents = λ ρ. rw (L.value-extract ρ e hi lo t (omega arith) h, n, p) refl;
      }

  byte_expr_lem :
      (little : Bool) (e : Expr) (len i : ℕ) (t : State)
      → bits e ≡ 8 * len
      → bits e < word_mod
      → i < len
      → IsByteOf e (place little len i) (byte_expr little e len i t).0
  unfolding byte_expr
  byte_expr_lem true e len i t w h p =
      extract_byte e i _ _ t (omega arith) (omega arith) (omega arith)
  byte_expr_lem false e len i t w h p =
      extract_byte e (len - 1 - i) _ _ t (omega arith) (omega arith) (omega arith)

  -- The shadow `h` is `g` but for the bytes of `e` from byte `i` on, `x` being the address of byte 0.
  pub record Written (g : Pages Expr) (little : Bool) (e : Expr) (len x i : ℕ) (h : Pages Expr)
      : Type 0 where
    pub inside :
        (j : ℕ)
        → i ≤ j
        → j < len
        → (b : Expr) × (shadow_at h (x + j) ≡ some b) × IsByteOf e (place little len j) b
    pub outside :
        (a : ℕ) → a < word_mod → (a < x + i) ⊎ (x + len ≤ a) → shadow_at h a ≡ shadow_at g a

  write_loop_lem :
      (n i : ℕ) (m : Machine B) (little : Bool) (e : Expr) (len x : ℕ) (it : WriteShadowIterator)
      → i + n ≡ len
      → bits e ≡ 8 * len
      → bits e < word_mod
      → x + len < word_mod
      → Writes m.shadow_pages (x + i) it
      → (t : State) × (h : Pages Expr) × (write_loop B n little e len i it m
          ≡ some (tt, record m { backend = t; shadow_pages = h }))
        × Written m.shadow_pages little e len x i h
  unfolding write_loop byte_expr
  write_loop_lem zero i m little e len x it q w small fits at = (
    m.backend,
    m.shadow_pages,
    refl,
    record { inside = λ j s t. absurd (omega arith); outside = λ a ha o. refl },
  )
  write_loop_lem (suc n) i m little e len x it q w small fits at =
      let g = m.shadow_pages in
      let b = byte_expr little e len i m.backend in
      let g1 = store_cell g it.shadow (some b.0) in
      let (at', ext) = write_step g (x + i) it (some b.0) (omega arith) at in
      let g2 = (next_write g1 it).1 in
      let it' = (next_write g1 it).0 in
      let stored : (a : ℕ)
          → a < word_mod
          → shadow_at g2 a ≡ (if x + i == a then some b.0 else shadow_at g a) =
        λ a ha. ext.same a ∙ shadow_at-write g (x + i) a it (some b.0) (omega arith) ha at in
      let (t, h, run, rest) =
        write_loop_lem n (i + 1) (record m { backend = b.1; shadow_pages = g2 }) little e len x it'
          (omega arith) w small fits (subst (λ y. Writes g2 y it') (step x i) at') in
      (
        t,
        h,
        run,
        record {
          inside = λ j s p. elim (Bool-cases (i == j)) [
            | inl eq ↦
                let at_i =
                  rest.outside (x + i) (omega arith) (inl (omega arith))
                  ∙ stored (x + i) (omega arith)
                  ∙ ground arith in
                subst
                  (λ j.
                    (c : Expr) × (shadow_at h (x + j) ≡ some c) × IsByteOf e (place little len j) c)
                  (eq_of_== i j eq)
                  (b.0, at_i, byte_expr_lem little e len i m.backend w small (omega arith))
            | inr ne ↦ rest.inside j (ground arith) p
          ];
          outside = λ a ha o.
              rest.outside a ha (elim o [ inl l ↦ inl (omega arith) | inr r ↦ inr r ])
              ∙ stored a ha
              ∙ ground arith;
        },
      )
    where
      step : (x i : ℕ) → suc (x + i) ≡ x + (i + 1)
      step x i = omega arith

  always : (c : Bool) → (not c || false || true) ≡ true
  always true = refl
  always false = refl

  -- `_sym_write_memory` of an expression of 8 bits for each byte, at a concrete address:
  -- afterwards the shadow of each byte of the range is the expression of that byte of the value,
  -- the lowest first or the highest first, and every other byte of memory has the expression that
  -- it had. Besides the shadow only the backend's state changes. The range is not empty, does not
  -- reach the end of the address space and held expressions of bytes, and the width of the
  -- expression is below 2^64.
  pub write_memory-Written :
      (m : Machine B) (e : Expr) (a n : ℕ) (little : Bool)
      → 0 < n
      → bits e ≡ 8 * n
      → bits e < word_mod
      → a + n < word_mod
      → Bytes B m a n
      → (t : State) × (h : Pages Expr) × (write_memory B none (some e) a n little m
          ≡ some (tt, record m { backend = t; shadow_pages = h }))
        × Written m.shadow_pages little e n a 0 h
  unfolding write_memory
  write_memory-Written m e a n little pos w small fits byte =
      let g = m.shadow_pages in
      let nonzero : (n == 0) ≡ false = ground arith in
      let (t, told) = L.write_returns (some e) a n little m.backend in
      let (at, ext) = write_iterator-WritesAt g a in
      let g1 = (write_iterator g a).1 in
      let end = add_size a n in
      let (_, ext') = write_iterator-WritesAt g1 end in
      let g2 = (write_iterator g1 end).1 in
      let it = (write_iterator g a).0 in
      let at' =
        subst (λ y. Writes g2 y it) (plus_zero a) (Writes-keep g1 g2 a it at (ext'.keeps a)) in
      let (t', h, run, wr) =
        write_loop_lem n 0 (record m { backend = t; shadow_pages = g2 }) little e n a it
          (omega arith) w small fits at' in
      (
        t',
        h,
        rw (nonzero, concrete_lem B m a n fits byte, always (none_from g a n), told) run,
        record {
          inside = wr.inside;
          outside = λ b hb o. wr.outside b hb o ∙ ext'.same b ∙ ext.same b;
        },
      )
    where
      plus_zero : (a : ℕ) → a ≡ a + 0
      plus_zero a = omega arith

  -- What the bytes of a written value stand for together.
  ordered_value-place :
      (v n : ℕ) (little : Bool) (d : ℕ → ℕ)
      → v < 2 ^ (8 * n)
      → ((i : ℕ) → i < n → d i ≡ digit v (place little n i))
      → ordered_value little d n ≡ v
  ordered_value-place v n true d h same =
      little_value-congr d (digit v) n same ∙ little_value-digit v n ∙ mod-eq_of_lt h
  ordered_value-place v n false d h same =
      big_value-congr d (λ i. digit v (n - 1 - i)) n same ∙ big_value-digit v n ∙ mod-eq_of_lt h

  -- What was written are expressions of bytes.
  Written-Bytes :
      (m m' : Machine B) (e : Expr) (a n : ℕ) (little : Bool)
      → Written m.shadow_pages little e n a 0 m'.shadow_pages
      → Bytes B m' a n
  Written-Bytes m m' e a n little wr x p q =
      let (b, at, is) = wr.inside (x - a) (omega arith) (omega arith) in
      let back : a + (x - a) ≡ x = omega arith in
      let at' : shadow_at m'.shadow_pages x ≡ some b =
        subst (λ y. shadow_at m'.shadow_pages y ≡ some b) back at in
      ap (is_byte bits) at' ∙ ap (λ k. k == 8) is.width ∙ ==_refl 8

  -- Writing an expression of 8 bits for each byte with `_sym_write_memory` and reading the range
  -- back with `_sym_read_memory` in the same order, both at a concrete address, succeeds and gives
  -- an expression of the same width and of the same value under every assignment. The range is not
  -- empty, does not reach the end of the address space and held expressions of bytes, and the
  -- width of the expression is below 2^64.
  pub read_memory-write_memory :
      (m : Machine B) (e : Expr) (a n : ℕ) (little : Bool)
      → 0 < n
      → bits e ≡ 8 * n
      → bits e < word_mod
      → a + n < word_mod
      → Bytes B m a n
      → (m' : Machine B) × (write_memory B none (some e) a n little m ≡ some (tt, m'))
        × (r : Expr) × (m'' : Machine B) × (read_memory B none a n little m' ≡ some (some r, m''))
        × (bits r ≡ bits e)
        × ((ρ : Env) → value ρ r ≡ value ρ e)
  read_memory-write_memory m e a n little pos w small fits byte =
      let (t, h, run, wr) = write_memory-Written m e a n little pos w small fits byte in
      let m' = record m { backend = t; shadow_pages = h } in
      let byte' = Written-Bytes m m' e a n little wr in
      let first = wr.inside 0 (omega arith) pos in
      let shadowed : is_some (view B m' (a + 0)) ≡ true = ap is_some first.1 in
      let (r, t', run', s) =
        read_memory-StandsFor B L m' a n (a + 0) little pos fits byte' (omega arith) (omega arith)
          shadowed in
      (
        m',
        run,
        r,
        at_state B L m' t',
        run',
        s.width ∙ sym w,
        λ ρ.
            s.contents ρ
            ∙ ordered_value-place (value ρ e) n little (λ i. byte_value B L ρ m' (a + i))
                (subst (λ k. value ρ e < 2 ^ k) w (L.value_bound ρ e))
                λ i p.
                  let (b, at, is) = wr.inside i (omega arith) p in
                  ap (λ o. value_of B L ρ o (m.memory (a + i))) at ∙ is.contents ρ,
      )
