-- ===== src/Runtime/Aggregates/Values.antt =====
-- What the extracted expressions stand for, byte by byte.
use symcc.Common.{
  ℕ, zero, suc, ◌+◌, ◌-◌, ◌*◌, ◌/◌, ◌%◌, ◌^◌, ◌≤◌, ◌<◌, ◌≡◌, refl, sym, ◌∙◌, ap, subst, Bool, true,
  false, some, arith, ◌==◌,
}
use native.Mathlib.Nat.{div-div-eq-div-mul, mod-eq_of_lt}
use symcc.Common.Powers.{pow-add}
use symcc.Common.Digits.{
  digit, little_value, big_value, little_value-congr, big_value-congr, little_value-digit,
  big_value-digit, digit-little_value,
}
use symcc.Backend.{Backend, BackendLaws}
use symcc.Shadow.{word_mod}
use symcc.Runtime.{Machine, add_size, sub_size, mul_size}
use symcc.Runtime.Reading.{ordered_value, at_state}
use symcc.Runtime.Aggregates.{extract_loop, build_extract, build_bswap}

-- Byte `k` of a value of `n` bytes, counted from the highest one.
abbrev pub top_byte : ℕ → ℕ → ℕ → ℕ
top_byte v n k = digit v (n - 1 - k)

-- The digits of a quotient are the higher digits.
pub digit-shift : (v s j : ℕ) → digit (v / 2 ^ (8 * s)) j ≡ digit v (s + j)
digit-shift v s j =
    ap (λ (t : ℕ). t % 256)
      (div-div-eq-div-mul v (2 ^ (8 * s)) (2 ^ (8 * j))
        ∙ ap (λ (t : ℕ). v / t) (sym (pow-add (8 * s) (8 * j)))
        ∙ ap (λ (t : ℕ). v / 2 ^ t) (distribute s j))
  where
    distribute : (s j : ℕ) → 8 * s + 8 * j ≡ 8 * (s + j)
    distribute s j = omega arith

-- A run of bytes, the highest first, is cut out by a quotient and a remainder.
pub big_value-slice :
    (v n offset len : ℕ)
    → 0 < len
    → offset + len ≤ n
    → v / 2 ^ (8 * (n - offset - len)) % 2 ^ (8 * len)
      ≡ big_value (λ i. top_byte v n (offset + i)) len
big_value-slice v n offset len pos h =
    let s = n - offset - len in
    sym (big_value-digit (v / 2 ^ (8 * s)) len)
    ∙ big_value-congr (λ i. digit (v / 2 ^ (8 * s)) (len - 1 - i)) (λ i. top_byte v n (offset + i))
        len λ i p. digit-shift v s (len - 1 - i) ∙ ap (digit v) (omega arith)

module _ (B : Backend) (L : BackendLaws B) where
  open B use {Expr, State, bits}
  open L use {Env, value}

  -- The expression stands for the `len` bytes of `e` from byte `offset` on, `e` having `n` bytes.
  pub record IsSlice (e : Expr) (n offset len : ℕ) (little : Bool) (r : Expr) : Type 0 where
    pub width : bits r ≡ 8 * len
    pub contents :
        (ρ : Env) → value ρ r ≡ ordered_value little (λ i. top_byte (value ρ e) n (offset + i)) len

  extract_byte_top :
      (e : Expr) (n k hi lo : ℕ) (t : State)
      → bits e ≡ 8 * n
      → k < n
      → hi ≡ 8 * (n - 1 - k) + 7
      → lo ≡ 8 * (n - 1 - k)
      → (bits (B.extract_helper e hi lo t).0 ≡ 8)
        × ((ρ : Env) → value ρ (B.extract_helper e hi lo t).0 ≡ top_byte (value ρ e) n k)
  extract_byte_top e n k hi lo t w h p q =
      let eight : suc (hi - lo) ≡ 8 = omega arith in
      (
        L.bits-extract e hi lo t (omega arith) (omega arith) ∙ eight,
        λ ρ. rw (L.value-extract ρ e hi lo t (omega arith) (omega arith), eight, q) refl,
      )

  extract_loop_lem :
      (k i len : ℕ) (m : Machine B) (e : Expr) (n offset : ℕ) (r : Expr) (t : State)
      → i + k ≡ len
      → bits e ≡ 8 * n
      → bits e < word_mod
      → offset + len ≤ n
      → IsSlice e n offset i true r
      → (r' : Expr) × (t' : State) × (extract_loop B k e offset i r (at_state B L m t)
          ≡ some (r', at_state B L m t'))
        × IsSlice e n offset len true r'
  unfolding extract_loop little_value
  extract_loop_lem zero i len m e n offset r t q w small h s =
      (r, t, refl, subst (λ j. IsSlice e n offset j true r) (omega arith) s)
  extract_loop_lem (suc k) i len m e n offset r t q w small h s =
      let hi = sub_size (sub_size (bits e) (mul_size (add_size offset i) 8)) 1 in
      let lo = sub_size (bits e) (mul_size (add_size (add_size offset i) 1) 8) in
      let b = B.extract_helper e hi lo t in
      let (bw, bv) =
        extract_byte_top e n (offset + i) hi lo t w (omega arith) (omega arith) (omega arith) in
      let joined = B.concat_helper b.0 r b.1 in
      let s' : IsSlice e n offset (suc i) true joined.0 = record {
        width = L.bits-concat b.0 r b.1 ∙ omega (arith, bw, s.width);
        contents = λ ρ. L.value-concat ρ b.0 r b.1 ∙ rw (bv ρ, s.contents ρ, s.width) (omega arith);
      } in
      let (r', t', run, s'') =
        extract_loop_lem k (suc i) len m e n offset joined.0 joined.1 (omega arith) w small h s' in
      (r', t', run, s'')

  -- `_sym_build_extract` on an expression of `n` whole bytes, of a width below 2^64, gives the
  -- `len` bytes from byte `offset` on, counted from the highest one: in that order, or turned
  -- round for a little-endian value. There is at least one, and all of them lie in the expression.
  -- Only the backend's state changes.
  pub build_extract-IsSlice :
      (m : Machine B) (e : Expr) (n offset len : ℕ) (little : Bool)
      → bits e ≡ 8 * n
      → bits e < word_mod
      → 0 < len
      → offset + len ≤ n
      → (r : Expr) × (t : State) × (build_extract B e offset len little m
          ≡ some (r, at_state B L m t))
        × IsSlice e n offset len little r
  unfolding build_extract little_value big_value
  build_extract-IsSlice m e n offset len true w small pos h =
      let whole : (bits e % 8 == 0) ≡ true = ground arith in
      let hi = sub_size (sub_size (bits e) (mul_size offset 8)) 1 in
      let lo = sub_size (sub_size (bits e) (mul_size offset 8)) 8 in
      let t = m.backend in
      let b = B.extract_helper e hi lo t in
      let (bw, bv) =
        extract_byte_top e n (offset + 0) hi lo t w (omega arith) (omega arith) (omega arith) in
      let s : IsSlice e n offset 1 true b.0 = record {
        width = bw;
        contents = λ ρ. bv ρ ∙ omega arith;
      } in
      let (r, t', run, s') =
        extract_loop_lem (len - 1) 1 len m e n offset b.0 b.1 (omega arith) w small h s in
      (r, t', rw whole run, s')
  build_extract-IsSlice m e n offset len false w small pos h =
      let whole : (bits e % 8 == 0) ≡ true = ground arith in
      let hi = sub_size (sub_size (bits e) (mul_size offset 8)) 1 in
      let lo = sub_size (bits e) (mul_size (add_size offset len) 8) in
      let b = B.extract_helper e hi lo m.backend in
      let low : lo ≡ 8 * (n - offset - len) = omega arith in
      let size : suc (hi - lo) ≡ 8 * len = omega arith in
      (
        b.0,
        b.1,
        rw whole refl,
        record {
          width = L.bits-extract e hi lo m.backend (omega arith) (omega arith) ∙ size;
          contents = λ ρ.
              L.value-extract ρ e hi lo m.backend (omega arith) (omega arith)
              ∙ rw (size, low) (big_value-slice (value ρ e) n offset len pos h);
        },
      )

  top_byte_bound : (v n k : ℕ) → top_byte v n k < 256
  top_byte_bound v n k = omega arith

  -- Swapping the bytes of a value twice gives the value.
  swap_twice :
      (v n : ℕ)
      → v < 2 ^ (8 * n)
      → little_value (λ i. top_byte (little_value (λ j. top_byte v n (0 + j)) n) n (0 + i)) n ≡ v
  swap_twice v n h =
      let d = λ (j : ℕ). top_byte v n (0 + j) in
      little_value-congr (λ i. top_byte (little_value d n) n (0 + i)) (digit v) n
        (λ i p.
          digit-little_value d n (n - 1 - (0 + i)) (λ j q. top_byte_bound v n (0 + j)) (omega arith)
          ∙ ap (digit v) (omega arith))
      ∙ little_value-digit v n
      ∙ mod-eq_of_lt h

  -- `_sym_build_bswap` on an expression of an even number of bytes.
  pub build_bswap-IsSlice :
      (m : Machine B) (e : Expr) (n : ℕ)
      → bits e ≡ 16 * n
      → bits e < word_mod
      → 0 < n
      → (r : Expr) × (t : State) × (build_bswap B e m ≡ some (r, at_state B L m t))
        × IsSlice e (2 * n) 0 (2 * n) true r
  unfolding build_bswap
  build_bswap-IsSlice m e n w small pos =
      let even : (bits e % 16 == 0) ≡ true = ground arith in
      let bytes : bits e / 8 ≡ 2 * n = omega arith in
      rw (even, bytes)
        (build_extract-IsSlice m e (2 * n) 0 (2 * n) true (omega arith) small (omega arith)
          (omega arith))

  -- `_sym_build_bswap` on an expression of an even, positive number of bytes, of a width below
  -- 2^64, succeeds, and doing it twice gives an expression of the same width and of the same value
  -- under every assignment.
  pub build_bswap-build_bswap :
      (m : Machine B) (e : Expr) (n : ℕ)
      → bits e ≡ 16 * n
      → bits e < word_mod
      → 0 < n
      → (r : Expr) × (m' : Machine B) × (build_bswap B e m ≡ some (r, m'))
        × (r' : Expr) × (m'' : Machine B) × (build_bswap B r m' ≡ some (r', m''))
        × (bits r' ≡ bits e)
        × ((ρ : Env) → value ρ r' ≡ value ρ e)
  build_bswap-build_bswap m e n w small pos =
      let (r, t, run, s) = build_bswap-IsSlice m e n w small pos in
      let (r', t', run', s') =
        build_bswap-IsSlice (at_state B L m t) r n (omega (arith, s.width)) (omega (arith, s.width))
          pos in
      (
        r,
        at_state B L m t,
        run,
        r',
        at_state B L m t',
        run',
        omega (arith, s.width, s'.width),
        λ ρ.
            s'.contents ρ
            ∙ ap (λ u. little_value (λ i. top_byte u (2 * n) (0 + i)) (2 * n)) (s.contents ρ)
            ∙ swap_twice (value ρ e) (2 * n)
                (subst (λ k. value ρ e < 2 ^ k) (bytes (bits e) n w) (L.value_bound ρ e)),
      )
    where
      bytes : (b n : ℕ) → b ≡ 16 * n → b ≡ 8 * (2 * n)
      bytes b n h = omega arith
