-- ===== src/Runtime/Aggregates/Insertion.antt =====
-- `_sym_build_insert`: the bytes of the result, and taking the inserted value out again.
use symcc.Common.{
  ℕ, ◌+◌, ◌-◌, ◌*◌, ◌/◌, ◌%◌, ◌^◌, ◌≤◌, ◌<◌, ◌≡◌, refl, sym, ◌∙◌, ap, subst, Bool, true, false,
  none, some, arith, ◌==◌, ltb, leb, ◌&&◌, if◌then◌else◌, Bool-cases, inl, inr,
}
use native.Mathlib.Nat.{div-eq_of_lt, add-mul-div_right}
use symcc.Common.Powers.{two_pow_pos}
use symcc.Common.Digits.{digit, digit-little_value, big_value-reverse, digit-add_higher}
use symcc.Common.Cmd.{pure}
use symcc.Backend.{Backend, BackendLaws}
use symcc.Shadow.{word_mod}
use symcc.Shadow.Fill.{within}
use symcc.Runtime.{Machine, Sym, add_size, sub_size}
use symcc.Runtime.Reading.{at_state}
use symcc.Runtime.Aggregates.{build_extract, build_bswap, build_insert, join, join_after, some_of}
use symcc.Runtime.Aggregates.Values.{
  top_byte, digit-shift, IsSlice, build_extract-IsSlice, build_bswap-IsSlice,
}

-- The bytes of one value above those of another.
abbrev pub above : ℕ → (ℕ → ℕ) → (ℕ → ℕ) → ℕ → ℕ
above n d e j = if ltb j n then d j else e (j - n)

top_byte-concat :
    (a b n k j : ℕ)
    → b < 2 ^ (8 * k)
    → j < n + k
    → top_byte (a * 2 ^ (8 * k) + b) (n + k) j ≡ above n (top_byte a n) (top_byte b k) j
top_byte-concat a b n k j h p =
    let swap : a * 2 ^ (8 * k) + b ≡ b + a * 2 ^ (8 * k) = omega arith in
    ap (λ v. top_byte v (n + k) j) swap ∙ elim (Bool-cases (ltb j n)) [
      | inl l ↦
          let i : n + k - 1 - j ≡ k + (n - 1 - j) = ground arith in
          let q : (b + a * 2 ^ (8 * k)) / 2 ^ (8 * k) ≡ a =
            add-mul-div_right b a (two_pow_pos (8 * k)) ∙ omega (arith, div-eq_of_lt h) in
          ap (digit (b + a * 2 ^ (8 * k))) i
          ∙ sym (digit-shift (b + a * 2 ^ (8 * k)) k (n - 1 - j))
          ∙ rw (q, l) refl
      | inr r ↦
          let i : n + k - 1 - j ≡ k - 1 - (j - n) = ground arith in
          ap (digit (b + a * 2 ^ (8 * k))) i
          ∙ digit-add_higher b a k (k - 1 - (j - n)) (ground arith)
          ∙ rw r refl
    ]

and-false : (b : Bool) → (b && false) ≡ false
and-false true = refl
and-false false = refl

above-congr :
    (n : ℕ) (d d' e e' : ℕ → ℕ) (j : ℕ)
    → (j < n → d j ≡ d' j)
    → (n ≤ j → e (j - n) ≡ e' (j - n))
    → above n d e j ≡ above n d' e' j
above-congr n d d' e e' j p q = elim (Bool-cases (ltb j n)) [
  | inl l ↦ rw l (p (ground arith))
  | inr r ↦ rw r (q (ground arith))
]

-- Byte `j` of a value of `k` bytes as it stands in memory.
abbrev pub piece_byte : Bool → ℕ → ℕ → ℕ → ℕ
piece_byte little v k j = if little then digit v j else top_byte v k j

-- Byte `j` of a value of `n` bytes in which `x`, of `k` bytes, has been put at byte `offset`.
abbrev pub inserted_byte : Bool → (v n x k offset : ℕ) → ℕ → ℕ
inserted_byte little v n x k offset j =
    if within j offset k then piece_byte little x k (j - offset) else top_byte v n j

module _ (B : Backend) (L : BackendLaws B) where
  open B use {Expr, State, bits}
  open L use {Env, value}

  -- The expression has `n` bytes, which are `d`, the highest first.
  pub record HasBytes (n : ℕ) (d : Env → ℕ → ℕ) (r : Expr) : Type 0 where
    pub width : bits r ≡ 8 * n
    pub bytes : (ρ : Env) (j : ℕ) → j < n → top_byte (value ρ r) n j ≡ d ρ j

  -- So does a null expression, if there are none.
  abbrev PartBytes : ℕ → (Env → ℕ → ℕ) → Sym B → Type 0
  PartBytes n d none = n ≡ 0
  PartBytes n d (some e) = HasBytes n d e

  IsSlice-HasBytes :
      (e r : Expr) (n offset len : ℕ)
      → IsSlice B L e n offset len false r
      → HasBytes len (λ ρ j. top_byte (value ρ e) n (offset + j)) r
  IsSlice-HasBytes e r n offset len s = record {
    width = s.width;
    bytes = λ ρ j p.
        let d = λ (i : ℕ). top_byte (value ρ e) n (offset + i) in
        ap (λ v. top_byte v len j) (s.contents ρ ∙ big_value-reverse d len)
        ∙ digit-little_value (λ i. d (len - 1 - i)) len (len - 1 - j) (λ i q. omega arith)
            (omega arith)
        ∙ ap d (omega arith);
  }

  IsSlice-HasBytes_swapped :
      (e r : Expr) (n : ℕ) → IsSlice B L e n 0 n true r → HasBytes n (λ ρ j. digit (value ρ e) j) r
  IsSlice-HasBytes_swapped e r n s = record {
    width = s.width;
    bytes = λ ρ j p.
        let d = λ (i : ℕ). top_byte (value ρ e) n (0 + i) in
        ap (λ v. top_byte v n j) (s.contents ρ)
        ∙ digit-little_value d n (n - 1 - j) (λ i q. omega arith) (omega arith)
        ∙ ap (digit (value ρ e)) (omega arith);
  }

  concat-HasBytes :
      (a b : Expr) (n k : ℕ) (d e : Env → ℕ → ℕ) (t : State)
      → HasBytes n d a
      → HasBytes k e b
      → HasBytes (n + k) (λ ρ. above n (d ρ) (e ρ)) (B.concat_helper a b t).0
  concat-HasBytes a b n k d e t p q = record {
    width = omega (arith, L.bits-concat a b t, p.width, q.width);
    bytes = λ ρ j h.
        let small = subst (λ w. value ρ b < 2 ^ w) q.width (L.value_bound ρ b) in
        let joined =
          L.value-concat ρ a b t ∙ ap (λ (w : ℕ). value ρ a * 2 ^ w + value ρ b) q.width in
        ap (λ v. top_byte v (n + k) j) joined
        ∙ top_byte-concat (value ρ a) (value ρ b) n k j small h
        ∙ above-congr n (top_byte (value ρ a) n) (d ρ) (top_byte (value ρ b) k) (e ρ) j
            (λ l. p.bytes ρ j l) (λ l. q.bytes ρ (j - n) (omega arith));
  }

  -- The two steps that put the parts together.
  join_lem :
      (m : Machine B) (o : Sym B) (r : Expr) (n k : ℕ) (d e : Env → ℕ → ℕ) (t : State)
      → PartBytes n d o
      → HasBytes k e r
      → (r' : Expr) × (t' : State) × (join B o r (at_state B L m t) ≡ some (r', at_state B L m t'))
        × HasBytes (n + k) (λ ρ. above n (d ρ) (e ρ)) r'
  join_lem m none r n k d e t p q = (
    r,
    t,
    refl,
    record {
      width = omega (arith, q.width);
      bytes = λ ρ j h.
          let nk : n + k ≡ k = omega arith in
          let out : ltb j n ≡ false = ground arith in
          let jn : j ≡ j - n = omega arith in
          ap (λ w. top_byte (value ρ r) w j) nk ∙ q.bytes ρ j (omega arith) ∙ rw out (ap (e ρ) jn);
    },
  )
  join_lem m (some a) r n k d e t p q =
      let c = B.concat_helper a r t in (c.0, c.1, refl, concat-HasBytes a r n k d e t p q)

  join_after_lem :
      (m : Machine B) (o : Sym B) (r : Expr) (n k : ℕ) (d e : Env → ℕ → ℕ) (t : State)
      → HasBytes n d r
      → PartBytes k e o
      → (r' : Expr) × (t' : State) × (join_after B r o (at_state B L m t)
          ≡ some (r', at_state B L m t'))
        × HasBytes (n + k) (λ ρ. above n (d ρ) (e ρ)) r'
  join_after_lem m none r n k d e t p q = (
    r,
    t,
    refl,
    record {
      width = omega (arith, p.width);
      bytes = λ ρ j h.
          let nk : n + k ≡ n = omega arith in
          let low : ltb j n ≡ true = ground arith in
          ap (λ w. top_byte (value ρ r) w j) nk ∙ rw low (p.bytes ρ j (omega arith));
    },
  )
  join_after_lem m (some b) r n k d e t p q =
      let c = B.concat_helper r b t in (c.0, c.1, refl, concat-HasBytes r b n k d e t p q)

  slice_lem :
      (m : Machine B) (e : Expr) (n offset len : ℕ) (t : State)
      → bits e ≡ 8 * n
      → bits e < word_mod
      → offset + len ≤ n
      → (o : Sym B) × (t' : State) × ((if len == 0
              then pure none
              else some_of B (build_extract B e offset len false))
            (at_state B L m t)
          ≡ some (o, at_state B L m t'))
        × PartBytes len (λ ρ j. top_byte (value ρ e) n (offset + j)) o
  slice_lem m e n offset len t w small h = elim (Bool-cases (len == 0)) [
    | inl z ↦ (none, t, rw z refl, ground arith)
    | inr nz ↦
        let (r, t', run, s) =
          build_extract-IsSlice B L (at_state B L m t) e n offset len false w small (ground arith)
            h in
        (some r, t', rw (nz, run) refl, IsSlice-HasBytes e r n offset len s)
  ]

  piece_lem :
      (m : Machine B) (x : Expr) (k : ℕ) (little : Bool) (t : State)
      → bits x ≡ 8 * k
      → bits x < word_mod
      → 0 < k
      → (little ≡ true → k % 2 ≡ 0)
      → (r : Expr) × (t' : State) × ((if little then build_bswap B x else pure x) (at_state B L m t)
          ≡ some (r, at_state B L m t'))
        × HasBytes k (λ ρ. piece_byte little (value ρ x) k) r
  piece_lem m x k true t w small pos even =
      let half : k ≡ 2 * (k / 2) = omega (arith, even refl) in
      let (r, t', run, s) =
        build_bswap-IsSlice B L (at_state B L m t) x (k / 2) (omega arith) small (omega arith) in
      (
        r,
        t',
        run,
        IsSlice-HasBytes_swapped x r k (subst (λ j. IsSlice B L x j 0 j true r) (sym half) s),
      )
  piece_lem m x k false t w small pos even =
      (x, t, refl, record { width = w; bytes = λ ρ j p. refl })

  parts_together :
      (little : Bool) (v n x k offset j : ℕ)
      → j < n
      → offset + k ≤ n
      → above
          (offset + k)
          (above offset (λ i. top_byte v n (0 + i)) (piece_byte little x k))
          (λ i. top_byte v n (offset + k + i))
          j
        ≡ inserted_byte little v n x k offset j
  parts_together little v n x k offset j p q = elim (Bool-cases (ltb j offset)) [
    | inl before ↦
        let c : ltb j (offset + k) ≡ true = ground arith in
        let o : leb offset j ≡ false = ground arith in
        let z : 0 + j ≡ j = omega arith in rw (c, before, o, z) refl
    | inr not_before ↦ elim (Bool-cases (ltb j (offset + k))) [
      | inl c ↦ let o : within j offset k ≡ true = ground arith in rw (o, c, not_before) refl
      | inr after ↦
          let z : offset + k + (j - (offset + k)) ≡ j = ground arith in
          rw (after, and-false (leb offset j), z) refl
    ]
  ]

  -- The steps of `_sym_build_insert`, one after the other.
  build_insert_run :
      (m : Machine B) (e x : Expr) (offset from rest : ℕ) (little : Bool) (o1 o3 : Sym B)
      (r2 r4 r5 : Expr) (t1 t2 t3 t4 t5 : State)
      → (bits x % 8 == 0) ≡ true
      → sub_size (sub_size (bits e / 8) offset) (bits x / 8) ≡ rest
      → add_size offset (bits x / 8) ≡ from
      → (if offset == 0 then pure none else some_of B (build_extract B e 0 offset false)) m
        ≡ some (o1, at_state B L m t1)
      → (if little then build_bswap B x else pure x) (at_state B L m t1)
        ≡ some (r2, at_state B L m t2)
      → (if rest == 0 then pure none else some_of B (build_extract B e from rest false))
          (at_state B L m t2)
        ≡ some (o3, at_state B L m t3)
      → join B o1 r2 (at_state B L m t3) ≡ some (r4, at_state B L m t4)
      → join_after B r4 o3 (at_state B L m t4) ≡ some (r5, at_state B L m t5)
      → build_insert B e x offset little m ≡ some (r5, at_state B L m t5)
  unfolding build_insert
  build_insert_run m e x offset from rest little o1 o3 r2 r4 r5 t1 t2 t3 t4 t5 w al fr c1 c2 c3 c4
        c5 =
      rw (w, al, fr, c1, c2, c3, c4) c5

  -- `_sym_build_insert` of a value of `k` bytes, at least one, at byte `offset` of one of `n`
  -- bytes, counted from the highest one, in which it fits and whose width is below 2^64: the
  -- result has `n` bytes, those of the inserted value in memory order where it stands and those of
  -- the target elsewhere. A little-endian value has an even number of bytes. Only the backend's
  -- state changes.
  pub build_insert-HasBytes :
      (m : Machine B) (e x : Expr) (n k offset : ℕ) (little : Bool)
      → bits e ≡ 8 * n
      → bits e < word_mod
      → bits x ≡ 8 * k
      → 0 < k
      → offset + k ≤ n
      → (little ≡ true → k % 2 ≡ 0)
      → (r : Expr) × (t : State) × (build_insert B e x offset little m ≡ some (r, at_state B L m t))
        × HasBytes n (λ ρ. inserted_byte little (value ρ e) n (value ρ x) k offset) r
  build_insert-HasBytes m e x n k offset little we small wx pos h even =
      let whole : (bits x % 8 == 0) ≡ true = ground arith in
      let rest = n - (offset + k) in
      let after_len : sub_size (sub_size (bits e / 8) offset) (bits x / 8) ≡ rest = omega arith in
      let from : add_size offset (bits x / 8) ≡ offset + k = omega arith in
      let (o1, t1, run1, p1) = slice_lem m e n 0 offset m.backend we small (omega arith) in
      let (r2, t2, run2, p2) = piece_lem m x k little t1 wx (omega arith) pos even in
      let (o3, t3, run3, p3) = slice_lem m e n (offset + k) rest t2 we small (omega arith) in
      let (r4, t4, run4, p4) = join_lem m o1 r2 offset k _ _ t3 p1 p2 in
      let (r5, t5, run5, p5) = join_after_lem m o3 r4 (offset + k) rest _ _ t4 p4 p3 in
      let size : offset + k + rest ≡ n = omega arith in
      (
        r5,
        t5,
        build_insert_run m e x offset (offset + k) rest little o1 o3 r2 r4 r5 t1 t2 t3 t4 t5 whole
            after_len from run1 run2 run3 run4 run5,
        record {
          width = omega (arith, p5.width);
          bytes = λ ρ j p.
              ap (λ w. top_byte (value ρ r5) w j) (sym size)
              ∙ p5.bytes ρ j (omega arith)
              ∙ parts_together little (value ρ e) n (value ρ x) k offset j p h;
        },
      )
