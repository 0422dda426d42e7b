-- ===== src/Runtime/Reading.antt =====
-- `_sym_read_memory` of runtime/RuntimeCommon.cpp: the value that the expression of a read stands
-- for, byte by byte.
use symcc.Common.{
  ℕ, zero, suc, ◌+◌, ◌*◌, ◌%◌, ◌^◌, ◌≤◌, ◌<◌, ◌≡◌, refl, sym, ◌∙◌, ap, subst, Bool, true, false,
  Option, none, some, arith, ◌==◌, if◌then◌else◌, is_some, Bool-cases, Option-cases, inl, inr,
  eq_of_==,
}
use symcc.Common.Digits.{little_value, big_value}
use symcc.Backend.{Backend, BackendLaws}
use symcc.Shadow.{ReadShadowIterator, word_mod, is_byte, read_iterator, next_read}
use symcc.Shadow.Reading.{Reads, read_iterator-Reads, next_read-Reads, read_cell-Reads}
use symcc.Shadow.Concrete.{none_from, none_from-true, none_from_of}
use symcc.Runtime.{Machine, read_non_null, accumulate, read_memory}
use symcc.Runtime.Transfer.{view, Bytes, concrete_lem}

-- The number that bytes make up in memory, the lowest first or the highest first.
abbrev pub ordered_value : Bool → (ℕ → ℕ) → ℕ → ℕ
ordered_value little d n = if little then little_value d n else big_value d n

module _ (B : Backend) (L : BackendLaws B) where
  open B use {Expr, State, bits}
  open L use {Env, value}

  abbrev pub value_of : Env → Option Expr → ℕ → ℕ
  value_of ρ none byte = byte % 256
  value_of ρ (some e) byte = value ρ e

  -- The value of a byte of memory: what its expression stands for, or the byte itself.
  abbrev pub byte_value : Env → Machine B → ℕ → ℕ
  byte_value ρ m a = value_of ρ (view B m a) (m.memory a)

  abbrev pub at_state : Machine B → State → Machine B
  at_state m t = record m { backend = t }

  -- The expression stands for the `n` bytes from `a` on.
  pub record StandsFor (m : Machine B) (little : Bool) (a n : ℕ) (e : Expr) : Type 0 where
    pub width : bits e ≡ 8 * n
    pub contents : (ρ : Env) → value ρ e ≡ ordered_value little (λ i. byte_value ρ m (a + i)) n

  pub read_non_null_lem :
      (m : Machine B) (t : State) (lo hi x : ℕ) (it : ReadShadowIterator)
      → Reads (view B m) m.shadow_pages lo hi x it
      → lo ≤ x
      → x < hi
      → is_byte bits (view B m x) ≡ true
      → (e : Expr) × (t' : State) × (read_non_null B it (at_state m t) ≡ some (e, at_state m t'))
        × (bits e ≡ 8)
        × ((ρ : Env) → value ρ e ≡ byte_value ρ m x)
  unfolding read_non_null
  read_non_null_lem m t lo hi x it r p q byte = elim (Option-cases (view B m x)) [
    | inl v ↦
        let (e, t') = B.build_integer (m.memory it.address) 8 t in
        (
          e,
          t',
          rw (read_cell-Reads bits (view B m) m.shadow_pages lo hi x it r p q byte, v) refl,
          L.bits-integer (m.memory it.address) 8 t,
          λ ρ. rw (v, ← r.at) (L.value-integer ρ (m.memory it.address) 8 t),
        )
    | inr (e, v) ↦ (
      e,
      t,
      rw (read_cell-Reads bits (view B m) m.shadow_pages lo hi x it r p q byte, v) refl,
      eq_of_== (bits e) 8 (ap (is_byte bits) (sym v) ∙ byte),
      λ ρ. rw v refl,
    )
  ]

  join_lem :
      (m : Machine B) (little : Bool) (a k : ℕ) (e r : Expr) (t : State)
      → StandsFor m little a k r
      → bits e ≡ 8
      → ((ρ : Env) → value ρ e ≡ byte_value ρ m (a + k))
      → StandsFor m little a
          (suc k)
          ((if little then B.concat_helper e r else B.concat_helper r e) t).0
  unfolding little_value big_value
  join_lem m true a k e r t s w v = record {
    width = omega (arith, L.bits-concat e r t, s.width);
    contents = λ ρ. rw (L.value-concat ρ e r t, s.width, s.contents ρ, v ρ) (omega arith);
  }
  join_lem m false a k e r t s w v = record {
    width = omega (arith, L.bits-concat r e t, s.width);
    contents = λ ρ. rw (L.value-concat ρ r e t, w, s.contents ρ, v ρ) (omega arith);
  }

  accumulate_lem :
      (n k j : ℕ) (m : Machine B) (little : Bool) (a : ℕ) (it : ReadShadowIterator) (r : Expr)
      (t : State)
      → k + n ≡ j
      → a + j < word_mod
      → Bytes B m a j
      → Reads (view B m) m.shadow_pages a (a + j) (a + k) it
      → StandsFor m little a k r
      → (r' : Expr) × (t' : State) × (accumulate B n little it (some r) (at_state m t)
          ≡ some (some r', at_state m t'))
        × StandsFor m little a j r'
  unfolding accumulate
  accumulate_lem zero k j m little a it r t e h byte it_reads s =
      (r, t, refl, subst (λ i. StandsFor m little a i r) (omega arith) s)
  accumulate_lem (suc n) k j m little a it r t e h byte it_reads s =
      let x = a + k in
      let (b, t1, run, w, v) =
        read_non_null_lem m t a (a + j) x it it_reads (omega arith) (omega arith)
          (byte x (omega arith) (omega arith)) in
      let joined = (if little then B.concat_helper b r else B.concat_helper r b) t1 in
      let next = next_read-Reads (view B m) m.shadow_pages a (a + j) x it (omega arith) it_reads in
      let next' =
        subst (λ y. Reads (view B m) m.shadow_pages a (a + j) y (next_read m.shadow_pages it))
          (step a k) next in
      let (r', t', run', s') =
        accumulate_lem n (suc k) j m little a (next_read m.shadow_pages it) joined.0 joined.1
          (omega arith) h byte next' (join_lem m little a k b r t1 s w v) in
      (r', t', rw run run', s')
    where
      step : (a k : ℕ) → suc (a + k) ≡ a + suc k
      step a k = omega arith

  first_lem :
      (m : Machine B) (little : Bool) (a : ℕ) (e : Expr)
      → bits e ≡ 8
      → ((ρ : Env) → value ρ e ≡ byte_value ρ m a)
      → StandsFor m little a 1 e
  unfolding little_value big_value
  first_lem m little a e w v = record {
    width = omega arith;
    contents =
        λ ρ. v ρ ∙ ap (byte_value ρ m) (plus_zero a) ∙ one_digit (byte_value ρ m (a + 0)) little;
  }
    where
      plus_zero : (a : ℕ) → a ≡ a + 0
      plus_zero a = omega arith

      one_digit : (x : ℕ) (l : Bool) → x ≡ (if l then 0 + x * 2 ^ (8 * 0) else 0 * 256 + x)
      one_digit x true = omega arith
      one_digit x false = omega arith

  accumulate_all :
      (n : ℕ) (m : Machine B) (little : Bool) (a : ℕ)
      → a + suc n < word_mod
      → Bytes B m a (suc n)
      → (e : Expr) × (t : State) × (accumulate B
            (suc n)
            little
            (read_iterator m.shadow_pages a)
            none
            m
          ≡ some (some e, at_state m t))
        × StandsFor m little a (suc n) e
  unfolding accumulate
  accumulate_all n m little a h byte =
      let g = m.shadow_pages in
      let f = view B m in
      let hi = a + suc n in
      let start = read_iterator-Reads f g a hi a λ x p q. refl in
      let (b, t1, run, w, v) =
        read_non_null_lem m m.backend a hi a (read_iterator g a) start (omega arith) (omega arith)
          (byte a (omega arith) (omega arith)) in
      let next = next_read-Reads f g a hi a (read_iterator g a) (omega arith) start in
      let next' = subst (λ y. Reads f g a hi y (next_read g (read_iterator g a))) (step a) next in
      let (e, t, run', s) =
        accumulate_lem n 1 (suc n) m little a (next_read g (read_iterator g a)) b t1 (omega arith) h
          byte next' (first_lem m little a b w v) in
      (e, t, rw run run', s)
    where
      step : (a : ℕ) → suc a ≡ a + 1
      step a = omega arith

  read_some :
      (n : ℕ) (m : Machine B) (a : ℕ) (little : Bool)
      → 0 < n
      → a + n < word_mod
      → Bytes B m a n
      → none_from m.shadow_pages a n ≡ false
      → (e : Expr) × (t : State) × (read_memory B none a n little m ≡ some (some e, at_state m t))
        × StandsFor m little a n e
  unfolding read_memory
  read_some zero m a little pos h byte sym_data = absurd (omega arith)
  read_some (suc n) m a little pos h byte sym_data =
      let (e, t, run, s) = accumulate_all n m little a h byte in
      let (t', back) = L.read_value (some e) a (suc n) little t in
      let nonzero : (suc n == 0) ≡ false = ground arith in
      (e, t', rw (nonzero, concrete_lem B m a (suc n) h byte, sym_data, run, back) refl, s)

  -- `_sym_read_memory` at a concrete address of a range without expressions gives the null
  -- expression and changes nothing. The range is not empty and does not reach the end of the
  -- address space.
  pub read_memory-concrete :
      (m : Machine B) (a n : ℕ) (little : Bool)
      → 0 < n
      → a + n < word_mod
      → ((x : ℕ) → a ≤ x → x < a + n → view B m x ≡ none)
      → read_memory B none a n little m ≡ some (none, m)
  unfolding read_memory
  read_memory-concrete m a n little pos h empty =
      let byte : Bytes B m a n = λ x p q. rw (empty x p q) refl in
      let nonzero : (n == 0) ≡ false = ground arith in
      rw (nonzero, concrete_lem B m a n h byte, none_from_of m.shadow_pages a n empty) refl

  -- `_sym_read_memory` at a concrete address of a range in which some byte `x` has an expression
  -- gives an expression of 8 bits for each byte. Under every assignment its value is made up, the
  -- lowest byte first or the highest first, of the values of the bytes' expressions, and of the
  -- program's own bytes where there is none. Only the backend's state changes. The range is not
  -- empty, does not reach the end of the address space and holds expressions of bytes.
  pub read_memory-StandsFor :
      (m : Machine B) (a n x : ℕ) (little : Bool)
      → 0 < n
      → a + n < word_mod
      → Bytes B m a n
      → a ≤ x
      → x < a + n
      → is_some (view B m x) ≡ true
      → (e : Expr) × (t : State) × (read_memory B none a n little m ≡ some (some e, at_state m t))
        × StandsFor m little a n e
  read_memory-StandsFor m a n x little pos h byte p q s =
      read_some n m a little pos h byte (elim (Bool-cases (none_from m.shadow_pages a n)) [
        | inl e ↦ cc (none_from-true m.shadow_pages a n e x p q)
        | inr e ↦ e
      ])
