-- ===== src/SimpleBackend/Inputs.antt =====
-- The table of input bytes of `_sym_get_input_byte` in runtime/simple_backend/Runtime.cpp, over
-- sequences of requests.
use symcc.Common.{
  arith, ℕ, zero, suc, ◌+◌, ◌-◌, ◌≤◌, ◌<◌, ◌≡◌, refl, sym, ap, ◌∙◌, true, false, Option, none, some,
  List, [], ◌∷◌, ◌++◌, length, length-append, get_elem?, ltb, Bool-cases, inl, inr,
}
use symcc.SimpleBackend.{Z3, SimpleState, build_variable, nulls, entry, get_input_byte}

module _ {A : Type 0} where
  get_elem?-append :
      (xs ys : List A) (i : ℕ) → i < length xs → get_elem? (xs ++ ys) i ≡ get_elem? xs i
  get_elem?-append [] ys i h = absurd (omega arith)
  get_elem?-append (x ∷ xs) ys zero h = refl
  get_elem?-append (x ∷ xs) ys (suc i) h = get_elem?-append xs ys i (omega arith)

  get_elem?-past :
      (xs ys : List A) (i j : ℕ) → j ≡ length xs + i → get_elem? (xs ++ ys) j ≡ get_elem? ys i
  get_elem?-past [] ys i j h = ap (get_elem? ys) (omega arith)
  get_elem?-past (x ∷ xs) ys i zero h = absurd (omega arith)
  get_elem?-past (x ∷ xs) ys i (suc j) h = get_elem?-past xs ys i j (omega arith)

length-nulls : (n : ℕ) → length (nulls n) ≡ n
length-nulls zero = refl
length-nulls (suc n) = ap suc (length-nulls n)

get_elem?-nulls : (n i : ℕ) → i < n → get_elem? (nulls n) i ≡ some none
get_elem?-nulls zero i h = absurd (omega arith)
get_elem?-nulls (suc n) zero h = refl
get_elem?-nulls (suc n) (suc i) h = get_elem?-nulls n i (omega arith)

-- The table after a request for an offset that is not in it.
module _ (xs : List (Option ℕ)) (o e : ℕ) (h : length xs ≤ o) where
  abbrev longer : List (Option ℕ)
  longer = xs ++ (nulls (o - length xs) ++ some e ∷ [])

  length-longer : length longer ≡ suc o
  length-longer =
      let l = length-append xs (nulls (o - length xs) ++ some e ∷ []) in
      let r = length-append (nulls (o - length xs)) (some e ∷ []) in
      omega (arith, length-nulls (o - length xs), l, r)

  longer_requested : get_elem? longer o ≡ some (some e)
  longer_requested =
      get_elem?-past xs (nulls (o - length xs) ++ some e ∷ []) (o - length xs) o (omega arith)
      ∙ get_elem?-past (nulls (o - length xs)) (some e ∷ []) 0 (o - length xs)
          (omega (arith, length-nulls (o - length xs)))

  longer_skipped : (i : ℕ) → length xs ≤ i → i < o → get_elem? longer i ≡ some none
  longer_skipped i after before =
      get_elem?-past xs (nulls (o - length xs) ++ some e ∷ []) (i - length xs) i (omega arith)
      ∙ get_elem?-append (nulls (o - length xs)) (some e ∷ []) (i - length xs)
          (omega (arith, length-nulls (o - length xs)))
      ∙ get_elem?-nulls (o - length xs) (i - length xs) (omega arith)

ltb_of_lt : (a b : ℕ) → a < b → ltb a b ≡ true
ltb_of_lt a b h = ground arith

ltb_of_le : (a b : ℕ) → b ≤ a → ltb a b ≡ false
ltb_of_le a b h = ground arith

module _ (Z : Z3) where
  -- The requests of a program: offsets and the bytes that are there.
  abbrev pub requests : List (ℕ × ℕ) → SimpleState Z → SimpleState Z
  requests [] s = s
  requests ((offset, value) ∷ rest) s = requests rest (get_input_byte Z offset value s).1

  known :
      (o v : ℕ) (s : SimpleState Z)
      → o < length s.stdin_bytes
      → get_input_byte Z o v s ≡ (entry (get_elem? s.stdin_bytes o), s)
  unfolding get_input_byte
  known o v s h = rw (ltb_of_lt o (length s.stdin_bytes) h) refl

  variable_bytes :
      (s : SimpleState Z)
      → (build_variable Z (length s.stdin_bytes) 8 s).1.stdin_bytes ≡ s.stdin_bytes
  unfolding build_variable
  variable_bytes s = refl

  fresh :
      (o v : ℕ) (s : SimpleState Z)
      → length s.stdin_bytes ≤ o
      → (e : ℕ) × (t : SimpleState Z) × (get_input_byte Z o v s ≡ (some e, t))
        × (t.stdin_bytes ≡ s.stdin_bytes ++ (nulls (o - length s.stdin_bytes) ++ some e ∷ []))
  unfolding get_input_byte
  fresh o v s h =
      let (e, t) = build_variable Z (length s.stdin_bytes) 8 s in
      (
        e,
        record t {
          stdin_bytes = t.stdin_bytes ++ (nulls (o - length s.stdin_bytes) ++ some e ∷ []);
        },
        rw (ltb_of_le o (length s.stdin_bytes) h) refl,
        ap (λ l. l ++ (nulls (o - length s.stdin_bytes) ++ some e ∷ [])) (variable_bytes s),
      )

  -- The answer for an offset whose byte is known, whatever is requested in between.
  requests-known :
      (o v : ℕ) (later : List (ℕ × ℕ)) (s : SimpleState Z)
      → o < length s.stdin_bytes
      → (get_input_byte Z o v (requests later s)).0 ≡ entry (get_elem? s.stdin_bytes o)
  requests-known o v [] s h = ap (λ r. r.0) (known o v s h)
  requests-known o v ((p, w) ∷ rest) s h = elim (Bool-cases (ltb p (length s.stdin_bytes))) [
    | inl b ↦
        ap (λ r. (get_input_byte Z o v (requests rest r.1)).0) (known p w s (ground arith))
        ∙ requests-known o v rest s h
    | inr b ↦
        let h' : length s.stdin_bytes ≤ p = ground arith in
        let (e, t, run, bytes) = fresh p w s h' in
        let more : length s.stdin_bytes ≤ length t.stdin_bytes =
          omega (arith, ap length bytes, length-longer s.stdin_bytes p e h') in
        ap (λ r. (get_input_byte Z o v (requests rest r.1)).0) run
        ∙ requests-known o v rest t (omega arith)
        ∙ ap (λ l. entry (get_elem? l o)) bytes
        ∙ ap entry (get_elem?-append s.stdin_bytes _ o h)
  ]

  later_answer :
      (s t : SimpleState Z) (o e : ℕ) (h : length s.stdin_bytes ≤ o) (i v : ℕ)
      (later : List (ℕ × ℕ)) (answer : Option ℕ)
      → t.stdin_bytes ≡ longer s.stdin_bytes o e h
      → i ≤ o
      → get_elem? (longer s.stdin_bytes o e h) i ≡ some answer
      → (get_input_byte Z i v (requests later t)).0 ≡ answer
  later_answer s t o e h i v later answer bytes inside at =
      requests-known i v later t (omega (arith, ap length bytes, length-longer s.stdin_bytes o e h))
      ∙ ap (λ l. entry (get_elem? l i)) bytes
      ∙ ap entry at

  -- The answer for an offset stays what it was when it was given first, whatever is requested in
  -- between and whatever byte is there: an input byte has one expression.
  pub get_input_byte-requests :
      (o v v' : ℕ) (later : List (ℕ × ℕ)) (s : SimpleState Z)
      → (get_input_byte Z o v' (requests later (get_input_byte Z o v s).1)).0
        ≡ (get_input_byte Z o v s).0
  get_input_byte-requests o v v' later s = elim (Bool-cases (ltb o (length s.stdin_bytes))) [
    | inl b ↦
        let h : o < length s.stdin_bytes = ground arith in
        ap (λ r. (get_input_byte Z o v' (requests later r.1)).0) (known o v s h)
        ∙ requests-known o v' later s h
        ∙ sym (ap (λ r. r.0) (known o v s h))
    | inr b ↦
        let (e, t, run, bytes) = fresh o v s (ground arith) in
        let h : length s.stdin_bytes ≤ o = ground arith in
        ap (λ r. (get_input_byte Z o v' (requests later r.1)).0) run
        ∙ later_answer s t o e h o v' later (some e) bytes (omega arith)
            (longer_requested s.stdin_bytes o e h)
        ∙ sym (ap (λ r. r.0) run)
  ]

  -- A request past the end of the table leaves the offsets in between without an expression, and
  -- every later request of such an offset is answered by null, the answer for a concrete byte.
  pub get_input_byte-skipped :
      (o i v v' : ℕ) (later : List (ℕ × ℕ)) (s : SimpleState Z)
      → length s.stdin_bytes ≤ i
      → i < o
      → (get_input_byte Z i v' (requests later (get_input_byte Z o v s).1)).0 ≡ none
  get_input_byte-skipped o i v v' later s after before =
      let h : length s.stdin_bytes ≤ o = omega arith in
      let (e, t, run, bytes) = fresh o v s h in
      ap (λ r. (get_input_byte Z i v' (requests later r.1)).0) run
      ∙ later_answer s t o e h i v' later none bytes (omega arith)
          (longer_skipped s.stdin_bytes o e h i after before)
