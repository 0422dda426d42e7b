-- ===== src/QsymBackend/Inputs.antt =====
-- `pushInputByte` and `_sym_get_input_byte` of runtime/qsym_backend/Runtime.cpp.
use symcc.Common.{
  arith, ℕ, zero, suc, ◌+◌, ◌<◌, ◌≤◌, ◌≡◌, refl, ap, false, none, some, List, [], ◌∷◌,
  if◌then◌else◌, leb, ltb, Bool-cases, inl, inr, ◌==◌, length, get_elem?,
}
use symcc.Common.Cmd.{◌>>=◌, ◌>>◌}
use symcc.QsymBackend.{Qsym, QsymRun, call, register_expression}

-- `std::vector::resize`
abbrev pub resize : (size : ℕ) → List ℕ → List ℕ
resize zero xs = []
resize (suc n) [] = 0 ∷ resize n []
resize (suc n) (x ∷ xs) = x ∷ resize n xs

-- `inputs_[i] = value`
abbrev pub set : (i value : ℕ) → List ℕ → List ℕ
set i value [] = []
set zero value (x ∷ xs) = value ∷ xs
set (suc i) value (x ∷ xs) = x ∷ set i value xs

unfoldable pub push_input_byte : (offset value : ℕ) → List ℕ → List ℕ
push_input_byte offset value inputs =
    set offset value (if leb (length inputs) offset then resize (offset + 1) inputs else inputs)

get_elem?-set :
    (o v : ℕ) (xs : List ℕ) (i : ℕ)
    → o < length xs
    → get_elem? (set o v xs) i ≡ (if i == o then some v else get_elem? xs i)
get_elem?-set o v [] i h = absurd (omega arith)
get_elem?-set zero v (x ∷ xs) zero h = refl
get_elem?-set zero v (x ∷ xs) (suc i) h = ground arith
get_elem?-set (suc o) v (x ∷ xs) zero h = ground arith
get_elem?-set (suc o) v (x ∷ xs) (suc i) h =
    let ih = get_elem?-set o v xs i (omega arith) in ground arith

-- Past the old size stand zeros.
get_elem?-resize :
    (n : ℕ) (xs : List ℕ) (i : ℕ)
    → length xs ≤ n
    → get_elem? (resize n xs) i
      ≡ (if ltb i (length xs) then get_elem? xs i else (if ltb i n then some 0 else none))
get_elem?-resize zero [] i h = ground arith
get_elem?-resize zero (x ∷ xs) i h = absurd (omega arith)
get_elem?-resize (suc n) [] zero h = ground arith
get_elem?-resize (suc n) [] (suc i) h =
    let ih = get_elem?-resize n [] i (omega arith) in ground arith
get_elem?-resize (suc n) (x ∷ xs) zero h = ground arith
get_elem?-resize (suc n) (x ∷ xs) (suc i) h =
    let ih = get_elem?-resize n xs i (omega arith) in ground arith

length-resize : (n : ℕ) (xs : List ℕ) → length (resize n xs) ≡ n
length-resize zero xs = refl
length-resize (suc n) [] = ap suc (length-resize n [])
length-resize (suc n) (x ∷ xs) = ap suc (length-resize n xs)

get_elem?_past_end : (xs : List ℕ) (i : ℕ) → ltb i (length xs) ≡ false → get_elem? xs i ≡ none
get_elem?_past_end [] i h = refl
get_elem?_past_end (x ∷ xs) zero h = ground arith
get_elem?_past_end (x ∷ xs) (suc i) h = get_elem?_past_end xs i (ground arith)

-- After a byte is pushed, the solver's input has it at its offset, what it had at the others, and
-- zeros between its old end and the offset.
pub push_input_byte_lem :
    (o v : ℕ) (xs : List ℕ) (i : ℕ)
    → get_elem? (push_input_byte o v xs) i ≡ (
        if i == o
        then some v
        else (if ltb i (length xs) then get_elem? xs i else (if ltb i o then some 0 else none)))
unfolding push_input_byte
push_input_byte_lem o v xs i = elim (Bool-cases (leb (length xs) o)) [
  | inl past ↦
      let inside =
        get_elem?-set o v (resize (o + 1) xs) i (omega (arith, length-resize (o + 1) xs)) in
      let old = get_elem?-resize (o + 1) xs i (ground arith) in rw past (ground arith)
  | inr known ↦
      let inside = get_elem?-set o v xs i (ground arith) in
      let past_end = get_elem?_past_end xs i in rw known (ground arith)
]

module _ (Q : Qsym) where
  unfoldable pub get_input_byte : (offset value : ℕ) → QsymRun Q ℕ
  get_input_byte offset value = do
    λ s. some (tt, record s { inputs = push_input_byte offset value s.inputs })
    expr ← call Q (Q.create_read offset)
    register_expression Q expr
