-- ===== src/QsymBackend/Printing.antt =====
-- `_sym_expr_to_string` of runtime/qsym_backend/Runtime.cpp, on the text that Qsym gives.
use symcc.Common.{
  arith, ℕ, zero, suc, ◌+◌, ◌≤◌, ◌≡◌, none, some, List, [], ◌∷◌, ◌++◌, length, get_elem?, ltb,
  if◌then◌else◌, ◌==◌,
}
use symcc.QsymBackend.{Qsym}

-- `std::string::copy` of at most so many characters.
abbrev pub copied : ℕ → List ℕ → List ℕ
copied zero cs = []
copied (suc n) [] = []
copied (suc n) (c ∷ cs) = c ∷ copied n cs

-- What the buffer of 4096 bytes holds up to the terminator.
unfoldable pub expr_to_string : Qsym → ℕ → List ℕ
expr_to_string Q expr = copied 4095 (Q.to_string expr) ++ (0 ∷ [])

abbrev pub minimum : ℕ → ℕ → ℕ
minimum a b = if ltb a b then a else b

copied_fits : (n : ℕ) (cs : List ℕ) → length (copied n cs ++ (0 ∷ [])) ≤ n + 1
copied_fits zero cs = omega arith
copied_fits (suc n) [] = omega arith
copied_fits (suc n) (c ∷ cs) = omega (arith, copied_fits n cs)

get_elem?-copied :
    (n : ℕ) (cs : List ℕ) (i : ℕ)
    → get_elem? (copied n cs ++ (0 ∷ [])) i ≡ (
        if ltb i (minimum (length cs) n)
        then get_elem? cs i
        else (if i == minimum (length cs) n then some 0 else none))
get_elem?-copied zero cs zero = ground arith
get_elem?-copied zero cs (suc i) = ground arith
get_elem?-copied (suc n) [] zero = ground arith
get_elem?-copied (suc n) [] (suc i) = ground arith
get_elem?-copied (suc n) (c ∷ cs) zero = ground arith
get_elem?-copied (suc n) (c ∷ cs) (suc i) = ground (arith, get_elem?-copied n cs i)

-- What is written to the buffer fits into its 4096 bytes: it is the text, but for what comes
-- after the first 4095 characters, and one terminator after it.
pub expr_to_string_lem :
    (Q : Qsym) (e : ℕ)
    → (length (expr_to_string Q e) ≤ 4096)
      × ((i : ℕ)
          → get_elem? (expr_to_string Q e) i ≡ (
              if ltb i (minimum (length (Q.to_string e)) 4095)
              then get_elem? (Q.to_string e) i
              else (if i == minimum (length (Q.to_string e)) 4095 then some 0 else none)))
unfolding expr_to_string
expr_to_string_lem Q e = (copied_fits 4095 (Q.to_string e), get_elem?-copied 4095 (Q.to_string e))
