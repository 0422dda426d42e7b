-- ===== src/Config/Values.antt =====
-- The values of the variables of runtime/Config.cpp: what a flag and a number look like, and that
-- `checkFlagString` and `std::stoul` read them so.
use symcc.Common.{
  arith, ℕ, ◌+◌, ◌-◌, ◌*◌, ◌%◌, ◌^◌, ◌≡◌, refl, ap, ◌∙◌, Bool, true, false, ◌&&◌, ◌||◌, Option,
  none, some, List, [], ◌∷◌, map, ◌==◌, ltb, leb, if◌then◌else◌, length, ◌>>=◌, Bool-cases, inl,
  inr,
}
use native.Mathlib.Nat.{pow-suc}
use symcc.Config.{
  Text, same_text, to_lower, check_flag_string, is_digit, digits, magnitude, signed, stoul,
}

-- The words for a flag that is on, and for one that is off.
abbrev pub words_for_on : List Text
words_for_on = (49 ∷ []) ∷ (111 ∷ 110 ∷ []) ∷ (121 ∷ 101 ∷ 115 ∷ []) ∷ []

abbrev pub words_for_off : List Text
words_for_off = [] ∷ (48 ∷ []) ∷ (111 ∷ 102 ∷ 102 ∷ []) ∷ (110 ∷ 111 ∷ []) ∷ []

-- A character of a word: the same, or the capital of a small letter.
abbrev pub stands_for : ℕ → ℕ → Bool
stands_for l c = (c == l) || (leb 97 l && leb l 122 && (c + 32 == l))

abbrev pub is_word : Text → Text → Bool
is_word [] [] = true
is_word [] (c ∷ cs) = false
is_word (l ∷ ls) [] = false
is_word (l ∷ ls) (c ∷ cs) = stands_for l c && is_word ls cs

abbrev pub is_among : List Text → Text → Bool
is_among [] text = false
is_among (w ∷ ws) text = is_word w text || is_among ws text

unfoldable pub flag : Text → Option Bool
flag text =
    if is_among words_for_on text
    then some true
    else (if is_among words_for_off text then some false else none)

-- The digits that a text starts with, and the number that digits make, each with its weight.
abbrev pub leading : Text → List ℕ
leading [] = []
leading (c ∷ cs) = if leb 48 c && ltb c 58 then (c - 48) ∷ leading cs else []

abbrev pub value : List ℕ → ℕ
value [] = 0
value (d ∷ ds) = d * 10 ^ length ds + value ds

-- There is a digit, and the number has 64 bits; a sign negates it modulo 2 ^ 64.
abbrev pub in_range : List ℕ → Option ℕ
in_range [] = none
in_range (d ∷ ds) = if ltb (value (d ∷ ds)) (2 ^ 64) then some (value (d ∷ ds)) else none

abbrev pub negated : Option ℕ → Option ℕ
negated none = none
negated (some n) = some ((2 ^ 64 - n) % 2 ^ 64)

abbrev pub after_sign : Text → Option ℕ
after_sign [] = none
after_sign (c ∷ cs) =
    if c == 45
    then negated (in_range (leading cs))
    else in_range (leading (if c == 43 then cs else c ∷ cs))

-- Blanks, tabs, and the ends of lines and pages.
abbrev pub after_space : Text → Text
after_space [] = []
after_space (c ∷ cs) = if (c == 32) || (ltb 8 c && ltb c 14) then after_space cs else c ∷ cs

unfoldable pub number : Text → Option ℕ
number text = after_sign (after_space text)

-- Is no letter a capital?
abbrev is_small : Text → Bool
is_small [] = true
is_small (l ∷ ls) = (ltb l 65 || ltb 90 l) && is_small ls

to_lower-stands_for : (l c : ℕ) → (ltb l 65 || ltb 90 l) ≡ true → (to_lower c == l) ≡ stands_for l c
unfolding to_lower
to_lower-stands_for l c h = ground (arith, h)

same_text-is_word :
    (word text : Text)
    → is_small word ≡ true
    → same_text (map to_lower text) word ≡ is_word word text
same_text-is_word [] [] h = refl
same_text-is_word [] (c ∷ cs) h = refl
same_text-is_word (l ∷ ls) [] h = refl
same_text-is_word (l ∷ ls) (c ∷ cs) h =
    let e = to_lower-stands_for l c (ground (arith, h)) in
    let f = same_text-is_word ls cs (ground (arith, h)) in λ i. e i && f i

any_of_three : (a b c : Bool) → (a || b || c) ≡ (a || (b || (c || false)))
any_of_three true b c = refl
any_of_three false true c = refl
any_of_three false false true = refl
any_of_three false false false = refl

any_of_four : (a b c d : Bool) → (a || b || c || d) ≡ (a || (b || (c || (d || false))))
any_of_four true b c d = refl
any_of_four false b c d = any_of_three b c d

pub check_flag_string-flag : (text : Text) → check_flag_string text ≡ flag text
unfolding check_flag_string flag
check_flag_string-flag text =
    rw
      (
        same_text-is_word (49 ∷ []) text refl,
        same_text-is_word (111 ∷ 110 ∷ []) text refl,
        same_text-is_word (121 ∷ 101 ∷ 115 ∷ []) text refl,
        same_text-is_word [] text refl,
        same_text-is_word (48 ∷ []) text refl,
        same_text-is_word (111 ∷ 102 ∷ 102 ∷ []) text refl,
        same_text-is_word (110 ∷ 111 ∷ []) text refl,
        any_of_three (is_word (49 ∷ []) text) (is_word (111 ∷ 110 ∷ []) text)
            (is_word (121 ∷ 101 ∷ 115 ∷ []) text),
        any_of_four (is_word [] text) (is_word (48 ∷ []) text) (is_word (111 ∷ 102 ∷ 102 ∷ []) text)
            (is_word (110 ∷ 111 ∷ []) text),
      )
      refl

digit_test : (c : ℕ) → is_digit c ≡ (leb 48 c && ltb c 58)
digit_test c = ground arith

space_test : (c : ℕ) → ((c == 32) || leb 9 c && leb c 13) ≡ ((c == 32) || (ltb 8 c && ltb c 14))
space_test c = ground arith

digits-leading :
    (cs : Text) (n : ℕ) → digits cs n ≡ n * 10 ^ length (leading cs) + value (leading cs)
unfolding digits
digits-leading [] n = omega arith
digits-leading (c ∷ cs) n = elim (Bool-cases (leb 48 c && ltb c 58)) [
  | inl y ↦
      let k = length (leading cs) in
      rw (digit_test c, y)
        (digits-leading cs (10 * n + (c - 48))
          ∙ omega (arith, ap (λ (t : ℕ). n * t) (pow-suc 10 k)))
  | inr m ↦ rw (digit_test c, m) (omega arith)
]

magnitude-in_range : (cs : Text) → magnitude cs ≡ in_range (leading cs)
magnitude-in_range [] = refl
magnitude-in_range (c ∷ cs) =
    let e : digits (c ∷ cs) 0 ≡ value (leading (c ∷ cs)) =
      digits-leading (c ∷ cs) 0 ∙ omega arith in
    rw e (elim (Bool-cases (leb 48 c && ltb c 58)) [
      | inl y ↦ rw (digit_test c, y) refl
      | inr m ↦ rw (digit_test c, m) refl
    ])

negated_lem : (r : Option ℕ) → (do n ← r; some ((2 ^ 64 - n) % 2 ^ 64)) ≡ negated r
negated_lem none = refl
negated_lem (some n) = refl

signed-after_sign : (text : Text) → signed text ≡ after_sign text
signed-after_sign [] = refl
signed-after_sign (c ∷ cs) = elim (Bool-cases (c == 45)) [
  | inl y ↦ rw (y, magnitude-in_range cs) (negated_lem (in_range (leading cs)))
  | inr m ↦ elim (Bool-cases (c == 43)) [
    | inl y ↦ rw (m, y) (magnitude-in_range cs)
    | inr n ↦ rw (m, n) (magnitude-in_range (c ∷ cs))
  ]
]

pub stoul-number : (text : Text) → stoul text ≡ number text
unfolding stoul number
stoul-number [] = refl
stoul-number (c ∷ cs) = elim (Bool-cases ((c == 32) || (ltb 8 c && ltb c 14))) [
  | inl y ↦ rw (space_test c, y) (stoul-number cs)
  | inr m ↦ rw (space_test c, m) (signed-after_sign (c ∷ cs))
]
