-- ===== src/Common/Cmd.antt =====
-- Commands on a state that a failed assertion or an exception of the source stops: such a run has
-- no result.
use mathlib.Core.Path.{◌≡◌, refl, sym, subst}
use mathlib.Core.Bool.{Bool, true, false}
use mathlib.Core.Option.{Option, none, some}

abbrev pub Cmd : Type 0 → Type 0 → Type 0
Cmd S A = S → Option (A × S)

module _ {S A : Type 0} where
  abbrev pub pure : A → Cmd S A
  pure a s = some (a, s)

  -- What follows a run.
  abbrev pub and_then : {B : Type 0} → Option (A × S) → (A → Cmd S B) → Option (B × S)
  and_then none k = none
  and_then (some (a, s)) k = k a s

-- A call on a part of the state: the result of the part, put back into the whole.
abbrev pub keep : {S A : Type 0} → Option A → S → Option (A × S)
keep none s = none
keep (some a) s = some (a, s)

module _ {S T : Type 0} where
  abbrev pub advance : Option T → (T → S) → Option (Unit {0} × S)
  advance none k = none
  advance (some t) k = some (tt, k t)

  abbrev pub relay : {A : Type 0} → Option (A × T) → (T → S) → Option (A × S)
  relay none k = none
  relay (some (a, t)) k = some (a, k t)

module _ {S A B : Type 0} where
  infixl 5 ◌>>=◌ ◌>>◌
  abbrev pub ◌>>=◌ : Cmd S A → (A → Cmd S B) → Cmd S B
  m >>= k = λ s. and_then (m s) k

  abbrev pub ◌>>◌ : Cmd S A → Cmd S B → Cmd S B
  m >> n = m >>= λ _. n

module _ {S : Type 0} where
  -- `if (b) m;`
  abbrev pub when : Bool → Cmd S (Unit {0}) → Cmd S (Unit {0})
  when true m = m
  when false m = pure tt

  -- `assert(b)`
  abbrev pub require : Bool → Cmd S (Unit {0})
  require true = pure tt
  require false = λ _. none

-- A run that ends, with a postcondition.
pub data Returns {S A : Type 0} (P : A → S → Type 0) : Option (A × S) → Type 0 where
  returns : {a : A} {s : S} → P a s → Returns P (some (a, s))

module _ {S A : Type 0} {P : A → S → Type 0} where
  pub Returns-bind :
      {B : Type 0} {Q : B → S → Type 0} {r : Option (A × S)} {k : A → Cmd S B}
      → Returns P r
      → ((a : A) (s : S) → P a s → Returns Q (k a s))
      → Returns Q (and_then r k)
  Returns-bind (returns p) next = next _ _ p

  -- What follows may also use what the first run gives.
  pub Returns-continue :
      {B : Type 0} {Q : B → S → Type 0} {r : Option (A × S)} {k : A → Cmd S B}
      → Returns P r
      → ((a : A) (s : S) → r ≡ some (a, s) → P a s → Returns Q (k a s))
      → Returns Q (and_then r k)
  Returns-continue (returns p) next = next _ _ refl p

  pub Returns-mono :
      {Q : A → S → Type 0} {r : Option (A × S)}
      → Returns P r
      → ((a : A) (s : S) → P a s → Q a s)
      → Returns Q r
  Returns-mono (returns p) weaken = returns (weaken _ _ p)

module _ {S A : Type 0} {P : A → S → Type 0} where
  -- A run whose end is known.
  pub Returns-of : {r : Option (A × S)} (a : A) (s : S) → r ≡ some (a, s) → P a s → Returns P r
  Returns-of a s e p = subst (Returns P) (sym e) (returns p)

module _ {S A : Type 0} where
  abbrev Holds : (P : A → S → Type 0) → Option (A × S) → Type 0
  Holds P none = ⊥
  Holds P (some (a, s)) = P a s

  Returns-Holds : {P : A → S → Type 0} {r : Option (A × S)} → Returns P r → Holds P r
  Returns-Holds (returns p) = p

  -- Of a run with a postcondition, another one that speaks of what the first gives.
  pub Returns-and :
      {P : A → S → Type 0} (Q : (a : A) (s : S) → P a s → A → S → Type 0) {r : Option (A × S)}
      → Returns P r
      → ((a : A) (s : S) (p : P a s) → Returns (Q a s p) r)
      → Returns (λ a s. (p : P a s) × Q a s p a s) r
  Returns-and Q (returns p) f = returns (p, Returns-Holds (f _ _ p))
