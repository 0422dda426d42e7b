-- ===== src/QsymBackend/Lifetime.antt =====
-- A program on runtime/qsym_backend/Runtime.cpp: it builds expressions, of which it keeps raw pointers,
-- and calls `_sym_collect_garbage`.
use symcc.Common.{
  ℕ, ◌≡◌, refl, ◌∙◌, Bool, true, ◌&&◌, Option, none, some, List, [], ◌∷◌, ◌==◌, length, Bool-cases,
  inl, inr, ltb, arith,
}
use symcc.Common.Cmd.{Returns, returns, and_then, pure, ◌>>◌}
use symcc.Shadow.{Pages}
use symcc.GarbageCollection.{ExpressionRegion, contains, Reachable}
use symcc.QsymBackend.{Qsym, QsymState, QsymRun}
use symcc.QsymBackend.Requests.{Request, operands, build, is_registered, all_registered}
use symcc.QsymBackend.Building.{Owned, Grown, build-Grown}
use symcc.QsymBackend.Collection.{collect_garbage, collect_garbage-Owned}

pub data Event : Type 0 where
  built : Request → Event
  collected : (threshold : ℕ) → (ℕ → Option ℕ) → List ExpressionRegion → Pages ℕ → Event

abbrev pub all_live : (live xs : List ℕ) → Bool
all_live live [] = true
all_live live (x ∷ xs) = contains live x && all_live live xs

module _ (Q : Qsym) where
  unfoldable pub run : List Event → QsymRun Q (Unit {0})
  run [] = pure tt
  run (built q ∷ rest) = do build Q q; run rest
  run (collected threshold heap regions pages ∷ rest) =
      λ s. run rest (collect_garbage Q threshold heap regions pages s)

  -- A program that uses what it may: the expressions that it gives to a builder are live, and what
  -- stays live over a collection was so before and can be reached by the search.
  pub data Uses : (live : List ℕ) → QsymState Q → List Event → Type 0 where
    ends : {live : List ℕ} {s : QsymState Q} → Uses live s []
    builds :
        {live : List ℕ} {s : QsymState Q} {q : Request} {rest : List Event}
        → all_live live (operands q) ≡ true
        → ((e : ℕ) (s' : QsymState Q) → build Q q s ≡ some (e, s') → Uses (e ∷ live) s' rest)
        → Uses live s (built q ∷ rest)
    collects :
        {live : List ℕ} {s : QsymState Q} {threshold : ℕ} {heap : ℕ → Option ℕ}
        {regions : List ExpressionRegion} {pages : Pages ℕ} {rest : List Event} (kept : List ℕ)
        → ((x : ℕ)
            → contains kept x ≡ true
            → (contains live x ≡ true) × Reachable heap regions pages x)
        → Uses kept (collect_garbage Q threshold heap regions pages s) rest
        → Uses live s (collected threshold heap regions pages ∷ rest)

  abbrev pub Live : List ℕ → QsymState Q → Type 0
  Live live s = (x : ℕ) → contains live x ≡ true → is_registered Q s x ≡ true

  all_registered-all_live :
      (live xs : List ℕ) (s : QsymState Q)
      → Live live s
      → all_live live xs ≡ true
      → all_registered Q s xs ≡ true
  all_registered-all_live live [] s l h = refl
  all_registered-all_live live (x ∷ xs) s l h =
      let first = l x (ground arith) in
      let rest = all_registered-all_live live xs s l (ground arith) in rw first rest

  Live-built :
      (live : List ℕ) (s s' : QsymState Q) (e : ℕ)
      → Live live s
      → Grown Q s e s'
      → Live (e ∷ live) s'
  Live-built live s s' e l grown x h = elim (Bool-cases (x == e)) [
    | inl same ↦ grown.1 x ∙ rw same refl
    | inr other ↦ grown.1 x ∙ rw other (l x (ground arith))
  ]

  Live-collected :
      (kept live : List ℕ) (threshold : ℕ) (heap : ℕ → Option ℕ) (regions : List ExpressionRegion)
      (pages : Pages ℕ) (s : QsymState Q)
      → Owned Q s
      → Live live s
      → ((x : ℕ)
          → contains kept x ≡ true
          → (contains live x ≡ true) × Reachable heap regions pages x)
      → Owned Q (collect_garbage Q threshold heap regions pages s)
        × Live kept (collect_garbage Q threshold heap regions pages s)
  unfolding collect_garbage
  Live-collected kept live threshold heap regions pages s owned l keeps =
      elim (Bool-cases (ltb (length s.allocated_expressions) threshold)) [
        | inl early ↦ rw early (owned, λ x h. l x (keeps x h).0)
        | inr due ↦
            let (owned', same) =
              collect_garbage-Owned Q threshold heap regions pages s (ground arith) owned in
            (owned', λ x h. let (was, reached) = keeps x h in (same x).1 (l x was, reached))
      ]

  -- A program that builds expressions from live ones and lets a collection happen only while what
  -- stays live can be reached runs to its end from a state in which the live expressions are
  -- registered: no builder throws, however the two are interleaved; and each shared pointer still
  -- stands under its own raw pointer.
  pub run-Uses :
      (live : List ℕ) (s : QsymState Q) (events : List Event)
      → Owned Q s
      → Live live s
      → Uses live s events
      → Returns (λ _ s'. Owned Q s') (run events s)
  unfolding run
  run-Uses live s [] owned l u = returns owned
  run-Uses live s (built q ∷ rest) owned l (builds may next) =
      go (λ e s' o l' u. run-Uses (e ∷ live) s' rest o l' u) (build Q q s) refl
        (build-Grown Q q s owned (all_registered-all_live live (operands q) s l may))
    where
      go :
          ((e : ℕ) (s' : QsymState Q)
            → Owned Q s'
            → Live (e ∷ live) s'
            → Uses (e ∷ live) s' rest
            → Returns (λ _ t. Owned Q t) (run rest s'))
          → (r : Option (ℕ × QsymState Q)) → build Q q s ≡ r
          → Returns (Grown Q s) r
          → Returns (λ _ s'. Owned Q s') (and_then r λ _. run rest)
      go continue (some (e, s')) same (returns grown) =
          continue e s' grown.0 (Live-built live s s' e l grown) (next e s' same)
      go continue none same bad = elim bad [ ]
  run-Uses live s (collected threshold heap regions pages ∷ rest) owned l
        (collects kept keeps next) =
      let (owned', l') = Live-collected kept live threshold heap regions pages s owned l keeps in
      run-Uses kept (collect_garbage Q threshold heap regions pages s) rest owned' l' next
