-- ===== src/Wrappers/Offsets.antt =====
-- The wrapper of `read` in runtime/LibcWrappers.cpp: the offset that it
-- keeps is the position of the input file, and a read shadows memory with the bytes from there on.
use symcc.Common.{
  arith, ℕ, zero, suc, List, [], ◌∷◌, ◌+◌, ◌<◌, ◌≡◌, refl, sym, ap, subst, ◌∙◌, true, false, Option,
  none, some, ◌==◌, if◌then◌else◌, ==_refl, Bool-cases, inl, inr,
}
use symcc.Backend.{Backend}
use symcc.Shadow.{Pages, word_mod, fill}
use symcc.Shadow.View.{shadow_at}
use symcc.Shadow.Fill.{within, shadow_at-fill}
use symcc.Shadow.Concrete.{none_from, none_from-true}
use symcc.Runtime.{set_return_expression, get_parameter_expression, add_size}
use symcc.Runtime.Input.{input_bytes, Filled, make_symbolic-Filled}
use symcc.Runtime.Transfer.{Bytes, concrete_lem, view}
use symcc.Wrappers.Laws.{CLaws}
use symcc.Wrappers.{CLibrary, Process, mark, sym_read, is_negative_64}

module _ (B : Backend) (C : CLibrary) (L : CLaws C) where
  open B use {Expr, State}

  -- The offset is the position of the input file.
  abbrev pub InSync : Process B C → Type 0
  InSync p = p.input_offset ≡ L.position p.world p.input_file_descriptor

  -- The requests for `n` bytes of the input from `offset` on with the bytes that `bytes` gives for them.
  unfoldable pub requests : ℕ → (bytes : ℕ → ℕ) → (offset : ℕ) → State → List (Option Expr) × State
  requests zero bytes offset s = ([], s)
  requests (suc n) bytes offset s =
      let (e, t) = B.get_input_byte offset (bytes offset) s in
      let (es, u) = requests n bytes (suc offset) t in (e ∷ es, u)

  input_bytes-requests :
      (n : ℕ) (memory bytes : ℕ → ℕ) (a offset : ℕ) (s : State)
      → ((i : ℕ) → i < n → memory (a + i) ≡ bytes (offset + i))
      → input_bytes B n memory a offset s ≡ requests n bytes offset s
  unfolding input_bytes requests
  input_bytes-requests zero memory bytes a offset s h = refl
  input_bytes-requests (suc n) memory bytes a offset s h =
      let first : memory a ≡ bytes offset =
        ap memory (omega arith) ∙ h 0 (omega arith) ∙ ap bytes (omega arith) in
      let later : (i : ℕ) → i < n → memory (suc a + i) ≡ bytes (suc offset + i) =
        λ i p. ap memory (omega arith) ∙ h (suc i) (omega arith) ∙ ap bytes (omega arith) in
      rw
        (
          first,
          input_bytes-requests n memory bytes (suc a) (suc offset)
              (B.get_input_byte offset (bytes offset) s).1 later,
        )
        refl

  -- The process after the calls of the C library and of the backend in the wrapper of `read`.
  abbrev after_read : Process B C → (fd buf n : ℕ) → State → Process B C
  after_read p fd buf n t =
      let (r, memory, w) = C.read fd buf n p.machine.memory p.world in
      record p {
        machine = record p.machine { backend = t; memory = memory; return_value = none };
        world = w;
      }

  read_run :
      (p q : Process B C) (fd buf n : ℕ) (s t : State)
      → B.concretize_pointer (p.machine.function_arguments 1) buf C.read_site p.machine.backend
        ≡ some s
      → B.concretize_size (p.machine.function_arguments 2) n C.read_site s ≡ some t
      → is_negative_64 (C.read fd buf n p.machine.memory p.world).0 ≡ false
      → mark B C fd buf (C.read fd buf n p.machine.memory p.world).0 (after_read p fd buf n t)
        ≡ some (tt, q)
      → sym_read B C fd buf n p ≡ some ((C.read fd buf n p.machine.memory p.world).0, q)
  unfolding sym_read get_parameter_expression set_return_expression
  read_run p q fd buf n s t ptr size ok marked = rw (ptr, size, ok, marked) refl

  mark_input :
      (p : Process B C) (fd buf r : ℕ)
      → fd ≡ p.input_file_descriptor
      → buf + r < word_mod
      → p.input_offset + r < word_mod
      → (h : Pages Expr) × (u : State) × (mark B C fd buf r p
          ≡ some (
            tt,
            record p {
              machine = record p.machine { backend = u; shadow_pages = h };
              input_offset = p.input_offset + r;
            },
          ))
        × Filled B p.machine.shadow_pages buf
            (input_bytes B r p.machine.memory buf p.input_offset p.machine.backend).0
            h
  unfolding mark
  mark_input p fd buf r same fits small =
      let here : (fd == p.input_file_descriptor) ≡ true =
        ap (λ d. fd == d) (sym same) ∙ ==_refl fd in
      let (h, run, _, filled) = make_symbolic-Filled B p.machine buf r p.input_offset fits small in
      let next : add_size p.input_offset r ≡ p.input_offset + r = omega arith in
      let u = (input_bytes B r p.machine.memory buf p.input_offset p.machine.backend).1 in
      (h, u, rw (here, run, next) refl, filled)

  -- The wrapper of `read` on the input file, when the offset is the file's position and the
  -- concretizations and `read` succeed: the result is that of `read`; the shadow of the bytes read
  -- becomes the backend's expressions for the bytes of the file from its old position on, each
  -- asked for with its offset in the file and its value there; and the offset is the file's
  -- position again. The buffer does not reach the end of the address space, and the offset does
  -- not overflow.
  pub sym_read-input :
      (p : Process B C) (fd buf n : ℕ) {s t : State}
      → InSync p
      → fd ≡ p.input_file_descriptor
      → B.concretize_pointer (p.machine.function_arguments 1) buf C.read_site p.machine.backend
        ≡ some s
      → B.concretize_size (p.machine.function_arguments 2) n C.read_site s ≡ some t
      → is_negative_64 (C.read fd buf n p.machine.memory p.world).0 ≡ false
      → buf + n < word_mod
      → p.input_offset + n < word_mod
      → (q : Process B C) × (sym_read B C fd buf n p
          ≡ some ((C.read fd buf n p.machine.memory p.world).0, q))
        × InSync q
        × Filled B p.machine.shadow_pages buf
            (requests
              (C.read fd buf n p.machine.memory p.world).0
              (L.contents p.world fd)
              (L.position p.world fd)
              t).0
            q.machine.shadow_pages
  sym_read-input p fd buf n {s} {t} sync same ptr size ok fits small =
      let (r, memory, w) = C.read fd buf n p.machine.memory p.world in
      let short = L.read_length fd buf n p.machine.memory p.world ok in
      let (h, u, marked, filled) =
        mark_input (after_read p fd buf n t) fd buf r same (omega arith) (omega arith) in
      let moved = L.read_position fd buf n p.machine.memory p.world ok in
      let position : L.position p.world fd ≡ p.input_offset =
        ap (L.position p.world) same ∙ sym sync in
      let asked = input_bytes-requests r memory (L.contents p.world fd) buf p.input_offset t (λ i q.
        L.read_bytes fd buf n p.machine.memory p.world i ok q
        ∙ ap (λ o. L.contents p.world fd (o + i)) position) in
      (
        _,
        read_run p _ fd buf n s t ptr size ok marked,
        ap (λ o. o + r) (sym position) ∙ sym moved ∙ ap (L.position w) same,
        subst
            (λ o. Filled B p.machine.shadow_pages buf (requests r (L.contents p.world fd) o t).0 h)
            (sym position) (subst (λ l. Filled B p.machine.shadow_pages buf l.0 h) asked filled),
      )

  mark_other :
      (p : Process B C) (fd buf r : ℕ)
      → (fd == p.input_file_descriptor) ≡ false
      → buf + r < word_mod
      → Bytes B p.machine buf r
      → (h : Pages Expr) × (mark B C fd buf r p
          ≡ some (tt, record p { machine = record p.machine { shadow_pages = h } }))
        × ((a : ℕ)
            → a < word_mod
            → shadow_at h a ≡ (if within a buf r then none else view B p.machine a))
  unfolding mark
  mark_other p fd buf r other fits byte =
      let g = p.machine.shadow_pages in
      elim (Bool-cases (none_from g buf r)) [
        | inl e ↦ (
          g,
          rw (other, concrete_lem B p.machine buf r fits byte, e) refl,
          λ a ha. elim (Bool-cases (within a buf r)) [
            | inl i ↦ rw i (none_from-true g buf r e a (ground arith) (ground arith))
            | inr o ↦ rw o refl
          ],
        )
        | inr e ↦ (
          fill g buf r none,
          rw (other, concrete_lem B p.machine buf r fits byte, e) refl,
          λ a ha. shadow_at-fill g buf r none a fits ha,
        )
      ]

  -- The wrapper of `read` on a file that is not the input, when the offset is the input file's
  -- position and the concretizations and `read` succeed: the result is that of `read`, no byte
  -- read has an expression, that of any other address stays, and the offset stays, which is the
  -- input file's position still. The buffer does not reach the end of the address space and held
  -- expressions of bytes.
  pub sym_read-other :
      (p : Process B C) (fd buf n : ℕ) {s t : State}
      → InSync p
      → (fd == p.input_file_descriptor) ≡ false
      → L.is_shared p.world fd p.input_file_descriptor ≡ false
      → B.concretize_pointer (p.machine.function_arguments 1) buf C.read_site p.machine.backend
        ≡ some s
      → B.concretize_size (p.machine.function_arguments 2) n C.read_site s ≡ some t
      → is_negative_64 (C.read fd buf n p.machine.memory p.world).0 ≡ false
      → buf + n < word_mod
      → Bytes B p.machine buf n
      → (q : Process B C) × (sym_read B C fd buf n p
          ≡ some ((C.read fd buf n p.machine.memory p.world).0, q))
        × InSync q
        × (q.input_offset ≡ p.input_offset)
        × ((a : ℕ)
            → a < word_mod
            → view B q.machine a ≡ (
                if within a buf (C.read fd buf n p.machine.memory p.world).0
                then none
                else view B p.machine a))
  sym_read-other p fd buf n {s} {t} sync other apart ptr size ok fits byte =
      let r = (C.read fd buf n p.machine.memory p.world).0 in
      let short = L.read_length fd buf n p.machine.memory p.world ok in
      let (h, marked, cleared) =
        mark_other (after_read p fd buf n t) fd buf r other (omega arith)
          (λ x a b. byte x a (omega arith)) in
      (
        _,
        read_run p _ fd buf n s t ptr size ok marked,
        sync ∙ sym (L.read_others fd p.input_file_descriptor buf n p.machine.memory p.world apart),
        refl,
        cleared,
      )
