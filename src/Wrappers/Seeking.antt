-- ===== src/Wrappers/Seeking.antt =====
-- The wrappers of `lseek` and `lseek64` in runtime/LibcWrappers.cpp.
use symcc.Common.{
  arith, ℕ, ◌%◌, ◌^◌, ◌≡◌, ◌⊎◌, refl, sym, ap, ◌∙◌, Bool, true, false, none, some, ◌==◌, ltb,
  if◌then◌else◌, eq_of_==, Bool-cases, inl, inr,
}
use symcc.Backend.{Backend}
use symcc.Runtime.{set_return_expression, get_parameter_expression}
use symcc.Wrappers.{CLibrary, Process, sym_lseek64, sym_lseek, minus_one, minus_one_64}
use symcc.Wrappers.Laws.{CLaws}
use symcc.Wrappers.Offsets.{InSync}

module _ (B : Backend) (C : CLibrary) (L : CLaws C) where
  -- The process after a call of the C library's `lseek64`, and one with a return expression set.
  abbrev after_seek : Process B C → (fd offset whence : ℕ) → Process B C
  after_seek p fd offset whence =
      let (r, memory, w) = C.lseek64 fd offset whence p.machine.memory p.world in
      record p { machine = record p.machine { memory = memory; return_value = none }; world = w }

  abbrev returning : Bool → Process B C → Process B C
  returning false p = p
  returning true p =
      let e = p.machine.function_arguments 1 in
      record p {
        machine = record p.machine {
          backend = elim e [
            | none ↦ p.machine.backend
            | some x ↦ B.notify_ret_expr x p.machine.backend
          ];
          return_value = e;
        };
      }

  lseek64_run :
      (p : Process B C) (fd offset whence : ℕ) (sets same : Bool)
      → ((C.lseek64 fd offset whence p.machine.memory p.world).0 == minus_one_64) ≡ false
      → (whence == 0) ≡ sets
      → (fd == p.input_file_descriptor) ≡ same
      → sym_lseek64 B C fd offset whence p ≡ (
          let r = (C.lseek64 fd offset whence p.machine.memory p.world).0 in
          some (
            r,
            record (returning sets (after_seek p fd offset whence)) {
              input_offset = if same then r else p.input_offset;
            },
          ))
  unfolding sym_lseek64 get_parameter_expression set_return_expression
  lseek64_run p fd offset whence true true ok h k = rw (ok, h, k) refl
  lseek64_run p fd offset whence true false ok h k = rw (ok, h, k) refl
  lseek64_run p fd offset whence false true ok h k = rw (ok, h, k) refl
  lseek64_run p fd offset whence false false ok h k = rw (ok, h, k) refl

  moved :
      (p : Process B C) (fd offset whence : ℕ)
      → ((C.lseek64 fd offset whence p.machine.memory p.world).0 == minus_one_64) ≡ false
      → (fd == p.input_file_descriptor) ≡ true
      → (let (r, memory, w) = C.lseek64 fd offset whence p.machine.memory p.world in
          r ≡ L.position w p.input_file_descriptor)
  moved p fd offset whence ok k =
      sym (L.lseek_position fd offset whence p.machine.memory p.world ok)
      ∙ ap (L.position (C.lseek64 fd offset whence p.machine.memory p.world).2)
          (eq_of_== fd p.input_file_descriptor k)

  -- The input file is sought by its own descriptor alone.
  abbrev pub IsAlone : Process B C → ℕ → Type 0
  IsAlone p fd =
      ((fd == p.input_file_descriptor) ≡ true)
      ⊎ (L.is_shared p.world fd p.input_file_descriptor ≡ false)

  not_shared :
      (p : Process B C) (fd : ℕ)
      → IsAlone p fd
      → (fd == p.input_file_descriptor) ≡ false
      → L.is_shared p.world fd p.input_file_descriptor ≡ false
  not_shared p fd (inl same) k = absurd (ground (arith, same, k))
  not_shared p fd (inr apart) k = apart

  seek_success :
      (p : Process B C) (fd offset whence : ℕ) (sets same : Bool)
      → InSync B C L p
      → IsAlone p fd
      → ((C.lseek64 fd offset whence p.machine.memory p.world).0 == minus_one_64) ≡ false
      → (whence == 0) ≡ sets
      → (fd == p.input_file_descriptor) ≡ same
      → (q : Process B C) × (sym_lseek64 B C fd offset whence p
          ≡ some ((C.lseek64 fd offset whence p.machine.memory p.world).0, q))
        × InSync B C L q
        × (q.machine.shadow_pages ≡ p.machine.shadow_pages)
  seek_success p fd offset whence true true sync alone ok h k =
      (_, lseek64_run p fd offset whence true true ok h k, moved p fd offset whence ok k, refl)
  seek_success p fd offset whence false true sync alone ok h k =
      (_, lseek64_run p fd offset whence false true ok h k, moved p fd offset whence ok k, refl)
  seek_success p fd offset whence true false sync alone ok h k = (
    _,
    lseek64_run p fd offset whence true false ok h k,
    sync
        ∙ sym (
            L.lseek_others fd p.input_file_descriptor offset whence p.machine.memory p.world
              (not_shared p fd alone k)),
    refl,
  )
  seek_success p fd offset whence false false sync alone ok h k = (
    _,
    lseek64_run p fd offset whence false false ok h k,
    sync
        ∙ sym (
            L.lseek_others fd p.input_file_descriptor offset whence p.machine.memory p.world
              (not_shared p fd alone k)),
    refl,
  )

  lseek64-InSync :
      (p : Process B C) (fd offset whence : ℕ)
      → InSync B C L p
      → IsAlone p fd
      → (q : Process B C) × (sym_lseek64 B C fd offset whence p
          ≡ some ((C.lseek64 fd offset whence p.machine.memory p.world).0, q))
        × InSync B C L q
        × (q.machine.shadow_pages ≡ p.machine.shadow_pages)
  unfolding sym_lseek64 set_return_expression
  lseek64-InSync p fd offset whence sync alone =
      let r = (C.lseek64 fd offset whence p.machine.memory p.world).0 in
      elim (Bool-cases (r == minus_one_64)) [
        | inl e ↦ (
          after_seek p fd offset whence,
          rw e refl,
          sync
              ∙ sym (
                  L.lseek_failure fd p.input_file_descriptor offset whence p.machine.memory p.world
                    e),
          refl,
        )
        | inr e ↦
            seek_success p fd offset whence (whence == 0) (fd == p.input_file_descriptor) sync alone
              e refl refl
      ]

  -- The wrapper of the 32-bit `lseek`, when the offset is the input file's position: the result is
  -- that of `lseek64` where it fits in 32 bits, and -1 otherwise; in either case the offset is the
  -- input file's position again, and the shadow stays. The descriptor is that of the input, or one of
  -- another open file, not a duplicate of the input's.
  pub sym_lseek-InSync :
      (p : Process B C) (fd offset whence : ℕ)
      → InSync B C L p
      → IsAlone p fd
      → (q : Process B C) × (sym_lseek B C fd offset whence p ≡ (
          let r = (C.lseek64 fd offset whence p.machine.memory p.world).0 in
          some (if ltb r (2 ^ 32) then r else minus_one, q)))
        × InSync B C L q
        × (q.machine.shadow_pages ≡ p.machine.shadow_pages)
  unfolding sym_lseek
  sym_lseek-InSync p fd offset whence sync alone =
      let r = (C.lseek64 fd offset whence p.machine.memory p.world).0 in
      let (q, run, now, same) = lseek64-InSync p fd offset whence sync alone in
      elim (Bool-cases (ltb r (2 ^ 32))) [
        | inl y ↦
            let fits : r % 2 ^ 32 ≡ r = ground arith in
            (q, rw (run, y, fits) (ground arith), now, same)
        | inr n ↦
            let (_, memory, w) = C.set_errno_overflow q.machine.memory q.world in
            let over : (r == r % 2 ^ 32) ≡ false = ground arith in
            (
              record q { machine = record q.machine { memory = memory }; world = w },
              rw (run, n, over) refl,
              now ∙ sym (L.errno_position q.input_file_descriptor q.machine.memory q.world),
              same,
            )
      ]
