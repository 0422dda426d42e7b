-- ===== src/Wrappers/Copying/Text.antt =====
-- The shadow after the wrapper of `strncpy` in runtime/LibcWrappers.cpp.
use symcc.Common.{
  arith, ℕ, ◌+◌, ◌-◌, ◌≤◌, ◌<◌, ◌≡◌, ◌⊎◌, inl, inr, refl, sym, ◌∙◌, true, none, some, ltb, leb,
  if◌then◌else◌, Bool-cases,
}
use symcc.Backend.{Backend}
use symcc.Shadow.{Pages, word_mod, fill}
use symcc.Shadow.View.{shadow_at}
use symcc.Shadow.Fill.{within, shadow_at-fill}
use symcc.Shadow.Copy.{copy-Copied}
use symcc.Shadow.Concrete.{none_from, none_from-true}
use symcc.Runtime.{get_parameter_expression, set_return_expression, Machine, add_size, sub_size}
use symcc.Runtime.Transfer.{Bytes, view, concrete_lem}
use symcc.Wrappers.Copying.{MemoryFunctions, copy_padded, copy_text, sym_strncpy}
use symcc.Wrappers.{CLibrary, Process}

module _ (B : Backend) where
  -- The shadow `h` is that of `m`, but for the `n` bytes from `dest` on: the first of them, `copied` in
  -- number, have the expressions of those from `src` on, and the others have none.
  abbrev pub TextCopied : Machine B → (dest src n copied : ℕ) → Pages B.Expr → Type 0
  TextCopied m dest src n copied h =
      (a : ℕ)
      → a < word_mod
      → shadow_at h a ≡ (
          if within a dest copied
          then view B m (src + (a - dest))
          else (if within a dest n then none else view B m a))

  copy_padded-TextCopied :
      (m : Machine B) (dest src n copied : ℕ)
      → copied ≤ n
      → src + copied < word_mod
      → dest + n < word_mod
      → (dest ≤ src) ⊎ (src + copied ≤ dest)
      → Bytes B m src copied
      → (h : Pages B.Expr) × (copy_padded B dest src n copied m
          ≡ some (tt, record m { shadow_pages = h }))
        × TextCopied m dest src n copied h
  unfolding copy_padded
  copy_padded-TextCopied m dest src n copied le p q apart byte =
      let g = m.shadow_pages in
      let (h, run, same) = copy-Copied B.bits g src dest copied p (omega arith) apart byte in
      elim (Bool-cases (ltb copied n)) [
        | inl more ↦
            let start : add_size dest copied ≡ dest + copied = omega arith in
            let rest : sub_size n copied ≡ n - copied = omega arith in
            (
              fill h (dest + copied) (n - copied) none,
              rw (run, more, start, rest) refl,
              λ a ha.
                  shadow_at-fill h (dest + copied) (n - copied) none a (omega arith) ha
                  ∙ ground (arith, same a ha),
            )
        | inr full ↦ (h, rw (run, full) refl, λ a ha. same a ha ∙ ground arith)
      ]

  copy_text-TextCopied :
      (m : Machine B) (dest src n copied : ℕ)
      → copied ≤ n
      → src + copied < word_mod
      → dest + n < word_mod
      → (dest ≤ src) ⊎ (src + copied ≤ dest)
      → Bytes B m src copied
      → Bytes B m dest n
      → (h : Pages B.Expr) × (copy_text B dest src n copied m
          ≡ some (tt, record m { shadow_pages = h }))
        × TextCopied m dest src n copied h
  unfolding copy_text
  copy_text-TextCopied m dest src n copied le p q apart from to =
      let g = m.shadow_pages in
      let (h, run, same) = copy_padded-TextCopied m dest src n copied le p q apart from in
      let read = concrete_lem B m src copied p from in
      let written = concrete_lem B m dest n q to in
      elim (Bool-cases (none_from g src copied)) [
        | inr c ↦ (h, rw (read, c) run, same)
        | inl c ↦ elim (Bool-cases (none_from g dest n)) [
          | inr d ↦ (h, rw (read, c, written, d) run, same)
          | inl d ↦ (g, rw (read, c, written, d) refl, unchanged m dest src n copied le c d)
        ]
      ]
    where
      unchanged :
          (m : Machine B) (dest src n copied : ℕ)
          → copied ≤ n
          → none_from m.shadow_pages src copied ≡ true
          → none_from m.shadow_pages dest n ≡ true
          → TextCopied m dest src n copied m.shadow_pages
      unchanged m dest src n copied le c d a ha = elim (Bool-cases (within a dest copied)) [
        | inl i ↦ rw i (
            none_from-true m.shadow_pages dest n d a (ground arith) (ground arith)
            ∙ sym (
                none_from-true m.shadow_pages src copied c (src + (a - dest)) (omega arith)
                  (ground arith)))
        | inr o ↦ elim (Bool-cases (within a dest n)) [
          | inl i ↦
              rw (o, i) (none_from-true m.shadow_pages dest n d a (ground arith) (ground arith))
          | inr o' ↦ rw (o, o') refl
        ]
      ]

module _ (B : Backend) (C : CLibrary) (F : MemoryFunctions C) where
  -- The wrapper of `strncpy`, when the three concretizations succeed: the result is that of
  -- `strncpy`; the bytes of the destination that hold characters of the source have the
  -- expressions of these, the padding has none, and other bytes keep theirs. The ranges do not
  -- reach the end of the address space and hold expressions of bytes, and the destination does not
  -- begin among the characters that are copied.
  pub sym_strncpy-TextCopied :
      (p : Process B C) (dest src n copied : ℕ) {s t u : B.State}
      → B.concretize_pointer (p.machine.function_arguments 0) dest F.strncpy_site p.machine.backend
        ≡ some s
      → B.concretize_pointer (p.machine.function_arguments 1) src F.strncpy_site s ≡ some t
      → B.concretize_size (p.machine.function_arguments 2) n F.strncpy_site t ≡ some u
      → (let (result, memory, w) = F.strncpy dest src n p.machine.memory p.world in
          let src_len = F.strnlen src n memory in copied ≡ (if leb n src_len then n else src_len))
      → src + copied < word_mod
      → dest + n < word_mod
      → (dest ≤ src) ⊎ (src + copied ≤ dest)
      → Bytes B p.machine src copied
      → Bytes B p.machine dest n
      → (q : Process B C) × (sym_strncpy B C F dest src n p
          ≡ some ((F.strncpy dest src n p.machine.memory p.world).0, q))
        × TextCopied B p.machine dest src n copied q.machine.shadow_pages
  unfolding sym_strncpy get_parameter_expression set_return_expression
  sym_strncpy-TextCopied p dest src n copied {s} {t} {u} e0 e1 e2 len fits room apart from to =
      let (result, memory, w) = F.strncpy dest src n p.machine.memory p.world in
      let m : Machine B = record p.machine { backend = u; memory = memory; return_value = none } in
      let (h, run, same) =
        copy_text-TextCopied B m dest src n copied (ground arith) fits room apart from to in
      (
        record p { machine = record m { shadow_pages = h }; world = w },
        rw (e0, e1, e2, ← len, run) refl,
        same,
      )
