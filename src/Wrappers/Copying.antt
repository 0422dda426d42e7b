-- ===== src/Wrappers/Copying.antt =====
-- The wrappers of `malloc`, `calloc`, `memcpy`, `memset`, `memmove` and `strncpy` in
-- runtime/LibcWrappers.cpp.
pub mod Text
use symcc.Common.{
  ℕ, ◌+◌, ◌-◌, ◌%◌, ◌^◌, Bool, true, false, not, ◌&&◌, Option, none, some, List, ◌==◌, ltb, leb,
  if◌then◌else◌,
}
use symcc.Common.Cmd.{Cmd, pure, ◌>>=◌, ◌>>◌, when}
use symcc.Backend.{Backend}
use symcc.Shadow.{fill, copy}
use symcc.Runtime.{
  Machine, Run, Sym, add_size, sub_size, call, change, concrete, get_parameter_expression,
  set_return_expression, memcpy, memset, memmove,
}
use symcc.Wrappers.{CLibrary, Process, Step, shared, library}

-- The functions of the C library behind these wrappers, and the wrappers' addresses.
pub record MemoryFunctions (C : CLibrary) : Type 0 where
  pub malloc : ℕ → (ℕ → ℕ) → C.World → ℕ × (ℕ → ℕ) × C.World
  pub calloc : (nmemb size : ℕ) → (ℕ → ℕ) → C.World → ℕ × (ℕ → ℕ) × C.World
  pub memcpy : (dest src n : ℕ) → (ℕ → ℕ) → C.World → ℕ × (ℕ → ℕ) × C.World
  pub memset : (s c n : ℕ) → (ℕ → ℕ) → C.World → ℕ × (ℕ → ℕ) × C.World
  pub memmove : (dest src n : ℕ) → (ℕ → ℕ) → C.World → ℕ × (ℕ → ℕ) × C.World
  pub strncpy : (dest src n : ℕ) → (ℕ → ℕ) → C.World → ℕ × (ℕ → ℕ) × C.World
  pub strnlen : (s n : ℕ) → (ℕ → ℕ) → ℕ
  pub malloc_site : ℕ
  pub calloc_site : ℕ
  pub strncpy_site : ℕ

module _ (B : Backend) where
  -- The shadow of the destination: the expressions of the characters that are copied, and none
  -- for the padding behind them, unless all of them are null already.
  unfoldable pub copy_padded : (dest src n copied : ℕ) → Run B (Unit {0})
  copy_padded dest src n copied = do
    change B (λ g. copy B.bits g src dest copied)
    when (ltb copied n)
        (change B (λ g. some (fill g (add_size dest copied) (sub_size n copied) none)))

  unfoldable pub copy_text : (dest src n copied : ℕ) → Run B (Unit {0})
  copy_text dest src n copied = do
    c ← concrete B src copied
    d ← if c then concrete B dest n else pure false
    when (not (c && d)) (copy_padded dest src n copied)

module _ (B : Backend) (C : CLibrary) (F : MemoryFunctions C) where
  abbrev parameter : ℕ → Step B C (Sym B)
  parameter i = shared B C (get_parameter_expression B i)

  abbrev return_expression : Sym B → Step B C (Unit {0})
  return_expression e = shared B C (set_return_expression B e)

  unfoldable pub sym_malloc : ℕ → Step B C ℕ
  sym_malloc size = do
    result ← library B C (F.malloc size)
    e ← parameter 0
    shared B C (call B (B.concretize_size e size F.malloc_site))
    return_expression none
    pure result

  unfoldable pub sym_calloc : (nmemb size : ℕ) → Step B C ℕ
  sym_calloc nmemb size = do
    result ← library B C (F.calloc nmemb size)
    e0 ← parameter 0
    shared B C (call B (B.concretize_size e0 nmemb F.calloc_site))
    e1 ← parameter 1
    shared B C (call B (B.concretize_size e1 size F.calloc_site))
    return_expression none
    pure result

  unfoldable pub sym_memcpy : (dest src n : ℕ) → Step B C ℕ
  sym_memcpy dest src n = do
    result ← library B C (F.memcpy dest src n)
    sym_dest ← parameter 0
    sym_src ← parameter 1
    sym_n ← parameter 2
    shared B C (memcpy B sym_dest sym_src sym_n dest src n)
    return_expression sym_dest
    pure result

  unfoldable pub sym_memset : (s c n : ℕ) → Step B C ℕ
  sym_memset s c n = do
    result ← library B C (F.memset s c n)
    sym_dest ← parameter 0
    sym_c ← parameter 1
    sym_n ← parameter 2
    shared B C (memset B sym_dest sym_c sym_n s c n)
    return_expression sym_dest
    pure result

  unfoldable pub sym_memmove : (dest src n : ℕ) → Step B C ℕ
  sym_memmove dest src n = do
    sym_dest ← parameter 0
    sym_src ← parameter 1
    sym_n ← parameter 2
    result ← library B C (F.memmove dest src n)
    shared B C (memmove B sym_dest sym_src sym_n dest src n)
    return_expression sym_dest
    pure result

  unfoldable pub sym_strncpy : (dest src n : ℕ) → Step B C ℕ
  sym_strncpy dest src n = do
    sym_dest ← parameter 0
    sym_src ← parameter 1
    sym_n ← parameter 2
    shared B C (call B (B.concretize_pointer sym_dest dest F.strncpy_site))
    shared B C (call B (B.concretize_pointer sym_src src F.strncpy_site))
    shared B C (call B (B.concretize_size sym_n n F.strncpy_site))
    result ← library B C (F.strncpy dest src n)
    return_expression none
    src_len ← λ p. some (F.strnlen src n p.machine.memory, p)
    shared B C (copy_text B dest src n (if leb n src_len then n else src_len))
    pure result
