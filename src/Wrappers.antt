-- ===== src/Wrappers.antt =====
-- runtime/LibcWrappers.cpp: the wrappers of the functions of the C library that open, read and
-- position the symbolic input. A wrapper takes its C arguments; their expressions are in the
-- storage for parameters. An `int` is a number below 2^32 and an `ssize_t` or `off_t` one below
-- 2^64, in two's complement. A path is the list of its characters.
pub mod Comparing
pub mod Copying
pub mod Laws
pub mod Offsets
pub mod Seeking
pub mod Streams
use symcc.Common.{
  ℕ, ◌+◌, ◌-◌, ◌%◌, ◌^◌, Bool, true, false, not, Option, none, some, List, ◌==◌, leb, if◌then◌else◌,
}
use symcc.Common.Cmd.{Cmd, pure, ◌>>=◌, ◌>>◌, when, relay}
use symcc.Backend.{Backend}
use symcc.Config.{InputSource, no_input, stdin_input, memory_input, file_input}
use symcc.Shadow.{fill}
use symcc.Runtime.{
  Machine, Run, Sym, add_size, call, change, concrete, get_parameter_expression,
  set_return_expression,
}
use symcc.Runtime.Input.{make_symbolic}

-- The functions of the C library that the wrappers call. They act on the program's memory and on
-- the rest of the process.
pub record CLibrary : Type 1 where
  pub World : Type 0
  pub open_file : List ℕ → (oflag mode : ℕ) → (ℕ → ℕ) → World → ℕ × (ℕ → ℕ) × World
  pub read : (fildes buf nbyte : ℕ) → (ℕ → ℕ) → World → ℕ × (ℕ → ℕ) × World
  pub lseek64 : (fd offset whence : ℕ) → (ℕ → ℕ) → World → ℕ × (ℕ → ℕ) × World
  pub set_errno_overflow : (ℕ → ℕ) → World → Unit {0} × (ℕ → ℕ) × World
  -- `strstr(path, name) != nullptr`
  pub contains : (path name : List ℕ) → Bool
  -- The address of the wrapper of `read`.
  pub read_site : ℕ

-- -1 as an `int` and as an `off_t`.
abbrev pub minus_one : ℕ
minus_one = 2 ^ 32 - 1

abbrev pub minus_one_64 : ℕ
minus_one_64 = 2 ^ 64 - 1

abbrev pub is_negative : ℕ → Bool
is_negative x = leb (2 ^ 31) x

abbrev pub is_negative_64 : ℕ → Bool
is_negative_64 x = leb (2 ^ 63) x

abbrev pub seek_set : ℕ
seek_set = 0

pub record Process (B : Backend) (C : CLibrary) : Type 0 where
  pub machine : Machine B
  pub world : C.World
  pub input_file_descriptor : ℕ
  pub input_offset : ℕ

module _ (B : Backend) (C : CLibrary) where
  abbrev pub Step : Type 0 → Type 0
  Step A = Cmd (Process B C) A

  -- A call of the shared runtime.
  abbrev pub shared : {A : Type 0} → Run B A → Step A
  shared f p = relay (f p.machine) (λ m. record p { machine = m })

  -- A call of the C library.
  abbrev pub library : {A : Type 0} → ((ℕ → ℕ) → C.World → A × (ℕ → ℕ) × C.World) → Step A
  library f p =
      let (a, memory, w) = f p.machine.memory p.world in
      some (a, record p { machine = record p.machine { memory = memory }; world = w })

  abbrev pub set_offset : ℕ → Step (Unit {0})
  set_offset offset p = some (tt, record p { input_offset = offset })

  unfoldable pub maybe_set_input_file : InputSource → List ℕ → ℕ → Step (Unit {0})
  maybe_set_input_file no_input path fd = pure tt
  maybe_set_input_file stdin_input path fd = pure tt
  maybe_set_input_file memory_input path fd = pure tt
  maybe_set_input_file (file_input name) path fd =
      when (C.contains path name)
        (λ p. some (tt, record p { input_file_descriptor = fd; input_offset = 0 }))

  unfoldable pub init_libc_wrappers : InputSource → Step (Unit {0})
  init_libc_wrappers no_input = pure tt
  init_libc_wrappers stdin_input = λ p. some (tt, record p { input_file_descriptor = 0 })
  init_libc_wrappers memory_input = pure tt
  init_libc_wrappers (file_input name) = pure tt

  unfoldable pub sym_open : InputSource → List ℕ → (oflag mode : ℕ) → Step ℕ
  sym_open input path oflag mode = do
    result ← library (C.open_file path oflag mode)
    shared (set_return_expression B none)
    when (not (is_negative result)) (maybe_set_input_file input path result)
    pure result

  -- What a wrapper that reads does with the `n` bytes that it got from the descriptor.
  unfoldable pub mark : (fd buf n : ℕ) → Step (Unit {0})
  mark fd buf n p =
      (if fd == p.input_file_descriptor
          then (do
            shared (make_symbolic B buf n p.input_offset)
            set_offset (add_size p.input_offset n))
          else (do
            c ← shared (concrete B buf n)
            when (not c) (shared (change B (λ g. some (fill g buf n none))))))
        p

  unfoldable pub sym_read : (fildes buf nbyte : ℕ) → Step ℕ
  sym_read fildes buf nbyte = do
    pointer ← shared (get_parameter_expression B 1)
    shared (call B (B.concretize_pointer pointer buf C.read_site))
    size ← shared (get_parameter_expression B 2)
    shared (call B (B.concretize_size size nbyte C.read_site))
    result ← library (C.read fildes buf nbyte)
    shared (set_return_expression B none)
    if is_negative_64 result then pure result else (do mark fildes buf result; pure result)

  unfoldable pub sym_lseek64 : (fd offset whence : ℕ) → Step ℕ
  sym_lseek64 fd offset whence = do
    result ← library (C.lseek64 fd offset whence)
    shared (set_return_expression B none)
    if result == minus_one_64 then pure result else (do
      when (whence == seek_set)
          (do e ← shared (get_parameter_expression B 1); shared (set_return_expression B e))
      λ p. when (fd == p.input_file_descriptor) (set_offset result) p
      pure result)

  unfoldable pub sym_lseek : (fd offset whence : ℕ) → Step ℕ
  sym_lseek fd offset whence = do
    result ← sym_lseek64 fd offset whence
    if result == result % 2 ^ 32
        then pure (result % 2 ^ 32)
        else (do library C.set_errno_overflow; pure minus_one)
