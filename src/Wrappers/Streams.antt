-- ===== src/Wrappers/Streams.antt =====
-- The wrappers of the stdio functions and of `mmap` in runtime/LibcWrappers.cpp. A stream is an address,
-- where 0 is the null pointer.
pub mod Following
use symcc.Common.{
  ℕ, ◌+◌, ◌-◌, ◌*◌, ◌%◌, ◌^◌, Bool, true, false, not, Option, none, some, List, ◌==◌, ltb,
  if◌then◌else◌,
}
use symcc.Common.Cmd.{pure, ◌>>=◌, ◌>>◌, when}
use symcc.Backend.{Backend}
use symcc.Config.{InputSource}
use symcc.Shadow.{word_mod}
use symcc.Runtime.{Run, Sym, build, call, add_size, get_parameter_expression, set_return_expression}
use symcc.Wrappers.{
  CLibrary, Process, Step, shared, library, set_offset, mark, maybe_set_input_file, minus_one,
  minus_one_64,
}
use symcc.Wrappers.Comparing.{sign_extend}

-- The functions of the C library behind these wrappers, and the wrappers' addresses. The result of
-- `getc`, `fgetc`, `ungetc` and the seeking functions is an `int`, and that of `ftell` a `long`.
pub record StreamFunctions (C : CLibrary) : Type 0 where
  pub fileno : (stream : ℕ) → C.World → ℕ
  pub fopen : (path mode : List ℕ) → (ℕ → ℕ) → C.World → ℕ × (ℕ → ℕ) × C.World
  pub fopen64 : (path mode : List ℕ) → (ℕ → ℕ) → C.World → ℕ × (ℕ → ℕ) × C.World
  pub fread : (ptr size nmemb stream : ℕ) → (ℕ → ℕ) → C.World → ℕ × (ℕ → ℕ) × C.World
  pub fgets : (str n stream : ℕ) → (ℕ → ℕ) → C.World → ℕ × (ℕ → ℕ) × C.World
  pub rewind : (stream : ℕ) → (ℕ → ℕ) → C.World → Unit {0} × (ℕ → ℕ) × C.World
  pub fseek : (stream offset whence : ℕ) → (ℕ → ℕ) → C.World → ℕ × (ℕ → ℕ) × C.World
  pub fseeko : (stream offset whence : ℕ) → (ℕ → ℕ) → C.World → ℕ × (ℕ → ℕ) × C.World
  pub fseeko64 : (stream offset whence : ℕ) → (ℕ → ℕ) → C.World → ℕ × (ℕ → ℕ) × C.World
  pub ftell : (stream : ℕ) → (ℕ → ℕ) → C.World → ℕ × (ℕ → ℕ) × C.World
  pub ftello : (stream : ℕ) → (ℕ → ℕ) → C.World → ℕ × (ℕ → ℕ) × C.World
  pub ftello64 : (stream : ℕ) → (ℕ → ℕ) → C.World → ℕ × (ℕ → ℕ) × C.World
  pub getc : (stream : ℕ) → (ℕ → ℕ) → C.World → ℕ × (ℕ → ℕ) × C.World
  pub fgetc : (stream : ℕ) → (ℕ → ℕ) → C.World → ℕ × (ℕ → ℕ) × C.World
  pub ungetc : (c stream : ℕ) → (ℕ → ℕ) → C.World → ℕ × (ℕ → ℕ) × C.World
  pub mmap64 : (addr len prot flags fildes off : ℕ) → (ℕ → ℕ) → C.World → ℕ × (ℕ → ℕ) × C.World
  pub strlen : (s : ℕ) → (ℕ → ℕ) → ℕ
  pub stdin : ℕ
  pub fread_site : ℕ
  pub fgets_site : ℕ
  pub fseek_site : ℕ
  pub fseeko_site : ℕ
  pub fseeko64_site : ℕ
  pub mmap64_site : ℕ

-- `EOF`
abbrev pub eof : ℕ
eof = minus_one

module _ (B : Backend) (C : CLibrary) (F : StreamFunctions C) where
  abbrev parameter : ℕ → Step B C (Sym B)
  parameter i = shared B C (get_parameter_expression B i)

  abbrev pointer : (i p site : ℕ) → Step B C (Unit {0})
  pointer i p site = do e ← parameter i; shared B C (call B (B.concretize_pointer e p site))

  abbrev size : (i n site : ℕ) → Step B C (Unit {0})
  size i n site = do e ← parameter i; shared B C (call B (B.concretize_size e n site))

  abbrev return_expression : Sym B → Step B C (Unit {0})
  return_expression e = shared B C (set_return_expression B e)

  abbrev file_number : (stream : ℕ) → Step B C ℕ
  file_number stream p = some (F.fileno stream p.world, p)

  -- What is done when the stream is the input.
  abbrev on_input : (stream : ℕ) → Step B C (Unit {0}) → Step B C (Unit {0})
  on_input stream then_do p = when (F.fileno stream p.world == p.input_file_descriptor) then_do p

  unfoldable pub open_with :
      InputSource → (path : List ℕ) → ((ℕ → ℕ) → C.World → ℕ × (ℕ → ℕ) × C.World) → Step B C ℕ
  open_with input path open_stream = do
    result ← library B C open_stream
    return_expression none
    when (not (result == 0)) (do fd ← file_number result; maybe_set_input_file B C input path fd)
    pure result

  unfoldable pub sym_fopen : InputSource → (path mode : List ℕ) → Step B C ℕ
  sym_fopen input path mode = open_with input path (F.fopen path mode)

  unfoldable pub sym_fopen64 : InputSource → (path mode : List ℕ) → Step B C ℕ
  sym_fopen64 input path mode = open_with input path (F.fopen64 path mode)

  unfoldable pub sym_fread : (ptr size nmemb stream : ℕ) → Step B C ℕ
  sym_fread ptr length nmemb stream = do
    pointer 0 ptr F.fread_site
    size 1 length F.fread_site
    size 2 nmemb F.fread_site
    result ← library B C (F.fread ptr length nmemb stream)
    return_expression none
    fd ← file_number stream
    mark B C fd ptr (result * length % word_mod)
    pure result

  unfoldable pub sym_fgets : (str n stream : ℕ) → Step B C ℕ
  sym_fgets str n stream = do
    pointer 0 str F.fgets_site
    size 1 (sign_extend n) F.fgets_site
    result ← library B C (F.fgets str n stream)
    e ← parameter 0
    return_expression e
    fd ← file_number stream
    λ p. mark B C fd str (F.strlen str p.machine.memory) p
    pure result

  unfoldable pub sym_rewind : (stream : ℕ) → Step B C (Unit {0})
  sym_rewind stream = do
    library B C (F.rewind stream)
    return_expression none
    on_input stream (set_offset B C 0)

  -- `fseek`, `fseeko` and `fseeko64` with the function that tells the position.
  unfoldable pub seek_with :
      (seek tell : (ℕ → ℕ) → C.World → ℕ × (ℕ → ℕ) × C.World)
      → (stream offset site : ℕ) → Step B C ℕ
  seek_with seek tell stream offset site = do
    size 1 offset site
    result ← library B C seek
    return_expression none
    if result == minus_one then pure result else (do
      fd ← file_number stream
      λ p.
          (if fd == p.input_file_descriptor
              then (do
                position ← library B C tell
                if position == minus_one_64
                    then pure minus_one
                    else (do set_offset B C position; pure result))
              else pure result)
            p)

  unfoldable pub sym_fseek : (stream offset whence : ℕ) → Step B C ℕ
  sym_fseek stream offset whence =
      seek_with (F.fseek stream offset whence) (F.ftell stream) stream offset F.fseek_site

  unfoldable pub sym_fseeko : (stream offset whence : ℕ) → Step B C ℕ
  sym_fseeko stream offset whence =
      seek_with (F.fseeko stream offset whence) (F.ftello stream) stream offset F.fseeko_site

  unfoldable pub sym_fseeko64 : (stream offset whence : ℕ) → Step B C ℕ
  sym_fseeko64 stream offset whence =
      seek_with (F.fseeko64 stream offset whence) (F.ftello64 stream) stream offset F.fseeko64_site

  -- The expression of a character of the input, whose offset is moved on: `_sym_build_zext` fails on
  -- a null pointer.
  unfoldable pub input_character : (result : ℕ) → Step B C (Unit {0})
  input_character result p =
      (do
        set_offset B C (add_size p.input_offset 1)
        e ← shared B C (λ m.
            let (e, t) = B.get_input_byte p.input_offset (result % 2 ^ 8) m.backend in
            some (e, record m { backend = t }))
        elim e [
          | none ↦ λ q. none
          | some byte ↦ (do
            wide ← shared B C (build B (B.build_zext byte 24))
            return_expression (some wide))
        ])
        p

  unfoldable pub read_character :
      ((ℕ → ℕ) → C.World → ℕ × (ℕ → ℕ) × C.World) → (stream : ℕ) → Step B C ℕ
  read_character get stream = do
    result ← library B C get
    if result == eof then (do return_expression none; pure result) else (do
      fd ← file_number stream
      λ p.
          (if fd == p.input_file_descriptor then input_character result else return_expression none)
            p
      pure result)

  unfoldable pub sym_getc : (stream : ℕ) → Step B C ℕ
  sym_getc stream = read_character (F.getc stream) stream

  unfoldable pub sym_fgetc : (stream : ℕ) → Step B C ℕ
  sym_fgetc stream = read_character (F.fgetc stream) stream

  unfoldable pub sym_getchar : Step B C ℕ
  sym_getchar = sym_getc F.stdin

  unfoldable pub sym_ungetc : (c stream : ℕ) → Step B C ℕ
  sym_ungetc c stream = do
    result ← library B C (F.ungetc c stream)
    e ← parameter 0
    return_expression e
    fd ← file_number stream
    λ p.
        (if fd == p.input_file_descriptor
            then when (not (result == eof))
                (set_offset B C ((p.input_offset + word_mod - 1) % word_mod))
            else pure tt)
          p
    pure result

  unfoldable pub sym_mmap64 : (addr len prot flags fildes off : ℕ) → Step B C ℕ
  sym_mmap64 addr len prot flags fildes off = do
    result ← library B C (F.mmap64 addr len prot flags fildes off)
    size 1 len F.mmap64_site
    return_expression none
    pure result

  -- The offset is a number of 32 bits.
  unfoldable pub sym_mmap : (addr len prot flags fildes off : ℕ) → Step B C ℕ
  sym_mmap addr len prot flags fildes off = sym_mmap64 addr len prot flags fildes off
