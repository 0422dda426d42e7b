-- ===== src/Tests/Streams.antt =====
-- Streams on a file of 100 characters, and a program on one.
use symcc.Common.{
  arith, ℕ, suc, ◌-◌, ◌<◌, refl, List, [], ◌∷◌, ◌==◌, ltb, if◌then◌else◌, Bool-cases, inl, inr,
}
use symcc.Common.Cmd.{Returns}
use symcc.Wrappers.{minus_one}
use symcc.Runtime.{get_parameter_expression, set_return_expression}
use symcc.Wrappers.Streams.{
  StreamFunctions, eof, seek_with, read_character, input_character, sym_getc, sym_fgetc, sym_ungetc,
  sym_fseek, sym_fseeko64, sym_rewind,
}
use symcc.Wrappers.Streams.Following.{
  Seeks, Gets, StreamLaws, StreamCall, rewinds, gets_c, fgets_c, seeks, seeks_o64, ungets, Follows,
  perform_all, perform_all-Follows,
}
use symcc.Tests.Toy.{toy}
use symcc.Tests.Files.{files, process}

-- The position of the only stream, and the file system after it is set.
abbrev position : ℕ → files.World → ℕ
position st w = if ltb (w 3) 101 then w 3 else 100

abbrev moved : ℕ → files.World → files.World
moved o w fd = if fd == 3 then o else w fd

abbrev seek : ℕ → ℕ → ℕ → (ℕ → ℕ) → files.World → ℕ × (ℕ → ℕ) × files.World
seek st o h memory w = if ltb o 101 then (0, memory, moved o w) else (minus_one, memory, w)

abbrev tell : ℕ → (ℕ → ℕ) → files.World → ℕ × (ℕ → ℕ) × files.World
tell st memory w = (position st w, memory, w)

abbrev get : ℕ → (ℕ → ℕ) → files.World → ℕ × (ℕ → ℕ) × files.World
get st memory w =
    if ltb (position st w) 100
    then (65, memory, moved (suc (position st w)) w)
    else (eof, memory, w)

abbrev unget : ℕ → ℕ → (ℕ → ℕ) → files.World → ℕ × (ℕ → ℕ) × files.World
unget c st memory w =
    if position st w == 0 then (eof, memory, w) else (65, memory, moved (position st w - 1) w)

abbrev streams : StreamFunctions files
streams = record {
  fileno = λ st w. 3;
  fopen = λ path mode memory w. (9, memory, w);
  fopen64 = λ path mode memory w. (9, memory, w);
  fread = λ ptr length nmemb st memory w. (0, memory, w);
  fgets = λ str n st memory w. (0, memory, w);
  rewind = λ st memory w. (tt, memory, moved 0 w);
  fseek = seek;
  fseeko = seek;
  fseeko64 = seek;
  ftell = tell;
  ftello = tell;
  ftello64 = tell;
  getc = get;
  fgetc = get;
  ungetc = unget;
  mmap64 = λ addr len prot flags fildes off memory w. (8192, memory, w);
  strlen = λ s memory. 0;
  stdin = 9;
  fread_site = 91;
  fgets_site = 92;
  fseek_site = 93;
  fseeko_site = 94;
  fseeko64_site = 95;
  mmap64_site = 96;
}

bound : (st : ℕ) (w : files.World) → position st w < 101
bound st w = ground arith

seek_laws : Seeks files position streams.fileno seek tell
seek_laws = record {
  fails = λ st o h memory w failed. elim (Bool-cases (ltb o 101)) [
    | inl e ↦ absurd (ground (arith, e))
    | inr e ↦ rw e refl
  ];
  tells = λ st o h memory memory' w ok. ground (arith, bound st (seek st o h memory w).2);
  told = λ st memory w ok. refl;
  seek_number = λ st o h memory w. refl;
  tell_number = λ st memory w. refl;
}

get_laws : Gets files position streams.fileno get
get_laws = record {
  ends = λ st memory w ended. elim (Bool-cases (ltb (position st w) 100)) [
    | inl e ↦ absurd (ground (arith, e))
    | inr e ↦ rw e refl
  ];
  moves = λ st memory w got. elim (Bool-cases (ltb (position st w) 100)) [
    | inl e ↦ rw e (ground arith)
    | inr e ↦ absurd (ground (arith, e))
  ];
  get_number = λ st memory w. refl;
}

streams_laws : StreamLaws files streams
streams_laws = record {
  position = position;
  position_bound = λ st w. omega (arith, bound st w);
  fseek = seek_laws;
  fseeko = seek_laws;
  fseeko64 = seek_laws;
  getc = get_laws;
  fgetc = get_laws;
  rewind_position = λ st memory w. refl;
  rewind_number = λ st memory w. refl;
  ungetc_position = λ c st memory w above back. elim (Bool-cases (position st w == 0)) [
    | inl e ↦ absurd (ground (arith, e))
    | inr e ↦ rw e (ground (arith, bound st w))
  ];
  ungetc_failure = λ c st memory w failed. elim (Bool-cases (position st w == 0)) [
    | inl e ↦ rw e refl
    | inr e ↦ absurd (ground (arith, e))
  ];
  ungetc_number = λ c st memory w. refl;
}

abbrev calls : List StreamCall
calls = gets_c ∷ ungets 65 ∷ seeks 99 0 ∷ fgets_c ∷ gets_c ∷ seeks_o64 500 0 ∷ rewinds ∷ []

calls_example :
    Returns
      (λ _ q. Follows toy files streams streams_laws 9 q)
      (perform_all toy files streams streams_laws 9 calls process)
unfolding streams_laws get_parameter_expression set_return_expression seek_with read_character
    input_character sym_getc sym_fgetc sym_ungetc sym_fseek sym_fseeko64 sym_rewind
calls_example = perform_all-Follows toy files streams streams_laws 9 calls process (refl, refl) refl
