-- ===== src/Tests/Files.antt =====
-- Runs of the wrappers on files of which each byte is its position plus the descriptor.
use symcc.Common.{
  arith, ℕ, ◌+◌, ◌-◌, ◌^◌, ◌≡◌, refl, true, none, some, [], ◌==◌, ltb, if◌then◌else◌, ==_refl,
  Bool-cases, inl, inr,
}
use symcc.Shadow.Fill.{within}
use symcc.Runtime.Input.{Filled}
use symcc.Wrappers.{CLibrary, Process, sym_read, sym_lseek, minus_one, minus_one_64}
use symcc.Wrappers.Laws.{CLaws}
use symcc.Wrappers.Offsets.{InSync, requests, sym_read-input}
use symcc.Wrappers.Seeking.{sym_lseek-InSync}
use symcc.Tests.Toy.{toy}
use symcc.Tests.Shadows.{one_page}

abbrev set_position : ℕ → ℕ → (ℕ → ℕ) → ℕ → ℕ
set_position fd o w d = if fd == d then o else w d

abbrev pub files : CLibrary
files = record {
  World = ℕ → ℕ;
  open_file = λ path oflag mode memory w. (3, memory, set_position 3 0 w);
  read = λ fd buf n memory w. (
    n,
    λ a. if within a buf n then fd + (w fd + (a - buf)) else memory a,
    set_position fd (w fd + n) w,
  );
  lseek64 = λ fd offset whence memory w.
      (offset, memory, if offset == minus_one_64 then w else set_position fd offset w);
  set_errno_overflow = λ memory w. (tt, memory, w);
  contains = λ path name. true;
  read_site = 77;
}

abbrev files_laws : CLaws files
files_laws = record {
  position = λ w. w;
  contents = λ w fd i. fd + i;
  is_shared = λ w fd other. fd == other;
  read_length = λ fd buf n memory w ok. omega arith;
  read_position = λ fd buf n memory w ok. rw (==_refl fd) refl;
  read_bytes = λ fd buf n memory w i ok p.
      let inside : within (buf + i) buf n ≡ true = ground arith in rw inside (omega arith);
  read_others = λ fd other buf n memory w h. rw h refl;
  lseek_position = λ fd offset whence memory w h. rw (h, ==_refl fd) refl;
  lseek_failure = λ fd other offset whence memory w h. rw h refl;
  lseek_others = λ fd other offset whence memory w h. elim (Bool-cases (offset == minus_one_64)) [
    | inl e ↦ rw e refl
    | inr e ↦ rw (e, h) refl
  ];
  errno_position = λ fd memory w. refl;
}

abbrev pub process : Process toy files
process = record {
  machine = record {
    backend = [];
    shadow_pages = one_page;
    memory = λ a. 0;
    return_value = none;
    function_arguments = λ i. none;
    switch_cache = [];
    memory_input_offset = 0;
  };
  world = λ fd. 20;
  input_file_descriptor = 3;
  input_offset = 20;
}

read_input_example :
    (q : Process toy files) × (sym_read toy files 3 4094 6 process ≡ some (6, q))
    × InSync toy files files_laws q
    × Filled toy one_page 4094
        (requests toy files files_laws 6 (λ i. 3 + i) 20 []).0
        q.machine.shadow_pages
read_input_example =
    sym_read-input toy files files_laws process 3 4094 6 refl refl refl refl refl (omega arith)
      (omega arith)

lseek_example :
    (q : Process toy files) × (sym_lseek toy files 3 5000000000 0 process
      ≡ some (if ltb 5000000000 (2 ^ 32) then 5000000000 else minus_one, q))
    × InSync toy files files_laws q
    × (q.machine.shadow_pages ≡ one_page)
lseek_example = sym_lseek-InSync toy files files_laws process 3 5000000000 0 refl (inl refl)
