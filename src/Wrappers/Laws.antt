-- ===== src/Wrappers/Laws.antt =====
-- What the wrappers of runtime/LibcWrappers.cpp rely on of the C library.
use symcc.Common.{ℕ, Bool, ◌+◌, ◌≤◌, ◌<◌, ◌≡◌, true, false, ◌==◌}
use symcc.Wrappers.{CLibrary, is_negative_64, minus_one_64}

-- Each open file has a position, which a read that succeeds moves on by
-- the number of bytes read, no more than were asked for, and which `lseek64` returns where it
-- succeeds; a call leaves the positions of other files alone, and a failed one those of all. A read
-- stores the bytes of the file from its position on.
pub record CLaws (C : CLibrary) : Type 0 where
  pub position : C.World → ℕ → ℕ
  pub contents : C.World → ℕ → ℕ → ℕ
  -- Do two descriptors stand for one open file, as after `dup`? They have one position then.
  pub is_shared : C.World → (fd other : ℕ) → Bool
  pub read_length :
      (fd buf n : ℕ) (memory : ℕ → ℕ) (w : C.World)
      → is_negative_64 (C.read fd buf n memory w).0 ≡ false
      → (C.read fd buf n memory w).0 ≤ n
  pub read_position :
      (fd buf n : ℕ) (memory : ℕ → ℕ) (w : C.World)
      → is_negative_64 (C.read fd buf n memory w).0 ≡ false
      → position (C.read fd buf n memory w).2 fd ≡ position w fd + (C.read fd buf n memory w).0
  pub read_bytes :
      (fd buf n : ℕ) (memory : ℕ → ℕ) (w : C.World) (i : ℕ)
      → is_negative_64 (C.read fd buf n memory w).0 ≡ false
      → i < (C.read fd buf n memory w).0
      → (C.read fd buf n memory w).1 (buf + i) ≡ contents w fd (position w fd + i)
  pub read_others :
      (fd other buf n : ℕ) (memory : ℕ → ℕ) (w : C.World)
      → is_shared w fd other ≡ false
      → position (C.read fd buf n memory w).2 other ≡ position w other
  pub lseek_position :
      (fd offset whence : ℕ) (memory : ℕ → ℕ) (w : C.World)
      → ((C.lseek64 fd offset whence memory w).0 == minus_one_64) ≡ false
      → position (C.lseek64 fd offset whence memory w).2 fd
        ≡ (C.lseek64 fd offset whence memory w).0
  pub lseek_failure :
      (fd other offset whence : ℕ) (memory : ℕ → ℕ) (w : C.World)
      → ((C.lseek64 fd offset whence memory w).0 == minus_one_64) ≡ true
      → position (C.lseek64 fd offset whence memory w).2 other ≡ position w other
  pub lseek_others :
      (fd other offset whence : ℕ) (memory : ℕ → ℕ) (w : C.World)
      → is_shared w fd other ≡ false
      → position (C.lseek64 fd offset whence memory w).2 other ≡ position w other
  pub errno_position :
      (fd : ℕ) (memory : ℕ → ℕ) (w : C.World)
      → position (C.set_errno_overflow memory w).2 fd ≡ position w fd
