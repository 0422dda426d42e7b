-- ===== src/Wrappers/Streams/Following.antt =====
-- The offset that the wrappers of the stdio functions in runtime/LibcWrappers.cpp keep, against
-- the position of the stream.
use symcc.Common.{
  arith, ℕ, suc, ◌+◌, ◌-◌, ◌%◌, ◌^◌, ◌<◌, ◌≡◌, sym, ap, subst, ◌∙◌, refl, Bool, true, false, ◌&&◌,
  ◌||◌, is_some, ltb, Option, none, some, List, [], ◌∷◌, ◌==◌, Bool-cases, inl, inr,
}
use symcc.Common.Cmd.{and_then, pure, ◌>>=◌, ◌>>◌, Returns, returns, Returns-bind, Returns-continue}
use symcc.Backend.{Backend}
use symcc.Shadow.{word_mod}
use symcc.Runtime.{add_size, get_parameter_expression, set_return_expression}
use symcc.Wrappers.{CLibrary, Process, Step, minus_one, minus_one_64}
use symcc.Wrappers.Streams.{
  StreamFunctions, eof, seek_with, sym_fseek, sym_fseeko, sym_fseeko64, sym_rewind, read_character,
  input_character, sym_getc, sym_fgetc, sym_ungetc,
}

-- A call of the C library on a stream.
abbrev pub LibraryCall : CLibrary → Type 0
LibraryCall C = (ℕ → ℕ) → C.World → ℕ × (ℕ → ℕ) × C.World

-- A stream's functions that seek: one that fails moves nothing, and after one that succeeds the
-- position can be told.
pub record Seeks (C : CLibrary) (position number : ℕ → C.World → ℕ)
    (seek : ℕ → ℕ → ℕ → LibraryCall C) (tell : ℕ → LibraryCall C) : Type 0 where
  pub fails :
      (st o h : ℕ) (memory : ℕ → ℕ) (w : C.World)
      → ((seek st o h memory w).0 == minus_one) ≡ true
      → position st (seek st o h memory w).2 ≡ position st w
  pub tells :
      (st o h : ℕ) (memory memory' : ℕ → ℕ) (w : C.World)
      → ((seek st o h memory w).0 == minus_one) ≡ false
      → ((tell st memory' (seek st o h memory w).2).0 == minus_one_64) ≡ false
  pub told :
      (st : ℕ) (memory : ℕ → ℕ) (w : C.World)
      → ((tell st memory w).0 == minus_one_64) ≡ false
      → (tell st memory w).0 ≡ position st (tell st memory w).2
  pub seek_number :
      (st o h : ℕ) (memory : ℕ → ℕ) (w : C.World) → number st (seek st o h memory w).2 ≡ number st w
  pub tell_number :
      (st : ℕ) (memory : ℕ → ℕ) (w : C.World) → number st (tell st memory w).2 ≡ number st w

-- A function that gets a character: the position moves on by one unless the end is met.
pub record Gets (C : CLibrary) (position number : ℕ → C.World → ℕ) (get : ℕ → LibraryCall C)
    : Type 0 where
  pub ends :
      (st : ℕ) (memory : ℕ → ℕ) (w : C.World)
      → ((get st memory w).0 == eof) ≡ true
      → position st (get st memory w).2 ≡ position st w
  pub moves :
      (st : ℕ) (memory : ℕ → ℕ) (w : C.World)
      → ((get st memory w).0 == eof) ≡ false
      → position st (get st memory w).2 ≡ suc (position st w)
  pub get_number :
      (st : ℕ) (memory : ℕ → ℕ) (w : C.World) → number st (get st memory w).2 ≡ number st w

-- After a character is put back at position 0, the C standard leaves the position open.
pub record StreamLaws (C : CLibrary) (F : StreamFunctions C) : Type 0 where
  pub position : ℕ → C.World → ℕ
  pub position_bound : (st : ℕ) (w : C.World) → position st w < word_mod
  pub fseek : Seeks C position F.fileno F.fseek F.ftell
  pub fseeko : Seeks C position F.fileno F.fseeko F.ftello
  pub fseeko64 : Seeks C position F.fileno F.fseeko64 F.ftello64
  pub getc : Gets C position F.fileno F.getc
  pub fgetc : Gets C position F.fileno F.fgetc
  pub rewind_position :
      (st : ℕ) (memory : ℕ → ℕ) (w : C.World) → position st (F.rewind st memory w).2 ≡ 0
  pub rewind_number :
      (st : ℕ) (memory : ℕ → ℕ) (w : C.World) → F.fileno st (F.rewind st memory w).2 ≡ F.fileno st w
  pub ungetc_position :
      (c st : ℕ) (memory : ℕ → ℕ) (w : C.World)
      → 0 < position st w
      → ((F.ungetc c st memory w).0 == eof) ≡ false
      → suc (position st (F.ungetc c st memory w).2) ≡ position st w
  pub ungetc_failure :
      (c st : ℕ) (memory : ℕ → ℕ) (w : C.World)
      → ((F.ungetc c st memory w).0 == eof) ≡ true
      → position st (F.ungetc c st memory w).2 ≡ position st w
  pub ungetc_number :
      (c st : ℕ) (memory : ℕ → ℕ) (w : C.World)
      → F.fileno st (F.ungetc c st memory w).2 ≡ F.fileno st w

pub data StreamCall : Type 0 where
  rewinds gets_c fgets_c : StreamCall
  seeks seeks_o seeks_o64 : (offset whence : ℕ) → StreamCall
  ungets : (c : ℕ) → StreamCall

some_of : {A : Type 0} (o : Option A) → is_some o ≡ true → (a : A) × (o ≡ some a)
some_of none h = absurd (ground (arith, h))
some_of (some a) h = (a, refl)

both_of : (a b : Bool) → (a && b) ≡ true → (a ≡ true) × (b ≡ true)
both_of true b h = (refl, h)
both_of false b h = absurd (ground (arith, h))

module _ (B : Backend) (C : CLibrary) (F : StreamFunctions C) (L : StreamLaws C F) where
  -- The stream is the input, and the offset is its position.
  abbrev pub Follows : ℕ → Process B C → Type 0
  Follows st p =
      (F.fileno st p.world ≡ p.input_file_descriptor) × (p.input_offset ≡ L.position st p.world)

  -- Is the backend able to concretize the offset of a seek?
  abbrev pub can_seek : (offset site : ℕ) → Process B C → Bool
  can_seek o site p =
      is_some (B.concretize_size (p.machine.function_arguments 1) o site p.machine.backend)

  -- Does it have an expression for the character that is got, if there is one?
  abbrev pub can_get : LibraryCall C → Process B C → Bool
  can_get get p =
      let result = (get p.machine.memory p.world).0 in
      (result == eof)
      || is_some (B.get_input_byte p.input_offset (result % 2 ^ 8) p.machine.backend).0

  here : (a b : ℕ) → a ≡ b → (a == b) ≡ true
  here a b e = ground (arith, e)

  seek_with-Follows :
      (seek : ℕ → ℕ → ℕ → LibraryCall C) (tell : ℕ → LibraryCall C)
      → Seeks C L.position F.fileno seek tell
      → (st o h site : ℕ) (p : Process B C) → Follows st p
      → can_seek o site p ≡ true
      → Returns (λ _ q. Follows st q) (seek_with B C F (seek st o h) (tell st) st o site p)
  unfolding seek_with get_parameter_expression set_return_expression
  seek_with-Follows seek tell S st o h site p (number, offset) can =
      let (t, okay) =
        some_of (B.concretize_size (p.machine.function_arguments 1) o site p.machine.backend) can in
      let (r, memory, w) = seek st o h p.machine.memory p.world in
      let number' = S.seek_number st o h p.machine.memory p.world ∙ number in
      elim (Bool-cases (r == minus_one)) [
        | inl failed ↦
            rw (okay, failed)
              (returns (number', offset ∙ sym (S.fails st o h p.machine.memory p.world failed)))
        | inr moved ↦
            let telling = S.tells st o h p.machine.memory memory p.world moved in
            rw (okay, moved, here (F.fileno st w) p.input_file_descriptor number', telling)
              (returns (S.tell_number st memory w ∙ number', S.told st memory w telling))
      ]

  input_character-Follows :
      (result st : ℕ) (p : Process B C)
      → is_some (B.get_input_byte p.input_offset (result % 2 ^ 8) p.machine.backend).0 ≡ true
      → F.fileno st p.world ≡ p.input_file_descriptor
      → suc p.input_offset ≡ L.position st p.world
      → Returns (λ _ q. Follows st q) (input_character B C F result p)
  unfolding input_character set_return_expression
  input_character-Follows result st p can number next =
      let (e, answer) =
        some_of (B.get_input_byte p.input_offset (result % 2 ^ 8) p.machine.backend).0 can in
      let small = L.position_bound st p.world in
      let moved : add_size p.input_offset 1 ≡ L.position st p.world = omega (arith, next, small) in
      rw answer (returns (number, moved))

  read_character-Follows :
      (get : ℕ → LibraryCall C)
      → Gets C L.position F.fileno get
      → (st : ℕ) (p : Process B C) → Follows st p
      → can_get (get st) p ≡ true
      → Returns (λ _ q. Follows st q) (read_character B C F (get st) st p)
  unfolding read_character set_return_expression
  read_character-Follows get G st p (number, offset) can =
      let (r, memory, w) = get st p.machine.memory p.world in
      let number' = G.get_number st p.machine.memory p.world ∙ number in
      elim (Bool-cases (r == eof)) [
        | inl ended ↦
            rw ended (returns (number', offset ∙ sym (G.ends st p.machine.memory p.world ended)))
        | inr got ↦
            rw (got, here (F.fileno st w) p.input_file_descriptor number')
              (Returns-bind
                (input_character-Follows r st
                  (record p { machine = record p.machine { memory = memory }; world = w })
                  (ground (arith, can, got)) number'
                  (ap suc offset ∙ sym (G.moves st p.machine.memory p.world got)))
                λ _ q follows. returns follows)
      ]

  sym_ungetc-Follows :
      (c st : ℕ) (p : Process B C)
      → Follows st p
      → 0 < p.input_offset
      → Returns (λ _ q. Follows st q) (sym_ungetc B C F c st p)
  unfolding sym_ungetc get_parameter_expression set_return_expression
  sym_ungetc-Follows c st p (number, offset) above =
      let (r, memory, w) = F.ungetc c st p.machine.memory p.world in
      let number' = L.ungetc_number c st p.machine.memory p.world ∙ number in
      let same = here (F.fileno st w) p.input_file_descriptor number' in
      elim (Bool-cases (r == eof)) [
        | inl failed ↦
            rw (same, failed)
              (returns
                (number', offset ∙ sym (L.ungetc_failure c st p.machine.memory p.world failed)))
        | inr back ↦
            let old =
              L.ungetc_position c st p.machine.memory p.world (omega (arith, offset)) back in
            let small = L.position_bound st w in
            let moved : (p.input_offset + word_mod - 1) % word_mod ≡ L.position st w =
              omega (arith, offset, old, small) in
            rw (same, back) (returns (number', moved))
      ]

  abbrev pub perform : ℕ → StreamCall → Process B C → Option (Unit {0} × Process B C)
  perform st rewinds = sym_rewind B C F st
  perform st gets_c = sym_getc B C F st >>= λ _. pure tt
  perform st fgets_c = sym_fgetc B C F st >>= λ _. pure tt
  perform st (seeks o h) = sym_fseek B C F st o h >>= λ _. pure tt
  perform st (seeks_o o h) = sym_fseeko B C F st o h >>= λ _. pure tt
  perform st (seeks_o64 o h) = sym_fseeko64 B C F st o h >>= λ _. pure tt
  perform st (ungets c) = sym_ungetc B C F c st >>= λ _. pure tt

  abbrev pub perform_all : ℕ → List StreamCall → Step B C (Unit {0})
  perform_all st [] = pure tt
  perform_all st (c ∷ cs) = perform st c >> perform_all st cs

  -- The calls for which the backend answers, and that put no character back at the start.
  abbrev pub allowed : ℕ → StreamCall → Process B C → Bool
  allowed st rewinds p = true
  allowed st gets_c p = can_get (F.getc st) p
  allowed st fgets_c p = can_get (F.fgetc st) p
  allowed st (seeks o h) p = can_seek o F.fseek_site p
  allowed st (seeks_o o h) p = can_seek o F.fseeko_site p
  allowed st (seeks_o64 o h) p = can_seek o F.fseeko64_site p
  allowed st (ungets c) p = ltb 0 p.input_offset

  abbrev after_run : (Process B C → Bool) → Option (Unit {0} × Process B C) → Bool
  after_run test none = true
  after_run test (some (_, q)) = test q

  -- Each call of a run is allowed where it is made.
  abbrev pub all_allowed : ℕ → List StreamCall → Process B C → Bool
  all_allowed st [] p = true
  all_allowed st (c ∷ cs) p = allowed st c p && after_run (all_allowed st cs) (perform st c p)

  ignoring :
      {A : Type 0} {st : ℕ} {r : Option (A × Process B C)}
      → Returns (λ _ q. Follows st q) r
      → Returns (λ _ q. Follows st q) (and_then r λ _. pure tt)
  ignoring h = Returns-bind h λ _ q follows. returns follows

  perform-Follows :
      (st : ℕ) (c : StreamCall) (p : Process B C)
      → Follows st p
      → allowed st c p ≡ true
      → Returns (λ _ q. Follows st q) (perform st c p)
  unfolding sym_rewind sym_getc sym_fgetc sym_fseek sym_fseeko sym_fseeko64 set_return_expression
  perform-Follows st rewinds p (number, offset) can =
      let w = (F.rewind st p.machine.memory p.world).2 in
      let number' = L.rewind_number st p.machine.memory p.world ∙ number in
      rw (here (F.fileno st w) p.input_file_descriptor number')
        (returns (number', sym (L.rewind_position st p.machine.memory p.world)))
  perform-Follows st gets_c p f can = ignoring (read_character-Follows F.getc L.getc st p f can)
  perform-Follows st fgets_c p f can = ignoring (read_character-Follows F.fgetc L.fgetc st p f can)
  perform-Follows st (seeks o h) p f can =
      ignoring (seek_with-Follows F.fseek F.ftell L.fseek st o h F.fseek_site p f can)
  perform-Follows st (seeks_o o h) p f can =
      ignoring (seek_with-Follows F.fseeko F.ftello L.fseeko st o h F.fseeko_site p f can)
  perform-Follows st (seeks_o64 o h) p f can =
      ignoring (seek_with-Follows F.fseeko64 F.ftello64 L.fseeko64 st o h F.fseeko64_site p f can)
  perform-Follows st (ungets c) p f can =
      ignoring (sym_ungetc-Follows c st p f (ground (arith, can)))

  -- A program that gets characters of the input stream, puts them back, seeks and rewinds, in any
  -- order: no wrapper fails, and when it is done the offset is again the stream's position, if it was
  -- so before. Characters are put back above position 0 only, and where they are got or a seek is made,
  -- the backend gives an expression for the byte or concretizes the offset without failing.
  pub perform_all-Follows :
      (st : ℕ) (calls : List StreamCall) (p : Process B C)
      → Follows st p
      → all_allowed st calls p ≡ true
      → Returns (λ _ q. Follows st q) (perform_all st calls p)
  perform_all-Follows st [] p f can = returns f
  perform_all-Follows st (c ∷ cs) p f can =
      let (now, later) =
        both_of (allowed st c p) (after_run (all_allowed st cs) (perform st c p)) can in
      Returns-continue (perform-Follows st c p f now) λ _ q e g. perform_all-Follows st cs q g (
        subst (λ (r : Option (Unit {0} × Process B C)). after_run (all_allowed st cs) r ≡ true) e
          later)
