-- ===== src/Wrappers/Comparing.antt =====
-- The wrappers of `strchr`, `memcmp`, `bcmp`, `strncmp`, `strncasecmp`, `strcmp`, `strcasecmp` and of
-- the byte swaps `ntohl`, `htonl`, `ntohs` and `htons` in runtime/LibcWrappers.cpp. The arguments of a
-- call are evaluated from left to right.
pub mod Equality
use symcc.Common.{
  ℕ, zero, suc, ◌+◌, ◌-◌, ◌%◌, ◌^◌, Bool, true, false, not, ◌&&◌, Option, none, some, ◌==◌, ltb,
  if◌then◌else◌,
}
use symcc.Common.Cmd.{pure, ◌>>=◌, ◌>>◌, when}
use symcc.Backend.{Backend}
use symcc.Shadow.{ReadShadowIterator, read_iterator, next_read, read_cell}
use symcc.Runtime.{
  Run, Sym, build, call, concrete, inspect, get_parameter_expression, set_return_expression,
  read_non_null,
}
use symcc.Runtime.Aggregates.{build_bswap}
use symcc.Wrappers.{CLibrary, Process, Step, shared}

-- The functions of the C library behind these wrappers, on the program's memory, and the wrappers'
-- addresses. A result is an `int`, a number or a pointer, where 0 is the null pointer.
pub record CompareFunctions : Type 0 where
  pub strlen : (s : ℕ) → (ℕ → ℕ) → ℕ
  pub strchr : (s c : ℕ) → (ℕ → ℕ) → ℕ
  pub memcmp : (a b n : ℕ) → (ℕ → ℕ) → ℕ
  pub strncmp : (a b n : ℕ) → (ℕ → ℕ) → ℕ
  pub strncasecmp : (a b n : ℕ) → (ℕ → ℕ) → ℕ
  pub ntohl : ℕ → ℕ
  pub htonl : ℕ → ℕ
  pub ntohs : ℕ → ℕ
  pub htons : ℕ → ℕ
  pub strchr_site : ℕ
  pub memcmp_site : ℕ
  pub strncmp_site : ℕ
  pub strncasecmp_site : ℕ

-- An `int` as a `size_t`.
abbrev pub sign_extend : ℕ → ℕ
sign_extend c = if ltb c (2 ^ 31) then c else c + 2 ^ 64 - 2 ^ 32

-- `std::min`
abbrev pub lesser : ℕ → ℕ → ℕ
lesser a b = if ltb b a then b else a

-- A `char`, which is signed, as a `uint64_t`.
abbrev pub char_value : ℕ → ℕ
char_value v = if ltb v (2 ^ 7) then v else v + 2 ^ 64 - 2 ^ 8

module _ (B : Backend) where
  open B use {Expr}

  -- The loop over the bytes behind the first, over the rounds left.
  unfoldable pub equal_bytes : ℕ → (a b : ReadShadowIterator) → Expr → Run B Expr
  equal_bytes zero ia ib all m = pure all m
  equal_bytes (suc n) ia ib all m =
      let ja = next_read m.shadow_pages ia in
      let jb = next_read m.shadow_pages ib in
      (do
        x ← read_non_null B ja
        y ← read_non_null B jb
        same ← build B (B.build_equal x y)
        both ← build B (B.build_bool_and all same)
        equal_bytes n ja jb both)
        m

  -- All bytes of two ranges are equal.
  unfoldable pub all_equal : (a b n : ℕ) → Run B Expr
  all_equal a b n m =
      let ia = read_iterator m.shadow_pages a in
      let ib = read_iterator m.shadow_pages b in
      (do
        x ← read_non_null B ia
        y ← read_non_null B ib
        same ← build B (B.build_equal x y)
        equal_bytes (n - 1) ia ib same)
        m

  -- A constant of 8 bits.
  abbrev byte : ℕ → Run B Expr
  byte v = build B (B.build_integer v 8)

  -- Strictly between two characters.
  unfoldable pub between : Expr → (low high : ℕ) → Run B Expr
  between x low high = do
    l ← byte low
    above ← build B (B.build_unsigned_greater_than x l)
    h ← byte high
    below ← build B (B.build_unsigned_less_than x h)
    build B (B.build_bool_and above below)

  -- `character_is_equivalent` of `strncasecmp`: 65 is 'A', 90 is 'Z', 97 is 'a' and 122 is 'z', and
  -- `~0x20` is -33 as a `uint64_t`.
  unfoldable pub equivalent : (x y : Expr) → Run B Expr
  equivalent x y = do
    upper ← between x 65 90
    lower ← between x 97 122
    is_letter ← build B (B.build_or upper lower)
    mask_x ← byte (2 ^ 64 - 33)
    cased_x ← build B (B.build_and x mask_x)
    mask_y ← byte (2 ^ 64 - 33)
    cased_y ← build B (B.build_and y mask_y)
    same ← build B (B.build_equal x y)
    same_cased ← build B (B.build_equal cased_x cased_y)
    letters ← build B (B.build_and is_letter same_cased)
    build B (B.build_bool_or same letters)

  unfoldable pub equivalent_bytes : ℕ → (a b : ReadShadowIterator) → Expr → Run B Expr
  equivalent_bytes zero ia ib all m = pure all m
  equivalent_bytes (suc n) ia ib all m =
      let ja = next_read m.shadow_pages ia in
      let jb = next_read m.shadow_pages ib in
      (do
        x ← read_non_null B ja
        y ← read_non_null B jb
        same ← equivalent x y
        both ← build B (B.build_bool_and all same)
        equivalent_bytes n ja jb both)
        m

  unfoldable pub all_equivalent : (a b n : ℕ) → Run B Expr
  all_equivalent a b n m =
      let ia = read_iterator m.shadow_pages a in
      let ib = read_iterator m.shadow_pages b in
      (do
        x ← read_non_null B ia
        y ← read_non_null B ib
        same ← build B (B.build_equal x y)
        equivalent_bytes (n - 1) ia ib same)
        m

  -- The constraint on two ranges, if they are not concrete.
  unfoldable pub push_comparison :
      (a b n : ℕ) → Run B Expr → (equal : Bool) → (site : ℕ) → Run B (Unit {0})
  push_comparison a b n compare equal site = do
    ca ← concrete B a n
    cb ← if ca then concrete B b n else pure false
    when (not (ca && cb)) (do e ← compare; call B (B.push_path_constraint (some e) equal site))

  -- The loop of `strchr`: each byte before the one that was found differs from the character.
  unfoldable pub push_different :
      ℕ → (s : ℕ) → ReadShadowIterator → Expr → (site : ℕ) → Run B (Unit {0})
  push_different zero s it c site m = pure tt m
  push_different (suc n) s it c site m =
      (do
        v ← inspect B (λ g. read_cell B.bits g it)
        x ← elim v [ some e ↦ pure e | none ↦ byte (char_value (m.memory s)) ]
        differs ← build B (B.build_not_equal x c)
        call B (B.push_path_constraint (some differs) true site)
        push_different n (suc s) (next_read m.shadow_pages it) c site)
        m

  unfoldable pub push_search : (s c length : ℕ) → Sym B → (site : ℕ) → Run B (Unit {0})
  push_search s c n none site = do
    quiet ← concrete B s n
    when (not quiet) (do
      character ← byte c
      λ m. push_different n s (read_iterator m.shadow_pages s) character site m)
  push_search s c n (some e) site = do
    concrete B s n
    character ← build B (B.build_trunc e 8)
    λ m. push_different n s (read_iterator m.shadow_pages s) character site m

module _ (B : Backend) (C : CLibrary) (F : CompareFunctions) where
  abbrev parameter : ℕ → Step B C (Sym B)
  parameter i = shared B C (get_parameter_expression B i)

  abbrev pointer : (i p site : ℕ) → Step B C (Unit {0})
  pointer i p site = do e ← parameter i; shared B C (call B (B.concretize_pointer e p site))

  abbrev size : (i n site : ℕ) → Step B C (Unit {0})
  size i n site = do e ← parameter i; shared B C (call B (B.concretize_size e n site))

  -- A function that only reads the program's memory.
  abbrev ask : ((ℕ → ℕ) → ℕ) → Step B C ℕ
  ask f p = some (f p.machine.memory, p)

  abbrev no_return : Step B C (Unit {0})
  no_return = shared B C (set_return_expression B none)

  unfoldable pub sym_strchr : (s c : ℕ) → Step B C ℕ
  sym_strchr s c = do
    pointer 0 s F.strchr_site
    size 1 (sign_extend c) F.strchr_site
    result ← ask (F.strchr s c)
    no_return
    e ← parameter 1
    length ← ask (F.strlen s)
    shared B C (
        push_search B s (sign_extend c) (if result == 0 then length else result - s) e
          F.strchr_site)
    pure result

  unfoldable pub sym_memcmp : (a b n : ℕ) → Step B C ℕ
  sym_memcmp a b n = do
    pointer 0 a F.memcmp_site
    pointer 1 b F.memcmp_site
    size 2 n F.memcmp_site
    result ← ask (F.memcmp a b n)
    no_return
    shared B C (push_comparison B a b n (all_equal B a b n) (result == 0) F.memcmp_site)
    pure result

  -- The same as `memcmp`, down to the address of its wrapper.
  unfoldable pub sym_bcmp : (a b n : ℕ) → Step B C ℕ
  sym_bcmp a b n = do
    pointer 0 a F.memcmp_site
    pointer 1 b F.memcmp_site
    size 2 n F.memcmp_site
    result ← ask (F.memcmp a b n)
    no_return
    shared B C (push_comparison B a b n (all_equal B a b n) (result == 0) F.memcmp_site)
    pure result

  -- The characters up to the shorter string's end.
  abbrev real_length : (a b n : ℕ) → Step B C ℕ
  real_length a b n = do
    la ← ask (F.strlen a)
    lb ← ask (F.strlen b)
    pure (lesser n (lesser (la + 1) (lb + 1)))

  unfoldable pub sym_strncmp : (a b n : ℕ) → Step B C ℕ
  sym_strncmp a b n = do
    pointer 0 a F.strncmp_site
    pointer 1 b F.strncmp_site
    size 2 n F.strncmp_site
    result ← ask (F.strncmp a b n)
    no_return
    len ← real_length a b n
    shared B C (push_comparison B a b len (all_equal B a b len) (result == 0) F.strncmp_site)
    pure result

  unfoldable pub sym_strncasecmp : (a b n : ℕ) → Step B C ℕ
  sym_strncasecmp a b n = do
    pointer 0 a F.strncasecmp_site
    pointer 1 b F.strncasecmp_site
    size 2 n F.strncasecmp_site
    result ← ask (F.strncasecmp a b n)
    no_return
    len ← real_length a b n
    shared B C
        (push_comparison B a b len (all_equivalent B a b len) (result == 0) F.strncasecmp_site)
    pure result

  -- The longer string with its terminator.
  abbrev longer : (a b : ℕ) → Step B C ℕ
  longer a b = do
    la ← ask (F.strlen a)
    lb ← ask (F.strlen b)
    pure ((if ltb lb la then la else lb) + 1)

  unfoldable pub sym_strcmp : (a b : ℕ) → Step B C ℕ
  sym_strcmp a b = do len ← longer a b; sym_strncmp a b len

  unfoldable pub sym_strcasecmp : (a b : ℕ) → Step B C ℕ
  sym_strcasecmp a b = do len ← longer a b; sym_strncasecmp a b len

  -- The wrapper of a byte swap, on a machine that stores the low byte first.
  unfoldable pub byte_swap : (ℕ → ℕ) → ℕ → Step B C ℕ
  byte_swap f x = do
    e ← parameter 0
    elim e [
      | none ↦ no_return
      | some v ↦ (do
        swapped ← shared B C (build_bswap B v)
        shared B C (set_return_expression B (some swapped)))
    ]
    pure (f x)

  unfoldable pub sym_ntohl : ℕ → Step B C ℕ
  sym_ntohl = byte_swap F.ntohl

  unfoldable pub sym_htonl : ℕ → Step B C ℕ
  sym_htonl = byte_swap F.htonl

  unfoldable pub sym_ntohs : ℕ → Step B C ℕ
  sym_ntohs = byte_swap F.ntohs

  unfoldable pub sym_htons : ℕ → Step B C ℕ
  sym_htons = byte_swap F.htons
