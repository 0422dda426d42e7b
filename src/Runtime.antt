-- ===== src/Runtime.antt =====
-- runtime/RuntimeCommon.cpp: what the backends share. The state is the shadow memory, the bytes of
-- the program under test, the storage for arguments and return values, the cache of switch
-- constraints and the state of the backend.
pub mod Aggregates
pub mod Input
pub mod Reading
pub mod Switch
pub mod Transfer
pub mod Writing
use symcc.Common.{
  ℕ, zero, suc, ◌+◌, ◌-◌, ◌*◌, ◌/◌, ◌%◌, ◌^◌, Bool, true, false, not, ◌&&◌, ◌||◌, Option, none,
  some, List, [], ◌∷◌, ◌++◌, ◌==◌, ltb, leb, if◌then◌else◌, is_some,
}
use symcc.Common.Cmd.{Cmd, pure, ◌>>=◌, ◌>>◌, when, require, keep, advance, relay}
use symcc.Backend.{Backend}
use symcc.Shadow.{
  Pages, ReadShadowIterator, WriteShadowIterator, word_mod, read_iterator, write_iterator,
  next_read, next_write, store_cell, read_cell, is_concrete, copy, copy_backward, fill,
}

-- `size_t` arithmetic.
abbrev pub add_size : ℕ → ℕ → ℕ
add_size a b = (a + b) % word_mod

abbrev pub sub_size : ℕ → ℕ → ℕ
sub_size a b = (a + (word_mod - b % word_mod)) % word_mod

abbrev pub mul_size : ℕ → ℕ → ℕ
mul_size a b = a * b % word_mod

-- `cached_path_constraint`
pub data CachedPathConstraint (E : Type 0) : Type 0 where
  cached : (constraint : Option E) (taken : Bool) (site_id : ℕ) → CachedPathConstraint E

pub record Machine (B : Backend) : Type 0 where
  pub backend : B.State
  pub shadow_pages : Pages B.Expr
  pub memory : ℕ → ℕ
  pub return_value : Option B.Expr
  pub function_arguments : ℕ → Option B.Expr
  pub switch_cache : List (CachedPathConstraint B.Expr)
  pub memory_input_offset : ℕ

module _ (B : Backend) where
  open B use {Expr, State}

  abbrev pub Run : Type 0 → Type 0
  Run A = Cmd (Machine B) A

  abbrev pub Sym : Type 0
  Sym = Option Expr

  -- A call of the backend that gives a value.
  abbrev pub build : {A : Type 0} → (State → A × State) → Run A
  build f m = let (a, t) = f m.backend in some (a, record m { backend = t })

  abbrev pub build? : {A : Type 0} → (State → Option (A × State)) → Run A
  build? f m = relay (f m.backend) (λ t. record m { backend = t })

  -- A call of the backend that gives none.
  abbrev pub call : (State → Option State) → Run (Unit {0})
  call f m = advance (f m.backend) (λ t. record m { backend = t })

  -- A use of the shadow that only reads it, and one that changes it.
  abbrev pub inspect : {A : Type 0} → (Pages Expr → Option A) → Run A
  inspect f m = keep (f m.shadow_pages) m

  abbrev pub change : (Pages Expr → Option (Pages Expr)) → Run (Unit {0})
  change f m = advance (f m.shadow_pages) (λ g. record m { shadow_pages = g })

  -- Arguments and return values of the functions of the program.
  unfoldable pub set_return_expression : Sym → Run (Unit {0})
  set_return_expression e m = some (
    tt,
    record m {
      backend = elim e [ none ↦ m.backend | some x ↦ B.notify_ret_expr x m.backend ];
      return_value = e;
    },
  )

  unfoldable pub get_return_expression : Run Sym
  get_return_expression m = some (m.return_value, record m { return_value = none })

  unfoldable pub set_parameter_expression : ℕ → Sym → Run (Unit {0})
  set_parameter_expression index e m = some (
    tt,
    record m {
      backend = B.notify_param_expr index e m.backend;
      function_arguments = λ i. if index == i then e else m.function_arguments i;
    },
  )

  unfoldable pub get_parameter_expression : ℕ → Run Sym
  get_parameter_expression index m = some (m.function_arguments index, m)

  unfoldable pub concrete : (addr nbytes : ℕ) → Run Bool
  concrete addr n = inspect (λ g. is_concrete B.bits g addr n)

  -- `!isConcrete(src, length) || !isConcrete(dest, length)`
  unfoldable pub symbolic_ranges : (src dest length : ℕ) → Run Bool
  symbolic_ranges src dest n = do
    c ← concrete src n
    if c then (do d ← concrete dest n; pure (not d)) else pure true

  unfoldable pub memcpy : (sym_dst sym_src sym_size : Sym) → (dest src length : ℕ) → Run (Unit {0})
  memcpy sd ss sz dest src n = do
    let symbolic_args = is_some sd || is_some ss || is_some sz
    symbolic_data ← symbolic_ranges src dest n
    when (symbolic_args || symbolic_data) (call (B.backend_memcpy sd ss sz dest src n))
    when symbolic_data (change (λ g. copy B.bits g src dest n))

  unfoldable pub memset :
      (sym_dst sym_value sym_size : Sym) → (memory value length : ℕ) → Run (Unit {0})
  memset sd sv sz addr value n = do
    let symbolic_args = is_some sd || is_some sv || is_some sz
    c ← concrete addr n
    let symbolic_data = not c
    when (symbolic_args || symbolic_data) (call (B.backend_memset sd sv sz addr value n))
    when (is_some sv || symbolic_data) (change (λ g. some (fill g addr n sv)))

  unfoldable pub memmove : (sym_dst sym_src sym_size : Sym) → (dest src length : ℕ) → Run (Unit {0})
  memmove sd ss sz dest src n = do
    let symbolic_args = is_some sd || is_some ss || is_some sz
    symbolic_data ← symbolic_ranges src dest n
    when (symbolic_args || symbolic_data) (call (B.backend_memmove sd ss sz dest src n))
    when symbolic_data (
        change (λ g.
          if ltb src dest then copy_backward B.bits g src dest n else copy B.bits g src dest n))

  -- `NonNullReadShadowIterator::operator*`
  unfoldable pub read_non_null : ReadShadowIterator → Run Expr
  read_non_null it m =
      (do
        v ← inspect (λ g. read_cell B.bits g it)
        elim v [ some e ↦ pure e | none ↦ build (B.build_integer (m.memory it.address) 8) ])
        m

  -- The `std::accumulate` of `_sym_read_memory`, over the rounds left.
  unfoldable pub accumulate : ℕ → Bool → ReadShadowIterator → Sym → Run Sym
  accumulate zero little it result m = some (result, m)
  accumulate (suc n) little it result m =
      (do
        byte ← read_non_null it
        joined ← elim result [
          | none ↦ pure byte
          | some r ↦ build (if little then B.concat_helper byte r else B.concat_helper r byte)
        ]
        accumulate n little (next_read m.shadow_pages it) (some joined))
        m

  unfoldable pub read_memory :
      (symbolic_addr : Sym) → (host_addr length : ℕ) → (little_endian : Bool) → Run Sym
  read_memory sa addr n little m =
      (do
        require (not (n == 0))
        c ← concrete addr n
        if c && not (is_some sa) then pure none else (do
          value ←
              if c then pure none else accumulate n little (read_iterator m.shadow_pages addr) none
          require (is_some sa || is_some value)
          build? (B.backend_read_memory sa value addr n little)))
        m

  -- The bytes of the written expression, one to each cell, from byte `i` on.
  unfoldable pub write_loop : ℕ → Bool → Expr → ℕ → ℕ → WriteShadowIterator → Run (Unit {0})
  write_loop zero little e len i it = pure tt
  write_loop (suc n) little e len i it = do
    byte ← build (
        if little
        then B.extract_helper e (sub_size (8 * (i + 1)) 1) (8 * i)
        else B.extract_helper e (sub_size (mul_size (sub_size len i) 8) 1)
            (mul_size (sub_size (sub_size len i) 1) 8))
    it' ← λ m.
        let (it', g) = next_write (store_cell m.shadow_pages it.shadow (some byte)) it in
        some (it', record m { shadow_pages = g })
    write_loop n little e len (i + 1) it'

  unfoldable pub write_memory :
      (symbolic_addr written : Sym)
      → (host_addr length : ℕ) → (little_endian : Bool) → Run (Unit {0})
  write_memory sa written addr n little = do
    require (not (n == 0))
    c ← concrete addr n
    when (not c || is_some sa || is_some written)
        (call (B.backend_write_memory sa written addr n little))
    elim written [
      | none ↦ when (not c) (change (λ g. some (fill g addr n none)))
      | some e ↦ λ m.
          let (it, g) = write_iterator m.shadow_pages addr in
          let (_, g') = write_iterator g (add_size addr n) in
          write_loop n little e n 0 it (record m { shadow_pages = g' })
    ]
