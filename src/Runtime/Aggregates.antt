-- ===== src/Runtime/Aggregates.antt =====
-- `_sym_build_extract`, `_sym_build_bswap` and `_sym_build_insert` of runtime/RuntimeCommon.cpp:
-- expressions of aggregates, whose byte 0 is the highest one.
pub mod Values
pub mod Insertion
use symcc.Common.{
  ℕ, zero, suc, ◌+◌, ◌-◌, ◌/◌, ◌%◌, Bool, true, false, Option, none, some, ◌==◌, if◌then◌else◌,
}
use symcc.Common.Cmd.{Cmd, pure, ◌>>=◌, ◌>>◌, require}
use symcc.Backend.{Backend}
use symcc.Runtime.{Machine, Run, Sym, build, add_size, sub_size, mul_size}

module _ (B : Backend) where
  open B use {Expr, State, bits}

  -- The bytes of the loop from byte `i` on, over the rounds left.
  unfoldable pub extract_loop : ℕ → Expr → (offset i : ℕ) → Expr → Run B Expr
  extract_loop zero e offset i result m = some (result, m)
  extract_loop (suc n) e offset i result m =
      (do
        byte ← build B (
            B.extract_helper e (sub_size (sub_size (bits e) (mul_size (add_size offset i) 8)) 1)
              (sub_size (bits e) (mul_size (add_size (add_size offset i) 1) 8)))
        joined ← build B (B.concat_helper byte result)
        extract_loop n e offset (suc i) joined)
        m

  unfoldable pub build_extract : Expr → (offset length : ℕ) → (little_endian : Bool) → Run B Expr
  build_extract e offset length little = do
    let total = bits e
    require (total % 8 == 0)
    if little
        then (do
          first ← build B (
              B.extract_helper e (sub_size (sub_size total (mul_size offset 8)) 1)
                (sub_size (sub_size total (mul_size offset 8)) 8))
          extract_loop (length - 1) e offset 1 first)
        else build B (
            B.extract_helper e (sub_size (sub_size total (mul_size offset 8)) 1)
              (sub_size total (mul_size (add_size offset length) 8)))

  unfoldable pub build_bswap : Expr → Run B Expr
  build_bswap e = do require (bits e % 16 == 0); build_extract e 0 (bits e / 8) true

  -- `a` above `b`, where either may be null.
  abbrev join : Sym B → Expr → Run B Expr
  join none piece = pure piece
  join (some a) piece = build B (B.concat_helper a piece)

  abbrev join_after : Expr → Sym B → Run B Expr
  join_after a none = pure a
  join_after a (some b) = build B (B.concat_helper a b)

  abbrev some_of : Run B Expr → Run B (Sym B)
  some_of run = do e ← run; pure (some e)

  unfoldable pub build_insert :
      (target to_insert : Expr) → (offset : ℕ) → (little_endian : Bool) → Run B Expr
  build_insert target to_insert offset little = do
    let inserted = bits to_insert
    require (inserted % 8 == 0)
    before ← if offset == 0 then pure none else some_of (build_extract target 0 offset false)
    piece ← if little then build_bswap to_insert else pure to_insert
    let after_len = sub_size (sub_size (bits target / 8) offset) (inserted / 8)
    after ←
        if after_len == 0
        then pure none
        else some_of (build_extract target (add_size offset (inserted / 8)) after_len false)
    result ← join before piece
    join_after result after
