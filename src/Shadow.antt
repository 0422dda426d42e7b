-- ===== src/Shadow.antt =====
-- runtime/Shadow.h and runtime/Shadow.cpp: shadow memory in pages. A cell of the shadow holds the
-- expression of a byte, or `none` for the null pointer. `E` is the type of expressions, and `bits`
-- the width that the backend reports for one.
pub mod Addresses
pub mod Concrete
pub mod Copy
pub mod Fill
pub mod Reading
pub mod View
pub mod Writing
use Prim.Native.Nat.{bit_and}
use symcc.Common.{
  ℕ, zero, suc, ◌+◌, ◌-◌, ◌%◌, ◌^◌, Bool, true, false, not, ◌&&◌, Option, none, some, List, ◌==◌,
  if◌then◌else◌, is_some, ◌>>=◌, ◌>>◌, check,
}
use symcc.Common.Assoc.{lookup, insert}

-- `uintptr_t` has 64 bits.
abbrev pub word_mod : ℕ
word_mod = 2 ^ 64

abbrev pub page_size : ℕ
page_size = 4096

-- `addr & ~(kPageSize - 1)`: the complement of a number below 2^64 is 2^64 - 1 less the number.
unfoldable pub page_start : ℕ → ℕ
page_start addr = bit_and addr (word_mod - 1 - (page_size - 1))

unfoldable pub page_offset : ℕ → ℕ
page_offset addr = bit_and addr (page_size - 1)

-- `address_++` and `address_--` on `uintptr_t`.
abbrev pub next_address : ℕ → ℕ
next_address a = (a + 1) % word_mod

abbrev pub previous_address : ℕ → ℕ
previous_address a = (a + (word_mod - 1)) % word_mod

-- The block of `kPageSize` expressions that shadows a page: its cell at each offset.
abbrev pub Region : Type 0 → Type 0
Region E = ℕ → Option E

-- `g_shadow_pages`.
abbrev pub Pages : Type 0 → Type 0
Pages E = List (ℕ × Region E)

-- A `SymExpr *` into the shadow: the page whose block it points into, and the place there.
pub record Cell : Type 0 where
  pub page : ℕ
  pub offset : ℕ

pub record ReadShadowIterator : Type 0 where
  pub address : ℕ
  pub shadow : Option Cell

pub record WriteShadowIterator : Type 0 where
  pub address : ℕ
  pub shadow : Cell

abbrev pub cell_of : ℕ → Cell
cell_of a = record { page = page_start a; offset = page_offset a }

abbrev pub next_cell : Cell → Cell
next_cell c = record c { offset = c.offset + 1 }

abbrev pub previous_cell : Cell → Cell
previous_cell c = record c { offset = c.offset - 1 }

abbrev pub move : (Cell → Cell) → Option Cell → Option Cell
move f none = none
move f (some c) = some (f c)

module _ {E : Type 0} where
  -- `memset(newShadow, 0, ...)`.
  abbrev pub zeros : Region E
  zeros _ = none

  abbrev pub update : Region E → ℕ → Option E → Region E
  update r o v j = if o == j then v else r j

  -- What a pointer into the shadow reads, and the write through it.
  unfoldable pub load_cell : Pages E → Cell → Option E
  load_cell g c = elim (lookup c.page g) [ none ↦ none | some r ↦ r c.offset ]

  unfoldable pub store_cell : Pages E → Cell → Option E → Pages E
  store_cell g c v = elim (lookup c.page g) [
    | none ↦ g
    | some r ↦ insert c.page (update r c.offset v) g
  ]

  -- `ReadShadowIterator::getShadow`.
  unfoldable pub get_shadow : Pages E → ℕ → Option Cell
  get_shadow g a = if is_some (lookup (page_start a) g) then some (cell_of a) else none

  -- `WriteShadowIterator::getOrCreateShadow`.
  unfoldable pub get_or_create_shadow : Pages E → ℕ → Cell × Pages E
  get_or_create_shadow g a = elim (get_shadow g a) [
    | some c ↦ (c, g)
    | none ↦ (cell_of a, insert (page_start a) zeros g)
  ]

  abbrev pub read_iterator : Pages E → ℕ → ReadShadowIterator
  read_iterator g a = record { address = a; shadow = get_shadow g a }

  -- `ReadShadowIterator::operator++` and `operator--`.
  unfoldable pub next_read : Pages E → ReadShadowIterator → ReadShadowIterator
  next_read g it =
      let a = next_address it.address in
      if page_start a == page_start it.address
      then record { address = a; shadow = move next_cell it.shadow }
      else record { address = a; shadow = get_shadow g a }

  unfoldable pub previous_read : Pages E → ReadShadowIterator → ReadShadowIterator
  previous_read g it =
      let a = previous_address it.address in
      if page_start a == page_start it.address
      then record { address = a; shadow = move previous_cell it.shadow }
      else record { address = a; shadow = get_shadow g a }

  abbrev pub write_iterator : Pages E → ℕ → WriteShadowIterator × Pages E
  write_iterator g a =
      let (c, g') = get_or_create_shadow g a in (record { address = a; shadow = c }, g')

  -- `WriteShadowIterator::operator++` and `operator--`.
  unfoldable pub next_write : Pages E → WriteShadowIterator → WriteShadowIterator × Pages E
  next_write g it =
      let a = next_address it.address in
      if page_start a == page_start it.address
      then (record { address = a; shadow = next_cell it.shadow }, g)
      else write_iterator g a

  unfoldable pub previous_write : Pages E → WriteShadowIterator → WriteShadowIterator × Pages E
  previous_write g it =
      let a = previous_address it.address in
      if page_start a == page_start it.address
      then (record { address = a; shadow = previous_cell it.shadow }, g)
      else write_iterator g a

  -- `std::fill(shadow.begin(), shadow.end(), value)`: the loop over the rounds left, and the call.
  -- `end()` is a write iterator too, so it makes a shadow for the page behind the last byte.
  unfoldable pub fill_loop : ℕ → Pages E → WriteShadowIterator → Option E → Pages E
  fill_loop zero g it v = g
  fill_loop (suc n) g it v =
      let (it', g') = next_write (store_cell g it.shadow v) it in fill_loop n g' it' v

  unfoldable pub fill : Pages E → ℕ → ℕ → Option E → Pages E
  fill g a n v =
      let (it, g1) = write_iterator g a in
      let (_, g2) = write_iterator g1 ((a + n) % word_mod) in fill_loop n g2 it v

module _ {E : Type 0} (bits : E → ℕ) where
  abbrev pub is_byte : Option E → Bool
  is_byte none = true
  is_byte (some e) = bits e == 8

  -- `ReadShadowIterator::operator*`, `none` where its assertion fails.
  unfoldable pub read_cell : Pages E → ReadShadowIterator → Option (Option E)
  read_cell g it = do
    let v : Option E = elim it.shadow [ none ↦ none | some c ↦ load_cell g c ]
    check (is_byte v)
    some v

  -- The `std::all_of` of `isConcrete`, over the rounds left.
  unfoldable pub all_null : ℕ → Pages E → ReadShadowIterator → Option Bool
  all_null zero g it = some true
  all_null (suc n) g it = do
    v ← read_cell g it
    elim v [ none ↦ all_null n g (next_read g it) | some _ ↦ some false ]

  unfoldable pub is_concrete : Pages E → ℕ → ℕ → Option Bool
  is_concrete g a n =
      if (page_start a == page_start ((a + n) % word_mod))
        && not (is_some (lookup (page_start a) g))
      then some true
      else all_null n g (read_iterator g a)

  -- `std::copy(src.begin(), src.end(), dest.begin())`.
  unfoldable pub copy_loop :
      ℕ → Pages E → ReadShadowIterator → WriteShadowIterator → Option (Pages E)
  copy_loop zero g src dst = some g
  copy_loop (suc n) g src dst = do
    v ← read_cell g src
    let (dst', g') = next_write (store_cell g dst.shadow v) dst
    copy_loop n g' (next_read g' src) dst'

  unfoldable pub copy : Pages E → (src dst n : ℕ) → Option (Pages E)
  copy g src dst n = let (it, g') = write_iterator g dst in copy_loop n g' (read_iterator g src) it

  -- `std::copy_backward(src.begin(), src.end(), dest.end())`.
  unfoldable pub copy_backward_loop :
      ℕ → Pages E → ReadShadowIterator → WriteShadowIterator → Option (Pages E)
  copy_backward_loop zero g src dst = some g
  copy_backward_loop (suc n) g src dst = do
    let src' = previous_read g src
    v ← read_cell g src'
    let (dst', g') = previous_write g dst
    copy_backward_loop n (store_cell g' dst'.shadow v) src' dst'

  unfoldable pub copy_backward : Pages E → (src dst n : ℕ) → Option (Pages E)
  copy_backward g src dst n =
      let (it, g') = write_iterator g ((dst + n) % word_mod) in
      copy_backward_loop n g' (read_iterator g ((src + n) % word_mod)) it
