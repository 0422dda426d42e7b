-- ===== src/Shadow/Addresses.antt =====
-- Arithmetic of `pageStart` and `pageOffset`: an address is its page's start and its offset.
use symcc.Common.{ℕ, suc, ◌+◌, ◌-◌, ◌%◌, ◌≤◌, ◌<◌, ◌≡◌, arith}
use symcc.Common.Bits.{bit_and_low, bit_and_high}
use symcc.Shadow.{word_mod, page_size, page_start, page_offset, cell_of, next_cell, previous_cell}

pub page_offset-mod : (a : ℕ) → page_offset a ≡ a % 4096
unfolding page_offset
page_offset-mod a = bit_and_low 12 a

pub page_start-sub : (a : ℕ) → a < word_mod → page_start a ≡ a - a % 4096
unfolding page_start
page_start-sub a h = bit_and_high 64 12 a (omega arith) h

-- The two parts of an address make it up, the start is a multiple of the page size, and the offset
-- lies in the page.
pub page_split :
    (a : ℕ)
    → a < word_mod
    → (page_start a + page_offset a ≡ a)
      × (page_start a % page_size ≡ 0)
      × (page_offset a < page_size)
page_split a h = omega (arith, page_offset-mod a, page_start-sub a h)

-- The next address of the same page has the next offset.
pub page_offset-next :
    (a b : ℕ)
    → a < word_mod
    → b < word_mod
    → b ≡ a + 1
    → page_start b ≡ page_start a
    → page_offset b ≡ page_offset a + 1
page_offset-next a b ha hb e p =
    omega (arith, page_offset-mod a, page_offset-mod b, page_start-sub a ha, page_start-sub b hb)

-- What lies between two addresses of a page is on that page.
pub page_start-between :
    (a b c : ℕ)
    → c < word_mod
    → a ≤ b
    → b ≤ c
    → page_start a ≡ page_start c
    → page_start b ≡ page_start a
page_start-between a b c hc p q e =
    omega
      (arith, page_start-sub a (omega arith), page_start-sub b (omega arith), page_start-sub c hc)

-- Page and offset determine the address.
pub page_injective :
    (a b : ℕ)
    → a < word_mod
    → b < word_mod
    → page_start a ≡ page_start b
    → page_offset a ≡ page_offset b
    → a ≡ b
page_injective a b ha hb p q = omega (arith, page_split a ha, page_split b hb)

-- The next cell of a page, and the one before.
pub cell_of-next :
    (x : ℕ)
    → suc x < word_mod
    → page_start (suc x) ≡ page_start x
    → next_cell (cell_of x) ≡ cell_of (suc x)
cell_of-next x h p =
    ground (arith, page_offset-next x (suc x) (omega arith) (omega arith) (omega arith))

pub cell_of-previous :
    (x : ℕ)
    → suc x < word_mod
    → page_start x ≡ page_start (suc x)
    → previous_cell (cell_of (suc x)) ≡ cell_of x
cell_of-previous x h p =
    ground (arith, page_offset-next x (suc x) (omega arith) (omega arith) (omega arith))
