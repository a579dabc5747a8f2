-- ===== src/Bitmap.antt =====
-- fs/bitmap.c: the bitmaps of blocks and of inodes.
pub mod Blocks
pub mod Bits
pub mod Search
pub mod Marks
mod Tests
use linux.Common.{
  ℕ, zero, suc, ◌+◌, ◌-◌, ◌*◌, ◌/◌, ◌%◌, ◌^◌, Bool, Option, none, some, List, [], ◌∷◌, update, ◌==◌,
  ◌!=◌, ltb, if◌then◌else◌,
}
use linux.Common.Bits.{bit}

-- A block of 1024 bytes as 256 long words.
abbrev pub Words : Type 0
Words = ℕ → ℕ

-- Bit `nr` from the address on.
abbrev pub bit_at : ℕ → Words → ℕ
bit_at nr addr = bit (nr % 32) (addr (nr / 32))

-- `set_bit(nr,addr)` and `clear_bit(nr,addr)`: the old bit, or its opposite, and the words.
unfoldable pub set_bit : ℕ → Words → ℕ × Words
set_bit nr addr =
    let w = addr (nr / 32) in
    let old = bit_at nr addr in
    (old, update addr (nr / 32) (if old == 0 then w + 2 ^ (nr % 32) else w))

unfoldable pub clear_bit : ℕ → Words → ℕ × Words
clear_bit nr addr =
    let w = addr (nr / 32) in
    let old = bit_at nr addr in
    (1 - old, update addr (nr / 32) (if old == 0 then w else w - 2 ^ (nr % 32)))

-- `notl` and `bsfl`: the lowest zero bit of a word, from bit `k` on with the rounds left.
unfoldable pub zero_bit : ℕ → ℕ → ℕ → Option ℕ
zero_bit zero k w = none
zero_bit (suc n) k w = let rest = zero_bit n (suc k) w in if bit k w == 0 then some k else rest

-- The loop over the words from number `i` on.
unfoldable pub scan_words : ℕ → ℕ → Words → ℕ
scan_words zero i addr = i * 32
scan_words (suc n) i addr =
    let rest = scan_words n (suc i) addr in
    elim (zero_bit 32 0 (addr i)) [ some k ↦ i * 32 + k | none ↦ rest ]

unfoldable pub find_first_zero : Words → ℕ
find_first_zero addr = scan_words 256 0 addr

-- The fields of `struct super_block` that the bitmaps use; a map is the number of its buffer.
pub record SuperBlock : Type 0 where
  pub s_dev : ℕ
  pub s_ninodes : ℕ
  pub s_nzones : ℕ
  pub s_firstdatazone : ℕ
  pub s_imap : ℕ → Option ℕ
  pub s_zmap : ℕ → Option ℕ

-- The loop over the maps from number `i` on: the first with a zero bit, its buffer, and the bit.
unfoldable pub find_map : (ℕ → Option ℕ) → (ℕ → Words) → ℕ → ℕ → Option (ℕ × ℕ × ℕ)
find_map maps content zero i = none
find_map maps content (suc n) i =
    let rest = find_map maps content n (suc i) in
    elim (maps i) [
      | none ↦ rest
      | some bh ↦
          let j = find_first_zero (content bh) in if ltb j 8192 then some (i, bh, j) else rest
    ]
