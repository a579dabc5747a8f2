-- ===== src/Bitmap/Tests.antt =====
-- The maps of a small device.
use linux.Common.{
  ℕ, ◌+◌, ◌-◌, ◌^◌, ◌≤◌, ◌<◌, false, true, none, some, [], ◌≡◌, refl, arith, update, ◌⊎◌,
}
use linux.Common.Bits.{bit}
use linux.Buffer.{Cache}
use linux.Bitmap.{bit_at, SuperBlock, zero_bit, scan_words, find_first_zero}
use linux.Bitmap.Search.{find_first_zero_lem}
use linux.Bitmap.Blocks.{mark_block, unmark_block}
use linux.Bitmap.Marks.{IsFree, unmark_block-mark_block}

-- One map in buffer 0, with its first 35 bits taken; block 20 is the first of the data.
abbrev super : SuperBlock
super = record {
  s_dev = 769;
  s_ninodes = 10;
  s_nzones = 100;
  s_firstdatazone = 20;
  s_imap = λ i. none;
  s_zmap = update (λ i. none) 0 (some 0);
}

abbrev cache : Cache
cache = record {
  head = λ i. record {
    b_blocknr = 2;
    b_dev = 769;
    b_uptodate = true;
    b_dirt = false;
    b_count = 1;
    b_lock = false;
  };
  content = λ i. update (update (λ w. 0) 0 (2 ^ 32 - 1)) 1 7;
  free_list = [];
  hash_table = λ h. [];
  request = [];
  queue = λ m. [];
}

first_zero : find_first_zero (cache.content 0) ≡ 35
unfolding find_first_zero scan_words zero_bit bit
first_zero = refl

find_first_zero_lem_example :
    ((find_first_zero (cache.content 0) ≡ 8192)
      × ((nr : ℕ) → nr < 8192 → bit_at nr (cache.content 0) ≡ 1))
    ⊎ ((find_first_zero (cache.content 0) < 8192)
        × (bit_at (find_first_zero (cache.content 0)) (cache.content 0) ≡ 0)
        × ((nr : ℕ) → nr < find_first_zero (cache.content 0) → bit_at nr (cache.content 0) ≡ 1))
find_first_zero_lem_example = find_first_zero_lem (cache.content 0)

unmark_block-mark_block_example :
    ((mark_block super cache ≡ none)
      × ((k b nr : ℕ)
          → k < 8
          → super.s_zmap k ≡ some b
          → nr < 8192
          → bit_at nr (cache.content b) ≡ 1))
    ⊎ ((z : ℕ) × (c' : Cache) × (c'' : Cache) × (mark_block super cache ≡ some (z, c'))
        × IsFree super cache z
        × (IsFree super c' z → ⊥)
        × (super.s_firstdatazone ≤ z + 1)
        × (unmark_block super z c' ≡ some c'')
        × (c''.content ≡ cache.content)
        × ((y : ℕ) → super.s_firstdatazone ≤ y + 1 → y < z → IsFree super cache y → ⊥))
unmark_block-mark_block_example = unmark_block-mark_block super cache (omega arith)
