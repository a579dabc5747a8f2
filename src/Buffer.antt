-- ===== src/Buffer.antt =====
-- fs/buffer.c: the buffer cache, with the requests that it makes of the block devices.
pub mod Steps
pub mod Queues
pub mod Requests
pub mod Blocks
pub mod Invariant
pub mod Claim
pub mod Keeps
pub mod Getblk
pub mod Ready
pub mod Awake
mod Tests
use linux.Common.{
  ℕ, ◌+◌, ◌*◌, ◌/◌, ◌%◌, ◌^◌, Bool, Option, none, some, List, [], ◌∷◌, ◌++◌, update, ◌==◌, ◌&&◌,
  if◌then◌else◌, bit_xor,
}
use linux.Blk.{Request}

-- `struct buffer_head`, without the address of its data and without the links.
pub record Head : Type 0 where
  pub b_blocknr : ℕ
  pub b_dev : ℕ
  pub b_uptodate : Bool
  pub b_dirt : Bool
  pub b_count : ℕ
  pub b_lock : Bool

-- The cache, its buffers numbered from `start_buffer` on. `content` is the data of each buffer by
-- 32-bit words. `free_list` is the circular list from `free_list` on, and `hash_table` has each hash
-- queue in the order of `b_next`. `request` is the table of requests, and `queue` the queue of each
-- device by its major number.
pub record Cache : Type 0 where
  pub head : ℕ → Head
  pub content : ℕ → ℕ → ℕ
  pub free_list : List ℕ
  pub hash_table : ℕ → List ℕ
  pub request : List Request
  pub queue : ℕ → List Request

abbrev pub nr_hash : ℕ
nr_hash = 307

-- `_hashfn(dev,block)`
unfoldable pub hashfn : ℕ → ℕ → ℕ
hashfn dev block = bit_xor dev block % nr_hash

abbrev pub set_head : ℕ → Head → Cache → Cache
set_head bh h c = record c { head = update c.head bh h }

abbrev pub set_content : ℕ → (ℕ → ℕ) → Cache → Cache
set_content bh words c = record c { content = update c.content bh words }

-- A list without its entries equal to `bh`: a buffer stands in a queue once at most.
abbrev pub remove : ℕ → List ℕ → List ℕ
remove bh [] = []
remove bh (b ∷ bs) = if b == bh then remove bh bs else b ∷ remove bh bs
