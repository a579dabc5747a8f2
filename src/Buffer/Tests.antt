-- ===== src/Buffer/Tests.antt =====
-- The cache at concrete blocks.
use mathlib.Core.Path.{subst}
use linux.Common.{
  inl, inr, ℕ, Bool, true, false, none, [], ◌∷◌, update, ◌≡◌, ◌≢◌, refl, sym, ap, ◌∙◌, arith,
}
use linux.Buffer.{Head, Cache, hashfn, set_head}
use linux.Buffer.Steps.{Result, Step, return}
use linux.Buffer.Queues.{find_in, find_buffer, is_block, claim, count_up}
use linux.Buffer.Blocks.{getblk}
use linux.Buffer.Invariant.{IsConsistent, member, queue_of}
use linux.Buffer.Keeps.{EachConsistent, Ensures, Keeps, Any, return-Keeps}
use linux.Buffer.Getblk.{Held, getblk-Held}
use linux.Buffer.Ready.{NoneReady}
use linux.Buffer.Awake.{getblk-claim, getblk-cached}

abbrev empty : Head
empty = record {
  b_blocknr = 0;
  b_dev = 0;
  b_uptodate = false;
  b_dirt = false;
  b_count = 0;
  b_lock = false;
}

-- Three buffers; the first holds block 5 of device 0x301 and is in use.
abbrev cache : Cache
cache = record {
  head =
      update (λ i. empty) 0
        (record {
          b_blocknr = 5;
          b_dev = 769;
          b_uptodate = true;
          b_dirt = false;
          b_count = 1;
          b_lock = false;
        });
  content = λ i w. 0;
  free_list = 0 ∷ 1 ∷ 2 ∷ [];
  hash_table = update (λ h. []) 158 (0 ∷ []);
  request = [];
  queue = λ m. [];
}

no_inodes : Step (Unit {0})
no_inodes = return tt

no_drivers : ℕ → Bool
no_drivers m = false

cache_hash : hashfn 769 5 ≡ 158
unfolding hashfn
cache_hash = refl

first : (i : ℕ) → (cache.head i).b_dev ≢ 0 → i ≡ 0
first i d = ground arith

in_queue : (h i : ℕ) → member i (cache.hash_table h) ≡ true → (h ≡ 158) × (i ≡ 0)
in_queue h i m = ground arith

cache-IsConsistent : IsConsistent 3 cache
cache-IsConsistent = record {
  free = λ i m. ground arith;
  queued = λ i l d.
      subst (λ k. member k (queue_of cache k) ≡ true) (sym (first i d))
        (ap (λ h. member 0 (cache.hash_table h)) cache_hash);
  in_range = λ h i m. omega (arith, (in_queue h i m).1);
  has_device = λ h i m.
      subst (λ k. (cache.head k).b_dev ≢ 0) (sym (in_queue h i m).1) (λ e. omega (arith, e));
  in_place = λ h i m.
      ap (λ k. hashfn (cache.head k).b_dev (cache.head k).b_blocknr) (in_queue h i m).1
      ∙ cache_hash
      ∙ sym (in_queue h i m).0;
  unique = λ i j l k d e f. first i d ∙ sym (first j (λ z. d (e ∙ z)));
}

no_states : EachConsistent 3 []
unfolding EachConsistent
no_states = tt

no_inodes-Keeps : Keeps 3 Any no_inodes
unfolding no_inodes
no_inodes-Keeps = return-Keeps 3 tt

getblk-Held_example : Ensures 3 (Held 769 6) (getblk no_drivers 3 no_inodes 2 769 6 [] cache)
getblk-Held_example =
    getblk-Held no_drivers 3 no_inodes 2 769 6 [] cache no_inodes-Keeps (λ e. omega arith)
      cache-IsConsistent no_states

-- The same with a second buffer that is dirty.
abbrev dirty_cache : Cache
dirty_cache = set_head 1 (record empty { b_dirt = true }) cache

not_cached : find_buffer 769 6 dirty_cache ≡ none
unfolding find_buffer find_in is_block hashfn
not_cached = refl

first-NoneReady : NoneReady dirty_cache.head (0 ∷ 1 ∷ [])
unfolding NoneReady
first-NoneReady = (inl (λ e. omega (arith, e)), (inr (inl refl), tt))

getblk-claim_example :
    getblk no_drivers 3 no_inodes 2 769 6 [] dirty_cache
    ≡ Result.done 2 [] (claim 769 6 2 dirty_cache)
getblk-claim_example =
    getblk-claim no_drivers 3 no_inodes 2 769 6 [] dirty_cache (0 ∷ 1 ∷ []) [] 2 (omega arith)
      not_cached refl first-NoneReady refl refl refl

getblk-cached_example :
    getblk no_drivers 3 no_inodes 1 769 5 [] cache ≡ Result.done 0 [] (count_up 0 cache)
getblk-cached_example =
    getblk-cached no_drivers 3 no_inodes 1 769 5 [] cache 0 (omega arith) (λ e. omega (arith, e))
      cache-IsConsistent (omega arith) refl refl refl
