-- ===== src/Inode/Tests.antt =====
-- A file whose first table is in the cache.
use linux.Common.{
  ℕ, ◌+◌, true, false, some, [], ◌∷◌, update, ◌==◌, if◌then◌else◌, ◌≡◌, refl, sym, arith, inl, inr,
}
use linux.Common.Int.{pos}
use linux.Buffer.{Cache, hashfn}
use linux.Buffer.Steps.{Result, Step, return}
use linux.Buffer.Queues.{find_in, find_buffer, is_block}
use linux.Inode.{Inode, no_inode}
use linux.Inode.Zones.{get_short, put_short, bmap}
use linux.Inode.Mapping.{IsLoaded, Entry, Names, get_short-put_short, bmap-Names}

-- Buffer 1 holds block 40, a table whose entry 3 is 77.
abbrev table : ℕ → ℕ
table = put_short 3 77 (λ w. 0)

abbrev cache : Cache
cache = record {
  head = λ i. record {
    b_blocknr = 40;
    b_dev = 769;
    b_uptodate = true;
    b_dirt = false;
    b_count = 0;
    b_lock = false;
  };
  content = λ i. table;
  free_list = 1 ∷ [];
  hash_table = update (λ h. []) 195 (1 ∷ []);
  request = [];
  queue = λ m. [];
}

abbrev file : Inode
file = record no_inode { i_dev = 769; i_zone = update (λ n. 30 + n) 7 40 }

found : find_buffer 769 40 cache ≡ some 1
unfolding find_buffer find_in is_block hashfn
found = refl

entry : get_short 3 (cache.content 1) ≡ 77
unfolding get_short put_short
entry = refl

table-IsLoaded : IsLoaded 769 40 1 cache
table-IsLoaded = record { found = found; unlocked = refl; uptodate = refl; few = omega arith }

file-Names : Names file cache 10 77
unfolding Names Entry
file-Names =
    inr
      (inl (omega arith, omega arith, inr (1, (λ e. omega (arith, e)), table-IsLoaded, sym entry)))

no_inodes : Step (Unit {0})
no_inodes = return tt

bmap-Names_example :
    bmap [] (λ m. false) 3 no_inodes 1 file (pos 10) [] cache ≡ Result.done (file, 77) [] cache
bmap-Names_example =
    bmap-Names [] (λ m. false) 3 no_inodes 1 file 10 77 [] cache (omega arith) file-Names

get_short-put_short_example :
    get_short 2 (put_short 3 77 (λ w. 0)) ≡ (if 2 == 3 then 77 else get_short 2 (λ w. 0))
get_short-put_short_example = get_short-put_short 3 77 2 (λ w. 0) (omega arith)
