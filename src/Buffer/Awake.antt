-- ===== src/Buffer/Awake.antt =====
-- fs/buffer.c: `getblk` where it need not sleep.
use linux.Common.{
  ℕ, zero, suc, ◌≤◌, Bool, true, false, none, some, List, [], ◌∷◌, ◌++◌, ◌!=◌, ◌≡◌, ◌≢◌, refl, ap,
  ap₂, sym, ◌<◌, inl, inr, Option-cases, ◌∙◌, arith,
}
use linux.Buffer.{Head, Cache, hashfn}
use linux.Buffer.Steps.{Result, Step}
use linux.Buffer.Queues.{
  find_in, wait_on_buffer, is_block, find_buffer, get_hash_table, count_up, choose, claim,
}
use linux.Buffer.Blocks.{clean, settle, getblk}
use linux.Buffer.Invariant.{member, IsConsistent, find_in-none, find_in-some}
use linux.Buffer.Claim.{is_block-eq}
use linux.Buffer.Ready.{NoneReady, none-Weak, choose-first}

pub wait_on_buffer-unlocked :
    (bh : ℕ) (ws : List Cache) (c : Cache)
    → (c.head bh).b_lock ≡ false
    → wait_on_buffer bh ws c ≡ Result.done tt ws c
unfolding wait_on_buffer
wait_on_buffer-unlocked bh [] c h = rw h refl
wait_on_buffer-unlocked bh (w ∷ ws) c h = rw h refl

get_hash_table-none :
    (fuel dev block : ℕ) (ws : List Cache) (c : Cache)
    → find_buffer dev block c ≡ none
    → get_hash_table (suc fuel) dev block ws c ≡ Result.done none ws c
unfolding get_hash_table
get_hash_table-none fuel dev block ws c f = rw f refl

found_holds :
    (dev block : ℕ) (c : Cache) (bh : ℕ)
    → find_buffer dev block c ≡ some bh
    → is_block dev block (c.head bh) ≡ true
unfolding find_buffer
found_holds dev block c bh f =
    (find_in-some c.head dev block (c.hash_table (hashfn dev block)) bh f).1

count_up-is_block :
    (dev block bh : ℕ) (c : Cache)
    → is_block dev block ((count_up bh c).head bh) ≡ is_block dev block (c.head bh)
unfolding is_block
count_up-is_block dev block bh c = ground arith

get_hash_table-some :
    (fuel dev block : ℕ) (ws : List Cache) (c : Cache) (bh : ℕ)
    → find_buffer dev block c ≡ some bh
    → (c.head bh).b_lock ≡ false
    → get_hash_table (suc fuel) dev block ws c ≡ Result.done (some bh) ws (count_up bh c)
unfolding get_hash_table
get_hash_table-some fuel dev block ws c bh f l =
    let unlocked : ((count_up bh c).head bh).b_lock ≡ false = ground arith in
    let holds : is_block dev block ((count_up bh c).head bh) ≡ true =
      count_up-is_block dev block bh c ∙ found_holds dev block c bh f in
    rw (f, wait_on_buffer-unlocked bh ws (count_up bh c) unlocked, holds) refl

clean-clean :
    (request_fn : ℕ → Bool) (n : ℕ) (sync_inodes : Step (Unit {0})) (fuel bh : ℕ) (ws : List Cache)
    (c : Cache)
    → (c.head bh).b_dirt ≡ false
    → clean request_fn n sync_inodes (suc fuel) bh ws c ≡ Result.done true ws c
unfolding clean
clean-clean request_fn n sync_inodes fuel bh ws c d = rw d refl

settle-ready :
    (request_fn : ℕ → Bool) (n : ℕ) (sync_inodes : Step (Unit {0})) (fuel dev block bh : ℕ)
    (ws : List Cache) (c : Cache)
    → find_buffer dev block c ≡ none
    → (c.head bh).b_count ≡ 0
    → (c.head bh).b_dirt ≡ false
    → (c.head bh).b_lock ≡ false
    → settle request_fn n sync_inodes (suc fuel) dev block bh ws c ≡ Result.done true ws c
unfolding settle
settle-ready request_fn n sync_inodes fuel dev block bh ws c f u d l =
    let unused : ((c.head bh).b_count != 0) ≡ false = ground arith in
    rw
      (
        wait_on_buffer-unlocked bh ws c l,
        unused,
        clean-clean request_fn n sync_inodes fuel bh ws c d,
        f,
      )
      refl

-- Where no buffer holds the block, getblk takes the first buffer of the free list that is unused,
-- clean and unlocked, whatever stands before it, without sleeping, and makes it the block's.
pub getblk-claim :
    (request_fn : ℕ → Bool) (n : ℕ) (sync_inodes : Step (Unit {0})) (fuel dev block : ℕ)
    (ws : List Cache) (c : Cache) (before rest : List ℕ) (bh : ℕ)
    → 2 ≤ fuel
    → find_buffer dev block c ≡ none
    → c.free_list ≡ before ++ bh ∷ rest
    → NoneReady c.head before
    → (c.head bh).b_count ≡ 0
    → (c.head bh).b_dirt ≡ false
    → (c.head bh).b_lock ≡ false
    → getblk request_fn n sync_inodes fuel dev block ws c ≡ Result.done bh ws (claim dev block bh c)
unfolding getblk
getblk-claim request_fn n sync_inodes zero dev block ws c before rest bh k f e u z d l =
    absurd (omega arith)
getblk-claim request_fn n sync_inodes (suc zero) dev block ws c before rest bh k f e u z d l =
    absurd (omega arith)
getblk-claim request_fn n sync_inodes (suc (suc fuel)) dev block ws c before rest bh k f e u z d l =
    let first : choose c.head none c.free_list ≡ some bh =
      ap (choose c.head none) e
      ∙ choose-first c.head none before bh rest (none-Weak c.head) u z d l in
    rw
      (
        get_hash_table-none (suc fuel) dev block ws c f,
        first,
        settle-ready request_fn n sync_inodes fuel dev block bh ws c f z d l,
      )
      refl

pub getblk-found :
    (request_fn : ℕ → Bool) (n : ℕ) (sync_inodes : Step (Unit {0})) (fuel dev block : ℕ)
    (ws : List Cache) (c : Cache) (bh : ℕ)
    → 1 ≤ fuel
    → find_buffer dev block c ≡ some bh
    → (c.head bh).b_lock ≡ false
    → getblk request_fn n sync_inodes fuel dev block ws c ≡ Result.done bh ws (count_up bh c)
unfolding getblk
getblk-found request_fn n sync_inodes zero dev block ws c bh k f l = absurd (omega arith)
getblk-found request_fn n sync_inodes (suc fuel) dev block ws c bh k f l =
    rw (get_hash_table-some fuel dev block ws c bh f l) refl

is_block-fields :
    (dev block : ℕ) (h : Head)
    → is_block dev block h ≡ true
    → (h.b_dev ≡ dev) × (h.b_blocknr ≡ block)
unfolding is_block
is_block-fields dev block h e = ground arith

-- The search finds the buffer that holds a block.
find_buffer-holds :
    (n dev block bh : ℕ) (c : Cache)
    → dev ≢ 0
    → IsConsistent n c
    → bh < n
    → (c.head bh).b_dev ≡ dev
    → (c.head bh).b_blocknr ≡ block
    → find_buffer dev block c ≡ some bh
unfolding find_buffer
find_buffer-holds n dev block bh c some_dev v l d b =
    let q = c.hash_table (hashfn dev block) in
    let there : member bh q ≡ true =
      ap (λ k. member bh (c.hash_table k)) (sym (ap₂ hashfn d b))
      ∙ v.queued bh l (λ z. some_dev (sym d ∙ z)) in
    elim (Option-cases (find_in c.head dev block q)) [
      | inl e ↦
          let no = find_in-none c.head dev block q bh e there in
          absurd (ground (arith, is_block-eq dev block (c.head bh) d b))
      | inr (i, e) ↦
          let found = find_in-some c.head dev block q i e in
          let held = is_block-fields dev block (c.head i) found.1 in
          let same =
            v.unique i bh (v.in_range (hashfn dev block) i found.0) l
              (λ z. some_dev (sym held.0 ∙ z)) (held.0 ∙ sym d) (held.1 ∙ sym b) in
          e ∙ ap some same
    ]

-- Where the cache is consistent and an unlocked buffer holds the block of a device, getblk gives
-- that buffer, with one more user, and changes nothing else.
pub getblk-cached :
    (request_fn : ℕ → Bool) (n : ℕ) (sync_inodes : Step (Unit {0})) (fuel dev block : ℕ)
    (ws : List Cache) (c : Cache) (bh : ℕ)
    → 1 ≤ fuel
    → dev ≢ 0
    → IsConsistent n c
    → bh < n
    → (c.head bh).b_dev ≡ dev
    → (c.head bh).b_blocknr ≡ block
    → (c.head bh).b_lock ≡ false
    → getblk request_fn n sync_inodes fuel dev block ws c ≡ Result.done bh ws (count_up bh c)
getblk-cached request_fn n sync_inodes fuel dev block ws c bh k z v m d b l =
    getblk-found request_fn n sync_inodes fuel dev block ws c bh k
      (find_buffer-holds n dev block bh c z v m d b) l
