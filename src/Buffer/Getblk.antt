-- ===== src/Buffer/Getblk.antt =====
-- fs/buffer.c: what `getblk` gives, and that it keeps the cache consistent.
use linux.Common.{
  ℕ, zero, suc, ◌+◌, ◌<◌, Bool, true, false, ◌&&◌, Option, none, some, List, [], ◌∷◌, ◌==◌, ◌!=◌,
  if◌then◌else◌, ◌≡◌, ◌≢◌, refl, arith, Bool-cases, Option-cases, ◌⊎◌, inl, inr, ◌%◌, ◌^◌,
}
use linux.Blk.{write}
use linux.Buffer.{Head, Cache}
use linux.Buffer.Steps.{Result, Step, return, ◌>>◌, modify, sleep_on, on_null}
use linux.Buffer.Queues.{
  wait_on_buffer, is_block, find_buffer, get_hash_table, count_up, count_down, choose, claim,
  remove_from_queues, insert_into_queues,
}
use linux.Buffer.Requests.{ll_rw_block}
use linux.Buffer.Blocks.{sync_from, sync_dev, clean, settle, getblk}
use linux.Buffer.Invariant.{member, IsConsistent, SameBlocks-IsConsistent}
use linux.Buffer.Claim.{claim-IsConsistent}
use linux.Buffer.Keeps.{
  EachConsistent, Ensures, Keeps, Any, and_then-Ensures, wait_on_buffer-Keeps, sleep_on-Keeps,
  set_head-SameBlocks, if-Keeps, return-Keeps, ll_rw_block-Keeps, on_null-Keeps,
}

-- What a search for a block promises of its result.
unfoldable pub Found : ℕ → ℕ → Option ℕ → Cache → Type 0
Found dev block none c = Unit {0}
Found dev block (some bh) c = is_block dev block (c.head bh) ≡ true

-- A buffer that is ready stands for no block that another holds.
Ready : ℕ → ℕ → Bool → Cache → Type 0
Ready dev block b c = b ≡ true → find_buffer dev block c ≡ none

-- The buffer holds the block.
unfoldable pub Held : ℕ → ℕ → ℕ → Cache → Type 0
Held dev block bh c = is_block dev block (c.head bh) ≡ true

module _ (n : ℕ) where
  count_up-IsConsistent : (bh : ℕ) (c : Cache) → IsConsistent n c → IsConsistent n (count_up bh c)
  count_up-IsConsistent bh c v =
      SameBlocks-IsConsistent
        (set_head-SameBlocks n bh
          (record (c.head bh) { b_count = ((c.head bh).b_count + 1) % 2 ^ 8 }) c refl refl)
        v

  count_down-IsConsistent :
      (bh : ℕ) (c : Cache) → IsConsistent n c → IsConsistent n (count_down bh c)
  count_down-IsConsistent bh c v =
      SameBlocks-IsConsistent
        (set_head-SameBlocks n bh
          (record (c.head bh) { b_count = ((c.head bh).b_count + 255) % 2 ^ 8 }) c refl refl)
        v

  again :
      (fuel dev block bh : ℕ) (ws : List Cache) (c : Cache)
      → IsConsistent n c
      → EachConsistent n ws
      → Keeps n (Found dev block) (get_hash_table fuel dev block)
      → Ensures n (Found dev block) (
          (if is_block dev block (c.head bh)
              then return (some bh)
              else (do modify (count_down bh); get_hash_table fuel dev block))
            ws c)
  unfolding Keeps Ensures Found
  again fuel dev block bh ws c v e more = elim (Bool-cases (is_block dev block (c.head bh))) [
    | inl g ↦ rw g (g, v, e)
    | inr g ↦ rw g (more ws (count_down bh c) (count_down-IsConsistent bh c v) e)
  ]

  get_hash_table-Keeps :
      (fuel dev block : ℕ) → Keeps n (Found dev block) (get_hash_table fuel dev block)
  unfolding Keeps Ensures get_hash_table Found
  get_hash_table-Keeps zero dev block ws c v e = tt
  get_hash_table-Keeps (suc fuel) dev block ws c v e =
      on_null-Keeps n (Found dev block) (find_buffer dev block c) (return none) _
        (λ f ws' c' v' e'. (tt, v', e'))
        (λ bh f ws' c' v' e'.
          and_then-Ensures n Any (Found dev block) (wait_on_buffer bh ws' (count_up bh c')) _
            (wait_on_buffer-Keeps n bh ws' (count_up bh c') (count_up-IsConsistent bh c' v') e')
            (λ a us d q v'' e''.
              again fuel dev block bh us d v'' e'' (get_hash_table-Keeps fuel dev block)))
        ws c v e

  looked :
      (dev block : ℕ) (cleaned : Bool) (ws : List Cache) (c : Cache)
      → IsConsistent n c
      → EachConsistent n ws
      → Ensures n
          (Ready dev block)
          (on_null (find_buffer dev block c) (return cleaned) (λ b. return false) ws c)
  unfolding Ensures Ready
  looked dev block cleaned ws c v e = elim (Option-cases (find_buffer dev block c)) [
    | inl f ↦ rw f (λ g. f, v, e)
    | inr (b, f) ↦ rw f (λ g. absurd (ground arith), v, e)
  ]

  hit :
      (dev block : ℕ) (found : Option ℕ) (k : Step ℕ) (ws : List Cache) (c : Cache)
      → Found dev block found c
      → IsConsistent n c
      → EachConsistent n ws
      → Ensures n (Held dev block) (k ws c)
      → Ensures n (Held dev block) (on_null found k return ws c)
  unfolding Ensures Found Held
  hit dev block none k ws c f v e h = h
  hit dev block (some bh) k ws c f v e h = (f, v, e)

  claim-Ensures :
      (dev block bh : ℕ) (ws : List Cache) (c : Cache)
      → dev ≢ 0
      → find_buffer dev block c ≡ none
      → bh < n
      → IsConsistent n c
      → EachConsistent n ws
      → Ensures n (Held dev block) (Result.done bh ws (claim dev block bh c))
  unfolding Ensures Held claim remove_from_queues insert_into_queues is_block
  claim-Ensures dev block bh ws c some_dev f l v e =
      (ground arith, claim-IsConsistent n dev block bh c v some_dev f l, e)

  -- The buffer that is chosen stands in the free list.
  choose-member :
      (head : ℕ → Head) (best : Option ℕ) (free : List ℕ) (bh : ℕ)
      → choose head best free ≡ some bh
      → (best ≡ some bh) ⊎ (member bh free ≡ true)
  unfolding choose
  choose-member head best [] bh e = inl e
  choose-member head best (tmp ∷ rest) bh e =
      ground (arith, choose-member head best rest bh, choose-member head (some tmp) rest bh)

  module _ (request_fn : ℕ → Bool) where
    sync_from-Keeps : (dev m i : ℕ) → Keeps n Any (sync_from request_fn n dev m i)
    unfolding Keeps Ensures sync_from
    sync_from-Keeps dev zero i ws c v e = (tt, v, e)
    sync_from-Keeps dev (suc m) i ws c v e =
        let rest = sync_from-Keeps dev m (suc i) in
        if-Keeps n Any ((c.head i).b_dev == dev) _ (sync_from request_fn n dev m (suc i))
          (λ ws' c' v' e'.
            and_then-Ensures n Any Any (wait_on_buffer i ws' c') _
              (wait_on_buffer-Keeps n i ws' c' v' e')
              (λ a us d q v'' e''.
                and_then-Ensures n Any Any _ _
                  (if-Keeps n Any ((d.head i).b_dev == dev && (d.head i).b_dirt)
                    (ll_rw_block request_fn write i) (return tt)
                    (ll_rw_block-Keeps n request_fn write i) (return-Keeps n tt) us d v'' e'')
                  (λ b xs x q' v3 e3. rest xs x v3 e3)))
          rest ws c v e

    -- What the writing of inodes is: a part of the cache's own code, which keeps it consistent.
    module _ (sync_inodes : Step (Unit {0})) (inodes : Keeps n Any sync_inodes) where
      sync_dev-Keeps : (dev : ℕ) → Keeps n Any (sync_dev request_fn n sync_inodes dev)
      unfolding Keeps sync_dev
      sync_dev-Keeps dev ws c v e =
          and_then-Ensures n Any Any (sync_from request_fn n dev n 0 ws c) _
            (sync_from-Keeps dev n 0 ws c v e)
            (λ a us d q v' e'.
              and_then-Ensures n Any Any (sync_inodes us d) _ (inodes us d v' e')
                (λ b xs x q' v3 e3. sync_from-Keeps dev n 0 xs x v3 e3))

      clean-Keeps : (fuel bh : ℕ) → Keeps n Any (clean request_fn n sync_inodes fuel bh)
      unfolding Keeps Ensures clean
      clean-Keeps zero bh ws c v e = tt
      clean-Keeps (suc fuel) bh ws c v e =
          if-Keeps n Any (c.head bh).b_dirt _ (return true)
            (λ ws' c' v' e'.
              and_then-Ensures n Any Any
                (sync_dev request_fn n sync_inodes (c.head bh).b_dev ws' c') _
                (sync_dev-Keeps (c.head bh).b_dev ws' c' v' e')
                (λ a us d q v'' e''.
                  and_then-Ensures n Any Any (wait_on_buffer bh us d) _
                    (wait_on_buffer-Keeps n bh us d v'' e'')
                    (λ b xs x q' v3 e3.
                      if-Keeps n Any ((x.head bh).b_count != 0) (return false)
                        (clean request_fn n sync_inodes fuel bh) (return-Keeps n false)
                        (clean-Keeps fuel bh) xs x v3 e3)))
            (return-Keeps n true) ws c v e

      settle-Keeps :
          (fuel dev block bh : ℕ)
          → Keeps n (Ready dev block) (settle request_fn n sync_inodes fuel dev block bh)
      unfolding Keeps Ensures settle Ready
      settle-Keeps fuel dev block bh ws c v e =
          and_then-Ensures n Any (Ready dev block) (wait_on_buffer bh ws c) _
            (wait_on_buffer-Keeps n bh ws c v e)
            (λ a us d q v' e'.
              if-Keeps n (Ready dev block) ((d.head bh).b_count != 0) (return false) _
                (λ ws' c' v'' e''. (λ f. absurd (ground arith), v'', e''))
                (λ ws' c' v'' e''.
                  and_then-Ensures n Any (Ready dev block)
                    (clean request_fn n sync_inodes fuel bh ws' c') _
                    (clean-Keeps fuel bh ws' c' v'' e'')
                    (λ b xs x q' v3 e3. looked dev block b xs x v3 e3))
                us d v' e')

      getblk-Keeps :
          (fuel dev block : ℕ)
          → dev ≢ 0
          → Keeps n (Held dev block) (getblk request_fn n sync_inodes fuel dev block)
      unfolding Keeps Ensures getblk Held Ready
      getblk-Keeps zero dev block some_dev ws c v e = tt
      getblk-Keeps (suc fuel) dev block some_dev ws c v e =
          let repeat = getblk-Keeps fuel dev block some_dev in
          and_then-Ensures n (Found dev block) (Held dev block)
            (get_hash_table (suc fuel) dev block ws c) _
            (get_hash_table-Keeps (suc fuel) dev block ws c v e)
            (λ found us d q v' e'.
              hit dev block found _ us d q v' e'
                (elim (Option-cases (choose d.head none d.free_list)) [
                  | inl f ↦ rw f (
                      and_then-Ensures n Any (Held dev block) (sleep_on us d) _
                        (sleep_on-Keeps n us d v' e') (λ a xs x q' v3 e3. repeat xs x v3 e3))
                  | inr (bh, f) ↦
                      let in_list : member bh d.free_list ≡ true =
                        ground (arith, choose-member d.head none d.free_list bh f) in
                      rw f (
                        and_then-Ensures n (Ready dev block) (Held dev block)
                          (settle request_fn n sync_inodes fuel dev block bh us d) _
                          (settle-Keeps fuel dev block bh us d v' e')
                          (λ ready xs x q' v3 e3. elim (Bool-cases ready) [
                            | inl g ↦ rw g (
                                claim-Ensures dev block bh xs x some_dev (q' g) (v'.free bh in_list)
                                  v3 e3)
                            | inr g ↦ rw g (repeat xs x v3 e3)
                          ]))
                ]))

-- Whatever other tasks and interrupts make of the cache while getblk sleeps, as long as each state
-- that it finds is consistent: a buffer that getblk returns holds the block asked for, and the cache
-- is consistent, so no other buffer holds that block. The writing of inodes keeps the cache so, too.
pub getblk-Held :
    (request_fn : ℕ → Bool) (n : ℕ) (sync_inodes : Step (Unit {0})) (fuel dev block : ℕ)
    (ws : List Cache) (c : Cache)
    → Keeps n Any sync_inodes
    → dev ≢ 0
    → IsConsistent n c
    → EachConsistent n ws
    → Ensures n (Held dev block) (getblk request_fn n sync_inodes fuel dev block ws c)
unfolding Keeps
getblk-Held request_fn n sync_inodes fuel dev block ws c inodes some_dev v e =
    getblk-Keeps n request_fn sync_inodes inodes fuel dev block some_dev ws c v e
