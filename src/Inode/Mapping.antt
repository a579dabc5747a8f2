-- ===== src/Inode/Mapping.antt =====
-- fs/inode.c: what `bmap` finds where the tables are in the cache.
use linux.Common.{
  ℕ, ◌+◌, ◌-◌, ◌*◌, ◌/◌, ◌%◌, ◌^◌, ◌<◌, ◌≤◌, Bool, true, false, some, List, ◌==◌, ltb,
  if◌then◌else◌, fun_ext, ◌≡◌, ◌≢◌, refl, sym, ap, arith, ℕ_discrete, ◌⊎◌, inl, inr,
}
use linux.Common.Int.{pos, ltb_ℤ, leb_ℤ}
use linux.Inode.{Inode}
use linux.Inode.Zones.{get_short, put_short, zone_of, entry_of, single, double, map_block, bmap}
use linux.Buffer.{Cache}
use linux.Buffer.Steps.{Result, Step, return, ◌>>=◌}
use linux.Buffer.Queues.{find_buffer, count_up, count_down}
use linux.Buffer.Blocks.{brelse, bread}
use linux.Buffer.Awake.{getblk-found, wait_on_buffer-unlocked}
use linux.Bitmap.{SuperBlock}

-- A store into a table changes its entry and no other.
pub get_short-put_short :
    (k v j : ℕ) (words : ℕ → ℕ)
    → v < 2 ^ 16
    → get_short j (put_short k v words) ≡ (if j == k then v else get_short j words)
unfolding get_short put_short
get_short-put_short k v j words l = elim (ℕ_discrete (j / 2) (k / 2)) [
  | yes e ↦ ground (arith, e, ap words e)
  | no n ↦ ground (arith, n)
]

-- Block `z` is in buffer `bh`, unlocked and up to date, with fewer than 255 users.
pub record IsLoaded (dev z bh : ℕ) (c : Cache) : Type 0 where
  pub found : find_buffer dev z c ≡ some bh
  pub unlocked : (c.head bh).b_lock ≡ false
  pub uptodate : (c.head bh).b_uptodate ≡ true
  pub few : (c.head bh).b_count < 255

count_down-count_up :
    (bh : ℕ) (c : Cache) → (c.head bh).b_count < 255 → count_down bh (count_up bh c) ≡ c
count_down-count_up bh c l =
    ap (λ h. record c { head = h })
      (fun_ext (λ q. elim (ℕ_discrete q bh) [
        | yes e ↦ ground (arith, e, ap c.head e)
        | no n ↦ ground (arith, n)
      ]))

-- Entry `k` of the table in block `z` of a loaded buffer, or 0 where there is no table.
unfoldable pub Entry : ℕ → ℕ → Cache → ℕ → ℕ → Type 0
Entry dev z c k i =
    ((z ≡ 0) × (i ≡ 0))
    ⊎ ((bh : ℕ) × (z ≢ 0) × IsLoaded dev z bh c × (i ≡ get_short k (c.content bh)))

-- What is where block `b` of the file says: its zone, the entry of the table in zone 7, or the entry
-- of the table that the one in zone 8 names; 0 where a table is missing.
unfoldable pub Names : Inode → Cache → ℕ → ℕ → Type 0
Names inode c b z =
    ((b < 7) × (z ≡ inode.i_zone b))
    ⊎ ((7 ≤ b) × (b < 519) × Entry inode.i_dev (inode.i_zone 7) c (b - 7) z)
    ⊎ ((519 ≤ b)
        × (b < 262663)
        × ((t : ℕ) × Entry inode.i_dev (inode.i_zone 8) c ((b - 519) / 512) t
            × Entry inode.i_dev t c ((b - 519) % 512) z))

module _ (super_block : List SuperBlock) (request_fn : ℕ → Bool) (nr_buffers : ℕ)
    (sync_inodes : Step (Unit {0})) (fuel : ℕ) (some_fuel : 1 ≤ fuel) where
  bread-loaded :
      (dev z bh : ℕ) (ws : List Cache) (c : Cache)
      → IsLoaded dev z bh c
      → bread request_fn nr_buffers sync_inodes fuel dev z ws c
        ≡ Result.done (some bh) ws (count_up bh c)
  unfolding bread
  bread-loaded dev z bh ws c v =
      let fresh : ((count_up bh c).head bh).b_uptodate ≡ true = ground arith in
      rw
        (
          getblk-found request_fn nr_buffers sync_inodes fuel dev z ws c bh some_fuel v.found
              v.unlocked,
          fresh,
        )
        refl

  brelse-loaded :
      (dev z bh : ℕ) (ws : List Cache) (c : Cache)
      → IsLoaded dev z bh c
      → brelse bh ws (count_up bh c) ≡ Result.done tt ws c
  unfolding brelse
  brelse-loaded dev z bh ws c v =
      let open_ : ((count_up bh c).head bh).b_lock ≡ false = ground arith in
      let used : (((count_up bh c).head bh).b_count == 0) ≡ false = ground arith in
      rw (wait_on_buffer-unlocked bh ws (count_up bh c) open_, used, count_down-count_up bh c v.few)
        refl

  entry_of-loaded :
      (dev z bh k : ℕ) (ws : List Cache) (c : Cache)
      → IsLoaded dev z bh c
      → entry_of super_block request_fn nr_buffers sync_inodes fuel dev false z k ws c
        ≡ Result.done (get_short k (c.content bh)) ws c
  unfolding entry_of
  entry_of-loaded dev z bh k ws c v =
      rw (bread-loaded dev z bh ws c v, brelse-loaded dev z bh ws c v) refl

  single-Entry :
      (inode : Inode) (k z : ℕ) (ws : List Cache) (c : Cache)
      → Entry inode.i_dev (inode.i_zone 7) c k z
      → single super_block request_fn nr_buffers sync_inodes fuel 0 false inode k ws c
        ≡ Result.done (inode, z) ws c
  unfolding single zone_of Entry
  single-Entry inode k z ws c (inl (a, b)) =
      let none_ : (inode.i_zone 7 == 0) ≡ true = ground arith in rw (none_, b) refl
  single-Entry inode k z ws c (inr (bh, a, v, e)) =
      let some_ : (inode.i_zone 7 == 0) ≡ false = ground arith in
      rw (some_, entry_of-loaded inode.i_dev (inode.i_zone 7) bh k ws c v, e) refl

  -- The second table.
  inner :
      (inode : Inode) (k y z : ℕ) (ws : List Cache) (c : Cache)
      → Entry inode.i_dev y c (k % 512) z
      → (if y == 0 then return {A = Inode × ℕ} (inode, 0) else (do
        i ←
            entry_of super_block request_fn nr_buffers sync_inodes fuel inode.i_dev false y
              (k % 512)
        return {A = Inode × ℕ} (inode, i)))
          ws c
        ≡ Result.done (inode, z) ws c
  unfolding Entry
  inner inode k y z ws c (inl (d, e)) =
      let none_ : (y == 0) ≡ true = ground arith in rw (none_, e) refl
  inner inode k y z ws c (inr (bh, d, v, e)) =
      let some_ : (y == 0) ≡ false = ground arith in
      rw (some_, entry_of-loaded inode.i_dev y bh (k % 512) ws c v, e) refl

  double-Entry :
      (inode : Inode) (k y z : ℕ) (ws : List Cache) (c : Cache)
      → Entry inode.i_dev (inode.i_zone 8) c (k / 512) y
      → Entry inode.i_dev y c (k % 512) z
      → double super_block request_fn nr_buffers sync_inodes fuel 0 false inode k ws c
        ≡ Result.done (inode, z) ws c
  unfolding double zone_of Entry
  double-Entry inode k y z ws c (inl (a, b)) (inl (d, e)) =
      let none_ : (inode.i_zone 8 == 0) ≡ true = ground arith in rw (none_, e) refl
  double-Entry inode k y z ws c (inl (a, b)) (inr (bh, d, v, e)) = absurd (d b)
  double-Entry inode k y z ws c (inr (bh, a, v, b)) second =
      let some_ : (inode.i_zone 8 == 0) ≡ false = ground arith in
      rw (some_, entry_of-loaded inode.i_dev (inode.i_zone 8) bh (k / 512) ws c v, sym b)
        (inner inode k y z ws c second)

-- Where the tables that it needs are in the cache, unlocked, up to date and with fewer than 255 users
-- each, bmap gives what they say for every block of the largest file, direct, by one table or by two,
-- and leaves the inode and the cache as they are. One unit of fuel is enough.
pub bmap-Names :
    (super_block : List SuperBlock) (request_fn : ℕ → Bool) (nr_buffers : ℕ)
    (sync_inodes : Step (Unit {0})) (fuel : ℕ) (inode : Inode) (b z : ℕ) (ws : List Cache)
    (c : Cache)
    → 1 ≤ fuel
    → Names inode c b z
    → bmap super_block request_fn nr_buffers sync_inodes fuel inode (pos b) ws c
      ≡ Result.done (inode, z) ws c
unfolding bmap map_block Names zone_of
bmap-Names super_block request_fn nr_buffers sync_inodes fuel inode b z ws c l (inl (h, e)) =
    let not_negative : ltb_ℤ (pos b) (pos 0) ≡ false = ground arith in
    let in_range : leb_ℤ (pos (7 + 512 + 512 * 512)) (pos b) ≡ false = ground arith in
    let direct : ltb b 7 ≡ true = ground arith in rw (not_negative, in_range, direct, e) refl
bmap-Names super_block request_fn nr_buffers sync_inodes fuel inode b z ws c l
      (inr (inl (g, h, e))) =
    let not_negative : ltb_ℤ (pos b) (pos 0) ≡ false = ground arith in
    let in_range : leb_ℤ (pos (7 + 512 + 512 * 512)) (pos b) ≡ false = ground arith in
    let indirect : ltb b 7 ≡ false = ground arith in
    let once : ltb (b - 7) 512 ≡ true = ground arith in
    rw (not_negative, in_range, indirect, once)
      (single-Entry super_block request_fn nr_buffers sync_inodes fuel l inode (b - 7) z ws c e)
bmap-Names super_block request_fn nr_buffers sync_inodes fuel inode b z ws c l
      (inr (inr (g, h, (y, e, f)))) =
    let not_negative : ltb_ℤ (pos b) (pos 0) ≡ false = ground arith in
    let in_range : leb_ℤ (pos (7 + 512 + 512 * 512)) (pos b) ≡ false = ground arith in
    let indirect : ltb b 7 ≡ false = ground arith in
    let twice : ltb (b - 7) 512 ≡ false = ground arith in
    let k : b - 7 - 512 ≡ b - 519 = omega arith in
    rw (not_negative, in_range, indirect, twice, k)
      (double-Entry super_block request_fn nr_buffers sync_inodes fuel l inode (b - 519) y z ws c e
        f)
