-- ===== src/Inode/Zones.antt =====
-- fs/inode.c: `_bmap`, from the block of a file to the block of the device.
use linux.Common.{
  ℕ, ◌+◌, ◌-◌, ◌*◌, ◌/◌, ◌%◌, ◌^◌, Bool, true, false, ◌&&◌, ◌||◌, List, update, ◌==◌, ◌!=◌, ltb,
  if◌then◌else◌,
}
use linux.Common.Int.{ℤ, pos, ltb_ℤ, leb_ℤ, pos_part}
use linux.Inode.{Inode}
use linux.Buffer.{set_head, set_content}
use linux.Buffer.Steps.{Step, return, panic, ◌>>=◌, ◌>>◌, get, modify, on_null}
use linux.Buffer.Blocks.{brelse, bread}
use linux.Bitmap.{SuperBlock}
use linux.Bitmap.Blocks.{new_block}

-- `((unsigned short *) bh->b_data)[k]`, two to a long word.
unfoldable pub get_short : ℕ → (ℕ → ℕ) → ℕ
get_short k words = if k % 2 == 0 then words (k / 2) % 2 ^ 16 else words (k / 2) / 2 ^ 16

unfoldable pub put_short : ℕ → ℕ → (ℕ → ℕ) → ℕ → ℕ
put_short k v words =
    let w = words (k / 2) in
    update words (k / 2)
      (if k % 2 == 0 then w / 2 ^ 16 * 2 ^ 16 + v % 2 ^ 16 else v % 2 ^ 16 * 2 ^ 16 + w % 2 ^ 16)

module _ (super_block : List SuperBlock) (request_fn : ℕ → Bool) (nr_buffers : ℕ)
    (sync_inodes : Step (Unit {0})) (fuel : ℕ) where
  -- A zone of the inode, with a new block if it has none and one is to be made at time `now`.
  unfoldable pub zone_of : ℕ → Bool → ℕ → Inode → Step Inode
  zone_of now create n inode =
      if create && inode.i_zone n == 0
      then (do
        z ← new_block super_block request_fn nr_buffers sync_inodes fuel inode.i_dev
        let inode' = record inode { i_zone = update inode.i_zone n z }
        return (if z != 0 then record inode' { i_ctime = now; i_dirt = true } else inode'))
      else return inode

  -- Entry `k` of the table in block `z`, with a new block if it is 0 and one is to be made.
  unfoldable pub entry_of : ℕ → Bool → ℕ → ℕ → Step ℕ
  entry_of dev create z k = do
    found ← bread request_fn nr_buffers sync_inodes fuel dev z
    on_null found (return 0) (λ bh. do
      c ← get
      let i = get_short k (c.content bh)
      i' ←
          (if create && i == 0
            then (do
              n ← new_block super_block request_fn nr_buffers sync_inodes fuel dev
              c' ← get
              if n != 0
                  then (do
                    modify (set_content bh (put_short k n (c'.content bh)))
                    modify (set_head bh (record (c'.head bh) { b_dirt = true })))
                  else return tt
              return n)
            else return i)
      brelse bh
      return i')

  unfoldable pub single : ℕ → Bool → Inode → ℕ → Step (Inode × ℕ)
  single now create inode k = do
    inode' ← zone_of now create 7 inode
    if inode'.i_zone 7 == 0
        then return (inode', 0)
        else do i ← entry_of inode'.i_dev create (inode'.i_zone 7) k; return (inode', i)

  unfoldable pub double : ℕ → Bool → Inode → ℕ → Step (Inode × ℕ)
  double now create inode k = do
    inode' ← zone_of now create 8 inode
    if inode'.i_zone 8 == 0 then return (inode', 0) else do
      z ← entry_of inode'.i_dev create (inode'.i_zone 8) (k / 512)
      if z == 0
          then return (inode', 0)
          else do i ← entry_of inode'.i_dev create z (k % 512); return (inode', i)

  -- `_bmap`, with the inode afterwards.
  unfoldable pub map_block : ℕ → Bool → Inode → ℤ → Step (Inode × ℕ)
  map_block now create inode block =
      let b = pos_part block in
      if ltb_ℤ block (pos 0) || leb_ℤ (pos (7 + 512 + 512 * 512)) block
      then panic
      else if ltb b 7
      then (do inode' ← zone_of now create b inode; return (inode', inode'.i_zone b))
      else if ltb (b - 7) 512
      then single now create inode (b - 7)
      else double now create inode (b - 7 - 512)

  unfoldable pub bmap : Inode → ℤ → Step (Inode × ℕ)
  bmap inode block = map_block 0 false inode block

  unfoldable pub create_block : ℕ → Inode → ℤ → Step (Inode × ℕ)
  create_block now inode block = map_block now true inode block
