-- ===== src/Inode/Stuck.antt =====
-- inode_write_at of filesys/inode.c where the device is full: the return in the middle of the loop
-- that adds index blocks.
use utcs.Prelude.{
  ℕ, suc, ◌+◌, ◌≡◌, refl, true, false, List, Option, none, some, arith, length, ==_iff, ltb, leb,
}
use utcs.FreeMap.{FreeMap}
use utcs.FreeMap.Room.{room, Took, got}
use utcs.Disk.{Fs}
use utcs.Inode.{Inode, inode_length, add_blocks, grow, read_at, write_at, acquire, enter_read}
use utcs.Inode.Layout.{Blocks}
use utcs.Inode.Locate.{take_sector_lem}
use utcs.Inode.File.{IsFile}
use utcs.Inode.WriteAt.{new_blocks, last_read}
use utcs.Inode.Written.{recount}

-- The first index block cannot be had.
add_blocks_full :
    (rounds : ℕ) (fs : Fs) (inode : Inode) (blk : Blocks) (m : ℕ)
    → IsFile fs inode blk m
    → room fs.free ≡ 0
    → (fs' : Fs) × (add_blocks (suc rounds) fs inode (blk m) ≡ some (fs', inode, false))
unfolding add_blocks
add_blocks_full rounds fs inode blk m F empty =
    let (free, r, e, took, _, _) = take_sector_lem fs F.managed in
    (record fs { free = free }, rw (e, no_sector_for free r took) refl)
  where
    no_sector_for : (free : FreeMap) (r : Option ℕ) → Took fs.free free r → r ≡ none
    no_sector_for free none t = refl
    no_sector_for free (some f) (got _ lt unused now fewer) = absurd (omega arith)

grow_full :
    (fs : Fs) (inode : Inode) (blk : Blocks) (m new_size rounds : ℕ)
    → IsFile fs inode blk m
    → room fs.free ≡ 0
    → new_blocks inode new_size ≡ suc rounds
    → (fs' : Fs) × (grow fs inode new_size ≡ some (fs', inode, false))
unfolding grow
grow_full fs inode blk m new_size rounds F empty more =
    let (fs', e) = add_blocks_full rounds fs inode blk m F empty in
    (fs', rw (longer, last_read fs inode blk m F, more, e))
  where
    longer : leb new_size (inode_length inode) ≡ false
    longer = ground (arith, more)

-- Where the device has no free sector, a write that needs another index block to an idle inode
-- returns 0 with the lock held: whatever is on the device later, no read and no write of the inode
-- that it leaves returns.
pub write_at_full :
    {fs : Fs} {inode : Inode} {blk : Blocks} {m : ℕ} (buffer : List ℕ) (offset rounds : ℕ)
    (later : Fs) (size at : ℕ) (more : List ℕ)
    → IsFile fs inode blk m
    → room fs.free ≡ 0
    → new_blocks inode (offset + length buffer) ≡ suc rounds
    → inode.deny_write_cnt ≡ 0
    → inode.locked ≡ false
    → inode.readers ≡ 0
    → (fs' : Fs) × (inode' : Inode) × (write_at fs inode buffer offset ≡ some (fs', inode', 0))
      × (read_at later inode' size at ≡ none)
      × (write_at later inode' more at ≡ none)
unfolding write_at read_at acquire enter_read
write_at_full {fs} {inode} {blk} {m} buffer offset rounds later size at more F empty short allowed
      unlocked no_reader =
    let busy : Inode = record inode { locked = true; writers = inode.writers + 1 } in
    let (fs', e) =
      grow_full fs busy blk m (offset + length buffer) rounds (recount true (inode.writers + 1) F)
        empty short in
    (
      fs',
      busy,
      rw (may_write, unlocked, (==_iff inode.readers 0).1 no_reader, e),
      refl,
      rw may_write,
    )
  where
    may_write : ltb 0 inode.deny_write_cnt ≡ false
    may_write = ground arith
