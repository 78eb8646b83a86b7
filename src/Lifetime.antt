-- ===== src/Lifetime.antt =====
-- The openers of an inode in filesys/inode.c of CS439/Project4: how they are counted, how writes
-- are denied, and how the last one gives a removed file back. An open inode has an opener.

pub mod Chain
pub mod Close
pub mod Removed
pub mod Deny
mod Examples
use utcs.Prelude.{
  ℕ, zero, suc, ◌+◌, ◌-◌, Bool, true, false, Option, none, some, ltb, leb, ◌==◌, if◌then◌else◌,
  get_elem?, ◌>>=◌, ◌>>◌, check,
}
use utcs.Disk.{Fs, IndexBlock, index_block_size, read_index, give_sector}
use utcs.Inode.{Inode}

-- inode_reopen
unfoldable pub reopen : Inode → Inode
reopen inode = record inode { open_cnt = inode.open_cnt + 1 }

-- inode_remove
unfoldable pub remove : Inode → Inode
remove inode = record inode { removed = true }

-- inode_deny_write
pub deny_write : Inode → Option (Inode × Bool)
deny_write inode = do
  let i = record inode { deny_write_cnt = inode.deny_write_cnt + 1 }
  check (leb i.deny_write_cnt i.open_cnt)
  some (i, ltb 0 inode.deny_write_cnt)

-- inode_allow_write
pub allow_write : Inode → Option Inode
allow_write inode = do
  check (ltb 0 inode.deny_write_cnt)
  check (leb inode.deny_write_cnt inode.open_cnt)
  some (record inode { deny_write_cnt = inode.deny_write_cnt - 1 })

-- The loop over the slots of an index block, from slot `i` on.
pub release_slots : (left : ℕ) → Fs → IndexBlock → (i : ℕ) → Option Fs
release_slots zero fs index_block i = some fs
release_slots (suc left) fs index_block i = do
  s ← get_elem? index_block.slots i
  let given = give_sector fs s
  fs' ← if s == index_block.self then some fs else given
  release_slots left fs' index_block (i + 1)

-- `while (index_block->next != index_block->self)` and what follows it, a round for each block.
pub release_chain : (fuel : ℕ) → Fs → IndexBlock → Option Fs
unfolding release_slots
release_chain zero fs index_block = none
release_chain (suc fuel) fs index_block = do
  fs₁ ← release_slots index_block_size fs index_block 0
  let rest = (do
    next ← read_index fs₁ index_block.next
    fs₂ ← give_sector fs₁ index_block.self
    release_chain fuel fs₂ next)
  if index_block.next == index_block.self then give_sector fs₁ index_block.self else rest

-- inode_close; the answer has no inode where its memory was freed. `fuel` bounds the index blocks.
unfoldable pub close : (fuel : ℕ) → Fs → Inode → Option (Fs × Option Inode)
unfolding release_chain
close fuel fs inode =
    let given = (do
      first ← read_index fs inode.on_disk.start
      fs₁ ← release_chain fuel fs first
      fs₂ ← give_sector fs₁ inode.sector
      some (fs₂, none)) in
    let last = (if inode.removed then given else some (fs, none)) in
    if inode.open_cnt == 1
    then last
    else some (fs, some (record inode { open_cnt = inode.open_cnt - 1 }))
