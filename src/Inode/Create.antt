-- ===== src/Inode/Create.antt =====
-- inode_create of filesys/inode.c in CS439/Project4.
use utcs.Prelude.{
  ℕ, zero, suc, ◌+◌, ◌-◌, ◌/◌, min, Bool, true, false, Option, none, some, ltb, ◌==◌, if◌then◌else◌,
  set, ◌>>=◌,
}
use utcs.Disk.{
  Fs, bytes, index, header, IndexBlock, block_write, take_sector, zeros, index_block_size,
  inode_magic,
}
use utcs.Inode.{index_block_init, bytes_to_sectors}

-- The loop over the slots of an index block, from slot `i` on; it stops where the device is full.
pub create_slots : (left : ℕ) → Fs → IndexBlock → (i : ℕ) → Option (Fs × IndexBlock × Bool)
create_slots zero fs index_block i = some (fs, index_block, true)
create_slots (suc left) fs index_block i = do
  (fs₁, r) ← take_sector fs
  elim r [
    | none ↦ some (fs₁, index_block, false)
    | some f ↦ do
      fs₂ ← block_write fs₁ f (bytes zeros)
      create_slots left fs₂ (record index_block { slots = set index_block.slots i f }) (i + 1)
  ]

-- `for (; sectors >= 0; count++)`, with the last index block where all could be had. Where exactly
-- as many sectors are left as an index block has, it goes round once more with the same block.
pub create_blocks : (fuel : ℕ) → Fs → (current sectors : ℕ) → Option (Fs × Option ℕ)
unfolding create_slots
create_blocks zero fs current sectors = none
create_blocks (suc fuel) fs current sectors = do
  (fs₁, index_block, done) ←
      create_slots (min sectors index_block_size) fs (index_block_init current) 0
  let longer = (do
    (fs₂, r) ← take_sector fs₁
    elim r [
      | none ↦ some (fs₂, none)
      | some f ↦ do
        fs₃ ← block_write fs₂ current (index (record index_block { next = f }))
        create_blocks fuel fs₃ f (sectors - index_block_size)
    ])
  let again = (do
    fs₂ ← block_write fs₁ current (index index_block)
    create_blocks fuel fs₂ current 0)
  let last = (do fs₂ ← block_write fs₁ current (index index_block); some (fs₂, some current))
  let next = (if sectors == index_block_size then again else last)
  let written = (if ltb index_block_size sectors then longer else next)
  if done then written else some (fs₁, none)

-- What inode_create writes into the sector of the inode.
pub create_head : Fs → (sector length start : ℕ) → Option ℕ → Option (Fs × Bool)
create_head fs sector length start none = some (fs, false)
create_head fs sector length start (some last) = do
  fs' ← block_write fs sector (
      header
        (record { start = start; end = last; is_dir = false; size = length; magic = inode_magic }))
  some (fs', true)

-- inode_create
unfoldable pub inode_create : Fs → (sector length : ℕ) → Option (Fs × Bool)
unfolding create_blocks create_head
inode_create fs sector length = do
  (fs₁, r) ← take_sector fs
  elim r [
    | none ↦ some (fs₁, false)
    | some start ↦ do
      let sectors = bytes_to_sectors length
      (fs₂, last) ← create_blocks (sectors / index_block_size + 2) fs₁ start sectors
      create_head fs₂ sector length start last
  ]
