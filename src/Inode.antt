-- ===== src/Inode.antt =====
-- filesys/inode.c of CS439/Project4: files as chains of index blocks.
-- One caller at a time: a wait for another thread to signal never ends, and is `none`, as is the
-- acquisition of a lock that is held. Offsets and sizes are not negative and their sums fit
-- `off_t` (C leaves an overflow undefined); memory is there when the code asks for it.
pub mod Layout
pub mod Create
pub mod Present
pub mod Fill
pub mod Locate
pub mod File
pub mod Slice
pub mod Splice
pub mod Patch
pub mod Writes
pub mod Write
pub mod Store
pub mod Extend
pub mod Grow
pub mod Head
pub mod WriteAt
pub mod Written
pub mod RoundTrip
pub mod Stuck
pub mod Bytes
pub mod Reads
pub mod Read
pub mod Sample
mod Whole
mod Examples
use utcs.Prelude.{
  ℕ, zero, suc, ◌+◌, ◌-◌, ◌*◌, ◌/◌, ◌%◌, ◌^◌, min, Bool, true, false, not, List, [], ◌∷◌, ◌++◌,
  Option, none, some, ltb, leb, ◌==◌, if◌then◌else◌, ◌&&◌, ◌||◌, length, get_elem?, get_or, set,
  take, drop, replicate, ◌>>=◌, ◌>>◌, check,
}
use utcs.Disk.{
  Fs, Sector, bytes, index, header, IndexBlock, InodeDisk, block_read, block_write, read_index,
  read_bytes, read_header, take_sector, give_sector, zeros, no_sector, block_sector_size,
  index_block_size, inode_magic,
}

-- `struct inode`, with `data` as `on_disk`, and the lock as whether it is held.
pub record Inode : Type 0 where
  pub sector : ℕ
  pub open_cnt : ℕ
  pub removed : Bool
  pub deny_write_cnt : ℕ
  pub on_disk : InodeDisk
  pub locked : Bool
  pub readers : ℕ
  pub writers : ℕ

abbrev pub inode_length : Inode → ℕ
inode_length inode = inode.on_disk.size

-- The bytes that one index block covers.
abbrev pub span : ℕ
span = block_sector_size * index_block_size

unfoldable pub index_block_init : (self : ℕ) → IndexBlock
index_block_init self = record { next = self; self = self; slots = replicate index_block_size self }

abbrev pub bytes_to_sectors : ℕ → ℕ
bytes_to_sectors size = (size + (block_sector_size - 1)) / block_sector_size

-- `for (i = 0; i < index_block_index; ++i) block_read (fs_device, current->next, current);`
unfoldable pub walk : (rounds : ℕ) → Fs → IndexBlock → Option IndexBlock
walk zero fs current = some current
walk (suc rounds) fs current = do current' ← read_index fs current.next; walk rounds fs current'

-- The end of byte_to_sector, once the map answered `r`: `*current` gets the new sector.
pub place : Fs → IndexBlock → (slot : ℕ) → (r : Option ℕ) → Option (Fs × ℕ)
place fs current slot none = some (fs, no_sector)
place fs current slot (some f) = do
  fs₁ ← block_write fs f (bytes zeros)
  fs₂ ← block_write fs₁ current.self (index (record current { slots = set current.slots slot f }))
  some (fs₂, f)

-- A slot that names the index block itself is a hole; it gets a sector of zeros.
unfoldable pub fill : Fs → IndexBlock → (slot : ℕ) → Option (Fs × ℕ)
unfolding place
fill fs current slot = do
  s ← get_elem? current.slots slot
  let hole = (do (fs₁, r) ← take_sector fs; place fs₁ current slot r)
  if s == current.self then hole else some (fs, s)

unfoldable pub byte_to_sector : Fs → Inode → (pos : ℕ) → Option (Fs × ℕ)
unfolding walk fill
byte_to_sector fs inode pos =
    let found = (do
      first ← read_index fs inode.on_disk.start
      current ← walk (pos / span) fs first
      fill fs current (pos / block_sector_size % index_block_size)) in
    if leb (inode_length inode) pos then some (fs, no_sector) else found

-- `min (size, min_left)`: a negative `inode_left` ends the loop just as 0 does.
abbrev pub chunk_size : Inode → (size offset : ℕ) → ℕ
chunk_size inode size offset =
    min size (min (inode_length inode - offset) (block_sector_size - offset % block_sector_size))

-- A whole sector goes straight to the caller, a part of one through `bounce`.
unfoldable pub copy_out : Fs → (sector_idx sector_ofs chunk : ℕ) → Option (List ℕ)
copy_out fs sector_idx sector_ofs chunk = do
  block ← read_bytes fs sector_idx
  some (
      if sector_ofs == 0 && chunk == block_sector_size
      then block
      else take chunk (drop sector_ofs block))

-- `while (size > 0)` of inode_read_at. Each round that goes on takes a byte at least, so `size`
-- rounds are enough.
unfoldable pub read_loop :
    (fuel : ℕ) → Fs → Inode → (size offset : ℕ) → (buffer : List ℕ) → Option (Fs × List ℕ)
read_loop zero fs inode size offset buffer = check (size == 0) >> some (fs, buffer)
read_loop (suc fuel) fs inode size offset buffer =
    let chunk = chunk_size inode size offset in
    let round = (do
      (fs', sector_idx) ← byte_to_sector fs inode offset
      let next = (do
        piece ← copy_out fs' sector_idx (offset % block_sector_size) chunk
        read_loop fuel fs' inode (size - chunk) (offset + chunk) (buffer ++ piece))
      if chunk == 0 then some (fs', buffer) else next) in
    if size == 0 then some (fs, buffer) else round

unfoldable pub acquire : Inode → Option Inode
acquire inode = check (not inode.locked) >> some (record inode { locked = true })

abbrev pub unlock : Inode → Inode
unlock inode = record inode { locked = false }

-- The two critical sections of a reader.
unfoldable pub enter_read : Inode → Option Inode
unfolding acquire
enter_read inode = do
  i ← acquire inode
  check (i.writers == 0)
  some (unlock (record i { readers = i.readers + 1 }))

unfoldable pub leave_read : Inode → Option Inode
unfolding acquire
leave_read inode = do i ← acquire inode; some (unlock (record i { readers = i.readers - 1 }))

-- inode_read_at, with the bytes that it put into the buffer.
unfoldable pub read_at : Fs → Inode → (size offset : ℕ) → Option (Fs × Inode × List ℕ)
unfolding enter_read leave_read
read_at fs inode size offset = do
  i ← enter_read inode
  (fs', buffer) ← read_loop size fs i size offset []
  i' ← leave_read i
  some (fs', i', buffer)

-- The index blocks that a growing file needs. The answer is false where the device is full.
unfoldable pub add_blocks :
    (rounds : ℕ) → Fs → Inode → (current : IndexBlock) → Option (Fs × Inode × Bool)
add_blocks zero fs inode current = some (fs, inode, true)
add_blocks (suc rounds) fs inode current = do
  (fs₁, r) ← take_sector fs
  elim r [
    | none ↦ some (fs₁, inode, false)
    | some f ↦ do
      fs₂ ← block_write fs₁ inode.on_disk.end (index (record current { next = f }))
      let inode' = record inode { on_disk = record inode.on_disk { end = f } }
      fs₃ ← block_write fs₂ f (index (index_block_init f))
      current' ← read_index fs₃ f
      add_blocks rounds fs₃ inode' current'
  ]

unfoldable pub grow : Fs → Inode → (new_size : ℕ) → Option (Fs × Inode × Bool)
unfolding add_blocks
grow fs inode new_size =
    let grown = (do
      current ← read_index fs inode.on_disk.end
      (fs₁, i, done) ← add_blocks (new_size / span - inode_length inode / span) fs inode current
      let i' = record i { on_disk = record i.on_disk { size = new_size } }
      let finish = (do fs₂ ← block_write fs₁ i'.sector (header i'.on_disk); some (fs₂, i', true))
      if done then finish else some (fs₁, i, false)) in
    if leb new_size (inode_length inode) then some (fs, inode, true) else grown

-- The sector to write: what is round the chunk is kept.
unfoldable pub merge : Fs → (sector_idx sector_ofs chunk : ℕ) → (piece : List ℕ) → Option (List ℕ)
merge fs sector_idx sector_ofs chunk piece =
    let bounce =
      (if ltb 0 sector_ofs || ltb chunk (block_sector_size - sector_ofs)
        then read_bytes fs sector_idx
        else some zeros) in
    let part = (do
      block ← bounce
      some (take sector_ofs block ++ (piece ++ drop (sector_ofs + chunk) block))) in
    if sector_ofs == 0 && chunk == block_sector_size then some piece else part

-- `while (size > 0)` of inode_write_at, `buffer` being what is left to write.
unfoldable pub write_loop :
    (fuel : ℕ) → Fs → Inode → (buffer : List ℕ) → (offset bytes_written : ℕ) → Option (Fs × ℕ)
write_loop zero fs inode buffer offset bytes_written =
    check (length buffer == 0) >> some (fs, bytes_written)
write_loop (suc fuel) fs inode buffer offset bytes_written =
    let chunk = chunk_size inode (length buffer) offset in
    let round = (do
      (fs₁, sector_idx) ← byte_to_sector fs inode offset
      let next = (do
        block ← merge fs₁ sector_idx (offset % block_sector_size) chunk (take chunk buffer)
        fs₂ ← block_write fs₁ sector_idx (bytes block)
        write_loop fuel fs₂ inode (drop chunk buffer) (offset + chunk) (bytes_written + chunk))
      if chunk == 0 then some (fs₁, bytes_written) else next) in
    if length buffer == 0 then some (fs, bytes_written) else round

-- inode_write_at. Where the file cannot grow, the code returns as it stands, with the inode's lock
-- held and the writer still counted.
unfoldable pub write_at : Fs → Inode → (buffer : List ℕ) → (offset : ℕ) → Option (Fs × Inode × ℕ)
unfolding acquire grow
write_at fs inode buffer offset =
    let run = (do
      i ← acquire inode
      let i₁ = record i { writers = i.writers + 1 }
      check (i₁.readers == 0)
      (fs₁, i₂, grown) ← grow fs i₁ (offset + length buffer)
      let i₃ = unlock (record i₂ { writers = i₂.writers - 1 })
      let finish = (do
        (fs₂, n) ← write_loop (length buffer) fs₁ i₃ buffer offset 0
        some (fs₂, i₃, n))
      if grown then finish else some (fs₁, i₂, 0)) in
    if ltb 0 inode.deny_write_cnt then some (fs, inode, 0) else run
