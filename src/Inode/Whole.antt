-- ===== src/Inode/Whole.antt =====
-- inode_create of filesys/inode.c for exactly the bytes of one index block, 64512, on a device of 160
-- sectors: the run, and writes to the file that it makes.
use utcs.Prelude.{ℕ, ◌≡◌, refl, false, List, [], ◌∷◌, Option, none, some, ◌>>=◌}
use utcs.Bitmap.{scan_and_flip, scan, set_multiple, contains, test, put, mark}
use utcs.FreeMap.{allocate}
use utcs.Disk.{
  Fs, bytes, IndexBlock, InodeDisk, inode_magic, take_sector, block_write, block_read, read_index,
  read_header, read_bytes,
}
use utcs.Inode.{
  Inode, index_block_init, read_at, write_at, read_loop, write_loop, grow, merge, byte_to_sector,
  copy_out,
}
use utcs.Inode.Create.{inode_create}

abbrev roomy : Fs
roomy = record {
  free = record { map = record { bit_cnt = 160; bits = 31 ∷ 0 ∷ 0 ∷ 0 ∷ 0 ∷ [] }; file = none };
  sectors = 160;
  disk = λ t. bytes [];
}

-- The inode in sector 2 and the first index block, in sector 5.
abbrev made : Option (InodeDisk × IndexBlock)
made = do
  (fs, done) ← inode_create roomy 2 64512
  head ← read_header fs 2
  block ← read_index fs 5
  some (head, block)

-- The only index block is empty again, and is the last one.
made_test :
    made
    ≡ some (
      record { start = 5; end = 5; is_dir = false; size = 64512; magic = inode_magic },
      index_block_init 5,
    )
unfolding inode_create index_block_init take_sector block_write read_header read_index block_read
    allocate scan_and_flip scan set_multiple contains test put mark
made_test = refl

abbrev whole_inode : Inode
whole_inode = record {
  sector = 2;
  open_cnt = 1;
  removed = false;
  deny_write_cnt = 0;
  on_disk = record { start = 5; end = 5; is_dir = false; size = 64512; magic = inode_magic };
  locked = false;
  readers = 0;
  writers = 0;
}

-- A byte at the start, and one behind the end of the file; then the start is read.
abbrev overwritten : Option (List ℕ)
overwritten = do
  (fs, done) ← inode_create roomy 2 64512
  (fs₁, i₁, n₁) ← write_at fs whole_inode (7 ∷ []) 0
  (fs₂, i₂, n₂) ← write_at fs₁ i₁ (9 ∷ []) 64512
  (fs₃, i₃, buffer) ← read_at fs₂ i₂ 1 0
  some buffer

-- It is the byte that was written behind the end.
overwritten_test : overwritten ≡ some (9 ∷ [])
unfolding inode_create index_block_init take_sector block_write read_header read_index read_bytes
    block_read allocate scan_and_flip scan set_multiple contains test put mark read_at write_at
    read_loop write_loop grow merge byte_to_sector copy_out
overwritten_test = refl
