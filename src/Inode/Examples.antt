-- ===== src/Inode/Examples.antt =====
-- The theorems on filesys/inode.c at a small file.
use utcs.Prelude.{ℕ, ◌≡◌, refl, List, some, ◌+◌, ◌*◌, ◌≤◌, none, arith, replicate, ◌⊎◌, length}
use utcs.Bitmap.Bits.{holds}
use utcs.Bitmap.Ranges.{tally}
use utcs.FreeMap.Alloc.{IsDenied, denies}
use utcs.FreeMap.Room.{room}
use utcs.Disk.{Fs, no_sector}
use utcs.Inode.{Inode, byte_to_sector, read_at, write_at}
use utcs.Inode.Layout.{Blocks}
use utcs.Inode.Locate.{Found, Starved}
use utcs.Inode.File.{IsFile, Keeps, byte_to_sector_lem}
use utcs.Inode.Bytes.{contents, available, sectors_of}
use utcs.Inode.Read.{HeldBeside, read_at_lem}
use utcs.Inode.Reads.{HasRoom}
use utcs.Inode.WriteAt.{new_blocks}
use utcs.Inode.Written.{Wrote, write_at_lem}
use utcs.Inode.RoundTrip.{read_at-write_at}
use utcs.Inode.Stuck.{write_at_full}
use utcs.Inode.Sample.{
  five_used, none_free, one_slot, small_fs, full_fs, small_inode, small-IsFile, full-IsFile,
}

small_writable : ¬ IsDenied five_used.file
small_writable (denies e) = cc

small-HasRoom : HasRoom small_fs 100 (available small_inode 2000 100)
unfolding tally holds
small-HasRoom = record { enough = omega arith; writable = small_writable }

byte_to_sector_lem_example :
    (fs' : Fs) × (s : ℕ) × (byte_to_sector small_fs small_inode 100 ≡ some (fs', s))
    × (Found small_fs one_slot 0 0 fs' s ⊎ (Starved small_fs × (s ≡ no_sector)))
byte_to_sector_lem_example = byte_to_sector_lem 100 small-IsFile (omega arith)

read_at_lem_example :
    (fs' : Fs) × (blk' : Blocks) × (read_at small_fs small_inode 2000 100
      ≡ some (fs', small_inode, contents small_fs one_slot 100 1200))
    × Keeps 3 small_fs one_slot 0 fs' blk'
    × IsFile fs' small_inode blk' 0
    × HeldBeside small_fs one_slot 0 fs'
read_at_lem_example = read_at_lem 2000 100 small-IsFile small-HasRoom refl refl

-- A write across the end of the first index block.
abbrev nines : List ℕ
nines = replicate 600 9

enough_to_write :
    new_blocks small_inode (64300 + length nines) + sectors_of 64300 (length nines) ≤ room five_used
unfolding tally holds
enough_to_write = omega arith

enough_to_read_back :
    new_blocks small_inode (64300 + length nines) + 2 * sectors_of 64300 (length nines)
    ≤ room five_used
unfolding tally holds
enough_to_read_back = omega arith

write_at_lem_example :
    (fs' : Fs) × (inode' : Inode) × (blk' : Blocks) × (m' : ℕ) × (write_at small_fs small_inode
        nines 64300
      ≡ some (fs', inode', 600))
    × Wrote small_fs small_inode one_slot 0 64300 nines fs' inode' blk' m'
write_at_lem_example =
    write_at_lem nines 64300 small-IsFile (omega arith) enough_to_write small_writable refl refl
      refl

read_at-write_at_example :
    (fs' : Fs) × (inode' : Inode) × (fs'' : Fs) × (write_at small_fs small_inode nines 64300
      ≡ some (fs', inode', 600))
    × (read_at fs' inode' 600 64300 ≡ some (fs'', inode', nines))
read_at-write_at_example =
    read_at-write_at nines 64300 small-IsFile (omega arith) enough_to_read_back small_writable refl
      refl refl refl

no_room : room none_free ≡ 0
unfolding tally holds
no_room = refl

write_at_full_example :
    (fs' : Fs) × (inode' : Inode) × (write_at full_fs small_inode nines 64300
      ≡ some (fs', inode', 0))
    × (read_at small_fs inode' 10 0 ≡ none)
    × (write_at small_fs inode' nines 0 ≡ none)
write_at_full_example =
    write_at_full nines 64300 0 small_fs 10 0 nines full-IsFile no_room refl refl refl refl
