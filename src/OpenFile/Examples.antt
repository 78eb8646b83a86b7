-- ===== src/OpenFile/Examples.antt =====
-- The theorems on open files at a small file.
use utcs.Prelude.{ℕ, ◌+◌, ◌*◌, ◌≤◌, ◌≡◌, refl, false, List, some, arith, length, replicate}
use utcs.Bitmap.Bits.{holds}
use utcs.Bitmap.Ranges.{tally}
use utcs.FreeMap.Alloc.{IsDenied, denies}
use utcs.FreeMap.Room.{room}
use utcs.Disk.{Fs}
use utcs.Inode.Bytes.{sectors_of}
use utcs.Inode.WriteAt.{new_blocks}
use utcs.Inode.Sample.{five_used, small_fs, small_inode, small-IsFile}
use utcs.OpenFile.{OpenFile, file_read, file_write, file_seek, file_tell}
use utcs.OpenFile.Position.{file_read-file_write}

-- The file, with the position past its end.
abbrev past_end : OpenFile
past_end = record { inode = small_inode; pos = 1400; denies = false }

abbrev fives : List ℕ
fives = replicate 700 5

enough_for_fives :
    new_blocks small_inode (1400 + length fives) + 2 * sectors_of 1400 (length fives)
    ≤ room five_used
unfolding tally holds
enough_for_fives = omega arith

five_used_writable : ¬ IsDenied five_used.file
five_used_writable (denies e) = cc

file_read-file_write_example :
    (fs' : Fs) × (file' : OpenFile) × (fs'' : Fs) × (file_write small_fs past_end fives
      ≡ some (fs', file', 700))
    × (file_tell file' ≡ file_tell past_end + 700)
    × (file_read fs' (file_seek file' (file_tell past_end)) 700 ≡ some (fs'', file', fives))
file_read-file_write_example =
    file_read-file_write past_end fives small-IsFile (omega arith) enough_for_fives
      five_used_writable refl refl refl refl
