-- ===== src/BitmapFile/Examples.antt =====
-- A map of forty bits through a file of 1300 bytes on a device of sixteen sectors.
use utcs.Prelude.{ℕ, zero, suc, ◌+◌, ◌*◌, ◌≤◌, ◌<◌, ◌≡◌, refl, true, false, [], ◌∷◌, some, arith}
use utcs.Bitmap.{Bitmap}
use utcs.Bitmap.Bits.{holds}
use utcs.Bitmap.Ranges.{tally}
use utcs.FreeMap.Alloc.{IsDenied, denies}
use utcs.FreeMap.Room.{room}
use utcs.Disk.{Fs}
use utcs.Inode.Bytes.{sectors_of}
use utcs.Inode.Sample.{five_used, small_fs, small_inode, small-IsFile}
use utcs.Inode.WriteAt.{new_blocks}
use utcs.OpenFile.{OpenFile}
use utcs.BitmapFile.{bitmap_read, bitmap_write}
use utcs.BitmapFile.RoundTrip.{bitmap_read-bitmap_write}
use utcs.BitmapFile.Words.{AreWords}

-- Bits 0, 1, 2 and 31 to 33 are set, and so are unused bits of the last word.
abbrev forty_bits : Bitmap
forty_bits = record { bit_cnt = 40; bits = 0x8000_0007 ∷ 0xff00_0003 ∷ [] }

abbrev all_clear : Bitmap
all_clear = record { bit_cnt = 40; bits = 0 ∷ 0 ∷ [] }

forty_words : AreWords forty_bits.bits
unfolding AreWords
forty_words zero = omega arith
forty_words (suc zero) = omega arith
forty_words (suc (suc i)) = omega arith

enough_for_forty : new_blocks small_inode 8 + 2 * sectors_of 0 8 ≤ room five_used
unfolding tally holds
enough_for_forty = omega arith

writable_five : ¬ IsDenied five_used.file
writable_five (denies e) = cc

abbrev small_file : OpenFile
small_file = record { inode = small_inode; pos = 0; denies = false }

bitmap_read-bitmap_write_example :
    (fs' : Fs) × (file' : OpenFile) × (fs'' : Fs) × (b' : Bitmap) × (bitmap_write small_fs
        small_file forty_bits
      ≡ some (fs', file', true))
    × (bitmap_read fs' file' all_clear ≡ some (fs'', file', b', true))
    × (b'.bit_cnt ≡ 40)
    × ((j : ℕ) → j < 40 → holds b' j ≡ holds forty_bits j)
bitmap_read-bitmap_write_example =
    bitmap_read-bitmap_write small_file forty_bits all_clear small-IsFile
      (record { words = refl; small = omega arith }) forty_words
      (record { words = refl; small = omega arith }) refl (omega arith) (omega arith)
      enough_for_forty writable_five refl refl refl refl
