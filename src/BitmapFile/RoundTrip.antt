-- ===== src/BitmapFile/RoundTrip.antt =====
-- bitmap_write and then bitmap_read of lib/kernel/bitmap.c, through a file.
use Prim.Native.Nat.{bit_and}
use utcs.Prelude.{
  ℕ, ◌+◌, ◌-◌, ◌*◌, ◌≤◌, ◌<◌, ◌≡◌, refl, sym, ap, ◌∙◌, true, false, some, arith, ne→==_false,
  length, set, get_or, get_elem?-eq-get_or, ==_refl,
}
use utcs.Bitmap.{Bitmap, words_bytes, elem_cnt, last_mask}
use utcs.Bitmap.Bits.{IsValid, holds}
use utcs.FreeMap.Alloc.{IsDenied}
use utcs.FreeMap.Room.{room}
use utcs.Disk.{Fs}
use utcs.Inode.Layout.{Blocks}
use utcs.Inode.File.{IsFile}
use utcs.Inode.Bytes.{sectors_of, take_whole}
use utcs.Inode.WriteAt.{new_blocks, Covers}
use utcs.OpenFile.{OpenFile, file_read_at, file_write_at}
use utcs.OpenFile.Position.{file_read_at-file_write_at}
use utcs.BitmapFile.{file_size, bitmap_read, bitmap_write}
use utcs.BitmapFile.Words.{AreWords, length-words_bytes, overlaid_all, holds-masked}

-- The bytes of a valid map are as many as its file has.
file_size_lem : (b : Bitmap) → IsValid b → length (words_bytes b.bits) ≡ file_size b
file_size_lem b v = omega (arith, length-words_bytes b.bits, v.words, v.small)

-- The map that bitmap_read leaves when it got all bytes of `b`.
abbrev read_back : Bitmap → Bitmap
read_back b =
    let last = elem_cnt b.bit_cnt - 1 in
    record b { bits = set b.bits last (bit_and (get_or b.bits last 0) (last_mask b)) }

-- What bitmap_read does with the bytes of another map of the same size.
bitmap_read_lem :
    (fs fs' : Fs) (file file' : OpenFile) (b old : Bitmap)
    → IsValid b
    → IsValid old
    → AreWords b.bits
    → old.bit_cnt ≡ b.bit_cnt
    → 0 < b.bit_cnt
    → file_read_at fs file (length (words_bytes b.bits)) 0 ≡ some (fs', file', words_bytes b.bits)
    → bitmap_read fs file old ≡ some (fs', file', read_back b, true)
unfolding bitmap_read
bitmap_read_lem fs fs' file file' b old v w words size some_bits got =
    rw
      (
        size,
        ne→==_false b.bit_cnt 0 (λ e. absurd (omega arith)),
        rw (file_size_lem b v) at got,
        overlaid_all old.bits b.bits words (w.words ∙ ap elem_cnt size ∙ sym v.words),
        get_elem?-eq-get_or b.bits (elem_cnt b.bit_cnt - 1) 0 (omega (arith, v.words, v.small)),
        file_size_lem b v,
        ==_refl (file_size b),
      )
      refl

bitmap_write_lem :
    (fs fs' : Fs) (file file' : OpenFile) (b : Bitmap)
    → IsValid b
    → file_write_at fs file (words_bytes b.bits) 0 ≡ some (fs', file', length (words_bytes b.bits))
    → bitmap_write fs file b ≡ some (fs', file', true)
unfolding bitmap_write
bitmap_write_lem fs fs' file file' b v wrote =
    rw
      (
        take_whole (words_bytes b.bits) (file_size b) (file_size_lem b v),
        wrote,
        file_size_lem b v,
        ==_refl (file_size b),
      )
      refl

-- bitmap_write of a valid map of at least one bit, all of whose words have 32 bits, to a
-- well-formed file, where its index blocks, with those that the write adds, cover the map's bytes
-- (they do not where inode_create made the file with a positive multiple of 64512 bytes and the
-- map has more), the inode is idle and takes writes, the device has the index blocks that the
-- file needs to grow and twice the sectors that the map's bytes lie in, and the file of the free
-- map, if there is one yet, takes writes: it answers true; bitmap_read of that file into any
-- valid map of the same number of bits then answers true, and leaves a map with the same bits.
pub bitmap_read-bitmap_write :
    {fs : Fs} {blk : Blocks} {m : ℕ} (file : OpenFile) (b old : Bitmap)
    → IsFile fs file.inode blk m
    → IsValid b
    → AreWords b.bits
    → IsValid old
    → old.bit_cnt ≡ b.bit_cnt
    → 0 < b.bit_cnt
    → Covers file.inode m (file_size b)
    → new_blocks file.inode (file_size b) + 2 * sectors_of 0 (file_size b) ≤ room fs.free
    → ¬ IsDenied fs.free.file
    → file.inode.deny_write_cnt ≡ 0
    → file.inode.locked ≡ false
    → file.inode.readers ≡ 0
    → file.inode.writers ≡ 0
    → (fs' : Fs) × (file' : OpenFile) × (fs'' : Fs) × (b' : Bitmap) × (bitmap_write fs file b
        ≡ some (fs', file', true))
      × (bitmap_read fs' file' old ≡ some (fs'', file', b', true))
      × (b'.bit_cnt ≡ b.bit_cnt)
      × ((j : ℕ) → j < b.bit_cnt → holds b' j ≡ holds b j)
bitmap_read-bitmap_write {fs} file b old F v words w size some_bits covers enough ok allowed
      unlocked no_reader no_writer =
    let whole : length (words_bytes b.bits) ≡ file_size b = file_size_lem b v in
    let from_start : 0 + file_size b ≡ file_size b = omega arith in
    let (fs', file', fs'', wrote, _, got) =
      file_read_at-file_write_at file (words_bytes b.bits) 0 F (rw (whole, from_start) covers)
        (rw (whole, from_start) (rw from_start at enough)) ok allowed unlocked no_reader
        no_writer in
    (
      fs',
      file',
      fs'',
      read_back b,
      bitmap_write_lem fs fs' file file' b v wrote,
      bitmap_read_lem fs' fs'' file' file' b old v w words size some_bits got,
      refl,
      λ j h. holds-masked b j v h,
    )
