-- ===== src/BitmapFile.antt =====
-- bitmap_read and bitmap_write of lib/kernel/bitmap.c in CS439/Project4: a bitmap goes to the
-- beginning of a file of filesys/file.c and comes back. A word has four bytes in memory and in the
-- file, the lowest first.
pub mod Words
pub mod RoundTrip
mod Examples
use Prim.Native.Nat.{bit_and}
use utcs.Prelude.{
  ℕ, ◌+◌, ◌-◌, ◌*◌, ◌/◌, ◌%◌, Bool, true, List, [], ◌∷◌, ◌++◌, Option, some, ◌==◌, if◌then◌else◌,
  length, take, drop, set, get_elem?, ◌>>=◌,
}
use utcs.Bitmap.{Bitmap, words_bytes, elem_cnt, byte_cnt, last_mask}
use utcs.Disk.{Fs}
use utcs.OpenFile.{OpenFile, file_read_at, file_write_at}

-- The words of an array of bytes
abbrev pub bytes_words : List ℕ → List ℕ
bytes_words (a ∷ b ∷ c ∷ d ∷ bs) = (a + 256 * b + 65536 * c + 16777216 * d) ∷ bytes_words bs
bytes_words _ = []

-- bitmap_file_size
abbrev pub file_size : Bitmap → ℕ
file_size b = byte_cnt b.bit_cnt

-- `b->bits` where the first bytes are replaced by those of the buffer
abbrev pub overlaid : List ℕ → (buffer : List ℕ) → List ℕ
overlaid bits buffer = bytes_words (buffer ++ drop (length buffer) (words_bytes bits))

-- bitmap_read, with its answer
pub bitmap_read : Fs → OpenFile → Bitmap → Option (Fs × OpenFile × Bitmap × Bool)
bitmap_read fs file b =
    let last = elem_cnt b.bit_cnt - 1 in
    let some_bits = (do
      (fs', file', buffer) ← file_read_at fs file (file_size b) 0
      w ← get_elem? (overlaid b.bits buffer) last
      some (
        fs',
        file',
        record b { bits = set (overlaid b.bits buffer) last (bit_and w (last_mask b)) },
        length buffer == file_size b,
      )) in
    if b.bit_cnt == 0 then some (fs, file, b, true) else some_bits

-- bitmap_write, with its answer
pub bitmap_write : Fs → OpenFile → Bitmap → Option (Fs × OpenFile × Bool)
bitmap_write fs file b = do
  (fs', file', n) ← file_write_at fs file (take (file_size b) (words_bytes b.bits)) 0
  some (fs', file', n == file_size b)
