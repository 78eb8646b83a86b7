-- ===== src/Inode/Bytes.antt =====
-- The bytes of a file, and the chunk of a sector that inode_read_at of filesys/inode.c copies out.
use native.Mathlib.Decide.{ℕ_discrete}
use utcs.Prelude.{
  ℕ, zero, suc, ◌+◌, ◌-◌, ◌/◌, ◌%◌, ◌≤◌, ◌<◌, min, ◌≡◌, refl, sym, ap, ◌∙◌, false, List, [], ◌∷◌,
  some, arith, ◌==◌, if◌then◌else◌, lt→ltb, ne→==_false, get_or, take, drop, length, ◌&&◌,
}
use utcs.Disk.{Fs, index_block_size, block_sector_size, read_bytes, block_read}
use utcs.Inode.{Inode, inode_length, copy_out}
use utcs.Inode.Layout.{Blocks, slot, is_hole, slot_byte, slot_byte_present, byte_at, plain, Layout}
use utcs.Inode.File.{IsFile, Keeps}
use utcs.Inode.Slice.{tabulate, tabulate_shift, take-drop}

-- The bytes `lo`, ..., `lo + n - 1` of the file.
abbrev pub contents : Fs → Blocks → (lo n : ℕ) → List ℕ
contents fs blk = tabulate (byte_at fs blk)

-- How many of `size` bytes from `offset` the file has.
abbrev pub available : Inode → (size offset : ℕ) → ℕ
available inode size offset = min size (inode_length inode - offset)

-- The number of sectors that `n` bytes from `offset` lie in.
abbrev pub sectors_of : (offset n : ℕ) → ℕ
sectors_of offset n =
    if n == 0 then 0 else (offset % block_sector_size + n + 511) / block_sector_size

-- What reads the same slot by slot reads the same byte by byte.
pub contents_kept :
    {n : ℕ} {fs fs' : Fs} {inode : Inode} {blk blk' : Blocks} {m : ℕ} (lo k : ℕ)
    → Keeps n fs blk m fs' blk'
    → IsFile fs inode blk m
    → lo + k ≤ inode_length inode
    → contents fs' blk' lo k ≡ contents fs blk lo k
unfolding byte_at
contents_kept {inode = inode} {m = m} lo k p f h =
    tabulate_shift _ _ lo lo k λ i q. p.same_bytes _ _ (covered (lo + i) (omega arith))
  where
    covered : (pos : ℕ) → pos < inode_length inode → pos / block_sector_size / index_block_size ≤ m
    covered pos q = omega (arith, f.long_enough)

pub take_whole : (bs : List ℕ) (n : ℕ) → length bs ≡ n → take n bs ≡ bs
take_whole [] zero h = refl
take_whole [] (suc n) h = refl
take_whole (x ∷ bs) zero h = absurd (omega arith)
take_whole (x ∷ bs) (suc n) h = ap (◌∷◌ x) (take_whole bs n (omega arith))

-- Whether a sector is copied whole or in part, the bytes of the chunk come out.
cut :
    (bs : List ℕ) (ofs chunk : ℕ)
    → length bs ≡ block_sector_size
    → ofs + chunk ≤ block_sector_size
    → (if ofs == 0 && chunk == block_sector_size then bs else take chunk (drop ofs bs))
      ≡ tabulate (λ i. get_or bs i 0) ofs chunk
cut bs ofs chunk w h = elim (ℕ_discrete ofs 0) [
  | no p ↦ rw (ne→==_false ofs 0 p) part
  | yes p ↦ elim (ℕ_discrete chunk block_sector_size) [
    | no q ↦ rw (p, ne→==_false chunk block_sector_size q) (rw p at part)
    | yes q ↦ rw (p, q) (sym (take_whole bs block_sector_size w) ∙ rw (p, q) at part)
  ]
]
  where
    part : take chunk (drop ofs bs) ≡ tabulate (λ i. get_or bs i 0) ofs chunk
    part = take-drop bs ofs chunk (omega arith)

-- A byte of a sector of the file is a byte of the file.
pub sector_bytes :
    (fs : Fs) (blk : Blocks) (offset chunk : ℕ)
    → is_hole blk (offset / block_sector_size) ≡ false
    → chunk ≤ block_sector_size - offset % block_sector_size
    → tabulate
        (λ i. get_or (plain (fs.disk (slot blk (offset / block_sector_size)))) i 0)
        (offset % block_sector_size)
        chunk
      ≡ contents fs blk offset chunk
unfolding byte_at
sector_bytes fs blk offset chunk present small =
    tabulate_shift _ _ (offset % block_sector_size) offset chunk
      λ i p. byte (offset + i) (offset % block_sector_size + i) (omega arith) (omega arith)
  where
    from_slot :
        (k : ℕ)
        → get_or (plain (fs.disk (slot blk (offset / block_sector_size)))) k 0
          ≡ slot_byte fs blk (offset / block_sector_size) k
    from_slot k = slot_byte_present fs blk (offset / block_sector_size) k present

    byte :
        (pos k : ℕ)
        → pos / block_sector_size ≡ offset / block_sector_size
        → pos % block_sector_size ≡ k
        → get_or (plain (fs.disk (slot blk (offset / block_sector_size)))) k 0
          ≡ slot_byte fs blk (pos / block_sector_size) (pos % block_sector_size)
    byte pos k d e = rw (d, e) (from_slot k)

-- Copying a chunk out of the sector of its first byte.
pub copy_out_lem :
    {fs : Fs} {blk : Blocks} {m : ℕ} (offset chunk : ℕ)
    → Layout fs blk m
    → offset / block_sector_size / index_block_size ≤ m
    → is_hole blk (offset / block_sector_size) ≡ false
    → chunk ≤ block_sector_size - offset % block_sector_size
    → copy_out fs (slot blk (offset / block_sector_size)) (offset % block_sector_size) chunk
      ≡ some (contents fs blk offset chunk)
unfolding copy_out read_bytes block_read
copy_out_lem {fs} {blk} offset chunk l at present small =
    let b = l.slots_in (offset / block_sector_size) at present in
    rw (lt→ltb _ _ b.inside, b.kind)
      (ap some (
        cut (plain (fs.disk (slot blk (offset / block_sector_size)))) (offset % block_sector_size)
          chunk b.full (omega arith)
        ∙ sector_bytes fs blk offset chunk present small))
