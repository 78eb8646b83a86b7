-- ===== src/Inode/Reads.antt =====
-- The rounds of the loop of inode_read_at of filesys/inode.c, one by one.
use mathlib.Core.List.{append-nil, append_assoc}
use native.Mathlib.Decide.{ℕ_discrete}
use utcs.Prelude.{
  ℕ, suc, ◌+◌, ◌-◌, ◌%◌, ◌≤◌, ◌<◌, min, ◌≡◌, sym, ap, ◌∙◌, ◌≢◌, List, ◌++◌, Option, some, arith,
  ==_iff, le→leb, ne→==_false,
}
use utcs.FreeMap.Alloc.{IsDenied}
use utcs.FreeMap.Room.{room}
use utcs.Disk.{Fs, block_sector_size, no_sector}
use utcs.Inode.{Inode, inode_length, byte_to_sector, chunk_size, copy_out, read_loop}
use utcs.Inode.Layout.{Blocks, byte_at}
use utcs.Inode.File.{IsFile, Keeps, Keeps-refl, Keeps-trans, Keeps-mono}
use utcs.Inode.Bytes.{contents, available, sectors_of, contents_kept}
use utcs.Inode.Slice.{tabulate-append, tabulate-zero}

-- The file can get the sectors that `n` bytes from `offset` lie in.
pub record HasRoom (fs : Fs) (offset n : ℕ) : Type 0 where
  pub enough : sectors_of offset n ≤ room fs.free
  pub writable : ¬ IsDenied fs.free.file

-- A run of the loop that returns the bytes of the range behind `buffer`.
abbrev pub Reads :
    Fs → Blocks → (m : ℕ) → Inode → (offset n : ℕ) → List ℕ → Option (Fs × List ℕ) → Type 0
Reads fs blk m inode offset n buffer run =
    (fs' : Fs) × (blk' : Blocks) × (run ≡ some (fs', buffer ++ contents fs blk offset n))
    × Keeps (sectors_of offset n) fs blk m fs' blk'
    × IsFile fs' inode blk' m

-- A position past the end has no sector, and nothing is done for it.
pub byte_to_sector_end :
    (fs : Fs) (inode : Inode) (pos : ℕ)
    → inode_length inode ≤ pos
    → byte_to_sector fs inode pos ≡ some (fs, no_sector)
unfolding byte_to_sector
byte_to_sector_end fs inode pos h = rw (le→leb _ _ h)

-- A round uses up one sector's worth of the range, or all of it.
pub sectors_step :
    (offset n c : ℕ)
    → 0 < c
    → c ≡ min n (block_sector_size - offset % block_sector_size)
    → suc (sectors_of (offset + c) (n - c)) ≤ sectors_of offset n
sectors_step offset n c pos e = ground arith

-- A round that leaves the loop because there is nothing to read.
pub Reads-nothing :
    {fs : Fs} {inode : Inode} {blk : Blocks} {m : ℕ} (offset n : ℕ) (buffer : List ℕ)
    {run : Option (Fs × List ℕ)}
    → IsFile fs inode blk m
    → n ≡ 0
    → run ≡ some (fs, buffer)
    → Reads fs blk m inode offset n buffer run
Reads-nothing {fs} {inode} {blk} {m} offset n buffer f none_left e = (
  fs,
  blk,
  e ∙ ap (λ (xs : List ℕ). some (fs, xs)) (sym unchanged),
  Keeps-mono (omega arith) (Keeps-refl fs blk m),
  f,
)
  where
    unchanged : buffer ++ contents fs blk offset n ≡ buffer
    unchanged = rw (none_left, tabulate-zero (byte_at fs blk) offset) (append-nil buffer)

-- A round that reads a chunk, and the rounds after it.
pub Reads-more :
    {fs fs₁ : Fs} {inode : Inode} {blk blk₁ : Blocks} {m : ℕ} (offset n c : ℕ) (buffer : List ℕ)
    {run : Option (Fs × List ℕ)}
    → IsFile fs inode blk m
    → offset + n ≤ inode_length inode
    → 0 < c
    → c ≡ min n (block_sector_size - offset % block_sector_size)
    → Keeps 1 fs blk m fs₁ blk₁
    → Reads fs₁ blk₁ m inode (offset + c) (n - c) (buffer ++ contents fs₁ blk₁ offset c) run
    → Reads fs blk m inode offset n buffer run
Reads-more {fs} {fs₁} {inode} {blk} {blk₁} {m} offset n c buffer f inside pos chunk k
      (fs₂, blk₂, e, k₂, f₂) =
    (
      fs₂,
      blk₂,
      e ∙ ap (λ (xs : List ℕ). some (fs₂, xs)) joined,
      Keeps-mono (omega (arith, sectors_step offset n c pos chunk)) (Keeps-trans k k₂),
      f₂,
    )
  where
    joined :
        (buffer ++ contents fs₁ blk₁ offset c) ++ contents fs₁ blk₁ (offset + c) (n - c)
        ≡ buffer ++ contents fs blk offset n
    joined =
        append_assoc buffer _ _
        ∙ ap (◌++◌ buffer) (
            tabulate-append (byte_at fs₁ blk₁) offset c (n - c)
            ∙ ap (contents fs₁ blk₁ offset) (omega arith)
            ∙ contents_kept offset n k f inside)

-- A round that goes on.
pub read_loop_step :
    (fuel : ℕ) (fs fs₁ : Fs) (inode : Inode) (size offset c s : ℕ) (buffer piece : List ℕ)
    → size ≢ 0
    → chunk_size inode size offset ≡ c
    → c ≢ 0
    → byte_to_sector fs inode offset ≡ some (fs₁, s)
    → copy_out fs₁ s (offset % block_sector_size) c ≡ some piece
    → read_loop (suc fuel) fs inode size offset buffer
      ≡ read_loop fuel fs₁ inode (size - c) (offset + c) (buffer ++ piece)
unfolding read_loop
read_loop_step fuel fs fs₁ inode size offset c s buffer piece left chunk some_left found copied =
    rw (ne→==_false size 0 left, found, chunk, ne→==_false c 0 some_left, copied)

-- Nothing is read past the end, nor where nothing is asked for.
pub read_loop_stop :
    (fuel : ℕ) (fs : Fs) (inode : Inode) (size offset : ℕ) (buffer : List ℕ)
    → available inode size offset ≡ 0
    → read_loop (suc fuel) fs inode size offset buffer ≡ some (fs, buffer)
unfolding read_loop
read_loop_stop fuel fs inode size offset buffer none_left = elim (ℕ_discrete size 0) [
  | yes e ↦ rw ((==_iff size 0).1 e)
  | no ne ↦ rw (
    ne→==_false size 0 ne,
    byte_to_sector_end fs inode offset (omega arith),
    (==_iff (chunk_size inode size offset) 0).1 (omega arith),
  )
]
