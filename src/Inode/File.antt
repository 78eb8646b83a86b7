-- ===== src/Inode/File.antt =====
-- A file of filesys/inode.c on the device, and what the calls that only look at it keep.
use native.Mathlib.Nat.{div-div-eq-div-mul}
use utcs.Prelude.{
  ℕ, ◌+◌, ◌*◌, ◌/◌, ◌%◌, ◌≤◌, ◌<◌, ◌≡◌, refl, sym, ap, ◌∙◌, ◌≢◌, true, false, some, arith, lt→ltb,
  ◌⊎◌, leb,
}
use utcs.FreeMap.Alloc.{used, IsDenied}
use utcs.FreeMap.Room.{room}
use utcs.Disk.{
  Fs, header, InodeDisk, index_block_size, block_sector_size, no_sector, read_index, block_read,
}
use utcs.Inode.{Inode, inode_length, span, byte_to_sector, walk, fill}
use utcs.Inode.Layout.{Blocks, slot_byte, Managed, Layout}
use utcs.Inode.Fill.{Fills}
use utcs.Inode.Locate.{Found, Starved, fill_lem, walk_lem}

-- `inode` is a file: its chain runs from `start` to `end` and covers its bytes, and the inode has a
-- sector of its own.
pub record IsFile (fs : Fs) (inode : Inode) (blk : Blocks) (m : ℕ) : Type 0 where
  pub layout : Layout fs blk m
  pub managed : Managed fs
  pub starts : (blk 0).self ≡ inode.on_disk.start
  pub ends : (blk m).self ≡ inode.on_disk.end
  pub long_enough : inode_length inode ≤ span * (m + 1)
  pub head : InodeDisk
  pub headed : fs.disk inode.sector ≡ header head
  pub head_inside : inode.sector < fs.sectors
  pub head_used : used fs.free inode.sector ≡ true

-- From `(fs, blk)` to `(fs', blk')` the file reads the same, a sector in use outside its index blocks
-- holds what it held or is still the same part of the free map's file, nothing was freed, and `n`
-- sectors at most were taken.
pub record Keeps (n : ℕ) (fs : Fs) (blk : Blocks) (m : ℕ) (fs' : Fs) (blk' : Blocks) : Type 0 where
  pub same_device : fs'.sectors ≡ fs.sectors
  pub selfs : (k : ℕ) → (blk' k).self ≡ (blk k).self
  pub same_bytes :
      (h k : ℕ) → h / index_block_size ≤ m → slot_byte fs' blk' h k ≡ slot_byte fs blk h k
  pub frame :
      (t : ℕ)
      → used fs.free t ≡ true
      → ((k : ℕ) → k ≤ m → t ≢ (blk k).self)
      → fs'.disk t ≡ fs.disk t
  pub still_used : (t : ℕ) → used fs.free t ≡ true → used fs'.free t ≡ true
  pub spent : room fs.free ≤ n + room fs'.free
  pub writable : IsDenied fs'.free.file → IsDenied fs.free.file

pub Keeps-refl : (fs : Fs) (blk : Blocks) (m : ℕ) → Keeps 0 fs blk m fs blk
Keeps-refl fs blk m = record {
  same_device = refl;
  selfs = λ k. refl;
  same_bytes = λ h k p. refl;
  frame = λ t h ne. refl;
  still_used = λ t h. h;
  spent = omega arith;
  writable = λ d. d;
}

pub Keeps-trans :
    {a b : ℕ} {fs fs₁ fs₂ : Fs} {blk blk₁ blk₂ : Blocks} {m : ℕ}
    → Keeps a fs blk m fs₁ blk₁
    → Keeps b fs₁ blk₁ m fs₂ blk₂
    → Keeps (a + b) fs blk m fs₂ blk₂
Keeps-trans p q = record {
  same_device = q.same_device ∙ p.same_device;
  selfs = λ k. q.selfs k ∙ p.selfs k;
  same_bytes = λ h k at. q.same_bytes h k at ∙ p.same_bytes h k at;
  frame =
      λ t h ne. q.frame t (p.still_used t h) (λ k at e. ne k at (e ∙ p.selfs k)) ∙ p.frame t h ne;
  still_used = λ t h. q.still_used t (p.still_used t h);
  spent = omega (arith, p.spent, q.spent);
  writable = λ d. p.writable (q.writable d);
}

pub Keeps-mono :
    {a b : ℕ} {fs fs' : Fs} {blk blk' : Blocks} {m : ℕ}
    → a ≤ b
    → Keeps a fs blk m fs' blk'
    → Keeps b fs blk m fs' blk'
Keeps-mono h p = record {
  same_device = p.same_device;
  selfs = p.selfs;
  same_bytes = p.same_bytes;
  frame = p.frame;
  still_used = p.still_used;
  spent = omega (arith, p.spent);
  writable = p.writable;
}

pub Fills-Keeps :
    {fs fs' : Fs} {blk blk' : Blocks} {m g s : ℕ}
    → Fills fs blk m g fs' blk' s
    → Keeps 1 fs blk m fs' blk'
Fills-Keeps f = record {
  same_device = f.same_device;
  selfs = f.selfs;
  same_bytes = f.same_bytes;
  frame = f.frame;
  still_used = f.still_used;
  spent = omega (arith, f.spent);
  writable = f.writable;
}

-- The inode's sector is none of the file's index blocks.
pub head_apart :
    {fs : Fs} {inode : Inode} {blk : Blocks} {m : ℕ}
    → IsFile fs inode blk m
    → (k : ℕ) → k ≤ m
    → inode.sector ≢ (blk k).self
head_apart {fs} f k h e = cc (f.headed, f.layout.on_disk k h, ap fs.disk e)

pub Keeps-IsFile :
    {n : ℕ} {fs fs' : Fs} {inode : Inode} {blk blk' : Blocks} {m : ℕ}
    → Keeps n fs blk m fs' blk'
    → Layout fs' blk' m
    → Managed fs'
    → IsFile fs inode blk m
    → IsFile fs' inode blk' m
Keeps-IsFile {inode = inode} p layout managed f = record {
  layout = layout;
  managed = managed;
  starts = p.selfs 0 ∙ f.starts;
  ends = p.selfs _ ∙ f.ends;
  long_enough = f.long_enough;
  head = f.head;
  headed = p.frame inode.sector f.head_used (head_apart f) ∙ f.headed;
  head_inside = rw p.same_device f.head_inside;
  head_used = p.still_used inode.sector f.head_used;
}

-- The index block of a position inside the file.
pub block_inside :
    {fs : Fs} {inode : Inode} {blk : Blocks} {m : ℕ} (pos : ℕ)
    → IsFile fs inode blk m
    → pos < inode_length inode
    → pos / block_sector_size / index_block_size ≤ m
block_inside pos f h =
    let block_of : pos / span ≡ pos / block_sector_size / index_block_size =
      sym (div-div-eq-div-mul pos block_sector_size index_block_size) in
    omega (arith, f.long_enough, block_of)

-- Inside the file byte_to_sector comes to the position's slot.
pub byte_to_sector-fill :
    {fs : Fs} {inode : Inode} {blk : Blocks} {m : ℕ} (pos : ℕ)
    → IsFile fs inode blk m
    → pos < inode_length inode
    → byte_to_sector fs inode pos
      ≡ fill fs
          (blk (pos / block_sector_size / index_block_size))
          (pos / block_sector_size % index_block_size)
unfolding byte_to_sector read_index block_read
byte_to_sector-fill {fs} {inode} {blk} {m} pos f h = rw (inside_file, first, block_there) refl
  where
    block_of : pos / span ≡ pos / block_sector_size / index_block_size
    block_of = sym (div-div-eq-div-mul pos block_sector_size index_block_size)

    at : pos / block_sector_size / index_block_size ≤ m
    at = block_inside pos f h

    inside_file : leb (inode_length inode) pos ≡ false
    inside_file = ground arith

    first : read_index fs inode.on_disk.start ≡ some (blk 0)
    first =
        rw (
          ← f.starts,
          lt→ltb _ _ (f.layout.inside 0 (omega arith)),
          f.layout.on_disk 0 (omega arith),
        )

    block_there :
        walk (pos / span) fs (blk 0) ≡ some (blk (pos / block_sector_size / index_block_size))
    block_there =
        walk_lem fs blk m (pos / block_sector_size) f.layout f.managed at (pos / span) 0
          (omega (arith, block_of, at))
        ∙ ap some (ap blk (omega (arith, block_of)))

-- Inside the file, byte_to_sector runs: it finds the sector of the position, having filled a hole
-- there with zeros, or it answers -1 where the device has no sector for it.
pub byte_to_sector_lem :
    {fs : Fs} {inode : Inode} {blk : Blocks} {m : ℕ} (pos : ℕ)
    → IsFile fs inode blk m
    → pos < inode_length inode
    → (fs' : Fs) × (s : ℕ) × (byte_to_sector fs inode pos ≡ some (fs', s))
      × (Found fs blk m (pos / block_sector_size) fs' s ⊎ (Starved fs × (s ≡ no_sector)))
byte_to_sector_lem {fs} {inode} {blk} {m} pos f h =
    let (fs', s, e, out) =
      fill_lem fs blk m (pos / block_sector_size) f.layout f.managed (block_inside pos f h) in
    (fs', s, byte_to_sector-fill pos f h ∙ e, out)
