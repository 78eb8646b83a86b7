-- ===== src/Inode/Writes.antt =====
-- What a write to a file of filesys/inode.c does, and one sector of it.
use native.Mathlib.Decide.{ℕ_discrete}
use utcs.Prelude.{
  ℕ, ◌+◌, ◌-◌, ◌/◌, ◌%◌, ◌≤◌, ◌<◌, ◌≡◌, ◌≢◌, refl, ap, ◌∙◌, Bool, true, false, List, arith, ◌==◌,
  if◌then◌else◌, length, get_or, take, drop, ==_iff, ne→==_false, length-take, length-drop,
}
use utcs.Bitmap.Ranges.{within}
use utcs.FreeMap.Alloc.{used, IsDenied}
use utcs.FreeMap.Room.{room}
use utcs.Disk.{Fs, index_block_size, block_sector_size}
use utcs.Inode.Layout.{Blocks, slot, plain, slot_byte, slot_byte_present, byte_at, Outside}
use utcs.Inode.Fill.{Fills}
use utcs.Inode.Patch.{patched, other_sector, slot_byte-patched}
use utcs.Inode.Splice.{get_or-take, get_or-drop}

-- From `(fs, blk)` to `(fs', blk')` the bytes from `offset` became those of `buffer` and the others
-- of the file stayed, no sector in use outside the file was written, nothing was freed, and `n`
-- sectors at most were taken.
pub record Writes (n : ℕ) (fs : Fs) (blk : Blocks) (m : ℕ) (fs' : Fs) (blk' : Blocks) (offset : ℕ)
    (buffer : List ℕ) : Type 0 where
  pub same_device : fs'.sectors ≡ fs.sectors
  pub selfs : (k : ℕ) → (blk' k).self ≡ (blk k).self
  pub written :
      (pos : ℕ)
      → pos / block_sector_size / index_block_size ≤ m
      → byte_at fs' blk' pos ≡ (
          if within offset (length buffer) pos
          then get_or buffer (pos - offset) 0
          else byte_at fs blk pos)
  pub frame : (t : ℕ) → used fs.free t ≡ true → Outside blk m t → fs'.disk t ≡ fs.disk t
  pub outside : (t : ℕ) → used fs.free t ≡ true → Outside blk m t → Outside blk' m t
  pub still_used : (t : ℕ) → used fs.free t ≡ true → used fs'.free t ≡ true
  pub spent : room fs.free ≤ n + room fs'.free
  pub writable : IsDenied fs'.free.file → IsDenied fs.free.file

-- A byte of two writes, one after the other, of the parts of a buffer.
two_parts :
    (buffer : List ℕ) (offset c pos old : ℕ)
    → c ≤ length buffer
    → (if within (offset + c) (length (drop c buffer)) pos
        then get_or (drop c buffer) (pos - (offset + c)) 0
        else if within offset (length (take c buffer)) pos
        then get_or (take c buffer) (pos - offset) 0
        else old)
      ≡ (if within offset (length buffer) pos then get_or buffer (pos - offset) 0 else old)
two_parts buffer offset c pos old h = ground (
  arith,
  length-take c buffer,
  length-drop c buffer,
  get_or-take c buffer (pos - offset),
  get_or-drop c buffer (pos - (offset + c)),
  same_index (c + (pos - (offset + c))) (pos - offset),
)
  where
    same_index : (i j : ℕ) → i ≡ j → get_or buffer i 0 ≡ get_or buffer j 0
    same_index i j e = ap (λ (x : ℕ). get_or buffer x 0) e

pub Writes-trans :
    {a b : ℕ} {fs fs₁ fs₂ : Fs} {blk blk₁ blk₂ : Blocks} {m : ℕ} (n offset c : ℕ) (buffer : List ℕ)
    → c ≤ length buffer
    → a + b ≤ n
    → Writes a fs blk m fs₁ blk₁ offset (take c buffer)
    → Writes b fs₁ blk₁ m fs₂ blk₂ (offset + c) (drop c buffer)
    → Writes n fs blk m fs₂ blk₂ offset buffer
Writes-trans {fs = fs} {blk = blk} n offset c buffer h within_n p q = record {
  same_device = q.same_device ∙ p.same_device;
  selfs = λ k. q.selfs k ∙ p.selfs k;
  written = λ pos at.
      q.written pos at
      ∙ rw (p.written pos at) (two_parts buffer offset c pos (byte_at fs blk pos) h);
  frame = λ t u o. q.frame t (p.still_used t u) (p.outside t u o) ∙ p.frame t u o;
  outside = λ t u o. q.outside t (p.still_used t u) (p.outside t u o);
  still_used = λ t u. q.still_used t (p.still_used t u);
  spent = omega (arith, p.spent, q.spent);
  writable = λ d. p.writable (q.writable d);
}

-- A byte of the file after a sector of it was filled and then written over.
patched_byte :
    {fs fs₁ : Fs} {blk blk₁ : Blocks} {m : ℕ} (offset : ℕ) (new piece : List ℕ)
    (F : Fills fs blk m
      (offset / block_sector_size)
      fs₁
      blk₁
      (slot blk₁ (offset / block_sector_size)))
    (at : offset / block_sector_size / index_block_size ≤ m) (w : length new ≡ block_sector_size)
    → length piece ≤ block_sector_size - offset % block_sector_size
    → ((k : ℕ)
        → k < block_sector_size
        → get_or new k 0 ≡ (
            if within (offset % block_sector_size) (length piece) k
            then get_or piece (k - offset % block_sector_size) 0
            else get_or (plain (fs₁.disk (slot blk₁ (offset / block_sector_size)))) k 0))
    → (pos : ℕ) → pos / block_sector_size / index_block_size ≤ m
    → byte_at (patched fs₁ blk₁ m (offset / block_sector_size) F.layout at F.present new w) blk₁ pos
      ≡ (if within offset (length piece) pos
          then get_or piece (pos - offset) 0
          else byte_at fs blk pos)
unfolding byte_at
patched_byte {fs} {fs₁} {blk} {blk₁} {m} offset new piece F at w fits law pos inside =
    elim (ℕ_discrete (pos / block_sector_size) (offset / block_sector_size)) [
      | no ne ↦ after ∙ rw (ne→==_false _ _ ne, out ne) (F.same_bytes _ _ inside)
      | yes e ↦
          after
          ∙ rw
              (
                (==_iff (pos / block_sector_size) (offset / block_sector_size)).1 e,
                law (pos % block_sector_size) (omega arith),
                same_test e,
                slot_byte_present fs₁ blk₁ (offset / block_sector_size) (pos % block_sector_size)
                    F.present,
                F.same_bytes (offset / block_sector_size) (pos % block_sector_size) at,
                ← e,
              )
              (by_test (within offset (length piece) pos) refl e)
    ]
  where
    after :
        slot_byte
          (patched fs₁ blk₁ m (offset / block_sector_size) F.layout at F.present new w)
          blk₁
          (pos / block_sector_size)
          (pos % block_sector_size)
        ≡ (if pos / block_sector_size == offset / block_sector_size
            then get_or new (pos % block_sector_size) 0
            else slot_byte fs₁ blk₁ (pos / block_sector_size) (pos % block_sector_size))
    after =
        slot_byte-patched fs₁ blk₁ m (offset / block_sector_size) F.layout at F.present new w _ _
          inside

    out :
        pos / block_sector_size ≢ offset / block_sector_size
        → within offset (length piece) pos ≡ false
    out ne = ground arith

    same_test :
        pos / block_sector_size ≡ offset / block_sector_size
        → within (offset % block_sector_size) (length piece) (pos % block_sector_size)
          ≡ within offset (length piece) pos
    same_test e = ground arith

    by_test :
        (c : Bool)
        → within offset (length piece) pos ≡ c
        → pos / block_sector_size ≡ offset / block_sector_size
        → (if c
            then get_or piece (pos % block_sector_size - offset % block_sector_size) 0
            else slot_byte fs blk (pos / block_sector_size) (pos % block_sector_size))
          ≡ (if c
              then get_or piece (pos - offset) 0
              else slot_byte fs blk (pos / block_sector_size) (pos % block_sector_size))
    by_test true h e = ap (λ (i : ℕ). get_or piece i 0) (omega arith)
    by_test false h e = refl

-- What writing a piece of a file into its sector does.
pub patched-Writes :
    {fs fs₁ : Fs} {blk blk₁ : Blocks} {m : ℕ} (offset : ℕ) (new piece : List ℕ)
    (F : Fills fs blk m
      (offset / block_sector_size)
      fs₁
      blk₁
      (slot blk₁ (offset / block_sector_size)))
    (at : offset / block_sector_size / index_block_size ≤ m) (w : length new ≡ block_sector_size)
    → length piece ≤ block_sector_size - offset % block_sector_size
    → ((k : ℕ)
        → k < block_sector_size
        → get_or new k 0 ≡ (
            if within (offset % block_sector_size) (length piece) k
            then get_or piece (k - offset % block_sector_size) 0
            else get_or (plain (fs₁.disk (slot blk₁ (offset / block_sector_size)))) k 0))
    → Writes 1 fs blk m
        (patched fs₁ blk₁ m (offset / block_sector_size) F.layout at F.present new w)
        blk₁
        offset
        piece
patched-Writes {fs} {fs₁} {blk} {blk₁} {m} offset new piece F at w fits law = record {
  same_device = F.same_device;
  selfs = F.selfs;
  written = patched_byte offset new piece F at w fits law;
  frame = λ t u o.
      other_sector fs₁ blk₁ m (offset / block_sector_size) F.layout at F.present new w t
        ((F.outside t u o).no_slot (offset / block_sector_size) at F.present)
      ∙ F.frame t u o.no_block;
  outside = F.outside;
  still_used = F.still_used;
  spent = omega (arith, F.spent);
  writable = F.writable;
}
