-- ===== src/Inode/Written.antt =====
-- What inode_write_at of filesys/inode.c does, from its lock to its last round.
use Prim.Native.Nat.{max}
use utcs.Prelude.{
  ℕ, ◌+◌, ◌-◌, ◌/◌, ◌≤◌, ◌<◌, ◌≡◌, ◌≢◌, refl, sym, ap, ◌∙◌, Bool, true, false, List, some, arith,
  if◌then◌else◌, length, get_or, ==_iff, ltb, subst,
}
use utcs.Bitmap.Ranges.{within}
use utcs.FreeMap.Alloc.{used, IsDenied}
use utcs.FreeMap.Room.{room}
use utcs.Disk.{Fs, is_part, on_device, on_device_same, index_block_size, block_sector_size}
use utcs.Inode.{Inode, inode_length, grow, write_loop, write_at, acquire, unlock}
use utcs.Inode.Layout.{Blocks, byte_at, Outside}
use utcs.Inode.File.{IsFile}
use utcs.Inode.Bytes.{sectors_of}
use utcs.Inode.Writes.{Writes}
use utcs.Inode.Store.{write_loop_lem}
use utcs.Inode.WriteAt.{byte_or_zero, new_blocks, Covers, Grown, grow_lem}

-- From `(fs, inode, blk, m)` to `(fs', inode', blk', m')` the file got `buffer` at `offset`: it has
-- grown to hold it, its other bytes are as they were or zeros where it had no block, and a sector in
-- use outside the file, but the inode's own, holds what it held or is still the same part of the
-- free map's file.
pub record Wrote (fs : Fs) (inode : Inode) (blk : Blocks) (m offset : ℕ) (buffer : List ℕ)
    (fs' : Fs) (inode' : Inode) (blk' : Blocks) (m' : ℕ) : Type 0 where
  pub is_file : IsFile fs' inode' blk' m'
  pub same_inode : inode' ≡ record inode { on_disk = inode'.on_disk }
  pub size : inode_length inode' ≡ max (inode_length inode) (offset + length buffer)
  pub bytes :
      (pos : ℕ)
      → pos < inode_length inode'
      → byte_at fs' blk' pos ≡ (
          if within offset (length buffer) pos
          then get_or buffer (pos - offset) 0
          else byte_or_zero fs blk m pos)
  pub frame :
      (t : ℕ) → used fs.free t ≡ true → Outside blk m t → t ≢ inode.sector → fs'.disk t ≡ fs.disk t
  pub held :
      (t : ℕ)
      → used fs.free t ≡ true
      → Outside blk m t
      → t ≢ inode.sector
      → is_part (fs.disk t) ≡ false
      → on_device fs' t ≡ on_device fs t
  pub still_used : (t : ℕ) → used fs.free t ≡ true → used fs'.free t ≡ true
  pub spent :
      room fs.free
      ≤ new_blocks inode (offset + length buffer)
        + sectors_of offset (length buffer)
        + room fs'.free
  pub writable : IsDenied fs'.free.file → IsDenied fs.free.file

-- The inode while the file grows.
abbrev extending : Inode → Inode
extending inode = record inode { locked = true; writers = inode.writers + 1 }

-- Counting writers and locking leave the file what it is.
pub recount :
    {fs : Fs} {inode : Inode} {blk : Blocks} {m : ℕ} (lock : Bool) (writers : ℕ)
    → IsFile fs inode blk m
    → IsFile fs (record inode { locked = lock; writers = writers }) blk m
recount lock writers f = record {
  layout = f.layout;
  managed = f.managed;
  starts = f.starts;
  ends = f.ends;
  long_enough = f.long_enough;
  head = f.head;
  headed = f.headed;
  head_inside = f.head_inside;
  head_used = f.head_used;
}

left_as_was :
    (inode i : Inode)
    → inode.locked ≡ false
    → i ≡ record (extending inode) { on_disk = i.on_disk }
    → unlock (record i { writers = i.writers - 1 }) ≡ record inode { on_disk = i.on_disk }
left_as_was inode i unlocked same =
    ap (λ (j : Inode). unlock (record j { writers = j.writers - 1 })) same
    ∙ ap (λ (n : ℕ). record inode { on_disk = i.on_disk; locked = false; writers = n })
        (omega arith)
    ∙ ap (λ (b : Bool). record inode { on_disk = i.on_disk; locked = b }) (sym unlocked)

write_at_run :
    (fs fs₁ fs₂ : Fs) (inode i i' : Inode) (buffer : List ℕ) (offset n : ℕ)
    → inode.deny_write_cnt ≡ 0
    → inode.locked ≡ false
    → inode.readers ≡ 0
    → grow fs (extending inode) (offset + length buffer) ≡ some (fs₁, i, true)
    → unlock (record i { writers = i.writers - 1 }) ≡ i'
    → write_loop (length buffer) fs₁ i' buffer offset 0 ≡ some (fs₂, n)
    → write_at fs inode buffer offset ≡ some (fs₂, i', n)
unfolding write_at acquire
write_at_run fs fs₁ fs₂ inode i i' buffer offset n allowed unlocked no_reader grown left stored =
    rw (may_write, unlocked, (==_iff inode.readers 0).1 no_reader, grown, left, stored)
  where
    may_write : ltb 0 inode.deny_write_cnt ≡ false
    may_write = ground arith

-- While writes are denied nothing is written.
pub write_at-denied :
    (fs : Fs) (inode : Inode) (buffer : List ℕ) (offset : ℕ)
    → ltb 0 inode.deny_write_cnt ≡ true
    → write_at fs inode buffer offset ≡ some (fs, inode, 0)
unfolding write_at
write_at-denied fs inode buffer offset denied = rw denied

-- A file that grew and then took the buffer.
Grown-Wrote :
    {fs fs₁ fs₂ : Fs} {inode i : Inode} {blk blk₁ blk₂ : Blocks} {m m' : ℕ} (offset : ℕ)
    (buffer : List ℕ)
    → Grown fs (extending inode) blk m (offset + length buffer) fs₁ i blk₁ m'
    → Writes (sectors_of offset (length buffer)) fs₁ blk₁ m' fs₂ blk₂ offset buffer
    → IsFile fs₂ (record inode { on_disk = i.on_disk }) blk₂ m'
    → Wrote fs inode blk m offset buffer fs₂ (record inode { on_disk = i.on_disk }) blk₂ m'
Grown-Wrote {fs} {fs₁} {fs₂} {inode} {i} {blk} {blk₁} {blk₂} {m} {m'} offset buffer G W F = record {
  is_file = F;
  same_inode = refl;
  size = G.size;
  bytes = λ pos h.
      let at : pos / block_sector_size / index_block_size ≤ m' = omega (arith, F.long_enough) in
      W.written pos at ∙ rw (G.kept pos at) refl;
  frame = λ t u o ne. W.frame t (G.still_used t u) (G.outside t u o) ∙ G.frame t u o ne;
  held = λ t u o ne plain.
      on_device_same fs fs₂ t plain
        (W.frame t (G.still_used t u) (G.outside t u o) ∙ G.frame t u o ne);
  still_used = λ t u. W.still_used t (G.still_used t u);
  spent = omega (arith, G.spent, W.spent);
  writable = λ d. G.writable (W.writable d);
}

-- For a well-formed file, where its index blocks, with those that a write up to the end of the
-- range adds, cover that end (they do not where inode_create made the file with a positive
-- multiple of 64512 bytes and the range ends beyond those), the inode is not being read or
-- locked, writes to it are not denied, the map's file takes writes, and the device has the index
-- blocks that the file needs to grow and the sectors that the range may need: inode_write_at
-- returns the length of the buffer; the file has grown to hold the range, its bytes in the range
-- are those of the buffer, all its other bytes are as they were or zeros where it had no index
-- block, it is well formed, and of the sectors in use outside the file only the inode's own and
-- those of the free map's file can have changed.
pub write_at_lem :
    {fs : Fs} {inode : Inode} {blk : Blocks} {m : ℕ} (buffer : List ℕ) (offset : ℕ)
    → IsFile fs inode blk m
    → Covers inode m (offset + length buffer)
    → new_blocks inode (offset + length buffer) + sectors_of offset (length buffer) ≤ room fs.free
    → ¬ IsDenied fs.free.file
    → inode.deny_write_cnt ≡ 0
    → inode.locked ≡ false
    → inode.readers ≡ 0
    → (fs' : Fs) × (inode' : Inode) × (blk' : Blocks) × (m' : ℕ) × (write_at fs inode buffer offset
        ≡ some (fs', inode', length buffer))
      × Wrote fs inode blk m offset buffer fs' inode' blk' m'
write_at_lem {fs} {inode} {blk} {m} buffer offset F covers enough ok allowed unlocked no_reader =
    let (fs₁, i, blk₁, m', grown, G) =
      grow_lem fs (extending inode) blk m (offset + length buffer)
        (recount true (inode.writers + 1) F) covers (omega arith) ok in
    let left = left_as_was inode i unlocked G.same_inode in
    let F₁ : IsFile fs₁ (record inode { on_disk = i.on_disk }) blk₁ m' =
      subst (λ (j : Inode). IsFile fs₁ j blk₁ m') left (recount false (i.writers - 1) G.is_file) in
    let (fs₂, blk₂, stored, W, F₂) =
      write_loop_lem (length buffer) buffer offset 0 (omega arith) F₁ (omega (arith, G.size))
        (record { enough = omega (arith, G.spent); writable = λ d. ok (G.writable d) }) in
    (
      fs₂,
      record inode { on_disk = i.on_disk },
      blk₂,
      m',
      write_at_run fs fs₁ fs₂ inode i _ buffer offset (length buffer) allowed unlocked no_reader
          grown left (stored ∙ ap (λ (n : ℕ). some (fs₂, n)) (omega arith)),
      Grown-Wrote offset buffer G W F₂,
    )
