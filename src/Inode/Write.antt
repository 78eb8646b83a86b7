-- ===== src/Inode/Write.antt =====
-- One round of the loop of inode_write_at of filesys/inode.c, and the invariant after a write.
use utcs.Prelude.{
  ℕ, ◌-◌, ◌/◌, ◌%◌, ◌≤◌, ◌<◌, ◌≡◌, refl, sym, ap, ◌∙◌, List, some, arith, length, subst,
}
use utcs.Disk.{Fs, bytes, index_block_size, block_sector_size, block_write}
use utcs.Inode.{Inode, inode_length, merge}
use utcs.Inode.Layout.{Blocks, slot, Managed, Layout, Outside}
use utcs.Inode.Fill.{Fills}
use utcs.Inode.File.{IsFile, head_apart}
use utcs.Inode.Patch.{patched, patched-Layout, block_write-patched, merge_lem}
use utcs.Inode.Writes.{Writes, patched-Writes}

-- The inode's own sector is outside the file.
pub head-Outside :
    {fs : Fs} {inode : Inode} {blk : Blocks} {m : ℕ}
    → IsFile fs inode blk m
    → Outside blk m inode.sector
head-Outside {fs} {inode} {blk} f = record {
  no_block = head_apart f;
  no_slot = λ g p q e. let b = f.layout.slots_in g p q in cc (f.headed, b.kind, ap fs.disk e);
}

pub Writes-IsFile :
    {n : ℕ} {fs fs' : Fs} {inode : Inode} {blk blk' : Blocks} {m offset : ℕ} {buffer : List ℕ}
    → Writes n fs blk m fs' blk' offset buffer
    → Layout fs' blk' m
    → Managed fs'
    → IsFile fs inode blk m
    → IsFile fs' inode blk' m
Writes-IsFile {inode = inode} p layout managed f = record {
  layout = layout;
  managed = managed;
  starts = p.selfs 0 ∙ f.starts;
  ends = p.selfs _ ∙ f.ends;
  long_enough = f.long_enough;
  head = f.head;
  headed = p.frame inode.sector f.head_used (head-Outside f) ∙ f.headed;
  head_inside = rw p.same_device f.head_inside;
  head_used = p.still_used inode.sector f.head_used;
}

-- One sector's worth of a write, whose sector was found.
pub sector_written :
    {fs fs₁ : Fs} {inode : Inode} {blk blk₁ : Blocks} {m : ℕ} (s offset : ℕ) (piece : List ℕ)
    → IsFile fs inode blk m
    → offset < inode_length inode
    → length piece ≤ block_sector_size - offset % block_sector_size
    → Fills fs blk m (offset / block_sector_size) fs₁ blk₁ s
    → (fs₂ : Fs) × (new : List ℕ) × (merge fs₁ s (offset % block_sector_size) (length piece) piece
        ≡ some new)
      × (block_write fs₁ s (bytes new) ≡ some fs₂)
      × Writes 1 fs blk m fs₂ blk₁ offset piece
      × IsFile fs₂ inode blk₁ m
sector_written {fs} {fs₁} {inode} {blk} {blk₁} {m} s offset piece f inside fits F =
    let at : offset / block_sector_size / index_block_size ≤ m = omega (arith, f.long_enough) in
    by_slot at (subst (Fills fs blk m (offset / block_sector_size) fs₁ blk₁) (sym F.names) F)
      F.names
  where
    by_slot :
        offset / block_sector_size / index_block_size ≤ m
        → Fills fs blk m
            (offset / block_sector_size)
            fs₁
            blk₁
            (slot blk₁ (offset / block_sector_size))
        → slot blk₁ (offset / block_sector_size) ≡ s
        → (fs₂ : Fs) × (new : List ℕ) × (merge fs₁ s
              (offset % block_sector_size)
              (length piece)
              piece
            ≡ some new)
          × (block_write fs₁ s (bytes new) ≡ some fs₂)
          × Writes 1 fs blk m fs₂ blk₁ offset piece
          × IsFile fs₂ inode blk₁ m
    by_slot at G names =
        let (new, e, w, law) =
          merge_lem fs₁ (slot blk₁ (offset / block_sector_size)) (offset % block_sector_size)
            (length piece) piece (G.layout.slots_in (offset / block_sector_size) at G.present) refl
            (omega arith) in
        (
          patched fs₁ blk₁ m (offset / block_sector_size) G.layout at G.present new w,
          new,
          rw (← names) e,
          rw (← names) (
              block_write-patched fs₁ blk₁ m (offset / block_sector_size) G.layout at G.present new
                w),
          patched-Writes offset new piece G at w fits law,
          Writes-IsFile (patched-Writes offset new piece G at w fits law)
              (patched-Layout fs₁ blk₁ m (offset / block_sector_size) G.layout at G.present new w)
              (record { sound = G.managed.sound; covers = G.managed.covers }) f,
        )
