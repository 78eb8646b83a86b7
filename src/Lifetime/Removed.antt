-- ===== src/Lifetime/Removed.antt =====
-- inode_remove and the inode_close of the last opener in filesys/inode.c.
use utcs.Prelude.{
  ℕ, suc, ◌*◌, ◌/◌, ◌≤◌, ◌<◌, ◌≡◌, ◌≢◌, refl, sym, ◌∙◌, Bool, true, false, none, some, arith,
  ==_iff, ==_refl, ne→==_false, lt→ltb,
}
use utcs.FreeMap.{MapFile}
use utcs.FreeMap.Alloc.{used}
use utcs.Disk.{Fs, index_block_size, give_sector, read_index, block_read}
use utcs.Inode.{Inode}
use utcs.Inode.Layout.{Blocks, slot, is_hole, Managed, Outside}
use utcs.Inode.File.{IsFile}
use utcs.Inode.Write.{head-Outside}
use utcs.Lifetime.{close, remove, release_chain}
use utcs.Lifetime.Chain.{Freed, give_sector_lem, gone}
use utcs.Lifetime.Close.{release_chain_lem}

-- In `fs'` every sector of the file of `fs` is free, the inode's own too, and the use of no other
-- sector has changed; the device holds what it held.
pub record GivenBack (fs : Fs) (inode : Inode) (blk : Blocks) (m : ℕ) (fs' : Fs) : Type 0 where
  pub managed : Managed fs'
  pub same_disk : fs'.disk ≡ fs.disk
  pub slots_free :
      (g : ℕ)
      → g / index_block_size ≤ m
      → is_hole blk g ≡ false
      → used fs'.free (slot blk g) ≡ false
  pub blocks_free : (k : ℕ) → k ≤ m → used fs'.free (blk k).self ≡ false
  pub head_free : used fs'.free inode.sector ≡ false
  pub others : (t : ℕ) → Outside blk m t → t ≢ inode.sector → used fs'.free t ≡ used fs.free t

-- Nothing has been given back yet.
nothing-Freed :
    (fs : Fs) (inode : Inode) (blk : Blocks) (m : ℕ) (f : MapFile)
    → IsFile fs inode blk m
    → fs.free.file ≡ some f
    → Freed fs blk m (index_block_size * 0) 0 fs
nothing-Freed fs inode blk m f F opened = record {
  same_disk = refl;
  same_device = refl;
  managed = F.managed;
  open_file = (f, opened);
  slots_free = λ h p q r. absurd (omega arith);
  blocks_free = λ j p q. absurd (omega arith);
  kept = λ t u a b. u;
  none_taken = λ t u. u;
}

-- The inode's own sector is the last to go.
head_given :
    (fs fs₁ : Fs) (inode : Inode) (blk : Blocks) (m : ℕ)
    → IsFile fs inode blk m
    → Freed fs blk m (index_block_size * suc m) (suc m) fs₁
    → (fs₂ : Fs) × (give_sector fs₁ inode.sector ≡ some fs₂) × GivenBack fs inode blk m fs₂
head_given fs fs₁ inode blk m F G =
    let o = head-Outside F in
    let in_use : used fs₁.free inode.sector ≡ true =
      G.kept inode.sector F.head_used (λ h p q r. o.no_slot h q r) (λ j p q. o.no_block j q) in
    let (f, opened) = G.open_file in
    let (free, e, managed, _, now) =
      give_sector_lem fs₁ inode.sector f G.managed opened
        (omega (arith, F.head_inside, G.same_device)) in_use in
    (
      record fs₁ { free = free },
      e,
      record {
        managed = managed;
        same_disk = G.same_disk;
        slots_free = λ g p q.
            gone fs blk m F.layout (slot blk g) inode.sector (now (slot blk g))
              (G.slots_free g (omega arith) p q);
        blocks_free = λ k p.
            gone fs blk m F.layout (blk k).self inode.sector (now (blk k).self)
              (G.blocks_free k (omega arith) p);
        head_free = now inode.sector ∙ rw (==_refl inode.sector) refl;
        others = λ t out ne.
            now t ∙ rw (ne→==_false t inode.sector ne) (same_use t out (used fs.free t) refl);
      },
    )
  where
    same_use :
        (t : ℕ)
        → Outside blk m t
        → (c : Bool) → used fs.free t ≡ c
        → used fs₁.free t ≡ used fs.free t
    same_use t out true e =
        G.kept t e (λ h p q r. out.no_slot h q r) (λ j p q. out.no_block j q) ∙ sym e
    same_use t out false e = G.none_taken t e ∙ sym e

first_read :
    (fs : Fs) (inode : Inode) (blk : Blocks) (m : ℕ)
    → IsFile fs inode blk m
    → read_index fs inode.on_disk.start ≡ some (blk 0)
unfolding read_index block_read
first_read fs inode blk m F =
    rw (← F.starts, lt→ltb _ _ (F.layout.inside 0 (omega arith)), F.layout.on_disk 0 (omega arith))

close_run :
    (fuel : ℕ) (fs fs₁ fs₂ : Fs) (inode : Inode) (blk : Blocks) (m : ℕ)
    → IsFile fs inode blk m
    → inode.open_cnt ≡ 1
    → release_chain fuel fs (blk 0) ≡ some fs₁
    → give_sector fs₁ inode.sector ≡ some fs₂
    → close fuel fs (remove inode) ≡ some (fs₂, none)
unfolding close remove
close_run fuel fs fs₁ fs₂ inode blk m F one_opener released given =
    rw ((==_iff inode.open_cnt 1).1 one_opener, first_read fs inode blk m F, released, given)

-- Where an inode that one opener has open is removed and then closed, and the map's file is open,
-- enough rounds for its index blocks let inode_close return: the inode is gone, all its data
-- sectors, its index blocks and its own sector are free, and no other sector's use has changed.
pub close-remove :
    {fs : Fs} {inode : Inode} {blk : Blocks} {m : ℕ} (fuel : ℕ) (f : MapFile)
    → IsFile fs inode blk m
    → fs.free.file ≡ some f
    → inode.open_cnt ≡ 1
    → m < fuel
    → (fs' : Fs) × (close fuel fs (remove inode) ≡ some (fs', none)) × GivenBack fs inode blk m fs'
close-remove {fs} {inode} {blk} {m} fuel f F opened one_opener enough =
    let (fs₁, e₁, G) =
      release_chain_lem fs blk m F.layout fuel 0 fs (nothing-Freed fs inode blk m f F opened)
        (omega arith) (omega arith) in
    let (fs₂, e₂, back) = head_given fs fs₁ inode blk m F G in
    (fs₂, close_run fuel fs fs₁ fs₂ inode blk m F one_opener e₁ e₂, back)
