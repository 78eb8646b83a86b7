-- ===== src/Inode/Head.antt =====
-- The write of an inode to its own sector, in inode_write_at of filesys/inode.c.
use utcs.Prelude.{
  ℕ, ◌+◌, ◌*◌, ◌/◌, ◌≤◌, ◌≡◌, ◌≢◌, refl, sym, ap, ◌∙◌, Bool, true, false, some, if◌then◌else◌,
  get_or, ==_refl, ne→==_false, lt→ltb,
}
use utcs.Disk.{Fs, Sector, header, InodeDisk, index_block_size, store, block_write}
use utcs.Inode.{Inode, span}
use utcs.Inode.Layout.{Blocks, slot, is_hole, plain, slot_byte, IsBlock, Layout}
use utcs.Inode.File.{IsFile, head_apart}

module _ (fs : Fs) (inode : Inode) (blk : Blocks) (m : ℕ) (F : IsFile fs inode blk m)
    (h : InodeDisk) where
  abbrev pub headed_fs : Fs
  headed_fs = record fs { disk = store fs.disk inode.sector (header h) }

  pub elsewhere : (t : ℕ) → t ≢ inode.sector → headed_fs.disk t ≡ fs.disk t
  elsewhere t ne = rw (ne→==_false t inode.sector ne)

  block_elsewhere : (t : ℕ) → IsBlock fs t → t ≢ inode.sector
  block_elsewhere t b e = cc (F.headed, b.kind, ap fs.disk e)

  headed-IsBlock : (t : ℕ) → IsBlock fs t → IsBlock headed_fs t
  headed-IsBlock t b = record {
    inside = b.inside;
    in_use = b.in_use;
    kind = rw (elsewhere t (block_elsewhere t b)) b.kind;
    full = rw (elsewhere t (block_elsewhere t b)) b.full;
  }

  headed-Layout : Layout headed_fs blk m
  headed-Layout = record {
    on_disk = λ k p. elsewhere (blk k).self (λ e. head_apart F k p (sym e)) ∙ F.layout.on_disk k p;
    inside = F.layout.inside;
    in_use = F.layout.in_use;
    linked = F.layout.linked;
    ended = F.layout.ended;
    distinct = F.layout.distinct;
    width = F.layout.width;
    slots_in = λ g p q. headed-IsBlock (slot blk g) (F.layout.slots_in g p q);
    apart = F.layout.apart;
  }

  pub slot_byte-headed :
      (g k : ℕ) → g / index_block_size ≤ m → slot_byte headed_fs blk g k ≡ slot_byte fs blk g k
  unfolding slot_byte
  slot_byte-headed g k p = by_hole (is_hole blk g) refl
    where
      by_hole :
          (c : Bool)
          → is_hole blk g ≡ c
          → (if c then 0 else get_or (plain (headed_fs.disk (slot blk g))) k 0)
            ≡ (if c then 0 else get_or (plain (fs.disk (slot blk g))) k 0)
      by_hole true e = refl
      by_hole false e =
          ap (λ (x : Sector). get_or (plain x) k 0)
            (elsewhere (slot blk g) (block_elsewhere (slot blk g) (F.layout.slots_in g p e)))

  pub headed-IsFile :
      h.start ≡ inode.on_disk.start
      → h.end ≡ inode.on_disk.end
      → h.size ≤ span * (m + 1)
      → IsFile headed_fs (record inode { on_disk = h }) blk m
  headed-IsFile start end enough = record {
    layout = headed-Layout;
    managed = record { sound = F.managed.sound; covers = F.managed.covers };
    starts = F.starts ∙ sym start;
    ends = F.ends ∙ sym end;
    long_enough = enough;
    head = h;
    headed = rw (==_refl inode.sector);
    head_inside = F.head_inside;
    head_used = F.head_used;
  }

  pub block_write-headed : block_write fs inode.sector (header h) ≡ some headed_fs
  unfolding block_write
  block_write-headed = rw (lt→ltb _ _ F.head_inside)
