-- ===== src/Inode/Patch.antt =====
-- One data sector of a file written over, as inode_write_at of filesys/inode.c does it.
use native.Mathlib.Decide.{ℕ_discrete}
use utcs.Prelude.{
  ℕ, ◌+◌, ◌-◌, ◌/◌, ◌≤◌, ◌<◌, ◌≡◌, ◌≢◌, refl, ap, ◌∙◌, Bool, true, false, List, some, arith, ◌==◌,
  ◌&&◌, ◌||◌, ltb, if◌then◌else◌, length, get_or, ==_refl, ne→==_false, lt→ltb, Bool-cases, inl,
  inr,
}
use utcs.Bitmap.Ranges.{within}
use utcs.Disk.{
  Fs, Sector, bytes, index_block_size, block_sector_size, store, block_write, block_read,
  read_bytes,
}
use utcs.Inode.{merge}
use utcs.Inode.Layout.{Blocks, slot, is_hole, plain, slot_byte, IsBlock, Layout, block_ne}
use utcs.Inode.Splice.{splice, length-splice, get_or-splice}

module _ (fs : Fs) (blk : Blocks) (m g : ℕ) (l : Layout fs blk m) (at : g / index_block_size ≤ m)
    (present : is_hole blk g ≡ false) (new : List ℕ) (w : length new ≡ block_sector_size) where
  abbrev pub patched : Fs
  patched = record fs { disk = store fs.disk (slot blk g) (bytes new) }

  pub other_sector : (t : ℕ) → t ≢ slot blk g → patched.disk t ≡ fs.disk t
  other_sector t ne = rw (ne→==_false t (slot blk g) ne)

  this_sector : patched.disk (slot blk g) ≡ bytes new
  this_sector = rw (==_refl (slot blk g))

  self_ne : (k : ℕ) → k ≤ m → (blk k).self ≢ slot blk g
  self_ne k h e = absurd (ground (arith, block_ne (slot blk g) k l (l.slots_in g at present) h, e))

  patched-IsBlock : (t : ℕ) → IsBlock fs t → IsBlock patched t
  patched-IsBlock t b = elim (ℕ_discrete t (slot blk g)) [
    | yes e ↦ record {
      inside = b.inside;
      in_use = b.in_use;
      kind = rw (e, this_sector);
      full = rw (e, this_sector) w;
    }
    | no ne ↦ record {
      inside = b.inside;
      in_use = b.in_use;
      kind = rw (other_sector t ne) b.kind;
      full = rw (other_sector t ne) b.full;
    }
  ]

  pub patched-Layout : Layout patched blk m
  patched-Layout = record {
    on_disk = λ k h. other_sector (blk k).self (self_ne k h) ∙ l.on_disk k h;
    inside = l.inside;
    in_use = l.in_use;
    linked = l.linked;
    ended = l.ended;
    distinct = l.distinct;
    width = l.width;
    slots_in = λ h p q. patched-IsBlock (slot blk h) (l.slots_in h p q);
    apart = l.apart;
  }

  pub slot_byte-patched :
      (h k : ℕ)
      → h / index_block_size ≤ m
      → slot_byte patched blk h k ≡ (if h == g then get_or new k 0 else slot_byte fs blk h k)
  unfolding slot_byte
  slot_byte-patched h k p = elim (ℕ_discrete h g) [
    | yes e ↦ rw (e, present, ==_refl g, ==_refl (slot blk g))
    | no ne ↦ rw (ne→==_false h g ne) (by_hole (is_hole blk h) refl ne)
  ]
    where
      by_hole :
          (c : Bool)
          → is_hole blk h ≡ c
          → h ≢ g
          → (if c then 0 else get_or (plain (patched.disk (slot blk h))) k 0)
            ≡ (if c then 0 else get_or (plain (fs.disk (slot blk h))) k 0)
      by_hole true e ne = refl
      by_hole false e ne =
          ap (λ (x : Sector). get_or (plain x) k 0)
            (other_sector (slot blk h) (λ same. ne (l.apart h g p at e present same)))

  pub block_write-patched : block_write fs (slot blk g) (bytes new) ≡ some patched
  unfolding block_write
  block_write-patched = rw (lt→ltb _ _ (l.slots_in g at present).inside)

-- What is written to the sector: the piece at its place, and round it what was there.
pub merge_lem :
    (fs : Fs) (s ofs chunk : ℕ) (piece : List ℕ)
    → IsBlock fs s
    → length piece ≡ chunk
    → ofs + chunk ≤ block_sector_size
    → (new : List ℕ) × (merge fs s ofs chunk piece ≡ some new)
      × (length new ≡ block_sector_size)
      × ((k : ℕ)
          → k < block_sector_size
          → get_or new k 0 ≡ (
              if within ofs chunk k
              then get_or piece (k - ofs) 0
              else get_or (plain (fs.disk s)) k 0))
unfolding merge read_bytes block_read
merge_lem fs s ofs chunk piece b w fits =
    elim (Bool-cases (ofs == 0 && chunk == block_sector_size)) [
      | inl whole ↦ (
        piece,
        rw whole refl,
        w ∙ ground (arith, whole),
        λ k h. ground (arith, whole, same_place (k - ofs) k),
      )
      | inr part ↦ (
        splice (plain (fs.disk s)) piece ofs,
        rw (part, needs_old part, lt→ltb _ _ b.inside, b.kind, ← w) refl,
        length-splice (plain (fs.disk s)) piece ofs (omega (arith, b.full)) ∙ b.full,
        λ k h. rw (← w) (get_or-splice (plain (fs.disk s)) piece ofs k (omega (arith, b.full))),
      )
    ]
  where
    needs_old :
        (ofs == 0 && chunk == block_sector_size) ≡ false
        → (ltb 0 ofs || ltb chunk (block_sector_size - ofs)) ≡ true
    needs_old part = ground arith

    same_place : (i j : ℕ) → i ≡ j → get_or piece i 0 ≡ get_or piece j 0
    same_place i j e = ap (λ (x : ℕ). get_or piece x 0) e
