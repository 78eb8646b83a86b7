-- ===== src/Inode/Extend.antt =====
-- One more index block at the end of a file, as inode_write_at of filesys/inode.c adds it.
use mathlib.Core.Bool.{false≢true}
use native.Mathlib.Decide.{ℕ_discrete}
use native.Mathlib.Nat.{mod-lt}
use utcs.Prelude.{
  ℕ, suc, ◌/◌, ◌%◌, ◌≤◌, ◌<◌, ◌≡◌, ◌≢◌, refl, sym, ap, ◌∙◌, Bool, true, false, List, arith, ◌==◌,
  if◌then◌else◌, length, get_or, ==_refl, ne→==_false, subst, length-replicate, get_or-replicate_in,
}
use utcs.FreeMap.{FreeMap}
use utcs.FreeMap.Alloc.{used}
use utcs.Disk.{Fs, Sector, index, IndexBlock, index_block_size, store}
use utcs.Inode.{index_block_init}
use utcs.Inode.Layout.{
  Blocks, slot, owner, is_hole, plain, slot_byte, IsBlock, Layout, block_ne, Outside,
}

-- A file and a free sector `f` for its next index block.
module _ (fs : Fs) (blk : Blocks) (m f : ℕ) (free : FreeMap) (l : Layout fs blk m)
    (unused : used fs.free f ≡ false) (inside : f < fs.sectors)
    (now : (j : ℕ) → used free j ≡ (if j == f then true else used fs.free j)) where
  abbrev pub last_linked : IndexBlock
  last_linked = record (blk m) { next = f }

  abbrev pub extended : Blocks
  extended k = if k == suc m then index_block_init f else (if k == m then last_linked else blk k)

  abbrev pub extended_fs : Fs
  extended_fs = record {
    free = free;
    sectors = fs.sectors;
    disk = store (store fs.disk (blk m).self (index last_linked)) f (index (index_block_init f));
  }

  ne_new : (t : ℕ) → used fs.free t ≡ true → t ≢ f
  ne_new t h e = false≢true (sym unused ∙ subst (λ (x : ℕ). used fs.free x ≡ true) e h)

  pub disk_kept :
      (t : ℕ) → used fs.free t ≡ true → t ≢ (blk m).self → extended_fs.disk t ≡ fs.disk t
  disk_kept t h ne = rw (ne→==_false t f (ne_new t h), ne→==_false t (blk m).self ne)

  pub new_block : extended (suc m) ≡ index_block_init f
  new_block = rw (==_refl (suc m))

  pub last_block : extended m ≡ last_linked
  last_block = rw (ne→==_false m (suc m) (λ e. omega arith), ==_refl m)

  old_block : (k : ℕ) → k < m → extended k ≡ blk k
  old_block k h = rw (ne→==_false k (suc m) (λ e. omega arith), ne→==_false k m (λ e. omega arith))

  pub old_self : (k : ℕ) → k ≤ m → (extended k).self ≡ (blk k).self
  old_self k h = elim (ℕ_discrete k m) [
    | yes e ↦ rw e (ap (λ (b : IndexBlock). b.self) last_block)
    | no ne ↦ ap (λ (b : IndexBlock). b.self) (old_block k (omega arith))
  ]

  old_slots : (k : ℕ) → k ≤ m → (extended k).slots ≡ (blk k).slots
  old_slots k h = elim (ℕ_discrete k m) [
    | yes e ↦ rw e (ap (λ (b : IndexBlock). b.slots) last_block)
    | no ne ↦ ap (λ (b : IndexBlock). b.slots) (old_block k (omega arith))
  ]

  pub new_self : (extended (suc m)).self ≡ f
  unfolding index_block_init
  new_self = ap (λ (b : IndexBlock). b.self) new_block

  -- A block of the longer file is the new one or an old one.
  by_block : {P : ℕ → Type 0} → P (suc m) → ((k : ℕ) → k ≤ m → P k) → (k : ℕ) → k ≤ suc m → P k
  by_block {P} here before k h = elim (ℕ_discrete k (suc m)) [
    | yes e ↦ subst P (sym e) here
    | no ne ↦ before k (omega arith)
  ]

  old_on_disk : (k : ℕ) → k ≤ m → extended_fs.disk (extended k).self ≡ index (extended k)
  old_on_disk k h = elim (ℕ_discrete k m) [
    | yes e ↦ rw (
      e,
      old_self m (omega arith),
      last_block,
      ne→==_false (blk m).self f (ne_new (blk m).self (l.in_use m (omega arith))),
      ==_refl (blk m).self,
    )
    | no ne ↦
        ap extended_fs.disk (old_self k h)
        ∙ disk_kept (blk k).self (l.in_use k h) (λ e. ne (l.distinct k m h (omega arith) e))
        ∙ l.on_disk k h
        ∙ ap index (sym (old_block k (omega arith)))
  ]

  new_on_disk : extended_fs.disk (extended (suc m)).self ≡ index (extended (suc m))
  new_on_disk = ap extended_fs.disk new_self ∙ rw (==_refl f) (ap index (sym new_block))

  pub still : (t : ℕ) → used fs.free t ≡ true → used free t ≡ true
  still t h = now t ∙ rw (ne→==_false t f (ne_new t h)) h

  pub old_slot : (g : ℕ) → g / index_block_size ≤ m → slot extended g ≡ slot blk g
  unfolding slot
  old_slot g h =
      ap (λ (xs : List ℕ). get_or xs (g % index_block_size) 0) (old_slots (g / index_block_size) h)

  pub old_hole : (g : ℕ) → g / index_block_size ≤ m → is_hole extended g ≡ is_hole blk g
  unfolding owner
  old_hole g h = rw (old_slot g h, old_self (g / index_block_size) h)

  new_slot : (g : ℕ) → g / index_block_size ≡ suc m → slot extended g ≡ f
  unfolding slot index_block_init
  new_slot g e =
      ap (λ (b : IndexBlock). get_or b.slots (g % index_block_size) 0) (ap extended e ∙ new_block)
      ∙ get_or-replicate_in index_block_size (g % index_block_size) f 0 (mod-lt g (omega arith))

  new_owner : (g : ℕ) → g / index_block_size ≡ suc m → owner extended g ≡ f
  unfolding owner index_block_init
  new_owner g e = ap (λ (b : IndexBlock). b.self) (ap extended e ∙ new_block)

  -- Every slot of the new block is a hole.
  pub new_hole : (g : ℕ) → g / index_block_size ≡ suc m → is_hole extended g ≡ true
  new_hole g e = rw (new_slot g e, new_owner g e) (==_refl f)

  -- A slot that has its sector is a slot of an old block.
  in_old :
      (g : ℕ) → g / index_block_size ≤ suc m → is_hole extended g ≡ false → g / index_block_size ≤ m
  in_old g h present = elim (ℕ_discrete (g / index_block_size) (suc m)) [
    | yes e ↦ absurd (false≢true (sym present ∙ new_hole g e))
    | no ne ↦ omega arith
  ]

  sector_kept : (t : ℕ) → IsBlock fs t → extended_fs.disk t ≡ fs.disk t
  sector_kept t b =
      disk_kept t b.in_use (λ e. absurd (ground (arith, block_ne t m l b (omega arith), e)))

  kept-IsBlock : (t : ℕ) → IsBlock fs t → IsBlock extended_fs t
  kept-IsBlock t b = record {
    inside = b.inside;
    in_use = still t b.in_use;
    kind = rw (sector_kept t b) b.kind;
    full = rw (sector_kept t b) b.full;
  }

  old_present :
      (g : ℕ) → g / index_block_size ≤ m → is_hole extended g ≡ false → is_hole blk g ≡ false
  old_present g h present = sym (old_hole g h) ∙ present

  new_distinct :
      (j : ℕ) → j ≤ suc m → (k : ℕ) → k ≤ suc m → (extended j).self ≡ (extended k).self → j ≡ k
  new_distinct =
      by_block {P = λ j. (k : ℕ) → k ≤ suc m → (extended j).self ≡ (extended k).self → j ≡ k}
        (by_block {P = λ k. (extended (suc m)).self ≡ (extended k).self → suc m ≡ k} (λ e. refl)
          λ k h e.
            absurd (ne_new (blk k).self (l.in_use k h) (sym (old_self k h) ∙ sym e ∙ new_self)))
        λ j hj.
          by_block {P = λ k. (extended j).self ≡ (extended k).self → j ≡ k}
            (λ e. absurd (ne_new (blk j).self (l.in_use j hj) (sym (old_self j hj) ∙ e ∙ new_self)))
            λ k hk e. l.distinct j k hj hk (sym (old_self j hj) ∙ e ∙ old_self k hk)

  new_linked : (k : ℕ) → k < suc m → (extended k).next ≡ (extended (suc k)).self
  new_linked k h = elim (ℕ_discrete k m) [
    | yes e ↦ rw e (ap (λ (b : IndexBlock). b.next) last_block ∙ sym new_self)
    | no ne ↦
        ap (λ (b : IndexBlock). b.next) (old_block k (omega arith))
        ∙ l.linked k (omega arith)
        ∙ sym (old_self (suc k) (omega arith))
  ]

  new_ended : (extended (suc m)).next ≡ (extended (suc m)).self
  unfolding index_block_init
  new_ended = ap (λ (b : IndexBlock). b.next) new_block ∙ sym new_self

  new_width : length (extended (suc m)).slots ≡ index_block_size
  unfolding index_block_init
  new_width =
      ap (λ (b : IndexBlock). length b.slots) new_block
      ∙ length-replicate {A = ℕ} index_block_size f

  pub extended-Layout : Layout extended_fs extended (suc m)
  extended-Layout = record {
    on_disk =
        by_block {P = λ k. extended_fs.disk (extended k).self ≡ index (extended k)} new_on_disk
          old_on_disk;
    inside =
        by_block {P = λ k. (extended k).self < fs.sectors} (rw new_self inside)
          λ k h. rw (old_self k h) (l.inside k h);
    in_use =
        by_block {P = λ k. used free (extended k).self ≡ true}
          (rw new_self (now f ∙ rw (==_refl f)))
          λ k h. rw (old_self k h) (still (blk k).self (l.in_use k h));
    linked = new_linked;
    ended = new_ended;
    distinct = λ j k hj hk. new_distinct j hj k hk;
    width =
        by_block {P = λ k. length (extended k).slots ≡ index_block_size} new_width
          λ k h. ap (λ (xs : List ℕ). length xs) (old_slots k h) ∙ l.width k h;
    slots_in = λ g h present.
        let old = in_old g h present in
        rw (old_slot g old)
          (kept-IsBlock (slot blk g) (l.slots_in g old (old_present g old present)));
    apart = λ a b ha hb pa pb e.
        let oa = in_old a ha pa in
        let ob = in_old b hb pb in
        l.apart a b oa ob (old_present a oa pa) (old_present b ob pb)
          (sym (old_slot a oa) ∙ e ∙ old_slot b ob);
  }

  -- The bytes of the old blocks are as they were, those of the new block are zeros.
  pub old_byte :
      (g k : ℕ)
      → g / index_block_size ≤ m
      → slot_byte extended_fs extended g k ≡ slot_byte fs blk g k
  unfolding slot_byte
  old_byte g k h = rw (old_hole g h) (by_hole (is_hole blk g) refl)
    where
      by_hole :
          (c : Bool)
          → is_hole blk g ≡ c
          → (if c then 0 else get_or (plain (extended_fs.disk (slot extended g))) k 0)
            ≡ (if c then 0 else get_or (plain (fs.disk (slot blk g))) k 0)
      by_hole true e = refl
      by_hole false e =
          ap (λ (x : Sector). get_or (plain x) k 0)
            (ap extended_fs.disk (old_slot g h) ∙ sector_kept (slot blk g) (l.slots_in g h e))

  pub new_byte : (g k : ℕ) → g / index_block_size ≡ suc m → slot_byte extended_fs extended g k ≡ 0
  unfolding slot_byte
  new_byte g k e = rw (new_hole g e)

  pub extended-Outside :
      (t : ℕ) → used fs.free t ≡ true → Outside blk m t → Outside extended (suc m) t
  extended-Outside t h o = record {
    no_block =
        by_block {P = λ k. t ≢ (extended k).self} (λ e. ne_new t h (e ∙ new_self))
          λ k p e. o.no_block k p (e ∙ old_self k p);
    no_slot = λ g p present e.
        let old = in_old g p present in
        o.no_slot g old (old_present g old present) (e ∙ old_slot g old);
  }
