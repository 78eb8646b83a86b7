-- ===== src/Inode/Fill.antt =====
-- The end of byte_to_sector of filesys/inode.c: what it does to the layout when it fills a hole.
use mathlib.Core.Bool.{false≢true}
use native.Mathlib.Decide.{ℕ_discrete}
use utcs.Prelude.{
  ℕ, suc, ◌/◌, ◌%◌, ◌≤◌, ◌<◌, ◌≡◌, refl, sym, ap, ◌∙◌, ◌≢◌, Bool, true, false, some, arith, ◌==◌,
  if◌then◌else◌, length, get_or, ==_refl, ==_iff, subst, ne→==_false, length-set, lt→ltb,
  length-replicate, get_or-replicate,
}
use utcs.FreeMap.{FreeMap}
use utcs.FreeMap.Alloc.{used, IsDenied}
use utcs.FreeMap.Room.{room}
use utcs.Disk.{
  Fs, Sector, bytes, index, index_block_size, block_sector_size, zeros, store, block_write,
}
use utcs.Inode.{place}
use utcs.Inode.Layout.{
  Blocks, slot, owner, is_hole, plain, slot_byte, IsBlock, Managed, Outside, Layout, block_ne,
  with_slot_self, with_slot_next, filled, slot-filled, owner-filled,
}

-- What filling slot `g` keeps: `fs'` and `blk'` are the device and the file afterwards, `s` the
-- sector of the slot.
pub record Fills (fs : Fs) (blk : Blocks) (m g : ℕ) (fs' : Fs) (blk' : Blocks) (s : ℕ)
    : Type 0 where
  pub layout : Layout fs' blk' m
  pub managed : Managed fs'
  pub same_device : fs'.sectors ≡ fs.sectors
  pub names : slot blk' g ≡ s
  pub present : is_hole blk' g ≡ false
  pub other_slots : (h : ℕ) → h ≢ g → slot blk' h ≡ slot blk h
  pub selfs : (k : ℕ) → (blk' k).self ≡ (blk k).self
  pub same_bytes :
      (h k : ℕ) → h / index_block_size ≤ m → slot_byte fs' blk' h k ≡ slot_byte fs blk h k
  pub frame :
      (t : ℕ)
      → used fs.free t ≡ true
      → ((k : ℕ) → k ≤ m → t ≢ (blk k).self)
      → fs'.disk t ≡ fs.disk t
  pub still_used : (t : ℕ) → used fs.free t ≡ true → used fs'.free t ≡ true
  pub outside : (t : ℕ) → used fs.free t ≡ true → Outside blk m t → Outside blk' m t
  pub spent : room fs.free ≤ suc (room fs'.free)
  pub writable : IsDenied fs'.free.file → IsDenied fs.free.file

-- A hole at slot `g` and a free sector `f` for it.
module _ (fs : Fs) (blk : Blocks) (m g f : ℕ) (free : FreeMap) (l : Layout fs blk m)
    (at : g / index_block_size ≤ m) (unused : used fs.free f ≡ false) (inside : f < fs.sectors)
    (now : (j : ℕ) → used free j ≡ (if j == f then true else used fs.free j)) where
  -- The device afterwards.
  abbrev pub filled_fs : Fs
  filled_fs = record {
    free = free;
    sectors = fs.sectors;
    disk =
        store (store fs.disk f (bytes zeros)) (owner blk g)
          (index (filled blk g f (g / index_block_size)));
  }

  ne_used : (t : ℕ) → used fs.free t ≡ true → (t == f) ≡ false
  ne_used t h = elim (ℕ_discrete t f) [
    | yes e ↦ absurd (false≢true (sym unused ∙ subst (λ (x : ℕ). used fs.free x ≡ true) e h))
    | no ne ↦ ne→==_false t f ne
  ]

  used-owner : used fs.free (owner blk g) ≡ true
  unfolding owner
  used-owner = l.in_use (g / index_block_size) at

  disk_new : filled_fs.disk f ≡ bytes zeros
  disk_new = rw (ne→==_false f (owner blk g) (λ e. unequal (sym e)), ==_refl f)
    where
      unequal : owner blk g ≢ f
      unequal e = false≢true (sym (ne_used (owner blk g) used-owner) ∙ (==_iff _ _).1 e)

  disk_other :
      (t : ℕ) → used fs.free t ≡ true → (t == owner blk g) ≡ false → filled_fs.disk t ≡ fs.disk t
  disk_other t h ne = rw (ne, ne_used t h)

  on_disk' : (k : ℕ) → k ≤ m → filled_fs.disk (filled blk g f k).self ≡ index (filled blk g f k)
  unfolding owner
  on_disk' k h = elim (ℕ_discrete k (g / index_block_size)) [
    | yes e ↦ rw (e, ==_refl (g / index_block_size), ==_refl (blk (g / index_block_size)).self)
    | no ne ↦
        rw
          (
            ne→==_false k (g / index_block_size) ne,
            ne→==_false (blk k).self (blk (g / index_block_size)).self
                (λ e. ne (l.distinct k (g / index_block_size) h at e)),
            ne_used (blk k).self (l.in_use k h),
          )
          (l.on_disk k h)
  ]

  slot' : (h : ℕ) → slot (filled blk g f) h ≡ (if h == g then f else slot blk h)
  slot' h = slot-filled blk g f h (l.width (g / index_block_size) at)

  hole' : (h : ℕ) → h ≢ g → is_hole (filled blk g f) h ≡ is_hole blk h
  hole' h ne = rw (slot' h, ne→==_false h g ne, owner-filled blk g f h)

  present' : is_hole (filled blk g f) g ≡ false
  present' =
      rw (slot' g, ==_refl g, owner-filled blk g f g)
        (ne→==_false f (owner blk g)
          (λ e. false≢true (sym (ne_used (owner blk g) used-owner) ∙ (==_iff _ _).1 (sym e))))

  -- A block of bytes other than the new one is where it was.
  kept : (s : ℕ) → IsBlock fs s → filled_fs.disk s ≡ fs.disk s
  unfolding owner
  kept s b = disk_other s b.in_use (block_ne s (g / index_block_size) l b at)

  kept-IsBlock : (s : ℕ) → IsBlock fs s → IsBlock filled_fs s
  kept-IsBlock s b = record {
    inside = b.inside;
    in_use = rw (now s, ne_used s b.in_use) b.in_use;
    kind = rw (kept s b) b.kind;
    full = rw (kept s b) b.full;
  }

  new-IsBlock : IsBlock filled_fs f
  new-IsBlock = record {
    inside = inside;
    in_use = rw (now f, ==_refl f);
    kind = rw disk_new;
    full = rw disk_new (length-replicate {A = ℕ} block_sector_size 0);
  }

  slots_in' :
      (h : ℕ)
      → h / index_block_size ≤ m
      → is_hole (filled blk g f) h ≡ false
      → IsBlock filled_fs (slot (filled blk g f) h)
  slots_in' h p q = elim (ℕ_discrete h g) [
    | yes e ↦ rw (slot' h, (==_iff h g).1 e) new-IsBlock
    | no ne ↦
        rw (slot' h, ne→==_false h g ne)
          (kept-IsBlock (slot blk h) (l.slots_in h p (sym (hole' h ne) ∙ q)))
  ]

  -- No slot of the file named the new sector.
  fresh_slot :
      (h : ℕ) → h / index_block_size ≤ m → is_hole blk h ≡ false → (slot blk h == f) ≡ false
  fresh_slot h p q = ne_used (slot blk h) (l.slots_in h p q).in_use

  apart' :
      (a b : ℕ)
      → a / index_block_size ≤ m
      → b / index_block_size ≤ m
      → is_hole (filled blk g f) a ≡ false
      → is_hole (filled blk g f) b ≡ false
      → slot (filled blk g f) a ≡ slot (filled blk g f) b
      → a ≡ b
  apart' a b pa pb qa qb e = elim (ℕ_discrete a g) [
    | yes ea ↦ elim (ℕ_discrete b g) [
      | yes eb ↦ ea ∙ sym eb
      | no nb ↦ absurd (clash b nb pb qb (sym e ∙ slot' a ∙ rw ((==_iff a g).1 ea)))
    ]
    | no na ↦ elim (ℕ_discrete b g) [
      | yes eb ↦ absurd (clash a na pa qa (e ∙ slot' b ∙ rw ((==_iff b g).1 eb)))
      | no nb ↦
          l.apart a b pa pb (sym (hole' a na) ∙ qa) (sym (hole' b nb) ∙ qb)
            (sym (old a na) ∙ e ∙ old b nb)
    ]
  ]
    where
      old : (h : ℕ) → h ≢ g → slot (filled blk g f) h ≡ slot blk h
      old h ne = slot' h ∙ rw (ne→==_false h g ne)

      clash :
          (h : ℕ)
          → h ≢ g
          → h / index_block_size ≤ m
          → is_hole (filled blk g f) h ≡ false
          → slot (filled blk g f) h ≡ f
          → ⊥
      clash h ne p q e =
          false≢true
            (sym (fresh_slot h p (sym (hole' h ne) ∙ q)) ∙ (==_iff _ _).1 (sym (old h ne) ∙ e))

  width' : (k : ℕ) → k ≤ m → length (filled blk g f k).slots ≡ index_block_size
  width' k h = elim (ℕ_discrete k (g / index_block_size)) [
    | yes e ↦ rw ((==_iff k (g / index_block_size)).1 e) (
        length-set (blk (g / index_block_size)).slots (g % index_block_size) f
        ∙ l.width (g / index_block_size) at)
    | no ne ↦ rw (ne→==_false k (g / index_block_size) ne) (l.width k h)
  ]

  self' : (k : ℕ) → (filled blk g f k).self ≡ (blk k).self
  self' k = with_slot_self blk (g / index_block_size) (g % index_block_size) f k

  next' : (k : ℕ) → (filled blk g f k).next ≡ (blk k).next
  next' k = with_slot_next blk (g / index_block_size) (g % index_block_size) f k

  layout' : Layout filled_fs (filled blk g f) m
  layout' = record {
    on_disk = on_disk';
    inside = λ k h. subst (λ (x : ℕ). x < fs.sectors) (sym (self' k)) (l.inside k h);
    in_use = λ k h.
        subst (λ (x : ℕ). used free x ≡ true) (sym (self' k))
          (now (blk k).self ∙ rw (ne_used (blk k).self (l.in_use k h)) (l.in_use k h));
    linked = λ k h. next' k ∙ l.linked k h ∙ sym (self' (suc k));
    ended = next' m ∙ l.ended ∙ sym (self' m);
    distinct = λ j k p q e. l.distinct j k p q (sym (self' j) ∙ e ∙ self' k);
    width = width';
    slots_in = slots_in';
    apart = apart';
  }

  -- The bytes of the file are as they were: the hole read as zeros, and its sector holds zeros.
  same_bytes' :
      is_hole blk g ≡ true
      → (h k : ℕ) → h / index_block_size ≤ m
      → slot_byte filled_fs (filled blk g f) h k ≡ slot_byte fs blk h k
  unfolding slot_byte
  same_bytes' hole h k p = elim (ℕ_discrete h g) [
    | yes e ↦
        rw (e, present', hole, slot' g, ==_refl g, disk_new)
          (get_or-replicate {A = ℕ} block_sector_size k 0)
    | no ne ↦ rw (hole' h ne) (by_hole (is_hole blk h) refl ne)
  ]
    where
      by_hole :
          (c : Bool)
          → is_hole blk h ≡ c
          → h ≢ g
          → (if c then 0 else get_or (plain (filled_fs.disk (slot (filled blk g f) h))) k 0)
            ≡ (if c then 0 else get_or (plain (fs.disk (slot blk h))) k 0)
      by_hole true e ne = refl
      by_hole false e ne =
          ap (λ (x : Sector). get_or (plain x) k 0)
            (ap filled_fs.disk (slot' h ∙ rw (ne→==_false h g ne))
              ∙ kept (slot blk h) (l.slots_in h p e))

  outside' : (t : ℕ) → used fs.free t ≡ true → Outside blk m t → Outside (filled blk g f) m t
  outside' t h o = record {
    no_block = λ k p e. o.no_block k p (e ∙ self' k);
    no_slot = λ a p q e. elim (ℕ_discrete a g) [
      | yes ea ↦ absurd (
          false≢true
            (sym (ne_used t h) ∙ (==_iff t f).1 (e ∙ slot' a ∙ rw ((==_iff a g).1 ea) refl)))
      | no na ↦ o.no_slot a p (sym (hole' a na) ∙ q) (e ∙ slot' a ∙ rw (ne→==_false a g na) refl)
    ];
  }

  pub fills' :
      is_hole blk g ≡ true
      → Managed filled_fs
      → room fs.free ≡ suc (room free)
      → (IsDenied free.file → IsDenied fs.free.file)
      → Fills fs blk m g filled_fs (filled blk g f) f
  unfolding owner
  fills' hole managed fewer writable = record {
    layout = layout';
    managed = managed;
    same_device = refl;
    names = slot' g ∙ rw (==_refl g);
    present = present';
    other_slots = λ h ne. slot' h ∙ rw (ne→==_false h g ne);
    selfs = self';
    same_bytes = same_bytes' hole;
    frame = λ t h ne. disk_other t h (ne→==_false t _ (ne (g / index_block_size) at));
    still_used = λ t h. now t ∙ rw (ne_used t h) h;
    outside = outside';
    spent = omega arith;
    writable = writable;
  }

  -- The two writes that follow an allocation are inside the device.
  pub place_lem :
      place (record fs { free = free }) (blk (g / index_block_size)) (g % index_block_size) (some f)
      ≡ some (filled_fs, f)
  unfolding place block_write owner
  place_lem = rw (
    lt→ltb f fs.sectors inside,
    lt→ltb _ fs.sectors (l.inside (g / index_block_size) at),
    ==_refl (g / index_block_size),
  )
