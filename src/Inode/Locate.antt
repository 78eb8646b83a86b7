-- ===== src/Inode/Locate.antt =====
-- byte_to_sector of filesys/inode.c: the sector of a position, which is there, or is made.
use native.Mathlib.Nat.{mod-lt}
use utcs.Prelude.{
  ℕ, zero, suc, ◌+◌, ◌/◌, ◌%◌, ◌≤◌, ◌<◌, ◌≡◌, refl, ap, ◌∙◌, Bool, true, false, Option, none, some,
  arith, ◌==◌, get_elem?, lt→ltb, ◌⊎◌, inl, inr, Bool-cases, get_elem?-eq-get_or,
}
use utcs.FreeMap.{FreeMap}
use utcs.FreeMap.Alloc.{IsDenied}
use utcs.FreeMap.Room.{room, Took, got, full, allocate_one}
use utcs.Disk.{Fs, index_block_size, take_sector, read_index, no_sector, block_read}
use utcs.Inode.{fill, place, walk}
use utcs.Inode.Layout.{Blocks, slot, owner, is_hole, filled, Managed, Layout}
use utcs.Inode.Fill.{Fills, filled_fs, fills', place_lem}

-- Slot `g` has its sector: it was there, or a free one was found for it.
abbrev pub Found : Fs → Blocks → (m g : ℕ) → (fs' : Fs) → (s : ℕ) → Type 0
Found fs blk m g fs' s = (blk' : Blocks) × Fills fs blk m g fs' blk' s

-- No sector could be had: none is free, or the map cannot be written.
abbrev pub Starved : Fs → Type 0
Starved fs = (IsDenied fs.free.file) ⊎ (room fs.free ≡ 0)

same_Fills :
    (fs : Fs) (blk : Blocks) (m g : ℕ)
    → Layout fs blk m
    → Managed fs
    → is_hole blk g ≡ false
    → Fills fs blk m g fs blk (slot blk g)
same_Fills fs blk m g l managed present = record {
  layout = l;
  managed = managed;
  same_device = refl;
  names = refl;
  present = present;
  other_slots = λ h ne. refl;
  selfs = λ k. refl;
  same_bytes = λ h k p. refl;
  frame = λ t h ne. refl;
  still_used = λ t h. h;
  outside = λ t h o. o;
  spent = omega arith;
  writable = λ d. d;
}

pub take_sector_lem :
    (fs : Fs)
    → Managed fs
    → (free : FreeMap) × (r : Option ℕ) × (take_sector fs ≡ some (record fs { free = free }, r))
      × Took fs.free free r
      × Managed (record fs { free = free })
      × (IsDenied free.file → IsDenied fs.free.file)
unfolding take_sector
take_sector_lem fs m =
    let (free, r, e, took, sound, size, d) = allocate_one fs.free m.sound in
    (free, r, rw e, took, record { sound = sound; covers = size ∙ m.covers }, d)

module _ (fs : Fs) (blk : Blocks) (m g : ℕ) (l : Layout fs blk m) (managed : Managed fs)
    (at : g / index_block_size ≤ m) where
  read_slot :
      get_elem? (blk (g / index_block_size)).slots (g % index_block_size) ≡ some (slot blk g)
  unfolding slot
  read_slot =
      get_elem?-eq-get_or (blk (g / index_block_size)).slots (g % index_block_size) 0
        (rw (l.width (g / index_block_size) at) (mod-lt g (omega arith)))

  names_itself :
      {c : Bool} → is_hole blk g ≡ c → (slot blk g == (blk (g / index_block_size)).self) ≡ c
  unfolding owner
  names_itself e = e

  -- What the end of byte_to_sector returns.
  abbrev pub Filled : Option (Fs × ℕ) → Type 0
  Filled run =
      (fs' : Fs) × (s : ℕ) × (run ≡ some (fs', s))
      × (Found fs blk m g fs' s ⊎ (Starved fs × (s ≡ no_sector)))

  after_take :
      (free : FreeMap) (r : Option ℕ)
      → is_hole blk g ≡ true
      → Took fs.free free r
      → Managed (record fs { free = free })
      → (IsDenied free.file → IsDenied fs.free.file)
      → Filled
          (place (record fs { free = free }) (blk (g / index_block_size)) (g % index_block_size) r)
  unfolding place
  after_take free none hole (full why) managed' d =
      (record fs { free = free }, no_sector, refl, inr (why, refl))
  after_take free (some f) hole (got _ lt unused now fewer) managed' d = (
    filled_fs fs blk m g f free l at unused inside now,
    f,
    place_lem fs blk m g f free l at unused inside now,
    inl (
      filled blk g f,
      fills' fs blk m g f free l at unused inside now hole
          (record { sound = managed'.sound; covers = managed'.covers }) fewer d,
    ),
  )
    where
      inside : f < fs.sectors
      inside = omega (arith, managed.covers)

  -- Where the slot has its sector, that is the end of byte_to_sector.
  pub fill_present :
      is_hole blk g ≡ false
      → fill fs (blk (g / index_block_size)) (g % index_block_size) ≡ some (fs, slot blk g)
  unfolding fill
  fill_present e = rw (read_slot, names_itself e)

  -- The end of byte_to_sector, at the index block of slot `g`.
  pub fill_lem : Filled (fill fs (blk (g / index_block_size)) (g % index_block_size))
  unfolding fill
  fill_lem = elim (Bool-cases (is_hole blk g)) [
    | inr e ↦ (fs, slot blk g, fill_present e, inl (blk, same_Fills fs blk m g l managed e))
    | inl e ↦
        let (free, r, taken, took, managed', d) = take_sector_lem fs managed in
        rw (read_slot, names_itself e, taken) (after_take free r e took managed' d)
  ]

  pub walk_lem : (rounds k : ℕ) → k + rounds ≤ m → walk rounds fs (blk k) ≡ some (blk (k + rounds))
  unfolding walk read_index block_read
  walk_lem zero k h = ap some (ap blk (omega arith))
  walk_lem (suc rounds) k h =
      rw
        (
          l.linked k (omega arith),
          lt→ltb _ _ (l.inside (suc k) (omega arith)),
          l.on_disk (suc k) (omega arith),
          walk_lem rounds (suc k) (omega arith),
        )
        (ap some (ap blk (omega arith)))
