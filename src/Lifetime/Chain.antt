-- ===== src/Lifetime/Chain.antt =====
-- inode_close of filesys/inode.c on a removed file: which sectors it has given back so far.
use mathlib.Core.Bool.{false≢true}
use native.Mathlib.Decide.{ℕ_discrete}
use utcs.Prelude.{
  ℕ, suc, ◌/◌, ◌≤◌, ◌<◌, ◌≡◌, ◌≢◌, refl, sym, ◌∙◌, Bool, true, false, some, arith, ◌==◌,
  if◌then◌else◌, subst, ==_refl, ne→==_false,
}
use utcs.Bitmap.Ranges.{within}
use utcs.FreeMap.{FreeMap, MapFile}
use utcs.FreeMap.Alloc.{used}
use utcs.FreeMap.Release.{release_lem}
use utcs.Disk.{Fs, index_block_size, give_sector}
use utcs.Inode.Layout.{Blocks, slot, is_hole, Managed, Layout, block_ne}

-- Giving one sector back.
pub give_sector_lem :
    (fs : Fs) (s : ℕ) (f : MapFile)
    → Managed fs
    → fs.free.file ≡ some f
    → s < fs.sectors
    → used fs.free s ≡ true
    → (free : FreeMap) × (give_sector fs s ≡ some (record fs { free = free }))
      × Managed (record fs { free = free })
      × ((f' : MapFile) × (free.file ≡ some f'))
      × ((j : ℕ) → used free j ≡ (if j == s then false else used fs.free j))
unfolding give_sector
give_sector_lem fs s f m open_file inside in_use =
    let (free, e, out) =
      release_lem s 1 m.sound open_file (omega (arith, m.covers))
        (λ k p q. let at : k ≡ s = omega arith in rw at in_use) in
    (
      free,
      rw e,
      record { sound = out.sound; covers = out.same_size ∙ m.covers },
      out.still_open,
      λ j. out.freed j ∙ one j (used fs.free j),
    )
  where
    one : (j : ℕ) (x : Bool) → (if within s 1 j then false else x) ≡ (if j == s then false else x)
    one j x = ground arith

-- In `fs` the slots before `g` and the index blocks before `k` of a file of `fs₀` are free, and
-- nothing else has changed.
pub record Freed (fs₀ : Fs) (blk : Blocks) (m g k : ℕ) (fs : Fs) : Type 0 where
  pub same_disk : fs.disk ≡ fs₀.disk
  pub same_device : fs.sectors ≡ fs₀.sectors
  pub managed : Managed fs
  pub open_file : (f : MapFile) × (fs.free.file ≡ some f)
  pub slots_free :
      (h : ℕ)
      → h < g
      → h / index_block_size ≤ m
      → is_hole blk h ≡ false
      → used fs.free (slot blk h) ≡ false
  pub blocks_free : (j : ℕ) → j < k → j ≤ m → used fs.free (blk j).self ≡ false
  pub kept :
      (t : ℕ)
      → used fs₀.free t ≡ true
      → ((h : ℕ) → h < g → h / index_block_size ≤ m → is_hole blk h ≡ false → t ≢ slot blk h)
      → ((j : ℕ) → j < k → j ≤ m → t ≢ (blk j).self)
      → used fs.free t ≡ true
  pub none_taken : (t : ℕ) → used fs₀.free t ≡ false → used fs.free t ≡ false

module _ (fs₀ : Fs) (blk : Blocks) (m : ℕ) (l : Layout fs₀ blk m) where
  block_no_slot :
      (h k : ℕ)
      → h / index_block_size ≤ m
      → is_hole blk h ≡ false
      → k ≤ m
      → slot blk h ≢ (blk k).self
  block_no_slot h k at present in_chain e =
      absurd (ground (arith, block_ne (slot blk h) k l (l.slots_in h at present) in_chain, e))

  pub gone :
      {before now : Bool} (j s : ℕ)
      → now ≡ (if j == s then false else before)
      → before ≡ false
      → now ≡ false
  gone j s law e = ground (arith, law, e)

  -- Slot `g` has a sector, which is given back.
  pub free_slot :
      (g k : ℕ) (fs : Fs)
      → Freed fs₀ blk m g k fs
      → g / index_block_size ≤ m
      → is_hole blk g ≡ false
      → k ≤ m
      → (fs' : Fs) × (give_sector fs (slot blk g) ≡ some fs') × Freed fs₀ blk m (suc g) k fs'
  free_slot g k fs F at present in_chain =
      let b = l.slots_in g at present in
      let in_use : used fs.free (slot blk g) ≡ true =
        F.kept (slot blk g) b.in_use
          (λ h p q r e. absurd (omega (arith, l.apart g h at q present r e)))
          (λ j p q. block_no_slot g j at present q) in
      let (f, opened) = F.open_file in
      let (free, e, managed, still_open, now) =
        give_sector_lem fs (slot blk g) f F.managed opened (omega (arith, b.inside, F.same_device))
          in_use in
      (
        record fs { free = free },
        e,
        record {
          same_disk = F.same_disk;
          same_device = F.same_device;
          managed = managed;
          open_file = still_open;
          slots_free = λ h p q r. elim (ℕ_discrete h g) [
            | yes eh ↦ rw eh (now (slot blk g) ∙ rw (==_refl (slot blk g)) refl)
            | no ne ↦
                gone (slot blk h) (slot blk g) (now (slot blk h)) (F.slots_free h (omega arith) q r)
          ];
          blocks_free =
              λ j p q. gone (blk j).self (slot blk g) (now (blk j).self) (F.blocks_free j p q);
          kept = λ t u no_slot no_block.
              now t
              ∙ rw (ne→==_false t (slot blk g) (no_slot g (omega arith) at present))
                  (F.kept t u (λ h p. no_slot h (omega arith)) no_block);
          none_taken = λ t u. gone t (slot blk g) (now t) (F.none_taken t u);
        },
      )

  -- Slot `g` is a hole.
  pub skip_slot :
      (g k : ℕ) (fs : Fs)
      → Freed fs₀ blk m g k fs
      → is_hole blk g ≡ true
      → Freed fs₀ blk m (suc g) k fs
  skip_slot g k fs F hole = record {
    same_disk = F.same_disk;
    same_device = F.same_device;
    managed = F.managed;
    open_file = F.open_file;
    slots_free = λ h p q r. elim (ℕ_discrete h g) [
      | yes eh ↦ absurd (false≢true (sym r ∙ subst (λ (x : ℕ). is_hole blk x ≡ true) (sym eh) hole))
      | no ne ↦ F.slots_free h (omega arith) q r
    ];
    blocks_free = F.blocks_free;
    kept = λ t u no_slot no_block. F.kept t u (λ h p. no_slot h (omega arith)) no_block;
    none_taken = F.none_taken;
  }

  -- Index block `k` is given back.
  pub free_block :
      (g k : ℕ) (fs : Fs)
      → Freed fs₀ blk m g k fs
      → k ≤ m
      → (fs' : Fs) × (give_sector fs (blk k).self ≡ some fs') × Freed fs₀ blk m g (suc k) fs'
  free_block g k fs F in_chain =
      let in_use : used fs.free (blk k).self ≡ true =
        F.kept (blk k).self (l.in_use k in_chain)
          (λ h p q r e. block_no_slot h k q r in_chain (sym e))
          (λ j p q e. absurd (omega (arith, l.distinct k j in_chain q e))) in
      let (f, opened) = F.open_file in
      let (free, e, managed, still_open, now) =
        give_sector_lem fs (blk k).self f F.managed opened
          (omega (arith, l.inside k in_chain, F.same_device)) in_use in
      (
        record fs { free = free },
        e,
        record {
          same_disk = F.same_disk;
          same_device = F.same_device;
          managed = managed;
          open_file = still_open;
          slots_free =
              λ h p q r. gone (slot blk h) (blk k).self (now (slot blk h)) (F.slots_free h p q r);
          blocks_free = λ j p q. elim (ℕ_discrete j k) [
            | yes ej ↦ rw ej (now (blk k).self ∙ rw (==_refl (blk k).self) refl)
            | no ne ↦
                gone (blk j).self (blk k).self (now (blk j).self) (F.blocks_free j (omega arith) q)
          ];
          kept = λ t u no_slot no_block.
              now t
              ∙ rw (ne→==_false t (blk k).self (no_block k (omega arith) in_chain))
                  (F.kept t u no_slot (λ j p. no_block j (omega arith)));
          none_taken = λ t u. gone t (blk k).self (now t) (F.none_taken t u);
        },
      )
