-- ===== src/Inode/Grow.antt =====
-- How a file grows in filesys/inode.c: index blocks are added until there are enough.
use native.Mathlib.Decide.{dec_le}
use utcs.Prelude.{
  ℕ, zero, suc, ◌+◌, ◌-◌, ◌/◌, ◌≤◌, ◌<◌, ◌≡◌, refl, sym, ap, ◌∙◌, Bool, true, false, Option, none,
  some, arith, ◌==◌, if◌then◌else◌, inl, inr, lt→ltb, ==_refl,
}
use utcs.FreeMap.{FreeMap}
use utcs.FreeMap.Alloc.{used, IsDenied}
use utcs.FreeMap.Room.{room, Took, got, full}
use utcs.Disk.{Fs, index_block_size, block_write, block_read, read_index, take_sector}
use utcs.Inode.{Inode, index_block_init, add_blocks}
use utcs.Inode.Layout.{Blocks, slot_byte, Managed, Outside}
use utcs.Inode.Locate.{take_sector_lem}
use utcs.Inode.File.{IsFile}
use utcs.Inode.Write.{head-Outside}
use utcs.Inode.Extend.{
  extended, extended_fs, extended-Layout, old_byte, new_byte, extended-Outside, disk_kept, still,
  old_self, new_self, new_block,
}

-- From `(fs, blk, m)` to `(fs', blk', m')` a file got more index blocks: the bytes of the old ones
-- are as they were, those of the new ones are zeros, and no sector in use outside the file was
-- written.
pub record Grows (fs : Fs) (blk : Blocks) (m : ℕ) (fs' : Fs) (blk' : Blocks) (m' : ℕ) : Type 0 where
  pub longer : m ≤ m'
  pub old_bytes :
      (g k : ℕ) → g / index_block_size ≤ m → slot_byte fs' blk' g k ≡ slot_byte fs blk g k
  pub new_bytes :
      (g k : ℕ) → m < g / index_block_size → g / index_block_size ≤ m' → slot_byte fs' blk' g k ≡ 0
  pub frame : (t : ℕ) → used fs.free t ≡ true → Outside blk m t → fs'.disk t ≡ fs.disk t
  pub outside : (t : ℕ) → used fs.free t ≡ true → Outside blk m t → Outside blk' m' t
  pub still_used : (t : ℕ) → used fs.free t ≡ true → used fs'.free t ≡ true
  pub spent : room fs.free ≡ m' - m + room fs'.free
  pub writable : IsDenied fs'.free.file → IsDenied fs.free.file

pub Grows-refl : (fs : Fs) (blk : Blocks) (m : ℕ) → Grows fs blk m fs blk m
Grows-refl fs blk m = record {
  longer = omega arith;
  old_bytes = λ g k h. refl;
  new_bytes = λ g k h p. absurd (omega arith);
  frame = λ t u o. refl;
  outside = λ t u o. o;
  still_used = λ t u. u;
  spent = omega arith;
  writable = λ d. d;
}

Grows-trans :
    {fs fs₁ fs₂ : Fs} {blk blk₁ blk₂ : Blocks} {m m₁ m₂ : ℕ}
    → Grows fs blk m fs₁ blk₁ m₁
    → Grows fs₁ blk₁ m₁ fs₂ blk₂ m₂
    → Grows fs blk m fs₂ blk₂ m₂
Grows-trans {m₁ = m₁} p q = record {
  longer = omega (arith, p.longer, q.longer);
  old_bytes = λ g k h. q.old_bytes g k (omega (arith, p.longer)) ∙ p.old_bytes g k h;
  new_bytes = λ g k h at. elim (dec_le (g / index_block_size) m₁) [
    | yes early ↦ q.old_bytes g k early ∙ p.new_bytes g k h early
    | no late ↦ q.new_bytes g k (omega arith) at
  ];
  frame = λ t u o. q.frame t (p.still_used t u) (p.outside t u o) ∙ p.frame t u o;
  outside = λ t u o. q.outside t (p.still_used t u) (p.outside t u o);
  still_used = λ t u. q.still_used t (p.still_used t u);
  spent = omega (arith, p.spent, q.spent, p.longer, q.longer);
  writable = λ d. p.writable (q.writable d);
}

-- The inode with another last block.
abbrev pub ending_at : Inode → ℕ → Inode
ending_at inode e = record inode { on_disk = record inode.on_disk { end = e } }

-- One index block more.
module _ (fs : Fs) (inode : Inode) (blk : Blocks) (m f : ℕ) (free : FreeMap)
    (F : IsFile fs inode blk m) (unused : used fs.free f ≡ false) (inside : f < fs.sectors)
    (now : (j : ℕ) → used free j ≡ (if j == f then true else used fs.free j)) where
  add_block_step :
      (rounds : ℕ)
      → take_sector fs ≡ some (record fs { free = free }, some f)
      → add_blocks (suc rounds) fs inode (blk m)
        ≡ add_blocks rounds
            (extended_fs fs blk m f free F.layout unused inside now)
            (ending_at inode f)
            (index_block_init f)
  unfolding add_blocks block_write read_index block_read
  add_block_step rounds taken = rw (
    taken,
    ← F.ends,
    lt→ltb _ _ (F.layout.inside m (omega arith)),
    lt→ltb _ _ inside,
    ==_refl f,
    lt→ltb _ _ inside,
  )

  extended-Grows :
      room fs.free ≡ suc (room free)
      → (IsDenied free.file → IsDenied fs.free.file)
      → Grows fs blk m
          (extended_fs fs blk m f free F.layout unused inside now)
          (extended fs blk m f free F.layout unused inside now)
          (suc m)
  extended-Grows fewer writable = record {
    longer = omega arith;
    old_bytes = old_byte fs blk m f free F.layout unused inside now;
    new_bytes = λ g k h at. new_byte fs blk m f free F.layout unused inside now g k (omega arith);
    frame = λ t u o.
        disk_kept fs blk m f free F.layout unused inside now t u (o.no_block m (omega arith));
    outside = extended-Outside fs blk m f free F.layout unused inside now;
    still_used = still fs blk m f free F.layout unused inside now;
    spent = omega arith;
    writable = writable;
  }

  extended-IsFile :
      Managed (record fs { free = free })
      → IsFile
          (extended_fs fs blk m f free F.layout unused inside now)
          (ending_at inode f)
          (extended fs blk m f free F.layout unused inside now)
          (suc m)
  extended-IsFile managed = record {
    layout = extended-Layout fs blk m f free F.layout unused inside now;
    managed = record { sound = managed.sound; covers = managed.covers };
    starts = old_self fs blk m f free F.layout unused inside now 0 (omega arith) ∙ F.starts;
    ends = new_self fs blk m f free F.layout unused inside now;
    long_enough = omega (arith, F.long_enough);
    head = F.head;
    headed =
        disk_kept fs blk m f free F.layout unused inside now inode.sector F.head_used
          ((head-Outside F).no_block m (omega arith))
        ∙ F.headed;
    head_inside = F.head_inside;
    head_used = still fs blk m f free F.layout unused inside now inode.sector F.head_used;
  }

-- A run that added `rounds` index blocks.
abbrev Adds : Fs → Inode → Blocks → (m rounds : ℕ) → Option (Fs × Inode × Bool) → Type 0
Adds fs inode blk m rounds run =
    (fs' : Fs) × (e : ℕ) × (blk' : Blocks) × (m' : ℕ) × (run ≡ some (fs', ending_at inode e, true))
    × (m' ≡ m + rounds)
    × Grows fs blk m fs' blk' m'
    × IsFile fs' (ending_at inode e) blk' m'

-- The rounds that are left when a block was added.
abbrev Rest : (m rounds : ℕ) → Type 0
Rest m rounds =
    (fs₁ : Fs) (inode₁ : Inode) (blk₁ : Blocks)
    → IsFile fs₁ inode₁ blk₁ (suc m)
    → rounds ≤ room fs₁.free
    → ¬ IsDenied fs₁.free.file
    → Adds fs₁ inode₁ blk₁ (suc m) rounds (add_blocks rounds fs₁ inode₁ (blk₁ (suc m)))

add_blocks_round :
    (rounds : ℕ) (fs : Fs) (inode : Inode) (blk : Blocks) (m : ℕ) (free : FreeMap) (r : Option ℕ)
    → IsFile fs inode blk m
    → suc rounds ≤ room fs.free
    → ¬ IsDenied fs.free.file
    → take_sector fs ≡ some (record fs { free = free }, r)
    → Took fs.free free r
    → Managed (record fs { free = free })
    → (IsDenied free.file → IsDenied fs.free.file)
    → Rest m rounds
    → Adds fs inode blk m (suc rounds) (add_blocks (suc rounds) fs inode (blk m))
add_blocks_round rounds fs inode blk m free none F enough ok e (full (inl d)) managed w rest =
    absurd (ok d)
add_blocks_round rounds fs inode blk m free none F enough ok e (full (inr empty)) managed w rest =
    absurd (omega arith)
add_blocks_round rounds fs inode blk m free (some f) F enough ok e (got _ lt unused now fewer)
      managed w rest =
    let inside : f < fs.sectors = omega (arith, F.managed.covers) in
    let (fs', last, blk', m', run, width, grows, F') =
      rest (extended_fs fs blk m f free F.layout unused inside now) (ending_at inode f)
        (extended fs blk m f free F.layout unused inside now)
        (extended-IsFile fs inode blk m f free F unused inside now managed) (omega arith)
        (λ d. ok (w d)) in
    (
      fs',
      last,
      blk',
      m',
      add_block_step fs inode blk m f free F unused inside now rounds e
          ∙ ap
              (add_blocks rounds (extended_fs fs blk m f free F.layout unused inside now)
                (ending_at inode f))
              (sym (new_block fs blk m f free F.layout unused inside now))
          ∙ run,
      omega arith,
      Grows-trans (extended-Grows fs inode blk m f free F unused inside now fewer w) grows,
      F',
    )

pub add_blocks_lem :
    (rounds : ℕ) (fs : Fs) (inode : Inode) (blk : Blocks) (m : ℕ)
    → IsFile fs inode blk m
    → rounds ≤ room fs.free
    → ¬ IsDenied fs.free.file
    → Adds fs inode blk m rounds (add_blocks rounds fs inode (blk m))
unfolding add_blocks
add_blocks_lem zero fs inode blk m F enough ok =
    (fs, inode.on_disk.end, blk, m, refl, omega arith, Grows-refl fs blk m, F)
add_blocks_lem (suc rounds) fs inode blk m F enough ok =
    let (free, r, e, took, managed, w) = take_sector_lem fs F.managed in
    add_blocks_round rounds fs inode blk m free r F enough ok e took managed w
      λ fs₁ inode₁ blk₁ F₁ enough₁ ok₁. add_blocks_lem rounds fs₁ inode₁ blk₁ (suc m) F₁ enough₁ ok₁
