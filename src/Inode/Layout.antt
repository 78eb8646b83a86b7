-- ===== src/Inode/Layout.antt =====
-- How filesys/inode.c lays a file out on the device, seen as a numbered row of index blocks: block
-- 0 at `start`, each naming the next, the last naming itself; slot `g` of the file is slot
-- `g % 126` of block `g / 126`, and holds bytes `512 * g` to `512 * g + 511`.
use utcs.Prelude.{
  ℕ, suc, ◌/◌, ◌%◌, ◌≤◌, ◌<◌, ◌≡◌, ◌≢◌, ap, Bool, true, false, List, [], arith, ◌==◌, if◌then◌else◌,
  length, get_or, set, get_or-set_self, get_or-set_ne, ==_refl, ne→==_false,
}
use native.Mathlib.Decide.{ℕ_discrete}
use native.Mathlib.Nat.{mod-lt}
use utcs.FreeMap.Alloc.{used, IsSound}
use utcs.Disk.{Fs, Sector, bytes, index, IndexBlock, index_block_size, block_sector_size}

abbrev pub Blocks : Type 0
Blocks = ℕ → IndexBlock

-- The sector that slot `g` names, and the index block that the slot is in.
unfoldable pub slot : Blocks → ℕ → ℕ
slot blk g = get_or (blk (g / index_block_size)).slots (g % index_block_size) 0

unfoldable pub owner : Blocks → ℕ → ℕ
owner blk g = (blk (g / index_block_size)).self

-- A slot that names its own index block has no sector: its bytes are zeros.
abbrev pub is_hole : Blocks → ℕ → Bool
is_hole blk g = slot blk g == owner blk g

abbrev pub plain : Sector → List ℕ
plain (bytes bs) = bs
plain _ = []

-- Byte `k` of slot `g`.
unfoldable pub slot_byte : Fs → Blocks → (g k : ℕ) → ℕ
slot_byte fs blk g k = if is_hole blk g then 0 else get_or (plain (fs.disk (slot blk g))) k 0

pub slot_byte_present :
    (fs : Fs) (blk : Blocks) (g k : ℕ)
    → is_hole blk g ≡ false
    → get_or (plain (fs.disk (slot blk g))) k 0 ≡ slot_byte fs blk g k
unfolding slot_byte
slot_byte_present fs blk g k present = rw present

-- Byte `pos` of the file.
unfoldable pub byte_at : Fs → Blocks → ℕ → ℕ
byte_at fs blk pos = slot_byte fs blk (pos / block_sector_size) (pos % block_sector_size)

-- Sector `s` is in use and holds a sector's worth of bytes.
pub record IsBlock (fs : Fs) (s : ℕ) : Type 0 where
  pub inside : s < fs.sectors
  pub in_use : used fs.free s ≡ true
  pub kind : fs.disk s ≡ bytes (plain (fs.disk s))
  pub full : length (plain (fs.disk s)) ≡ block_sector_size

-- The map covers the device and is sound.
pub record Managed (fs : Fs) : Type 0 where
  pub sound : IsSound fs.free
  pub covers : fs.free.map.bit_cnt ≡ fs.sectors

-- The blocks `blk 0`, ..., `blk m` are a file's chain on the device.
pub record Layout (fs : Fs) (blk : Blocks) (m : ℕ) : Type 0 where
  pub on_disk : (k : ℕ) → k ≤ m → fs.disk (blk k).self ≡ index (blk k)
  pub inside : (k : ℕ) → k ≤ m → (blk k).self < fs.sectors
  pub in_use : (k : ℕ) → k ≤ m → used fs.free (blk k).self ≡ true
  pub linked : (k : ℕ) → k < m → (blk k).next ≡ (blk (suc k)).self
  pub ended : (blk m).next ≡ (blk m).self
  pub distinct : (j k : ℕ) → j ≤ m → k ≤ m → (blk j).self ≡ (blk k).self → j ≡ k
  pub width : (k : ℕ) → k ≤ m → length (blk k).slots ≡ index_block_size
  pub slots_in :
      (g : ℕ) → g / index_block_size ≤ m → is_hole blk g ≡ false → IsBlock fs (slot blk g)
  pub apart :
      (g h : ℕ)
      → g / index_block_size ≤ m
      → h / index_block_size ≤ m
      → is_hole blk g ≡ false
      → is_hole blk h ≡ false
      → slot blk g ≡ slot blk h
      → g ≡ h

-- Sector `t` is no index block of the file and no slot of it names `t`.
pub record Outside (blk : Blocks) (m t : ℕ) : Type 0 where
  pub no_block : (k : ℕ) → k ≤ m → t ≢ (blk k).self
  pub no_slot : (g : ℕ) → g / index_block_size ≤ m → is_hole blk g ≡ false → t ≢ slot blk g

-- A sector of bytes is no index block of the file.
pub block_ne :
    {fs : Fs} {blk : Blocks} {m : ℕ} (s k : ℕ)
    → Layout fs blk m
    → IsBlock fs s
    → k ≤ m
    → (s == (blk k).self) ≡ false
block_ne {fs} {blk} s k l b h = ground (arith, l.on_disk k h, b.kind, same s (blk k).self)
  where
    same : (s t : ℕ) → s ≡ t → fs.disk s ≡ fs.disk t
    same s t e = ap fs.disk e

-- Block `k` with slot `i` made `f`.
abbrev pub with_slot : Blocks → (k i f : ℕ) → Blocks
with_slot blk k i f j = if j == k then record (blk k) { slots = set (blk k).slots i f } else blk j

pub with_slot_self : (blk : Blocks) (k i f j : ℕ) → (with_slot blk k i f j).self ≡ (blk j).self
with_slot_self blk k i f j = ground arith

pub with_slot_next : (blk : Blocks) (k i f j : ℕ) → (with_slot blk k i f j).next ≡ (blk j).next
with_slot_next blk k i f j = ground arith

abbrev pub filled : Blocks → (g f : ℕ) → Blocks
filled blk g = with_slot blk (g / index_block_size) (g % index_block_size)

pub slot-filled :
    (blk : Blocks) (g f h : ℕ)
    → length (blk (g / index_block_size)).slots ≡ index_block_size
    → slot (filled blk g f) h ≡ (if h == g then f else slot blk h)
unfolding slot
slot-filled blk g f h w = elim (ℕ_discrete h g) [
  | yes e ↦
      rw (e, ==_refl g, ==_refl (g / index_block_size))
        (get_or-set_self (blk (g / index_block_size)).slots (g % index_block_size) f 0
          (rw w (mod-lt g (omega arith))))
  | no ne ↦
      rw (ne→==_false h g ne) (elim (ℕ_discrete (h / index_block_size) (g / index_block_size)) [
        | yes e ↦
            rw (e, ==_refl (g / index_block_size))
              (get_or-set_ne (blk (g / index_block_size)).slots (g % index_block_size)
                (h % index_block_size) f 0 (λ r. ne (omega arith)))
        | no other ↦ rw (ne→==_false _ _ other)
      ])
]

pub owner-filled : (blk : Blocks) (g f h : ℕ) → owner (filled blk g f) h ≡ owner blk h
unfolding owner
owner-filled blk g f h = with_slot_self blk _ _ f _
