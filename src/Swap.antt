-- ===== src/Swap.antt =====
-- vm/swap.c of CS439/Project3: pages that were sent from memory to the swap device. A page is eight
-- pieces of a sector each; memory is the pieces of each frame. The lock makes each operation one
-- step.
pub mod Transfer
pub mod RoundTrip
mod Examples
use utcs.Prelude.{
  ℕ, zero, suc, ◌+◌, ◌*◌, ◌%◌, ◌^◌, Bool, true, false, List, Option, none, some, ◌==◌, ltb,
  if◌then◌else◌, ◌>>=◌, ◌>>◌, check,
}
use utcs.Bitmap.{Bitmap, scan_and_flip, put}
use utcs.Pages.{Spte}

-- The bytes of one sector.
abbrev pub Piece : Type 0
Piece = List ℕ

-- `slot_map` and `swap`
pub record SwapArea : Type 0 where
  pub slot_map : Bitmap
  pub sectors : ℕ → Piece
  pub size : ℕ

-- The pieces of each frame, by its address.
abbrev pub Memory : Type 0
Memory = ℕ → ℕ → Piece

-- A block_sector_t and a size_t have 32 bits.
abbrev pub word : ℕ → ℕ
word n = n % 2 ^ 32

-- The loop of mem_to_swap from `i` on; a sector outside the device is a panic of block_write.
pub write_pieces :
    (size : ℕ) (page : ℕ → Piece) (rounds i sector : ℕ) → (ℕ → Piece) → Option (ℕ → Piece)
write_pieces size page zero i sector d = some d
write_pieces size page (suc rounds) i sector d =
    check (ltb (word (sector + i)) size)
    >> write_pieces size page rounds (i + 1) sector
        (λ x. if x == word (sector + i) then page i else d x)

-- mem_to_swap
pub mem_to_swap : SwapArea → Memory → Spte → Option (SwapArea × Spte)
unfolding write_pieces
mem_to_swap a memory entry = do
  (slots, sector) ← scan_and_flip a.slot_map 0 1 false
  paddr ← entry.paddr
  d ← write_pieces a.size (memory paddr) 8 0 (word (sector * 8)) a.sectors
  some (
    record a { slot_map = slots; sectors = d },
    record entry { sector_offset = sector; swap = true },
  )

-- The loop of swap_to_mem from `i` on.
pub read_pieces :
    (size : ℕ) (d : ℕ → Piece) (rounds i sector : ℕ) → (ℕ → Piece) → Option (ℕ → Piece)
read_pieces size d zero i sector page = some page
read_pieces size d (suc rounds) i sector page =
    check (ltb (word (sector + i)) size)
    >> read_pieces size d rounds (i + 1) sector
        (λ x. if x == i then d (word (sector + i)) else page x)

-- swap_to_mem
pub swap_to_mem : SwapArea → Memory → Spte → Option (SwapArea × Memory × Spte)
unfolding read_pieces
swap_to_mem a memory entry = do
  paddr ← entry.paddr
  page ← read_pieces a.size a.sectors 8 0 (word (entry.sector_offset * 8)) (memory paddr)
  slots ← put a.slot_map entry.sector_offset false
  some (
    record a { slot_map = slots },
    (λ p. if p == paddr then page else memory p),
    record entry { swap = false },
  )

-- free_swap
pub free_swap : SwapArea → Spte → Option SwapArea
free_swap a entry = do
  slots ← put a.slot_map entry.sector_offset false
  some (record a { slot_map = slots })
