-- ===== src/Swap/RoundTrip.antt =====
-- A page goes to the swap device and comes back: vm/swap.c of CS439/Project3.
use utcs.Prelude.{
  ℕ, ◌+◌, ◌-◌, ◌*◌, ◌^◌, ◌≤◌, ◌<◌, ◌≡◌, refl, ◌∙◌, ap, Bool, true, false, some, ◌==◌, ==_iff,
  if◌then◌else◌, arith,
}
use utcs.Bitmap.{Bitmap, scan_and_flip, put}
use utcs.Bitmap.Bits.{IsValid, holds, put_lem}
use utcs.Bitmap.Ranges.{PutsRange}
use utcs.Bitmap.Scan.{Flipped, flipped, unchanged, scan_and_flip_lem}
use utcs.Pages.{Spte}
use utcs.Swap.{Piece, SwapArea, Memory, word, write_pieces, mem_to_swap, read_pieces, swap_to_mem}
use utcs.Swap.Transfer.{word_small, among, write_pieces_lem, read_pieces_lem}

-- The map is well formed and the device has the sectors of every slot.
pub record IsArea (a : SwapArea) : Type 0 where
  pub valid : IsValid a.slot_map
  pub room : a.slot_map.bit_cnt * 8 ≤ a.size
  pub small : a.size ≤ 2 ^ 32

-- Is the slot taken?
abbrev pub taken : SwapArea → (slot : ℕ) → Bool
taken a slot = holds a.slot_map slot

-- `page` was put into `slot`, which was free; the pages of the other slots stay.
pub record Stored (a : SwapArea) (page : ℕ → Piece) (slot : ℕ) (a' : SwapArea) : Type 0 where
  pub area : IsArea a'
  pub inside : slot < a'.slot_map.bit_cnt
  pub was_free : taken a slot ≡ false
  pub slots : (s : ℕ) → taken a' s ≡ (if s == slot then true else taken a s)
  pub pieces : (i : ℕ) → i < 8 → a'.sectors (slot * 8 + i) ≡ page i
  pub others :
      (s i : ℕ) → (s == slot) ≡ false → i < 8 → a'.sectors (s * 8 + i) ≡ a.sectors (s * 8 + i)

module _ (a : SwapArea) (area : IsArea a) (page : ℕ → Piece) where
  stored :
      (slots : Bitmap) (slot : ℕ) (d : ℕ → Piece)
      → slot + 1 ≤ a.slot_map.bit_cnt
      → holds a.slot_map slot ≡ false
      → PutsRange a.slot_map slot 1 true slots
      → ((x : ℕ)
          → d x ≡ (
              if among (slot * 8 + 0) (slot * 8 + 0 + 8) x
              then page (x - slot * 8)
              else a.sectors x))
      → Stored a page slot (record a { slot_map = slots; sectors = d })
  stored slots slot d in_map free p s = record {
    area = record { valid = p.valid; room = rw p.same_size area.room; small = area.small };
    inside = rw p.same_size (omega arith);
    was_free = free;
    slots = λ t. p.others t ∙ ground arith;
    pieces = λ i h.
        let at : slot * 8 + i - slot * 8 ≡ i = omega arith in
        s (slot * 8 + i) ∙ rw at (ground arith);
    others = λ t i ne h. s (t * 8 + i) ∙ ground arith;
  }

-- The entry of a page that is in the slot.
abbrev pub in_slot : Spte → (slot : ℕ) → Spte
in_slot entry slot = record entry { sector_offset = slot; swap = true }

mem_to_swap_ran :
    (a : SwapArea) (memory : Memory) (entry : Spte) (p slot : ℕ) (slots : Bitmap) (d : ℕ → Piece)
    → scan_and_flip a.slot_map 0 1 false ≡ some (slots, slot)
    → entry.paddr ≡ some p
    → word (slot * 8) ≡ slot * 8
    → write_pieces a.size (memory p) 8 0 (slot * 8) a.sectors ≡ some d
    → mem_to_swap a memory entry
      ≡ some (record a { slot_map = slots; sectors = d }, in_slot entry slot)
unfolding mem_to_swap
mem_to_swap_ran a memory entry p slot slots d e m w r = simp (e, m, w, r)

-- mem_to_swap, where a slot is free.
pub mem_to_swap_lem :
    (a : SwapArea) (memory : Memory) (entry : Spte) (p free : ℕ)
    → IsArea a
    → entry.paddr ≡ some p
    → free < a.slot_map.bit_cnt
    → taken a free ≡ false
    → (a' : SwapArea) × (slot : ℕ) × (mem_to_swap a memory entry ≡ some (a', in_slot entry slot))
      × Stored a (memory p) slot a'
mem_to_swap_lem a memory entry p free area m in_map is_free =
    let (slots, slot, e, f) =
      scan_and_flip_lem {b = a.slot_map} 0 1 false area.valid (omega arith) in
    act slots slot e f
  where
    act :
        (slots : Bitmap) (slot : ℕ)
        → scan_and_flip a.slot_map 0 1 false ≡ some (slots, slot)
        → Flipped a.slot_map 0 1 false slots slot
        → (a' : SwapArea) × (slot : ℕ) × (mem_to_swap a memory entry
            ≡ some (a', in_slot entry slot))
          × Stored a (memory p) slot a'
    act slots slot e (flipped le fits run first puts) =
        let bound = area.room in
        let (d, r, s) =
          write_pieces_lem a.size (memory p) 8 0 (slot * 8) a.sectors (omega (arith, fits, bound))
            area.small in
        (
          record a { slot_map = slots; sectors = d },
          slot,
          mem_to_swap_ran a memory entry p slot slots d e m
              (word_small (slot * 8) (omega (arith, fits, bound, area.small))) r,
          stored a area (memory p) slots slot d fits (run slot (omega arith) (omega arith)) puts s,
        )
    act slots slot e (unchanged err same no_run) = absurd (
        no_run free (omega arith) (omega arith)
          (λ k lo hi. let same_slot : k ≡ free = omega arith in rw same_slot is_free))

-- `page` was read from `slot`, which is free again.
pub record Fetched (a : SwapArea) (slot : ℕ) (a' : SwapArea) (page : ℕ → Piece) : Type 0 where
  pub slots : (s : ℕ) → taken a' s ≡ (if s == slot then false else taken a s)
  pub pieces : (i : ℕ) → i < 8 → page i ≡ a.sectors (slot * 8 + i)
  pub sectors : a'.sectors ≡ a.sectors

-- The memory with another page in the frame.
abbrev pub with_page : Memory → (frame : ℕ) → (ℕ → Piece) → Memory
with_page memory frame page p = if p == frame then page else memory p

swap_to_mem_ran :
    (a : SwapArea) (memory : Memory) (entry : Spte) (p : ℕ) (slots : Bitmap) (page : ℕ → Piece)
    → entry.paddr ≡ some p
    → word (entry.sector_offset * 8) ≡ entry.sector_offset * 8
    → read_pieces a.size a.sectors 8 0 (entry.sector_offset * 8) (memory p) ≡ some page
    → put a.slot_map entry.sector_offset false ≡ some slots
    → swap_to_mem a memory entry
      ≡ some (record a { slot_map = slots }, with_page memory p page, record entry { swap = false })
unfolding swap_to_mem
swap_to_mem_ran a memory entry p slots page m w r e = simp (m, w, r, e)

-- swap_to_mem, for a page in a slot of the map.
pub swap_to_mem_lem :
    (a : SwapArea) (memory : Memory) (entry : Spte) (p : ℕ)
    → IsArea a
    → entry.paddr ≡ some p
    → entry.sector_offset < a.slot_map.bit_cnt
    → (a' : SwapArea) × (page : ℕ → Piece) × (swap_to_mem a memory entry
        ≡ some (a', with_page memory p page, record entry { swap = false }))
      × Fetched a entry.sector_offset a' page
swap_to_mem_lem a memory entry p area m in_map =
    let slot = entry.sector_offset in
    let bound = area.room in
    let (slots, e, puts) = put_lem {b = a.slot_map} slot false area.valid in_map in
    let (page, r, s) =
      read_pieces_lem a.size a.sectors 8 0 (slot * 8) (memory p) (omega (arith, in_map, bound))
        area.small in
    (
      record a { slot_map = slots },
      page,
      swap_to_mem_ran a memory entry p slots page m
          (word_small (slot * 8) (omega (arith, in_map, bound, area.small))) r e,
      record { slots = puts.others; pieces = λ i h. s i ∙ ground arith; sectors = refl },
    )

-- The slots and the page after a page went out and came back.
pub record Restored (a : SwapArea) (page : ℕ → Piece) (a'' : SwapArea) (page' : ℕ → Piece)
    : Type 0 where
  pub pieces : (i : ℕ) → i < 8 → page' i ≡ page i
  pub slots : (s : ℕ) → taken a'' s ≡ taken a s
  pub others :
      (s i : ℕ) → taken a s ≡ true → i < 8 → a''.sectors (s * 8 + i) ≡ a.sectors (s * 8 + i)

restored :
    (a a' a'' : SwapArea) (page page' : ℕ → Piece) (slot : ℕ)
    → Stored a page slot a'
    → Fetched a' slot a'' page'
    → Restored a page a'' page'
restored a a' a'' page page' slot s f = record {
  pieces = λ i h. f.pieces i h ∙ s.pieces i h;
  slots = λ t. ground (arith, f.slots t, s.slots t, s.was_free, ==_iff t slot);
  others = λ t i held h.
      let other : (t == slot) ≡ false = ground (arith, s.was_free, ==_iff t slot, held) in
      ap (λ (d : ℕ → Piece). d (t * 8 + i)) f.sectors ∙ s.others t i other h;
}

-- On a swap device with the sectors of every slot and a slot that is free, mem_to_swap sends the
-- page of an entry out; whatever the memory then holds and whichever frame the entry is given,
-- swap_to_mem brings the same eight pieces into that frame and leaves the other frames alone. The
-- same slots are taken as before, and their pages are as they were.
pub swap_to_mem-mem_to_swap :
    (a : SwapArea) (memory memory' : Memory) (entry : Spte) (p q free : ℕ)
    → IsArea a
    → entry.paddr ≡ some p
    → free < a.slot_map.bit_cnt
    → taken a free ≡ false
    → (a' : SwapArea) × (entry' : Spte) × (mem_to_swap a memory entry ≡ some (a', entry'))
      × (entry'.swap ≡ true)
      × ((a'' : SwapArea) × (page : ℕ → Piece) × (swap_to_mem a' memory'
              (record entry' { paddr = some q })
            ≡ some (a'', with_page memory' q page, record entry' { paddr = some q; swap = false }))
          × Restored a (memory p) a'' page)
swap_to_mem-mem_to_swap a memory memory' entry p q free area m in_map is_free =
    let (a', slot, e, s) = mem_to_swap_lem a memory entry p free area m in_map is_free in
    let back = record (in_slot entry slot) { paddr = some q } in
    let (a'', page, e', f) = swap_to_mem_lem a' memory' back q s.area refl s.inside in
    (a', in_slot entry slot, e, refl, (a'', page, e', restored a a' a'' (memory p) page slot s f))
