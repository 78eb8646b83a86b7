-- ===== src/Swap/Examples.antt =====
-- A page that goes out and comes back, on a swap device of sixteen slots.
use utcs.Prelude.{ℕ, ◌+◌, ◌≡◌, refl, true, false, [], ◌∷◌, some, arith}
use utcs.Bitmap.Bits.{holds}
use utcs.Pages.{Spte}
use utcs.Pages.Examples.{entry_for}
use utcs.Swap.{Piece, SwapArea, Memory, mem_to_swap, swap_to_mem}
use utcs.Swap.RoundTrip.{IsArea, taken, with_page, Restored, swap_to_mem-mem_to_swap}

-- Slots 0, 1 and 4 are taken.
abbrev small_area : SwapArea
small_area = record {
  slot_map = record { bit_cnt = 16; bits = 19 ∷ [] };
  sectors = λ x. x ∷ [];
  size = 128;
}

small_area-IsArea : IsArea small_area
small_area-IsArea = record {
  valid = record { words = refl; small = omega arith };
  room = omega arith;
  small = omega arith;
}

abbrev full_memory : Memory
full_memory p i = (p + i) ∷ []

abbrev empty_memory : Memory
empty_memory p i = []

slot_free : taken small_area 3 ≡ false
unfolding holds
slot_free = refl

swap_to_mem-mem_to_swap_example :
    (a' : SwapArea) × (entry' : Spte) × (mem_to_swap small_area full_memory (entry_for 4096)
      ≡ some (a', entry'))
    × (entry'.swap ≡ true)
    × ((a'' : SwapArea) × (page : ℕ → Piece) × (swap_to_mem a' empty_memory
            (record entry' { paddr = some 9 })
          ≡ some
              (a'', with_page empty_memory 9 page, record entry' { paddr = some 9; swap = false }))
        × Restored small_area (full_memory 5) a'' page)
swap_to_mem-mem_to_swap_example =
    swap_to_mem-mem_to_swap small_area full_memory empty_memory (entry_for 4096) 5 9 3
      small_area-IsArea refl (omega arith) slot_free
