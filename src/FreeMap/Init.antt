-- ===== src/FreeMap/Init.antt =====
-- free_map_init of filesys/free-map.c: the map of a device that was just formatted.
use utcs.Prelude.{ℕ, ◌-◌, ◌^◌, ◌≤◌, ◌<◌, ◌≡◌, ◌∙◌, List, none, some, arith, ltb, length}
use utcs.Bitmap.{elem_cnt}
use utcs.Bitmap.Bits.{mark_lem}
use utcs.Bitmap.Ranges.{create_lem}
use utcs.FreeMap.{FreeMap, init, root_dir_sector, free_map_sector}
use utcs.FreeMap.Alloc.{used, IsSound, closed}

-- On a device of two sectors or more, `free_map_init` runs, whatever memory held, and makes a sound
-- map of every sector of the device, in which the sector of the free map and that of the root
-- directory are in use and all others are free.
pub init_lem :
    (sectors : ℕ) (garbage : List ℕ)
    → length garbage ≡ elem_cnt sectors
    → 2 ≤ sectors
    → sectors < 2 ^ 32 - 31
    → (fm : FreeMap) × (init sectors garbage ≡ some fm)
      × IsSound fm
      × (fm.map.bit_cnt ≡ sectors)
      × ((j : ℕ) → j < sectors → used fm j ≡ ltb j 2)
unfolding init
init_lem sectors garbage w two small =
    let (b, e, v, size, clear) = create_lem sectors garbage w small in
    let (b₁, e₁, p₁) = mark_lem free_map_sector v (omega arith) in
    let (b₂, e₂, p₂) = mark_lem root_dir_sector p₁.valid (omega (arith, p₁.same_size)) in
    (
      record { map = b₂; file = none },
      rw (e, e₁, e₂),
      record {
        map_valid = p₂.valid;
        nonempty = omega (arith, p₁.same_size, p₂.same_size);
        synced = closed;
      },
      p₂.same_size ∙ p₁.same_size ∙ size,
      λ j h. ground (arith, p₁.others j, p₂.others j, clear j h),
    )
