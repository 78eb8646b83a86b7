-- ===== src/FreeMap/Examples.antt =====
-- The theorems on filesys/free-map.c at a device of sixteen sectors.
use utcs.Prelude.{ℕ, ◌<◌, ◌≡◌, refl, false, [], ◌∷◌, some, arith, ltb}
use utcs.Bitmap.{scan_and_flip, scan, set_multiple, contains, test, put, mark}
use utcs.Bitmap.Bits.{holds}
use utcs.FreeMap.{FreeMap, init, allocate, release}
use utcs.FreeMap.Alloc.{used, IsSound, Allocates, written, allocate_lem}
use utcs.FreeMap.Init.{init_lem}
use utcs.FreeMap.Release.{release-allocate}

-- Sectors 0, 1 and 4 are in use.
abbrev some_used : FreeMap
some_used = record {
  map = record { bit_cnt = 16; bits = 19 ∷ [] };
  file = some (record { stored = 19 ∷ []; denied = false });
}

-- The map after three sectors in a row were asked for.
abbrev three_taken : FreeMap
three_taken = record {
  map = record { bit_cnt = 16; bits = 243 ∷ [] };
  file = some (record { stored = 243 ∷ []; denied = false });
}

some_used-IsSound : IsSound some_used
some_used-IsSound = record {
  map_valid = record { words = refl; small = omega arith };
  nonempty = omega arith;
  synced = written refl;
}

allocate_test : allocate some_used 3 ≡ some (three_taken, some 5)
unfolding allocate scan_and_flip scan set_multiple contains test put mark
allocate_test = refl

allocate_lem_example : Allocates some_used 3 (allocate some_used 3)
allocate_lem_example = allocate_lem some_used 3 some_used-IsSound

release-allocate_example :
    (fm'' : FreeMap) × (release three_taken 5 3 ≡ some fm'')
    × ((j : ℕ) → used fm'' j ≡ used some_used j)
release-allocate_example = release-allocate 3 5 some_used-IsSound allocate_test refl

free_bit : used some_used 3 ≡ false
unfolding holds
free_bit = refl

init_lem_example :
    (fm : FreeMap) × (init 16 (77 ∷ []) ≡ some fm)
    × IsSound fm
    × (fm.map.bit_cnt ≡ 16)
    × ((j : ℕ) → j < 16 → used fm j ≡ ltb j 2)
init_lem_example = init_lem 16 (77 ∷ []) refl (omega arith) (omega arith)
