-- ===== src/Bitmap/Examples.antt =====
-- The theorems on lib/kernel/bitmap.c at a map of forty bits.
use utcs.Prelude.{◌≡◌, refl, true, false, [], ◌∷◌, some}
use utcs.Bitmap.{Bitmap, put, mark, test, set_multiple, contains, scan, scan_and_flip}

-- Bits 0, 1, 2 and 31 to 33 are set.
abbrev forty : Bitmap
forty = record { bit_cnt = 40; bits = 0x8000_0007 ∷ 3 ∷ [] }

set_multiple_test :
    set_multiple forty 30 5 true ≡ some (record { bit_cnt = 40; bits = 0xc000_0007 ∷ 7 ∷ [] })
unfolding set_multiple put mark
set_multiple_test = refl

scan_and_flip_test :
    scan_and_flip forty 0 6 false ≡ some (record { bit_cnt = 40; bits = 0x8000_01ff ∷ 3 ∷ [] }, 3)
unfolding scan_and_flip scan set_multiple contains test put mark
scan_and_flip_test = refl
