-- ===== src/Lifetime/Examples.antt =====
-- The theorems on the openers of an inode at a small file.
use utcs.Prelude.{◌≡◌, refl, false, [], ◌∷◌, some, none, arith}
use utcs.FreeMap.{MapFile}
use utcs.Disk.{Fs}
use utcs.Inode.Sample.{one_slot, small_fs, small_inode, small-IsFile}
use utcs.Lifetime.{reopen, remove, close}
use utcs.Lifetime.Removed.{GivenBack, close-remove}

abbrev map_file : MapFile
map_file = record { stored = 31 ∷ []; denied = false }

-- An opener who is not the last one only stops counting.
close_test :
    close 4 small_fs (remove (reopen small_inode)) ≡ some (small_fs, some (remove small_inode))
unfolding close remove reopen
close_test = refl

close-remove_example :
    (fs' : Fs) × (close 4 small_fs (remove small_inode) ≡ some (fs', none))
    × GivenBack small_fs small_inode one_slot 0 fs'
close-remove_example = close-remove 4 map_file small-IsFile refl refl (omega arith)
