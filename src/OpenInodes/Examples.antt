-- ===== src/OpenInodes/Examples.antt =====
-- inode_open at a small device and a table of one inode.
use utcs.Prelude.{◌≡◌, refl, List, [], ◌∷◌, some}
use utcs.Disk.{read_header, block_read}
use utcs.Inode.{Inode}
use utcs.Inode.Sample.{small_fs, small_head, small_inode}
use utcs.OpenInodes.{open_inode}
use utcs.OpenInodes.Table.{IsDistinct, Opens, open_inode_lem}

-- The inode of sector 9 is open.
abbrev other_inode : Inode
other_inode = record small_inode { sector = 9 }

one_inode-IsDistinct : IsDistinct (other_inode ∷ [])
unfolding IsDistinct
one_inode-IsDistinct = (refl, tt)

small_head_there : read_header small_fs 2 ≡ some small_head
unfolding read_header block_read
small_head_there = refl

open_inode_lem_example :
    (table' : List Inode) × (i : Inode) × (open_inode small_fs (other_inode ∷ []) 2
      ≡ some (table', i))
    × Opens (other_inode ∷ []) 2 small_head table' i
open_inode_lem_example =
    open_inode_lem small_fs (other_inode ∷ []) 2 small_head one_inode-IsDistinct small_head_there
