-- ===== src/OpenInodes.antt =====
-- `open_inodes` and inode_open of filesys/inode.c in CS439/Project4: one `struct inode` for a sector,
-- however often it is opened. The list holds the inodes themselves, an opener's pointer is the
-- sector.
pub mod Table
pub mod Files
mod Examples
use utcs.Prelude.{
  ℕ, suc, ◌+◌, Bool, true, false, List, [], ◌∷◌, Option, none, some, ◌==◌, if◌then◌else◌, ◌>>=◌,
}
use utcs.Disk.{Fs, InodeDisk, read_header}
use utcs.Inode.{Inode}
use utcs.Lifetime.{reopen}

-- `open_inodes` as inode_init leaves it
abbrev inode_init : List Inode
inode_init = []

-- The loop over `open_inodes`: the inode of the sector, if there is one, is opened once more.
unfoldable pub reopen_in : List Inode → (sector : ℕ) → Option (List Inode × Inode)
reopen_in [] sector = none
reopen_in (inode ∷ rest) sector =
    let later = (do (rest', i) ← reopen_in rest sector; some (inode ∷ rest', i)) in
    if inode.sector == sector then some (reopen inode ∷ rest, reopen inode) else later

-- The members of an inode that was just allocated.
unfoldable pub fresh : (sector : ℕ) → InodeDisk → Inode
fresh sector head = record {
  sector = sector;
  open_cnt = 1;
  removed = false;
  deny_write_cnt = 0;
  on_disk = head;
  locked = false;
  readers = 0;
  writers = 0;
}

-- What inode_open does after its search.
unfoldable pub open_found :
    Fs → List Inode → (sector : ℕ) → Option (List Inode × Inode) → Option (List Inode × Inode)
unfolding fresh
open_found fs open_inodes sector (some found) = some found
open_found fs open_inodes sector none = do
  head ← read_header fs sector
  some (fresh sector head ∷ open_inodes, fresh sector head)

-- inode_open; a sector that does not hold an inode is a fault.
unfoldable pub open_inode : Fs → List Inode → (sector : ℕ) → Option (List Inode × Inode)
unfolding open_found
open_inode fs open_inodes sector = open_found fs open_inodes sector (reopen_in open_inodes sector)
