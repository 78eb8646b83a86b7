-- ===== src/OpenInodes/Files.antt =====
-- The calls of filesys/inode.c in CS439/Project4 through a pointer: the device together with
-- `open_inodes`, where a pointer to an open inode is its sector.
use utcs.Prelude.{ℕ, Bool, List, [], ◌∷◌, Option, none, some, ◌==◌, if◌then◌else◌, ◌>>=◌}
use utcs.Disk.{Fs}
use utcs.Inode.{Inode, read_at, write_at}
use utcs.Lifetime.{reopen, remove, close}
use utcs.OpenInodes.{open_inode}
use utcs.OpenInodes.Table.{lookup}

pub record Files : Type 0 where
  pub fs : Fs
  pub open_inodes : List Inode

-- The inode at its sector is now this one.
unfoldable pub put_inode : List Inode → Inode → List Inode
put_inode [] inode = []
put_inode (i ∷ rest) inode =
    if i.sector == inode.sector then inode ∷ rest else i ∷ put_inode rest inode

-- `list_remove (&inode->elem)`
pub drop_inode : List Inode → (sector : ℕ) → List Inode
drop_inode [] sector = []
drop_inode (i ∷ rest) sector = if i.sector == sector then rest else i ∷ drop_inode rest sector

-- inode_read_at, with the bytes that it read
unfoldable pub read_inode : Files → (inode size offset : ℕ) → Option (Files × List ℕ)
unfolding put_inode
read_inode files inode size offset = do
  i ← lookup files.open_inodes inode
  (fs', i', buffer) ← read_at files.fs i size offset
  some (record { fs = fs'; open_inodes = put_inode files.open_inodes i' }, buffer)

-- inode_write_at, with the number of bytes
unfoldable pub write_inode :
    Files → (inode : ℕ) → (buffer : List ℕ) → (offset : ℕ) → Option (Files × ℕ)
unfolding put_inode
write_inode files inode buffer offset = do
  i ← lookup files.open_inodes inode
  (fs', i', n) ← write_at files.fs i buffer offset
  some (record { fs = fs'; open_inodes = put_inode files.open_inodes i' }, n)

-- inode_open
unfoldable pub open_file : Files → (sector : ℕ) → Option Files
open_file files sector = do
  (open_inodes, i) ← open_inode files.fs files.open_inodes sector
  some (record files { open_inodes = open_inodes })

-- inode_reopen
unfoldable pub reopen_file : Files → (inode : ℕ) → Option Files
unfolding put_inode
reopen_file files inode = do
  i ← lookup files.open_inodes inode
  some (record files { open_inodes = put_inode files.open_inodes (reopen i) })

-- The list behind inode_close: the inode with one opener less, or without it.
unfoldable pub closed : List Inode → (inode : ℕ) → Option Inode → List Inode
unfolding put_inode drop_inode
closed open_inodes inode none = drop_inode open_inodes inode
closed open_inodes inode (some i) = put_inode open_inodes i

-- inode_close; a file has fewer index blocks than the device has sectors.
unfoldable pub close_file : Files → (inode : ℕ) → Option Files
unfolding closed
close_file files inode = do
  i ← lookup files.open_inodes inode
  (fs', left) ← close files.fs.sectors files.fs i
  some (record { fs = fs'; open_inodes = closed files.open_inodes inode left })

-- inode_remove
unfoldable pub remove_file : Files → (inode : ℕ) → Option Files
unfolding put_inode
remove_file files inode = do
  i ← lookup files.open_inodes inode
  some (record files { open_inodes = put_inode files.open_inodes (remove i) })

-- `inode->removed`
abbrev pub is_removed : Files → (inode : ℕ) → Option Bool
is_removed files inode = do i ← lookup files.open_inodes inode; some i.removed
