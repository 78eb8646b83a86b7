-- ===== src/OpenFile.antt =====
-- filesys/file.c of CS439/Project4: an open file, which is an inode, a position in it and whether
-- this opener has denied writes. The inode is shared with other openers through `open_inodes`; here
-- a call takes the file with the inode as it is then, and returns both.
pub mod Position
pub mod DenyWrite
mod Examples
use utcs.Prelude.{ℕ, ◌+◌, Bool, true, false, List, Option, none, some, if◌then◌else◌, length, ◌>>=◌}
use utcs.Disk.{Fs, read_header}
use utcs.Inode.{Inode, inode_length, read_at, write_at}
use utcs.Lifetime.{reopen, deny_write, allow_write, close}

-- `struct file`
pub record OpenFile : Type 0 where
  pub inode : Inode
  pub pos : ℕ
  pub denies : Bool

-- file_open, for an inode and memory that are there
pub file_open : Inode → OpenFile
file_open inode = record { inode = inode; pos = 0; denies = false }

-- file_reopen, for memory that is there
pub file_reopen : OpenFile → OpenFile
unfolding file_open
file_reopen file = file_open (reopen file.inode)

pub inode_is_dir : Fs → Inode → Option Bool
inode_is_dir fs inode = do inode_disk ← read_header fs inode.sector; some inode_disk.is_dir

pub file_is_dir : Fs → OpenFile → Option Bool
unfolding inode_is_dir
file_is_dir fs file = inode_is_dir fs file.inode

-- file_read, with the bytes that it put into the buffer
pub file_read : Fs → OpenFile → (size : ℕ) → Option (Fs × OpenFile × List ℕ)
file_read fs file size = do
  (fs', i, buffer) ← read_at fs file.inode size file.pos
  some (fs', record file { inode = i; pos = file.pos + length buffer }, buffer)

-- file_write, with the number of bytes written
pub file_write : Fs → OpenFile → (buffer : List ℕ) → Option (Fs × OpenFile × ℕ)
file_write fs file buffer = do
  (fs', i, bytes_written) ← write_at fs file.inode buffer file.pos
  some (fs', record file { inode = i; pos = file.pos + bytes_written }, bytes_written)

-- file_read_at and file_write_at: the position stays.
pub file_read_at : Fs → OpenFile → (size file_ofs : ℕ) → Option (Fs × OpenFile × List ℕ)
file_read_at fs file size file_ofs = do
  (fs', i, buffer) ← read_at fs file.inode size file_ofs
  some (fs', record file { inode = i }, buffer)

pub file_write_at : Fs → OpenFile → (buffer : List ℕ) → (file_ofs : ℕ) → Option (Fs × OpenFile × ℕ)
file_write_at fs file buffer file_ofs = do
  (fs', i, bytes_written) ← write_at fs file.inode buffer file_ofs
  some (fs', record file { inode = i }, bytes_written)

-- file_deny_write
pub file_deny_write : OpenFile → Option (OpenFile × Bool)
file_deny_write file =
    let denied = (do
      (i, was) ← deny_write file.inode
      some (record file { inode = i; denies = true }, was)) in
    if file.denies then some (file, false) else denied

-- file_allow_write
pub file_allow_write : OpenFile → Option OpenFile
file_allow_write file =
    let allowed = (do
      i ← allow_write file.inode
      some (record file { inode = i; denies = false })) in
    if file.denies then allowed else some file

-- file_close; `fuel` bounds the index blocks that inode_close may give back
pub file_close : (fuel : ℕ) → Fs → OpenFile → Option (Fs × Option Inode)
unfolding file_allow_write
file_close fuel fs file = do file' ← file_allow_write file; close fuel fs file'.inode

-- file_length
pub file_length : OpenFile → ℕ
file_length file = inode_length file.inode

-- file_seek
pub file_seek : OpenFile → (new_pos : ℕ) → OpenFile
file_seek file new_pos = record file { pos = new_pos }

-- file_tell
pub file_tell : OpenFile → ℕ
file_tell file = file.pos
