-- ===== src/OpenFile/Position.antt =====
-- Writing, seeking and reading through an open file of filesys/file.c.
use utcs.Prelude.{ℕ, ◌+◌, ◌*◌, ◌≤◌, ◌≡◌, refl, false, List, some, length}
use utcs.FreeMap.Alloc.{IsDenied}
use utcs.FreeMap.Room.{room}
use utcs.Disk.{Fs}
use utcs.Inode.Layout.{Blocks}
use utcs.Inode.File.{IsFile}
use utcs.Inode.Bytes.{sectors_of}
use utcs.Inode.WriteAt.{new_blocks, Covers}
use utcs.Inode.RoundTrip.{read_at-write_at}
use utcs.OpenFile.{
  OpenFile, file_read, file_write, file_seek, file_tell, file_read_at, file_write_at,
}

-- For a well-formed file, where its index blocks, with those that a write up to the end of the
-- range adds, cover that end (they do not where inode_create made the file with a positive
-- multiple of 64512 bytes and the range ends beyond those), the inode is idle and its writes are
-- not denied, the map's file takes writes, and the device has the index blocks that the file
-- needs to grow and twice the sectors that the range lies in: file_write stores the whole buffer
-- and moves the position behind it; after file_seek back to where it was, file_read of as many
-- bytes returns the buffer and leaves the file, its position included, as the write had left it.
pub file_read-file_write :
    {fs : Fs} {blk : Blocks} {m : ℕ} (file : OpenFile) (buffer : List ℕ)
    → IsFile fs file.inode blk m
    → Covers file.inode m (file.pos + length buffer)
    → new_blocks file.inode (file.pos + length buffer) + 2 * sectors_of file.pos (length buffer)
      ≤ room fs.free
    → ¬ IsDenied fs.free.file
    → file.inode.deny_write_cnt ≡ 0
    → file.inode.locked ≡ false
    → file.inode.readers ≡ 0
    → file.inode.writers ≡ 0
    → (fs' : Fs) × (file' : OpenFile) × (fs'' : Fs) × (file_write fs file buffer
        ≡ some (fs', file', length buffer))
      × (file_tell file' ≡ file_tell file + length buffer)
      × (file_read fs' (file_seek file' (file_tell file)) (length buffer)
          ≡ some (fs'', file', buffer))
unfolding file_read file_write file_seek file_tell
file_read-file_write file buffer F covers enough ok allowed unlocked no_reader no_writer =
    let (fs', i, fs'', wrote, got) =
      read_at-write_at {inode = file.inode} buffer file.pos F covers enough ok allowed unlocked
        no_reader no_writer in
    (fs', record file { inode = i; pos = file.pos + length buffer }, fs'', rw wrote, refl, rw got)

-- The same at an offset of its own: the position does not move.
pub file_read_at-file_write_at :
    {fs : Fs} {blk : Blocks} {m : ℕ} (file : OpenFile) (buffer : List ℕ) (file_ofs : ℕ)
    → IsFile fs file.inode blk m
    → Covers file.inode m (file_ofs + length buffer)
    → new_blocks file.inode (file_ofs + length buffer) + 2 * sectors_of file_ofs (length buffer)
      ≤ room fs.free
    → ¬ IsDenied fs.free.file
    → file.inode.deny_write_cnt ≡ 0
    → file.inode.locked ≡ false
    → file.inode.readers ≡ 0
    → file.inode.writers ≡ 0
    → (fs' : Fs) × (file' : OpenFile) × (fs'' : Fs) × (file_write_at fs file buffer file_ofs
        ≡ some (fs', file', length buffer))
      × (file_tell file' ≡ file_tell file)
      × (file_read_at fs' file' (length buffer) file_ofs ≡ some (fs'', file', buffer))
unfolding file_read_at file_write_at file_tell
file_read_at-file_write_at file buffer file_ofs F covers enough ok allowed unlocked no_reader
      no_writer =
    let (fs', i, fs'', wrote, got) =
      read_at-write_at {inode = file.inode} buffer file_ofs F covers enough ok allowed unlocked
        no_reader no_writer in
    (fs', record file { inode = i }, fs'', rw wrote refl, refl, rw got refl)
