-- ===== src/Filesystem/Examples.antt =====
-- A device of 64 sectors is formatted, and a file is created, opened and removed.
use utcs.Prelude.{
  ℕ, ◌≡◌, refl, Bool, true, false, List, [], ◌∷◌, Option, none, some, ◌>>=◌, replicate,
}
use utcs.Disk.{
  take_sector, give_sector, read_bytes, read_header, block_read, block_write, read_index, bytes,
  zeros,
}
use utcs.FreeMap.{allocate, release}
use utcs.Bitmap.{scan_and_flip, set_multiple, put, mark, scan, contains, all, test}
use utcs.Inode.{
  read_at, write_at, read_loop, write_loop, grow, merge, byte_to_sector, copy_out, index_block_init,
}
use utcs.Lifetime.{reopen, close, remove}
use utcs.OpenInodes.{open_inode, reopen_in, fresh, open_found}
use utcs.Strings.{strtok_r, strlcpy, memcpy, strlen, strcmp}
use utcs.Strings.Words.{c_string}
use utcs.Directory.{dir_reopen, entry_sector}
use utcs.OpenInodes.Files.{
  Files, open_file, reopen_file, read_inode, write_inode, put_inode, close_file, remove_file,
}
use utcs.Filesystem.{dir_create, filesys_create, filesys_open, filesys_remove}

abbrev fresh_files : Files
fresh_files = record {
  fs = record {
    free = record { map = record { bit_cnt = 64; bits = 3 ∷ 0 ∷ [] }; file = none };
    sectors = 64;
    disk = λ s. bytes zeros;
  };
  open_inodes = [];
}

abbrev junk : List ℕ
junk = replicate 40 0xaa

-- "/a"
abbrev name_a : List ℕ
name_a = b'/' ∷ b'a' ∷ []

formatted : Option (Files × Bool)
unfolding dir_create
formatted = dir_create fresh_files none 1 16 junk

made : Option (Bool × Option ℕ × Bool)
unfolding formatted filesys_create filesys_open filesys_remove
made = do
  (files, ok) ← formatted
  (files₁, created) ← filesys_create files none name_a 10 junk
  (files₂, inode) ← filesys_open files₁ none name_a junk
  (files₃, gone) ← filesys_remove files₂ none name_a junk
  some (created, inode, gone)

-- A file of 120 bytes, none of which is 0, stays where it is.
stuck : Option (Bool × Bool)
unfolding formatted filesys_create filesys_open filesys_remove
stuck = do
  (files, ok) ← formatted
  (files₁, created) ← filesys_create files none name_a 0 junk
  (files₂, inode) ← filesys_open files₁ none name_a junk
  at ← inode
  (files₃, n) ← write_inode files₂ at (replicate 120 b'x') 0
  (files₄, gone) ← filesys_remove files₃ none name_a junk
  some (created, gone)

made_test : made ≡ some (true, some 5, true)
unfolding made entry_sector test open_found reopen_in fresh take_sector give_sector allocate release
    scan_and_flip set_multiple put mark scan contains all open_file open_inode reopen_file reopen
    strtok_r strlcpy memcpy strlen strcmp c_string read_inode write_inode put_inode read_at write_at
    read_loop write_loop grow merge byte_to_sector copy_out read_bytes read_header block_read
    block_write read_index close_file close remove_file remove index_block_init dir_reopen
made_test = refl

stuck_test : stuck ≡ some (true, false)
unfolding stuck entry_sector test open_found reopen_in fresh take_sector give_sector allocate
    release scan_and_flip set_multiple put mark scan contains all open_file open_inode reopen_file
    reopen strtok_r strlcpy memcpy strlen strcmp c_string read_inode write_inode put_inode read_at
    write_at read_loop write_loop grow merge byte_to_sector copy_out read_bytes read_header
    block_read block_write read_index close_file close remove_file remove index_block_init
    dir_reopen
stuck_test = refl
