-- ===== src/Directory/Names.antt =====
-- dir_readdir and dir_split_name of filesys/directory.c in CS439/Project4.
pub mod Listing
pub mod Paths
use Prim.Native.Nat.{Ordering}
use utcs.Prelude.{
  ℕ, zero, suc, ◌+◌, ◌-◌, ◌*◌, ◌/◌, ◌%◌, ◌^◌, Bool, true, false, not, List, [], ◌∷◌, ◌++◌, Option,
  none, some, ltb, ◌==◌, if◌then◌else◌, ◌&&◌, ◌||◌, length, get_elem?, get_or, set, take, drop,
  ◌>>=◌, ◌>>◌, check,
}
use utcs.FreeMap.{root_dir_sector}
use utcs.OpenInodes.Table.{lookup}
use utcs.OpenInodes.Files.{
  Files, read_inode, write_inode, open_file, reopen_file, close_file, remove_file, is_removed,
}
use utcs.Strings.{strcmp, strlen, strlcpy, strtok_r}
use utcs.Directory.{
  Dir, entry_size, name_max, in_use, set_in_use, overwritten, set_name, set_sector, entry_sector,
  entry_name, find, rounds, lock_dir, unlock_dir, same_string, dir_open, dir_open_root, dir_reopen,
  dir_lookup,
}

-- `"."` and `".."`
abbrev pub dot : List ℕ
dot = b'.' ∷ 0 ∷ []

abbrev pub dot_dot : List ℕ
dot_dot = b'.' ∷ b'.' ∷ 0 ∷ []

-- `e.in_use && strcmp (e.name, ".") && strcmp (e.name, "..")`
pub is_listed : (e : List ℕ) → Option Bool
unfolding same_string
is_listed e =
    let named = (do
      self ← same_string (entry_name e) dot
      parent ← same_string (entry_name e) dot_dot
      some (not self && not parent)) in
    if in_use e then named else some false

-- The loop of dir_readdir from `dir->pos` on: the new position, and the name, copied by strlcpy.
pub next_entry :
    (fuel : ℕ) → Files → (inode pos : ℕ) → (name : List ℕ) → Option (Files × ℕ × Option (List ℕ))
unfolding is_listed
next_entry zero files inode pos name = none
next_entry (suc fuel) files inode pos name = do
  (files₁, e) ← read_inode files inode entry_size pos
  let next = (do
    listed ← is_listed e
    let found = (do
      (name', n) ← strlcpy name (entry_name e) (name_max + 1)
      some (files₁, pos + entry_size, some name'))
    let rest = next_entry fuel files₁ inode (pos + entry_size) name
    if listed then found else rest)
  if length e == entry_size then next else some (files₁, pos, none)

-- dir_readdir, into the caller's buffer `name`
pub dir_readdir : Files → Dir → (name : List ℕ) → Option (Files × Dir × Option (List ℕ))
unfolding lock_dir next_entry
dir_readdir files dir name = do
  dir₁ ← lock_dir dir
  n ← rounds files dir.inode
  (files', pos, read) ← next_entry n files dir.inode dir.pos name
  some (files', record dir { pos = pos; locked = false }, read)

-- `while (name[i] != '/')` of dir_split_name, from the last of `n` bytes down.
pub last_slash : (name : List ℕ) → (n : ℕ) → Option ℕ
last_slash name zero = none
last_slash name (suc i) =
    let rest = last_slash name i in if get_or name i 0 == b'/' then some i else rest

-- `path_buffer` and `file_name_buffer` of dir_split_name as strings without their null byte
pub split_path : (name : List ℕ) → Option ℕ → List ℕ × List ℕ
split_path name none = (b'.' ∷ b'/' ∷ [], name)
split_path name (some i) = (take (i + 1) name, drop (i + 1) name)

-- `starting_dir` of dir_split_name; a thread without a working directory is a NULL pointer.
pub starting_dir : Files → (cwd : Option ℕ) → (name : List ℕ) → Option (Files × Dir)
unfolding dir_open_root dir_reopen
starting_dir files cwd name =
    let relative = (do inode ← cwd; dir_reopen files inode) in
    if get_or name 0 0 == b'/' then dir_open_root files else relative

-- dir_split_name, with the parent directory and the file's name, for a name that is the string `name`
unfoldable pub dir_split_name :
    Files → (cwd : Option ℕ) → (name e : List ℕ) → Option (Files × Option (Dir × List ℕ))
unfolding last_slash split_path starting_dir dir_lookup dir_open
dir_split_name files cwd name e =
    let split = (do
      let (path, file_name) = split_path name (last_slash name (length name))
      (files₁, start) ← starting_dir files cwd name
      (files₂, start', parent) ← dir_lookup files₁ start (path ++ (0 ∷ [])) e
      elim parent [
        | none ↦ some (files₂, none)
        | some inode ↦ do
          files₃ ← close_file files₂ start'.inode
          removed ← is_removed files₃ inode
          let gone = (do files₄ ← close_file files₃ inode; some (files₄, none))
          if removed then gone else some (files₃, some (dir_open inode, file_name ++ (0 ∷ [])))
      ]) in
    if length name == 0 then some (files, none) else split
