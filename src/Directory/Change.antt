-- ===== src/Directory/Change.antt =====
-- dir_add, dir_length and dir_remove of filesys/directory.c in CS439/Project4.
pub mod Removal
pub mod Refused
pub mod Slots
pub mod Added
use Prim.Native.Nat.{Ordering}
use utcs.Prelude.{
  ℕ, zero, suc, ◌+◌, ◌-◌, ◌*◌, ◌/◌, ◌%◌, ◌^◌, Bool, true, false, not, List, [], ◌∷◌, ◌++◌, Option,
  none, some, ltb, ◌==◌, if◌then◌else◌, ◌&&◌, ◌||◌, length, get_elem?, get_or, set, take, drop,
  ◌>>=◌, ◌>>◌, check,
}
use utcs.FreeMap.{root_dir_sector}
use utcs.OpenInodes.Table.{lookup}
use utcs.OpenInodes.Files.{
  Files, read_inode, write_inode, open_file, reopen_file, close_file, remove_file, is_removed,
}
use utcs.Strings.{strcmp, strlen, strlcpy, strtok_r}
use utcs.Directory.{
  Dir, entry_size, name_max, in_use, set_in_use, overwritten, set_name, set_sector, entry_sector,
  entry_name, find, rounds, lock_dir, unlock_dir, same_string, dir_open, dir_open_root, dir_reopen,
  dir_lookup,
}

-- The loop of dir_add for a free slot: its offset, or the end of the file, and what `e` holds then.
pub free_slot :
    (fuel : ℕ) → Files → (inode : ℕ) → (e : List ℕ) → (ofs : ℕ) → Option (Files × ℕ × List ℕ)
free_slot zero files inode e ofs = none
free_slot (suc fuel) files inode e ofs = do
  (files₁, buffer) ← read_inode files inode entry_size ofs
  let e₁ = overwritten e buffer
  let rest = free_slot fuel files₁ inode e₁ (ofs + entry_size)
  if length buffer == entry_size && in_use e₁ then rest else some (files₁, ofs, e₁)

-- The new entry in `e`.
pub new_entry : (e name : List ℕ) → (inode_sector : ℕ) → Option (List ℕ)
unfolding set_name set_sector
new_entry e name inode_sector = do
  e₁ ← set_name (set_in_use e true) name
  some (set_sector e₁ inode_sector)

-- dir_add from its search for the name on
pub add_entry :
    Files → Dir → (name : List ℕ) → (inode_sector : ℕ) → (e : List ℕ) → Option (Files × Bool)
unfolding find free_slot new_entry
add_entry files dir name inode_sector e = do
  (files₁, hit) ← find files dir name none
  elim hit [
    | some h ↦ some (files₁, false)
    | none ↦ do
      n ← rounds files₁ dir.inode
      (files₂, ofs, e₁) ← free_slot n files₁ dir.inode e 0
      e₂ ← new_entry e₁ name inode_sector
      (files₃, written) ← write_inode files₂ dir.inode e₂ ofs
      some (files₃, written == entry_size)
  ]

-- dir_add: of a name that is empty or too long it returns with the lock held.
unfoldable pub dir_add :
    Files → Dir → (name : List ℕ) → (inode_sector : ℕ) → (e : List ℕ) → Option (Files × Dir × Bool)
unfolding lock_dir add_entry
dir_add files dir name inode_sector e = do
  dir₁ ← lock_dir dir
  n ← strlen name
  let add = (do
    (files', success) ← add_entry files dir₁ name inode_sector e
    some (files', unlock_dir dir₁, success))
  if n == 0 || ltb name_max n then some (files, dir₁, false) else add

-- The loop of dir_length, with its count so far.
pub count_entries : (fuel : ℕ) → Files → (inode : ℕ) → (ofs count : ℕ) → Option (Files × ℕ)
count_entries zero files inode ofs count = none
count_entries (suc fuel) files inode ofs count = do
  (files₁, e) ← read_inode files inode entry_size ofs
  let rest =
      count_entries fuel files₁ inode (ofs + entry_size) (if in_use e then count + 1 else count)
  if length e == entry_size then rest else some (files₁, count)

-- dir_length
pub dir_length : Files → (inode : ℕ) → Option (Files × ℕ)
unfolding count_entries
dir_length files inode = do n ← rounds files inode; count_entries n files inode 0 0

-- dir_remove behind the checks: the entry is erased and the inode marked.
pub erase : Files → Dir → (e : List ℕ) → (ofs inode : ℕ) → Option (Files × Bool)
erase files dir e ofs inode = do
  (files₁, written) ← write_inode files dir.inode (set_in_use e false) ofs
  let marked = (do files₂ ← remove_file files₁ inode; some (files₂, true))
  if written == entry_size then marked else some (files₁, false)

-- dir_remove with the inode open: the checks and what they guard.
pub remove_open :
    Files → Dir → (e : List ℕ) → (ofs : Option ℕ) → (inode : ℕ) → Option (Files × Bool)
unfolding dir_length erase
remove_open files dir e ofs inode = do
  (files₁, n) ← dir_length files inode
  removed ← is_removed files₁ inode
  let erased = (do at ← ofs; erase files₁ dir e at inode)
  if ltb 2 n || inode == root_dir_sector || removed then some (files₁, false) else erased

-- dir_remove
unfoldable pub dir_remove : Files → Dir → (name e : List ℕ) → Option (Files × Dir × Bool)
unfolding lock_dir find remove_open
dir_remove files dir name e = do
  dir₁ ← lock_dir dir
  (files₁, hit) ← find files dir₁ name (some e)
  elim hit [
    | none ↦ some (files₁, unlock_dir dir₁, false)
    | some (found, ofs) ↦ do
      files₂ ← open_file files₁ (entry_sector found)
      (files₃, success) ← remove_open files₂ dir₁ found ofs (entry_sector found)
      files₄ ← close_file files₃ (entry_sector found)
      some (files₄, unlock_dir dir₁, success)
  ]
