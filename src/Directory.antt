-- ===== src/Directory.antt =====
-- filesys/directory.c of CS439/Project4. A directory's file is an array of entries of 40 bytes: the
-- sector in 4 bytes, the name in 33, whether it is in use, and 2 bytes of padding. A name is a list of
-- bytes with its null byte, as for lib/string.c. `e` is what a `struct dir_entry` on the stack holds
-- when the function starts. Memory is there when the code asks for it.
pub mod Entries
pub mod OnDisk
pub mod Sample
pub mod Search
pub mod Change
pub mod Names
mod Examples
use Prim.Native.Nat.{Ordering}
use utcs.Prelude.{
  ℕ, zero, suc, ◌+◌, ◌-◌, ◌*◌, ◌/◌, ◌%◌, ◌^◌, Bool, true, false, not, List, [], ◌∷◌, ◌++◌, Option,
  none, some, ltb, ◌==◌, if◌then◌else◌, ◌&&◌, ◌||◌, length, get_elem?, get_or, set, take, drop,
  ◌>>=◌, ◌>>◌, check,
}
use utcs.FreeMap.{root_dir_sector}
use utcs.Disk.{Fs}
use utcs.Inode.{Inode, inode_length}
use utcs.OpenInodes.Table.{lookup}
use utcs.OpenInodes.Files.{
  Files, read_inode, write_inode, open_file, reopen_file, close_file, remove_file,
}
use utcs.Strings.{strcmp, strlen, strlcpy, strtok_r}
use utcs.Strings.Words.{c_string}

-- NAME_MAX
abbrev pub name_max : ℕ
name_max = 32

-- `sizeof (struct dir_entry)`
abbrev pub entry_size : ℕ
entry_size = 40

-- `e.inode_sector`, stored from the low byte up
unfoldable pub entry_sector : List ℕ → ℕ
entry_sector e = get_or e 0 0 + 256 * get_or e 1 0 + 256 ^ 2 * get_or e 2 0 + 256 ^ 3 * get_or e 3 0

-- `e.inode_sector = sector`
unfoldable pub set_sector : List ℕ → (sector : ℕ) → List ℕ
set_sector e sector =
    (sector % 256 ∷ sector / 256 % 256 ∷ sector / 256 ^ 2 % 256 ∷ sector / 256 ^ 3 % 256 ∷ [])
    ++ drop 4 e

-- `e.name`, as a pointer into the entry
abbrev pub entry_name : List ℕ → List ℕ
entry_name e = drop 4 e

-- `e.in_use`
abbrev pub in_use : List ℕ → Bool
in_use e = not (get_or e 37 0 == 0)

-- `e.in_use = value`
abbrev pub set_in_use : List ℕ → (value : Bool) → List ℕ
set_in_use e value = set e 37 (if value then 1 else 0)

-- `strlcpy (e.name, name, sizeof e.name)`
unfoldable pub set_name : List ℕ → (name : List ℕ) → Option (List ℕ)
set_name e name = do
  (name', n) ← strlcpy (take 33 (drop 4 e)) name 33
  some (take 4 e ++ (name' ++ drop 37 e))

-- What a short read leaves in `e`.
abbrev pub overwritten : (e buffer : List ℕ) → List ℕ
overwritten e buffer = buffer ++ drop (length buffer) e

-- `struct dir`, the lock as whether it is held
pub record Dir : Type 0 where
  pub inode : ℕ
  pub pos : ℕ
  pub locked : Bool

-- dir_open, of an inode that is there
unfoldable pub dir_open : (inode : ℕ) → Dir
dir_open inode = record { inode = inode; pos = 0; locked = false }

-- dir_open_root
unfoldable pub dir_open_root : Files → Option (Files × Dir)
unfolding dir_open
dir_open_root files = do
  files' ← open_file files root_dir_sector
  some (files', dir_open root_dir_sector)

-- dir_reopen
unfoldable pub dir_reopen : Files → (inode : ℕ) → Option (Files × Dir)
unfolding dir_open
dir_reopen files inode = do files' ← reopen_file files inode; some (files', dir_open inode)

-- More rounds than there are entries in the file.
abbrev pub rounds : Files → (inode : ℕ) → Option ℕ
rounds files inode = do i ← lookup files.open_inodes inode; some (inode_length i / entry_size + 1)

-- `strcmp (a, b) == 0`
unfoldable pub same_string : (a b : List ℕ) → Option Bool
same_string a b = do sign ← strcmp a b; some (elim sign [ Ordering.eq ↦ true | _ ↦ false ])

-- `e.in_use && !strcmp (dir_name, e.name)`
unfoldable pub matches : (e dir_name : List ℕ) → Option Bool
unfolding same_string
matches e dir_name =
    let named = same_string dir_name (entry_name e) in if in_use e then named else some false

-- A match in lookup: `dir_copy` becomes what the entry names, and the loop reads once more, from
-- that, before it looks at `dir_found`.
pub arrive :
    Files → (dir_copy : ℕ) → (e : List ℕ) → (ofs : ℕ) → Option (Files × ℕ × Option (List ℕ × ℕ))
arrive files dir_copy e ofs = do
  files₁ ← open_file files (entry_sector e)
  files₂ ← close_file files₁ dir_copy
  (files₃, buffer) ← read_inode files₂ (entry_sector e) entry_size (ofs + entry_size)
  some (files₃, entry_sector e, some (e, ofs))

-- The loop of lookup over the entries of `dir_copy`: the directory behind it, and what it found.
unfoldable pub find_entry :
    (fuel : ℕ)
    → Files
    → (dir_copy : ℕ) → (dir_name : List ℕ) → (ofs : ℕ) → Option (Files × ℕ × Option (List ℕ × ℕ))
unfolding matches arrive
find_entry zero files dir_copy dir_name ofs = none
find_entry (suc fuel) files dir_copy dir_name ofs = do
  (files₁, e) ← read_inode files dir_copy entry_size ofs
  let next = (do
    is ← matches e dir_name
    let found = arrive files₁ dir_copy e ofs
    let rest = find_entry fuel files₁ dir_copy dir_name (ofs + entry_size)
    if is then found else rest)
  if length e == entry_size then next else some (files₁, dir_copy, none)

-- `"/"`
abbrev pub slash : List ℕ
slash = b'/' ∷ 0 ∷ []

-- The traversal of lookup from the token at `dir_name` on, in the copy of the name.
unfoldable pub traverse :
    (fuel : ℕ)
    → Files
    → (dir_copy : ℕ) → (name_copy : List ℕ) → (dir_name save_ptr : ℕ)
    → Option (Files × Option (List ℕ × ℕ))
unfolding find_entry
traverse zero files dir_copy name_copy dir_name save_ptr = none
traverse (suc fuel) files dir_copy name_copy dir_name save_ptr = do
  n ← rounds files dir_copy
  (files₁, copy', hit) ← find_entry n files dir_copy (drop dir_name name_copy) 0
  elim hit [
    | none ↦ do files₂ ← close_file files₁ copy'; some (files₂, none)
    | some h ↦ do
      (name', token, save') ← strtok_r name_copy slash save_ptr
      elim token [
        | none ↦ do files₂ ← close_file files₁ copy'; some (files₂, some h)
        | some p ↦ traverse fuel files₁ copy' name' p save'
      ]
  ]

-- A name without a component is the root: that is stored through `ep`, which must not be NULL.
abbrev pub root_entry : Option (List ℕ) → Option (List ℕ)
root_entry none = none
root_entry (some e) = some (set_in_use (set_sector e root_dir_sector) true)

-- lookup, with the entry and its offset, which stays unset for the root; `ep` is `none` for NULL.
unfoldable pub find :
    Files
    → Dir
    → (name : List ℕ) → (ep : Option (List ℕ)) → Option (Files × Option (List ℕ × Option ℕ))
unfolding traverse
find files dir name ep = do
  (files₁, dir_copy) ← dir_reopen files dir.inode
  s ← c_string name
  (name_copy, token, save_ptr) ← strtok_r (s ++ (0 ∷ 0 ∷ [])) slash 0
  elim token [
    | none ↦ do
      e ← root_entry ep
      files₂ ← close_file files₁ dir_copy.inode
      some (files₂, some (e, none))
    | some p ↦ do
      (files₂, hit) ← traverse (length s + 1) files₁ dir_copy.inode name_copy p save_ptr
      some (files₂, elim hit [ none ↦ none | some (e, ofs) ↦ some (e, some ofs) ])
  ]

-- `lock_acquire (&dir->lock)`
unfoldable pub lock_dir : Dir → Option Dir
lock_dir dir = check (not dir.locked) >> some (record dir { locked = true })

-- `lock_release (&dir->lock)`
abbrev pub unlock_dir : Dir → Dir
unlock_dir dir = record dir { locked = false }

-- dir_lookup, with the inode that it opened
unfoldable pub dir_lookup : Files → Dir → (name e : List ℕ) → Option (Files × Dir × Option ℕ)
unfolding lock_dir find
dir_lookup files dir name e = do
  dir₁ ← lock_dir dir
  (files₁, hit) ← find files dir₁ name (some e)
  elim hit [
    | none ↦ some (files₁, unlock_dir dir₁, none)
    | some (found, ofs) ↦ do
      files₂ ← open_file files₁ (entry_sector found)
      some (files₂, unlock_dir dir₁, some (entry_sector found))
  ]
