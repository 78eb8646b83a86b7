-- ===== src/Filesystem.antt =====
-- filesys/filesys.c of CS439/Project4, and dir_create: files by their paths. `cwd` is the sector of the
-- running thread's working directory, `e` is what a `struct dir_entry` on the stack holds.
mod Examples
use utcs.Prelude.{
  ℕ, ◌+◌, ◌*◌, Bool, true, false, not, List, [], ◌∷◌, Option, none, some, ◌==◌, if◌then◌else◌, ◌&&◌,
  ◌>>=◌, ◌>>◌, check,
}
use utcs.Disk.{Fs, header, block_write, read_header, take_sector, give_sector}
use utcs.Inode.Create.{inode_create}
use utcs.OpenInodes.Files.{Files, open_file, close_file, is_removed}
use utcs.OpenFile.{OpenFile}
use utcs.Directory.{Dir, entry_size, dir_open, dir_lookup}
use utcs.Directory.Change.{dir_add, dir_remove}
use utcs.Directory.Names.{dir_split_name, dot, dot_dot}

-- The sector that `..` names.
abbrev pub parent_sector : (sector : ℕ) → (cwd : Option ℕ) → ℕ
parent_sector sector none = sector
parent_sector sector (some inode) = inode

-- dir_create; whether the two entries could be added is not looked at.
pub dir_create :
    Files → (cwd : Option ℕ) → (sector entry_cnt : ℕ) → (e : List ℕ) → Option (Files × Bool)
unfolding inode_create dir_open dir_add
dir_create files cwd sector entry_cnt e = do
  (fs₁, created) ← inode_create files.fs sector (entry_cnt * entry_size)
  let filled = (do
    inode_disk ← read_header fs₁ sector
    fs₂ ← block_write fs₁ sector (header (record inode_disk { is_dir = true }))
    files₁ ← open_file (record files { fs = fs₂ }) sector
    (files₂, dir, self) ← dir_add files₁ (dir_open sector) dot sector e
    let above = parent_sector sector cwd
    (files₃, dir', parent) ← dir_add files₂ dir dot_dot above e
    files₄ ← close_file files₃ dir'.inode
    some (files₄, true))
  if created then filled else some (record files { fs = fs₁ }, false)

-- `free_map_allocate (1, &inode_sector) && inode_create (…) && dir_add (…)` of filesys_create, and
-- the release of the sector where one of them fails.
pub create_in :
    Files → Dir → (file_name : List ℕ) → (initial_size : ℕ) → (e : List ℕ) → Option (Files × Bool)
unfolding inode_create dir_add
create_in files parent_dir file_name initial_size e = do
  (fs₁, r) ← take_sector files.fs
  elim r [
    | none ↦ some (record files { fs = fs₁ }, false)
    | some inode_sector ↦ do
      (fs₂, created) ← inode_create fs₁ inode_sector initial_size
      let files₂ = record files { fs = fs₂ }
      let add = (do
        (files', dir, success) ← dir_add files₂ parent_dir file_name inode_sector e
        some (files', success))
      (files₃, success) ← if created then add else some (files₂, false)
      let undone = (do
        fs₄ ← give_sector files₃.fs inode_sector
        some (record files₃ { fs = fs₄ }, false))
      if not success && not (inode_sector == 0) then undone else some (files₃, success)
  ]

-- filesys_create
pub filesys_create :
    Files
    → (cwd : Option ℕ) → (name : List ℕ) → (initial_size : ℕ) → (e : List ℕ) → Option (Files × Bool)
unfolding dir_split_name create_in
filesys_create files cwd name initial_size e = do
  (files₁, split) ← dir_split_name files cwd name e
  elim split [
    | none ↦ some (files₁, false)
    | some (parent_dir, file_name) ↦ do
      (files₂, success) ← create_in files₁ parent_dir file_name initial_size e
      files₃ ← close_file files₂ parent_dir.inode
      some (files₃, success)
  ]

-- filesys_open, with the inode of the file that it opened. Where the name is not found, or is that of
-- a removed file, the parent directory stays open.
pub filesys_open : Files → (cwd : Option ℕ) → (name e : List ℕ) → Option (Files × Option ℕ)
unfolding dir_split_name dir_lookup
filesys_open files cwd name e = do
  (files₁, split) ← dir_split_name files cwd name e
  elim split [
    | none ↦ some (files₁, none)
    | some (parent_dir, file_name) ↦ do
      (files₂, dir, found) ← dir_lookup files₁ parent_dir file_name e
      elim found [
        | none ↦ some (files₂, none)
        | some inode ↦ do
          removed ← is_removed files₂ inode
          let gone = (do files₃ ← close_file files₂ inode; some (files₃, none))
          let opened = (do files₃ ← close_file files₂ parent_dir.inode; some (files₃, some inode))
          if removed then gone else opened
      ]
  ]

-- filesys_remove
pub filesys_remove : Files → (cwd : Option ℕ) → (name e : List ℕ) → Option (Files × Bool)
unfolding dir_split_name dir_remove
filesys_remove files cwd name e = do
  (files₁, split) ← dir_split_name files cwd name e
  elim split [
    | none ↦ some (files₁, false)
    | some (parent_dir, file_name) ↦ do
      (files₂, dir, success) ← dir_remove files₁ parent_dir file_name e
      files₃ ← close_file files₂ dir.inode
      some (files₃, success)
  ]
