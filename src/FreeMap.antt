-- ===== src/FreeMap.antt =====
-- filesys/free-map.c of CS439/Project4: the map of the sectors in use, and its file on the disk.
-- The file's contents are the words that it was last given, and the sectors of the device that hold
-- this file read as these words (`on_device` in Disk). `bitmap_write` gives it the words of
-- the map, and fails only where the inode of the file has its writes denied (the sectors of this
-- file were all allocated when `free_map_create` made it, so the write takes none).
pub mod Alloc
pub mod Room
pub mod Release
pub mod Init
mod Examples
use utcs.Prelude.{
  ℕ, zero, suc, ◌+◌, ◌-◌, ◌^◌, ◌≤◌, ◌<◌, ◌≡◌, Bool, true, false, List, Option, none, some, ◌==◌,
  if◌then◌else◌, ◌>>=◌, ◌>>◌, check,
}
use utcs.Bitmap.{Bitmap, bitmap_error, byte_cnt, scan_and_flip, set_multiple, all, create, mark}

-- `free_map_file`
pub record MapFile : Type 0 where
  pub stored : List ℕ
  pub denied : Bool

-- `free_map` and `free_map_file`, which is NULL until the file is opened.
pub record FreeMap : Type 0 where
  pub map : Bitmap
  pub file : Option MapFile

-- `bitmap_write (free_map, free_map_file)` of lib/kernel/bitmap.c: how many bytes went out?
pub write_map : Bitmap → MapFile → MapFile × Bool
write_map b f =
    if f.denied then (f, byte_cnt b.bit_cnt == 0) else (record f { stored = b.bits }, true)

-- FREE_MAP_SECTOR and ROOT_DIR_SECTOR
abbrev pub free_map_sector : ℕ
free_map_sector = 0

abbrev pub root_dir_sector : ℕ
root_dir_sector = 1

-- free_map_init, for a device of `sectors` sectors
pub init : (sectors : ℕ) → (garbage : List ℕ) → Option FreeMap
init sectors garbage = do
  b ← create sectors garbage
  b₁ ← mark b free_map_sector
  b₂ ← mark b₁ root_dir_sector
  some (record { map = b₂; file = none })

-- The rest of free_map_allocate once a run was found at `sector`: write the map to its file, and
-- take the run back where that fails.
commit : FreeMap → (cnt sector : ℕ) → Option MapFile → Option (FreeMap × Option ℕ)
commit fm cnt sector none = some (fm, some sector)
commit fm cnt sector (some f) =
    let (f', done) = write_map fm.map f in
    let undone = (do
      b ← set_multiple fm.map sector cnt false
      some (record { map = b; file = some f' }, none)) in
    if done then some (record fm { file = some f' }, some sector) else undone

-- free_map_allocate: `some s` is success with `*sectorp = s`.
unfoldable pub allocate : FreeMap → (cnt : ℕ) → Option (FreeMap × Option ℕ)
unfolding commit write_map
allocate fm cnt = do
  (b, sector) ← scan_and_flip fm.map 0 cnt false
  let fm' = record fm { map = b }
  let go_on = commit fm' cnt sector fm.file
  if sector == bitmap_error then some (fm', none) else go_on

-- free_map_release; the file is not NULL where it is called.
unfoldable pub release : FreeMap → (sector cnt : ℕ) → Option FreeMap
unfolding write_map
release fm sector cnt = do
  used ← all fm.map sector cnt
  check used
  b ← set_multiple fm.map sector cnt false
  f ← fm.file
  some (record { map = b; file = some (write_map b f).0 })
