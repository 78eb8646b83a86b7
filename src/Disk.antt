-- ===== src/Disk.antt =====
-- The file system device of CS439/Project4: devices/block.c as filesys uses it, and what the
-- sectors hold. A sector holds what was last written to it: plain bytes, an index block or an
-- on-disk inode (filesys/inode.c, filesys/inode.h). Reading it as another kind is a fault, `none`,
-- as is an access past the end of the device, where `check_sector` panics.
use utcs.Prelude.{
  ℕ, ◌-◌, ◌*◌, ◌^◌, ◌++◌, Bool, true, false, ◌≡◌, refl, ap, ◌∙◌, List, take, drop, Option, none,
  some, ltb, ◌==◌, if◌then◌else◌, replicate, ◌>>=◌, ◌>>◌, check,
}
use utcs.Bitmap.{words_bytes}
use utcs.FreeMap.{FreeMap, MapFile, allocate, release}

-- BLOCK_SECTOR_SIZE
abbrev pub block_sector_size : ℕ
block_sector_size = 512

-- INDEX_BLOCK_SIZE
abbrev pub index_block_size : ℕ
index_block_size = 126

-- INODE_MAGIC
abbrev pub inode_magic : ℕ
inode_magic = 0x494e_4f44

-- `(block_sector_t) -1`
abbrev pub no_sector : ℕ
no_sector = 2 ^ 32 - 1

-- `struct index_block`; the array `data` is `slots`.
pub record IndexBlock : Type 0 where
  pub next : ℕ
  pub self : ℕ
  pub slots : List ℕ

-- `struct inode_disk`
pub record InodeDisk : Type 0 where
  pub start : ℕ
  pub end : ℕ
  pub is_dir : Bool
  pub size : ℕ
  pub magic : ℕ

pub data Sector : Type 0 where
  bytes : List ℕ → Sector
  index : IndexBlock → Sector
  header : InodeDisk → Sector
  map_part : (part : ℕ) → Sector

-- The device and the map of its free sectors. A data sector of the free map's own file is kept as
-- which part of that file it is (`map_part`): what it holds is that part of the words which
-- `write_map` stored last, so that a write of the map changes just these sectors.
pub record Fs : Type 0 where
  pub free : FreeMap
  pub sectors : ℕ
  pub disk : ℕ → Sector

abbrev pub store : (ℕ → Sector) → ℕ → Sector → ℕ → Sector
store d s x t = if t == s then x else d t

-- `static char zeros[BLOCK_SECTOR_SIZE]`
abbrev pub zeros : List ℕ
zeros = replicate block_sector_size 0

-- A part of the free map's file, with zeros behind the words.
abbrev pub map_bytes : Option MapFile → (part : ℕ) → List ℕ
map_bytes none part = zeros
map_bytes (some f) part =
    take block_sector_size (drop (block_sector_size * part) (words_bytes f.stored) ++ zeros)

abbrev resolve : Option MapFile → Sector → Sector
resolve file (map_part part) = bytes (map_bytes file part)
resolve file (bytes bs) = bytes bs
resolve file (index ib) = index ib
resolve file (header h) = header h

-- What sector `s` of the device holds.
abbrev pub on_device : Fs → (s : ℕ) → Sector
on_device fs s = resolve fs.free.file (fs.disk s)

-- A data sector of the free map's file.
abbrev pub is_part : Sector → Bool
is_part (map_part part) = true
is_part _ = false

same_sector : (a b : Option MapFile) (x : Sector) → is_part x ≡ false → resolve b x ≡ resolve a x
same_sector a b (map_part part) e = absurd (cc e)
same_sector a b (bytes bs) e = refl
same_sector a b (index ib) e = refl
same_sector a b (header h) e = refl

-- A sector that is none of the map's file holds what it held, whatever the map's file has now.
pub on_device_same :
    (fs fs' : Fs) (t : ℕ)
    → is_part (fs.disk t) ≡ false
    → fs'.disk t ≡ fs.disk t
    → on_device fs' t ≡ on_device fs t
on_device_same fs fs' t plain e =
    ap (resolve fs'.free.file) e ∙ same_sector fs.free.file fs'.free.file (fs.disk t) plain

unfoldable pub block_read : Fs → ℕ → Option Sector
block_read fs s = check (ltb s fs.sectors) >> some (on_device fs s)

unfoldable pub block_write : Fs → ℕ → Sector → Option Fs
block_write fs s x = check (ltb s fs.sectors) >> some (record fs { disk = store fs.disk s x })

abbrev as_index : Sector → Option IndexBlock
as_index (index ib) = some ib
as_index _ = none

abbrev as_bytes : Sector → Option (List ℕ)
as_bytes (bytes bs) = some bs
as_bytes _ = none

abbrev as_header : Sector → Option InodeDisk
as_header (header h) = some h
as_header _ = none

unfoldable pub read_index : Fs → ℕ → Option IndexBlock
unfolding block_read
read_index fs s = block_read fs s >>= as_index

unfoldable pub read_bytes : Fs → ℕ → Option (List ℕ)
unfolding block_read
read_bytes fs s = block_read fs s >>= as_bytes

unfoldable pub read_header : Fs → ℕ → Option InodeDisk
unfolding block_read
read_header fs s = block_read fs s >>= as_header

-- `free_map_allocate (1, &sector)`
unfoldable pub take_sector : Fs → Option (Fs × Option ℕ)
take_sector fs = do (free, r) ← allocate fs.free 1; some (record fs { free = free }, r)

-- `free_map_release (sector, 1)`
unfoldable pub give_sector : Fs → ℕ → Option Fs
give_sector fs s = do free ← release fs.free s 1; some (record fs { free = free })
