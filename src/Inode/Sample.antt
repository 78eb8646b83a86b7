-- ===== src/Inode/Sample.antt =====
-- A file of filesys/inode.c to run the code on: 1300 bytes on a device of sixteen sectors, its
-- inode in sector 2, its one index block in sector 3, the second 512 bytes in sector 4, and holes.
-- Sector 1 is the data of the free map's file.
use native.Mathlib.Nat.{mod-lt}
use utcs.Prelude.{
  ℕ, ◌%◌, ◌≤◌, ◌≡◌, refl, sym, ◌∙◌, true, false, [], ◌∷◌, some, arith, ◌==◌, if◌then◌else◌,
  replicate, get_or-replicate_in, ==_iff, ap,
}
use utcs.Bitmap.Bits.{holds}
use utcs.FreeMap.{FreeMap}
use utcs.FreeMap.Alloc.{used, written}
use utcs.Disk.{
  Fs, Sector, bytes, index, header, map_part, InodeDisk, index_block_size, zeros, inode_magic,
  store,
}
use utcs.Inode.{Inode, index_block_init}
use utcs.Inode.Layout.{
  Blocks, slot, owner, is_hole, filled, slot-filled, IsBlock, Managed, Layout, owner-filled,
}
use utcs.Inode.File.{IsFile}

abbrev pub five_used : FreeMap
five_used = record {
  map = record { bit_cnt = 16; bits = 31 ∷ [] };
  file = some (record { stored = 31 ∷ []; denied = false });
}

abbrev pub none_free : FreeMap
none_free = record {
  map = record { bit_cnt = 16; bits = 65535 ∷ [] };
  file = some (record { stored = 65535 ∷ []; denied = false });
}

abbrev empty_blocks : Blocks
empty_blocks k = index_block_init 3

abbrev pub one_slot : Blocks
one_slot = filled empty_blocks 1 4

abbrev pub small_head : InodeDisk
small_head = record { start = 3; end = 3; is_dir = false; size = 1300; magic = inode_magic }

abbrev small_disk : ℕ → Sector
small_disk =
    store
      (store (store (store (λ t. bytes zeros) 1 (map_part 0)) 2 (header small_head)) 3
        (index (one_slot 0)))
      4 (bytes (replicate 512 7))

abbrev pub small_with : FreeMap → Fs
small_with free = record { free = free; sectors = 16; disk = small_disk }

abbrev pub small_fs : Fs
small_fs = small_with five_used

-- The same file on a device without a free sector.
abbrev pub full_fs : Fs
full_fs = small_with none_free

abbrev pub small_inode : Inode
small_inode = record {
  sector = 2;
  open_cnt = 1;
  removed = false;
  deny_write_cnt = 0;
  on_disk = small_head;
  locked = false;
  readers = 0;
  writers = 0;
}

small_slot : (g : ℕ) → slot one_slot g ≡ (if g == 1 then 4 else 3)
unfolding slot index_block_init
small_slot g =
    slot-filled empty_blocks 1 4 g refl
    ∙ ap (λ (s : ℕ). if g == 1 then 4 else s)
        (get_or-replicate_in index_block_size (g % index_block_size) 3 0 (mod-lt g (omega arith)))

small_owner : (g : ℕ) → owner one_slot g ≡ 3
unfolding owner index_block_init
small_owner g = owner-filled empty_blocks 1 4 g

only_slot : (g : ℕ) → is_hole one_slot g ≡ false → g ≡ 1
only_slot g present = ground (arith, present, small_slot g, small_owner g)

first_block : (k : ℕ) → k ≤ 0 → k ≡ 0
first_block k h = omega arith

-- The file on any sound map in which its sectors are in use.
module _ (free : FreeMap) (managed : Managed (small_with free)) (used_2 : used free 2 ≡ true)
    (used_3 : used free 3 ≡ true) (used_4 : used free 4 ≡ true) where
  small-IsBlock : IsBlock (small_with free) 4
  small-IsBlock = record { inside = omega arith; in_use = used_4; kind = refl; full = refl }

  small-Layout : Layout (small_with free) one_slot 0
  unfolding index_block_init
  small-Layout = record {
    on_disk = λ k h. rw (first_block k h) refl;
    inside = λ k h. rw (first_block k h) (omega arith);
    in_use = λ k h. rw (first_block k h) used_3;
    linked = λ k h. absurd (omega arith);
    ended = refl;
    distinct = λ j k p q e. omega arith;
    width = λ k h. rw (first_block k h) refl;
    slots_in = λ g h present. rw (small_slot g, (==_iff g 1).1 (only_slot g present)) small-IsBlock;
    apart = λ g h p q a b e. only_slot g a ∙ sym (only_slot h b);
  }

  sample-IsFile : IsFile (small_with free) small_inode one_slot 0
  unfolding index_block_init
  sample-IsFile = record {
    layout = small-Layout;
    managed = managed;
    starts = refl;
    ends = refl;
    long_enough = omega arith;
    head = small_head;
    headed = refl;
    head_inside = omega arith;
    head_used = used_2;
  }

pub small-IsFile : IsFile small_fs small_inode one_slot 0
unfolding holds
small-IsFile = sample-IsFile five_used managed refl refl refl
  where
    managed : Managed small_fs
    managed = record {
      sound = record {
        map_valid = record { words = refl; small = omega arith };
        nonempty = omega arith;
        synced = written refl;
      };
      covers = refl;
    }

pub full-IsFile : IsFile full_fs small_inode one_slot 0
unfolding holds
full-IsFile = sample-IsFile none_free managed refl refl refl
  where
    managed : Managed full_fs
    managed = record {
      sound = record {
        map_valid = record { words = refl; small = omega arith };
        nonempty = omega arith;
        synced = written refl;
      };
      covers = refl;
    }
