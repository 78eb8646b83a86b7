-- ===== src/Directory/Sample.antt =====
-- A file of 120 bytes, three entries, for directory.c of CS439/Project4, on the device of the sample of inode.c: its
-- inode in sector 2, its index block in sector 3, its bytes in sector 4, with no hole.
use native.Mathlib.Nat.{mod-lt}
use utcs.Prelude.{
  ℕ, ◌%◌, ◌≤◌, ◌≡◌, refl, sym, ◌∙◌, [], ◌∷◌, arith, ◌++◌, false, zero, suc, List, ◌==◌,
  if◌then◌else◌, replicate, get_or-replicate_in, ==_iff, ap,
}
use utcs.Bitmap.Bits.{holds}
use utcs.FreeMap.Alloc.{written}
use utcs.Disk.{
  Fs, Sector, bytes, index, header, InodeDisk, index_block_size, zeros, inode_magic, store,
}
use utcs.Inode.{Inode, index_block_init}
use utcs.Inode.Layout.{
  Blocks, slot, owner, is_hole, filled, slot-filled, IsBlock, Managed, Layout, owner-filled,
}
use utcs.Inode.File.{IsFile}
use utcs.Inode.Present.{IsPresent}
use utcs.Inode.Sample.{five_used}
use utcs.OpenInodes.Files.{Files}

-- An entry in use for sector 2, where this very file's inode is, with a name of one byte.
abbrev pub used_entry : (name : ℕ) → List ℕ
used_entry name = 2 ∷ 0 ∷ 0 ∷ 0 ∷ name ∷ (replicate 32 0 ++ (1 ∷ 0 ∷ 0 ∷ []))

abbrev three_entries : List ℕ
three_entries = used_entry b'a' ++ (used_entry b'b' ++ (used_entry b'c' ++ replicate 392 0))

abbrev empty_blocks : Blocks
empty_blocks k = index_block_init 3

abbrev pub first_slot : Blocks
first_slot = filled empty_blocks 0 4

abbrev entry_head : InodeDisk
entry_head = record { start = 3; end = 3; is_dir = false; size = 120; magic = inode_magic }

abbrev entry_disk : ℕ → Sector
entry_disk =
    store (store (store (λ t. bytes zeros) 2 (header entry_head)) 3 (index (first_slot 0))) 4
      (bytes three_entries)

abbrev pub entry_fs : Fs
entry_fs = record { free = five_used; sectors = 16; disk = entry_disk }

abbrev pub entry_inode : Inode
entry_inode = record {
  sector = 2;
  open_cnt = 1;
  removed = false;
  deny_write_cnt = 0;
  on_disk = entry_head;
  locked = false;
  readers = 0;
  writers = 0;
}

abbrev pub entry_files : Files
entry_files = record { fs = entry_fs; open_inodes = entry_inode ∷ [] }

small_slot : (g : ℕ) → slot first_slot g ≡ (if g == 0 then 4 else 3)
unfolding slot index_block_init
small_slot g =
    slot-filled empty_blocks 0 4 g refl
    ∙ ap (λ (s : ℕ). if g == 0 then 4 else s)
        (get_or-replicate_in index_block_size (g % index_block_size) 3 0 (mod-lt g (omega arith)))

small_owner : (g : ℕ) → owner first_slot g ≡ 3
unfolding owner index_block_init
small_owner g = owner-filled empty_blocks 0 4 g

only_slot : (g : ℕ) → is_hole first_slot g ≡ false → g ≡ 0
only_slot g present = ground (arith, present, small_slot g, small_owner g)

first_block : (k : ℕ) → k ≤ 0 → k ≡ 0
first_block k h = omega arith

entry_fs-Managed : Managed entry_fs
unfolding holds
entry_fs-Managed = record {
  sound = record {
    map_valid = record { words = refl; small = omega arith };
    nonempty = omega arith;
    synced = written refl;
  };
  covers = refl;
}

small-IsBlock : IsBlock entry_fs 4
unfolding holds
small-IsBlock = record { inside = omega arith; in_use = refl; kind = refl; full = refl }

small-Layout : Layout entry_fs first_slot 0
unfolding index_block_init holds
small-Layout = record {
  on_disk = λ k h. rw (first_block k h) refl;
  inside = λ k h. rw (first_block k h) (omega arith);
  in_use = λ k h. rw (first_block k h) refl;
  linked = λ k h. absurd (omega arith);
  ended = refl;
  distinct = λ j k p q e. omega arith;
  width = λ k h. rw (first_block k h) refl;
  slots_in = λ g h present. rw (small_slot g, (==_iff g 0).1 (only_slot g present)) small-IsBlock;
  apart = λ g h p q a b e. only_slot g a ∙ sym (only_slot h b);
}

pub entry_inode-IsFile : IsFile entry_fs entry_inode first_slot 0
unfolding index_block_init holds
entry_inode-IsFile = record {
  layout = small-Layout;
  managed = entry_fs-Managed;
  starts = refl;
  ends = refl;
  long_enough = omega arith;
  head = entry_head;
  headed = refl;
  head_inside = omega arith;
  head_used = refl;
}

pub entry_inode-IsPresent : IsPresent entry_inode first_slot
entry_inode-IsPresent zero h = rw (small_slot 0, small_owner 0)
entry_inode-IsPresent (suc g) h = absurd (omega arith)
