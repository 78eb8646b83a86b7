-- ===== src/Directory/Change/Removal.antt =====
-- dir_length and the checks of dir_remove in filesys/directory.c of CS439/Project4.
use utcs.Prelude.{
  ℕ, zero, suc, ◌+◌, ◌*◌, ◌<◌, ◌≡◌, refl, ap, ◌∙◌, Bool, false, List, [], ◌∷◌, some, arith, ◌==◌,
  if◌then◌else◌, ◌||◌, length, ltb, lt→ltb, Bool-cases, inl, inr,
}
use utcs.FreeMap.{root_dir_sector}
use utcs.OpenInodes.Files.{Files, is_removed}
use utcs.Directory.{Dir, entry_size, in_use}
use utcs.Directory.Entries.{Stores, HasEntries, rounds_lem, short_read}
use utcs.Inode.{Inode, inode_length}
use utcs.Inode.Layout.{Blocks}
use utcs.Inode.File.{IsFile}
use utcs.Inode.Present.{IsPresent}
use utcs.OpenInodes.Table.{lookup}
use utcs.Directory.OnDisk.{chunks, chunks-HasEntries}
use utcs.Directory.Change.{count_entries, dir_length, remove_open, erase}

-- How many of the entries are in use.
unfoldable pub used_entries : List (List ℕ) → ℕ
used_entries [] = 0
used_entries (e ∷ es) = if in_use e then 1 + used_entries es else used_entries es

count_entries_from :
    (fuel : ℕ) (files : Files) (inode ofs count : ℕ) (es : List (List ℕ))
    → length es < fuel
    → Stores files inode ofs es
    → count_entries fuel files inode ofs count ≡ some (files, count + used_entries es)
unfolding count_entries used_entries
count_entries_from zero files inode ofs count es h s = absurd (omega arith)
count_entries_from (suc fuel) files inode ofs count [] h (short, r, l) =
    rw (r, short_read short l) (ap (λ (k : ℕ). some (files, k)) (omega arith))
count_entries_from (suc fuel) files inode ofs count (e ∷ es) h (r, l, s) =
    elim (Bool-cases (in_use e)) [
      | inl y ↦
          rw (r, l, y)
            (count_entries_from fuel files inode (ofs + entry_size) (count + 1) es (omega arith) s
              ∙ ap (λ (k : ℕ). some (files, k)) (omega arith))
      | inr n ↦
          rw (r, l, n)
            (count_entries_from fuel files inode (ofs + entry_size) count es (omega arith) s)
    ]

-- dir_length of a file whose entries can be read: how many are in use.
dir_length_lem :
    (files : Files) (s : ℕ) (es : List (List ℕ))
    → HasEntries files s es
    → dir_length files s ≡ some (files, used_entries es)
unfolding dir_length
dir_length_lem files s es d =
    let (k, e, enough) = rounds_lem d in
    rw e (
      count_entries_from k files s 0 0 es (omega arith) d.stores
      ∙ ap (λ (n : ℕ). some (files, n)) (omega arith))

-- dir_remove where the inode of the name is open, whatever kind of file it is, read as entries of a
-- directory: where more than two of them are in use, or it is the root or was removed before, the
-- answer is false and nothing changes; else it goes on to erase the entry.
pub remove_open_lem :
    (files : Files) (dir : Dir) (e : List ℕ) (ofs s : ℕ) (es : List (List ℕ)) (removed : Bool)
    → HasEntries files s es
    → is_removed files s ≡ some removed
    → remove_open files dir e (some ofs) s ≡ (
        if ltb 2 (used_entries es) || s == root_dir_sector || removed
        then some (files, false)
        else erase files dir e ofs s)
unfolding remove_open
remove_open_lem files dir e ofs s es removed d r = rw (dir_length_lem files s es d, r) refl

-- Behind the open inode is a file, of whatever kind: idle, with no hole, of 40 * n bytes. dir_remove reads
-- those bytes as entries of a directory: where the byte for in_use is not 0 in more than two of them,
-- it answers false and changes nothing, so a regular file with such contents cannot be removed.
pub remove_open_file :
    (files : Files) (dir : Dir) (e : List ℕ) (ofs s n : ℕ) {m : ℕ} {inode : Inode} {blk : Blocks}
    → lookup files.open_inodes s ≡ some inode
    → IsFile files.fs inode blk m
    → IsPresent inode blk
    → inode.locked ≡ false
    → inode.writers ≡ 0
    → inode_length inode ≡ entry_size * n
    → 2 < used_entries (chunks files.fs blk n 0)
    → remove_open files dir e (some ofs) s ≡ some (files, false)
remove_open_file files dir e ofs s n {m} {inode} {blk} is_open file present unlocked no_writer len
      many =
    remove_open_lem files dir e ofs s (chunks files.fs blk n 0) inode.removed
      (chunks-HasEntries files s is_open file present unlocked no_writer n len) (rw is_open)
    ∙ rw (lt→ltb 2 (used_entries (chunks files.fs blk n 0)) many) refl
