-- ===== src/Directory/Examples.antt =====
-- Directories with two entries, and a file that dir_remove takes for one.
use utcs.Prelude.{
  ℕ, ◌≡◌, ◌<◌, refl, false, List, [], ◌∷◌, none, some, ◌==◌, ◌>>=◌, length, replicate, arith,
}
use utcs.Inode.{index_block_init, read_at, read_loop, byte_to_sector, copy_out}
use utcs.Inode.Layout.{slot, owner, slot_byte, byte_at}
use utcs.Inode.Slice.{tabulate}
use utcs.Strings.Words.{c_string}
use utcs.OpenInodes.{open_inode, reopen_in}
use utcs.OpenInodes.Files.{Files, open_file, closed, read_inode, write_inode}
use utcs.Strings.{strtok_r, strcmp}
use utcs.Disk.{read_bytes, block_read, read_index}
use utcs.Lifetime.{reopen, close}
use utcs.OpenInodes.Files.{reopen_file, put_inode, close_file}
use utcs.Directory.{dir_reopen, find, rounds, find_entry, entry_size, entry_sector}
use utcs.Directory.Entries.{HasEntries, IsDirectory, list_eq}
use utcs.Directory.Search.{first_named, find_entry-first_named}
use utcs.Directory.OnDisk.{chunks, chunks-HasEntries}
use utcs.Directory.Sample.{
  entry_files, entry_inode, entry_inode-IsFile, entry_inode-IsPresent, first_slot, used_entry,
}
use utcs.Directory.Change.{remove_open, add_entry}
use utcs.Directory.Change.Removal.{used_entries, remove_open_file}
use utcs.Directory.Change.Slots.{first_free}
use utcs.Directory.Change.Added.{IsEntry, add_entry_lem}
use utcs.Directory.Names.{last_slash, split_path}
use utcs.Directory.Names.Paths.{Splits, split_path-last_slash}
use utcs.Directory.Names.Listing.{list_all, listing, AllShort, at_pos, list_all-listing}

abbrev three : List (List ℕ)
three = chunks entry_files.fs first_slot 3 0

three-HasEntries : HasEntries entry_files 2 three
three-HasEntries =
    chunks-HasEntries entry_files 2 refl entry_inode-IsFile entry_inode-IsPresent refl refl 3
      (omega arith)

three-AllShort : AllShort three
unfolding chunks tabulate byte_at slot_byte slot owner index_block_init c_string
three-AllShort = (
  (b'a' ∷ [], refl, omega arith),
  ((b'b' ∷ [], refl, omega arith), ((b'c' ∷ [], refl, omega arith), tt)),
)

three-IsDirectory : IsDirectory entry_files 2 three
unfolding chunks tabulate byte_at slot_byte slot owner index_block_init c_string
three-IsDirectory = record {
  entries = three-HasEntries;
  named = ((b'a' ∷ [], refl), ((b'b' ∷ [], refl), ((b'c' ∷ [], refl), tt)));
}

three_used : 2 < used_entries three
unfolding used_entries chunks tabulate byte_at slot_byte slot owner index_block_init
three_used = omega arith

remove_open_file_example :
    remove_open entry_files (at_pos 1 0) (used_entry 97) (some 0) 2 ≡ some (entry_files, false)
remove_open_file_example =
    remove_open_file entry_files (at_pos 1 0) (used_entry 97) 0 2 3 refl entry_inode-IsFile
      entry_inode-IsPresent refl refl (omega arith) three_used

-- While the entry's inode is open once more.
abbrev twice_open : Files
twice_open = record entry_files { open_inodes = reopen entry_inode ∷ [] }

b_first : first_named three (b'b' ∷ []) 0 ≡ some (used_entry b'b', 40)
unfolding first_named chunks tabulate byte_at slot_byte slot owner index_block_init c_string list_eq
b_first = refl

opened_again : open_file entry_files 2 ≡ some twice_open
unfolding open_file open_inode reopen_in
opened_again = refl

closed_again : close_file twice_open 2 ≡ some entry_files
unfolding close_file close closed put_inode reopen
closed_again = refl

find_entry-first_named_example :
    (k : ℕ) × (rounds entry_files 2 ≡ some k)
    × (find_entry k entry_files 2 (b'b' ∷ 0 ∷ []) 0
        ≡ some (entry_files, 2, some (used_entry b'b', 40)))
unfolding c_string entry_sector
find_entry-first_named_example =
    find_entry-first_named entry_files twice_open entry_files 2 40 three (b'b' ∷ 0 ∷ []) (b'b' ∷ [])
      (used_entry b'b') three-IsDirectory refl b_first opened_again closed_again refl
      entry_inode-IsFile entry_inode-IsPresent refl refl

list_all-listing_example :
    list_all 4 entry_files (at_pos 2 0) (replicate 33 0) ≡ some (listing three)
unfolding chunks
list_all-listing_example =
    list_all-listing entry_files 2 4 (replicate 33 0) three three-HasEntries three-AllShort refl
      (omega arith)

listing_test : listing three ≡ (b'a' ∷ []) ∷ (b'b' ∷ []) ∷ (b'c' ∷ []) ∷ []
unfolding listing chunks tabulate byte_at slot_byte slot owner index_block_init c_string list_eq
listing_test = refl

-- "/bin/ls"
abbrev bin_ls : List ℕ
bin_ls = b'/' ∷ b'b' ∷ b'i' ∷ b'n' ∷ b'/' ∷ b'l' ∷ b's' ∷ []

split_path-last_slash_example :
    Splits bin_ls (split_path bin_ls (last_slash bin_ls (length bin_ls)))
split_path-last_slash_example = split_path-last_slash bin_ls

no_d : find entry_files (at_pos 2 0) (b'd' ∷ 0 ∷ []) none ≡ some (entry_files, none)
unfolding find dir_reopen reopen_file reopen c_string strtok_r read_inode put_inode read_at
    read_loop byte_to_sector copy_out read_bytes block_read read_index close_file close
    index_block_init strcmp
no_d = refl

add_entry_lem_example :
    (e' : List ℕ) × IsEntry e' (b'd' ∷ []) 7
    × (add_entry entry_files (at_pos 2 0) (b'd' ∷ 0 ∷ []) 7 (replicate 40 0) ≡ (do
      (files₂, written) ← write_inode entry_files 2 e' (first_free three 0)
      some (files₂, written == entry_size)))
unfolding c_string
add_entry_lem_example =
    add_entry_lem entry_files entry_files (at_pos 2 0) (b'd' ∷ 0 ∷ []) (b'd' ∷ []) (replicate 40 0)
      7 three no_d three-HasEntries refl refl (omega arith) (omega arith)
