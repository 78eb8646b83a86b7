-- ===== src/Directory/Search.antt =====
-- The search of lookup in filesys/directory.c of CS439/Project4 among the entries of one directory.
use utcs.Prelude.{
  ℕ, zero, suc, ◌+◌, ◌<◌, ◌≡◌, refl, ap, ◌∙◌, Bool, true, false, List, [], ◌∷◌, Option, none, some,
  arith, ◌==◌, if◌then◌else◌, ◌&&◌, length, Bool-cases, inl, inr,
}
use utcs.Inode.{Inode}
use utcs.Inode.Layout.{Blocks}
use utcs.Inode.File.{IsFile}
use utcs.Inode.Present.{IsPresent}
use utcs.OpenInodes.Table.{lookup}
use utcs.OpenInodes.Files.{Files, read_inode, open_file, close_file}
use utcs.Strings.Words.{c_string}
use utcs.Directory.{
  entry_size, entry_name, entry_sector, in_use, matches, arrive, find_entry, rounds,
}
use utcs.Directory.OnDisk.{read_inode_present}
use utcs.Directory.Entries.{
  list_eq, Stores, AllNamed, IsDirectory, rounds_lem, short_read, same_string_lem,
}

-- The entry's name is the string.
abbrev pub is_named : List ℕ → Option (List ℕ) → Bool
is_named n none = false
is_named n (some t) = list_eq n t

-- The first entry in use that has the name, with its offset.
unfoldable pub first_named : List (List ℕ) → (n : List ℕ) → (ofs : ℕ) → Option (List ℕ × ℕ)
first_named [] n ofs = none
first_named (e ∷ es) n ofs =
    let rest = first_named es n (ofs + entry_size) in
    if in_use e && is_named n (c_string (entry_name e)) then some (e, ofs) else rest

-- What the loop does with what it found.
abbrev answer :
    Files → (dir_copy : ℕ) → Option (List ℕ × ℕ) → Option (Files × ℕ × Option (List ℕ × ℕ))
answer files dir_copy none = some (files, dir_copy, none)
answer files dir_copy (some (e, ofs)) = arrive files dir_copy e ofs

matches_lem :
    (e dir_name n t : List ℕ)
    → c_string dir_name ≡ some n
    → c_string (entry_name e) ≡ some t
    → matches e dir_name ≡ some (in_use e && is_named n (c_string (entry_name e)))
unfolding matches
matches_lem e dir_name n t d q = elim (Bool-cases (in_use e)) [
  | inl u ↦ rw (u, q) (same_string_lem dir_name (entry_name e) n t d q)
  | inr u ↦ rw u
]

find_entry_stop :
    (fuel : ℕ) (files : Files) (dir_copy : ℕ) (dir_name short : List ℕ) (ofs : ℕ)
    → read_inode files dir_copy entry_size ofs ≡ some (files, short)
    → (length short == entry_size) ≡ false
    → find_entry (suc fuel) files dir_copy dir_name ofs ≡ some (files, dir_copy, none)
unfolding find_entry
find_entry_stop fuel files dir_copy dir_name short ofs r h = rw (r, h)

find_entry_step :
    (fuel : ℕ) (files : Files) (dir_copy : ℕ) (dir_name e : List ℕ) (ofs : ℕ) (is : Bool)
    → read_inode files dir_copy entry_size ofs ≡ some (files, e)
    → (length e == entry_size) ≡ true
    → matches e dir_name ≡ some is
    → find_entry (suc fuel) files dir_copy dir_name ofs ≡ (
        if is
        then arrive files dir_copy e ofs
        else find_entry fuel files dir_copy dir_name (ofs + entry_size))
unfolding find_entry
find_entry_step fuel files dir_copy dir_name e ofs is r h m = rw (r, h, m) (ground arith)

find_entry_from :
    (fuel : ℕ) (files : Files) (dir_copy : ℕ) (dir_name n : List ℕ) (es : List (List ℕ)) (ofs : ℕ)
    → length es < fuel
    → Stores files dir_copy ofs es
    → AllNamed es
    → c_string dir_name ≡ some n
    → find_entry fuel files dir_copy dir_name ofs ≡ answer files dir_copy (first_named es n ofs)
unfolding first_named
find_entry_from zero files dir_copy dir_name n es ofs h s named d = absurd (omega arith)
find_entry_from (suc fuel) files dir_copy dir_name n [] ofs h (short, r, l) named d =
    find_entry_stop fuel files dir_copy dir_name short ofs r (short_read short l)
find_entry_from (suc fuel) files dir_copy dir_name n (e ∷ es) ofs h (r, l, s) ((t, q), named) d =
    let is : Bool = in_use e && is_named n (c_string (entry_name e)) in
    find_entry_step fuel files dir_copy dir_name e ofs is r l (matches_lem e dir_name n t d q)
    ∙ elim (Bool-cases is) [
      | inl y ↦ rw y refl
      | inr y ↦ rw y (
          find_entry_from fuel files dir_copy dir_name n es (ofs + entry_size) (omega arith) s named
            d)
    ]

-- In a directory whose names all end, where reading takes no sector, the loop of lookup ends within its
-- rounds with `answer` on the first entry in use that has the name.
find_entry-answer :
    (files : Files) (s : ℕ) (es : List (List ℕ)) (dir_name n : List ℕ)
    → IsDirectory files s es
    → c_string dir_name ≡ some n
    → (k : ℕ) × (rounds files s ≡ some k)
      × (find_entry k files s dir_name 0 ≡ answer files s (first_named es n 0))
find_entry-answer files s es dir_name n d name =
    let (k, e, enough) = rounds_lem d.entries in
    (k, e, find_entry_from k files s dir_name n es 0 (omega arith) d.entries.stores d.named name)

-- The loop goes on with what the entry names, where that can be opened, the directory can be closed, and
-- the file behind the entry has no hole.
arrive_lem :
    (files files₁ files₂ : Files) (s ofs : ℕ) (e : List ℕ) {m : ℕ} {inode : Inode} {blk : Blocks}
    → open_file files (entry_sector e) ≡ some files₁
    → close_file files₁ s ≡ some files₂
    → lookup files₂.open_inodes (entry_sector e) ≡ some inode
    → IsFile files₂.fs inode blk m
    → IsPresent inode blk
    → inode.locked ≡ false
    → inode.writers ≡ 0
    → arrive files s e ofs ≡ some (files₂, entry_sector e, some (e, ofs))
unfolding arrive
arrive_lem files files₁ files₂ s ofs e opened left is_open file present unlocked no_writer =
    rw
      (
        opened,
        left,
        read_inode_present files₂ (entry_sector e) is_open file present unlocked no_writer
            entry_size (ofs + entry_size),
      )
      refl

-- In a directory whose names all end, where reading takes no sector, and with an entry in use
-- that has the name: where the inode that the first such entry names can be opened, the directory
-- be closed after that, and the inode is an idle, well-formed file with no hole, the loop of
-- lookup ends within its rounds with that entry, its offset, and that inode in place of the
-- directory.
pub find_entry-first_named :
    (files files₁ files₂ : Files) (s ofs : ℕ) (es : List (List ℕ)) (dir_name n e : List ℕ) {m : ℕ}
    {inode : Inode} {blk : Blocks}
    → IsDirectory files s es
    → c_string dir_name ≡ some n
    → first_named es n 0 ≡ some (e, ofs)
    → open_file files (entry_sector e) ≡ some files₁
    → close_file files₁ s ≡ some files₂
    → lookup files₂.open_inodes (entry_sector e) ≡ some inode
    → IsFile files₂.fs inode blk m
    → IsPresent inode blk
    → inode.locked ≡ false
    → inode.writers ≡ 0
    → (k : ℕ) × (rounds files s ≡ some k)
      × (find_entry k files s dir_name 0 ≡ some (files₂, entry_sector e, some (e, ofs)))
find_entry-first_named files files₁ files₂ s ofs es dir_name n e d name hit opened left is_open file
      present unlocked no_writer =
    let (k, is, found) = find_entry-answer files s es dir_name n d name in
    (
      k,
      is,
      found
          ∙ ap (answer files s) hit
          ∙ arrive_lem files files₁ files₂ s ofs e opened left is_open file present unlocked
              no_writer,
    )
