-- ===== src/Directory/Change/Added.antt =====
-- dir_add of filesys/directory.c in CS439/Project4: the entry that it writes, and where.
use mathlib.Core.List.{append_assoc}
use utcs.Prelude.{
  ℕ, ◌/◌, ◌%◌, ◌^◌, ◌<◌, ◌≤◌, ◌≡◌, refl, ap, ◌∙◌, true, List, ◌∷◌, ◌++◌, none, some, arith, ◌==◌,
  length, get_or, take, drop, ◌>>=◌, length-append, length-drop, subst, length-take, length-set,
  get_or-set_self, get_or-drop, get_or-append,
}
use utcs.OpenInodes.Files.{Files, write_inode}
use utcs.Strings.Bytes.{NoNull}
use utcs.Strings.Words.{c_string, c_string_append, drop-append}
use utcs.Directory.{
  Dir, entry_size, entry_name, entry_sector, name_max, in_use, set_in_use, set_sector, find,
}
use utcs.Directory.Entries.{HasEntries, rounds_lem, c_string-Parts}
use utcs.Directory.Change.{new_entry, add_entry}
use utcs.Directory.Change.Slots.{first_free, free_slot_from, set_name_lem}

-- The entry is in use, has the name and names the sector.
pub record IsEntry (e n : List ℕ) (sector : ℕ) : Type 0 where
  pub size : length e ≡ entry_size
  pub used : in_use e ≡ true
  pub name : c_string (entry_name e) ≡ some n
  pub names_sector : entry_sector e ≡ sector

-- Behind the four bytes of the sector.
abbrev behind_sector : (e : List ℕ) (field : List ℕ) → List ℕ
behind_sector e field = field ++ drop 37 (set_in_use e true)

set_sector_lem :
    (head rest : List ℕ) (sector : ℕ)
    → length head ≡ 4
    → set_sector (head ++ rest) sector
      ≡ sector % 256 ∷ sector / 256 % 256 ∷ sector / 256 ^ 2 % 256 ∷ sector / 256 ^ 3 % 256 ∷ rest
unfolding set_sector
set_sector_lem head rest sector h =
    let same : drop 4 (head ++ rest) ≡ rest =
      subst (λ (k : ℕ). drop k (head ++ rest) ≡ rest) h (drop-append head rest) in
    rw same refl

set_in_use-IsEntry :
    (e field n tail : List ℕ) (sector : ℕ)
    → length e ≡ entry_size
    → NoNull n
    → sector < 2 ^ 32
    → field ≡ n ++ (0 ∷ tail)
    → length field ≡ 33
    → IsEntry
        (sector % 256
          ∷ sector / 256 % 256
          ∷ sector / 256 ^ 2 % 256
          ∷ sector / 256 ^ 3 % 256
          ∷ behind_sector e field)
        n
        sector
unfolding entry_sector
set_in_use-IsEntry e field n tail sector size ok small is wide = record {
  size = omega (
    arith,
    wide,
    size,
    length-append field (drop 37 (set_in_use e true)),
    length-drop 37 (set_in_use e true),
    length-set e 37 1,
  );
  used =
      let at : get_or (behind_sector e field) 33 0 ≡ 1 =
        subst
          (λ (k : ℕ). get_or (behind_sector e field) k 0 ≡ get_or (drop 37 (set_in_use e true)) 0 0)
          wide
          (ap (λ (k : ℕ). get_or (behind_sector e field) k 0) (omega arith)
            ∙ get_or-append field (drop 37 (set_in_use e true)) 0)
        ∙ get_or-drop 37 0 (set_in_use e true)
        ∙ get_or-set_self e 37 1 0 (omega (arith, size)) in
      rw at refl;
  name = rw is (
      ap c_string (append_assoc n (0 ∷ tail) (drop 37 (set_in_use e true)))
      ∙ c_string_append n (tail ++ drop 37 (set_in_use e true)) ok);
  names_sector = omega arith;
}

-- A new entry reads back as what it was made from.
new_entry_lem :
    (e name n : List ℕ) (sector : ℕ)
    → length e ≡ entry_size
    → c_string name ≡ some n
    → length n ≤ name_max
    → sector < 2 ^ 32
    → (e' : List ℕ) × (new_entry e name sector ≡ some e') × IsEntry e' n sector
unfolding new_entry
new_entry_lem e name n sector size is fits small =
    let (rest, cut, ok) = c_string-Parts name n is in
    let e₁ = set_in_use e true in
    let (tail, run, wide) =
      set_name_lem e₁ n rest ok fits (omega (arith, size, length-set e 37 1)) in
    let field = n ++ (0 ∷ tail) in
    (
      sector % 256
          ∷ sector / 256 % 256
          ∷ sector / 256 ^ 2 % 256
          ∷ sector / 256 ^ 3 % 256
          ∷ behind_sector e field,
      rw (cut, run)
          (ap some (
            set_sector_lem (take 4 e₁) (behind_sector e field) sector
              (omega (arith, size, length-set e 37 1, length-take 4 e₁)))),
      set_in_use-IsEntry e field n tail sector size ok small refl wide,
    )

-- dir_add for a name that the search did not find, which ends and fits: in a directory whose entries
-- can be read, it writes one entry at the place of the first that is not in use, or behind the last;
-- the entry is in use, has the name and names the sector; the answer is whether all of it was written.
pub add_entry_lem :
    (files files₁ : Files) (dir : Dir) (name n e : List ℕ) (sector : ℕ) (es : List (List ℕ))
    → find files dir name none ≡ some (files₁, none)
    → HasEntries files₁ dir.inode es
    → length e ≡ entry_size
    → c_string name ≡ some n
    → length n ≤ name_max
    → sector < 2 ^ 32
    → (e' : List ℕ) × IsEntry e' n sector
      × (add_entry files dir name sector e ≡ (do
        (files₂, written) ← write_inode files₁ dir.inode e' (first_free es 0)
        some (files₂, written == entry_size)))
unfolding add_entry
add_entry_lem files files₁ dir name n e sector es absent d size is fits small =
    let (k, r, enough) = rounds_lem d in
    let (e₁, slot, size₁) =
      free_slot_from k files₁ dir.inode e 0 es (omega (arith, enough)) size d.stores in
    let (e', made, entry) = new_entry_lem e₁ name n sector size₁ is fits small in
    (e', entry, rw (absent, r, slot, made) refl)
