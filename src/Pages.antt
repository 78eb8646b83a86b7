-- ===== src/Pages.antt =====
-- vm/supplemental-table.c of CS439/Project3: the pages of a process, in a list. An entry's frame is
-- `none` for NULL, its index is `none` for -1; what malloc leaves in a new entry is given.
pub mod Lookup
pub mod Examples
use utcs.Prelude.{ℕ, Bool, List, [], ◌∷◌, ◌++◌, Option, none, some, ◌==◌, if◌then◌else◌}

-- struct spte
pub record Spte : Type 0 where
  pub vaddr : ℕ
  pub paddr : Option ℕ
  pub swap : Bool
  pub sector_offset : ℕ
  pub stack : Bool
  pub file_system : Bool
  pub write : Bool
  pub file : Option ℕ
  pub ofs : ℕ
  pub page_read_bytes : ℕ
  pub index : Option ℕ

-- add_spte
pub add_spte : (garbage : Spte) → List Spte → (vaddr : ℕ) → List Spte
add_spte garbage spt vaddr = spt ++ record garbage { vaddr = vaddr } ∷ []

-- get_spte
unfoldable pub get_spte : List Spte → (vaddr : ℕ) → Option Spte
get_spte [] vaddr = none
get_spte (entry ∷ rest) vaddr = if entry.vaddr == vaddr then some entry else get_spte rest vaddr

-- remove_spte
pub remove_spte : List Spte → (vaddr : ℕ) → List Spte
remove_spte [] vaddr = []
remove_spte (entry ∷ rest) vaddr =
    if entry.vaddr == vaddr then rest else entry ∷ remove_spte rest vaddr
