-- ===== src/Pages/Examples.antt =====
-- The supplemental page table at a table of two pages.
use utcs.Prelude.{ℕ, ◌≡◌, refl, true, false, List, [], ◌∷◌, none, some, ◌==◌, if◌then◌else◌}
use utcs.Pages.{Spte, add_spte, get_spte, remove_spte}
use utcs.Pages.Lookup.{IsTable, spt_refines}

abbrev pub entry_for : (vaddr : ℕ) → Spte
entry_for vaddr = record {
  vaddr = vaddr;
  paddr = some 5;
  swap = false;
  sector_offset = 0;
  stack = true;
  file_system = false;
  write = true;
  file = none;
  ofs = 0;
  page_read_bytes = 0;
  index = some 0;
}

abbrev two_pages : List Spte
two_pages = entry_for 4096 ∷ entry_for 8192 ∷ []

two_pages-IsTable : IsTable two_pages
unfolding IsTable get_spte
two_pages-IsTable = (refl, (refl, tt))

no_third : get_spte two_pages 12288 ≡ none
unfolding get_spte
no_third = refl

spt_refines_example :
    IsTable (add_spte (entry_for 0) two_pages 12288)
    × IsTable (remove_spte two_pages 4096)
    × ((u : ℕ)
        → get_spte (add_spte (entry_for 0) two_pages 12288) u ≡ (
            if 12288 == u
            then some (record (entry_for 0) { vaddr = 12288 })
            else get_spte two_pages u))
    × ((u : ℕ)
        → get_spte (remove_spte two_pages 4096) u
          ≡ (if 4096 == u then none else get_spte two_pages u))
spt_refines_example = spt_refines (entry_for 0) two_pages 12288 two_pages-IsTable no_third 4096
