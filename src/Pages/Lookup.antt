-- ===== src/Pages/Lookup.antt =====
-- The supplemental page table of CS439/Project3 as a finite map from addresses to entries.
use utcs.Prelude.{
  ℕ, ◌≡◌, refl, sym, ap, ◌∙◌, false, List, [], ◌∷◌, ◌++◌, Option, none, some, ◌==◌, if◌then◌else◌,
  ==_iff, arith, Bool-cases, inl, inr,
}
use utcs.Pages.{Spte, add_spte, get_spte, remove_spte}

-- No address has two entries.
unfoldable pub IsTable : List Spte → Type 0
IsTable [] = Unit
IsTable (e ∷ rest) = (get_spte rest e.vaddr ≡ none) × IsTable rest

-- An entry where there was none.
abbrev pub or_else : Option Spte → Option Spte → Option Spte
or_else none b = b
or_else (some e) b = some e

get_spte-append :
    (spt more : List Spte) (u : ℕ)
    → get_spte (spt ++ more) u ≡ or_else (get_spte spt u) (get_spte more u)
unfolding get_spte
get_spte-append [] more u = refl
get_spte-append (e ∷ rest) more u = ground (arith, get_spte-append rest more u)

absent_behind :
    (e : Spte) (rest : List Spte) (v : ℕ)
    → get_spte (e ∷ rest) v ≡ none
    → ((e.vaddr == v) ≡ false) × (get_spte rest v ≡ none)
unfolding get_spte
absent_behind e rest v n = elim (Bool-cases (e.vaddr == v)) [
  | inl h ↦ absurd (ground arith)
  | inr h ↦ (h, ground arith)
]

add_spte-IsTable :
    (g : Spte) (spt : List Spte) (v : ℕ)
    → IsTable spt
    → get_spte spt v ≡ none
    → IsTable (add_spte g spt v)
unfolding get_spte add_spte IsTable
add_spte-IsTable g [] v t n = (refl, tt)
add_spte-IsTable g (e ∷ rest) v (ne, t) n =
    let (other, absent) = absent_behind e rest v n in
    (
      get_spte-append rest (record g { vaddr = v } ∷ []) e.vaddr
          ∙ ground (arith, ne, ==_iff e.vaddr v, ==_iff v e.vaddr, other),
      add_spte-IsTable g rest v t absent,
    )

get_spte-add_spte :
    (g : Spte) (spt : List Spte) (v u : ℕ)
    → get_spte spt v ≡ none
    → get_spte (add_spte g spt v) u
      ≡ (if v == u then some (record g { vaddr = v }) else get_spte spt u)
unfolding get_spte add_spte
get_spte-add_spte g [] v u n = refl
get_spte-add_spte g (e ∷ rest) v u n =
    let (other, absent) = absent_behind e rest v n in
    ground (
      arith,
      get_spte-add_spte g rest v u absent,
      other,
      ==_iff e.vaddr u,
      ==_iff v u,
      ==_iff e.vaddr v,
    )

get_spte-remove_spte :
    (spt : List Spte) (v u : ℕ)
    → IsTable spt
    → get_spte (remove_spte spt v) u ≡ (if v == u then none else get_spte spt u)
unfolding get_spte remove_spte IsTable
get_spte-remove_spte [] v u t = ground arith
get_spte-remove_spte (e ∷ rest) v u (ne, t) = elim (Bool-cases (e.vaddr == v)) [
  | inl h ↦
      let same : e.vaddr ≡ v = (==_iff e.vaddr v).0 h in
      rw h (elim (Bool-cases (v == u)) [
        | inl k ↦ rw k (ap (get_spte rest) (sym ((==_iff v u).0 k)) ∙ (rw same at ne))
        | inr k ↦ rw (k, same, k)
      ])
  | inr h ↦ rw h (
      ground
        (arith, get_spte-remove_spte rest v u t, ==_iff v u, ==_iff e.vaddr v, ==_iff e.vaddr u, h))
]

remove_spte-IsTable : (spt : List Spte) (v : ℕ) → IsTable spt → IsTable (remove_spte spt v)
unfolding remove_spte IsTable
remove_spte-IsTable [] v t = tt
remove_spte-IsTable (e ∷ rest) v (ne, t) = elim (Bool-cases (e.vaddr == v)) [
  | inl h ↦ rw h t
  | inr h ↦
      rw h
        (get_spte-remove_spte rest v e.vaddr t ∙ ground (arith, ne), remove_spte-IsTable rest v t)
]

-- The table of a process in which no address has two entries is a finite map: adding an entry for an
-- address that has none gives that address the new entry, removing one takes away the entry of
-- that address, other addresses keep theirs, and no address comes to have two.
pub spt_refines :
    (g : Spte) (spt : List Spte) (v : ℕ)
    → IsTable spt
    → get_spte spt v ≡ none
    → (w : ℕ)
    → IsTable (add_spte g spt v)
      × IsTable (remove_spte spt w)
      × ((u : ℕ)
          → get_spte (add_spte g spt v) u
            ≡ (if v == u then some (record g { vaddr = v }) else get_spte spt u))
      × ((u : ℕ) → get_spte (remove_spte spt w) u ≡ (if w == u then none else get_spte spt u))
spt_refines g spt v t n w = (
  add_spte-IsTable g spt v t n,
  remove_spte-IsTable spt w t,
  λ u. get_spte-add_spte g spt v u n,
  λ u. get_spte-remove_spte spt w u t,
)
