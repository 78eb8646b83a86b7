-- ===== src/Directory/Entries.antt =====
-- The entries of a directory of filesys/directory.c in CS439/Project4, and their names.
use utcs.Prelude.{
  ℕ, ◌+◌, ◌/◌, ◌≤◌, ◌<◌, ◌≡◌, refl, ap, Bool, true, false, List, [], ◌∷◌, ◌++◌, some, arith, ◌==◌,
  ◌&&◌, length, Bool-cases, inl, inr, ne→==_false, ==_iff, some_inj, Option-cases, subst,
}
use utcs.Inode.{Inode, inode_length}
use utcs.OpenInodes.Table.{lookup}
use utcs.OpenInodes.Files.{Files, read_inode}
use utcs.Strings.{strcmp}
use utcs.Strings.Bytes.{NoNull}
use utcs.Strings.Words.{c_string}
use utcs.Directory.{entry_size, entry_name, same_string, rounds}

-- Two strings are the same.
unfoldable pub list_eq : List ℕ → List ℕ → Bool
list_eq [] [] = true
list_eq [] (y ∷ t) = false
list_eq (x ∷ s) [] = false
list_eq (x ∷ s) (y ∷ t) = x == y && list_eq s t

-- Reading the directory gives these entries from the offset on, and then its end; reading takes no
-- sector, since there is no hole in the file.
abbrev pub Stores : Files → (inode ofs : ℕ) → List (List ℕ) → Type 0
Stores files inode ofs [] =
    (short : List ℕ) × (read_inode files inode entry_size ofs ≡ some (files, short))
    × (length short < entry_size)
Stores files inode ofs (e ∷ es) =
    (read_inode files inode entry_size ofs ≡ some (files, e))
    × ((length e == entry_size) ≡ true)
    × Stores files inode (ofs + entry_size) es

pub short_read : (short : List ℕ) → length short < entry_size → (length short == entry_size) ≡ false
short_read short h = ground arith

-- Every entry has a name that ends.
abbrev pub AllNamed : List (List ℕ) → Type 0
AllNamed [] = Unit
AllNamed (e ∷ es) = ((t : List ℕ) × (c_string (entry_name e) ≡ some t)) × AllNamed es

-- The open inode has these entries, whatever they mean, and is as long as they are.
pub record HasEntries (files : Files) (s : ℕ) (es : List (List ℕ)) : Type 0 where
  pub inode : Inode
  pub is_open : lookup files.open_inodes s ≡ some inode
  pub enough : length es ≤ inode_length inode / entry_size
  pub stores : Stores files s 0 es

-- They are those of a directory.
pub record IsDirectory (files : Files) (s : ℕ) (es : List (List ℕ)) : Type 0 where
  pub entries : HasEntries files s es
  pub named : AllNamed es

pub rounds_lem :
    {files : Files} {s : ℕ} {es : List (List ℕ)} (d : HasEntries files s es)
    → (n : ℕ) × (rounds files s ≡ some n) × (length es + 1 ≤ n)
rounds_lem d = (inode_length d.inode / entry_size + 1, rw d.is_open, omega (arith, d.enough))

-- A string that ends, taken apart.
abbrev Parts : (a s : List ℕ) → Type 0
Parts a s = (rest : List ℕ) × (a ≡ s ++ (0 ∷ rest)) × NoNull s

pub c_string-Parts : (a s : List ℕ) → c_string a ≡ some s → Parts a s
unfolding c_string
c_string-Parts [] s e = absurd (cc e)
c_string-Parts (x ∷ a) s e = elim (Bool-cases (x == 0)) [
  | inl z ↦
      let q : [] ≡ s = some_inj (rw z at e) in
      subst (Parts (x ∷ a)) q (a, ap (λ (y : ℕ). y ∷ a) ((==_iff x 0).0 z), tt)
  | inr nz ↦ elim (Option-cases (c_string a)) [
    | inl fault ↦ absurd (cc (rw (nz, fault) at e))
    | inr (t, f) ↦
        let q : x ∷ t ≡ s = some_inj (rw (nz, f) at e) in
        let (rest, cut, ok) = c_string-Parts a t f in
        subst (Parts (x ∷ a)) q (rest, ap (◌∷◌ x) cut, ((λ h. cc (nz, (==_iff x 0).1 h)), ok))
  ]
]

same_string_append :
    (s t rest more : List ℕ)
    → NoNull s
    → NoNull t
    → same_string (s ++ (0 ∷ rest)) (t ++ (0 ∷ more)) ≡ some (list_eq s t)
unfolding same_string list_eq strcmp
same_string_append [] [] rest more a b = refl
same_string_append [] (y ∷ t) rest more a (ne, b) = ground arith
same_string_append (x ∷ s) [] rest more (ne, a) b = ground arith
same_string_append (x ∷ s) (y ∷ t) rest more (nx, a) (ny, b) = elim (Bool-cases (x == y)) [
  | inl e ↦ rw (ne→==_false x 0 nx, e) (same_string_append s t rest more a b)
  | inr e ↦ rw (ne→==_false x 0 nx, e) (ground (arith, e))
]

-- `!strcmp (a, b)` on strings that end.
pub same_string_lem :
    (a b s t : List ℕ)
    → c_string a ≡ some s
    → c_string b ≡ some t
    → same_string a b ≡ some (list_eq s t)
same_string_lem a b s t e f =
    let (rest, cut, ok) = c_string-Parts a s e in
    let (more, cut', ok') = c_string-Parts b t f in
    rw (cut, cut') (same_string_append s t rest more ok ok')
