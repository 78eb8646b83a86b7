-- ===== src/Directory/Names/Listing.antt =====
-- dir_readdir of filesys/directory.c in CS439/Project4, call after call: the names in the directory.
use utcs.Prelude.{
  ℕ, zero, suc, ◌+◌, ◌<◌, ◌≤◌, ◌≡◌, refl, ap, ◌∙◌, ◌⊎◌, Bool, true, false, not, List, [], ◌∷◌, ◌++◌,
  Option, none, some, arith, ◌==◌, if◌then◌else◌, ◌&&◌, length, drop, ◌>>=◌, Bool-cases, inl, inr,
  length-append, length-drop,
}
use utcs.OpenInodes.Files.{Files, read_inode}
use utcs.Strings.{strlcpy}
use utcs.Strings.Copy.{strlcpy_lem, take_all}
use utcs.Strings.Words.{c_string, c_string_append}
use utcs.Directory.{Dir, entry_size, entry_name, in_use, name_max, rounds, lock_dir}
use utcs.Directory.Entries.{
  list_eq, Stores, HasEntries, rounds_lem, short_read, c_string-Parts, same_string_lem,
}
use utcs.Directory.Names.{dot, dot_dot, is_listed, next_entry, dir_readdir}

-- dir_readdir until it answers false, each time with the same buffer; the names that it gave.
pub list_all : (fuel : ℕ) → Files → Dir → (name : List ℕ) → Option (List (List ℕ))
list_all zero files dir name = none
list_all (suc fuel) files dir name = do
  (files', dir', read) ← dir_readdir files dir name
  elim read [
    | none ↦ some []
    | some name' ↦ do t ← c_string name'; ts ← list_all fuel files' dir' name'; some (t ∷ ts)
  ]

-- A name that is listed.
abbrev pub visible : List ℕ → Bool
visible t = not (list_eq t (b'.' ∷ [])) && not (list_eq t (b'.' ∷ b'.' ∷ []))

-- Every entry has a name that ends and fits.
abbrev pub AllShort : List (List ℕ) → Type 0
AllShort [] = Unit
AllShort (e ∷ es) =
    ((t : List ℕ) × (c_string (entry_name e) ≡ some t) × (length t ≤ name_max)) × AllShort es

-- The name in front, if the entry is listed.
abbrev pub onto_listing : (e : List ℕ) → Option (List ℕ) → List (List ℕ) → List (List ℕ)
onto_listing e none ts = ts
onto_listing e (some t) ts = if in_use e && visible t then t ∷ ts else ts

-- The names of the entries in use but "." and "..".
unfoldable pub listing : List (List ℕ) → List (List ℕ)
listing [] = []
listing (e ∷ es) = onto_listing e (c_string (entry_name e)) (listing es)

is_listed_lem :
    (e t : List ℕ) → c_string (entry_name e) ≡ some t → is_listed e ≡ some (in_use e && visible t)
unfolding is_listed c_string
is_listed_lem e t q = elim (Bool-cases (in_use e)) [
  | inl u ↦ rw (
    u,
    same_string_lem (entry_name e) dot t (b'.' ∷ []) q refl,
    same_string_lem (entry_name e) dot_dot t (b'.' ∷ b'.' ∷ []) q refl,
  )
  | inr u ↦ rw u
]

-- The copy of a name that fits.
copy_name :
    (name e t : List ℕ)
    → c_string (entry_name e) ≡ some t
    → length t ≤ name_max
    → length name ≡ name_max + 1
    → (name' : List ℕ) × (strlcpy name (entry_name e) (name_max + 1) ≡ some (name', length t))
      × (c_string name' ≡ some t)
      × (length name' ≡ name_max + 1)
copy_name name e t q short room =
    let (rest, cut, ok) = c_string-Parts (entry_name e) t q in
    let run =
      strlcpy_lem name t rest (name_max + 1) (length t) ok (omega arith) (omega arith)
        (omega arith) in
    (
      t ++ (0 ∷ drop (suc (length t)) name),
      rw cut (
          run
          ∙ ap (λ (s : List ℕ). some (s ++ (0 ∷ drop (suc (length t)) name), length t))
              (take_all t)),
      c_string_append t (drop (suc (length t)) name) ok,
      omega (
        arith,
        length-append t (0 ∷ drop (suc (length t)) name),
        length-drop (suc (length t)) name,
      ),
    )

module _ (files : Files) (s : ℕ) where
  -- What a round over the entries from `pos` on ends in: none is listed, or the first that is, with
  -- what is behind it.
  abbrev Reads : (name : List ℕ) → List (List ℕ) → Option (Files × ℕ × Option (List ℕ)) → Type 0
  Reads name es run =
      ((end : ℕ) × (run ≡ some (files, end, none)) × (listing es ≡ []))
      ⊎ ((pos' : ℕ) × (name' : List ℕ) × (t : List ℕ) × (rest : List (List ℕ)) × (run
            ≡ some (files, pos', some name'))
          × (c_string name' ≡ some t)
          × (length name' ≡ name_max + 1)
          × (listing es ≡ t ∷ listing rest)
          × (length rest < length es)
          × Stores files s pos' rest
          × AllShort rest)

  next_entry_stop :
      (fuel pos : ℕ) (name short : List ℕ)
      → read_inode files s entry_size pos ≡ some (files, short)
      → (length short == entry_size) ≡ false
      → next_entry (suc fuel) files s pos name ≡ some (files, pos, none)
  unfolding next_entry
  next_entry_stop fuel pos name short r l = rw (r, l)

  next_entry_found :
      (fuel pos n : ℕ) (name e name' : List ℕ)
      → read_inode files s entry_size pos ≡ some (files, e)
      → (length e == entry_size) ≡ true
      → is_listed e ≡ some true
      → strlcpy name (entry_name e) (name_max + 1) ≡ some (name', n)
      → next_entry (suc fuel) files s pos name ≡ some (files, pos + entry_size, some name')
  unfolding next_entry
  next_entry_found fuel pos n name e name' r l is copied = rw (r, l, is, copied)

  next_entry_skip :
      (fuel pos : ℕ) (name e : List ℕ)
      → read_inode files s entry_size pos ≡ some (files, e)
      → (length e == entry_size) ≡ true
      → is_listed e ≡ some false
      → next_entry (suc fuel) files s pos name ≡ next_entry fuel files s (pos + entry_size) name
  unfolding next_entry
  next_entry_skip fuel pos name e r l is = rw (r, l, is) refl

  next_entry_lem :
      (fuel pos : ℕ) (name : List ℕ) (es : List (List ℕ))
      → length es < fuel
      → length name ≡ name_max + 1
      → Stores files s pos es
      → AllShort es
      → Reads name es (next_entry fuel files s pos name)
  unfolding listing
  next_entry_lem zero pos name es h room stores short = absurd (omega arith)
  next_entry_lem (suc fuel) pos name [] h room (last, r, l) short =
      inl (pos, next_entry_stop fuel pos name last r (short_read last l), refl)
  next_entry_lem (suc fuel) pos name (e ∷ es) h room (r, l, stores) ((t, q, fits), short) =
      elim (Bool-cases (in_use e && visible t)) [
        | inl y ↦
            let (name', copied, is, room') = copy_name name e t q fits room in
            inr (
              pos + entry_size,
              name',
              t,
              es,
              next_entry_found fuel pos (length t) name e name' r l
                  (is_listed_lem e t q ∙ ap some y) copied,
              is,
              room',
              rw (q, y),
              omega arith,
              stores,
              short,
            )
        | inr n ↦
            let run = next_entry_skip fuel pos name e r l (is_listed_lem e t q ∙ ap some n) in
            let same : listing (e ∷ es) ≡ listing es = rw (q, n) in
            elim (next_entry_lem fuel (pos + entry_size) name es (omega arith) room stores short) [
              | inl (end, ran, none_left) ↦ inl (end, run ∙ ran, same ∙ none_left)
              | inr (pos', name', t', rest, ran, is, room', first, fewer, stores', short') ↦ inr (
                pos',
                name',
                t',
                rest,
                run ∙ ran,
                is,
                room',
                same ∙ first,
                omega (arith, fewer),
                stores',
                short',
              )
            ]
      ]

abbrev pub at_pos : (s pos : ℕ) → Dir
at_pos s pos = record { inode = s; pos = pos; locked = false }

dir_readdir_ran :
    (files : Files) (s pos k pos' : ℕ) (name : List ℕ) (read : Option (List ℕ))
    → rounds files s ≡ some k
    → next_entry k files s pos name ≡ some (files, pos', read)
    → dir_readdir files (at_pos s pos) name ≡ some (files, at_pos s pos', read)
unfolding dir_readdir lock_dir
dir_readdir_ran files s pos k pos' name read e r = rw (e, r)

list_from :
    (fuel : ℕ) (files : Files) (s pos k : ℕ) (name : List ℕ) (es : List (List ℕ))
    → length es < fuel
    → length es < k
    → rounds files s ≡ some k
    → length name ≡ name_max + 1
    → Stores files s pos es
    → AllShort es
    → list_all fuel files (at_pos s pos) name ≡ some (listing es)
unfolding list_all
list_from zero files s pos k name es h enough e room stores short = absurd (omega arith)
list_from (suc fuel) files s pos k name es h enough e room stores short =
    elim (next_entry_lem files s k pos name es enough room stores short) [
      | inl (end, ran, none_left) ↦
          rw (dir_readdir_ran files s pos k end name none e ran, none_left)
      | inr (pos', name', t, rest, ran, is, room', first, fewer, stores', short') ↦
          let later =
            list_from fuel files s pos' k name' rest (omega (arith, fewer)) (omega (arith, fewer)) e
              room' stores' short' in
          rw (dir_readdir_ran files s pos k pos' name (some name') e ran, is, later, first)
    ]

-- dir_readdir, called from the start of a directory until it answers false, with one call more as fuel than
-- there are entries, where all names end and fit, reading takes no sector, and the caller's buffer
-- has 33 bytes: it gives the names of the entries in use but "." and "..", each once, in their order.
pub list_all-listing :
    (files : Files) (s fuel : ℕ) (name : List ℕ) (es : List (List ℕ))
    → HasEntries files s es
    → AllShort es
    → length name ≡ name_max + 1
    → length es < fuel
    → list_all fuel files (at_pos s 0) name ≡ some (listing es)
list_all-listing files s fuel name es d short room h =
    let (k, e, enough) = rounds_lem d in
    list_from fuel files s 0 k name es h (omega (arith, enough)) e room d.stores short
