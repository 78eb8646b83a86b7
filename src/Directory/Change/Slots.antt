-- ===== src/Directory/Change/Slots.antt =====
-- dir_add of filesys/directory.c in CS439/Project4: where the new entry goes, and what it holds.
use mathlib.Core.List.{append-nil}
use utcs.Prelude.{
  ℕ, zero, suc, ◌+◌, ◌<◌, ◌≤◌, ◌≡◌, refl, ap, ◌∙◌, List, [], ◌∷◌, ◌++◌, some, arith, if◌then◌else◌,
  length, take, drop, Bool-cases, inl, inr, length-append, length-drop, length-take, ==_iff,
}
use utcs.OpenInodes.Files.{Files}
use utcs.Strings.Bytes.{NoNull}
use utcs.Strings.Copy.{strlcpy_lem, take_all}
use utcs.Directory.{entry_size, name_max, in_use, set_name, overwritten}
use utcs.Directory.Entries.{Stores, short_read}
use utcs.Directory.Change.{free_slot}

-- The offset of the first entry that is not in use, or of the end.
unfoldable pub first_free : List (List ℕ) → (ofs : ℕ) → ℕ
first_free [] ofs = ofs
first_free (e ∷ es) ofs = if in_use e then first_free es (ofs + entry_size) else ofs

drop_whole : (n : ℕ) (e : List ℕ) → length e ≤ n → drop n e ≡ []
drop_whole zero [] h = refl
drop_whole zero (x ∷ e) h = absurd (omega arith)
drop_whole (suc n) [] h = refl
drop_whole (suc n) (x ∷ e) h = drop_whole n e (omega arith)

-- A whole read leaves nothing of what `e` held.
overwritten_whole :
    (e buffer : List ℕ)
    → length e ≡ entry_size
    → length buffer ≡ entry_size
    → overwritten e buffer ≡ buffer
overwritten_whole e buffer h k =
    ap (◌++◌ buffer) (drop_whole (length buffer) e (omega arith)) ∙ append-nil buffer

pub free_slot_from :
    (fuel : ℕ) (files : Files) (inode : ℕ) (e : List ℕ) (ofs : ℕ) (es : List (List ℕ))
    → length es < fuel
    → length e ≡ entry_size
    → Stores files inode ofs es
    → (e' : List ℕ) × (free_slot fuel files inode e ofs ≡ some (files, first_free es ofs, e'))
      × (length e' ≡ entry_size)
unfolding free_slot first_free
free_slot_from zero files inode e ofs es h room s = absurd (omega arith)
free_slot_from (suc fuel) files inode e ofs [] h room (short, r, l) = (
  overwritten e short,
  rw (r, short_read short l),
  omega (arith, length-append short (drop (length short) e), length-drop (length short) e),
)
free_slot_from (suc fuel) files inode e ofs (x ∷ es) h room (r, l, s) =
    let size : length x ≡ entry_size = (==_iff (length x) entry_size).0 l in
    let same = overwritten_whole e x room size in
    elim (Bool-cases (in_use x)) [
      | inl used ↦
          let (e', run, long) =
            free_slot_from fuel files inode x (ofs + entry_size) es (omega arith) size s in
          (e', rw (r, l, same, used) run, long)
      | inr free ↦ (x, rw (r, l, same, free), size)
    ]

-- `e.name` behind set_name is the name.
pub set_name_lem :
    (e n rest : List ℕ)
    → NoNull n
    → length n ≤ name_max
    → length e ≡ entry_size
    → (tail : List ℕ) × (set_name e (n ++ (0 ∷ rest))
        ≡ some (take 4 e ++ ((n ++ (0 ∷ tail)) ++ drop 37 e)))
      × (length (n ++ (0 ∷ tail)) ≡ 33)
unfolding set_name
set_name_lem e n rest ok fits size =
    let field = take 33 (drop 4 e) in
    let wide : length field ≡ 33 = omega (arith, length-take 33 (drop 4 e), length-drop 4 e) in
    let run =
      strlcpy_lem field n rest 33 (length n) ok (omega arith) (omega (arith, wide)) (omega arith) in
    let tail = drop (suc (length n)) field in
    (
      tail,
      rw (run, take_all n) refl,
      omega (arith, length-append n (0 ∷ tail), length-drop (suc (length n)) field, wide),
    )
