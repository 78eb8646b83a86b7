-- ===== src/Directory/Names/Paths.antt =====
-- How dir_split_name of filesys/directory.c in CS439/Project4 splits a path.
use native.Mathlib.Decide.{ℕ_discrete}
use utcs.Prelude.{
  ℕ, zero, suc, ◌+◌, ◌<◌, ◌≡◌, ◌≢◌, refl, ap, ◌∙◌, sym, ◌⊎◌, false, List, [], ◌∷◌, ◌++◌, none, some,
  arith, ◌==◌, length, get_or, take, drop, Bool-cases, inl, inr, ==_iff, length-drop, get_or-drop,
}
use utcs.Directory.Names.{last_slash, split_path}

-- No byte is a slash.
abbrev pub NoSlash : List ℕ → Type 0
NoSlash [] = Unit
NoSlash (x ∷ s) = (x ≢ b'/') × NoSlash s

-- No slash at `i`, nor at what comes before or behind it.
also_at :
    (name : List ℕ) (i j : ℕ)
    → (get_or name i 0 == b'/') ≡ false
    → (j ≢ i → get_or name j 0 ≢ b'/')
    → get_or name j 0 ≢ b'/'
also_at name i j ne others = elim (ℕ_discrete j i) [
  | yes e ↦ λ at.
      cc (ne, (==_iff (get_or name i 0) b'/').1 (ap (λ (k : ℕ). get_or name k 0) (sym e) ∙ at))
  | no other ↦ others other
]

-- The loop stops at a slash behind which there is none, or there is none at all.
last_slash_lem :
    (name : List ℕ) (n : ℕ)
    → ((last_slash name n ≡ none) × ((j : ℕ) → j < n → get_or name j 0 ≢ b'/'))
      ⊎ ((i : ℕ) × (last_slash name n ≡ some i)
          × (i < n)
          × (get_or name i 0 ≡ b'/')
          × ((j : ℕ) → i < j → j < n → get_or name j 0 ≢ b'/'))
unfolding last_slash
last_slash_lem name zero = inl (refl, λ j h. absurd (omega arith))
last_slash_lem name (suc i) = elim (Bool-cases (get_or name i 0 == b'/')) [
  | inl e ↦ inr (i, rw e, omega arith, (==_iff _ _).0 e, λ j h k. absurd (omega arith))
  | inr ne ↦ elim (last_slash_lem name i) [
    | inl (e, all) ↦ inl (rw (ne, e), λ j h. also_at name i j ne (λ other. all j (omega arith)))
    | inr (k, e, h, at, all) ↦ inr (
      k,
      rw (ne, e),
      omega arith,
      at,
      λ j p q. also_at name i j ne (λ other. all j p (omega arith)),
    )
  ]
]

take-drop : (n : ℕ) (s : List ℕ) → take n s ++ drop n s ≡ s
take-drop zero s = refl
take-drop (suc n) [] = refl
take-drop (suc n) (x ∷ s) = ap (◌∷◌ x) (take-drop n s)

at_each-NoSlash : (s : List ℕ) → ((j : ℕ) → j < length s → get_or s j 0 ≢ b'/') → NoSlash s
at_each-NoSlash [] h = tt
at_each-NoSlash (x ∷ s) h = (h 0 (omega arith), at_each-NoSlash s (λ j k. h (suc j) (omega arith)))

take_next : (i : ℕ) (s : List ℕ) → i < length s → take (suc i) s ≡ take i s ++ (get_or s i 0 ∷ [])
take_next i [] h = absurd (omega arith)
take_next zero (x ∷ s) h = refl
take_next (suc i) (x ∷ s) h = ap (◌∷◌ x) (take_next i s (omega arith))

-- A path and the name of a file in it: the path ends in a slash and the two are `name`, or `name` has no
-- slash and is looked for in "./".
abbrev pub Splits : (name : List ℕ) → List ℕ × List ℕ → Type 0
Splits name (path, file_name) =
    NoSlash file_name
    × (((above : List ℕ) × (path ≡ above ++ (b'/' ∷ [])) × (path ++ file_name ≡ name))
        ⊎ ((path ≡ b'.' ∷ b'/' ∷ []) × (file_name ≡ name)))

-- dir_split_name splits a path behind its last slash: the name of the file has no slash, and the rest ends
-- in a slash and is, followed by the name, the whole path; a path with no slash is a name in "./".
pub split_path-last_slash :
    (name : List ℕ) → Splits name (split_path name (last_slash name (length name)))
unfolding split_path
split_path-last_slash name = elim (last_slash_lem name (length name)) [
  | inl (e, all) ↦ rw e (at_each-NoSlash name all, inr (refl, refl))
  | inr (i, e, h, at, all) ↦
      let next : i + 1 ≡ suc i = omega arith in
      rw (e, next)
        (
          at_each-NoSlash (drop (suc i) name) (λ j k r.
              all (suc i + j) (omega arith) (omega (arith, k, length-drop (suc i) name))
                (sym (get_or-drop (suc i) j name) ∙ r)),
          inl (
            take i name,
            take_next i name h ∙ ap (λ (x : ℕ). take i name ++ (x ∷ [])) at,
            take-drop (suc i) name,
          ),
        )
]
