-- ===== src/KernelList/Sort/Runs.antt =====
-- find_end_of_run of lib/kernel/list.c, and how many runs a list has.
use utcs.Prelude.{
  ℕ, ◌+◌, ◌≤◌, ◌≡◌, refl, ap, Bool, true, false, List, [], ◌∷◌, ◌++◌, if◌then◌else◌, length,
  Bool-cases, inl, inr, arith,
}
use utcs.KernelList.{is_sorted_from, is_sorted, find_run}

module _ {ℓ} {A : Type ℓ} (less : A → A → Bool) where
  -- The runs that start with `a`.
  runs_from : A → List A → ℕ
  runs_from a [] = 1
  runs_from a (b ∷ rest) = if less b a then 1 + runs_from b rest else runs_from b rest

  unfoldable pub runs : List A → ℕ
  unfolding runs_from
  runs [] = 0
  runs (a ∷ rest) = runs_from a rest

  runs_from-le-length : (a : A) (xs : List A) → runs_from a xs ≤ length xs + 1
  unfolding runs_from
  runs_from-le-length a [] = omega arith
  runs_from-le-length a (b ∷ rest) = ground (arith, runs_from-le-length b rest)

  pub runs-le-length : (xs : List A) → runs xs ≤ length xs
  unfolding runs
  runs-le-length [] = omega arith
  runs-le-length (a ∷ rest) = omega (arith, runs_from-le-length a rest)

  runs_from_pos : (a : A) (xs : List A) → 1 ≤ runs_from a xs
  unfolding runs_from
  runs_from_pos a [] = omega arith
  runs_from_pos a (b ∷ rest) = ground (arith, runs_from_pos b rest)

  runs_from-is_sorted : (a : A) (xs : List A) → runs_from a xs ≤ 1 → is_sorted_from less a xs ≡ true
  unfolding runs_from is_sorted_from
  runs_from-is_sorted a [] h = refl
  runs_from-is_sorted a (b ∷ rest) h =
      ground (arith, runs_from_pos b rest, runs_from-is_sorted b rest)

  pub runs_le_one : (xs : List A) → runs xs ≤ 1 → is_sorted less xs ≡ true
  unfolding runs is_sorted
  runs_le_one [] h = refl
  runs_le_one (a ∷ rest) h = runs_from-is_sorted a rest h

  runs_from-cons : (a : A) (ys : List A) → runs_from a ys ≤ 1 + runs ys
  unfolding runs_from runs
  runs_from-cons a [] = omega arith
  runs_from-cons a (b ∷ rest) = ground arith

  runs_from-append :
      (a : A) (xs ys : List A)
      → is_sorted_from less a xs ≡ true
      → runs_from a (xs ++ ys) ≤ 1 + runs ys
  unfolding runs_from is_sorted_from
  runs_from-append a [] ys h = runs_from-cons a ys
  runs_from-append a (b ∷ rest) ys h = ground (arith, runs_from-append b rest ys)

  -- What is in order adds one run at most.
  pub runs-append : (xs ys : List A) → is_sorted less xs ≡ true → runs (xs ++ ys) ≤ 1 + runs ys
  unfolding runs is_sorted
  runs-append [] ys h = omega arith
  runs-append (a ∷ rest) ys h = runs_from-append a rest ys h

  find_run_from :
      (c a : A) (xs : List A)
      → less a c ≡ false
      → is_sorted_from less c (find_run less a xs).0 ≡ true
  unfolding find_run is_sorted_from
  find_run_from c a [] h = rw h
  find_run_from c a (b ∷ rest) h = elim (Bool-cases (less b a)) [
    | inl e ↦ rw (e, h)
    | inr e ↦ rw (e, h, find_run_from a b rest e)
  ]

  pub find_run-is_sorted : (a : A) (xs : List A) → is_sorted less (find_run less a xs).0 ≡ true
  unfolding find_run is_sorted is_sorted_from
  find_run-is_sorted a [] = refl
  find_run-is_sorted a (b ∷ rest) = elim (Bool-cases (less b a)) [
    | inl e ↦ rw e
    | inr e ↦ rw e (find_run_from a b rest e)
  ]

  pub find_run-append :
      (a : A) (xs : List A) → (find_run less a xs).0 ++ (find_run less a xs).1 ≡ a ∷ xs
  unfolding find_run
  find_run-append a [] = refl
  find_run-append a (b ∷ rest) = elim (Bool-cases (less b a)) [
    | inl e ↦ rw e
    | inr e ↦ rw e (ap (λ (l : List A). a ∷ l) (find_run-append b rest))
  ]

  pub runs-nil : runs [] ≡ 0
  unfolding runs
  runs-nil = refl

  -- find_end_of_run takes one run.
  pub runs-find_run : (a : A) (xs : List A) → runs (a ∷ xs) ≡ 1 + runs (find_run less a xs).1
  unfolding find_run runs runs_from
  runs-find_run a [] = omega arith
  runs-find_run a (b ∷ rest) = elim (Bool-cases (less b a)) [
    | inl e ↦ rw e
    | inr e ↦ rw e (runs-find_run b rest)
  ]

  pub find_run-shorter : (a : A) (xs : List A) → length (find_run less a xs).1 ≤ length xs
  unfolding find_run
  find_run-shorter a [] = omega arith
  find_run-shorter a (b ∷ rest) = ground (arith, find_run-shorter b rest)
