-- ===== src/KernelList/Merge.antt =====
-- is_sorted and inplace_merge of lib/kernel/list.c.
use mathlib.Core.List.{Perm, perm_middle, append-nil}
use mathlib.Core.List.Perm
use utcs.Prelude.{
  ◌≡◌, refl, sym, Bool, true, false, List, [], ◌∷◌, ◌++◌, some, if◌then◌else◌, Bool-cases, inl, inr,
  arith,
}
use utcs.KernelList.{is_sorted_from, is_sorted, merge_runs, inplace_merge}
use utcs.KernelList.Order.{
  IsWeakOrder, AllBefore, IsSorted, AllBefore-trans, tied, ties, less_irrefl,
}

module _ {ℓ} {A : Type ℓ} (less : A → A → Bool) where
  is_sorted_from-AllBefore :
      (a : A) (xs : List A)
      → AllBefore less a xs
      → IsSorted less xs
      → is_sorted_from less a xs ≡ true
  unfolding is_sorted_from
  is_sorted_from-AllBefore a [] all s = refl
  is_sorted_from-AllBefore a (b ∷ rest) (h, all) (allb, s) =
      rw (h, is_sorted_from-AllBefore b rest allb s)

  pub IsSorted-is_sorted : (xs : List A) → IsSorted less xs → is_sorted less xs ≡ true
  unfolding is_sorted
  IsSorted-is_sorted [] s = refl
  IsSorted-is_sorted (a ∷ rest) (all, s) = is_sorted_from-AllBefore a rest all s

  pub inplace_merge_lem :
      (us vs : List A)
      → is_sorted less us ≡ true
      → is_sorted less vs ≡ true
      → inplace_merge less us vs ≡ some (merge_runs less us vs)
  unfolding inplace_merge
  inplace_merge_lem us vs p q = rw (p, q)

  pub merge_runs-perm : (us vs : List A) → Perm (merge_runs less us vs) (us ++ vs)
  unfolding merge_runs
  merge_runs-perm [] vs = Perm.refl _
  merge_runs-perm (a ∷ us) [] = Perm.cons a (rw append-nil (Perm.refl us))
  merge_runs-perm (a ∷ us) (b ∷ vs) = elim (Bool-cases (less b a)) [
    | inl h ↦ rw h (
        Perm.trans (Perm.cons b (merge_runs-perm (a ∷ us) vs))
          (Perm.symm (perm_middle (a ∷ us) vs)))
    | inr h ↦ rw h (Perm.cons a (merge_runs-perm us (b ∷ vs)))
  ]

  merge_runs-AllBefore :
      (x : A) (us vs : List A)
      → AllBefore less x us
      → AllBefore less x vs
      → AllBefore less x (merge_runs less us vs)
  unfolding merge_runs
  merge_runs-AllBefore x [] vs p q = q
  merge_runs-AllBefore x (a ∷ us) [] p q = p
  merge_runs-AllBefore x (a ∷ us) (b ∷ vs) (pa, p) (qb, q) = elim (Bool-cases (less b a)) [
    | inl h ↦ rw h (qb, merge_runs-AllBefore x (a ∷ us) vs (pa, p) q)
    | inr h ↦ rw h (pa, merge_runs-AllBefore x us (b ∷ vs) p (qb, q))
  ]

module _ {ℓ} {A : Type ℓ} {less : A → A → Bool} (w : IsWeakOrder less) where
  is_sorted_from-IsSorted :
      (a : A) (xs : List A)
      → is_sorted_from less a xs ≡ true
      → AllBefore less a xs × IsSorted less xs
  unfolding is_sorted_from
  is_sorted_from-IsSorted a [] e = (tt, tt)
  is_sorted_from-IsSorted a (b ∷ rest) e = elim (Bool-cases (less b a)) [
    | inl h ↦ absurd (ground arith)
    | inr h ↦
        let (all, s) = is_sorted_from-IsSorted b rest (ground arith) in
        ((h, AllBefore-trans w a b rest h all), (all, s))
  ]

  pub is_sorted-IsSorted : (xs : List A) → is_sorted less xs ≡ true → IsSorted less xs
  unfolding is_sorted
  is_sorted-IsSorted [] e = tt
  is_sorted-IsSorted (a ∷ rest) e = is_sorted_from-IsSorted a rest e

  pub merge_runs-IsSorted :
      (us vs : List A) → IsSorted less us → IsSorted less vs → IsSorted less (merge_runs less us vs)
  unfolding merge_runs
  merge_runs-IsSorted [] vs p q = q
  merge_runs-IsSorted (a ∷ us) [] p q = p
  merge_runs-IsSorted (a ∷ us) (b ∷ vs) (pa, p) (qb, q) = elim (Bool-cases (less b a)) [
    | inl h ↦
        let b_a = w.one_way b a h in
        rw h (
          merge_runs-AllBefore less b (a ∷ us) vs (b_a, AllBefore-trans w b a us b_a pa) qb,
          merge_runs-IsSorted (a ∷ us) vs (pa, p) q,
        )
    | inr h ↦ rw h (
      merge_runs-AllBefore less a us (b ∷ vs) pa (h, AllBefore-trans w a b vs h qb),
      merge_runs-IsSorted us (b ∷ vs) p (qb, q),
    )
  ]

  -- Nothing in a sorted list ties with `k` if something less than its first element does.
  tied-none :
      (k b a : A) (us : List A)
      → less b a ≡ true
      → ties less k b ≡ true
      → AllBefore less a us
      → tied less k us ≡ []
  tied-none k b a [] lt t all = refl
  tied-none k b a (x ∷ us) lt t (h, all) =
      ground (arith, tied-none k b a us lt t all, w.passes_on a x b h, w.passes_on x k b)

  tied-first : (k b a : A) → less b a ≡ true → ties less k b ≡ true → ties less k a ≡ false
  tied-first k b a lt t = ground (arith, w.passes_on a k b)

  tied_splice :
      (k b : A) (xs ys : List A)
      → (ties less k b ≡ true → tied less k xs ≡ [])
      → (if ties less k b then b ∷ (tied less k xs ++ ys) else tied less k xs ++ ys)
        ≡ tied less k xs ++ (if ties less k b then b ∷ ys else ys)
  tied_splice k b xs ys none = elim (Bool-cases (ties less k b)) [
    | inl h ↦ rw (none h, h)
    | inr h ↦ rw h
  ]

  -- The elements that tie keep their order.
  pub merge_runs-tied :
      (k : A) (us vs : List A)
      → IsSorted less us
      → tied less k (merge_runs less us vs) ≡ tied less k us ++ tied less k vs
  unfolding merge_runs
  merge_runs-tied k [] vs p = refl
  merge_runs-tied k (a ∷ us) [] p = sym (append-nil _)
  merge_runs-tied k (a ∷ us) (b ∷ vs) (pa, p) = elim (Bool-cases (less b a)) [
    | inl h ↦
        rw (h, merge_runs-tied k (a ∷ us) vs (pa, p))
          (tied_splice k b (a ∷ us) (tied less k vs)
            (λ t. tied-none k b a (a ∷ us) h t (less_irrefl w a, pa)))
    | inr h ↦ rw (h, merge_runs-tied k us (b ∷ vs) p) (ground arith)
  ]
