-- ===== src/KernelList/Queue.antt =====
-- A list kept in order by list_insert_ordered of lib/kernel/list.c, as a queue by priority.
use mathlib.Core.List.{perm_middle, append-nil}
use mathlib.Core.List.Perm
use utcs.Prelude.{
  ◌≡◌, refl, sym, ap, ◌∙◌, Bool, true, List, [], ◌∷◌, ◌++◌, Bool-cases, inl, inr, arith, some,
}
use utcs.KernelList.{insert_ordered, sort, sort_pass}
use utcs.KernelList.Order.{IsWeakOrder, AllAbove, IsSorted, ties, tied, tied-append}
use utcs.KernelList.Insert.{insert_ordered-perm, insert_ordered-IsSorted, insert_ordered-Placed}
use utcs.KernelList.Sort.{SortOf}

module _ {ℓ} {A : Type ℓ} (less : A → A → Bool) where
  pub insert_ordered-cons :
      (xs : List A) (e : A)
      → (first : A) × (rest : List A) × (insert_ordered less xs e ≡ first ∷ rest)
  unfolding insert_ordered
  insert_ordered-cons [] e = (e, [], refl)
  insert_ordered-cons (x ∷ xs) e = elim (Bool-cases (less e x)) [
    | inl h ↦ (e, x ∷ xs, rw h)
    | inr h ↦ (x, insert_ordered less xs e, rw h)
  ]

  pub SortOf-nil : SortOf less [] []
  SortOf-nil = record { sorted = tt; perm = Perm.refl []; stable = λ k. refl }

module _ {ℓ} {A : Type ℓ} {less : A → A → Bool} (w : IsWeakOrder less) where
  tied_above :
      (k e : A) (xs : List A) → ties less k e ≡ true → AllAbove less e xs → tied less k xs ≡ []
  tied_above k e [] t all = refl
  tied_above k e (x ∷ xs) t (lt, all) = ground (arith, tied_above k e xs t all, w.passes_on x k e)

  tied_placed :
      (k e : A) (before behind : List A)
      → AllAbove less e behind
      → tied less k (before ++ e ∷ behind) ≡ tied less k (before ++ behind) ++ tied less k (e ∷ [])
  tied_placed k e before behind all = elim (Bool-cases (ties less k e)) [
    | inl h ↦ rw (
      tied-append less k before (e ∷ behind),
      tied-append less k before behind,
      h,
      tied_above k e behind h all,
      append-nil (tied less k before),
    )
    | inr h ↦ rw (
      tied-append less k before (e ∷ behind),
      tied-append less k before behind,
      h,
      append-nil (tied less k before ++ tied less k behind),
    )
  ]

  insert_ordered-tied :
      (k e : A) (ys : List A)
      → IsSorted less ys
      → tied less k (insert_ordered less ys e) ≡ tied less k ys ++ tied less k (e ∷ [])
  insert_ordered-tied k e ys s =
      let p = insert_ordered-Placed w ys e s in
      ap (tied less k) p.placed
      ∙ (tied_placed k e p.before p.behind p.above
          ∙ ap (λ (l : List A). tied less k l ++ tied less k (e ∷ [])) (sym p.split))

  -- An insertion into a list in order is what sorting does with one more element at the end.
  pub insert_ordered-SortOf :
      (xs ys : List A) (e : A)
      → SortOf less xs ys
      → SortOf less (xs ++ e ∷ []) (insert_ordered less ys e)
  insert_ordered-SortOf xs ys e s = record {
    sorted = insert_ordered-IsSorted w ys e s.sorted;
    perm = Perm.trans (insert_ordered-perm less ys e) (
        Perm.trans (Perm.cons e s.perm) (
          Perm.trans (Perm.cons e (rw append-nil (Perm.refl xs))) (Perm.symm (perm_middle xs []))));
    stable = λ k.
        insert_ordered-tied k e ys s.sorted
        ∙ (ap (λ (l : List A). l ++ tied less k (e ∷ [])) (s.stable k)
            ∙ sym (tied-append less k xs (e ∷ [])));
  }

-- A list of one element is sorted.
pub sort_one {ℓ} : {A : Type ℓ} (less : A → A → Bool) (x : A) → sort less (x ∷ []) ≡ some (x ∷ [])
unfolding sort sort_pass
sort_one less x = refl

pub sort_nil {ℓ} : {A : Type ℓ} (less : A → A → Bool) → sort less [] ≡ some []
unfolding sort sort_pass
sort_nil less = refl
