-- ===== src/KernelList/Insert.antt =====
-- list_insert_ordered of lib/kernel/list.c.
use mathlib.Core.List.{Perm}
use mathlib.Core.List.Perm
use utcs.Prelude.{◌≡◌, refl, ap, Bool, List, [], ◌∷◌, ◌++◌, Bool-cases, inl, inr}
use utcs.KernelList.{insert_ordered}
use utcs.KernelList.Order.{
  IsWeakOrder, Before, AllBefore, AllUpTo, AllAbove, IsSorted, AllAbove-AllBefore, AllBefore-trans,
}

-- `out` is `xs` with `elem` behind all that it does not precede and before all that it does.
pub record Placed {ℓ} {A : Type ℓ} (less : A → A → Bool) (xs : List A) (elem : A) (out : List A)
    : Type ℓ where
  pub before : List A
  pub behind : List A
  pub split : xs ≡ before ++ behind
  pub placed : out ≡ before ++ elem ∷ behind
  pub up_to : AllUpTo less elem before
  pub above : AllAbove less elem behind

module _ {ℓ} {A : Type ℓ} (less : A → A → Bool) where
  pub insert_ordered-perm :
      (xs : List A) (elem : A) → Perm (insert_ordered less xs elem) (elem ∷ xs)
  unfolding insert_ordered
  insert_ordered-perm [] elem = Perm.refl _
  insert_ordered-perm (e ∷ rest) elem = elim (Bool-cases (less elem e)) [
    | inl h ↦ rw h (Perm.refl _)
    | inr h ↦
        rw h (Perm.trans (Perm.cons e (insert_ordered-perm rest elem)) (Perm.swap elem e rest))
  ]

  insert_ordered-AllBefore :
      (a : A) (xs : List A) (elem : A)
      → Before less a elem
      → AllBefore less a xs
      → AllBefore less a (insert_ordered less xs elem)
  unfolding insert_ordered
  insert_ordered-AllBefore a [] elem b all = (b, tt)
  insert_ordered-AllBefore a (e ∷ rest) elem b (be, all) = elim (Bool-cases (less elem e)) [
    | inl h ↦ rw h (b, (be, all))
    | inr h ↦ rw h (be, insert_ordered-AllBefore a rest elem b all)
  ]

module _ {ℓ} {A : Type ℓ} {less : A → A → Bool} (w : IsWeakOrder less) where
  pub insert_ordered-IsSorted :
      (xs : List A) (elem : A) → IsSorted less xs → IsSorted less (insert_ordered less xs elem)
  unfolding insert_ordered
  insert_ordered-IsSorted [] elem s = (tt, tt)
  insert_ordered-IsSorted (e ∷ rest) elem (all, s) = elim (Bool-cases (less elem e)) [
    | inl h ↦
        rw h
          ((w.one_way elem e h, AllBefore-trans w elem e rest (w.one_way elem e h) all), (all, s))
    | inr h ↦
        rw h (insert_ordered-AllBefore less e rest elem h all, insert_ordered-IsSorted rest elem s)
  ]

  pub insert_ordered-Placed :
      (xs : List A) (elem : A)
      → IsSorted less xs
      → Placed less xs elem (insert_ordered less xs elem)
  unfolding insert_ordered
  insert_ordered-Placed [] elem s = record {
    before = [];
    behind = [];
    split = refl;
    placed = refl;
    up_to = tt;
    above = tt;
  }
  insert_ordered-Placed (e ∷ rest) elem (all, s) = elim (Bool-cases (less elem e)) [
    | inl h ↦ record {
      before = [];
      behind = e ∷ rest;
      split = refl;
      placed = rw h;
      up_to = tt;
      above = (h, AllAbove-AllBefore w elem e rest h all);
    }
    | inr h ↦
        let p = insert_ordered-Placed rest elem s in
        record {
          before = e ∷ p.before;
          behind = p.behind;
          split = ap (λ (l : List A). e ∷ l) p.split;
          placed = rw h (ap (λ (l : List A). e ∷ l) p.placed);
          up_to = (h, p.up_to);
          above = p.above;
        }
  ]

  -- By a weak order `less`, list_insert_ordered keeps a sorted list sorted, adds the element and
  -- nothing else, and places it behind every element that it ties with.
  pub insert_ordered_lem :
      (xs : List A) (elem : A)
      → IsSorted less xs
      → IsSorted less (insert_ordered less xs elem)
        × Perm (insert_ordered less xs elem) (elem ∷ xs)
        × Placed less xs elem (insert_ordered less xs elem)
  insert_ordered_lem xs elem s = (
    insert_ordered-IsSorted xs elem s,
    insert_ordered-perm less xs elem,
    insert_ordered-Placed xs elem s,
  )
