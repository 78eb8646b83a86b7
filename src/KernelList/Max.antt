-- ===== src/KernelList/Max.antt =====
-- list_max, list_min and list_unique of lib/kernel/list.c.
use mathlib.Core.List.{Perm}
use mathlib.Core.List.Perm
use utcs.Prelude.{
  ◌≡◌, refl, ap, sym, subst, Bool, true, false, List, [], ◌∷◌, ◌++◌, if◌then◌else◌, Bool-cases, inl,
  inr,
}
use utcs.KernelList.{max_from, min_from}
use utcs.KernelList.Order.{
  IsWeakOrder, Before, AllUpTo, AllBelow, AllAbove, less_irrefl, less-Before, Before-less,
}

-- `m` is the first of the greatest elements of `xs`.
pub record IsFirstMax {ℓ} {A : Type ℓ} (less : A → A → Bool) (xs : List A) (m : A) : Type ℓ where
  pub front : List A
  pub behind : List A
  pub split : xs ≡ front ++ m ∷ behind
  pub below : AllBelow less m front
  pub up_to : AllUpTo less m behind

module _ {ℓ} {A : Type ℓ} {less : A → A → Bool} (w : IsWeakOrder less) where
  -- The first element, which a later one exceeds or which is the maximum itself.
  first_le :
      (m r : A) (xs front behind : List A)
      → m ∷ xs ≡ front ++ r ∷ behind
      → AllBelow less r front
      → Before less m r
  first_le m r xs [] behind e all = let same : m ≡ r = cc in rw same (less_irrefl w r)
  first_le m r xs (f ∷ front) behind e (b, all) = let same : m ≡ f = cc in w.one_way m r (rw same b)

  greater :
      (m e : A) (rest : List A) (r : A)
      → less m e ≡ true
      → IsFirstMax less (e ∷ rest) r
      → IsFirstMax less (m ∷ e ∷ rest) r
  greater m e rest r lt p = record {
    front = m ∷ p.front;
    behind = p.behind;
    split = ap (λ (l : List A). m ∷ l) p.split;
    below = (less-Before w m e r lt (first_le e r rest p.front p.behind p.split p.below), p.below);
    up_to = p.up_to;
  }

  not_greater :
      (m e : A) (rest : List A) (r : A) (front behind : List A)
      → less m e ≡ false
      → m ∷ rest ≡ front ++ r ∷ behind
      → AllBelow less r front
      → AllUpTo less r behind
      → IsFirstMax less (m ∷ e ∷ rest) r
  not_greater m e rest r [] behind le s b u =
      let same : m ≡ r = cc in
      let tail : behind ≡ rest = cc in
      record {
        front = [];
        behind = e ∷ rest;
        split = rw same;
        below = tt;
        up_to = (rw (← same) le, subst (AllUpTo less r) tail u);
      }
  not_greater m e rest r (f ∷ front) behind le s (b, bs) u =
      let same : m ≡ f = cc in
      let tail : rest ≡ front ++ r ∷ behind = cc in
      record {
        front = m ∷ e ∷ front;
        behind = behind;
        split = ap (λ (l : List A). m ∷ e ∷ l) tail;
        below = (rw same b, (Before-less w e m r le (rw same b), bs));
        up_to = u;
      }

  max_from_max : (m : A) (xs : List A) → IsFirstMax less (m ∷ xs) (max_from less m xs)
  unfolding max_from
  max_from_max m [] = record { front = []; behind = []; split = refl; below = tt; up_to = tt }
  max_from_max m (e ∷ rest) = elim (Bool-cases (less m e)) [
    | inl h ↦ rw h (greater m e rest (max_from less e rest) h (max_from_max e rest))
    | inr h ↦
        let p = max_from_max m rest in
        rw h
          (not_greater m e rest (max_from less m rest) p.front p.behind h p.split p.below p.up_to)
  ]

module _ {ℓ} {A : Type ℓ} (less : A → A → Bool) where
  -- The order the other way round.
  abbrev pub above : A → A → Bool
  above a b = less b a

  pub min_from-eq : (m : A) (xs : List A) → min_from less m xs ≡ max_from above m xs
  unfolding min_from max_from
  min_from-eq m [] = refl
  min_from-eq m (e ∷ rest) = min_from-eq (if less e m then e else m) rest

  -- Every element is less than all that follow it.
  abbrev pub IsStrict : List A → Type 0
  IsStrict [] = Unit
  IsStrict (x ∷ xs) = AllAbove less x xs × IsStrict xs

module _ {ℓ} {A : Type ℓ} {less : A → A → Bool} (w : IsWeakOrder less) where
  above-IsWeakOrder : IsWeakOrder (above less)
  above-IsWeakOrder = record {
    one_way = λ a b h. w.one_way b a h;
    passes_on = λ a b c h k. w.passes_on c b a k h;
  }

  -- For a list that is not empty and a weak order `less`, list_max finds the first of its greatest
  -- elements and list_min the first of its least.
  max_lem :
      (x : A) (xs : List A)
      → IsFirstMax less (x ∷ xs) (max_from less x xs)
        × IsFirstMax (above less) (x ∷ xs) (min_from less x xs)
  max_lem x xs = (
    max_from_max w x xs,
    subst (IsFirstMax (above less) (x ∷ xs)) (sym (min_from-eq less x xs))
        (max_from_max above-IsWeakOrder x xs),
  )
