-- ===== src/KernelList/Order.antt =====
-- Comparisons that lib/kernel/list.c can sort by, and lists in order.
use utcs.Prelude.{
  ◌≡◌, refl, Bool, true, false, not, ◌&&◌, List, [], ◌∷◌, ◌++◌, if◌then◌else◌, Bool-cases, inl, inr,
  arith,
}

-- `less` is a weak order: it is not both ways, and not being less passes on.
pub record IsWeakOrder {ℓ} {A : Type ℓ} (less : A → A → Bool) : Type ℓ where
  pub one_way : (a b : A) → less a b ≡ true → less b a ≡ false
  pub passes_on : (a b c : A) → less b a ≡ false → less c b ≡ false → less c a ≡ false

module _ {ℓ} {A : Type ℓ} (less : A → A → Bool) where
  -- `a` may stand before `b`.
  abbrev pub Before : A → A → Type 0
  Before a b = less b a ≡ false

  abbrev pub AllBefore : A → List A → Type 0
  AllBefore a [] = Unit
  AllBefore a (x ∷ xs) = Before a x × AllBefore a xs

  -- Every element may stand before `a`.
  abbrev pub AllUpTo : A → List A → Type 0
  AllUpTo a [] = Unit
  AllUpTo a (x ∷ xs) = Before x a × AllUpTo a xs

  -- Every element is greater than `a`.
  abbrev pub AllAbove : A → List A → Type 0
  AllAbove a [] = Unit
  AllAbove a (x ∷ xs) = (less a x ≡ true) × AllAbove a xs

  -- Every element is less than `a`.
  abbrev pub AllBelow : A → List A → Type 0
  AllBelow a [] = Unit
  AllBelow a (x ∷ xs) = (less x a ≡ true) × AllBelow a xs

  -- Every element may stand before all that follow it.
  abbrev pub IsSorted : List A → Type 0
  IsSorted [] = Unit
  IsSorted (x ∷ xs) = AllBefore x xs × IsSorted xs

  -- Neither is less than the other.
  abbrev pub ties : A → A → Bool
  ties k x = not (less k x) && not (less x k)

  -- The elements that tie with `k`, in their order.
  abbrev pub tied : A → List A → List A
  tied k [] = []
  tied k (x ∷ xs) = if ties k x then x ∷ tied k xs else tied k xs

module _ {ℓ} {A : Type ℓ} {less : A → A → Bool} (w : IsWeakOrder less) where
  pub less_irrefl : (a : A) → less a a ≡ false
  less_irrefl a = elim (Bool-cases (less a a)) [ inl e ↦ w.one_way a a e | inr e ↦ e ]

  -- x < e and e not after e' give x < e'.
  pub less-Before : (x e e' : A) → less x e ≡ true → Before less e e' → less x e' ≡ true
  less-Before x e e' lt b = elim (Bool-cases (less x e')) [
    | inl h ↦ h
    | inr h ↦ absurd (cc (lt, w.passes_on e e' x b h))
  ]

  -- y not after x and x < e give y < e.
  pub Before-less : (y x e : A) → Before less y x → less x e ≡ true → less y e ≡ true
  Before-less y x e b lt = elim (Bool-cases (less y e)) [
    | inl h ↦ h
    | inr h ↦ absurd (cc (lt, w.passes_on e y x h b))
  ]

  pub AllBefore-trans :
      (a b : A) (xs : List A) → Before less a b → AllBefore less b xs → AllBefore less a xs
  AllBefore-trans a b [] h all = tt
  AllBefore-trans a b (x ∷ xs) h (bx, all) = (w.passes_on a b x h bx, AllBefore-trans a b xs h all)

  pub AllAbove-AllBefore :
      (x e : A) (xs : List A) → less x e ≡ true → AllBefore less e xs → AllAbove less x xs
  AllAbove-AllBefore x e [] lt all = tt
  AllAbove-AllBefore x e (y ∷ ys) lt (by, all) =
      (less-Before x e y lt by, AllAbove-AllBefore x e ys lt all)

  pub AllBefore-AllAbove : (x : A) (xs : List A) → AllAbove less x xs → AllBefore less x xs
  AllBefore-AllAbove x [] all = tt
  AllBefore-AllAbove x (y ∷ ys) (lt, all) = (w.one_way x y lt, AllBefore-AllAbove x ys all)

module _ {ℓ} {A : Type ℓ} (less : A → A → Bool) where
  pub tied-append :
      (k : A) (xs ys : List A) → tied less k (xs ++ ys) ≡ tied less k xs ++ tied less k ys
  tied-append k [] ys = refl
  tied-append k (x ∷ xs) ys = ground (arith, tied-append k xs ys)

  pub AllBefore-append :
      (a : A) (xs ys : List A)
      → AllBefore less a xs
      → AllBefore less a ys
      → AllBefore less a (xs ++ ys)
  AllBefore-append a [] ys h k = k
  AllBefore-append a (x ∷ xs) ys (b, h) k = (b, AllBefore-append a xs ys h k)
