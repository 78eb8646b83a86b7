-- ===== src/Strings/Order.antt =====
-- strcmp of lib/string.c in CS439/Project4 as the order of dictionaries.
use Prim.Native.Nat.{compare, Ordering}
use native.Mathlib.Decide.{ℕ_discrete, dec_lt}
use utcs.Prelude.{
  ℕ, ◌<◌, ◌≡◌, ◌≢◌, refl, ap, List, [], ◌∷◌, ◌++◌, some, arith, ◌⊎◌, inl, inr, ne→==_false, ==_iff,
  subst,
}
use utcs.Strings.{strcmp}
use utcs.Strings.Bytes.{NoNull}

-- `s` stands before `t`: it ends where `t` goes on, or the first byte in which they differ is smaller.
abbrev pub Before : List ℕ → List ℕ → Type 0
Before s t =
    (p : List ℕ) × (((y : ℕ) × (v : List ℕ) × (s ≡ p) × (t ≡ p ++ (y ∷ v)))
      ⊎ ((x : ℕ) × (y : ℕ) × (u : List ℕ) × (v : List ℕ) × (s ≡ p ++ (x ∷ u))
          × (t ≡ p ++ (y ∷ v))
          × (x < y)))

abbrev pub Compares : Ordering → List ℕ → List ℕ → Type 0
Compares Ordering.lt s t = Before s t
Compares Ordering.eq s t = s ≡ t
Compares Ordering.gt s t = Before t s

Before-longer : (x : ℕ) (s t : List ℕ) → Before s t → Before (x ∷ s) (x ∷ t)
Before-longer x s t (p, inl (y, v, e, f)) = (x ∷ p, inl (y, v, ap (◌∷◌ x) e, ap (◌∷◌ x) f))
Before-longer x s t (p, inr (a, b, u, v, e, f, h)) =
    (x ∷ p, inr (a, b, u, v, ap (◌∷◌ x) e, ap (◌∷◌ x) f, h))

Compares-longer :
    (o : Ordering) (x : ℕ) (s t : List ℕ) → Compares o s t → Compares o (x ∷ s) (x ∷ t)
Compares-longer Ordering.lt x s t c = Before-longer x s t c
Compares-longer Ordering.eq x s t c = ap (◌∷◌ x) c
Compares-longer Ordering.gt x s t c = Before-longer x t s c

compare_lt : (x y : ℕ) → x < y → compare x y ≡ Ordering.lt
compare_lt x y h = ground arith

compare_gt : (x y : ℕ) → y < x → compare x y ≡ Ordering.gt
compare_gt x y h = ground arith

differ :
    (x y : ℕ) (s t : List ℕ)
    → x ≢ y
    → (o : Ordering) × (compare x y ≡ o) × Compares o (x ∷ s) (y ∷ t)
differ x y s t ne = elim (dec_lt x y) [
  | yes h ↦ (Ordering.lt, compare_lt x y h, ([], inr (x, y, s, t, refl, refl, h)))
  | no h ↦
      let k : y < x = omega arith in
      (Ordering.gt, compare_gt x y k, ([], inr (y, x, t, s, refl, refl, k)))
]

-- strcmp of two strings that end: the answer is 0 exactly where they are the same, negative where the
-- first stands before the second, and positive where it stands behind.
pub strcmp_lem :
    (s t rest more : List ℕ)
    → NoNull s
    → NoNull t
    → (o : Ordering) × (strcmp (s ++ (0 ∷ rest)) (t ++ (0 ∷ more)) ≡ some o) × Compares o s t
unfolding strcmp
strcmp_lem [] [] rest more a b = (Ordering.eq, refl, refl)
strcmp_lem [] (y ∷ t) rest more a (ne, b) =
    (Ordering.lt, ap some (compare_lt 0 y (omega arith)), ([], inl (y, t, refl, refl)))
strcmp_lem (x ∷ s) [] rest more (ne, a) b = (
  Ordering.gt,
  rw (ne→==_false x 0 ne) (ap some (compare_gt x 0 (omega arith))),
  ([], inl (x, s, refl, refl)),
)
strcmp_lem (x ∷ s) (y ∷ t) rest more (nx, a) (ny, b) = elim (ℕ_discrete x y) [
  | yes e ↦
      let (o, r, c) = strcmp_lem s t rest more a b in
      (
        o,
        rw (ne→==_false x 0 nx, (==_iff x y).1 e) r,
        subst (λ (z : ℕ). Compares o (x ∷ s) (z ∷ t)) e (Compares-longer o x s t c),
      )
  | no ne ↦
      let (o, r, c) = differ x y s t ne in
      (o, rw (ne→==_false x 0 nx, ne→==_false x y ne) (ap some r), c)
]
