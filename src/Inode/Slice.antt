-- ===== src/Inode/Slice.antt =====
-- A stretch of a numbered sequence as a list, and the parts of a list as stretches.
use mathlib.Core.Path.{ap₂}
use native.Mathlib.Nat.{suc-add, add-zero, zero-add}
use utcs.Prelude.{
  ℕ, zero, suc, ◌+◌, ◌≤◌, ◌<◌, ◌≡◌, refl, sym, ap, ◌∙◌, List, [], ◌∷◌, ◌++◌, arith, length, get_or,
  take, drop,
}

-- `f lo`, ..., `f (lo + n - 1)`.
unfoldable pub tabulate : (ℕ → ℕ) → (lo n : ℕ) → List ℕ
tabulate f lo zero = []
tabulate f lo (suc n) = f lo ∷ tabulate f (lo + 1) n

pub tabulate-zero : (f : ℕ → ℕ) (lo : ℕ) → tabulate f lo 0 ≡ []
unfolding tabulate
tabulate-zero f lo = refl

pub length-tabulate : (f : ℕ → ℕ) (lo n : ℕ) → length (tabulate f lo n) ≡ n
unfolding tabulate
length-tabulate f lo zero = refl
length-tabulate f lo (suc n) = ap suc (length-tabulate f (lo + 1) n)

pub tabulate_shift :
    (f g : ℕ → ℕ) (a b n : ℕ)
    → ((i : ℕ) → i < n → f (a + i) ≡ g (b + i))
    → tabulate f a n ≡ tabulate g b n
unfolding tabulate
tabulate_shift f g a b zero h = refl
tabulate_shift f g a b (suc n) h = ap₂ ◌∷◌ (moved 0 a b (omega arith) (omega arith) (omega arith)) (
    tabulate_shift f g (a + 1) (b + 1) n
      (λ i p. moved (suc i) (a + 1 + i) (b + 1 + i) (omega arith) (omega arith) (omega arith)))
  where
    moved : (i x y : ℕ) → i < suc n → a + i ≡ x → b + i ≡ y → f x ≡ g y
    moved i x y p d e = rw (← d, ← e) (h i p)

pub tabulate-append :
    (f : ℕ → ℕ) (lo n m : ℕ) → tabulate f lo n ++ tabulate f (lo + n) m ≡ tabulate f lo (n + m)
unfolding tabulate
tabulate-append f lo zero m = ap₂ (tabulate f) (add-zero lo) (sym (zero-add m))
tabulate-append f lo (suc n) m = rw (suc-add n m) (
    ap (◌∷◌ (f lo)) (
      ap (λ (k : ℕ). tabulate f (lo + 1) n ++ tabulate f k m) shift
      ∙ tabulate-append f (lo + 1) n m))
  where
    shift : lo + suc n ≡ lo + 1 + n
    shift = omega arith

behind : (x : ℕ) (bs : List ℕ) (k i : ℕ) → get_or bs (k + i) 0 ≡ get_or (x ∷ bs) (suc k + i) 0
behind x bs k i = ap (λ (j : ℕ). get_or (x ∷ bs) j 0) (sym (suc-add k i))

pub take-drop :
    (bs : List ℕ) (k n : ℕ)
    → k + n ≤ length bs
    → take n (drop k bs) ≡ tabulate (λ i. get_or bs i 0) k n
unfolding tabulate
take-drop [] zero zero h = refl
take-drop [] zero (suc n) h = absurd (omega arith)
take-drop [] (suc k) n h = absurd (omega arith)
take-drop (x ∷ bs) zero zero h = refl
take-drop (x ∷ bs) zero (suc n) h = ap (◌∷◌ x) (
    take-drop bs zero n (omega arith)
    ∙ tabulate_shift (λ i. get_or bs i 0) (λ i. get_or (x ∷ bs) i 0) 0 1 n (λ i p. behind x bs 0 i))
take-drop (x ∷ bs) (suc k) n h =
    take-drop bs k n (omega arith)
    ∙ tabulate_shift (λ i. get_or bs i 0) (λ i. get_or (x ∷ bs) i 0) k (suc k) n
        (λ i p. behind x bs k i)
