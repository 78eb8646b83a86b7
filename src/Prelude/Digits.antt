-- ===== src/Prelude/Digits.antt =====
-- The binary digits of `bit_or`, `bit_and` and `bit_xor`.
use Prim.Native.Nat.{ℕ, zero, suc, ◌+◌, ◌*◌, ◌/◌, ◌%◌, ◌^◌, ◌≤◌, ◌<◌, min, max}
use Prim.Native.Nat.{digits, bitwise, bit_and, bit_or, bit_xor}
use Prim.Native.Nat.{bit_and-bitwise, bit_or-bitwise, bit_xor-bitwise, differ}
use mathlib.Core.Path.{◌≡◌, refl, sym, ap, ap₂, ◌∙◌}
use native.Mathlib.Nat.{pow-succ', div-div-eq-div-mul}
use native.Mathlib.Omega.{arith}

-- Digit `k` of `w`.
abbrev pub bit : ℕ → ℕ → ℕ
bit w k = w / 2 ^ k % 2

pub bit-zero : (w : ℕ) → bit w 0 ≡ w % 2
bit-zero w = omega arith

pub bit-suc : (w k : ℕ) → bit w (suc k) ≡ bit (w / 2) k
bit-suc w k =
    ap (λ (t : ℕ). t % 2)
      (ap (λ (t : ℕ). w / t) (pow-succ' 2 k) ∙ sym (div-div-eq-div-mul w 2 (2 ^ k)))

-- The native operations recur on digits with fuel; more than the number itself makes no difference.
module _ (rest : ℕ → ℕ) (join : ℕ → ℕ → ℕ) where
  with_digit : (low high : ℕ) → ℕ → ℕ
  with_digit low high t = t * 2 + join (low % 2) (high % 2)

  settled :
      (bound fuel x y : ℕ)
      → fuel ≤ bound
      → x ≤ fuel
      → digits rest join fuel x y ≡ digits rest join x x y
  unfolding with_digit
  settled (suc bound) (suc fuel) (suc x) y in_bound fits = ap (with_digit (suc x) y) (
      settled bound fuel (suc x / 2) (y / 2) (omega arith) (omega arith)
      ∙ sym (settled bound x (suc x / 2) (y / 2) (omega arith) (omega arith)))
  settled bound zero zero y in_bound fits = refl
  settled bound (suc fuel) zero y in_bound fits = refl
  settled bound zero (suc x) y in_bound fits = absurd (omega arith)
  settled zero (suc fuel) (suc x) y in_bound fits = absurd (omega arith)

  lowest :
      (x y : ℕ)
      → bitwise rest join (suc x) y
        ≡ bitwise rest join (suc x / 2) (y / 2) * 2 + join (suc x % 2) (y % 2)
  unfolding with_digit
  lowest x y =
      ap (with_digit (suc x) y) (settled x x (suc x / 2) (y / 2) (omega arith) (omega arith))

or_lowest : (a b : ℕ) → bit_or a b ≡ bit_or (a / 2) (b / 2) * 2 + max (a % 2) (b % 2)
or_lowest zero b = simp bit_or-bitwise (omega arith)
or_lowest (suc a) b = simp bit_or-bitwise (lowest (λ y. y) max a b)

and_lowest : (a b : ℕ) → bit_and a b ≡ bit_and (a / 2) (b / 2) * 2 + min (a % 2) (b % 2)
and_lowest zero b = simp bit_and-bitwise (omega arith)
and_lowest (suc a) b = simp bit_and-bitwise (lowest (λ y. 0) min a b)

xor_lowest : (a b : ℕ) → bit_xor a b ≡ bit_xor (a / 2) (b / 2) * 2 + differ (a % 2) (b % 2)
xor_lowest zero b = simp bit_xor-bitwise (omega arith)
xor_lowest (suc a) b = simp bit_xor-bitwise (lowest (λ y. y) differ a b)

-- Each digit of the result comes from the two digits in its place.
pub bit-or : (a b k : ℕ) → bit (bit_or a b) k ≡ max (bit a k) (bit b k)
bit-or a b zero = omega (arith, or_lowest a b)
bit-or a b (suc k) =
    bit-suc (bit_or a b) k
    ∙ ap (λ (t : ℕ). bit t k) (omega (arith, or_lowest a b))
    ∙ bit-or (a / 2) (b / 2) k
    ∙ ap₂ max (sym (bit-suc a k)) (sym (bit-suc b k))

differ-lt-two : (x y : ℕ) → x < 2 → y < 2 → differ x y < 2
differ-lt-two x y p q = grind arith

split_digit : (x q d : ℕ) → x ≡ q * 2 + d → d < 2 → (x % 2 ≡ d) × (x / 2 ≡ q)
split_digit x q d e h = omega arith

xor_digits :
    (a b : ℕ)
    → (bit_xor a b % 2 ≡ differ (a % 2) (b % 2)) × (bit_xor a b / 2 ≡ bit_xor (a / 2) (b / 2))
xor_digits a b =
    split_digit _ _ _ (xor_lowest a b) (differ-lt-two (a % 2) (b % 2) (omega arith) (omega arith))

pub bit-xor : (a b k : ℕ) → bit (bit_xor a b) k ≡ differ (bit a k) (bit b k)
bit-xor a b zero = rw (bit-zero (bit_xor a b), bit-zero a, bit-zero b) (xor_digits a b).0
bit-xor a b (suc k) =
    bit-suc (bit_xor a b) k
    ∙ ap (λ (t : ℕ). bit t k) (xor_digits a b).1
    ∙ bit-xor (a / 2) (b / 2) k
    ∙ ap₂ differ (sym (bit-suc a k)) (sym (bit-suc b k))

pub bit-and : (a b k : ℕ) → bit (bit_and a b) k ≡ min (bit a k) (bit b k)
bit-and a b zero = omega (arith, and_lowest a b)
bit-and a b (suc k) =
    bit-suc (bit_and a b) k
    ∙ ap (λ (t : ℕ). bit t k) (omega (arith, and_lowest a b))
    ∙ bit-and (a / 2) (b / 2) k
    ∙ ap₂ min (sym (bit-suc a k)) (sym (bit-suc b k))

-- Nothing is left of a number under the empty mask.
and_none : (bound w : ℕ) → w ≤ bound → bit_and w 0 ≡ 0
and_none bound zero fits = bit_and-bitwise 0 0
and_none zero (suc w) fits = absurd (omega arith)
and_none (suc bound) (suc w) fits =
    and_lowest (suc w) 0 ∙ rw (and_none bound (suc w / 2) (omega arith)) (omega arith)

-- A mask of one digit keeps that digit.
pub bit_and_mask : (w k : ℕ) → bit_and w (2 ^ k) ≡ bit w k * 2 ^ k
bit_and_mask w zero = omega (arith, and_lowest w 1, and_none w (w / 2) (omega arith))
bit_and_mask w (suc k) =
    and_lowest w (2 ^ suc k)
    ∙ rw (pow-succ' 2 k) (rw (half, bit_and_mask (w / 2) k, ← bit-suc w k) (grind arith))
  where
    half : 2 * 2 ^ k / 2 ≡ 2 ^ k
    half = omega arith
