-- ===== src/Bitmap/Bits.antt =====
-- What one bit operation of lib/kernel/bitmap.c does to the bits.
use Prim.Native.Nat.{bit_and, bit_or, bit_xor}
use native.Mathlib.Nat.{one-le-pow, mod-lt}
use native.Mathlib.Decide.{ℕ_discrete}
use utcs.Prelude.{
  ℕ, ◌-◌, ◌%◌, ◌^◌, ◌<◌, ◌≡◌, refl, sym, ap, ◌∙◌, Bool, true, false, not, some, arith, lt→ltb, ◌==◌,
  if◌then◌else◌, length, get_or, set, length-set, get_elem?-eq-get_or, get_or-set_self,
  get_or-set_ne,
}
use utcs.Prelude.Digits.{bit, bit-or, bit-and, bit-xor, bit_and_mask}
use utcs.Prelude.Tables.{bit-power, bit-complement}
use utcs.Bitmap.{
  Bitmap, elem_idx, elem_cnt, bit_mask, complement, update, mark, reset, flip, put, test,
}

pub record IsValid (b : Bitmap) : Type 0 where
  pub words : length b.bits ≡ elem_cnt b.bit_cnt
  pub small : b.bit_cnt < 2 ^ 32 - 31

-- The abstract view: bit `i` of the array.
unfoldable pub holds : Bitmap → ℕ → Bool
holds b i = bit (get_or b.bits (elem_idx i) 0) (i % 32) == 1

word_in : {b : Bitmap} {i : ℕ} → IsValid b → i < b.bit_cnt → elem_idx i < length b.bits
word_in v h = omega arith

mask_test : (w k : ℕ) → not (bit_and w (2 ^ k) == 0) ≡ (bit w k == 1)
mask_test w k = ground (arith, bit_and_mask w k, one-le-pow k 2)

-- A test inside the map reads the bit.
pub test_lem : {b : Bitmap} (i : ℕ) → IsValid b → i < b.bit_cnt → test b i ≡ some (holds b i)
unfolding test holds
test_lem {b} i v h =
    rw (lt→ltb i b.bit_cnt h, get_elem?-eq-get_or b.bits (elem_idx i) 0 (word_in v h))
      (ap some (mask_test _ (i % 32)))

-- `b'` is `b` with bit `i` made `value`.
pub record Puts (b : Bitmap) (i : ℕ) (value : Bool) (b' : Bitmap) : Type 0 where
  pub valid : IsValid b'
  pub same_size : b'.bit_cnt ≡ b.bit_cnt
  pub others : (j : ℕ) → holds b' j ≡ (if j == i then value else holds b j)

same_bit : (i j : ℕ) → elem_idx j ≡ elem_idx i → j % 32 ≡ i % 32 → j ≡ i
same_bit i j p q = omega arith

update_others :
    (b : Bitmap) (i j w : ℕ) (value : Bool)
    → elem_idx i < length b.bits
    → ((k : ℕ)
        → k < 32
        → (bit w k == 1)
          ≡ (if k == i % 32 then value else bit (get_or b.bits (elem_idx i) 0) k == 1))
    → holds (record b { bits = set b.bits (elem_idx i) w }) j
      ≡ (if j == i then value else holds b j)
unfolding holds
update_others b i j w value h law = elim (ℕ_discrete (elem_idx j) (elem_idx i)) [
  | yes e ↦ ground (
    arith,
    law (j % 32) (mod-lt j (omega arith)),
    e,
    get_or-set_self b.bits (elem_idx i) w 0 h,
    same_bit i j e,
  )
  | no ne ↦ ground (arith, get_or-set_ne b.bits (elem_idx i) (elem_idx j) w 0 (λ e. ne (sym e)), ne)
]

-- One word is replaced by one that differs from it in digit `i % 32` at most.
update_lem :
    {b : Bitmap} (i : ℕ) (f : ℕ → ℕ) (value : Bool)
    → IsValid b
    → i < b.bit_cnt
    → ((k : ℕ)
        → k < 32
        → (bit (f (get_or b.bits (elem_idx i) 0)) k == 1)
          ≡ (if k == i % 32 then value else bit (get_or b.bits (elem_idx i) 0) k == 1))
    → (b' : Bitmap) × (update b i f ≡ some b') × Puts b i value b'
unfolding update
update_lem {b} i f value v h law = (
  record b { bits = set b.bits (elem_idx i) (f (get_or b.bits (elem_idx i) 0)) },
  rw (get_elem?-eq-get_or b.bits (elem_idx i) 0 (word_in v h)),
  record {
    valid = record {
      words = length-set b.bits (elem_idx i) (f (get_or b.bits (elem_idx i) 0)) ∙ v.words;
      small = v.small;
    };
    same_size = refl;
    others = λ j. update_others b i j _ value (word_in v h) law;
  },
)

mark_digits :
    (i w k : ℕ)
    → k < 32
    → (bit (bit_or w (bit_mask i)) k == 1) ≡ (if k == i % 32 then true else bit w k == 1)
mark_digits i w k h =
    ground (arith, bit-or w (bit_mask i) k, bit-power (i % 32) k (mod-lt i (omega arith)) h)

reset_digits :
    (i w k : ℕ)
    → k < 32
    → (bit (bit_and w (complement (bit_mask i))) k == 1)
      ≡ (if k == i % 32 then false else bit w k == 1)
reset_digits i w k h = ground (
  arith,
  bit-and w (complement (bit_mask i)) k,
  bit-complement (i % 32) k (mod-lt i (omega arith)) h,
)

-- `bitmap_mark` and `bitmap_reset` have no assertion of their own.
pub mark_lem :
    {b : Bitmap} (i : ℕ)
    → IsValid b
    → i < b.bit_cnt
    → (b' : Bitmap) × (mark b i ≡ some b') × Puts b i true b'
unfolding mark
mark_lem {b} i v h = update_lem i (λ w. bit_or w (bit_mask i)) true v h (mark_digits i _)

pub reset_lem :
    {b : Bitmap} (i : ℕ)
    → IsValid b
    → i < b.bit_cnt
    → (b' : Bitmap) × (reset b i ≡ some b') × Puts b i false b'
unfolding reset
reset_lem {b} i v h =
    update_lem i (λ w. bit_and w (complement (bit_mask i))) false v h (reset_digits i _)

-- `bitmap_set` inside a valid map sets that bit and no other.
pub put_lem :
    {b : Bitmap} (i : ℕ) (value : Bool)
    → IsValid b
    → i < b.bit_cnt
    → (b' : Bitmap) × (put b i value ≡ some b') × Puts b i value b'
unfolding put
put_lem {b} i true v h = let (b', e, p) = mark_lem i v h in (b', rw (lt→ltb i b.bit_cnt h) e, p)
put_lem {b} i false v h = let (b', e, p) = reset_lem i v h in (b', rw (lt→ltb i b.bit_cnt h) e, p)

flip_digits :
    (i w k : ℕ)
    → k < 32
    → (bit (bit_xor w (bit_mask i)) k == 1)
      ≡ (if k == i % 32 then not (bit w (i % 32) == 1) else bit w k == 1)
flip_digits i w k h = ground (
  arith,
  bit-xor w (bit_mask i) k,
  bit-power (i % 32) k (mod-lt i (omega arith)) h,
  digit-lt-two w k,
  same_digit w k (i % 32),
)
  where
    digit-lt-two : (w k : ℕ) → bit w k < 2
    digit-lt-two w k = omega arith

    same_digit : (w k m : ℕ) → k ≡ m → bit w k ≡ bit w m
    same_digit w k m e = ap (bit w) e

-- `bitmap_flip` toggles that bit and no other.
flip_lem :
    {b : Bitmap} (i : ℕ)
    → IsValid b
    → i < b.bit_cnt
    → (b' : Bitmap) × (flip b i ≡ some b') × Puts b i (not (holds b i)) b'
unfolding flip holds
flip_lem {b} i v h =
    update_lem i (λ w. bit_xor w (bit_mask i)) (not (holds b i)) v h (flip_digits i _)
