-- ===== src/BitmapFile/Words.antt =====
-- Words as bytes and back, and the mask on the last word, for bitmap_read and bitmap_write of
-- lib/kernel/bitmap.c.
use Prim.Native.Nat.{bit_and}
use native.Mathlib.Nat.{pow-succ', one-le-pow, mod-lt}
use native.Mathlib.Decide.{ℕ_discrete}
use mathlib.Core.Path.{ap₂}
use mathlib.Core.List.{append-nil}
use utcs.Prelude.{
  ne→==_false, ℕ, zero, suc, ◌-◌, ◌*◌, ◌%◌, ◌^◌, ◌<◌, ◌≡◌, refl, sym, ap, ◌∙◌, List, [], ◌∷◌, ◌++◌,
  arith, ◌==◌, length, drop, get_or, set, get_or-set_self, get_or-set_ne,
}
use utcs.Prelude.Digits.{bit, bit-suc, bit-and}
use utcs.Bitmap.{Bitmap, words_bytes, elem_idx, elem_cnt, last_mask}
use utcs.Bitmap.Bits.{IsValid, holds}
use utcs.BitmapFile.{bytes_words, overlaid}

pub length-words_bytes : (ws : List ℕ) → length (words_bytes ws) ≡ 4 * length ws
length-words_bytes [] = refl
length-words_bytes (w ∷ ws) = omega (arith, length-words_bytes ws)

-- Each is a number of 32 bits.
unfoldable pub AreWords : List ℕ → Type 0
AreWords ws = (i : ℕ) → get_or ws i 0 < 2 ^ 32

pub bytes_words-words_bytes : (ws : List ℕ) → AreWords ws → bytes_words (words_bytes ws) ≡ ws
unfolding AreWords
bytes_words-words_bytes [] small = refl
bytes_words-words_bytes (w ∷ ws) small =
    ap₂ ◌∷◌ (omega (arith, small 0)) (bytes_words-words_bytes ws (λ i. small (suc i)))

drop-length : (bs : List ℕ) (n : ℕ) → length bs ≡ n → drop n bs ≡ []
drop-length [] zero h = refl
drop-length [] (suc n) h = refl
drop-length (x ∷ bs) zero h = absurd (omega arith)
drop-length (x ∷ bs) (suc n) h = drop-length bs n (omega arith)

-- A buffer with the bytes of as many words replaces all of them.
pub overlaid_all :
    (old ws : List ℕ) → AreWords ws → length old ≡ length ws → overlaid old (words_bytes ws) ≡ ws
overlaid_all old ws small e =
    ap (λ (bs : List ℕ). bytes_words (words_bytes ws ++ bs))
      (drop-length (words_bytes old) (length (words_bytes ws))
        (omega (arith, length-words_bytes old, length-words_bytes ws)))
    ∙ ap bytes_words (append-nil (words_bytes ws))
    ∙ bytes_words-words_bytes ws small

-- A mask of the lowest digits has a 1 in each.
bit-mask : (m k : ℕ) → k < m → bit (2 ^ m - 1) k ≡ 1
bit-mask zero k h = absurd (omega arith)
bit-mask (suc m) zero h = omega (arith, pow-succ' 2 m, one-le-pow m 2)
bit-mask (suc m) (suc k) h =
    bit-suc (2 ^ suc m - 1) k
    ∙ ap (λ (t : ℕ). bit t k) (omega (arith, pow-succ' 2 m, one-le-pow m 2))
    ∙ bit-mask m k (omega arith)

masked : (w m k : ℕ) → k < m → bit (bit_and w (2 ^ m - 1)) k ≡ bit w k
masked w m k h = omega (arith, bit-and w (2 ^ m - 1) k, bit-mask m k h)

-- The mask of the last word leaves the digits of the bits in the map.
last_masked :
    (b : Bitmap) (w j : ℕ)
    → b.bit_cnt < 2 ^ 32 - 31
    → j < b.bit_cnt
    → elem_idx j ≡ elem_cnt b.bit_cnt - 1
    → bit (bit_and w (last_mask b)) (j % 32) ≡ bit w (j % 32)
last_masked b w j small h at = elim (ℕ_discrete (b.bit_cnt % 32) 0) [
  | yes e ↦ rw e (masked w 32 (j % 32) (mod-lt j (omega arith)))
  | no ne ↦ rw (ne→==_false _ _ ne) (masked w (b.bit_cnt % 32) (j % 32) (omega arith))
]

-- The words of one map under the size of another of the same size: the bits are the same.
pub holds-masked :
    (b : Bitmap) (j : ℕ)
    → IsValid b
    → j < b.bit_cnt
    → let last = elem_cnt b.bit_cnt - 1 in
      let w = get_or b.bits last 0 in
      holds (record b { bits = set b.bits last (bit_and w (last_mask b)) }) j ≡ holds b j
unfolding holds
holds-masked b j v h = elim (ℕ_discrete (elem_idx j) (elem_cnt b.bit_cnt - 1)) [
  | yes e ↦
      rw
        (
          e,
          get_or-set_self b.bits (elem_cnt b.bit_cnt - 1)
              (bit_and (get_or b.bits (elem_cnt b.bit_cnt - 1) 0) (last_mask b)) 0
              (omega (arith, v.words, v.small)),
        )
        (ap (λ (t : ℕ). t == 1) (last_masked b _ j v.small h e))
  | no ne ↦ ap (λ (w : ℕ). bit w (j % 32) == 1) (get_or-set_ne b.bits _ _ _ 0 (λ e. ne (sym e)))
]
