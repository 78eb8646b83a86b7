-- ===== src/Bitmap/Scan.antt =====
-- bitmap_scan and bitmap_scan_and_flip of lib/kernel/bitmap.c: the first run of equal bits.
use utcs.Prelude.{
  ℕ, zero, suc, ◌+◌, ◌-◌, ◌≤◌, ◌<◌, ◌≡◌, refl, sym, ◌∙◌, Bool, true, false, not, some, arith, leb,
  le→leb, leb→le, ◌==◌, Bool-cases, inl, inr, ne→==_false,
}
use native.Mathlib.Decide.{ℕ_discrete, dec_le}
use utcs.Bitmap.{Bitmap, bitmap_error, contains, scan_from, scan, scan_and_flip}
use utcs.Bitmap.Bits.{IsValid}
use utcs.Bitmap.Ranges.{Run, Answers, contains_lem, PutsRange, set_multiple_lem}

-- No run of `cnt` bits `value` starts in `lo`, ..., `hi - 1`.
abbrev pub NoRun : Bitmap → (lo hi cnt : ℕ) → Bool → Type 0
NoRun b lo hi cnt value = (s : ℕ) → lo ≤ s → s < hi → ¬ Run b s cnt value

-- What a scan from `start` may answer: the first place where a run fits, or that there is none.
pub data Scanned (b : Bitmap) (start cnt : ℕ) (value : Bool) : ℕ → Type 0 where
  found :
      {idx : ℕ}
      → start ≤ idx
      → idx + cnt ≤ b.bit_cnt
      → Run b idx cnt value
      → NoRun b start idx cnt value
      → Scanned b start cnt value idx
  missing :
      {idx : ℕ}
      → idx ≡ bitmap_error
      → ((s : ℕ) → start ≤ s → s + cnt ≤ b.bit_cnt → ¬ Run b s cnt value)
      → Scanned b start cnt value idx

not-not : (v : Bool) → not (not v) ≡ v
not-not true = refl
not-not false = refl

not_self : (v : Bool) → ¬ (v ≡ not v)
not_self true e = cc
not_self false e = cc

-- An answer of `contains` for `!value` decides whether a run of `value` is there.
Answers-Run :
    (b : Bitmap) (s cnt : ℕ) (value : Bool) → Answers b s cnt (not value) false → Run b s cnt value
Answers-Run b s cnt value a = rw (not-not value) at a

Answers-NoRun :
    (b : Bitmap) (s cnt : ℕ) (value : Bool) → Answers b s cnt (not value) true → ¬ Run b s cnt value
Answers-NoRun b s cnt value (k, p, q, e) run = not_self value (sym (run k p q) ∙ e)

scan_from_lem :
    (left : ℕ) {b : Bitmap} (start i cnt : ℕ) (value : Bool)
    → IsValid b
    → start ≤ i
    → i + left + cnt ≡ b.bit_cnt + 1
    → NoRun b start i cnt value
    → (r : ℕ) × (scan_from left b i cnt value ≡ some r) × Scanned b start cnt value r
unfolding scan_from
scan_from_lem zero start i cnt value v below size seen =
    (bitmap_error, refl, missing refl (λ s p q. seen s p (omega arith)))
scan_from_lem (suc left) {b} start i cnt value v below size seen =
    round (contains_lem i cnt (not value) v (omega arith)) λ none_here.
      scan_from_lem left start (i + 1) cnt value v (omega arith) (omega arith)
        λ s p q. elim (ℕ_discrete s i) [ yes e ↦ rw e none_here | no ne ↦ seen s p (omega arith) ]
  where
    round :
        (c : Bool) × (contains b i cnt (not value) ≡ some c) × Answers b i cnt (not value) c
        → (¬ Run b i cnt value
            → (r : ℕ) × (scan_from left b (i + 1) cnt value ≡ some r) × Scanned b start cnt value r)
        → (r : ℕ) × (scan_from (suc left) b i cnt value ≡ some r) × Scanned b start cnt value r
    round (true, e, a) next =
        let (r, e', s) = next (Answers-NoRun b i cnt value a) in (r, rw e e', s)
    round (false, e, a) next =
        (i, rw e, found below (omega arith) (Answers-Run b i cnt value a) seen)

-- `bitmap_scan` from inside a valid map runs, and answers the first place at or after `start` where
-- `cnt` bits are `value`, or BITMAP_ERROR where there is none.
pub scan_lem :
    {b : Bitmap} (start cnt : ℕ) (value : Bool)
    → IsValid b
    → start ≤ b.bit_cnt
    → (r : ℕ) × (scan b start cnt value ≡ some r) × Scanned b start cnt value r
unfolding scan
scan_lem {b} start cnt value v h = elim (Bool-cases (leb cnt b.bit_cnt)) [
  | inr big ↦ (
    bitmap_error,
    rw (le→leb start b.bit_cnt h, big),
    missing refl (λ s p q. absurd (ground arith)),
  )
  | inl fits ↦ elim (dec_le (start + cnt) (b.bit_cnt + 1)) [
    | yes near ↦
        let (r, e, s) =
          scan_from_lem (b.bit_cnt - cnt + 1 - start) start start cnt value v (omega arith)
            (ground arith) (λ s p q. absurd (omega arith)) in
        (r, rw (le→leb start b.bit_cnt h, fits) e, s)
    | no far ↦ (
      bitmap_error,
      rw (le→leb start b.bit_cnt h, fits, no_rounds (leb→le _ _ fits) far) refl,
      missing refl (λ s p q. absurd (omega arith)),
    )
  ]
]
  where
    no_rounds : cnt ≤ b.bit_cnt → ¬ (start + cnt ≤ b.bit_cnt + 1) → b.bit_cnt - cnt + 1 - start ≡ 0
    no_rounds small far = omega arith

-- What `bitmap_scan_and_flip` does to the map: it takes the first run and flips it, or it takes
-- none and leaves the map alone.
pub data Flipped (b : Bitmap) (start cnt : ℕ) (value : Bool) (b' : Bitmap) (idx : ℕ) : Type 0 where
  flipped :
      start ≤ idx
      → idx + cnt ≤ b.bit_cnt
      → Run b idx cnt value
      → NoRun b start idx cnt value
      → PutsRange b idx cnt (not value) b'
      → Flipped b start cnt value b' idx
  unchanged :
      idx ≡ bitmap_error
      → b' ≡ b
      → ((s : ℕ) → start ≤ s → s + cnt ≤ b.bit_cnt → ¬ Run b s cnt value)
      → Flipped b start cnt value b' idx

pub scan_and_flip_lem :
    {b : Bitmap} (start cnt : ℕ) (value : Bool)
    → IsValid b
    → start ≤ b.bit_cnt
    → (b' : Bitmap) × (idx : ℕ) × (scan_and_flip b start cnt value ≡ some (b', idx))
      × Flipped b start cnt value b' idx
unfolding scan_and_flip
scan_and_flip_lem {b} start cnt value v h =
    let (idx, e, s) = scan_lem start cnt value v h in act idx e s
  where
    act :
        (idx : ℕ)
        → scan b start cnt value ≡ some idx
        → Scanned b start cnt value idx
        → (b' : Bitmap) × (idx : ℕ) × (scan_and_flip b start cnt value ≡ some (b', idx))
          × Flipped b start cnt value b' idx
    act idx e (found p q run first) =
        let (b', e', put) = set_multiple_lem idx cnt (not value) v q in
        let ne : (idx == bitmap_error) ≡ false = ne→==_false _ _ (omega (arith, v.small)) in
        (b', idx, rw (e, ne, e'), flipped p q run first put)
    act idx e (missing is_error no_run) = (b, idx, rw (e, is_error), unchanged is_error refl no_run)
