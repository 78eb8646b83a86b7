-- ===== src/FreeMap/Room.antt =====
-- How many sectors are free, and that an allocation of one sector takes exactly one of them.
use native.Mathlib.Decide.{ℕ_discrete}
use utcs.Prelude.{
  ℕ, zero, suc, ◌+◌, ◌≤◌, ◌<◌, ◌≡◌, sym, subst, ◌∙◌, Bool, true, false, Option, none, some, arith,
  ◌==◌, if◌then◌else◌, Bool-cases, inl, inr, ◌⊎◌,
}
use utcs.Bitmap.{Bitmap}
use utcs.Bitmap.Bits.{holds}
use utcs.Bitmap.Ranges.{within, tally, tally-suc, tally-zero}
use utcs.FreeMap.{FreeMap, allocate}
use utcs.FreeMap.Alloc.{used, IsSound, IsDenied, Allocated, taken, refused, allocate_lem}

-- The number of free sectors.
abbrev pub room : FreeMap → ℕ
room fm = tally fm.map 0 fm.map.bit_cnt false

-- Two maps that agree on a range have the same count there.
tally_same :
    (b b' : Bitmap) (lo n : ℕ)
    → ((j : ℕ) → lo ≤ j → holds b' j ≡ holds b j)
    → tally b' lo n false ≡ tally b lo n false
tally_same b b' lo zero h = tally-zero b' lo false ∙ sym (tally-zero b lo false)
tally_same b b' lo (suc n) h = ground (
  arith,
  tally-suc b lo n false,
  tally-suc b' lo n false,
  h lo (omega arith),
  tally_same b b' (lo + 1) n (λ j p. h j (omega arith)),
)

-- Setting one free bit of a range takes one from the count.
tally_taken :
    (b b' : Bitmap) (s lo n : ℕ)
    → holds b s ≡ false
    → ((j : ℕ) → holds b' j ≡ (if j == s then true else holds b j))
    → lo ≤ s
    → s < lo + n
    → tally b lo n false ≡ suc (tally b' lo n false)
tally_taken b b' s lo zero free law p q = absurd (omega arith)
tally_taken b b' s lo (suc n) free law p q = elim (ℕ_discrete lo s) [
  | yes e ↦ ground (
    arith,
    tally-suc b lo n false,
    tally-suc b' lo n false,
    law lo,
    e,
    tally_same b b' (lo + 1) n (λ j r. ground (arith, law j)),
  )
  | no ne ↦ ground (
    arith,
    tally-suc b lo n false,
    tally-suc b' lo n false,
    law lo,
    ne,
    tally_taken b b' s (lo + 1) n free law,
  )
]

-- Where nothing is free in a range, its count is zero.
tally_full :
    (b : Bitmap) (lo n : ℕ)
    → ((j : ℕ) → lo ≤ j → j < lo + n → holds b j ≡ true)
    → tally b lo n false ≡ 0
tally_full b lo zero h = tally-zero b lo false
tally_full b lo (suc n) h = ground (
  arith,
  tally-suc b lo n false,
  h lo (omega arith) (omega arith),
  tally_full b (lo + 1) n (λ j p q. h j (omega arith) (omega arith)),
)

-- An allocation of one sector: a free one, now in use, or none because there is none or because
-- the map cannot be written.
pub data Took (fm fm' : FreeMap) : Option ℕ → Type 0 where
  got :
      (f : ℕ)
      → f < fm.map.bit_cnt
      → used fm f ≡ false
      → ((j : ℕ) → used fm' j ≡ (if j == f then true else used fm j))
      → room fm ≡ suc (room fm')
      → Took fm fm' (some f)
  full : (IsDenied fm.file) ⊎ (room fm ≡ 0) → Took fm fm' none

one : (s j : ℕ) (x : Bool) → (if within s 1 j then true else x) ≡ (if j == s then true else x)
one s j x = ground arith

Allocated-Took :
    {fm fm' : FreeMap} {r : Option ℕ}
    → fm'.map.bit_cnt ≡ fm.map.bit_cnt
    → Allocated fm 1 fm' r
    → Took fm fm' r
Allocated-Took {fm} {fm'} size (taken s fits run first law) =
    got s (omega arith) (run s (omega arith) (omega arith)) law' (
      subst (λ (n : ℕ). room fm ≡ suc (tally fm'.map 0 n false)) (sym size)
        (tally_taken fm.map fm'.map s 0 fm.map.bit_cnt (run s (omega arith) (omega arith)) law'
          (omega arith) (omega arith)))
  where
    law' : (j : ℕ) → used fm' j ≡ (if j == s then true else used fm j)
    law' j = law j ∙ one s j (used fm j)
Allocated-Took size (refused same (inl d)) = full (inl d)
Allocated-Took {fm} size (refused same (inr no_run)) =
    full (inr (tally_full fm.map 0 fm.map.bit_cnt all_used))
  where
    all_used : (j : ℕ) → 0 ≤ j → j < 0 + fm.map.bit_cnt → holds fm.map j ≡ true
    all_used j p q = elim (Bool-cases (holds fm.map j)) [
      | inl e ↦ e
      | inr e ↦ absurd (no_run j (omega arith) (λ k p q. let at : k ≡ j = omega arith in rw at e))
    ]

pub allocate_one :
    (fm : FreeMap)
    → IsSound fm
    → (fm' : FreeMap) × (r : Option ℕ) × (allocate fm 1 ≡ some (fm', r))
      × Took fm fm' r
      × IsSound fm'
      × (fm'.map.bit_cnt ≡ fm.map.bit_cnt)
      × (IsDenied fm'.file → IsDenied fm.file)
allocate_one fm v =
    let (fm', r, e, law, sound, size, d) = allocate_lem fm 1 v in
    (fm', r, e, Allocated-Took size law, sound, size, d)
