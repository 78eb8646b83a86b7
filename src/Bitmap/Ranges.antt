-- ===== src/Bitmap/Ranges.antt =====
-- The operations of lib/kernel/bitmap.c on a range of bits: set, count, look for.
use native.Mathlib.Nat.{add-zero}
use native.Mathlib.Decide.{ℕ_discrete}
use utcs.Prelude.{
  ℕ, zero, suc, ◌+◌, ◌≤◌, ◌<◌, ◌≡◌, refl, ap, ◌∙◌, Bool, true, false, not, ◌&&◌, some, arith, ltb,
  leb, le→leb, bool_eq, if◌then◌else◌, inl, inr, ◌⊎◌, List, length, ◌-◌, ◌^◌,
}
use utcs.Bitmap.{
  Bitmap, size_add, in_range, put, test, put_from, set_multiple, count_from, count, contains_from,
  contains, all, set_all, create, elem_cnt,
}
use utcs.Bitmap.Bits.{IsValid, holds, Puts, put_lem, test_lem}

-- Every bit of the range is `value`.
abbrev pub Run : Bitmap → (start cnt : ℕ) → Bool → Type 0
Run b start cnt value = (k : ℕ) → start ≤ k → k < start + cnt → holds b k ≡ value

abbrev pub within : (start cnt j : ℕ) → Bool
within start cnt j = leb start j && ltb j (start + cnt)

-- `b'` is `b` with the range made `value`.
pub record PutsRange (b : Bitmap) (start cnt : ℕ) (value : Bool) (b' : Bitmap) : Type 0 where
  pub valid : IsValid b'
  pub same_size : b'.bit_cnt ≡ b.bit_cnt
  pub others : (j : ℕ) → holds b' j ≡ (if within start cnt j then value else holds b j)

-- The assertions on a range inside the map hold, and its indices do not wrap.
pub in_range_lem :
    {b : Bitmap} (start cnt : ℕ)
    → IsValid b
    → start + cnt ≤ b.bit_cnt
    → in_range b start cnt ≡ some tt
unfolding in_range
in_range_lem {b} start cnt v h =
    rw (le→leb start b.bit_cnt (omega arith), le→leb (size_add start cnt) b.bit_cnt fits)
  where
    fits : size_add start cnt ≤ b.bit_cnt
    fits = omega (arith, v.small)

no_wrap :
    {b : Bitmap} (start i : ℕ) → IsValid b → start + i < b.bit_cnt → size_add start i ≡ start + i
no_wrap start i v h = omega (arith, v.small)

-- One round of a loop: the index `start + i` does not wrap.
put_at :
    {b : Bitmap} (start i : ℕ) (value : Bool)
    → IsValid b
    → start + i < b.bit_cnt
    → (b' : Bitmap) × (put b (size_add start i) value ≡ some b') × Puts b (start + i) value b'
put_at start i value v h = rw (no_wrap start i v h) (put_lem (start + i) value v h)

test_at :
    {b : Bitmap} (start i : ℕ)
    → IsValid b
    → start + i < b.bit_cnt
    → test b (size_add start i) ≡ some (holds b (start + i))
test_at start i v h = rw (no_wrap start i v h) (test_lem (start + i) v h)

put_from_lem :
    (left : ℕ) {b : Bitmap} (start i : ℕ) (value : Bool)
    → IsValid b
    → start + i + left ≤ b.bit_cnt
    → (b' : Bitmap) × (put_from left b start i value ≡ some b')
      × PutsRange b (start + i) left value b'
unfolding put_from
put_from_lem zero {b} start i value v h =
    (b, refl, record { valid = v; same_size = refl; others = λ j. ground arith })
put_from_lem (suc left) {b} start i value v h =
    let (b₁, e₁, p₁) = put_at start i value v (omega arith) in
    let (b₂, e₂, p₂) =
      put_from_lem left start (i + 1) value p₁.valid (omega (arith, p₁.same_size)) in
    (
      b₂,
      rw e₁ e₂,
      record {
        valid = p₂.valid;
        same_size = p₂.same_size ∙ p₁.same_size;
        others = λ j. ground (arith, p₁.others j, p₂.others j);
      },
    )

-- `bitmap_set_multiple` inside a valid map runs, and sets the range and nothing else.
pub set_multiple_lem :
    {b : Bitmap} (start cnt : ℕ) (value : Bool)
    → IsValid b
    → start + cnt ≤ b.bit_cnt
    → (b' : Bitmap) × (set_multiple b start cnt value ≡ some b') × PutsRange b start cnt value b'
unfolding set_multiple
set_multiple_lem {b} start cnt value v h =
    let (b', e, p) = put_from_lem cnt start 0 value v (omega arith) in
    (b', rw (in_range_lem start cnt v h) e, rw add-zero at p)

-- What `contains` answers for a range.
abbrev pub Answers : Bitmap → (start cnt : ℕ) → Bool → Bool → Type 0
Answers b start cnt value true = (k : ℕ) × (start ≤ k) × (k < start + cnt) × (holds b k ≡ value)
Answers b start cnt value false = Run b start cnt (not value)

bool_eq-cases :
    (t value : Bool)
    → ((bool_eq t value ≡ true) × (t ≡ value)) ⊎ ((bool_eq t value ≡ false) × (t ≡ not value))
bool_eq-cases t value = ground arith

Answers-suc :
    (b : Bitmap) (lo n : ℕ) (value c : Bool)
    → holds b lo ≡ not value
    → Answers b (lo + 1) n value c
    → Answers b lo (suc n) value c
Answers-suc b lo n value true h (k, p, q, e) = (k, omega arith, omega arith, e)
Answers-suc b lo n value false h a =
    λ k p q. elim (ℕ_discrete k lo) [ yes e ↦ rw e h | no ne ↦ a k (omega arith) (omega arith) ]

contains_from_lem :
    (left : ℕ) {b : Bitmap} (start i : ℕ) (value : Bool)
    → IsValid b
    → start + i + left ≤ b.bit_cnt
    → (c : Bool) × (contains_from left b start i value ≡ some c)
      × Answers b (start + i) left value c
unfolding contains_from
contains_from_lem zero start i value v h = (false, refl, λ k p q. absurd (omega arith))
contains_from_lem (suc left) {b} start i value v h =
    elim (bool_eq-cases (holds b (start + i)) value) [
      | inl (hit, e) ↦ (true, rw (t, hit), (start + i, omega arith, omega arith, e))
      | inr (miss, e) ↦
          let (c, r, a) = contains_from_lem left start (i + 1) value v (omega arith) in
          (c, rw (t, miss) r, Answers-suc b (start + i) left value c e (rw shift at a))
    ]
  where
    t : test b (size_add start i) ≡ some (holds b (start + i))
    t = test_at start i v (omega arith)

    shift : start + (i + 1) ≡ start + i + 1
    shift = omega arith

-- `bitmap_contains` inside a valid map runs, and says whether some bit of the range is `value`.
pub contains_lem :
    {b : Bitmap} (start cnt : ℕ) (value : Bool)
    → IsValid b
    → start + cnt ≤ b.bit_cnt
    → (c : Bool) × (contains b start cnt value ≡ some c) × Answers b start cnt value c
unfolding contains
contains_lem {b} start cnt value v h =
    let (c, e, a) = contains_from_lem cnt start 0 value v (omega arith) in
    (c, rw (in_range_lem start cnt v h) e, rw add-zero at a)

-- The number of bits of the range that are `value`.
unfoldable pub tally : Bitmap → (lo n : ℕ) → Bool → ℕ
tally b lo zero value = 0
tally b lo (suc n) value = (if bool_eq (holds b lo) value then 1 else 0) + tally b (lo + 1) n value

pub tally-zero : (b : Bitmap) (lo : ℕ) (value : Bool) → tally b lo 0 value ≡ 0
unfolding tally
tally-zero b lo value = refl

pub tally-suc :
    (b : Bitmap) (lo n : ℕ) (value : Bool)
    → tally b lo (suc n) value
      ≡ (if bool_eq (holds b lo) value then 1 else 0) + tally b (lo + 1) n value
unfolding tally
tally-suc b lo n value = refl

count_from_lem :
    (left : ℕ) {b : Bitmap} (start i : ℕ) (value : Bool) (acc : ℕ)
    → IsValid b
    → start + i + left ≤ b.bit_cnt
    → count_from left b start i value acc ≡ some (acc + tally b (start + i) left value)
unfolding count_from tally
count_from_lem zero start i value acc v h = ap some (omega arith)
count_from_lem (suc left) {b} start i value acc v h =
    rw
      (
        test_at start i v (omega arith),
        count_from_lem left start (i + 1) value
            (if bool_eq (holds b (start + i)) value then acc + 1 else acc) v (omega arith),
        shift,
      )
      (ap some (ground arith))
  where
    shift : start + (i + 1) ≡ start + i + 1
    shift = omega arith

-- `bitmap_count` inside a valid map runs, and counts the bits of the range that are `value`.
count_lem :
    {b : Bitmap} (start cnt : ℕ) (value : Bool)
    → IsValid b
    → start + cnt ≤ b.bit_cnt
    → count b start cnt value ≡ some (tally b start cnt value)
unfolding count
count_lem {b} start cnt value v h =
    rw (in_range_lem start cnt v h, count_from_lem cnt start 0 value 0 v (omega arith), add-zero)
      (ap some (omega arith))

-- `bitmap_all` inside a valid map runs, and says whether every bit of the range is set.
pub all_lem :
    {b : Bitmap} (s cnt : ℕ)
    → IsValid b
    → s + cnt ≤ b.bit_cnt
    → ((all b s cnt ≡ some true) × Run b s cnt true)
      ⊎ ((all b s cnt ≡ some false) × ((k : ℕ) × (s ≤ k) × (k < s + cnt) × (holds b k ≡ false)))
unfolding all
all_lem {b} s cnt v h = by_answer (contains_lem s cnt false v h)
  where
    by_answer :
        (c : Bool) × (contains b s cnt false ≡ some c) × Answers b s cnt false c
        → ((all b s cnt ≡ some true) × Run b s cnt true)
          ⊎ ((all b s cnt ≡ some false) × ((k : ℕ) × (s ≤ k) × (k < s + cnt) × (holds b k ≡ false)))
    by_answer (true, e, a) = inr (rw e refl, a)
    by_answer (false, e, a) = inl (rw e refl, a)

-- `bitmap_create` clears every bit, whatever the words held.
pub create_lem :
    (bit_cnt : ℕ) (garbage : List ℕ)
    → length garbage ≡ elem_cnt bit_cnt
    → bit_cnt < 2 ^ 32 - 31
    → (b : Bitmap) × (create bit_cnt garbage ≡ some b)
      × IsValid b
      × (b.bit_cnt ≡ bit_cnt)
      × ((j : ℕ) → j < bit_cnt → holds b j ≡ false)
unfolding create set_all
create_lem bit_cnt garbage w small =
    let raw : Bitmap = record { bit_cnt = bit_cnt; bits = garbage } in
    let (b, e, p) =
      set_multiple_lem 0 bit_cnt false (record { words = w; small = small }) (omega arith) in
    (b, e, p.valid, p.same_size, λ j h. ground (arith, p.others j))
