-- ===== src/Strings/Bytes.antt =====
-- The copies of lib/string.c in CS439/Project4, byte by byte.
use utcs.Prelude.{
  ℕ, zero, suc, ◌+◌, ◌-◌, ◌≤◌, ◌<◌, ◌≡◌, refl, ap, ◌∙◌, Bool, List, [], ◌∷◌, ◌++◌, some, arith, ltb,
  leb, ◌==◌, if◌then◌else◌, ◌&&◌, length, get_or, set, lt→ltb, length-set, get_elem?-eq-get_or,
  get_or-set_ne, ltb→lt, ne→==_false, ◌≢◌, Bool-cases, inl, inr,
}
use utcs.Strings.{store, memcpy, move_up, move_down, memmove, strlen}

-- No byte of the string is null.
abbrev pub NoNull : List ℕ → Type 0
NoNull [] = Unit
NoNull (x ∷ s) = (x ≢ 0) × NoNull s

-- The index is one of `cnt` from `start` on.
abbrev pub inside : (start cnt i : ℕ) → Bool
inside start cnt i = leb start i && ltb i (start + cnt)

-- `block'` is `block` with the bytes `f` in the range.
pub record Copied (block : List ℕ) (start cnt : ℕ) (f : ℕ → ℕ) (block' : List ℕ) : Type 0 where
  pub same_length : length block' ≡ length block
  pub bytes :
      (i : ℕ) → get_or block' i 0 ≡ (if inside start cnt i then f (i - start) else get_or block i 0)

get_or-set :
    (xs : List ℕ) (i j v : ℕ)
    → i < length xs
    → get_or (set xs i v) j 0 ≡ (if j == i then v else get_or xs j 0)
get_or-set [] i j v h = absurd (omega arith)
get_or-set (x ∷ xs) zero zero v h = refl
get_or-set (x ∷ xs) zero (suc j) v h = ground arith
get_or-set (x ∷ xs) (suc i) zero v h = ground arith
get_or-set (x ∷ xs) (suc i) (suc j) v h = get_or-set xs i j v (omega arith) ∙ ground arith

pub store_lem :
    (block : List ℕ) (i v : ℕ) → i < length block → store block i v ≡ some (set block i v)
unfolding store
store_lem block i v h = rw (lt→ltb _ _ h)

nothing-Copied : (block : List ℕ) (start : ℕ) (f : ℕ → ℕ) → Copied block start 0 f block
nothing-Copied block start f = record { same_length = refl; bytes = λ i. ground arith }

-- A function of the distance from the start.
distance_step : (f : ℕ → ℕ) (start i : ℕ) → start < i → f (i - (start + 1) + 1) ≡ f (i - start)
distance_step f start i h = ap f (omega arith)

distance_zero : (f : ℕ → ℕ) (start i : ℕ) → i ≡ start → f (i - start) ≡ f 0
distance_zero f start i h = ap f (omega arith)

-- A byte, and then the range behind it.
first-Copied :
    (block : List ℕ) (start cnt x : ℕ) (f : ℕ → ℕ) (block' : List ℕ)
    → start < length block
    → x ≡ f 0
    → Copied (set block start x) (start + 1) cnt (λ i. f (i + 1)) block'
    → Copied block start (suc cnt) f block'
first-Copied block start cnt x f block' h e c = record {
  same_length = c.same_length ∙ length-set block start x;
  bytes = λ i.
      c.bytes i
      ∙ ground
          (arith, get_or-set block start i x h, distance_step f start i, distance_zero f start i);
}

-- The bytes may be looked at as another function that agrees on the range.
Copied-same :
    (block : List ℕ) (start cnt : ℕ) (f g : ℕ → ℕ) (block' : List ℕ)
    → ((k : ℕ) → k < cnt → f k ≡ g k)
    → Copied block start cnt f block'
    → Copied block start cnt g block'
Copied-same block start cnt f g block' e c = record {
  same_length = c.same_length;
  bytes = λ i. c.bytes i ∙ ground (arith, e (i - start));
}

memcpy_lem :
    (size : ℕ) (dst : List ℕ) (at : ℕ) (src : List ℕ)
    → at + size ≤ length dst
    → size ≤ length src
    → (dst' : List ℕ) × (memcpy dst at src size ≡ some dst')
      × Copied dst at size (λ k. get_or src k 0) dst'
unfolding memcpy
memcpy_lem zero dst at src h k = (dst, refl, nothing-Copied dst at _)
memcpy_lem (suc size) dst at [] h k = absurd (omega arith)
memcpy_lem (suc size) dst at (x ∷ src) h k =
    let (dst', e, c) =
      memcpy_lem size (set dst at x) (at + 1) src (omega (arith, length-set dst at x))
        (omega arith) in
    (
      dst',
      rw (store_lem dst at x (omega arith)) e,
      first-Copied dst at size x _ dst' (omega arith) refl
          (Copied-same _ _ _ _ _ dst' (λ k q. ground arith) c),
    )

-- What the range at `src` held.
abbrev pub shifted : List ℕ → (src : ℕ) → ℕ → ℕ
shifted block src k = get_or block (src + k) 0

move_up_lem :
    (size : ℕ) (block : List ℕ) (dst src : ℕ)
    → dst < src
    → src + size ≤ length block
    → (block' : List ℕ) × (move_up block dst src size ≡ some block')
      × Copied block dst size (shifted block src) block'
unfolding move_up
move_up_lem zero block dst src h k = (block, refl, nothing-Copied block dst _)
move_up_lem (suc size) block dst src h k =
    let x = get_or block src 0 in
    let (block', e, c) =
      move_up_lem size (set block dst x) (dst + 1) (src + 1) (omega arith)
        (omega (arith, length-set block dst x)) in
    (
      block',
      rw (get_elem?-eq-get_or block src 0 (omega arith), store_lem block dst x (omega arith)) e,
      first-Copied block dst size x (shifted block src) block' (omega arith)
          (ap (λ i. get_or block i 0) (omega arith))
          (Copied-same _ _ _ _ _ block'
            (λ k q.
              get_or-set_ne block dst (src + 1 + k) x 0 (omega arith)
              ∙ ap (λ i. get_or block i 0) (omega arith))
            c),
    )

distance_last : (f : ℕ → ℕ) (start i cnt : ℕ) → i ≡ start + cnt → f (i - start) ≡ f cnt
distance_last f start i cnt h = ap f (omega arith)

-- The last byte, and then the range before it.
last-Copied :
    (block : List ℕ) (start cnt x : ℕ) (f : ℕ → ℕ) (block' : List ℕ)
    → start + cnt < length block
    → x ≡ f cnt
    → Copied (set block (start + cnt) x) start cnt f block'
    → Copied block start (suc cnt) f block'
last-Copied block start cnt x f block' h e c = record {
  same_length = c.same_length ∙ length-set block (start + cnt) x;
  bytes = λ i.
      c.bytes i ∙ ground (arith, get_or-set block (start + cnt) i x h, distance_last f start i cnt);
}

move_down_lem :
    (size : ℕ) (block : List ℕ) (dst src : ℕ)
    → src ≤ dst
    → dst + size ≤ length block
    → (block' : List ℕ) × (move_down block dst src size ≡ some block')
      × Copied block dst size (shifted block src) block'
unfolding move_down
move_down_lem zero block dst src h k = (block, refl, nothing-Copied block dst _)
move_down_lem (suc size) block dst src h k =
    let x = get_or block (src + size) 0 in
    let (block', e, c) =
      move_down_lem size (set block (dst + size) x) dst src h
        (omega (arith, length-set block (dst + size) x)) in
    (
      block',
      rw
          (
            get_elem?-eq-get_or block (src + size) 0 (omega arith),
            store_lem block (dst + size) x (omega arith),
          )
          e,
      last-Copied block dst size x (shifted block src) block' (omega arith) refl (
          Copied-same _ _ _ _ _ block'
            (λ k q. get_or-set_ne block (dst + size) (src + k) x 0 (omega arith)) c),
    )

-- memmove with both ranges inside of the object, however they overlap: the range at `dst` gets the bytes
-- that the range at `src` held before, and no other byte changes. The index that it returns is
-- `dst` only where dst is not below src; else it is the end of the range.
pub memmove_lem :
    (block : List ℕ) (dst src size : ℕ)
    → dst + size ≤ length block
    → src + size ≤ length block
    → (block' : List ℕ) × (memmove block dst src size
        ≡ some (block', if ltb dst src then dst + size else dst))
      × Copied block dst size (shifted block src) block'
unfolding memmove
memmove_lem block dst src size h k = elim (Bool-cases (ltb dst src)) [
  | inl up ↦
      let (block', e, c) = move_up_lem size block dst src (ltb→lt _ _ up) k in
      (block', rw (up, e), c)
  | inr down ↦
      let (block', e, c) = move_down_lem size block dst src (ground arith) h in
      (block', rw (down, e), c)
]

-- The object holds the string `s`, ended by its null byte.
pub record Holds (block : List ℕ) (s : List ℕ) : Type 0 where
  pub rest : List ℕ
  pub split : block ≡ s ++ (0 ∷ rest)
  pub no_null : NoNull s

pub strlen_append : (s rest : List ℕ) → NoNull s → strlen (s ++ (0 ∷ rest)) ≡ some (length s)
unfolding strlen
strlen_append [] rest h = refl
strlen_append (x ∷ s) rest (ne, h) = rw (ne→==_false x 0 ne, strlen_append s rest h) (ground arith)
