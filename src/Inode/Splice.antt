-- ===== src/Inode/Splice.antt =====
-- A piece written over a part of a list, as inode_write_at of filesys/inode.c writes into a sector.
use utcs.Prelude.{
  ℕ, zero, suc, ◌+◌, ◌-◌, ◌≤◌, ◌<◌, ◌≡◌, refl, ap, ◌∙◌, List, [], ◌∷◌, ◌++◌, arith, length, get_or,
  take, drop, ltb, if◌then◌else◌, false, length-append, length-take, length-drop,
}
use utcs.Bitmap.Ranges.{within}

-- `block` with `piece` at `ofs`.
abbrev pub splice : (block piece : List ℕ) → (ofs : ℕ) → List ℕ
splice block piece ofs = take ofs block ++ (piece ++ drop (ofs + length piece) block)

get_or-append :
    (xs ys : List ℕ) (k : ℕ)
    → get_or (xs ++ ys) k 0
      ≡ (if ltb k (length xs) then get_or xs k 0 else get_or ys (k - length xs) 0)
get_or-append [] ys k = rw (nothing_below k) (ap (λ (j : ℕ). get_or ys j 0) (omega arith))
  where
    nothing_below : (k : ℕ) → ltb k 0 ≡ false
    nothing_below k = ground arith
get_or-append (x ∷ xs) ys zero = ground arith
get_or-append (x ∷ xs) ys (suc k) = ground (arith, get_or-append xs ys k)

pub get_or-take : (n : ℕ) (xs : List ℕ) (k : ℕ) → k < n → get_or (take n xs) k 0 ≡ get_or xs k 0
get_or-take zero xs k h = absurd (omega arith)
get_or-take (suc n) [] k h = refl
get_or-take (suc n) (x ∷ xs) zero h = refl
get_or-take (suc n) (x ∷ xs) (suc k) h = get_or-take n xs k (omega arith)

pub get_or-drop : (n : ℕ) (xs : List ℕ) (k : ℕ) → get_or (drop n xs) k 0 ≡ get_or xs (n + k) 0
get_or-drop zero xs k = ap (λ (j : ℕ). get_or xs j 0) (omega arith)
get_or-drop (suc n) [] k = refl
get_or-drop (suc n) (x ∷ xs) k = get_or-drop n xs k ∙ ap (λ (j : ℕ). get_or (x ∷ xs) j 0) shift
  where
    shift : suc (n + k) ≡ suc n + k
    shift = omega arith

pub length-splice :
    (block piece : List ℕ) (ofs : ℕ)
    → ofs + length piece ≤ length block
    → length (splice block piece ofs) ≡ length block
length-splice block piece ofs h = omega (
  arith,
  length-append (take ofs block) (piece ++ drop (ofs + length piece) block),
  length-append piece (drop (ofs + length piece) block),
  length-take ofs block,
  length-drop (ofs + length piece) block,
)

pub get_or-splice :
    (block piece : List ℕ) (ofs k : ℕ)
    → ofs + length piece ≤ length block
    → get_or (splice block piece ofs) k 0
      ≡ (if within ofs (length piece) k then get_or piece (k - ofs) 0 else get_or block k 0)
get_or-splice block piece ofs k h = ground (
  arith,
  get_or-append (take ofs block) (piece ++ drop (ofs + length piece) block) k,
  get_or-append piece (drop (ofs + length piece) block) (k - ofs),
  get_or-take ofs block k,
  get_or-drop (ofs + length piece) block (k - ofs - length piece),
  length-take ofs block,
  same_index (k - length (take ofs block)) (k - ofs),
  same_place (ofs + length piece + (k - ofs - length piece)) k,
)
  where
    same_index :
        (i j : ℕ)
        → i ≡ j
        → get_or (piece ++ drop (ofs + length piece) block) i 0
          ≡ get_or (piece ++ drop (ofs + length piece) block) j 0
    same_index i j e = ap (λ (x : ℕ). get_or (piece ++ drop (ofs + length piece) block) x 0) e

    same_place : (i j : ℕ) → i ≡ j → get_or block i 0 ≡ get_or block j 0
    same_place i j e = ap (λ (x : ℕ). get_or block x 0) e
