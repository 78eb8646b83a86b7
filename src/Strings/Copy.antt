-- ===== src/Strings/Copy.antt =====
-- strlcpy of lib/string.c in CS439/Project4 on strings that end.
use mathlib.Core.List.{append_assoc}
use utcs.Prelude.{
  ℕ, zero, suc, ◌+◌, ◌-◌, ◌≤◌, ◌<◌, min, ◌≡◌, refl, sym, ap, List, [], ◌∷◌, ◌++◌, some, arith,
  length, get_or, set, take, drop, length-take, length-append, length-drop, lt→ltb, subst,
}
use utcs.Strings.{memcpy, strlcpy}
use utcs.Strings.Bytes.{NoNull, store_lem, strlen_append}

pub set_append :
    (pre old : List ℕ) (x y : ℕ) → set (pre ++ (y ∷ old)) (length pre) x ≡ pre ++ (x ∷ old)
set_append [] old x y = refl
set_append (z ∷ pre) old x y = ap (◌∷◌ z) (set_append pre old x y)

take_append : (n : ℕ) (s rest : List ℕ) → n ≤ length s → take n (s ++ rest) ≡ take n s
take_append zero s rest h = refl
take_append (suc n) [] rest h = absurd (omega arith)
take_append (suc n) (x ∷ s) rest h = ap (◌∷◌ x) (take_append n s rest (omega arith))

drop_next : (n : ℕ) (xs : List ℕ) → n < length xs → drop n xs ≡ get_or xs n 0 ∷ drop (suc n) xs
drop_next n [] h = absurd (omega arith)
drop_next zero (x ∷ xs) h = refl
drop_next (suc n) (x ∷ xs) h = drop_next n xs (omega arith)

-- The bytes behind `pre` are replaced one by one.
memcpy_append :
    (size : ℕ) (pre old src : List ℕ)
    → size ≤ length old
    → size ≤ length src
    → memcpy (pre ++ old) (length pre) src size ≡ some (pre ++ (take size src ++ drop size old))
unfolding memcpy
memcpy_append zero pre old src h k = refl
memcpy_append (suc size) pre [] src h k = absurd (omega arith)
memcpy_append (suc size) pre (y ∷ old) [] h k = absurd (omega arith)
memcpy_append (suc size) pre (y ∷ old) (x ∷ src) h k =
    let next : length pre + 1 ≡ length (pre ++ (x ∷ [])) =
      omega (arith, length-append pre (x ∷ [])) in
    let regroup : pre ++ (x ∷ old) ≡ (pre ++ (x ∷ [])) ++ old =
      sym (append_assoc pre (x ∷ []) old) in
    rw
      (
        store_lem (pre ++ (y ∷ old)) (length pre) x (omega (arith, length-append pre (y ∷ old))),
        set_append pre old x y,
        next,
        regroup,
        memcpy_append size (pre ++ (x ∷ [])) old src (omega arith) (omega arith),
      )
      (ap some (append_assoc pre (x ∷ []) (take size src ++ drop size old)))

-- The byte behind the copy becomes null.
set_end :
    (dst s : List ℕ) (n : ℕ)
    → length (take n s) ≡ n
    → n < length dst
    → set (take n s ++ drop n dst) n 0 ≡ take n s ++ (0 ∷ drop (suc n) dst)
set_end dst s n at h = rw (drop_next n dst h) (
    subst
      (λ (k : ℕ).
        set (take n s ++ (get_or dst n 0 ∷ drop (suc n) dst)) k 0
        ≡ take n s ++ (0 ∷ drop (suc n) dst))
      at (set_append (take n s) (drop (suc n) dst) 0 (get_or dst n 0)))

pub take_all : (s : List ℕ) → take (length s) s ≡ s
take_all [] = refl
take_all (x ∷ s) = ap (◌∷◌ x) (take_all s)

-- strlcpy from a string that ends, into an object of at least `size` bytes, with size not 0: it returns the
-- length of the string; the object then starts with the string, or with its first size - 1 bytes
-- where it is longer, ended by a null byte, and the bytes behind that are as they were.
pub strlcpy_lem :
    (dst s rest : List ℕ) (size n : ℕ)
    → NoNull s
    → 0 < size
    → size ≤ length dst
    → n ≡ min (length s) (size - 1)
    → strlcpy dst (s ++ (0 ∷ rest)) size ≡ some (take n s ++ (0 ∷ drop (suc n) dst), length s)
unfolding strlcpy
strlcpy_lem dst s rest zero n ok pos room e = absurd (omega arith)
strlcpy_lem dst s rest (suc size) n ok pos room e =
    let m : min (length s) size ≡ n = omega arith in
    let long : n ≤ length (s ++ (0 ∷ rest)) = omega (arith, length-append s (0 ∷ rest)) in
    let at : length (take n s) ≡ n = omega (arith, length-take n s) in
    let within : n < length (take n s ++ drop n dst) =
      omega (arith, length-append (take n s) (drop n dst), length-drop n dst) in
    rw (
      strlen_append s rest ok,
      m,
      memcpy_append n [] dst (s ++ (0 ∷ rest)) (omega arith) long,
      take_append n s (0 ∷ rest) (omega arith),
      lt→ltb n (length (take n s ++ drop n dst)) within,
      set_end dst s n at (omega arith),
    )
