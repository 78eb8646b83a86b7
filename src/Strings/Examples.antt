-- ===== src/Strings/Examples.antt =====
-- Runs of the functions on strings.
use utcs.Prelude.{ℕ, ◌≡◌, refl, List, [], ◌∷◌, some}
use Prim.Native.Nat.{Ordering}
use utcs.Prelude.{◌+◌, ◌++◌, ltb, if◌then◌else◌, take, drop, length, arith}
use utcs.Strings.Bytes.{Copied, shifted, memmove_lem}
use utcs.Strings.Copy.{strlcpy_lem}
use utcs.Strings.Order.{Compares, strcmp_lem}
use utcs.Strings.Tokens.{split, words}
use utcs.Strings.Words.{tokens, tokens-words}
use utcs.Strings.{strcmp, memmove, strtok_r, strlcpy, strstr, strlcat}

memmove_test : memmove (1 ∷ 2 ∷ 3 ∷ 4 ∷ []) 1 0 3 ≡ some (1 ∷ 1 ∷ 2 ∷ 3 ∷ [], 1)
unfolding memmove
memmove_test = refl

strtok_r_test :
    strtok_r (47 ∷ 97 ∷ 98 ∷ 47 ∷ 0 ∷ []) (47 ∷ 0 ∷ []) 0
    ≡ some (47 ∷ 97 ∷ 98 ∷ 0 ∷ 0 ∷ [], some 1, 4)
unfolding strtok_r
strtok_r_test = refl

strstr_test : strstr (1 ∷ 2 ∷ 1 ∷ 3 ∷ 0 ∷ []) (1 ∷ 3 ∷ 0 ∷ []) ≡ some (some 2)
unfolding strstr
strstr_test = refl

strlcat_test :
    strlcat (1 ∷ 0 ∷ 9 ∷ 9 ∷ 9 ∷ []) (2 ∷ 3 ∷ 4 ∷ 0 ∷ []) 4 ≡ some (1 ∷ 2 ∷ 3 ∷ 0 ∷ 9 ∷ [], 4)
unfolding strlcat
strlcat_test = refl

abbrev four_bytes : List ℕ
four_bytes = 1 ∷ 2 ∷ 3 ∷ 4 ∷ []

-- The ranges overlap, and dst is below src.
memmove_lem_example :
    (block' : List ℕ) × (memmove four_bytes 0 1 3 ≡ some (block', if ltb 0 1 then 0 + 3 else 0))
    × Copied four_bytes 0 3 (shifted four_bytes 1) block'
memmove_lem_example = memmove_lem four_bytes 0 1 3 (omega arith) (omega arith)

strlcpy_lem_example :
    strlcpy four_bytes ((7 ∷ 8 ∷ 9 ∷ []) ++ (0 ∷ [])) 3
    ≡ some (take 2 (7 ∷ 8 ∷ 9 ∷ []) ++ (0 ∷ drop 3 four_bytes), length {A = ℕ} (7 ∷ 8 ∷ 9 ∷ []))
strlcpy_lem_example =
    strlcpy_lem four_bytes (7 ∷ 8 ∷ 9 ∷ []) [] 3 2 (omega arith, (omega arith, (omega arith, tt)))
      (omega arith) (omega arith) (omega arith)

strcmp_lem_example :
    (o : Ordering) × (strcmp ((97 ∷ 98 ∷ []) ++ (0 ∷ [])) ((97 ∷ 99 ∷ []) ++ (0 ∷ [])) ≡ some o)
    × Compares o (97 ∷ 98 ∷ []) (97 ∷ 99 ∷ [])
strcmp_lem_example =
    strcmp_lem (97 ∷ 98 ∷ []) (97 ∷ 99 ∷ []) [] [] (omega arith, (omega arith, tt))
      (omega arith, (omega arith, tt))

-- "/a//b/"
abbrev path_example : List ℕ
path_example = 47 ∷ 97 ∷ 47 ∷ 47 ∷ 98 ∷ 47 ∷ []

tokens-words_example :
    tokens 7 (path_example ++ (0 ∷ [])) ((47 ∷ []) ++ (0 ∷ [])) 0
    ≡ some (words (split (47 ∷ []) path_example))
tokens-words_example =
    tokens-words (47 ∷ []) [] 7 (path_example ++ (0 ∷ [])) 0 path_example [] (omega arith, tt)
      (omega arith, (omega arith, (omega arith, (omega arith, (omega arith, (omega arith, tt))))))
      refl (omega arith)
