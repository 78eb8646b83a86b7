-- ===== src/Strings/Words.antt =====
-- strtok_r of lib/string.c in CS439/Project4, call after call: the words between the delimiters.
use mathlib.Core.List.{append_assoc, append-nil}
use utcs.Prelude.{
  ℕ, zero, suc, ◌+◌, ◌≤◌, ◌<◌, ◌≡◌, ◌≢◌, refl, sym, ap, ◌∙◌, false, List, [], ◌∷◌, ◌++◌, Option,
  none, some, arith, ◌==◌, if◌then◌else◌, length, get_elem?, drop, set, ◌>>=◌, ◌⊎◌, inl, inr,
  ne→==_false, length-append,
}
use utcs.Strings.{skip_delimiters, token_length, strtok_r, store}
use utcs.Strings.Bytes.{NoNull, store_lem}
use utcs.Strings.Copy.{set_append}
use utcs.Strings.Tokens.{elem, split, words, StartsWord, is_empty, Behind, skip_lem, token_lem}

-- The string at the start of the bytes.
unfoldable pub c_string : List ℕ → Option (List ℕ)
c_string [] = none
c_string (x ∷ rest) =
    let more = (do s ← c_string rest; some (x ∷ s)) in if x == 0 then some [] else more

-- `for (token = strtok_r (s, …); token != NULL; token = strtok_r (NULL, …))`, with what the tokens are.
pub tokens : (fuel : ℕ) → List ℕ → (delimiters : List ℕ) → (s : ℕ) → Option (List (List ℕ))
unfolding c_string
tokens zero block delimiters s = none
tokens (suc fuel) block delimiters s = do
  (block', token, save_ptr) ← strtok_r block delimiters s
  elim token [
    | none ↦ some []
    | some p ↦ do
      w ← c_string (drop p block')
      ws ← tokens fuel block' delimiters save_ptr
      some (w ∷ ws)
  ]

pub c_string_append : (s rest : List ℕ) → NoNull s → c_string (s ++ (0 ∷ rest)) ≡ some s
unfolding c_string
c_string_append [] rest h = refl
c_string_append (x ∷ s) rest (ne, h) = rw (ne→==_false x 0 ne, c_string_append s rest h)

drop-nil : (n : ℕ) → drop {A = ℕ} n [] ≡ []
drop-nil zero = refl
drop-nil (suc n) = refl

drop-add : (a b : ℕ) (xs : List ℕ) → drop (a + b) xs ≡ drop b (drop a xs)
drop-add zero b xs = ap (λ (i : ℕ). drop i xs) (omega arith)
drop-add (suc a) b [] = drop-nil (suc a + b) ∙ sym (drop-nil b)
drop-add (suc a) b (x ∷ xs) =
    let e : suc a + b ≡ suc (a + b) = omega arith in rw e (drop-add a b xs)

pub drop-append : (s rest : List ℕ) → drop (length s) (s ++ rest) ≡ rest
drop-append [] rest = refl
drop-append (x ∷ s) rest = drop-append s rest

-- Behind what the bytes at `a` start with.
pub drop_behind :
    (a : ℕ) (xs s rest : List ℕ) → drop a xs ≡ s ++ rest → drop (a + length s) xs ≡ rest
drop_behind a xs s rest e = drop-add a (length s) xs ∙ ap (drop (length s)) e ∙ drop-append s rest

drop-set : (a n v : ℕ) (xs : List ℕ) → drop a (set xs (a + n) v) ≡ set (drop a xs) n v
drop-set zero n v xs = ap (λ (i : ℕ). set xs i v) (omega arith)
drop-set (suc a) n v [] = refl
drop-set (suc a) n v (x ∷ xs) =
    let e : suc a + n ≡ suc (a + n) = omega arith in rw e (drop-set a n v xs)

drop-set_before : (i v : ℕ) (xs : List ℕ) → drop (suc i) (set xs i v) ≡ drop (suc i) xs
drop-set_before i v [] = refl
drop-set_before zero v (x ∷ xs) = refl
drop-set_before (suc i) v (x ∷ xs) = drop-set_before i v xs

-- What is at an index and behind it.
at_index :
    (i y : ℕ) (xs rest : List ℕ)
    → drop i xs ≡ y ∷ rest
    → (get_elem? xs i ≡ some y) × (i < length xs) × (drop (suc i) xs ≡ rest)
at_index zero y [] rest e = absurd (cc e)
at_index (suc i) y [] rest e = absurd (cc e)
at_index zero y (x ∷ xs) rest e = (cc e, omega arith, cc e)
at_index (suc i) y (x ∷ xs) rest e =
    let (g, h, d) = at_index i y xs rest e in (g, omega (arith, h), d)

-- Behind a word and its delimiter.
abbrev after : List ℕ → List ℕ
after [] = []
after (y ∷ v) = v

-- The word is not empty, and it is the first.
first_word :
    (ds : List ℕ) (x : ℕ) (u t v : List ℕ)
    → elem ds x ≡ false
    → x ∷ u ≡ t ++ v
    → Behind ds (split ds (x ∷ u)) t v
    → (0 < length t) × (words (split ds (x ∷ u)) ≡ t ∷ words (split ds (after v)))
unfolding split words
first_word ds x u [] [] no_delimiter e b = absurd (cc e)
first_word ds x u [] (y ∷ v) no_delimiter e (b, d) =
    let same : x ≡ y = cc e in absurd (cc (no_delimiter, d, ap (elem ds) same))
first_word ds x u (z ∷ t) [] no_delimiter e b = (omega arith, ap words b)
first_word ds x u (z ∷ t) (y ∷ v) no_delimiter e (b, d) = (omega arith, ap words b)

-- A call that finds the word `t`; `v` is what is left to look at.
record Next (ds block str : List ℕ) (run : Option (List ℕ × Option ℕ × ℕ)) : Type 0 where
  pub block' : List ℕ
  pub p : ℕ
  pub save_ptr : ℕ
  pub t : List ℕ
  pub v : List ℕ
  pub rest : List ℕ
  pub ran : run ≡ some (block', some p, save_ptr)
  pub word_at : c_string (drop p block') ≡ some t
  pub left : drop save_ptr block' ≡ v ++ (0 ∷ rest)
  pub null_free : NoNull v
  pub shorter : length v < length str
  pub same_words : words (split ds str) ≡ t ∷ words (split ds v)

module _ (ds more : List ℕ) (plain : NoNull ds) where
  call_skipped :
      (block : List ℕ) (s skipped n c : ℕ)
      → skip_delimiters (drop s block) (ds ++ (0 ∷ more)) ≡ some (skipped, false)
      → token_length (drop (s + skipped) block) (ds ++ (0 ∷ more)) ≡ some n
      → get_elem? block (s + skipped + n) ≡ some c
      → strtok_r block (ds ++ (0 ∷ more)) s ≡ (
          if c == 0 then some (block, some (s + skipped), s + skipped + n) else (do
            block' ← store block (s + skipped + n) 0
            some (block', some (s + skipped), s + skipped + n + 1)))
  unfolding strtok_r
  call_skipped block s skipped n c e f g = rw (e, f, g) (ground arith)

  -- Behind the word comes the end of the string.
  last_word :
      (block : List ℕ) (s skipped : ℕ) (str t rest : List ℕ)
      → skip_delimiters (drop s block) (ds ++ (0 ∷ more)) ≡ some (skipped, false)
      → token_length (drop (s + skipped) block) (ds ++ (0 ∷ more)) ≡ some (length t)
      → drop (s + skipped) block ≡ t ++ (0 ∷ rest)
      → NoNull t
      → 0 < length str
      → words (split ds str) ≡ t ∷ []
      → Next ds block str (strtok_r block (ds ++ (0 ∷ more)) s)
  unfolding words split
  last_word block s skipped str t rest e f at plain_t pos w =
      let behind = drop_behind (s + skipped) block t (0 ∷ rest) at in
      let (g, h, d) = at_index (s + skipped + length t) 0 block rest behind in
      record {
        block' = block;
        p = s + skipped;
        save_ptr = s + skipped + length t;
        t = t;
        v = [];
        rest = rest;
        ran = call_skipped block s skipped (length t) 0 e f g;
        word_at = rw at (c_string_append t rest plain_t);
        left = behind;
        null_free = tt;
        shorter = pos;
        same_words = w;
      }

  -- Behind the word comes a delimiter, which is overwritten.
  more_words :
      (block : List ℕ) (s skipped y : ℕ) (str t v rest : List ℕ)
      → skip_delimiters (drop s block) (ds ++ (0 ∷ more)) ≡ some (skipped, false)
      → token_length (drop (s + skipped) block) (ds ++ (0 ∷ more)) ≡ some (length t)
      → drop (s + skipped) block ≡ t ++ (y ∷ (v ++ (0 ∷ rest)))
      → NoNull t
      → y ≢ 0
      → NoNull v
      → length v < length str
      → words (split ds str) ≡ t ∷ words (split ds v)
      → Next ds block str (strtok_r block (ds ++ (0 ∷ more)) s)
  more_words block s skipped y str t v rest e f at plain_t ne plain_v h w =
      let i : ℕ = s + skipped + length t in
      let behind = drop_behind (s + skipped) block t (y ∷ (v ++ (0 ∷ rest))) at in
      let (g, inside, d) = at_index i y block (v ++ (0 ∷ rest)) behind in
      let next : i + 1 ≡ suc i = omega arith in
      record {
        block' = set block i 0;
        p = s + skipped;
        save_ptr = i + 1;
        t = t;
        v = v;
        rest = rest;
        ran =
            call_skipped block s skipped (length t) y e f g
            ∙ rw (ne→==_false y 0 ne, store_lem block i 0 inside) refl;
        word_at =
            rw (drop-set (s + skipped) (length t) 0 block, at, set_append t (v ++ (0 ∷ rest)) 0 y)
              (c_string_append t (v ++ (0 ∷ rest)) plain_t);
        left = rw next (drop-set_before i 0 block ∙ d);
        null_free = plain_v;
        shorter = h;
        same_words = w;
      }

  -- The second loop and what follows it, at a word.
  at_word :
      (block : List ℕ) (s skipped x : ℕ) (str u rest t v : List ℕ)
      → skip_delimiters (drop s block) (ds ++ (0 ∷ more)) ≡ some (skipped, false)
      → drop (s + skipped) block ≡ (x ∷ u) ++ (0 ∷ rest)
      → elem ds x ≡ false
      → length (x ∷ u) ≤ length str
      → words (split ds str) ≡ words (split ds (x ∷ u))
      → x ∷ u ≡ t ++ v
      → token_length (drop (s + skipped) block) (ds ++ (0 ∷ more)) ≡ some (length t)
      → Behind ds (split ds (x ∷ u)) t v
      → NoNull t
      → NoNull v
      → Next ds block str (strtok_r block (ds ++ (0 ∷ more)) s)
  unfolding words split
  at_word block s skipped x str u rest t [] e at no_delimiter h w cut f parts plain_t plain_v =
      let (pos, first) = first_word ds x u t [] no_delimiter cut parts in
      let at_t : drop (s + skipped) block ≡ t ++ (0 ∷ rest) =
        at ∙ ap (λ z. z ++ (0 ∷ rest)) (cut ∙ append-nil t) in
      last_word block s skipped str t rest e f at_t plain_t (omega (arith, h)) (w ∙ first)
  at_word block s skipped x str u rest t (y ∷ v) e at no_delimiter h w cut f parts plain_t
        (ne, plain_v) =
      let (pos, first) = first_word ds x u t (y ∷ v) no_delimiter cut parts in
      let at_t : drop (s + skipped) block ≡ t ++ (y ∷ (v ++ (0 ∷ rest))) =
        at ∙ ap (λ z. z ++ (0 ∷ rest)) cut ∙ append_assoc t (y ∷ v) (0 ∷ rest) in
      more_words block s skipped y str t v rest e f at_t plain_t ne plain_v
        (omega (arith, h, ap length cut, length-append t (y ∷ v))) (w ∙ first)

  -- Behind the first loop.
  at_stop :
      (block : List ℕ) (s : ℕ) (str before u rest : List ℕ)
      → skip_delimiters (drop s block) (ds ++ (0 ∷ more)) ≡ some (length before, is_empty u)
      → drop (s + length before) block ≡ u ++ (0 ∷ rest)
      → StartsWord ds u
      → length u ≤ length str
      → words (split ds str) ≡ words (split ds u)
      → NoNull u
      → ((e : ℕ) × (strtok_r block (ds ++ (0 ∷ more)) s ≡ some (block, none, e))
          × (words (split ds str) ≡ []))
        ⊎ Next ds block str (strtok_r block (ds ++ (0 ∷ more)) s)
  unfolding words split strtok_r
  at_stop block s str before [] rest e at starts h w plain_u = inl (s + length before, rw e, w)
  at_stop block s str before (x ∷ u) rest e at starts h w plain_u =
      let k = token_lem ds more plain (x ∷ u) rest plain_u in
      inr (
        at_word block s (length before) x str u rest k.t k.v e at starts h w k.cut (rw at k.ran)
          k.parts k.word k.null_free)

  -- One call on a string that ends: there is no word left, or the call finds the first.
  strtok_r_lem :
      (block : List ℕ) (s : ℕ) (str rest : List ℕ)
      → drop s block ≡ str ++ (0 ∷ rest)
      → NoNull str
      → ((e : ℕ) × (strtok_r block (ds ++ (0 ∷ more)) s ≡ some (block, none, e))
          × (words (split ds str) ≡ []))
        ⊎ Next ds block str (strtok_r block (ds ++ (0 ∷ more)) s)
  strtok_r_lem block s str rest at plain_str =
      let k = skip_lem ds more plain str rest plain_str in
      let at_u : drop s block ≡ k.before ++ (k.u ++ (0 ∷ rest)) =
        at ∙ ap (λ z. z ++ (0 ∷ rest)) k.cut ∙ append_assoc k.before k.u (0 ∷ rest) in
      at_stop block s str k.before k.u rest (rw at k.ran)
        (drop_behind s block k.before (k.u ++ (0 ∷ rest)) at_u) k.starts
        (omega (arith, ap length k.cut, length-append k.before k.u)) k.same_words k.null_free

-- strtok_r called until it answers NULL, on a string that ends and delimiters that do, with fuel for one
-- call more than the string has bytes: it ends, and the tokens are the words between the
-- delimiters that are not empty, in their order, whatever stands before and behind the string.
pub tokens-words :
    (ds more : List ℕ) (fuel : ℕ) (block : List ℕ) (s : ℕ) (str rest : List ℕ)
    → NoNull ds
    → NoNull str
    → drop s block ≡ str ++ (0 ∷ rest)
    → length str < fuel
    → tokens fuel block (ds ++ (0 ∷ more)) s ≡ some (words (split ds str))
unfolding tokens
tokens-words ds more zero block s str rest plain plain_str at h = absurd (omega arith)
tokens-words ds more (suc fuel) block s str rest plain plain_str at h =
    elim (strtok_r_lem ds more plain block s str rest at plain_str) [
      | inl (e, ran, w) ↦ rw (ran, w)
      | inr k ↦
          let later =
            tokens-words ds more fuel k.block' k.save_ptr k.v k.rest plain k.null_free k.left
              (omega (arith, k.shorter)) in
          rw (k.ran, k.word_at, later, k.same_words)
    ]
