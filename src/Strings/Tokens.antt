-- ===== src/Strings/Tokens.antt =====
-- strtok_r of lib/string.c in CS439/Project4: call after call it gives the words between the delimiters.
use utcs.Prelude.{
  ℕ, ◌≡◌, refl, ap, ◌∙◌, Bool, true, false, List, [], ◌∷◌, ◌++◌, Option, none, some, arith, ◌==◌,
  if◌then◌else◌, ◌||◌, length, Bool-cases, inl, inr, ne→==_false,
}
use utcs.Strings.{further, found, strchr, skip_delimiters, token_length}
use utcs.Strings.Bytes.{NoNull}

-- The byte is one of the list.
abbrev pub elem : List ℕ → ℕ → Bool
elem [] x = false
elem (d ∷ ds) x = d == x || elem ds x

-- `x` in front of the first word.
abbrev pub onto_first : ℕ → List (List ℕ) → List (List ℕ)
onto_first x [] = (x ∷ []) ∷ []
onto_first x (w ∷ ws) = (x ∷ w) ∷ ws

-- What stands between the delimiters, empty words too.
unfoldable pub split : (delimiters : List ℕ) → List ℕ → List (List ℕ)
split ds [] = [] ∷ []
split ds (x ∷ s) = if elem ds x then [] ∷ split ds s else onto_first x (split ds s)

-- The words that are not empty.
unfoldable pub words : List (List ℕ) → List (List ℕ)
words [] = []
words ([] ∷ ws) = words ws
words ((x ∷ w) ∷ ws) = (x ∷ w) ∷ words ws

found-further : (r : Option ℕ) → found (further r) ≡ found r
found-further none = refl
found-further (some i) = refl

-- strchr finds the null byte too.
strchr_lem :
    (ds rest : List ℕ) (x : ℕ)
    → NoNull ds
    → (r : Option ℕ) × (strchr (ds ++ (0 ∷ rest)) x ≡ some r) × (found r ≡ (x == 0 || elem ds x))
unfolding strchr
strchr_lem [] rest x h = elim (Bool-cases (0 == x)) [
  | inl e ↦ (some 0, rw e, ground arith)
  | inr e ↦ (none, rw e, ground arith)
]
strchr_lem (d ∷ ds) rest x (ne, h) = elim (Bool-cases (d == x)) [
  | inl e ↦ (some 0, rw e, ground arith)
  | inr e ↦
      let (r, q, f) = strchr_lem ds rest x h in
      (further r, rw (e, ne→==_false d 0 ne, q), found-further r ∙ f ∙ ground arith)
]

-- The first byte, if there is one, is no delimiter.
abbrev pub StartsWord : List ℕ → List ℕ → Type 0
StartsWord ds [] = Unit
StartsWord ds (x ∷ u) = elem ds x ≡ false

abbrev pub is_empty : List ℕ → Bool
is_empty [] = true
is_empty (x ∷ u) = false

-- The first loop stops at `u`.
pub record Skips (ds s : List ℕ) (run : Option (ℕ × Bool)) : Type 0 where
  pub before : List ℕ
  pub u : List ℕ
  pub cut : s ≡ before ++ u
  pub ran : run ≡ some (length before, is_empty u)
  pub starts : StartsWord ds u
  pub null_free : NoNull u
  pub same_words : words (split ds s) ≡ words (split ds u)

-- What stands behind a word: nothing, or a delimiter.
abbrev pub Behind : (ds : List ℕ) → List (List ℕ) → (t v : List ℕ) → Type 0
Behind ds parts t [] = parts ≡ t ∷ []
Behind ds parts t (y ∷ v) = (parts ≡ t ∷ split ds v) × (elem ds y ≡ true)

-- The second loop goes over the word `t`.
pub record Takes (ds u : List ℕ) (run : Option ℕ) : Type 0 where
  pub t : List ℕ
  pub v : List ℕ
  pub cut : u ≡ t ++ v
  pub ran : run ≡ some (length t)
  pub parts : Behind ds (split ds u) t v
  pub null_free : NoNull v
  pub word : NoNull t

further-Behind :
    (ds : List ℕ) (x : ℕ) (parts : List (List ℕ)) (t v : List ℕ)
    → Behind ds parts t v
    → Behind ds (onto_first x parts) (x ∷ t) v
further-Behind ds x parts t [] e = ap (onto_first x) e
further-Behind ds x parts t (y ∷ v) (e, d) = (ap (onto_first x) e, d)

module _ (ds more : List ℕ) (plain : NoNull ds) where
  pub skip_lem :
      (s rest : List ℕ)
      → NoNull s
      → Skips ds s (skip_delimiters (s ++ (0 ∷ rest)) (ds ++ (0 ∷ more)))
  unfolding skip_delimiters split words
  skip_lem [] rest h =
      let (r, q, f) = strchr_lem ds more 0 plain in
      let y : found r ≡ true = f ∙ ground arith in
      record {
        before = [];
        u = [];
        cut = refl;
        ran = rw (q, y);
        starts = tt;
        null_free = tt;
        same_words = refl;
      }
  skip_lem (x ∷ s) rest (ne, h) =
      let (r, q, f) = strchr_lem ds more x plain in
      elim (Bool-cases (elem ds x)) [
        | inl is ↦
            let y : found r ≡ true = f ∙ ground arith in
            let k = skip_lem s rest h in
            record {
              before = x ∷ k.before;
              u = k.u;
              cut = ap (◌∷◌ x) k.cut;
              ran = rw (q, y, ne→==_false x 0 ne, k.ran) (ground arith);
              starts = k.starts;
              null_free = k.null_free;
              same_words = rw is k.same_words;
            }
        | inr not_in ↦
            let y : found r ≡ false = f ∙ rw (not_in, ne→==_false x 0 ne) in
            record {
              before = [];
              u = x ∷ s;
              cut = refl;
              ran = rw (q, y);
              starts = not_in;
              null_free = (ne, h);
              same_words = refl;
            }
      ]

  pub token_lem :
      (u rest : List ℕ) → NoNull u → Takes ds u (token_length (u ++ (0 ∷ rest)) (ds ++ (0 ∷ more)))
  unfolding token_length split
  token_lem [] rest h =
      let (r, q, f) = strchr_lem ds more 0 plain in
      let y : found r ≡ true = f ∙ ground arith in
      record {
        t = [];
        v = [];
        cut = refl;
        ran = rw (q, y);
        parts = refl;
        null_free = tt;
        word = tt;
      }
  token_lem (x ∷ u) rest (ne, h) =
      let (r, q, f) = strchr_lem ds more x plain in
      elim (Bool-cases (elem ds x)) [
        | inl is ↦
            let y : found r ≡ true = f ∙ ground arith in
            record {
              t = [];
              v = x ∷ u;
              cut = refl;
              ran = rw (q, y);
              parts = (rw is, is);
              null_free = (ne, h);
              word = tt;
            }
        | inr not_in ↦
            let y : found r ≡ false = f ∙ rw (not_in, ne→==_false x 0 ne) in
            let k = token_lem u rest h in
            record {
              t = x ∷ k.t;
              v = k.v;
              cut = ap (◌∷◌ x) k.cut;
              ran = rw (q, y, k.ran) (ground arith);
              parts = rw not_in (further-Behind ds x (split ds u) k.t k.v k.parts);
              null_free = k.null_free;
              word = (ne, k.word);
            }
      ]
