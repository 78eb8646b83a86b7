-- ===== src/Swap/Transfer.antt =====
-- The loops of mem_to_swap and swap_to_mem in vm/swap.c of CS439/Project3.
use utcs.Prelude.{
  ℕ, zero, suc, ◌+◌, ◌-◌, ◌^◌, ◌≤◌, ◌<◌, ◌≡◌, refl, ◌∙◌, Bool, true, ◌&&◌, some, ◌==◌, ==_iff, ltb,
  leb, lt→ltb, if◌then◌else◌, arith, Bool-cases, inl, inr,
}
use utcs.Swap.{Piece, word, write_pieces, read_pieces}

pub word_small : (n : ℕ) → n < 2 ^ 32 → word n ≡ n
word_small n h = omega arith

-- Is `x` one of the sectors from `first` to before `last`?
abbrev pub among : (first last x : ℕ) → Bool
among first last x = leb first x && ltb x last

write_step :
    (size : ℕ) (page : ℕ → Piece) (rounds i sector : ℕ) (d : ℕ → Piece)
    → word (sector + i) ≡ sector + i
    → ltb (sector + i) size ≡ true
    → write_pieces size page (suc rounds) i sector d
      ≡ write_pieces size page rounds (i + 1) sector (λ x. if x == sector + i then page i else d x)
unfolding write_pieces
write_step size page rounds i sector d w inside = rw (w, write_pieces) (rw inside)

read_step :
    (size : ℕ) (d : ℕ → Piece) (rounds i sector : ℕ) (page : ℕ → Piece)
    → word (sector + i) ≡ sector + i
    → ltb (sector + i) size ≡ true
    → read_pieces size d (suc rounds) i sector page
      ≡ read_pieces size d rounds (i + 1) sector (λ x. if x == i then d (sector + i) else page x)
unfolding read_pieces
read_step size d rounds i sector page w inside = rw (w, read_pieces) (rw inside)

write_point :
    (page : ℕ → Piece) (rounds i sector x : ℕ) (old : Piece)
    → (if among (sector + (i + 1)) (sector + (i + 1) + rounds) x
        then page (x - sector)
        else (if x == sector + i then page i else old))
      ≡ (if among (sector + i) (sector + i + suc rounds) x then page (x - sector) else old)
write_point page rounds i sector x old = elim (Bool-cases (x == sector + i)) [
  | inl h ↦
      let same : x ≡ sector + i = (==_iff x (sector + i)).0 h in
      let at : x - sector ≡ i = omega arith in rw (h, at) (ground arith)
  | inr h ↦ ground arith
]

-- The pieces are written where they belong, and nowhere else.
pub write_pieces_lem :
    (size : ℕ) (page : ℕ → Piece) (rounds i sector : ℕ) (d : ℕ → Piece)
    → sector + i + rounds ≤ size
    → size ≤ 2 ^ 32
    → (d' : ℕ → Piece) × (write_pieces size page rounds i sector d ≡ some d')
      × ((x : ℕ)
          → d' x ≡ (if among (sector + i) (sector + i + rounds) x then page (x - sector) else d x))
unfolding write_pieces
write_pieces_lem size page zero i sector d fits small = (d, refl, λ x. ground arith)
write_pieces_lem size page (suc rounds) i sector d fits small =
    let w : word (sector + i) ≡ sector + i = word_small (sector + i) (omega arith) in
    let inside : ltb (sector + i) size ≡ true = lt→ltb (sector + i) size (omega arith) in
    let (d', e, s) =
      write_pieces_lem size page rounds (i + 1) sector
        (λ x. if x == sector + i then page i else d x) (omega arith) small in
    (
      d',
      write_step size page rounds i sector d w inside ∙ e,
      λ x. s x ∙ write_point page rounds i sector x (d x),
    )

read_point :
    (d : ℕ → Piece) (rounds i sector x : ℕ) (old : Piece)
    → (if among (i + 1) (i + 1 + rounds) x
        then d (sector + x)
        else (if x == i then d (sector + i) else old))
      ≡ (if among i (i + suc rounds) x then d (sector + x) else old)
read_point d rounds i sector x old = elim (Bool-cases (x == i)) [
  | inl h ↦ let same : x ≡ i = (==_iff x i).0 h in rw same (ground arith)
  | inr h ↦ ground arith
]

-- And read from there.
pub read_pieces_lem :
    (size : ℕ) (d : ℕ → Piece) (rounds i sector : ℕ) (page : ℕ → Piece)
    → sector + i + rounds ≤ size
    → size ≤ 2 ^ 32
    → (page' : ℕ → Piece) × (read_pieces size d rounds i sector page ≡ some page')
      × ((x : ℕ) → page' x ≡ (if among i (i + rounds) x then d (sector + x) else page x))
unfolding read_pieces
read_pieces_lem size d zero i sector page fits small = (page, refl, λ x. ground arith)
read_pieces_lem size d (suc rounds) i sector page fits small =
    let w : word (sector + i) ≡ sector + i = word_small (sector + i) (omega arith) in
    let inside : ltb (sector + i) size ≡ true = lt→ltb (sector + i) size (omega arith) in
    let (page', e, s) =
      read_pieces_lem size d rounds (i + 1) sector (λ x. if x == i then d (sector + i) else page x)
        (omega arith) small in
    (
      page',
      read_step size d rounds i sector page w inside ∙ e,
      λ x. s x ∙ read_point d rounds i sector x (page x),
    )
