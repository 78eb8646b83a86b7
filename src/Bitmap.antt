-- ===== src/Bitmap.antt =====
-- lib/kernel/bitmap.c of CS439/Project4 (the same text in Project1 to Project3): an array of bits
-- kept in 32-bit words. `none` is a failed ASSERT or an access outside the words; a `size_t` has
-- 32 bits. Storage is taken to be there when `bitmap_create` asks for it.
pub mod Bits
pub mod Ranges
pub mod Scan
mod Examples
use Prim.Native.Nat.{bit_and, bit_or, bit_xor}
use utcs.Prelude.{
  ℕ, zero, suc, ◌+◌, ◌-◌, ◌*◌, ◌/◌, ◌%◌, ◌^◌, Bool, true, false, not, List, [], ◌∷◌, Option, none,
  some, ltb, leb, ◌==◌, if◌then◌else◌, bool_eq, get_elem?, get_or, set, replicate, ◌>>=◌, ◌>>◌,
  check,
}

-- `size_t` arithmetic
abbrev pub size_mod : ℕ
size_mod = 2 ^ 32

abbrev pub size_add : ℕ → ℕ → ℕ
size_add a b = (a + b) % size_mod

-- ELEM_BITS
abbrev pub elem_bits : ℕ
elem_bits = 32

-- BITMAP_ERROR, which is SIZE_MAX
abbrev pub bitmap_error : ℕ
bitmap_error = 2 ^ 32 - 1

pub record Bitmap : Type 0 where
  pub bit_cnt : ℕ
  pub bits : List ℕ

abbrev pub elem_idx : ℕ → ℕ
elem_idx bit_idx = bit_idx / elem_bits

abbrev pub bit_mask : ℕ → ℕ
bit_mask bit_idx = 2 ^ (bit_idx % elem_bits)

-- `DIV_ROUND_UP (bit_cnt, ELEM_BITS)`
abbrev pub elem_cnt : ℕ → ℕ
elem_cnt bit_cnt = size_add bit_cnt 31 / elem_bits

abbrev pub byte_cnt : ℕ → ℕ
byte_cnt bit_cnt = 4 * elem_cnt bit_cnt % size_mod

-- The bytes of an array of words
abbrev pub words_bytes : List ℕ → List ℕ
words_bytes [] = []
words_bytes (w ∷ ws) =
    (w % 256) ∷ (w / 256 % 256) ∷ (w / 65536 % 256) ∷ (w / 16777216 % 256) ∷ words_bytes ws

abbrev pub last_mask : Bitmap → ℕ
last_mask b =
    let last_bits = b.bit_cnt % elem_bits in
    if last_bits == 0 then 2 ^ 32 - 1 else 2 ^ last_bits - 1

-- `~mask` of a word
abbrev pub complement : ℕ → ℕ
complement w = 2 ^ 32 - 1 - w

update : Bitmap → ℕ → (ℕ → ℕ) → Option Bitmap
update b bit_idx f = do
  w ← get_elem? b.bits (elem_idx bit_idx)
  some (record b { bits = set b.bits (elem_idx bit_idx) (f w) })

unfoldable pub mark : Bitmap → ℕ → Option Bitmap
unfolding update
mark b bit_idx = update b bit_idx (λ w. bit_or w (bit_mask bit_idx))

pub reset : Bitmap → ℕ → Option Bitmap
unfolding update
reset b bit_idx = update b bit_idx (λ w. bit_and w (complement (bit_mask bit_idx)))

pub flip : Bitmap → ℕ → Option Bitmap
unfolding update
flip b bit_idx = update b bit_idx (λ w. bit_xor w (bit_mask bit_idx))

-- bitmap_set
unfoldable pub put : Bitmap → ℕ → Bool → Option Bitmap
put b idx value = do check (ltb idx b.bit_cnt); if value then mark b idx else reset b idx

unfoldable pub test : Bitmap → ℕ → Option Bool
test b idx = do
  check (ltb idx b.bit_cnt)
  w ← get_elem? b.bits (elem_idx idx)
  some (not (bit_and w (bit_mask idx) == 0))

-- The two assertions that the operations on ranges share.
pub in_range : Bitmap → ℕ → ℕ → Option (Unit {0})
in_range b start cnt = check (leb start b.bit_cnt) >> check (leb (size_add start cnt) b.bit_cnt)

-- `for (i = 0; i < cnt; i++) bitmap_set (b, start + i, value);` with `left` rounds to go.
put_from : (left : ℕ) → Bitmap → ℕ → ℕ → Bool → Option Bitmap
put_from zero b start i value = some b
put_from (suc left) b start i value = do
  b' ← put b (size_add start i) value
  put_from left b' start (i + 1) value

unfoldable pub set_multiple : Bitmap → ℕ → ℕ → Bool → Option Bitmap
unfolding in_range put_from
set_multiple b start cnt value = in_range b start cnt >> put_from cnt b start 0 value

pub set_all : Bitmap → Bool → Option Bitmap
set_all b value = set_multiple b 0 b.bit_cnt value

-- bitmap_create; `garbage` is what `malloc` left in the words.
pub create : ℕ → (garbage : List ℕ) → Option Bitmap
create bit_cnt garbage = set_all (record { bit_cnt = bit_cnt; bits = garbage }) false

-- bitmap_buf_size; `struct bitmap` has 8 bytes.
pub buf_size : (bit_cnt : ℕ) → ℕ
buf_size bit_cnt = size_add 8 (byte_cnt bit_cnt)

-- bitmap_create_in_buf; `garbage` is what the words of the block hold.
pub create_in_buf : (bit_cnt : ℕ) → (garbage : List ℕ) → (block_size : ℕ) → Option Bitmap
unfolding buf_size create
create_in_buf bit_cnt garbage block_size =
    check (leb (buf_size bit_cnt) block_size) >> create bit_cnt garbage

count_from : (left : ℕ) → Bitmap → ℕ → ℕ → Bool → (value_cnt : ℕ) → Option ℕ
count_from zero b start i value value_cnt = some value_cnt
count_from (suc left) b start i value value_cnt = do
  t ← test b (size_add start i)
  count_from left b start (i + 1) value (if bool_eq t value then value_cnt + 1 else value_cnt)

pub count : Bitmap → ℕ → ℕ → Bool → Option ℕ
unfolding in_range count_from
count b start cnt value = in_range b start cnt >> count_from cnt b start 0 value 0

contains_from : (left : ℕ) → Bitmap → ℕ → ℕ → Bool → Option Bool
contains_from zero b start i value = some false
contains_from (suc left) b start i value = do
  t ← test b (size_add start i)
  let rest = contains_from left b start (i + 1) value
  if bool_eq t value then some true else rest

unfoldable pub contains : Bitmap → ℕ → ℕ → Bool → Option Bool
unfolding in_range contains_from
contains b start cnt value = in_range b start cnt >> contains_from cnt b start 0 value

pub any : Bitmap → ℕ → ℕ → Option Bool
any b start cnt = contains b start cnt true

-- bitmap_none
pub no_bit : Bitmap → ℕ → ℕ → Option Bool
no_bit b start cnt = do c ← contains b start cnt true; some (not c)

unfoldable pub all : Bitmap → ℕ → ℕ → Option Bool
all b start cnt = do c ← contains b start cnt false; some (not c)

-- `for (i = start; i <= last; i++)`
scan_from : (left : ℕ) → Bitmap → (i cnt : ℕ) → Bool → Option ℕ
scan_from zero b i cnt value = some bitmap_error
scan_from (suc left) b i cnt value = do
  c ← contains b i cnt (not value)
  let rest = scan_from left b (i + 1) cnt value
  if c then rest else some i

unfoldable pub scan : Bitmap → ℕ → ℕ → Bool → Option ℕ
unfolding scan_from
scan b start cnt value =
    check (leb start b.bit_cnt)
    >> (if leb cnt b.bit_cnt
        then scan_from (b.bit_cnt - cnt + 1 - start) b start cnt value
        else some bitmap_error)

unfoldable pub scan_and_flip : Bitmap → ℕ → ℕ → Bool → Option (Bitmap × ℕ)
scan_and_flip b start cnt value = do
  idx ← scan b start cnt value
  let flipped = (do b' ← set_multiple b idx cnt (not value); some (b', idx))
  if idx == bitmap_error then some (b, idx) else flipped
