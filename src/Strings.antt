-- ===== src/Strings.antt =====
-- lib/string.c of CS439/Project4. A pointer into an object is the list of the object's bytes from
-- there to its end, or, where the object is written, the object and an index; an access outside of
-- the object is `none`. A char is its byte, a pointer that is returned is an index, NULL is `none`.
pub mod Bytes
pub mod Copy
pub mod Order
pub mod Tokens
pub mod Words
mod Examples
use Prim.Native.Nat.{compare, Ordering}
use utcs.Prelude.{
  ℕ, zero, suc, ◌+◌, ◌-◌, ◌%◌, min, Bool, true, false, not, List, [], ◌∷◌, Option, none, some, ltb,
  leb, ◌==◌, if◌then◌else◌, ◌&&◌, length, get_elem?, set, drop, ◌>>=◌, ◌>>◌, check,
}

-- The byte at an index, written: outside of the object it is a fault.
pub store : List ℕ → (i value : ℕ) → Option (List ℕ)
store block i value = check (ltb i (length block)) >> some (set block i value)

-- memcpy, from the object `src` to the object `dst` at the index
unfoldable pub memcpy : List ℕ → (at : ℕ) → (src : List ℕ) → (size : ℕ) → Option (List ℕ)
unfolding store
memcpy dst at src zero = some dst
memcpy dst at [] (suc size) = none
memcpy dst at (x ∷ src) (suc size) = do dst' ← store dst at x; memcpy dst' (at + 1) src size

-- `while (size-- > 0) *dst++ = *src++;` of memmove, both indices in one object
pub move_up : List ℕ → (dst src size : ℕ) → Option (List ℕ)
unfolding store
move_up block dst src zero = some block
move_up block dst src (suc size) = do
  x ← get_elem? block src
  block' ← store block dst x
  move_up block' (dst + 1) (src + 1) size

-- `while (size-- > 0) *--dst = *--src;`, from the end of both ranges
pub move_down : List ℕ → (dst src size : ℕ) → Option (List ℕ)
unfolding store
move_down block dst src zero = some block
move_down block dst src (suc size) = do
  x ← get_elem? block (src + size)
  block' ← store block (dst + size) x
  move_down block' dst src size

-- memmove, with the index that it returns
pub memmove : List ℕ → (dst src size : ℕ) → Option (List ℕ × ℕ)
unfolding move_up move_down
memmove block dst src size =
    let up = (do block' ← move_up block dst src size; some (block', dst + size)) in
    let down = (do block' ← move_down block dst src size; some (block', dst)) in
    if ltb dst src then up else down

-- memcmp, as the sign of its answer
pub memcmp : List ℕ → List ℕ → (size : ℕ) → Option Ordering
memcmp a b zero = some Ordering.eq
memcmp [] b (suc size) = none
memcmp (x ∷ a) [] (suc size) = none
memcmp (x ∷ a) (y ∷ b) (suc size) =
    let rest = memcmp a b size in if x == y then rest else some (compare x y)

-- strcmp, as the sign of its answer
unfoldable pub strcmp : List ℕ → List ℕ → Option Ordering
strcmp [] b = none
strcmp (x ∷ a) [] = none
strcmp (x ∷ a) (y ∷ b) =
    let rest = strcmp a b in if not (x == 0) && x == y then rest else some (compare x y)

-- One place further on.
abbrev pub further : Option ℕ → Option ℕ
further none = none
further (some i) = some (i + 1)

-- memchr, whose character is converted to a byte
pub memchr : List ℕ → (ch size : ℕ) → Option (Option ℕ)
memchr block ch zero = some none
memchr [] ch (suc size) = none
memchr (x ∷ block) ch (suc size) =
    let rest = (do r ← memchr block ch size; some (further r)) in
    if x == ch % 256 then some (some 0) else rest

-- strchr, of a character that is a byte
pub strchr : List ℕ → (c : ℕ) → Option (Option ℕ)
strchr [] c = none
strchr (x ∷ string) c =
    let rest = (do r ← strchr string c; some (further r)) in
    if x == c then some (some 0) else if x == 0 then some none else rest

-- `strchr (…) != NULL`
abbrev pub found : Option ℕ → Bool
found none = false
found (some i) = true

-- strcspn
pub strcspn : List ℕ → (stop : List ℕ) → Option ℕ
unfolding strchr
strcspn [] stop = none
strcspn (x ∷ string) stop =
    let next = (do
      r ← strchr stop x
      let more = (do n ← strcspn string stop; some (n + 1))
      if found r then some 0 else more) in
    if x == 0 then some 0 else next

-- strpbrk
pub strpbrk : List ℕ → (stop : List ℕ) → Option (Option ℕ)
unfolding strchr
strpbrk [] stop = none
strpbrk (x ∷ string) stop =
    let next = (do
      r ← strchr stop x
      let more = (do p ← strpbrk string stop; some (further p))
      if found r then some (some 0) else more) in
    if x == 0 then some none else next

-- The loop of strrchr at the index `i`, with what it has in `p`.
pub strrchr_from : List ℕ → (c i : ℕ) → (p : Option ℕ) → Option (Option ℕ)
strrchr_from [] c i p = none
strrchr_from (x ∷ string) c i p =
    let rest = strrchr_from string c (i + 1) (if x == c then some i else p) in
    if x == 0 then some p else rest

-- strrchr, of a character that is a byte
pub strrchr : List ℕ → (c : ℕ) → Option (Option ℕ)
unfolding strrchr_from
strrchr string c = strrchr_from string c 0 none

-- strspn
pub strspn : List ℕ → (skip : List ℕ) → Option ℕ
unfolding strchr
strspn [] skip = none
strspn (x ∷ string) skip =
    let next = (do
      r ← strchr skip x
      let more = (do n ← strspn string skip; some (n + 1))
      if found r then more else some 0) in
    if x == 0 then some 0 else next

-- strlen
unfoldable pub strlen : List ℕ → Option ℕ
strlen [] = none
strlen (x ∷ string) =
    let rest = (do n ← strlen string; some (n + 1)) in if x == 0 then some 0 else rest

-- strnlen, which reads the byte before it looks at the bound
pub strnlen : List ℕ → (maxlen : ℕ) → Option ℕ
strnlen [] maxlen = none
strnlen (x ∷ string) zero = some 0
strnlen (x ∷ string) (suc maxlen) =
    let rest = (do n ← strnlen string maxlen; some (n + 1)) in if x == 0 then some 0 else rest

-- The loop of strstr, from the index `i` on.
pub strstr_from : (rounds i : ℕ) → List ℕ → (needle : List ℕ) → (needle_len : ℕ) → Option (Option ℕ)
unfolding memcmp
strstr_from zero i haystack needle needle_len = some none
strstr_from (suc rounds) i haystack needle needle_len = do
  sign ← memcmp (drop i haystack) needle needle_len
  elim sign [
    | Ordering.eq ↦ some (some i)
    | _ ↦ strstr_from rounds (i + 1) haystack needle needle_len
  ]

-- strstr
pub strstr : List ℕ → (needle : List ℕ) → Option (Option ℕ)
unfolding strlen strstr_from
strstr haystack needle = do
  haystack_len ← strlen haystack
  needle_len ← strlen needle
  let search = strstr_from (haystack_len - needle_len + 1) 0 haystack needle needle_len
  if leb needle_len haystack_len then search else some none

-- memset, of the object at the index
pub memset : List ℕ → (at value size : ℕ) → Option (List ℕ)
unfolding store
memset dst at value zero = some dst
memset dst at value (suc size) = do
  dst' ← store dst at (value % 256)
  memset dst' (at + 1) value size

-- strlcpy into the object `dst`, with the length that it returns
unfoldable pub strlcpy : (dst : List ℕ) → (src : List ℕ) → (size : ℕ) → Option (List ℕ × ℕ)
unfolding strlen memcpy store
strlcpy dst src zero = do src_len ← strlen src; some (dst, src_len)
strlcpy dst src (suc size) = do
  src_len ← strlen src
  let dst_len = min src_len size
  dst₁ ← memcpy dst 0 src dst_len
  dst₂ ← store dst₁ dst_len 0
  some (dst₂, src_len)

-- strlcat, onto the string in the object `dst`, with the length that it returns
pub strlcat : (dst : List ℕ) → (src : List ℕ) → (size : ℕ) → Option (List ℕ × ℕ)
unfolding strlen memcpy store
strlcat dst src size = do
  src_len ← strlen src
  dst_len ← strlen dst
  let copy_cnt = min src_len (size - dst_len - 1)
  let appended = (do
    dst₁ ← memcpy dst dst_len src copy_cnt
    dst₂ ← store dst₁ (dst_len + copy_cnt) 0
    some (dst₂, src_len + dst_len))
  if ltb 0 size && ltb dst_len size then appended else some (dst, src_len + dst_len)

-- The first loop of strtok_r: how many delimiters it skips, and whether it meets the end.
pub skip_delimiters : List ℕ → (delimiters : List ℕ) → Option (ℕ × Bool)
unfolding strchr
skip_delimiters [] delimiters = none
skip_delimiters (x ∷ s) delimiters = do
  r ← strchr delimiters x
  let more = (do (n, at_end) ← skip_delimiters s delimiters; some (n + 1, at_end))
  if found r then if x == 0 then some (0, true) else more else some (0, false)

-- The second loop: how long the token is.
pub token_length : List ℕ → (delimiters : List ℕ) → Option ℕ
unfolding strchr
token_length [] delimiters = none
token_length (x ∷ s) delimiters = do
  r ← strchr delimiters x
  let more = (do n ← token_length s delimiters; some (n + 1))
  if found r then some 0 else more

-- strtok_r at the index: the object behind it, where the token is, and the index that it saves.
unfoldable pub strtok_r : List ℕ → (delimiters : List ℕ) → (s : ℕ) → Option (List ℕ × Option ℕ × ℕ)
unfolding skip_delimiters token_length store
strtok_r block delimiters s = do
  (skipped, at_end) ← skip_delimiters (drop s block) delimiters
  let token = s + skipped
  let rest = (do
    n ← token_length (drop token block) delimiters
    c ← get_elem? block (token + n)
    let cut = (do block' ← store block (token + n) 0; some (block', some token, token + n + 1))
    if c == 0 then some (block, some token, token + n) else cut)
  if at_end then some (block, none, token) else rest
