-- ===== src/FreeMap/Alloc.antt =====
-- What the allocator of filesys/free-map.c promises: sectors that were free, first fit, all or
-- nothing; and what it gives back.
use utcs.Prelude.{
  ℕ, ◌+◌, ◌≤◌, ◌<◌, ◌≡◌, refl, sym, ◌∙◌, Bool, true, false, Option, none, some, arith, ◌==◌,
  if◌then◌else◌, inl, inr, ◌⊎◌, ne→==_false,
}
use utcs.Prelude.{subst, some_inj}
use utcs.Bitmap.{Bitmap, bitmap_error, byte_cnt, scan_and_flip}
use utcs.Bitmap.Bits.{IsValid, holds}
use utcs.Bitmap.Ranges.{Run, within, PutsRange, set_multiple_lem}
use utcs.Bitmap.Scan.{NoRun, Flipped, flipped, unchanged, scan_and_flip_lem}
use utcs.FreeMap.{FreeMap, MapFile, write_map, commit, allocate}

-- Is sector `s` in use?
abbrev pub used : FreeMap → ℕ → Bool
used fm s = holds fm.map s

-- The words in the file are those of the map, unless the file refuses writes.
pub data Synced (b : Bitmap) : Option MapFile → Type 0 where
  closed : Synced b none
  written : {f : MapFile} → f.stored ≡ b.bits → Synced b (some f)
  refuses : {f : MapFile} → f.denied ≡ true → Synced b (some f)

pub record IsSound (fm : FreeMap) : Type 0 where
  pub map_valid : IsValid fm.map
  pub nonempty : 0 < fm.map.bit_cnt
  pub synced : Synced fm.map fm.file

-- The free map is read-only on disk.
pub data IsDenied : Option MapFile → Type 0 where
  denies : {f : MapFile} → f.denied ≡ true → IsDenied (some f)

-- An allocation of `cnt` sectors in `fm` that leaves `fm'` and answers `r`.
pub data Allocated (fm : FreeMap) (cnt : ℕ) (fm' : FreeMap) : Option ℕ → Type 0 where
  taken :
      (s : ℕ)
      → s + cnt ≤ fm.map.bit_cnt
      → Run fm.map s cnt false
      → NoRun fm.map 0 s cnt false
      → ((j : ℕ) → used fm' j ≡ (if within s cnt j then true else used fm j))
      → Allocated fm cnt fm' (some s)
  refused :
      ((j : ℕ) → used fm' j ≡ used fm j)
      → IsDenied fm.file ⊎ ((s : ℕ) → s + cnt ≤ fm.map.bit_cnt → ¬ Run fm.map s cnt false)
      → Allocated fm cnt fm' none

pub write_map_lem :
    (b : Bitmap) (f : MapFile)
    → 0 < b.bit_cnt
    → IsValid b
    → ((f.denied ≡ true) × (write_map b f ≡ (f, false)))
      ⊎ ((f.denied ≡ false) × (write_map b f ≡ (record f { stored = b.bits }, true)))
unfolding write_map
write_map_lem b f h v = ground (arith, nonzero)
  where
    nonzero : (byte_cnt b.bit_cnt == 0) ≡ false
    nonzero = ne→==_false _ _ (omega (arith, v.small))

-- What `allocate` returns: the new state and answer, and what they owe.
abbrev pub Allocates : FreeMap → ℕ → Option (FreeMap × Option ℕ) → Type 0
Allocates fm cnt run =
    (fm' : FreeMap) × (r : Option ℕ) × (run ≡ some (fm', r))
    × Allocated fm cnt fm' r
    × IsSound fm'
    × (fm'.map.bit_cnt ≡ fm.map.bit_cnt)
    × (IsDenied fm'.file → IsDenied fm.file)

IsDenied-some : {f : MapFile} → IsDenied (some f) → f.denied ≡ true
IsDenied-some (denies d) = d

-- A run taken and put back leaves every bit as it was.
put_back :
    (b b₁ b₂ : Bitmap) (s cnt : ℕ)
    → Run b s cnt false
    → PutsRange b s cnt true b₁
    → PutsRange b₁ s cnt false b₂
    → (j : ℕ) → holds b₂ j ≡ holds b j
put_back b b₁ b₂ s cnt run p q j = ground (arith, p.others j, q.others j, run j)

module _ (fm : FreeMap) (cnt : ℕ) where
  commit_lem :
      (file : Option MapFile) (b' : Bitmap) (s : ℕ)
      → fm.file ≡ file
      → 0 < fm.map.bit_cnt
      → s + cnt ≤ fm.map.bit_cnt
      → Run fm.map s cnt false
      → NoRun fm.map 0 s cnt false
      → PutsRange fm.map s cnt true b'
      → Allocates fm cnt (commit (record fm { map = b' }) cnt s file)
  unfolding commit
  commit_lem none b' s e pos fits run first put = (
    record fm { map = b' },
    some s,
    refl,
    taken s fits run first put.others,
    record { map_valid = put.valid; nonempty = rw put.same_size pos; synced = rw e closed },
    put.same_size,
    λ d. d,
  )
  commit_lem (some f) b' s e pos fits run first put =
      elim (write_map_lem b' f (rw put.same_size pos) put.valid) [
        | inr (_, w) ↦ (
          record { map = b'; file = some (record f { stored = b'.bits }) },
          some s,
          rw w,
          taken s fits run first put.others,
          record { map_valid = put.valid; nonempty = rw put.same_size pos; synced = written refl },
          put.same_size,
          λ d. rw e (denies (IsDenied-some d)),
        )
        | inl (no_writes, w) ↦
            let (b₂, e₂, put₂) = set_multiple_lem s cnt false put.valid (rw put.same_size fits) in
            (
              record { map = b₂; file = some f },
              none,
              rw (w, e₂),
              refused (put_back fm.map b' b₂ s cnt run put put₂) (inl (rw e (denies no_writes))),
              record {
                map_valid = put₂.valid;
                nonempty = rw (put₂.same_size, put.same_size) pos;
                synced = refuses no_writes;
              },
              put₂.same_size ∙ put.same_size,
              λ d. rw e (denies no_writes),
            )
      ]

  -- `free_map_allocate` runs, and takes the first `cnt` free sectors in a row: they were free, they
  -- are in use now, and no other sector changed. Where it answers false it changed no sector, and
  -- no such run exists or the map's file refuses writes. The map and its file stay in step.
  pub allocate_lem : IsSound fm → Allocates fm cnt (allocate fm cnt)
  unfolding allocate
  allocate_lem v =
      let (b', s, e, p) = scan_and_flip_lem 0 cnt false v.map_valid (omega arith) in act b' s e p
    where
      act :
          (b' : Bitmap) (s : ℕ)
          → scan_and_flip fm.map 0 cnt false ≡ some (b', s)
          → Flipped fm.map 0 cnt false b' s
          → Allocates fm cnt (allocate fm cnt)
      act b' s e (flipped _ fits run first put) =
          let no_error : (s == bitmap_error) ≡ false =
            ne→==_false _ _ (omega (arith, v.map_valid.small)) in
          rw (e, no_error) (commit_lem fm.file b' s refl v.nonempty fits run first put)
      act b' s e (unchanged is_error same no_run) = (
        fm,
        none,
        rw (e, is_error, same) refl,
        refused (λ j. refl) (inr (λ t. no_run t (omega arith))),
        v,
        refl,
        λ d. d,
      )

-- The same of a call whose result is known.
pub allocate_run :
    {fm fm' : FreeMap} {r : Option ℕ} (cnt : ℕ)
    → IsSound fm
    → allocate fm cnt ≡ some (fm', r)
    → Allocated fm cnt fm' r
      × IsSound fm'
      × (fm'.map.bit_cnt ≡ fm.map.bit_cnt)
      × (IsDenied fm'.file → IsDenied fm.file)
allocate_run {fm} cnt v e =
    let (fm₁, r₁, e₁, law, sound, size, d) = allocate_lem fm cnt v in
    subst
      (λ (x : FreeMap × Option ℕ).
        Allocated fm cnt x.0 x.1
        × IsSound x.0
        × (x.0.map.bit_cnt ≡ fm.map.bit_cnt)
        × (IsDenied x.0.file → IsDenied fm.file))
      (some_inj (sym e₁ ∙ e)) (law, sound, size, d)
