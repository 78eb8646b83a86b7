-- ===== src/FreeMap/Release.antt =====
-- Giving sectors back, and the map that a format starts from: filesys/free-map.c.
use utcs.Prelude.{
  ℕ, ◌+◌, ◌≤◌, ◌<◌, ◌≡◌, refl, sym, ◌∙◌, Bool, true, false, none, some, arith, if◌then◌else◌, inl,
  inr,
}
use mathlib.Core.Bool.{false≢true}
use utcs.Bitmap.{Bitmap, put}
use utcs.Bitmap.Bits.{IsValid}
use utcs.Bitmap.Ranges.{Run, within, set_multiple_lem, all_lem}
use utcs.FreeMap.{FreeMap, MapFile, write_map, allocate, release}
use utcs.FreeMap.Alloc.{
  used, IsSound, Synced, written, refuses, Allocated, taken, allocate_run, write_map_lem,
}

-- The state that a release leaves.
pub record Released (fm : FreeMap) (s cnt : ℕ) (fm' : FreeMap) : Type 0 where
  pub freed : (j : ℕ) → used fm' j ≡ (if within s cnt j then false else used fm j)
  pub sound : IsSound fm'
  pub same_size : fm'.map.bit_cnt ≡ fm.map.bit_cnt
  pub still_open : (f' : MapFile) × (fm'.file ≡ some f')

Synced-write_map :
    (b : Bitmap) (f : MapFile) → 0 < b.bit_cnt → IsValid b → Synced b (some (write_map b f).0)
Synced-write_map b f h v = elim (write_map_lem b f h v) [
  | inl (d, e) ↦ rw e (refuses d)
  | inr (d, e) ↦ rw e (written refl)
]

module _ {fm : FreeMap} {f : MapFile} (s cnt : ℕ) (v : IsSound fm) (open_file : fm.file ≡ some f)
    (fits : s + cnt ≤ fm.map.bit_cnt) where
  -- `free_map_release` of sectors that are all in use frees those and no other.
  pub release_lem :
      Run fm.map s cnt true
      → (fm' : FreeMap) × (release fm s cnt ≡ some fm') × Released fm s cnt fm'
  unfolding release
  release_lem run = elim (all_lem s cnt v.map_valid fits) [
    | inl (e, _) ↦
        let (b, e', put) = set_multiple_lem s cnt false v.map_valid fits in
        let pos : 0 < b.bit_cnt = omega (arith, put.same_size, v.nonempty) in
        (
          record { map = b; file = some (write_map b f).0 },
          rw (e, e', open_file),
          record {
            freed = put.others;
            sound = record {
              map_valid = put.valid;
              nonempty = pos;
              synced = Synced-write_map b f pos put.valid;
            };
            same_size = put.same_size;
            still_open = ((write_map b f).0, refl);
          },
        )
    | inr (_, (k, p, q, free_bit)) ↦ absurd (false≢true (sym free_bit ∙ run k p q))
  ]

  -- On a sound map whose file is open, a release inside the device that meets a sector which is free
  -- already stops the kernel.
  release_double : (k : ℕ) → s ≤ k → k < s + cnt → used fm k ≡ false → release fm s cnt ≡ none
  unfolding release
  release_double k p q free_bit = elim (all_lem s cnt v.map_valid fits) [
    | inl (_, run) ↦ absurd (false≢true (sym free_bit ∙ run k p q))
    | inr (e, _) ↦ rw e
  ]

taken-Run :
    (fm fm' : FreeMap) (s cnt : ℕ)
    → ((j : ℕ) → used fm' j ≡ (if within s cnt j then true else used fm j))
    → Run fm'.map s cnt true
taken-Run fm fm' s cnt law k p q = ground (arith, law k)

freed_again :
    (b b₁ b₂ : Bool) (inside : Bool)
    → (inside ≡ true → b ≡ false)
    → b₁ ≡ (if inside then true else b)
    → b₂ ≡ (if inside then false else b₁)
    → b₂ ≡ b
freed_again b b₁ b₂ true h p q = q ∙ sym (h refl)
freed_again b b₁ b₂ false h p q = q ∙ p

-- Sectors that were allocated from a sound map can be released while the file of the map is open,
-- and then the same sectors are in use as before.
pub release-allocate :
    {fm fm' : FreeMap} {f : MapFile} (cnt s : ℕ)
    → IsSound fm
    → allocate fm cnt ≡ some (fm', some s)
    → fm'.file ≡ some f
    → (fm'' : FreeMap) × (release fm' s cnt ≡ some fm'') × ((j : ℕ) → used fm'' j ≡ used fm j)
release-allocate {fm} {fm'} {f} cnt s v e open_file =
    let (made, sound, size, _) = allocate_run cnt v e in give_back made sound size
  where
    give_back :
        Allocated fm cnt fm' (some s)
        → IsSound fm'
        → fm'.map.bit_cnt ≡ fm.map.bit_cnt
        → (fm'' : FreeMap) × (release fm' s cnt ≡ some fm'') × ((j : ℕ) → used fm'' j ≡ used fm j)
    give_back (taken s fits run first law) sound size =
        let (fm'', e', out) =
          release_lem s cnt sound open_file (rw size fits) (taken-Run fm fm' s cnt law) in
        (
          fm'',
          e',
          λ j.
              freed_again (used fm j) (used fm' j) (used fm'' j) (within s cnt j)
                (λ inside. run j (ground arith) (ground arith)) (law j) (out.freed j),
        )
