-- ===== src/Lifetime/Close.antt =====
-- inode_close of filesys/inode.c: the last opener of a removed file gives all its sectors back.
use native.Mathlib.Decide.{ℕ_discrete}
use utcs.Prelude.{
  ℕ, zero, suc, ◌+◌, ◌*◌, ◌/◌, ◌%◌, ◌≤◌, ◌<◌, ◌≡◌, ◌≢◌, refl, sym, ap, ◌∙◌, true, false, some,
  arith, ◌==◌, if◌then◌else◌, get_elem?, get_elem?-eq-get_or, subst, ==_iff, ne→==_false,
  Bool-cases, inl, inr, lt→ltb,
}
use utcs.Disk.{Fs, index_block_size, give_sector, read_index, block_read}
use utcs.Inode.Layout.{Blocks, slot, owner, is_hole, Layout}
use utcs.Lifetime.{release_slots, release_chain}
use utcs.Lifetime.Chain.{Freed, free_slot, skip_slot, free_block}

-- The slot before the `left` last ones of block `k`.
abbrev slot_at : (k i : ℕ) → ℕ
slot_at k i = index_block_size * k + i

module _ (fs₀ : Fs) (blk : Blocks) (m : ℕ) (l : Layout fs₀ blk m) where
  read_slot :
      (k i : ℕ)
      → k ≤ m
      → i < index_block_size
      → get_elem? (blk k).slots i ≡ some (slot blk (slot_at k i))
  unfolding slot
  read_slot k i h small =
      rw (block_of, place_of) (get_elem?-eq-get_or (blk k).slots i 0 (omega (arith, l.width k h)))
    where
      block_of : slot_at k i / index_block_size ≡ k
      block_of = omega arith

      place_of : slot_at k i % index_block_size ≡ i
      place_of = omega arith

  hole_test :
      (k i : ℕ)
      → i < index_block_size
      → (slot blk (slot_at k i) == (blk k).self) ≡ is_hole blk (slot_at k i)
  unfolding owner
  hole_test k i small = ap (λ (j : ℕ). slot blk (slot_at k i) == (blk j).self) block_of
    where
      block_of : k ≡ slot_at k i / index_block_size
      block_of = omega arith

  -- Whether slot `i` of block `k` is a hole or not, a round of the loop takes it.
  slot_round :
      (k i : ℕ) (fs : Fs)
      → Freed fs₀ blk m (slot_at k i) k fs
      → k ≤ m
      → i < index_block_size
      → (fs' : Fs) × ((if slot blk (slot_at k i) == (blk k).self
            then some fs
            else give_sector fs (slot blk (slot_at k i)))
          ≡ some fs')
        × Freed fs₀ blk m (suc (slot_at k i)) k fs'
  slot_round k i fs F h small = elim (Bool-cases (is_hole blk (slot_at k i))) [
    | inl hole ↦
        (fs, rw (hole_test k i small, hole) refl, skip_slot fs₀ blk m l (slot_at k i) k fs F hole)
    | inr present ↦
        let (fs', e, F') = free_slot fs₀ blk m l (slot_at k i) k fs F (omega arith) present h in
        (fs', rw (hole_test k i small, present) e, F')
  ]

  release_slots_lem :
      (left k i : ℕ) (fs : Fs)
      → Freed fs₀ blk m (slot_at k i) k fs
      → k ≤ m
      → i + left ≡ index_block_size
      → (fs' : Fs) × (release_slots left fs (blk k) i ≡ some fs')
        × Freed fs₀ blk m (index_block_size * suc k) k fs'
  unfolding release_slots
  release_slots_lem zero k i fs F h all =
      (fs, refl, subst (λ (g : ℕ). Freed fs₀ blk m g k fs) (omega arith) F)
  release_slots_lem (suc left) k i fs F h all =
      let (fs₁, e, F₁) = slot_round k i fs F h (omega arith) in
      let (fs₂, e', F₂) =
        release_slots_lem left k (i + 1) fs₁
          (subst (λ (g : ℕ). Freed fs₀ blk m g k fs₁) (omega arith) F₁) h (omega arith) in
      (fs₂, rw (read_slot k i h (omega arith), e) e', F₂)

  next_block :
      (k : ℕ) (fs : Fs)
      → fs.disk ≡ fs₀.disk
      → fs.sectors ≡ fs₀.sectors
      → k < m
      → read_index fs (blk k).next ≡ some (blk (suc k))
  unfolding read_index block_read
  next_block k fs same size h = rw (
    l.linked k h,
    size,
    lt→ltb _ _ (l.inside (suc k) (omega arith)),
    same,
    l.on_disk (suc k) (omega arith),
  )

  pub release_chain_lem :
      (fuel k : ℕ) (fs : Fs)
      → Freed fs₀ blk m (index_block_size * k) k fs
      → k ≤ m
      → m < k + fuel
      → (fs' : Fs) × (release_chain fuel fs (blk k) ≡ some fs')
        × Freed fs₀ blk m (index_block_size * suc m) (suc m) fs'
  unfolding release_chain
  release_chain_lem zero k fs F h enough = absurd (omega arith)
  release_chain_lem (suc fuel) k fs F h enough =
      let (fs₁, e₁, F₁) =
        release_slots_lem index_block_size k 0 fs
          (subst (λ (g : ℕ). Freed fs₀ blk m g k fs) (omega arith) F) h (omega arith) in
      let (fs₂, e₂, F₂) = free_block fs₀ blk m l (index_block_size * suc k) k fs₁ F₁ h in
      elim (ℕ_discrete k m) [
        | yes last ↦ (
          fs₂,
          rw (e₁, at_end last) e₂,
          subst (λ (j : ℕ). Freed fs₀ blk m (index_block_size * suc j) (suc j) fs₂) last F₂,
        )
        | no ne ↦
            let (fs₃, e₃, F₃) = release_chain_lem fuel (suc k) fs₂ F₂ (omega arith) (omega arith) in
            (
              fs₃,
              rw (e₁, not_end ne, next_block k fs₁ F₁.same_disk F₁.same_device (omega arith), e₂)
                  e₃,
              F₃,
            )
      ]
    where
      at_end : k ≡ m → ((blk k).next == (blk k).self) ≡ true
      at_end e = (==_iff _ _).1 (subst (λ (j : ℕ). (blk j).next ≡ (blk j).self) (sym e) l.ended)

      not_end : k ≢ m → ((blk k).next == (blk k).self) ≡ false
      not_end ne = ne→==_false _ _ (λ e. absurd (
          omega (arith, l.distinct (suc k) k (omega arith) h (sym (l.linked k (omega arith)) ∙ e))))
