-- ===== src/Inode/Store.antt =====
-- The loop of inode_write_at of filesys/inode.c: it stores the buffer in the file.
use native.Mathlib.Decide.{ℕ_discrete}
use utcs.Prelude.{
  ℕ, zero, suc, ◌+◌, ◌/◌, ◌%◌, ◌≤◌, ◌≡◌, ◌≢◌, refl, sym, ap, ◌∙◌, List, Option, some, arith, length,
  take, drop, ==_iff, subst, ne→==_false, length-take, length-drop, ◌⊎◌, inl, inr,
}
use utcs.Disk.{Fs, bytes, block_sector_size, block_write, no_sector}
use utcs.Inode.{Inode, inode_length, merge, chunk_size, byte_to_sector, write_loop}
use utcs.Inode.Layout.{Blocks}
use utcs.Inode.Locate.{Found, Starved}
use utcs.Inode.File.{IsFile, byte_to_sector_lem}
use utcs.Inode.Bytes.{sectors_of}
use utcs.Inode.Reads.{HasRoom, sectors_step}
use utcs.Inode.Writes.{Writes, Writes-trans}
use utcs.Inode.Write.{sector_written}

-- A run of the loop that stores `buffer` from `offset` on.
abbrev pub Stores :
    Fs → Blocks → (m : ℕ) → Inode → (offset : ℕ) → List ℕ → (done : ℕ) → Option (Fs × ℕ) → Type 0
Stores fs blk m inode offset buffer done run =
    (fs' : Fs) × (blk' : Blocks) × (run ≡ some (fs', done + length buffer))
    × Writes (sectors_of offset (length buffer)) fs blk m fs' blk' offset buffer
    × IsFile fs' inode blk' m

-- Writing nothing.
Stores-nothing :
    (fs : Fs) (inode : Inode) (blk : Blocks) (m offset : ℕ) (buffer : List ℕ) (done : ℕ)
    (run : Option (Fs × ℕ))
    → IsFile fs inode blk m
    → length buffer ≡ 0
    → run ≡ some (fs, done)
    → Stores fs blk m inode offset buffer done run
Stores-nothing fs inode blk m offset buffer done run f none_left e = (
  fs,
  blk,
  e ∙ ap (λ (n : ℕ). some (fs, n)) (omega arith),
  record {
    same_device = refl;
    selfs = λ k. refl;
    written = λ pos at. ground arith;
    frame = λ t u o. refl;
    outside = λ t u o. o;
    still_used = λ t u. u;
    spent = omega arith;
    writable = λ d. d;
  },
  f,
)

write_loop_step :
    (fuel : ℕ) (fs fs₁ fs₂ : Fs) (inode : Inode) (buffer : List ℕ) (offset done c s : ℕ)
    (new : List ℕ)
    → length buffer ≢ 0
    → chunk_size inode (length buffer) offset ≡ c
    → c ≢ 0
    → byte_to_sector fs inode offset ≡ some (fs₁, s)
    → merge fs₁ s (offset % block_sector_size) c (take c buffer) ≡ some new
    → block_write fs₁ s (bytes new) ≡ some fs₂
    → write_loop (suc fuel) fs inode buffer offset done
      ≡ write_loop fuel fs₂ inode (drop c buffer) (offset + c) (done + c)
unfolding write_loop
write_loop_step fuel fs fs₁ fs₂ inode buffer offset done c s new left chunk some_left found merged
      put =
    rw (ne→==_false (length buffer) 0 left, found, chunk, ne→==_false c 0 some_left, merged, put)

-- The rounds after `c` bytes are stored.
abbrev Rest : (fuel c : ℕ) → (buffer : List ℕ) → (offset done : ℕ) → Inode → ℕ → Type 0
Rest fuel c buffer offset done inode m =
    (fs₂ : Fs) (blk₁ : Blocks)
    → IsFile fs₂ inode blk₁ m
    → HasRoom fs₂ (offset + c) (length (drop c buffer))
    → Stores fs₂ blk₁ m inode (offset + c) (drop c buffer) (done + c)
        (write_loop fuel fs₂ inode (drop c buffer) (offset + c) (done + c))

at-Found :
    (fuel : ℕ) {fs fs₁ : Fs} {inode : Inode} {blk : Blocks} {m : ℕ} (buffer : List ℕ)
    (offset done c s : ℕ)
    → IsFile fs inode blk m
    → offset + length buffer ≤ inode_length inode
    → length buffer ≢ 0
    → chunk_size inode (length buffer) offset ≡ c
    → HasRoom fs offset (length buffer)
    → byte_to_sector fs inode offset ≡ some (fs₁, s)
    → Found fs blk m (offset / block_sector_size) fs₁ s
    → Rest fuel c buffer offset done inode m
    → Stores fs blk m inode offset buffer done (write_loop (suc fuel) fs inode buffer offset done)
at-Found fuel {fs} {fs₁} {inode} {blk} {m} buffer offset done c s f inside left chunk r found
      (blk₁, F) rest =
    let (fs₂, new, merged, put, one, f₂) =
      sector_written s offset (take c buffer) f (omega arith) (omega (arith, width)) F in
    let (fs₃, blk₂, e, more, f₃) = rest fs₂ blk₁ f₂ (record {
      enough = omega (arith, one.spent, r.enough, step, length-drop c buffer);
      writable = λ d. r.writable (one.writable d);
    }) in
    (
      fs₃,
      blk₂,
      write_loop_step fuel fs fs₁ fs₂ inode buffer offset done c s new left chunk (omega arith)
            found
            (subst
              (λ (n : ℕ). merge fs₁ s (offset % block_sector_size) n (take c buffer) ≡ some new)
              width merged)
            put
          ∙ e
          ∙ ap (λ (n : ℕ). some (fs₃, n)) (omega (arith, length-drop c buffer)),
      Writes-trans (sectors_of offset (length buffer)) offset c buffer (omega arith)
          (omega (arith, step)) one more,
      f₃,
    )
  where
    width : length (take c buffer) ≡ c
    width = omega (arith, length-take c buffer)

    step :
        suc (sectors_of (offset + c) (length (drop c buffer))) ≤ sectors_of offset (length buffer)
    step =
        subst (λ (n : ℕ). suc (sectors_of (offset + c) n) ≤ sectors_of offset (length buffer))
          (sym (length-drop c buffer))
          (sectors_step offset (length buffer) c (omega arith) (omega arith))

at_sector :
    (fuel : ℕ) {fs : Fs} {inode : Inode} {blk : Blocks} {m : ℕ} (buffer : List ℕ)
    (offset done c : ℕ)
    → IsFile fs inode blk m
    → offset + length buffer ≤ inode_length inode
    → length buffer ≢ 0
    → chunk_size inode (length buffer) offset ≡ c
    → HasRoom fs offset (length buffer)
    → (fs₁ : Fs) × (s : ℕ) × (byte_to_sector fs inode offset ≡ some (fs₁, s))
      × (Found fs blk m (offset / block_sector_size) fs₁ s ⊎ (Starved fs × (s ≡ no_sector)))
    → Rest fuel c buffer offset done inode m
    → Stores fs blk m inode offset buffer done (write_loop (suc fuel) fs inode buffer offset done)
at_sector fuel buffer offset done c f inside left chunk r (fs₁, s, e, inl found) rest =
    at-Found fuel buffer offset done c s f inside left chunk r e found rest
at_sector fuel buffer offset done c f inside left chunk r (fs₁, s, e, inr (inl denied, _)) rest =
    absurd (r.writable denied)
at_sector fuel buffer offset done c f inside left chunk r (fs₁, s, e, inr (inr empty, _)) rest =
    absurd (ground (arith, r.enough))

-- Inside the file, and where the device has the sectors that the range may need, the loop of
-- inode_write_at ends with the whole buffer stored and counted.
pub write_loop_lem :
    (fuel : ℕ) {fs : Fs} {inode : Inode} {blk : Blocks} {m : ℕ} (buffer : List ℕ) (offset done : ℕ)
    → length buffer ≤ fuel
    → IsFile fs inode blk m
    → offset + length buffer ≤ inode_length inode
    → HasRoom fs offset (length buffer)
    → Stores fs blk m inode offset buffer done (write_loop fuel fs inode buffer offset done)
unfolding write_loop
write_loop_lem zero {fs} {inode} {blk} {m} buffer offset done h f inside r =
    Stores-nothing fs inode blk m offset buffer done _ f (omega arith)
      (rw ((==_iff (length buffer) 0).1 (omega arith)))
write_loop_lem (suc fuel) {fs} {inode} {blk} {m} buffer offset done h f inside r =
    elim (ℕ_discrete (length buffer) 0) [
      | yes e ↦
          Stores-nothing fs inode blk m offset buffer done _ f e
            (rw ((==_iff (length buffer) 0).1 e))
      | no ne ↦
          at_sector fuel buffer offset done (chunk_size inode (length buffer) offset) f inside ne
            refl r (byte_to_sector_lem offset f (omega arith))
            λ fs₂ blk₁ f₂ r₂.
              write_loop_lem fuel (drop (chunk_size inode (length buffer) offset) buffer)
                (offset + chunk_size inode (length buffer) offset)
                (done + chunk_size inode (length buffer) offset)
                (omega (arith, length-drop (chunk_size inode (length buffer) offset) buffer)) f₂
                (omega (arith, length-drop (chunk_size inode (length buffer) offset) buffer)) r₂
    ]
