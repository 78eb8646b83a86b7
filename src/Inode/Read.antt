-- ===== src/Inode/Read.antt =====
-- inode_read_at of filesys/inode.c: it returns the bytes of the file, and changes none.
use native.Mathlib.Decide.{ℕ_discrete}
use utcs.Prelude.{
  ℕ, zero, suc, ◌+◌, ◌-◌, ◌/◌, ◌%◌, ◌≤◌, ◌≡◌, refl, sym, ap, ◌∙◌, ◌≢◌, Bool, true, false, List, [],
  ◌++◌, some, arith, ==_iff, subst, ◌⊎◌, inl, inr,
}
use utcs.FreeMap.Room.{room}
use utcs.FreeMap.Alloc.{used}
use utcs.Disk.{Fs, is_part, on_device, on_device_same, block_sector_size, no_sector}
use utcs.Inode.{
  Inode, byte_to_sector, chunk_size, copy_out, read_loop, read_at, acquire, unlock, enter_read,
  leave_read,
}
use utcs.Inode.Layout.{Blocks}
use utcs.Inode.Locate.{Found, Starved}
use utcs.Inode.File.{IsFile, Keeps, Fills-Keeps, Keeps-IsFile, byte_to_sector_lem}
use utcs.Inode.Bytes.{contents, available, sectors_of, copy_out_lem}
use utcs.Inode.Reads.{
  HasRoom, Reads, Reads-nothing, Reads-more, read_loop_step, read_loop_stop, sectors_step,
}

-- The rounds that are left when `c` bytes are done.
abbrev Rest : (fuel size offset c : ℕ) → List ℕ → Inode → ℕ → Type 0
Rest fuel size offset c buffer inode m =
    (fs₁ : Fs) (blk₁ : Blocks)
    → IsFile fs₁ inode blk₁ m
    → HasRoom fs₁ (offset + c) (available inode (size - c) (offset + c))
    → Reads fs₁ blk₁ m inode (offset + c) (available inode (size - c) (offset + c))
        (buffer ++ contents fs₁ blk₁ offset c)
        (read_loop fuel fs₁ inode (size - c) (offset + c) (buffer ++ contents fs₁ blk₁ offset c))

-- A round inside the file, whose sector was found.
Found-Reads :
    (fuel : ℕ) {fs fs₁ : Fs} {inode : Inode} {blk : Blocks} {m : ℕ} (size offset c n s : ℕ)
    (buffer : List ℕ)
    → IsFile fs inode blk m
    → chunk_size inode size offset ≡ c
    → available inode size offset ≡ n
    → n ≢ 0
    → HasRoom fs offset n
    → byte_to_sector fs inode offset ≡ some (fs₁, s)
    → Found fs blk m (offset / block_sector_size) fs₁ s
    → Rest fuel size offset c buffer inode m
    → Reads fs blk m inode offset n buffer (read_loop (suc fuel) fs inode size offset buffer)
Found-Reads fuel {fs} {fs₁} {inode} {blk} {m} size offset c n s buffer f chunk left some_left r e
      (blk₁, F) rest =
    subst (Reads fs blk m inode offset n buffer)
      (sym (
        read_loop_step fuel fs fs₁ inode size offset c s buffer (contents fs₁ blk₁ offset c)
          (omega arith) chunk (omega arith) e copied))
      (Reads-more offset n c buffer f (omega arith) (omega arith) (omega arith) (Fills-Keeps F) (
        subst
          (λ (k : ℕ). Reads fs₁ blk₁ m inode (offset + c) k (buffer ++ contents fs₁ blk₁ offset c) (
            read_loop fuel fs₁ inode (size - c) (offset + c)
              (buffer ++ contents fs₁ blk₁ offset c)))
          same (rest fs₁ blk₁ (Keeps-IsFile (Fills-Keeps F) F.layout F.managed f) room_left)))
  where
    same : available inode (size - c) (offset + c) ≡ n - c
    same = omega arith

    copied : copy_out fs₁ s (offset % block_sector_size) c ≡ some (contents fs₁ blk₁ offset c)
    copied =
        subst
          (λ (t : ℕ).
            copy_out fs₁ t (offset % block_sector_size) c ≡ some (contents fs₁ blk₁ offset c))
          F.names
          (copy_out_lem offset c F.layout (omega (arith, f.long_enough)) F.present (omega arith))

    room_left : HasRoom fs₁ (offset + c) (available inode (size - c) (offset + c))
    room_left = record {
      enough =
          subst (λ (k : ℕ). sectors_of (offset + c) k ≤ room fs₁.free) (sym same)
            (omega (arith, F.spent, r.enough, sectors_step offset n c (omega arith) (omega arith)));
      writable = λ d. r.writable (F.writable d);
    }

at_sector :
    (fuel : ℕ) {fs : Fs} {inode : Inode} {blk : Blocks} {m : ℕ} (size offset c n : ℕ)
    (buffer : List ℕ)
    → IsFile fs inode blk m
    → chunk_size inode size offset ≡ c
    → available inode size offset ≡ n
    → n ≢ 0
    → HasRoom fs offset n
    → (fs₁ : Fs) × (s : ℕ) × (byte_to_sector fs inode offset ≡ some (fs₁, s))
      × (Found fs blk m (offset / block_sector_size) fs₁ s ⊎ (Starved fs × (s ≡ no_sector)))
    → Rest fuel size offset c buffer inode m
    → Reads fs blk m inode offset n buffer (read_loop (suc fuel) fs inode size offset buffer)
at_sector fuel size offset c n buffer f chunk left some_left r (fs₁, s, e, inl found) rest =
    Found-Reads fuel size offset c n s buffer f chunk left some_left r e found rest
at_sector fuel size offset c n buffer f chunk left some_left r (fs₁, s, e, inr (inl denied, _))
      rest =
    absurd (r.writable denied)
at_sector fuel {fs} size offset c n buffer f chunk left some_left r (fs₁, s, e, inr (inr empty, _))
      rest =
    absurd (ground (arith, r.enough))

pub read_loop_lem :
    (fuel : ℕ) {fs : Fs} {inode : Inode} {blk : Blocks} {m : ℕ} (size offset : ℕ) (buffer : List ℕ)
    → size ≤ fuel
    → IsFile fs inode blk m
    → HasRoom fs offset (available inode size offset)
    → Reads fs blk m inode offset
        (available inode size offset)
        buffer
        (read_loop fuel fs inode size offset buffer)
unfolding read_loop
read_loop_lem zero {fs} {inode} {blk} {m} size offset buffer h f r =
    Reads-nothing offset (available inode size offset) buffer f (omega arith)
      (rw ((==_iff size 0).1 (omega arith)))
read_loop_lem (suc fuel) {fs} {inode} {blk} {m} size offset buffer h f r =
    elim (ℕ_discrete (available inode size offset) 0) [
      | yes e ↦
          Reads-nothing offset (available inode size offset) buffer f e
            (read_loop_stop fuel fs inode size offset buffer e)
      | no ne ↦
          at_sector fuel size offset (chunk_size inode size offset) (available inode size offset)
            buffer f refl refl ne r (byte_to_sector_lem offset f (omega arith))
            λ fs₁ blk₁ f₁ r₁.
              read_loop_lem fuel (size - chunk_size inode size offset)
                (offset + chunk_size inode size offset)
                (buffer ++ contents fs₁ blk₁ offset (chunk_size inode size offset)) (omega arith) f₁
                r₁
    ]

-- A sector in use that is none of the file's index blocks nor of the free map's file holds what it
-- held.
abbrev pub HeldBeside : Fs → Blocks → (m : ℕ) → Fs → Type 0
HeldBeside fs blk m fs' =
    (t : ℕ)
    → used fs.free t ≡ true
    → ((k : ℕ) → k ≤ m → t ≢ (blk k).self)
    → is_part (fs.disk t) ≡ false
    → on_device fs' t ≡ on_device fs t

-- Counting readers and locking leave the file what it is.
pub recount :
    {fs : Fs} {inode : Inode} {blk : Blocks} {m : ℕ} (lock : Bool) (readers : ℕ)
    → IsFile fs inode blk m
    → IsFile fs (record inode { locked = lock; readers = readers }) blk m
recount lock readers f = record {
  layout = f.layout;
  managed = f.managed;
  starts = f.starts;
  ends = f.ends;
  long_enough = f.long_enough;
  head = f.head;
  headed = f.headed;
  head_inside = f.head_inside;
  head_used = f.head_used;
}

-- The inode while the caller reads.
abbrev pub reading : Inode → Inode
reading inode = record inode { locked = false; readers = inode.readers + 1 }

enter_read_lem :
    (inode : Inode)
    → inode.locked ≡ false
    → inode.writers ≡ 0
    → enter_read inode ≡ some (reading inode)
unfolding enter_read acquire
enter_read_lem inode unlocked no_writer = rw (unlocked, (==_iff inode.writers 0).1 no_writer)

left_as_was :
    (inode : Inode)
    → inode.locked ≡ false
    → unlock (record inode { readers = inode.readers + 1 - 1 }) ≡ inode
left_as_was inode unlocked =
    (ap (λ (n : ℕ). record inode { locked = false; readers = n }) (omega arith)
      ∙ ap (λ (b : Bool). record inode { locked = b }) (sym unlocked))

pub read_at_run :
    (fs fs' : Fs) (inode : Inode) (size offset : ℕ) (buffer : List ℕ)
    → inode.locked ≡ false
    → inode.writers ≡ 0
    → read_loop size fs (reading inode) size offset [] ≡ some (fs', buffer)
    → read_at fs inode size offset ≡ some (fs', inode, buffer)
unfolding read_at leave_read acquire
read_at_run fs fs' inode size offset buffer unlocked no_writer e =
    rw (enter_read_lem inode unlocked no_writer, e)
      (ap (λ (i : Inode). some (fs', i, buffer)) (left_as_was inode unlocked))

-- For a well-formed file, where the inode's lock is free, nobody writes, and the device has the
-- sectors that the range may need: inode_read_at returns exactly the bytes of the file from
-- offset on, as many of `size` as there are; the inode comes back as it was, the file reads the
-- same, and of the sectors in use outside the file's index blocks only those of the free map's
-- file can have changed.
pub read_at_lem :
    {fs : Fs} {inode : Inode} {blk : Blocks} {m : ℕ} (size offset : ℕ)
    → IsFile fs inode blk m
    → HasRoom fs offset (available inode size offset)
    → inode.locked ≡ false
    → inode.writers ≡ 0
    → (fs' : Fs) × (blk' : Blocks) × (read_at fs inode size offset
        ≡ some (fs', inode, contents fs blk offset (available inode size offset)))
      × Keeps (sectors_of offset (available inode size offset)) fs blk m fs' blk'
      × IsFile fs' inode blk' m
      × HeldBeside fs blk m fs'
read_at_lem {fs} {inode} {blk} {m} size offset f r unlocked no_writer =
    let (fs', blk', e, k, f') =
      read_loop_lem size size offset [] (omega arith) (recount false (inode.readers + 1) f) r in
    (
      fs',
      blk',
      read_at_run fs fs' inode size offset _ unlocked no_writer e,
      k,
      subst (λ (i : Inode). IsFile fs' i blk' m)
          (ap (λ (b : Bool). record inode { locked = b }) (sym unlocked))
          (recount false inode.readers f'),
      λ t u beside plain. on_device_same fs fs' t plain (k.frame t u beside),
    )
