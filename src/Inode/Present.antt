-- ===== src/Inode/Present.antt =====
-- inode_read_at of filesys/inode.c where the file has no hole: it changes nothing.
use mathlib.Core.List.{append-nil, append_assoc}
use native.Mathlib.Decide.{ℕ_discrete}
use utcs.Prelude.{
  ℕ, zero, suc, ◌+◌, ◌-◌, ◌*◌, ◌/◌, ◌≤◌, ◌<◌, ◌≡◌, refl, sym, ap, ◌∙◌, false, List, [], ◌++◌,
  Option, some, arith, ==_iff,
}
use utcs.Disk.{Fs, block_sector_size}
use utcs.Inode.{Inode, inode_length, byte_to_sector, chunk_size, read_loop, read_at}
use utcs.Inode.Layout.{Blocks, slot, is_hole, byte_at}
use utcs.Inode.Locate.{fill_present}
use utcs.Inode.File.{IsFile, block_inside, byte_to_sector-fill}
use utcs.Inode.Bytes.{contents, available, copy_out_lem}
use utcs.Inode.Slice.{tabulate-append, tabulate-zero}
use utcs.Inode.Reads.{read_loop_step, read_loop_stop}
use utcs.Inode.Read.{recount, read_at_run}

-- Every byte of the file has its sector.
abbrev pub IsPresent : Inode → Blocks → Type 0
IsPresent inode blk = (g : ℕ) → g * block_sector_size < inode_length inode → is_hole blk g ≡ false

-- Where nothing is left to read, nothing is added.
nothing_left :
    (fs : Fs) (blk : Blocks) (offset n : ℕ) (buffer : List ℕ)
    → n ≡ 0
    → ◌≡◌ {A = Option (Fs × List ℕ)}
        (some (fs, buffer))
        (some (fs, buffer ++ contents fs blk offset n))
nothing_left fs blk offset n buffer e =
    let same : buffer ++ contents fs blk offset n ≡ buffer =
      rw (e, tabulate-zero (byte_at fs blk) offset) (append-nil buffer) in
    ap (λ (xs : List ℕ). some (fs, xs)) (sym same)

module _ {fs : Fs} {blk : Blocks} {m : ℕ} where
  byte_to_sector_present :
      {inode : Inode} (pos : ℕ)
      → IsFile fs inode blk m
      → IsPresent inode blk
      → pos < inode_length inode
      → byte_to_sector fs inode pos ≡ some (fs, slot blk (pos / block_sector_size))
  byte_to_sector_present pos f p h =
      byte_to_sector-fill pos f h
      ∙ fill_present fs blk m (pos / block_sector_size) f.layout f.managed (block_inside pos f h)
          (p (pos / block_sector_size) (omega arith))

  read_loop_present :
      (fuel : ℕ) {inode : Inode} (size offset : ℕ) (buffer : List ℕ)
      → size ≤ fuel
      → IsFile fs inode blk m
      → IsPresent inode blk
      → read_loop fuel fs inode size offset buffer
        ≡ some (fs, buffer ++ contents fs blk offset (available inode size offset))
  unfolding read_loop
  read_loop_present zero {inode} size offset buffer h f p =
      rw ((==_iff size 0).1 (omega arith))
        (nothing_left fs blk offset (available inode size offset) buffer (omega arith))
  read_loop_present (suc fuel) {inode} size offset buffer h f p =
      elim (ℕ_discrete (available inode size offset) 0) [
        | yes e ↦
            read_loop_stop fuel fs inode size offset buffer e
            ∙ nothing_left fs blk offset (available inode size offset) buffer e
        | no ne ↦
            let c : ℕ = chunk_size inode size offset in
            let n : ℕ = available inode size offset in
            let left : available inode (size - c) (offset + c) ≡ n - c = omega arith in
            let whole : c + (n - c) ≡ n = omega arith in
            let copied =
              copy_out_lem offset c f.layout (block_inside offset f (omega arith))
                (p (offset / block_sector_size) (omega arith)) (omega arith) in
            read_loop_step fuel fs fs inode size offset c (slot blk (offset / block_sector_size))
              buffer (contents fs blk offset c) (omega arith) refl (omega arith)
              (byte_to_sector_present offset f p (omega arith)) copied
            ∙ read_loop_present fuel (size - c) (offset + c) (buffer ++ contents fs blk offset c)
                (omega arith) f p
            ∙ ap
                (λ (k : ℕ).
                  some (fs, (buffer ++ contents fs blk offset c) ++ contents fs blk (offset + c) k))
                left
            ∙ ap (λ (xs : List ℕ). some (fs, xs))
                (append_assoc buffer _ _
                  ∙ ap (◌++◌ buffer) (
                      tabulate-append (byte_at fs blk) offset c (n - c)
                      ∙ ap (contents fs blk offset) whole))
      ]

  -- Where the inode's lock is free, nobody writes, and the file has no hole, inode_read_at returns the
  -- bytes and changes nothing at all.
  pub read_at_present :
      {inode : Inode} (size offset : ℕ)
      → IsFile fs inode blk m
      → IsPresent inode blk
      → inode.locked ≡ false
      → inode.writers ≡ 0
      → read_at fs inode size offset
        ≡ some (fs, inode, contents fs blk offset (available inode size offset))
  read_at_present {inode} size offset f p unlocked no_writer =
      read_at_run fs fs inode size offset _ unlocked no_writer (
        read_loop_present size size offset [] (omega arith) (recount false (inode.readers + 1) f) p)
