-- ===== src/Inode/RoundTrip.antt =====
-- inode_write_at and then inode_read_at of filesys/inode.c: what was written is read back.
use utcs.Prelude.{
  ℕ, ◌+◌, ◌*◌, ◌≤◌, ◌≡◌, refl, sym, ap, ◌∙◌, false, List, some, arith, length, get_or, ◌-◌,
}
use utcs.FreeMap.Alloc.{IsDenied}
use utcs.FreeMap.Room.{room}
use utcs.Disk.{Fs}
use utcs.Inode.{Inode, write_at, read_at}
use utcs.Inode.Layout.{Blocks, byte_at}
use utcs.Inode.File.{IsFile}
use utcs.Inode.Slice.{tabulate_shift, take-drop}
use utcs.Inode.Bytes.{contents, available, sectors_of, take_whole}
use utcs.Inode.Read.{read_at_lem}
use utcs.Inode.WriteAt.{new_blocks, Covers}
use utcs.Inode.Written.{Wrote, write_at_lem}

-- After a write the range holds the buffer.
contents-Wrote :
    {fs fs' : Fs} {inode inode' : Inode} {blk blk' : Blocks} {m m' : ℕ} (offset : ℕ)
    (buffer : List ℕ)
    → Wrote fs inode blk m offset buffer fs' inode' blk' m'
    → contents fs' blk' offset (length buffer) ≡ buffer
contents-Wrote {fs' = fs'} {blk' = blk'} offset buffer W =
    tabulate_shift (byte_at fs' blk') (λ i. get_or buffer i 0) offset 0 (length buffer)
      (λ i h.
        ground (arith, W.bytes (offset + i), W.size, same_index (offset + i - offset) (0 + i)))
    ∙ sym (take-drop buffer 0 (length buffer) (omega arith))
    ∙ take_whole buffer (length buffer) refl
  where
    same_index : (i j : ℕ) → i ≡ j → get_or buffer i 0 ≡ get_or buffer j 0
    same_index i j e = ap (λ (x : ℕ). get_or buffer x 0) e

-- For a well-formed file, where its index blocks, with those that a write up to the end of the
-- range adds, cover that end (they do not where inode_create made the file with a positive
-- multiple of 64512 bytes and the range ends beyond those), the inode is idle, writes to it are
-- not denied, the map's file takes writes, and the device has the index blocks that the file
-- needs to grow and twice the sectors that the range lies in: inode_write_at returns the length
-- of the buffer, and inode_read_at of as many bytes at that offset in the state it leaves returns
-- the buffer and leaves the inode as it is.
pub read_at-write_at :
    {fs : Fs} {inode : Inode} {blk : Blocks} {m : ℕ} (buffer : List ℕ) (offset : ℕ)
    → IsFile fs inode blk m
    → Covers inode m (offset + length buffer)
    → new_blocks inode (offset + length buffer) + 2 * sectors_of offset (length buffer)
      ≤ room fs.free
    → ¬ IsDenied fs.free.file
    → inode.deny_write_cnt ≡ 0
    → inode.locked ≡ false
    → inode.readers ≡ 0
    → inode.writers ≡ 0
    → (fs' : Fs) × (inode' : Inode) × (fs'' : Fs) × (write_at fs inode buffer offset
        ≡ some (fs', inode', length buffer))
      × (read_at fs' inode' (length buffer) offset ≡ some (fs'', inode', buffer))
read_at-write_at {fs} {inode} buffer offset F covers enough ok allowed unlocked no_reader
      no_writer =
    let (fs', inode', blk', m', wrote, W) =
      write_at_lem buffer offset F covers (omega arith) ok allowed unlocked no_reader in
    let whole : available inode' (length buffer) offset ≡ length buffer = omega (arith, W.size) in
    let (fs'', blk'', e, _, _, _) =
      read_at_lem (length buffer) offset W.is_file
        (record { enough = rw whole (omega (arith, W.spent)); writable = λ d. ok (W.writable d) })
        (ap (λ (i : Inode). i.locked) W.same_inode ∙ unlocked)
        (ap (λ (i : Inode). i.writers) W.same_inode ∙ no_writer) in
    (
      fs',
      inode',
      fs'',
      wrote,
      e
          ∙ ap (λ (bs : List ℕ). some (fs'', inode', bs))
              (ap (contents fs' blk' offset) whole ∙ contents-Wrote offset buffer W),
    )
