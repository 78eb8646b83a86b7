-- ===== src/Directory/OnDisk.antt =====
-- A file of filesys/inode.c as directory.c of CS439/Project4 reads it: its bytes, forty at a time.
use utcs.Prelude.{
  ℕ, zero, suc, ◌+◌, ◌*◌, ◌≡◌, refl, sym, ap, ◌∙◌, false, true, List, [], ◌∷◌, some, arith, ◌==◌,
  length, Bool-cases, inl, inr, some_inj, ==_iff,
}
use utcs.Disk.{Fs}
use utcs.Inode.{Inode, inode_length}
use utcs.Inode.Layout.{Blocks, byte_at}
use utcs.Inode.File.{IsFile}
use utcs.Inode.Bytes.{contents, available}
use utcs.Inode.Slice.{length-tabulate}
use utcs.Inode.Present.{IsPresent, read_at_present}
use utcs.OpenInodes.Table.{lookup}
use utcs.OpenInodes.Files.{Files, put_inode, read_inode}
use utcs.Directory.{entry_size}
use utcs.Directory.Entries.{Stores, HasEntries}

-- The bytes of the file from the offset on, forty at a time.
unfoldable pub chunks : Fs → Blocks → (n ofs : ℕ) → List (List ℕ)
chunks fs blk zero ofs = []
chunks fs blk (suc n) ofs = contents fs blk ofs entry_size ∷ chunks fs blk n (ofs + entry_size)

length-chunks : (fs : Fs) (blk : Blocks) (n ofs : ℕ) → length (chunks fs blk n ofs) ≡ n
unfolding chunks
length-chunks fs blk zero ofs = refl
length-chunks fs blk (suc n) ofs = ap suc (length-chunks fs blk n (ofs + entry_size))

lookup-sector :
    (table : List Inode) (s : ℕ) (inode : Inode) → lookup table s ≡ some inode → inode.sector ≡ s
lookup-sector [] s inode e = absurd (cc e)
lookup-sector (i ∷ rest) s inode e = elim (Bool-cases (i.sector == s)) [
  | inl y ↦
      let same : i ≡ inode = some_inj (rw y at e) in
      ap (λ (j : Inode). j.sector) (sym same) ∙ (==_iff i.sector s).0 y
  | inr n ↦ lookup-sector rest s inode (rw n at e)
]

-- An inode that is put back as it was leaves the list alone.
put_inode_same :
    (table : List Inode) (s : ℕ) (inode : Inode)
    → lookup table s ≡ some inode
    → put_inode table inode ≡ table
unfolding put_inode
put_inode_same [] s inode e = absurd (cc e)
put_inode_same (i ∷ rest) s inode e = elim (Bool-cases (i.sector == s)) [
  | inl y ↦
      let same : i ≡ inode = some_inj (rw y at e) in
      let hit : (i.sector == inode.sector) ≡ true =
        (==_iff i.sector inode.sector).1 (ap (λ (j : Inode). j.sector) same) in
      rw hit (ap (λ (j : Inode). j ∷ rest) (sym same))
  | inr n ↦
      let later : lookup rest s ≡ some inode = rw n at e in
      let at : inode.sector ≡ s = lookup-sector rest s inode later in
      let miss : (i.sector == inode.sector) ≡ false = ap (λ (t : ℕ). i.sector == t) at ∙ n in
      rw miss (ap (◌∷◌ i) (put_inode_same rest s inode later))
]

module _ (files : Files) (s : ℕ) {m : ℕ} {inode : Inode} {blk : Blocks}
    (is_open : lookup files.open_inodes s ≡ some inode) (file : IsFile files.fs inode blk m)
    (present : IsPresent inode blk) (unlocked : inode.locked ≡ false)
    (no_writer : inode.writers ≡ 0) where
  pub read_inode_present :
      (size ofs : ℕ)
      → read_inode files s size ofs
        ≡ some (files, contents files.fs blk ofs (available inode size ofs))
  unfolding read_inode
  read_inode_present size ofs =
      rw
        (
          is_open,
          read_at_present size ofs file present unlocked no_writer,
          put_inode_same files.open_inodes s inode is_open,
        )
        refl

  chunks-Stores :
      (n ofs : ℕ)
      → inode_length inode ≡ ofs + entry_size * n
      → Stores files s ofs (chunks files.fs blk n ofs)
  unfolding chunks
  chunks-Stores zero ofs e =
      let none_left : available inode entry_size ofs ≡ 0 = omega arith in
      (
        contents files.fs blk ofs (available inode entry_size ofs),
        read_inode_present entry_size ofs,
        omega (
          arith,
          none_left,
          length-tabulate (byte_at files.fs blk) ofs (available inode entry_size ofs),
        ),
      )
  chunks-Stores (suc n) ofs e =
      let whole : available inode entry_size ofs ≡ entry_size = omega arith in
      (
        read_inode_present entry_size ofs
            ∙ ap (λ (k : ℕ). some (files, contents files.fs blk ofs k)) whole,
        rw (length-tabulate (byte_at files.fs blk) ofs entry_size) refl,
        chunks-Stores n (ofs + entry_size) (omega arith),
      )

  -- An idle file without holes whose length is a multiple of 40 reads as the entries in its bytes.
  pub chunks-HasEntries :
      (n : ℕ) → inode_length inode ≡ entry_size * n → HasEntries files s (chunks files.fs blk n 0)
  chunks-HasEntries n e = record {
    inode = inode;
    is_open = is_open;
    enough = omega (arith, length-chunks files.fs blk n 0);
    stores = chunks-Stores n 0 (omega arith);
  }
