-- ===== src/Lifetime/Deny.antt =====
-- Denying and allowing writes: inode_deny_write and inode_allow_write of filesys/inode.c.
use utcs.Prelude.{ℕ, ◌+◌, ◌<◌, ◌≤◌, ◌≡◌, ap, true, List, some, arith, ltb, le→leb}
use utcs.Disk.{Fs}
use utcs.Inode.{Inode, write_at}
use utcs.Inode.Written.{write_at-denied}
use utcs.Lifetime.{deny_write, allow_write}

-- Denying writes and allowing them again.
pub deny_and_allow :
    (inode : Inode)
    → inode.deny_write_cnt < inode.open_cnt
    → (deny_write inode
        ≡ some (
          record inode { deny_write_cnt = inode.deny_write_cnt + 1 },
          ltb 0 inode.deny_write_cnt,
        ))
      × (allow_write (record inode { deny_write_cnt = inode.deny_write_cnt + 1 }) ≡ some inode)
unfolding deny_write allow_write
deny_and_allow inode h =
    let fits : inode.deny_write_cnt + 1 ≤ inode.open_cnt = omega arith in
    let denied : ltb 0 (inode.deny_write_cnt + 1) ≡ true = ground arith in
    (
      rw (le→leb _ _ fits),
      rw (denied, le→leb _ _ fits)
          (ap (λ (n : ℕ). some (record inode { deny_write_cnt = n })) (omega arith)),
    )

-- An opener that has not denied writes yet can deny them; inode_write_at then writes nothing and
-- returns 0 wherever it is asked to write, and allowing writes again gives the inode back as it was.
allow_write-deny_write :
    (inode : Inode) (fs : Fs) (buffer : List ℕ) (offset : ℕ)
    → inode.deny_write_cnt < inode.open_cnt
    → (i : Inode) × (deny_write inode ≡ some (i, ltb 0 inode.deny_write_cnt))
      × (write_at fs i buffer offset ≡ some (fs, i, 0))
      × (allow_write i ≡ some inode)
allow_write-deny_write inode fs buffer offset h =
    let (denied, allowed) = deny_and_allow inode h in
    (
      record inode { deny_write_cnt = inode.deny_write_cnt + 1 },
      denied,
      write_at-denied fs _ buffer offset (ground arith),
      allowed,
    )
