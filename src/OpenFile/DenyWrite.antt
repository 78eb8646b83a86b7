-- ===== src/OpenFile/DenyWrite.antt =====
-- file_deny_write and file_allow_write of filesys/file.c: an open file denies writes once.
use utcs.Prelude.{◌+◌, ◌<◌, ◌≡◌, refl, ap, sym, Bool, true, false, some, ltb}
use utcs.Lifetime.Deny.{deny_and_allow}
use utcs.OpenFile.{OpenFile, file_deny_write, file_allow_write}

-- Where an open file has not denied writes, and its inode has fewer denials than openers, it can
-- deny them; to deny them again changes nothing, and one file_allow_write gives the file and its
-- inode back as they were.
file_allow_write-file_deny_write :
    (file : OpenFile)
    → file.denies ≡ false
    → file.inode.deny_write_cnt < file.inode.open_cnt
    → (file' : OpenFile) × (file_deny_write file ≡ some (file', ltb 0 file.inode.deny_write_cnt))
      × (file_deny_write file' ≡ some (file', false))
      × (file_allow_write file' ≡ some file)
unfolding file_deny_write file_allow_write
file_allow_write-file_deny_write file not_yet h =
    let (denied, allowed) = deny_and_allow file.inode h in
    (
      record file {
        inode = record file.inode { deny_write_cnt = file.inode.deny_write_cnt + 1 };
        denies = true;
      },
      rw (not_yet, denied),
      refl,
      rw allowed (ap (λ (b : Bool). some (record file { denies = b })) (sym not_yet)),
    )
