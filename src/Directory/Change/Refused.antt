-- ===== src/Directory/Change/Refused.antt =====
-- dir_add of filesys/directory.c in CS439/Project4 refuses a name and keeps the lock of the
-- `struct dir`.
use utcs.Prelude.{ℕ, ◌≡◌, List, none}
use utcs.OpenInodes.Files.{Files}
use utcs.Directory.{Dir, dir_lookup}
use utcs.Directory.Change.{dir_add, dir_remove}

-- Every call that takes the lock of this `struct dir` waits for ever.
pub record NeverUnlocked (dir : Dir) : Type 0 where
  pub no_lookup : (files : Files) (name e : List ℕ) → dir_lookup files dir name e ≡ none
  pub no_add :
      (files : Files) (name e : List ℕ) (sector : ℕ) → dir_add files dir name sector e ≡ none
  pub no_remove : (files : Files) (name e : List ℕ) → dir_remove files dir name e ≡ none
