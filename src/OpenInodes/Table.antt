-- ===== src/OpenInodes/Table.antt =====
-- `open_inodes` of filesys/inode.c as a finite map from sectors to inodes, and inode_open on it.
use native.Mathlib.Decide.{ℕ_discrete}
use utcs.Prelude.{
  ℕ, ◌+◌, ◌≡◌, ◌≢◌, refl, sym, ap, ◌∙◌, false, List, [], ◌∷◌, Option, none, some, ◌==◌,
  if◌then◌else◌, ==_iff, ==_refl, ne→==_false, inl, inr, ◌⊎◌,
}
use utcs.Disk.{Fs, InodeDisk, read_header}
use utcs.Inode.{Inode}
use utcs.Lifetime.{reopen}
use utcs.OpenInodes.{reopen_in, fresh, open_found, open_inode}

-- The open inode of a sector.
abbrev pub lookup : List Inode → ℕ → Option Inode
lookup [] s = none
lookup (i ∷ rest) s = if i.sector == s then some i else lookup rest s

-- How many openers a sector's inode has.
abbrev pub openers : Option Inode → ℕ
openers none = 0
openers (some i) = i.open_cnt

-- The inode after one more opener: a new one has the members of its sector and nothing else.
abbrev pub opened : InodeDisk → (s : ℕ) → Option Inode → Inode
opened head s none = record {
  sector = s;
  open_cnt = 1;
  removed = false;
  deny_write_cnt = 0;
  on_disk = head;
  locked = false;
  readers = 0;
  writers = 0;
}
opened head s (some i) = record i { open_cnt = openers (some i) + 1 }

-- No sector has two inodes.
unfoldable pub IsDistinct : List Inode → Type 0
IsDistinct [] = Unit
IsDistinct (i ∷ rest) = (lookup rest i.sector ≡ none) × IsDistinct rest

-- What opening `s` does to the table.
pub record Opens (table : List Inode) (s : ℕ) (head : InodeDisk) (table' : List Inode) (i : Inode)
    : Type 0 where
  pub at_sector : i.sector ≡ s
  pub found : lookup table' s ≡ some i
  pub one_more : i ≡ opened head s (lookup table s)
  pub others : (t : ℕ) → t ≢ s → lookup table' t ≡ lookup table t
  pub distinct : IsDistinct table'

-- The search either meets the inode of the sector or there is none.
reopen_in_lem :
    (table : List Inode) (s : ℕ) (head : InodeDisk)
    → IsDistinct table
    → ((reopen_in table s ≡ none) × (lookup table s ≡ none))
      ⊎ ((table' : List Inode) × (i : Inode) × (reopen_in table s ≡ some (table', i))
          × Opens table s head table' i)
unfolding reopen_in IsDistinct reopen
reopen_in_lem [] s head d = inl (refl, refl)
reopen_in_lem (x ∷ rest) s head (new, d) = elim (ℕ_discrete x.sector s) [
  | yes e ↦ inr (
    reopen x ∷ rest,
    reopen x,
    rw ((==_iff x.sector s).1 e) refl,
    record {
      at_sector = e;
      found = rw ((==_iff x.sector s).1 e);
      one_more = rw ((==_iff x.sector s).1 e);
      others = λ t ne. rw (ne→==_false x.sector t (λ q. ne (sym q ∙ e)));
      distinct = (new, d);
    },
  )
  | no ne ↦ elim (reopen_in_lem rest s head d) [
    | inl (e, l) ↦ inl (rw (ne→==_false x.sector s ne, e), rw (ne→==_false x.sector s ne, l))
    | inr (table', i, e, o) ↦ inr (
      x ∷ table',
      i,
      rw (ne→==_false x.sector s ne, e),
      record {
        at_sector = o.at_sector;
        found = rw (ne→==_false x.sector s ne) o.found;
        one_more = rw (ne→==_false x.sector s ne) o.one_more;
        others = λ t other.
            ap (λ (r : Option Inode). if x.sector == t then some x else r) (o.others t other);
        distinct = (o.others x.sector ne ∙ new, o.distinct);
      },
    )
  ]
]

-- In a table with one inode at most for each sector, inode_open of a sector that holds an inode
-- returns the one inode of that sector in the new table: where the sector was open, the inode it had
-- with one opener more, else a new one with one opener and what the sector holds; the inodes of
-- other sectors are as they were, and no sector has two.
pub open_inode_lem :
    (fs : Fs) (table : List Inode) (s : ℕ) (head : InodeDisk)
    → IsDistinct table
    → read_header fs s ≡ some head
    → (table' : List Inode) × (i : Inode) × (open_inode fs table s ≡ some (table', i))
      × Opens table s head table' i
unfolding open_inode open_found fresh IsDistinct
open_inode_lem fs table s head d on_disk = elim (reopen_in_lem table s head d) [
  | inr (table', i, e, o) ↦ (table', i, rw e, o)
  | inl (e, l) ↦ (
    fresh s head ∷ table,
    fresh s head,
    rw (e, on_disk),
    record {
      at_sector = refl;
      found = rw (==_refl s);
      one_more = rw l;
      others = λ t ne. rw (ne→==_false s t (λ e. ne (sym e)));
      distinct = (l, d);
    },
  )
]
