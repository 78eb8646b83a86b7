-- ===== src/Inode/WriteAt.antt =====
-- inode_write_at of filesys/inode.c as a whole: the file grows where it must, and holds the buffer.
use Prim.Native.Nat.{max}
use native.Mathlib.Decide.{dec_le}
use utcs.Prelude.{
  ℕ, ◌+◌, ◌-◌, ◌*◌, ◌/◌, ◌≤◌, ◌≡◌, ◌≢◌, refl, ◌∙◌, true, false, some, arith, if◌then◌else◌, leb,
  le→leb, lt→ltb,
}
use utcs.FreeMap.Alloc.{used, IsDenied}
use utcs.FreeMap.Room.{room}
use utcs.Disk.{
  Fs, header, InodeDisk, index_block_size, block_sector_size, read_index, block_read, block_write,
}
use utcs.Inode.{Inode, inode_length, span, grow, add_blocks}
use utcs.Inode.Layout.{Blocks, byte_at, Outside}
use utcs.Inode.File.{IsFile}
use utcs.Inode.Grow.{Grows, ending_at, add_blocks_lem}
use utcs.Inode.Head.{headed_fs, elsewhere, slot_byte-headed, headed-IsFile, block_write-headed}

-- Byte `pos` of a file of `m + 1` index blocks, and zero past them.
abbrev pub byte_or_zero : Fs → Blocks → (m pos : ℕ) → ℕ
byte_or_zero fs blk m pos =
    if leb (pos / block_sector_size / index_block_size) m then byte_at fs blk pos else 0

-- The index blocks that a file needs to reach `new_size`.
abbrev pub new_blocks : Inode → (new_size : ℕ) → ℕ
new_blocks inode new_size = new_size / span - inode_length inode / span

-- The index blocks of a chain of `m + 1`, with those that a write up to `new_size` adds, have a slot
-- for every byte up to there. A file with more blocks than its length has whole spans satisfies it
-- at every size; one that inode_create makes with a positive multiple of `span` bytes does not at
-- any size past those.
abbrev pub Covers : Inode → (m new_size : ℕ) → Type 0
Covers inode m new_size = new_size ≤ span * (m + 1 + new_blocks inode new_size)

-- The state after a file may have grown.
pub record Grown (fs : Fs) (inode : Inode) (blk : Blocks) (m new_size : ℕ) (fs' : Fs)
    (inode' : Inode) (blk' : Blocks) (m' : ℕ) : Type 0 where
  pub is_file : IsFile fs' inode' blk' m'
  pub same_inode : inode' ≡ record inode { on_disk = inode'.on_disk }
  pub size : inode_length inode' ≡ max (inode_length inode) new_size
  pub kept :
      (pos : ℕ)
      → pos / block_sector_size / index_block_size ≤ m'
      → byte_at fs' blk' pos ≡ byte_or_zero fs blk m pos
  pub frame :
      (t : ℕ) → used fs.free t ≡ true → Outside blk m t → t ≢ inode.sector → fs'.disk t ≡ fs.disk t
  pub outside : (t : ℕ) → used fs.free t ≡ true → Outside blk m t → Outside blk' m' t
  pub still_used : (t : ℕ) → used fs.free t ≡ true → used fs'.free t ≡ true
  pub spent : room fs.free ≤ new_blocks inode new_size + room fs'.free
  pub writable : IsDenied fs'.free.file → IsDenied fs.free.file

-- The bytes of a file with more blocks.
grown_byte :
    {fs fs' : Fs} {blk blk' : Blocks} {m m' : ℕ}
    → Grows fs blk m fs' blk' m'
    → (pos : ℕ) → pos / block_sector_size / index_block_size ≤ m'
    → byte_at fs' blk' pos ≡ byte_or_zero fs blk m pos
unfolding byte_at
grown_byte {m = m} G pos h = elim (dec_le (pos / block_sector_size / index_block_size) m) [
  | yes early ↦ rw (le→leb _ _ early) (G.old_bytes _ _ early)
  | no late ↦ rw (past late) (G.new_bytes _ _ (omega arith) h)
]
  where
    past :
        ¬ (pos / block_sector_size / index_block_size ≤ m)
        → leb (pos / block_sector_size / index_block_size) m ≡ false
    past late = ground arith

-- Where the file is long enough it stays as it is.
grow_nothing :
    (fs : Fs) (inode : Inode) (blk : Blocks) (m new_size : ℕ)
    → IsFile fs inode blk m
    → new_size ≤ inode_length inode
    → (grow fs inode new_size ≡ some (fs, inode, true))
      × Grown fs inode blk m new_size fs inode blk m
unfolding grow
grow_nothing fs inode blk m new_size F h = (
  rw (le→leb _ _ h),
  record {
    is_file = F;
    same_inode = refl;
    size = omega arith;
    kept = λ pos at. rw (le→leb _ _ at);
    frame = λ t u o ne. refl;
    outside = λ t u o. o;
    still_used = λ t u. u;
    spent = omega arith;
    writable = λ d. d;
  },
)

-- The inode's on-disk part after growing.
abbrev longer_head : Inode → (e new_size : ℕ) → InodeDisk
longer_head inode e new_size = record inode.on_disk { end = e; size = new_size }

pub last_read :
    (fs : Fs) (inode : Inode) (blk : Blocks) (m : ℕ)
    → IsFile fs inode blk m
    → read_index fs inode.on_disk.end ≡ some (blk m)
unfolding read_index block_read
last_read fs inode blk m F =
    rw (← F.ends, lt→ltb _ _ (F.layout.inside m (omega arith)), F.layout.on_disk m (omega arith))

grow_run :
    (fs fs₁ fs₂ : Fs) (inode : Inode) (blk : Blocks) (m new_size e : ℕ)
    → IsFile fs inode blk m
    → ¬ (new_size ≤ inode_length inode)
    → add_blocks (new_blocks inode new_size) fs inode (blk m) ≡ some (fs₁, ending_at inode e, true)
    → block_write fs₁ inode.sector (header (longer_head inode e new_size)) ≡ some fs₂
    → grow fs inode new_size
      ≡ some (fs₂, record inode { on_disk = longer_head inode e new_size }, true)
unfolding grow
grow_run fs fs₁ fs₂ inode blk m new_size e F h added wrote =
    rw (longer, last_read fs inode blk m F, added, wrote)
  where
    longer : leb new_size (inode_length inode) ≡ false
    longer = ground arith

-- A file that got its blocks and then its new size.
Grown-headed :
    (fs fs₁ : Fs) (inode : Inode) (blk blk' : Blocks) (m m' new_size e : ℕ)
    (F' : IsFile fs₁ (ending_at inode e) blk' m')
    → IsFile fs inode blk m
    → ¬ (new_size ≤ inode_length inode)
    → Covers inode m new_size
    → m' ≡ m + new_blocks inode new_size
    → Grows fs blk m fs₁ blk' m'
    → Grown fs inode blk m new_size
        (headed_fs fs₁ (ending_at inode e) blk' m' F' (longer_head inode e new_size))
        (record inode { on_disk = longer_head inode e new_size })
        blk'
        m'
unfolding byte_at
Grown-headed fs fs₁ inode blk blk' m m' new_size e F' F h covers width G = record {
  is_file =
      headed-IsFile fs₁ (ending_at inode e) blk' m' F' (longer_head inode e new_size) refl refl
        (omega arith);
  same_inode = refl;
  size = omega arith;
  kept = λ pos at.
      slot_byte-headed fs₁ (ending_at inode e) blk' m' F' (longer_head inode e new_size) _ _ at
      ∙ grown_byte G pos at;
  frame = λ t u o ne.
      elsewhere fs₁ (ending_at inode e) blk' m' F' (longer_head inode e new_size) t ne
      ∙ G.frame t u o;
  outside = G.outside;
  still_used = G.still_used;
  spent = omega (arith, G.spent);
  writable = G.writable;
}

pub grow_lem :
    (fs : Fs) (inode : Inode) (blk : Blocks) (m new_size : ℕ)
    → IsFile fs inode blk m
    → Covers inode m new_size
    → new_blocks inode new_size ≤ room fs.free
    → ¬ IsDenied fs.free.file
    → (fs' : Fs) × (inode' : Inode) × (blk' : Blocks) × (m' : ℕ) × (grow fs inode new_size
        ≡ some (fs', inode', true))
      × Grown fs inode blk m new_size fs' inode' blk' m'
grow_lem fs inode blk m new_size F covers enough ok = elim (dec_le new_size (inode_length inode)) [
  | yes h ↦ let (e, G) = grow_nothing fs inode blk m new_size F h in (fs, inode, blk, m, e, G)
  | no h ↦
      let (fs₁, last, blk', m', e, width, G, F') =
        add_blocks_lem (new_blocks inode new_size) fs inode blk m F enough ok in
      (
        headed_fs fs₁ (ending_at inode last) blk' m' F' (longer_head inode last new_size),
        record inode { on_disk = longer_head inode last new_size },
        blk',
        m',
        grow_run fs fs₁ _ inode blk m new_size last F h e (
            block_write-headed fs₁ (ending_at inode last) blk' m' F'
              (longer_head inode last new_size)),
        Grown-headed fs fs₁ inode blk blk' m m' new_size last F' F h covers width G,
      )
]
