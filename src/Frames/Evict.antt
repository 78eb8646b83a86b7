-- ===== src/Frames/Evict.antt =====
-- evict_frame of vm/frame-table.c in CS439/Project3: what becomes of the page that leaves.
use utcs.Prelude.{
  ℕ, ◌<◌, ◌≡◌, refl, Bool, true, false, ◌||◌, none, some, ◌==◌, ==_refl, if◌then◌else◌, set,
  Bool-cases, inl, inr,
}
use utcs.Pages.{Spte}
use utcs.Swap.{SwapArea, mem_to_swap}
use utcs.Swap.RoundTrip.{IsArea, taken, Stored, in_slot, mem_to_swap_lem}
use utcs.Frames.{Frame, Vm, set_at, keep_page, evict_frame}

-- The page of the entry is in a slot of the swap device if it had to be kept, and if not the swap
-- device is as it was.
abbrev pub Kept : (keep : Bool) → (before : Vm) → (frame : ℕ) → (entry : Spte) → SwapArea → Type 0
Kept true vm p e area =
    (slot : ℕ) × (e.swap ≡ true) × (e.sector_offset ≡ slot) × Stored vm.area (vm.memory p) slot area
Kept false vm p e area = area ≡ vm.area

-- The page `v` of the thread `o`, with its entry, has left the frame at `i`.
pub record Evicted (vm : Vm) (i : ℕ) (f : Frame) (v o entry p : ℕ) (vm' : Vm) : Type 0 where
  pub kept : Kept ((vm.entries entry).stack || vm.dirty o v) vm p (vm'.entries entry) vm'.area
  pub no_frame : (vm'.entries entry).paddr ≡ none
  pub others : (x : ℕ) → (x == entry) ≡ false → vm'.entries x ≡ vm.entries x
  pub mapped : vm'.mapped ≡ set_at vm.mapped o v none
  pub frames : vm'.frame_table ≡ set vm.frame_table i (record f { vaddr = none })
  pub hand : vm'.clock_hand ≡ vm.clock_hand
  pub current : vm'.current ≡ vm.current
  pub accessed : vm'.accessed ≡ vm.accessed

-- The rest of evict_frame.
abbrev left_frame : Vm → (i : ℕ) → Frame → (v o entry : ℕ) → Vm
left_frame vm i f v o entry = record vm {
  entries = λ x.
      if x == entry then record (vm.entries entry) { paddr = none; index = none } else vm.entries x;
  mapped = set_at vm.mapped o v none;
  frame_table = set vm.frame_table i (record f { vaddr = none });
}

evict_ran :
    (vm vm1 : Vm) (i : ℕ) (f : Frame) (v o entry : ℕ)
    → f.supp_entry ≡ some entry
    → f.owner ≡ some o
    → keep_page vm entry ((vm.entries entry).stack || vm.dirty o v) ≡ some vm1
    → evict_frame vm i f v ≡ some (left_frame vm1 i f v o entry)
unfolding evict_frame
evict_ran vm vm1 i f v o entry s w e = simp (s, w, e)

keep_none : (vm : Vm) (entry : ℕ) → keep_page vm entry false ≡ some vm
unfolding keep_page
keep_none vm entry = refl

keep_some :
    (vm : Vm) (entry : ℕ) (area : SwapArea) (e : Spte)
    → mem_to_swap vm.area vm.memory (vm.entries entry) ≡ some (area, e)
    → keep_page vm entry true
      ≡ some (record vm { area = area; entries = λ x. if x == entry then e else vm.entries x })
unfolding keep_page
keep_some vm entry area e h = rw h

evict_clean :
    (vm : Vm) (i : ℕ) (f : Frame) (v o entry p : ℕ)
    → f.supp_entry ≡ some entry
    → f.owner ≡ some o
    → ((vm.entries entry).stack || vm.dirty o v) ≡ false
    → (vm' : Vm) × (evict_frame vm i f v ≡ some vm') × Evicted vm i f v o entry p vm'
evict_clean vm i f v o entry p s w clean = (
  left_frame vm i f v o entry,
  evict_ran vm vm i f v o entry s w (rw clean (keep_none vm entry)),
  record {
    kept = rw clean refl;
    no_frame = rw (==_refl entry);
    others = λ x ne. rw ne;
    mapped = refl;
    frames = refl;
    hand = refl;
    current = refl;
    accessed = refl;
  },
)

evict_kept :
    (vm : Vm) (i : ℕ) (f : Frame) (v o entry p free : ℕ)
    → f.supp_entry ≡ some entry
    → f.owner ≡ some o
    → (vm.entries entry).paddr ≡ some p
    → IsArea vm.area
    → free < vm.area.slot_map.bit_cnt
    → taken vm.area free ≡ false
    → ((vm.entries entry).stack || vm.dirty o v) ≡ true
    → (vm' : Vm) × (evict_frame vm i f v ≡ some vm') × Evicted vm i f v o entry p vm'
evict_kept vm i f v o entry p free s w m area inside is_free keep =
    let (area', slot, e, stored) =
      mem_to_swap_lem vm.area vm.memory (vm.entries entry) p free area m inside is_free in
    let vm1 = record vm {
      area = area';
      entries = λ x. if x == entry then in_slot (vm.entries entry) slot else vm.entries x;
    } in
    (
      left_frame vm1 i f v o entry,
      evict_ran vm vm1 i f v o entry s w
          (rw keep (keep_some vm entry area' (in_slot (vm.entries entry) slot) e)),
      record {
        kept = rw keep (slot, rw (==_refl entry), rw (==_refl entry), stored);
        no_frame = rw (==_refl entry);
        others = λ x ne. rw ne;
        mapped = refl;
        frames = refl;
        hand = refl;
        current = refl;
        accessed = refl;
      },
    )

-- evict_frame of a frame whose page belongs to a thread and has an entry that names a frame in memory,
-- on a swap device with a free slot: it ends, the page is no longer mapped, its entry names no
-- frame and no other entry changes; if it is a page of the stack or was written to, its bytes are
-- in the slot that the entry names.
pub evict_frame_lem :
    (vm : Vm) (i : ℕ) (f : Frame) (v o entry p free : ℕ)
    → f.supp_entry ≡ some entry
    → f.owner ≡ some o
    → (vm.entries entry).paddr ≡ some p
    → IsArea vm.area
    → free < vm.area.slot_map.bit_cnt
    → taken vm.area free ≡ false
    → (vm' : Vm) × (evict_frame vm i f v ≡ some vm') × Evicted vm i f v o entry p vm'
evict_frame_lem vm i f v o entry p free s w m area inside is_free =
    elim (Bool-cases ((vm.entries entry).stack || vm.dirty o v)) [
      | inl keep ↦ evict_kept vm i f v o entry p free s w m area inside is_free keep
      | inr clean ↦ evict_clean vm i f v o entry p s w clean
    ]
