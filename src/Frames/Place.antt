-- ===== src/Frames/Place.antt =====
-- insert_page of vm/frame-table.c in CS439/Project3, and what insert_page_into_frame does in all.
use utcs.Prelude.{
  ℕ, ◌+◌, ◌<◌, ◌%◌, ◌≡◌, refl, Bool, true, false, ◌&&◌, Option, none, some, ◌==◌, if◌then◌else◌,
  length, get_elem?, set, Bool-cases, inl, inr, arith, Option-cases,
}
use utcs.Pages.{Spte}
use utcs.Swap.RoundTrip.{IsArea, taken}
use utcs.Frames.{
  Frame, Mapping, Vm, set_at, next_hand, clock_algorithm, make_room, insert_page, pagedir_set_page,
  no_offset, insert_page_into_frame,
}
use utcs.Frames.Room.{Entered, AllEntered, Left, Ready, unmap, room_none, other_entry, room_some}

-- The entry of a page that was put into the frame at the index.
abbrev pub placed : Spte → (paddr i : ℕ) → Spte
placed e paddr i = record e {
  paddr = some paddr;
  sector_offset = if e.swap then e.sector_offset else no_offset;
  swap = false;
  index = some i;
}

-- The mapping of a page.
abbrev pub mapping : Spte → (paddr : ℕ) → Mapping
mapping e paddr = record { frame = paddr; writable = e.write }

abbrev pub holding : Frame → (vaddr owner entry : ℕ) → Frame
holding f v o entry = record f { vaddr = some v; owner = some o; supp_entry = some entry }

abbrev pub inserted : Vm → Frame → (entry : ℕ) → Vm
inserted vm f entry =
    let v = (vm.entries entry).vaddr in
    record vm {
      frame_table = set vm.frame_table vm.clock_hand (holding f v vm.current entry);
      entries =
          λ x. if x == entry then placed (vm.entries entry) f.paddr vm.clock_hand else vm.entries x;
      mapped = set_at vm.mapped vm.current v (some (mapping (vm.entries entry) f.paddr));
      accessed = set_at (set_at vm.accessed vm.current v false) vm.current v true;
      dirty = set_at vm.dirty vm.current v false;
    }

pub insert_ran :
    (vm : Vm) (f : Frame) (entry : ℕ)
    → vm.mapped vm.current (vm.entries entry).vaddr ≡ none
    → insert_page vm f entry ≡ some (inserted vm f entry)
unfolding insert_page pagedir_set_page
insert_ran vm f entry h = rw h refl

pub whole_ran :
    (vm vm1 vm2 : Vm) (evicted f : Frame) (entry : ℕ)
    → clock_algorithm (length vm.frame_table + 1) vm ≡ some vm1
    → get_elem? vm1.frame_table vm1.clock_hand ≡ some evicted
    → make_room vm1 evicted evicted.vaddr ≡ some vm2
    → get_elem? vm2.frame_table vm2.clock_hand ≡ some f
    → insert_page vm2 f entry ≡ some (inserted vm2 f entry)
    → insert_page_into_frame vm entry
      ≡ some (record (inserted vm2 f entry) { clock_hand = next_hand (inserted vm2 f entry) })
unfolding insert_page_into_frame
whole_ran vm vm1 vm2 evicted f entry c e m g i = simp (c, e, m, g, i)

-- The page of the entry is in the frame at `i`, which was taken from the page that was there.
pub record Inserted (vm : Vm) (entry : ℕ) (vm' : Vm) : Type 0 where
  pub at : ℕ
  pub frame : Frame
  pub was_there : get_elem? vm.frame_table at ≡ some frame
  pub filled :
      (held : Frame) × (get_elem? vm'.frame_table at
        ≡ some (holding held (vm.entries entry).vaddr vm.current entry))
      × (held.paddr ≡ frame.paddr)
  pub other_frames :
      (j : ℕ) → (j == at) ≡ false → get_elem? vm'.frame_table j ≡ get_elem? vm.frame_table j
  pub in_frame : vm'.entries entry ≡ placed (vm.entries entry) frame.paddr at
  pub mapped :
      vm'.mapped
      ≡ set_at
          (unmap vm.mapped frame.owner frame.vaddr)
          vm.current
          (vm.entries entry).vaddr
          (some (mapping (vm.entries entry) frame.paddr))
  pub hand : vm'.clock_hand ≡ (at + 1) % length vm.frame_table
  pub left : Left vm frame frame.vaddr vm'

pub pass_left :
    (vm vm2 : Vm) (frame f : Frame) (entry h : ℕ) (w : Option ℕ)
    → (vm.entries entry).paddr ≡ none
    → Left vm frame w vm2
    → Left vm frame w (record (inserted vm2 f entry) { clock_hand = h })
pass_left vm vm2 frame f entry h none n l = l
pass_left vm vm2 frame f entry h (some v) n (o, gone, p, eo, eg, m, q, k) =
    let other : (gone == entry) ≡ false = ground (arith, other_entry vm entry gone p m n) in
    (o, gone, p, eo, eg, m, rw other q, rw other k)

pub still_unmapped :
    (mapped : ℕ → ℕ → Option Mapping) (o v : Option ℕ) (p w : ℕ)
    → mapped p w ≡ none
    → unmap mapped o v p w ≡ none
still_unmapped mapped o none p w h = h
still_unmapped mapped none (some v) p w h = h
still_unmapped mapped (some o) (some v) p w h = elim (Bool-cases (p == o && w == v)) [
  | inl t ↦ rw t refl
  | inr t ↦ rw t h
]

pub at_clock-Entered :
    (vm : Vm) (a : ℕ → ℕ → Bool) (h : ℕ) (f : Frame) (v : ℕ)
    → Entered vm f v
    → Entered (record vm { accessed = a; clock_hand = h }) f v
at_clock-Entered vm a h f v e = record {
  owner = e.owner;
  is_owner = e.is_owner;
  entry = e.entry;
  is_entry = e.is_entry;
  paddr = e.paddr;
  is_paddr = e.is_paddr;
}

pub ready :
    (vm : Vm) (f : Frame) (entry free : ℕ)
    → get_elem? vm.frame_table vm.clock_hand ≡ some f
    → (vm.entries entry).paddr ≡ none
    → AllEntered vm
    → IsArea vm.area
    → free < vm.area.slot_map.bit_cnt
    → taken vm.area free ≡ false
    → (vm' : Vm) × (make_room vm f f.vaddr ≡ some vm') × Ready vm f entry vm'
ready vm f entry free e n entered area in_map is_free = elim (Option-cases f.vaddr) [
  | inl empty ↦ room_none vm f entry e empty
  | inr (v, is) ↦
      room_some vm f entry v free e n is (entered vm.clock_hand f v e is) area in_map is_free
]
