-- ===== src/Frames.antt =====
-- vm/frame-table.c of CS439/Project3: the frames of user memory and the clock that chooses which
-- page leaves. Entries of the page tables of all processes are named by their addresses, a thread's
-- page directory (userprog/pagedir.c) is a map from addresses to mappings with their two bits.
pub mod Clock
pub mod Evict
pub mod Insert
pub mod Place
pub mod Room
mod Examples
use utcs.Prelude.{
  ℕ, zero, suc, ◌+◌, ◌%◌, ◌^◌, ◌-◌, Bool, true, false, ◌&&◌, ◌||◌, List, Option, none, some, ◌==◌,
  ltb, if◌then◌else◌, length, get_elem?, set, ◌>>=◌, ◌>>◌, check,
}
use utcs.Pages.{Spte}
use utcs.Swap.{SwapArea, Memory, mem_to_swap}

-- struct frame
pub record Frame : Type 0 where
  pub paddr : ℕ
  pub vaddr : Option ℕ
  pub owner : Option ℕ
  pub supp_entry : Option ℕ

-- An entry of a page directory: the frame, and whether it may be written.
pub record Mapping : Type 0 where
  pub frame : ℕ
  pub writable : Bool

-- `frame_table` and `clock_hand`, the entries that the frames point to, what the page directory of
-- each thread says of each address, the swap device, the memory and the running thread.
pub record Vm : Type 0 where
  pub frame_table : List Frame
  pub clock_hand : ℕ
  pub entries : ℕ → Spte
  pub mapped : ℕ → ℕ → Option Mapping
  pub accessed : ℕ → ℕ → Bool
  pub dirty : ℕ → ℕ → Bool
  pub area : SwapArea
  pub memory : Memory
  pub current : ℕ

-- A bit, or a mapping, of a thread's address is set.
abbrev pub set_at {ℓ} : {A : Type ℓ} → (ℕ → ℕ → A) → (owner vaddr : ℕ) → A → ℕ → ℕ → A
set_at f owner vaddr value o v = if o == owner && v == vaddr then value else f o v

-- `clock_hand = (clock_hand + 1) % max_user_pages`
abbrev pub next_hand : Vm → ℕ
next_hand vm = (vm.clock_hand + 1) % length vm.frame_table

-- The test of clock_algorithm: whose page it would pass over, if any. An occupied frame with no owner
-- is a NULL pointer.
pub passed_over : (accessed : ℕ → ℕ → Bool) → (vaddr owner : Option ℕ) → Option (Option (ℕ × ℕ))
passed_over accessed none owner = some none
passed_over accessed (some v) none = none
passed_over accessed (some v) (some o) = if accessed o v then some (some (o, v)) else some none

-- A round of the loop of clock_algorithm behind its test.
pub pass_over : (loop : Vm → Option Vm) → Vm → Option (ℕ × ℕ) → Option Vm
pass_over loop vm none = some vm
pass_over loop vm (some (o, v)) =
    loop (record vm { accessed = set_at vm.accessed o v false; clock_hand = next_hand vm })

-- clock_algorithm, with fuel for its loop: the frame is the one at `clock_hand` behind it.
pub clock_algorithm : (fuel : ℕ) → Vm → Option Vm
unfolding passed_over pass_over
clock_algorithm zero vm = none
clock_algorithm (suc fuel) vm = do
  f ← get_elem? vm.frame_table vm.clock_hand
  test ← passed_over vm.accessed f.vaddr f.owner
  pass_over (λ vm'. clock_algorithm fuel vm') vm test

-- `mem_to_swap (f->supp_entry)` of evict_frame, where the page has to be kept
pub keep_page : Vm → (entry : ℕ) → (keep : Bool) → Option Vm
keep_page vm entry false = some vm
keep_page vm entry true = do
  (area', e) ← mem_to_swap vm.area vm.memory (vm.entries entry)
  some (record vm { area = area'; entries = λ x. if x == entry then e else vm.entries x })

-- evict_frame, of the frame at the index
pub evict_frame : Vm → (i : ℕ) → Frame → (vaddr : ℕ) → Option Vm
evict_frame vm i f vaddr = do
  entry ← f.supp_entry
  owner ← f.owner
  vm1 ← keep_page vm entry ((vm.entries entry).stack || vm.dirty owner vaddr)
  let gone = record (vm1.entries entry) { paddr = none; index = none }
  some (record vm1 {
    entries = λ x. if x == entry then gone else vm1.entries x;
    mapped = set_at vm1.mapped owner vaddr none;
    frame_table = set vm1.frame_table i (record f { vaddr = none });
  })

-- The value -1 of a size_t.
abbrev pub no_offset : ℕ
no_offset = 2 ^ 32 - 1

-- pagedir_set_page of userprog/pagedir.c, where a page table can be had: the address has no page, and
-- its bits are cleared.
pub pagedir_set_page : Vm → (owner vaddr : ℕ) → Mapping → Option Vm
pagedir_set_page vm owner vaddr m = elim (vm.mapped owner vaddr) [
  | some old ↦ none
  | none ↦ some (record vm {
    mapped = set_at vm.mapped owner vaddr (some m);
    accessed = set_at vm.accessed owner vaddr false;
    dirty = set_at vm.dirty owner vaddr false;
  })
]

-- insert_page, into the frame at `clock_hand`
pub insert_page : Vm → Frame → (entry : ℕ) → Option Vm
unfolding pagedir_set_page
insert_page vm f entry = do
  let e = vm.entries entry
  let placed = record e {
    paddr = some f.paddr;
    sector_offset = if e.swap then e.sector_offset else no_offset;
    swap = false;
    index = some vm.clock_hand;
  }
  let taken = record f { vaddr = some e.vaddr; owner = some vm.current; supp_entry = some entry }
  let vm1 = record vm {
    frame_table = set vm.frame_table vm.clock_hand taken;
    entries = λ x. if x == entry then placed else vm.entries x;
  }
  vm2 ← pagedir_set_page vm1 vm.current e.vaddr (record { frame = f.paddr; writable = e.write })
  some (record vm2 { accessed = set_at vm2.accessed vm.current e.vaddr true })

-- `if (evicted->vaddr != NULL) evict_frame (evicted)`
pub make_room : Vm → Frame → (vaddr : Option ℕ) → Option Vm
make_room vm f none = some vm
make_room vm f (some v) = evict_frame vm vm.clock_hand f v

-- insert_page_into_frame
pub insert_page_into_frame : Vm → (entry : ℕ) → Option Vm
unfolding clock_algorithm make_room evict_frame insert_page
insert_page_into_frame vm entry = do
  vm1 ← clock_algorithm (length vm.frame_table + 1) vm
  evicted ← get_elem? vm1.frame_table vm1.clock_hand
  vm2 ← make_room vm1 evicted evicted.vaddr
  f ← get_elem? vm2.frame_table vm2.clock_hand
  vm3 ← insert_page vm2 f entry
  some (record vm3 { clock_hand = next_hand vm3 })

-- The frame at the index is empty.
pub emptied : List Frame → (i : ℕ) → Option Frame → List Frame
emptied frames i none = frames
emptied frames i (some f) =
    set frames i (record f { vaddr = none; owner = none; supp_entry = none })

-- free_page, of an entry with its index
pub free_page : Vm → (entry : ℕ) → (index : Option ℕ) → Vm
unfolding emptied
free_page vm entry none = vm
free_page vm entry (some i) =
    if ltb i (length vm.frame_table)
    then (record vm {
      mapped = set_at vm.mapped vm.current (vm.entries entry).vaddr none;
      frame_table = emptied vm.frame_table i (get_elem? vm.frame_table i);
    })
    else vm
