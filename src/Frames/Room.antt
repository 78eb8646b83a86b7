-- ===== src/Frames/Room.antt =====
-- The part of insert_page_into_frame of vm/frame-table.c in CS439/Project3 that empties the frame.
use utcs.Prelude.{
  ℕ, zero, suc, ◌<◌, ◌≡◌, refl, ◌∙◌, false, ◌||◌, List, [], ◌∷◌, Option, none, some, ◌==◌, ==_iff,
  length, get_elem?, set, Bool-cases, inl, inr, arith, length-set,
}
use utcs.Swap.RoundTrip.{IsArea, taken}
use utcs.Frames.{Frame, Mapping, Vm, set_at, make_room, evict_frame}
use utcs.Frames.Evict.{Kept, evict_frame_lem}

pub get_elem?-set_self :
    (xs : List Frame) (i : ℕ) (f g : Frame)
    → get_elem? xs i ≡ some f
    → get_elem? (set xs i g) i ≡ some g
get_elem?-set_self [] i f g e = absurd (cc e)
get_elem?-set_self (x ∷ xs) zero f g e = refl
get_elem?-set_self (x ∷ xs) (suc i) f g e = get_elem?-set_self xs i f g e

pub get_elem?-set_ne :
    (xs : List Frame) (i j : ℕ) (g : Frame)
    → (j == i) ≡ false
    → get_elem? (set xs i g) j ≡ get_elem? xs j
get_elem?-set_ne [] i j g h = refl
get_elem?-set_ne (x ∷ xs) zero zero g h = absurd (ground arith)
get_elem?-set_ne (x ∷ xs) zero (suc j) g h = refl
get_elem?-set_ne (x ∷ xs) (suc i) zero g h = refl
get_elem?-set_ne (x ∷ xs) (suc i) (suc j) g h = get_elem?-set_ne xs i j g (ground arith)

-- A frame that holds a page has an owner and an entry, which names a frame.
pub record Entered (vm : Vm) (f : Frame) (v : ℕ) : Type 0 where
  pub owner : ℕ
  pub is_owner : f.owner ≡ some owner
  pub entry : ℕ
  pub is_entry : f.supp_entry ≡ some entry
  pub paddr : ℕ
  pub is_paddr : (vm.entries entry).paddr ≡ some paddr

abbrev pub AllEntered : Vm → Type 0
AllEntered vm =
    (i : ℕ) (f : Frame) (v : ℕ)
    → get_elem? vm.frame_table i ≡ some f
    → f.vaddr ≡ some v
    → Entered vm f v

-- What is mapped without the page of a frame.
abbrev pub unmap : (ℕ → ℕ → Option Mapping) → (owner vaddr : Option ℕ) → ℕ → ℕ → Option Mapping
unmap mapped owner none = mapped
unmap mapped none (some v) = mapped
unmap mapped (some o) (some v) = set_at mapped o v none

-- The page that was in the frame, if any, was kept where it had to be, and its entry names no frame.
abbrev pub Left : (before : Vm) → Frame → (vaddr : Option ℕ) → (after : Vm) → Type 0
Left vm f none vm' = vm'.area ≡ vm.area
Left vm f (some v) vm' =
    (o : ℕ) × (entry : ℕ) × (p : ℕ) × (f.owner ≡ some o)
    × (f.supp_entry ≡ some entry)
    × ((vm.entries entry).paddr ≡ some p)
    × ((vm'.entries entry).paddr ≡ none)
    × Kept ((vm.entries entry).stack || vm.dirty o v) vm p (vm'.entries entry) vm'.area

-- The frame at the hand is free for the page of the entry.
pub record Ready (vm : Vm) (f : Frame) (entry : ℕ) (vm' : Vm) : Type 0 where
  pub frame : Frame
  pub at_hand : get_elem? vm'.frame_table vm'.clock_hand ≡ some frame
  pub same_paddr : frame.paddr ≡ f.paddr
  pub hand : vm'.clock_hand ≡ vm.clock_hand
  pub current : vm'.current ≡ vm.current
  pub same_entry : vm'.entries entry ≡ vm.entries entry
  pub mapped : vm'.mapped ≡ unmap vm.mapped f.owner f.vaddr
  pub others :
      (j : ℕ)
      → (j == vm.clock_hand) ≡ false
      → get_elem? vm'.frame_table j ≡ get_elem? vm.frame_table j
  pub same_length : length vm'.frame_table ≡ length vm.frame_table
  pub left : Left vm f f.vaddr vm'

module _ (vm : Vm) (f : Frame) where
  room_empty : {w : Option ℕ} → w ≡ none → make_room vm f w ≡ some vm
  unfolding make_room
  room_empty n = rw n refl

  room_evict :
      {w : Option ℕ} (v : ℕ) (vm' : Vm)
      → w ≡ some v
      → evict_frame vm vm.clock_hand f v ≡ some vm'
      → make_room vm f w ≡ some vm'
  unfolding make_room
  room_evict v vm' e r = rw e r

  left_empty : {w : Option ℕ} → w ≡ none → Left vm f w vm
  left_empty n = rw n refl

  left_page :
      {w : Option ℕ} (v : ℕ) (vm' : Vm) → w ≡ some v → Left vm f (some v) vm' → Left vm f w vm'
  left_page v vm' e l = rw e l

  unmap_empty : {w : Option ℕ} (o : Option ℕ) → w ≡ none → vm.mapped ≡ unmap vm.mapped o w
  unmap_empty o e = rw e refl

  unmap_page :
      {w q : Option ℕ} (o v : ℕ)
      → q ≡ some o
      → w ≡ some v
      → set_at vm.mapped o v none ≡ unmap vm.mapped q w
  unmap_page o v e h = rw (e, h) refl

pub room_none :
    (vm : Vm) (f : Frame) (entry : ℕ)
    → get_elem? vm.frame_table vm.clock_hand ≡ some f
    → f.vaddr ≡ none
    → (vm' : Vm) × (make_room vm f f.vaddr ≡ some vm') × Ready vm f entry vm'
room_none vm f entry e n = (
  vm,
  room_empty vm f n,
  record {
    frame = f;
    at_hand = e;
    same_paddr = refl;
    hand = refl;
    current = refl;
    same_entry = refl;
    mapped = unmap_empty vm f f.owner n;
    others = λ j ne. refl;
    same_length = refl;
    left = left_empty vm f n;
  },
)

-- An entry that names a frame is not one that names none.
pub other_entry :
    (vm : Vm) (entry gone p : ℕ)
    → (vm.entries gone).paddr ≡ some p
    → (vm.entries entry).paddr ≡ none
    → (entry == gone) ≡ false
other_entry vm entry gone p m n = elim (Bool-cases (entry == gone)) [
  | inl h ↦
      let e : entry ≡ gone = (==_iff entry gone).0 h in
      let q : (vm.entries entry).paddr ≡ some p = rw e m in absurd (cc (q, n))
  | inr h ↦ h
]

pub room_some :
    (vm : Vm) (f : Frame) (entry v free : ℕ)
    → get_elem? vm.frame_table vm.clock_hand ≡ some f
    → (vm.entries entry).paddr ≡ none
    → f.vaddr ≡ some v
    → Entered vm f v
    → IsArea vm.area
    → free < vm.area.slot_map.bit_cnt
    → taken vm.area free ≡ false
    → (vm' : Vm) × (make_room vm f f.vaddr ≡ some vm') × Ready vm f entry vm'
room_some vm f entry v free e n fv k area inside is_free =
    let (vm', r, x) =
      evict_frame_lem vm vm.clock_hand f v k.owner k.entry k.paddr free k.is_entry k.is_owner
        k.is_paddr area inside is_free in
    let gone = record f { vaddr = none } in
    (
      vm',
      room_evict vm f v vm' fv r,
      record {
        frame = gone;
        at_hand = rw (x.frames, x.hand) (get_elem?-set_self vm.frame_table vm.clock_hand f gone e);
        same_paddr = refl;
        hand = x.hand;
        current = x.current;
        same_entry = x.others entry (other_entry vm entry k.entry k.paddr k.is_paddr n);
        mapped = x.mapped ∙ unmap_page vm f k.owner v k.is_owner fv;
        others = λ j ne. rw x.frames (get_elem?-set_ne vm.frame_table vm.clock_hand j gone ne);
        same_length = rw x.frames (length-set vm.frame_table vm.clock_hand gone);
        left =
            left_page vm f v vm' fv
              (k.owner, k.entry, k.paddr, k.is_owner, k.is_entry, k.is_paddr, x.no_frame, x.kept);
      },
    )
