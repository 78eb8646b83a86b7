-- ===== src/Frames/Insert.antt =====
-- insert_page_into_frame of vm/frame-table.c in CS439/Project3: the clock, the eviction and insert_page
-- in their order.
use utcs.Prelude.{
  ℕ, ◌+◌, ◌<◌, ◌≡◌, refl, sym, ◌∙◌, ap, Bool, true, false, ◌||◌, Option, none, some, ==_refl,
  length, get_elem?, arith, length-set,
}
use utcs.Pages.{Spte}
use utcs.Swap.{SwapArea}
use utcs.Swap.RoundTrip.{IsArea, taken}
use utcs.Frames.{Frame, Vm, next_hand, insert_page, insert_page_into_frame}
use utcs.Frames.Clock.{AllOwned, clock_algorithm_lem}
use utcs.Frames.Evict.{Kept}
use utcs.Frames.Room.{AllEntered, Left, Ready, get_elem?-set_self, get_elem?-set_ne}
use utcs.Frames.Place.{
  holding, inserted, insert_ran, whole_ran, Inserted, pass_left, still_unmapped, ready,
  at_clock-Entered,
}

-- The frame at the hand is free: insert_page and the step of the hand.
module _ (vm : Vm) (a : ℕ → ℕ → Bool) (h : ℕ) where
  abbrev at_clock : Vm
  at_clock = record vm { accessed = a; clock_hand = h }

  abbrev stepped : Vm → Frame → (entry : ℕ) → Vm
  stepped vm2 f entry = record (inserted vm2 f entry) {
    clock_hand = next_hand (inserted vm2 f entry);
  }

  same-Kept :
      (keep : Bool) (p : ℕ) (e : Spte) (area : SwapArea)
      → Kept keep at_clock p e area
      → Kept keep vm p e area
  same-Kept true p e area k = k
  same-Kept false p e area k = k

  same_left :
      (frame : Frame) (w : Option ℕ) (vm2 : Vm) → Left at_clock frame w vm2 → Left vm frame w vm2
  same_left frame none vm2 l = l
  same_left frame (some v) vm2 (o, gone, p, eo, eg, m, q, k) = (
    o,
    gone,
    p,
    eo,
    eg,
    m,
    q,
    same-Kept ((vm.entries gone).stack || vm.dirty o v) p (vm2.entries gone) vm2.area k,
  )

  place_ran :
      (vm2 : Vm) (frame : Frame) (entry : ℕ)
      → vm.mapped vm.current (vm.entries entry).vaddr ≡ none
      → (r : Ready at_clock frame entry vm2)
      → insert_page vm2 r.frame entry ≡ some (inserted vm2 r.frame entry)
  place_ran vm2 frame entry u r = insert_ran vm2 r.frame entry (
      rw (r.current, r.same_entry, r.mapped)
        (still_unmapped vm.mapped frame.owner frame.vaddr vm.current (vm.entries entry).vaddr u))

  place_ready :
      (vm2 : Vm) (frame : Frame) (entry : ℕ)
      → (vm.entries entry).paddr ≡ none
      → get_elem? vm.frame_table h ≡ some frame
      → (r : Ready at_clock frame entry vm2) → Inserted vm entry (stepped vm2 r.frame entry)
  place_ready vm2 frame entry n e r = record {
    at = h;
    frame = frame;
    was_there = e;
    filled = (
      r.frame,
      rw (r.current, r.same_entry, r.hand)
          (get_elem?-set_self vm2.frame_table h r.frame
            (holding r.frame (vm.entries entry).vaddr vm.current entry)
            (ap (λ i. get_elem? vm2.frame_table i) (sym r.hand) ∙ r.at_hand)),
      r.same_paddr,
    );
    other_frames = λ j ne.
        rw r.hand (
          get_elem?-set_ne vm2.frame_table h j
            (holding r.frame (vm2.entries entry).vaddr vm2.current entry) ne)
        ∙ r.others j ne;
    in_frame = rw (==_refl entry, r.same_entry, r.same_paddr, r.hand);
    mapped = rw (r.mapped, r.current, r.same_entry, r.same_paddr) refl;
    hand = rw (
      length-set vm2.frame_table vm2.clock_hand
          (holding r.frame (vm2.entries entry).vaddr vm2.current entry),
      r.same_length,
      r.hand,
    );
    left =
        pass_left vm vm2 frame r.frame entry (next_hand (inserted vm2 r.frame entry)) frame.vaddr n
          (same_left frame frame.vaddr vm2 r.left);
  }

-- insert_page_into_frame, where the hand is at a frame, every frame that holds a page has an owner and
-- an entry that names a frame, the swap device has a free slot, the new entry names no frame and
-- its address has no page: it ends. The page is in one of the frames: the frame names the entry and
-- the entry the frame, the address is mapped to it, the page that was there is mapped no more and was
-- kept where it had to be, the other frames and mappings stay, and the hand is at the next frame.
pub insert_page_into_frame_lem :
    (vm : Vm) (entry free : ℕ)
    → vm.clock_hand < length vm.frame_table
    → AllOwned vm.frame_table
    → AllEntered vm
    → IsArea vm.area
    → free < vm.area.slot_map.bit_cnt
    → taken vm.area free ≡ false
    → (vm.entries entry).paddr ≡ none
    → vm.mapped vm.current (vm.entries entry).vaddr ≡ none
    → (vm' : Vm) × (insert_page_into_frame vm entry ≡ some vm') × Inserted vm entry vm'
insert_page_into_frame_lem vm entry free inside owned entered area in_map is_free n u =
    let (vm1, c, found) =
      clock_algorithm_lem (length vm.frame_table + 1) vm inside owned (omega arith) in
    let at = at_clock vm vm1.accessed vm1.clock_hand in
    let frame = found.frame in
    let e : get_elem? vm.frame_table vm1.clock_hand ≡ some frame =
      ap (λ t. get_elem? t vm1.clock_hand) (sym found.same_frames) ∙ found.at_hand in
    let (vm2, m, r) =
      ready at frame entry free e n
        (λ i f v g w. at_clock-Entered vm vm1.accessed vm1.clock_hand f v (entered i f v g w)) area
        in_map is_free in
    (
      stepped vm vm1.accessed vm1.clock_hand vm2 r.frame entry,
      whole_ran vm at vm2 frame r.frame entry (c ∙ ap some found.rest) e m r.at_hand
          (place_ran vm vm1.accessed vm1.clock_hand vm2 frame entry u r),
      place_ready vm vm1.accessed vm1.clock_hand vm2 frame entry n e r,
    )
