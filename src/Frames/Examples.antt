-- ===== src/Frames/Examples.antt =====
-- The clock, an eviction and an insertion at three frames, two of which hold pages that were accessed.
use utcs.Prelude.{
  ℕ, refl, zero, suc, sym, ap, some_inj, ◌==◌, if◌then◌else◌, ◌≡◌, false, [], ◌∷◌, Option, none,
  some, ltb, arith,
}
use utcs.Bitmap.Bits.{holds}
use utcs.Pages.Examples.{entry_for}
use utcs.Swap.RoundTrip.{taken}
use utcs.Frames.{Frame, Vm, insert_page_into_frame}
use utcs.Frames.Room.{Entered, AllEntered}
use utcs.Frames.Place.{Inserted}
use utcs.Frames.Insert.{insert_page_into_frame_lem}

abbrev frame_of : (paddr : ℕ) → (vaddr : Option ℕ) → Frame
frame_of paddr vaddr = record { paddr = paddr; vaddr = vaddr; owner = some 1; supp_entry = some 0 }

abbrev three_frames : Vm
three_frames = record {
  frame_table = frame_of 10 (some 1) ∷ frame_of 11 (some 2) ∷ frame_of 12 (some 3) ∷ [];
  clock_hand = 2;
  entries = λ x. entry_for x;
  mapped = λ o v. none;
  accessed = λ o v. ltb 1 v;
  dirty = λ o v. false;
  area = record {
    slot_map = record { bit_cnt = 16; bits = 0 ∷ [] };
    sectors = λ x. [];
    size = 128;
  };
  memory = λ p i. [];
  current = 1;
}

free_three : taken three_frames.area 3 ≡ false
unfolding holds
free_three = refl

-- The entry 7 is of a page that is in no frame.
abbrev with_new : Vm
with_new = record three_frames {
  entries =
      λ x. if x == 7 then record (entry_for 9) { paddr = none; index = none } else entry_for x;
}

frame_of-Entered :
    (paddr w : ℕ) (f : Frame) (v : ℕ)
    → some (frame_of paddr (some w)) ≡ some f
    → Entered with_new f v
frame_of-Entered paddr w f v e = record {
  owner = 1;
  is_owner = ap (λ (x : Frame). x.owner) (sym (some_inj e));
  entry = 0;
  is_entry = ap (λ (x : Frame). x.supp_entry) (sym (some_inj e));
  paddr = 5;
  is_paddr = refl;
}

all_entered : AllEntered with_new
all_entered zero f v e h = frame_of-Entered 10 1 f v e
all_entered (suc zero) f v e h = frame_of-Entered 11 2 f v e
all_entered (suc (suc zero)) f v e h = frame_of-Entered 12 3 f v e
all_entered (suc (suc (suc i))) f v e h = absurd (cc e)

insert_page_into_frame_lem_example :
    (vm' : Vm) × (insert_page_into_frame with_new 7 ≡ some vm') × Inserted with_new 7 vm'
insert_page_into_frame_lem_example =
    insert_page_into_frame_lem with_new 7 3 (omega arith) (tt, (tt, (tt, tt))) all_entered
      (record {
        valid = record { words = refl; small = omega arith };
        room = omega arith;
        small = omega arith;
      })
      (omega arith) free_three refl refl
