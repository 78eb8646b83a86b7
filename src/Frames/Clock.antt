-- ===== src/Frames/Clock.antt =====
-- clock_algorithm of vm/frame-table.c in CS439/Project3 ends, with a frame that may be taken.
use utcs.Prelude.{
  ℕ, zero, suc, ◌+◌, ◌≤◌, ◌<◌, ◌≡◌, refl, ◌∙◌, ap, Bool, true, false, ◌&&◌, List, [], ◌∷◌, Option,
  none, some, ◌==◌, ==_iff, ==_refl, if◌then◌else◌, some_inj, length, get_elem?, Bool-cases, inl,
  inr, ◌⊎◌, arith,
}
use utcs.Frames.{Frame, Vm, set_at, next_hand, passed_over, clock_algorithm}

-- The frame holds a page that was accessed.
abbrev pub is_accessed : (accessed : ℕ → ℕ → Bool) → (vaddr owner : Option ℕ) → Bool
is_accessed accessed none owner = false
is_accessed accessed (some v) none = false
is_accessed accessed (some v) (some o) = accessed o v

-- A frame that holds a page has an owner.
abbrev pub HasOwner : (vaddr owner : Option ℕ) → Type 0
HasOwner none owner = Unit
HasOwner (some v) none = ⊥
HasOwner (some v) (some o) = Unit

abbrev pub AllOwned : List Frame → Type 0
AllOwned [] = Unit
AllOwned (f ∷ rest) = HasOwner f.vaddr f.owner × AllOwned rest

-- How many frames hold a page that was accessed.
pub accessed_count : (ℕ → ℕ → Bool) → List Frame → ℕ
accessed_count accessed [] = 0
accessed_count accessed (f ∷ rest) =
    if is_accessed accessed f.vaddr f.owner
    then 1 + accessed_count accessed rest
    else accessed_count accessed rest

accessed_count-le-length :
    (accessed : ℕ → ℕ → Bool) (frames : List Frame) → accessed_count accessed frames ≤ length frames
unfolding accessed_count
accessed_count-le-length accessed [] = omega arith
accessed_count-le-length accessed (f ∷ rest) =
    ground (arith, accessed_count-le-length accessed rest)

frame_at :
    (frames : List Frame) (i : ℕ)
    → i < length frames
    → AllOwned frames
    → (f : Frame) × (get_elem? frames i ≡ some f) × HasOwner f.vaddr f.owner
frame_at [] i h all = absurd (omega arith)
frame_at (f ∷ rest) zero h (o, all) = (f, refl, o)
frame_at (f ∷ rest) (suc i) h (o, all) = frame_at rest i (omega arith) all

module _ (accessed : ℕ → ℕ → Bool) (o v : ℕ) where
  abbrev clear : ℕ → ℕ → Bool
  clear = set_at accessed o v false

  clear_le :
      (vaddr owner : Option ℕ)
      → is_accessed clear vaddr owner ≡ true
      → is_accessed accessed vaddr owner ≡ true
  clear_le none owner h = h
  clear_le (some w) none h = h
  clear_le (some w) (some p) h = ground arith

  count_le : (frames : List Frame) → accessed_count clear frames ≤ accessed_count accessed frames
  unfolding accessed_count
  count_le [] = omega arith
  count_le (f ∷ rest) = ground (arith, count_le rest, clear_le f.vaddr f.owner)

  at_page :
      {vaddr owner : Option ℕ}
      → vaddr ≡ some v
      → owner ≡ some o
      → is_accessed accessed vaddr owner ≡ accessed o v
  at_page ev eo = rw (ev, eo)

  cleared_page :
      {vaddr owner : Option ℕ}
      → vaddr ≡ some v
      → owner ≡ some o
      → is_accessed clear vaddr owner ≡ false
  cleared_page ev eo = rw (ev, eo, is_accessed) (rw (==_refl o, ==_refl v))

  count_lt :
      (frames : List Frame) (i : ℕ) (f : Frame)
      → get_elem? frames i ≡ some f
      → f.vaddr ≡ some v
      → f.owner ≡ some o
      → accessed o v ≡ true
      → accessed_count clear frames < accessed_count accessed frames
  unfolding accessed_count
  count_lt [] i f e ev eo a = absurd (cc e)
  count_lt (g ∷ rest) zero f e ev eo a =
      let gv : g.vaddr ≡ some v = ap (λ (x : Frame). x.vaddr) (some_inj e) ∙ ev in
      let go : g.owner ≡ some o = ap (λ (x : Frame). x.owner) (some_inj e) ∙ eo in
      let was = at_page gv go in
      let is = cleared_page gv go in rw (is, was, a) (omega (arith, count_le rest))
  count_lt (g ∷ rest) (suc i) f e ev eo a =
      ground (arith, count_lt rest i f e ev eo a, clear_le g.vaddr g.owner)

-- The frame at the hand may be taken: it is empty, or its page was not accessed.
pub record Found (vm vm' : Vm) : Type 0 where
  pub inside : vm'.clock_hand < length vm'.frame_table
  pub frame : Frame
  pub at_hand : get_elem? vm'.frame_table vm'.clock_hand ≡ some frame
  pub may_leave : is_accessed vm'.accessed frame.vaddr frame.owner ≡ false
  pub same_frames : vm'.frame_table ≡ vm.frame_table
  pub second_chance :
      (o v : ℕ)
      → (vm'.accessed o v ≡ vm.accessed o v)
        ⊎ ((vm.accessed o v ≡ true) × (vm'.accessed o v ≡ false))
  pub rest : vm' ≡ record vm { accessed = vm'.accessed; clock_hand = vm'.clock_hand }

-- A round: the frame may be taken, or its page is passed over.
clock_test :
    (accessed : ℕ → ℕ → Bool) (vaddr owner : Option ℕ)
    → HasOwner vaddr owner
    → ((passed_over accessed vaddr owner ≡ some none) × (is_accessed accessed vaddr owner ≡ false))
      ⊎ ((o : ℕ) × (v : ℕ) × (passed_over accessed vaddr owner ≡ some (some (o, v)))
          × (vaddr ≡ some v)
          × (owner ≡ some o)
          × (accessed o v ≡ true))
unfolding passed_over
clock_test accessed none owner h = inl (refl, refl)
clock_test accessed (some v) none h = absurd h
clock_test accessed (some v) (some o) h = elim (Bool-cases (accessed o v)) [
  | inl a ↦ inr (o, v, rw a, refl, refl, a)
  | inr a ↦ inl (rw a, a)
]

clock_stop :
    (fuel : ℕ) (vm : Vm) (f : Frame)
    → get_elem? vm.frame_table vm.clock_hand ≡ some f
    → passed_over vm.accessed f.vaddr f.owner ≡ some none
    → clock_algorithm (suc fuel) vm ≡ some vm
unfolding clock_algorithm
clock_stop fuel vm f e t = rw (e, clock_algorithm) (rw t)

abbrev passed : Vm → (o v : ℕ) → Vm
passed vm o v = record vm { accessed = set_at vm.accessed o v false; clock_hand = next_hand vm }

clock_next :
    (fuel : ℕ) (vm : Vm) (f : Frame) (o v : ℕ)
    → get_elem? vm.frame_table vm.clock_hand ≡ some f
    → passed_over vm.accessed f.vaddr f.owner ≡ some (some (o, v))
    → clock_algorithm (suc fuel) vm ≡ clock_algorithm fuel (passed vm o v)
unfolding clock_algorithm
clock_next fuel vm f o v e t = rw (e, clock_algorithm) (rw t)

here-Found :
    (vm : Vm) (f : Frame)
    → vm.clock_hand < length vm.frame_table
    → get_elem? vm.frame_table vm.clock_hand ≡ some f
    → is_accessed vm.accessed f.vaddr f.owner ≡ false
    → Found vm vm
here-Found vm f h e n = record {
  inside = h;
  frame = f;
  at_hand = e;
  may_leave = n;
  same_frames = refl;
  second_chance = λ o v. inl refl;
  rest = refl;
}

later-Found :
    (vm vm' : Vm) (o v : ℕ) → vm.accessed o v ≡ true → Found (passed vm o v) vm' → Found vm vm'
later-Found vm vm' o v a f = record {
  inside = f.inside;
  frame = f.frame;
  at_hand = f.at_hand;
  may_leave = f.may_leave;
  same_frames = f.same_frames;
  second_chance = λ p w. elim (Bool-cases (p == o && w == v)) [
    | inl h ↦
        let po : p ≡ o = (==_iff p o).0 (ground arith) in
        let wv : w ≡ v = (==_iff w v).0 (ground arith) in
        let was : vm.accessed p w ≡ true = rw (po, wv) a in
        inr (was, ground (arith, f.second_chance p w, h))
    | inr h ↦ ground (arith, f.second_chance p w, h)
  ];
  rest = f.rest;
}

next_inside :
    (vm : Vm) → vm.clock_hand < length vm.frame_table → next_hand vm < length vm.frame_table
next_inside vm h = grind arith

clock_below :
    (fuel : ℕ) (vm : Vm)
    → vm.clock_hand < length vm.frame_table
    → AllOwned vm.frame_table
    → accessed_count vm.accessed vm.frame_table < fuel
    → (vm' : Vm) × (clock_algorithm fuel vm ≡ some vm') × Found vm vm'
clock_below zero vm h all enough = absurd (omega arith)
clock_below (suc fuel) vm h all enough =
    let (f, e, owned) = frame_at vm.frame_table vm.clock_hand h all in
    elim (clock_test vm.accessed f.vaddr f.owner owned) [
      | inl (t, n) ↦ (vm, clock_stop fuel vm f e t, here-Found vm f h e n)
      | inr (o, v, t, fv, fo, a) ↦
          let less = count_lt vm.accessed o v vm.frame_table vm.clock_hand f e fv fo a in
          let (vm', e', found) =
            clock_below fuel (passed vm o v) (next_inside vm h) all (omega (arith, less, enough)) in
          (vm', clock_next fuel vm f o v e t ∙ e', later-Found vm vm' o v a found)
    ]

pub clock_algorithm_lem :
    (fuel : ℕ) (vm : Vm)
    → vm.clock_hand < length vm.frame_table
    → AllOwned vm.frame_table
    → length vm.frame_table < fuel
    → (vm' : Vm) × (clock_algorithm fuel vm ≡ some vm') × Found vm vm'
clock_algorithm_lem fuel vm h all enough =
    clock_below fuel vm h all
      (omega (arith, enough, accessed_count-le-length vm.accessed vm.frame_table))
