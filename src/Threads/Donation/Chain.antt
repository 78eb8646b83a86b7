-- ===== src/Threads/Donation/Chain.antt =====
-- donate of threads/synch.c in CS439/Project1: the chain of holders.
use mathlib.Core.List.{Mem}
use utcs.Prelude.{
  ℕ, zero, suc, ◌≤◌, ◌<◌, ◌≡◌, refl, sym, ◌∙◌, ap, subst, ltb→lt, true, false, none, some, some_inj,
  ltb, ◌==◌, ==_iff, ==_refl, length, arith, Bool-cases, Option-cases, inl, inr, ◌⊎◌,
}
use utcs.Threads.{Kernel, priority_of}
use utcs.Threads.Donation.{give, donate_on, donate}
use utcs.Threads.Donation.Give.{
  priority-give, waiting-give, holder-give, all_list-give, below, below_lt, below-le-length,
}

-- The lock is held by one of the kernel's threads.
abbrev pub Held : Kernel → (lock : ℕ) → Type 0
Held k l = (h : ℕ) × ((k.locks l).holder ≡ some h) × Mem h k.all_list

-- Every lock that a thread waits for is held.
abbrev pub Linked : Kernel → Type 0
Linked k = (t l : ℕ) → (k.threads t).waiting_lock ≡ some l → Held k l

-- What donating the priority `p` for `lock` does.
pub record Donated (k : Kernel) (lock p : ℕ) (k' : Kernel) : Type 0 where
  pub rises :
      (t : ℕ)
      → (priority_of k' t ≡ priority_of k t) ⊎ ((priority_of k t < p) × (priority_of k' t ≡ p))
  pub waits : (t : ℕ) → (k'.threads t).waiting_lock ≡ (k.threads t).waiting_lock
  pub holders : (l : ℕ) → (k'.locks l).holder ≡ (k.locks l).holder
  pub first : (h : ℕ) → (k.locks lock).holder ≡ some h → p ≤ priority_of k' h
  pub passed :
      (t l h : ℕ)
      → priority_of k t < priority_of k' t
      → (k.threads t).waiting_lock ≡ some l
      → (k.locks l).holder ≡ some h
      → p ≤ priority_of k' h

module _ (k : Kernel) (cur lock h : ℕ) (held : (k.locks lock).holder ≡ some h) where
  same_holder : (g : ℕ) → (k.locks lock).holder ≡ some g → g ≡ h
  same_holder g e = some_inj (sym e ∙ held)

  -- The holder's priority is high enough.
  nothing-Donated : priority_of k cur ≤ priority_of k h → Donated k lock (priority_of k cur) k
  nothing-Donated le = record {
    rises = λ t. inl refl;
    waits = λ t. refl;
    holders = λ l. refl;
    first = λ g e. rw (same_holder g e) le;
    passed = λ t l g lt w e. absurd (omega arith);
  }

  raised_only_h : (t : ℕ) → priority_of k t < priority_of (give k cur lock h) t → t ≡ h
  raised_only_h t lt = (==_iff t h).0 (ground (arith, priority-give k cur lock h t))

  give_rises :
      priority_of k h < priority_of k cur
      → (t : ℕ)
      → (priority_of (give k cur lock h) t ≡ priority_of k t)
        ⊎ ((priority_of k t < priority_of k cur)
            × (priority_of (give k cur lock h) t ≡ priority_of k cur))
  give_rises lt t = elim (Bool-cases (t == h)) [
    | inl e ↦ inr (rw ((==_iff t h).0 e) lt, priority-give k cur lock h t ∙ rw e)
    | inr e ↦ inl (priority-give k cur lock h t ∙ rw e)
  ]

  give_at : priority_of (give k cur lock h) h ≡ priority_of k cur
  give_at = priority-give k cur lock h h ∙ rw (==_refl h)

  -- The holder waits for no lock.
  last-Donated :
      priority_of k h < priority_of k cur
      → (k.threads h).waiting_lock ≡ none
      → Donated k lock (priority_of k cur) (give k cur lock h)
  last-Donated lt free = record {
    rises = give_rises lt;
    waits = waiting-give k cur lock h;
    holders = holder-give k cur lock h;
    first = λ g e. rw (same_holder g e) (omega (arith, give_at));
    passed = λ t l g up w e.
        absurd (cc (free, w, ap (λ (n : ℕ). (k.threads n).waiting_lock) (raised_only_h t up)));
  }

  -- The holder waits for `next`.
  further-Donated :
      (next : ℕ) (k' : Kernel)
      → priority_of k h < priority_of k cur
      → (k.threads h).waiting_lock ≡ some next
      → Donated (give k cur lock h) next (priority_of k cur) k'
      → Donated k lock (priority_of k cur) k'
  further-Donated next k' lt waits d = record {
    rises = λ t. ground (arith, d.rises t, give_rises lt t);
    waits = λ t. d.waits t ∙ waiting-give k cur lock h t;
    holders = λ l. d.holders l ∙ holder-give k cur lock h l;
    first = λ g e. rw (same_holder g e) (ground (arith, d.rises h, give_at));
    passed = λ t l g up w e. elim (Bool-cases (t == h)) [
      | inl q ↦
          let l_next : l ≡ next =
            some_inj
              (sym w ∙ (ap (λ (n : ℕ). (k.threads n).waiting_lock) ((==_iff t h).0 q) ∙ waits)) in
          d.first g (holder-give k cur lock h next ∙ (rw l_next at e))
      | inr q ↦
          d.passed t l g (ground (arith, up, q, priority-give k cur lock h t))
            (waiting-give k cur lock h t ∙ w) (holder-give k cur lock h l ∙ e)
    ];
  }

  give-Linked : Linked k → Linked (give k cur lock h)
  give-Linked linked t l w =
      let (g, e, m) = linked t l (sym (waiting-give k cur lock h t) ∙ w) in
      (g, holder-give k cur lock h l ∙ e, subst (Mem g) (sym (all_list-give k cur lock h)) m)

  give-Held : (l : ℕ) → Held k l → Held (give k cur lock h) l
  give-Held l (g, e, m) =
      (g, holder-give k cur lock h l ∙ e, subst (Mem g) (sym (all_list-give k cur lock h)) m)

  give_current :
      priority_of k h < priority_of k cur → priority_of (give k cur lock h) cur ≡ priority_of k cur
  give_current lt = ground (arith, priority-give k cur lock h cur, ==_iff cur h)

  -- One thread fewer can still be raised.
  give_below :
      priority_of k h < priority_of k cur
      → Mem h k.all_list
      → below
          (priority_of (give k cur lock h))
          (priority_of (give k cur lock h) cur)
          (give k cur lock h).all_list
        < below (priority_of k) (priority_of k cur) k.all_list
  give_below lt m =
      rw (give_current lt, all_list-give k cur lock h)
        (below_lt (priority_of k) (priority_of (give k cur lock h)) (priority_of k cur) h give_at
          (λ t e. priority-give k cur lock h t ∙ rw e) k.all_list m lt)

donate_stop :
    (fuel : ℕ) (k : Kernel) (cur lock h : ℕ)
    → (k.locks lock).holder ≡ some h
    → ltb (priority_of k h) (priority_of k cur) ≡ false
    → donate (suc fuel) k cur lock ≡ some k
unfolding donate
donate_stop fuel k cur lock h held stop = rw (held, donate) (rw stop)

donate_next :
    (fuel : ℕ) (k : Kernel) (cur lock h : ℕ)
    → (k.locks lock).holder ≡ some h
    → ltb (priority_of k h) (priority_of k cur) ≡ true
    → donate (suc fuel) k cur lock
      ≡ donate_on
          (λ k'' next. donate fuel k'' cur next)
          (give k cur lock h)
          ((give k cur lock h).threads h).waiting_lock
unfolding donate
donate_next fuel k cur lock h held more = rw (held, donate) (rw more)

donate_below :
    (fuel : ℕ) (k : Kernel) (cur lock : ℕ)
    → Linked k
    → Held k lock
    → below (priority_of k) (priority_of k cur) k.all_list < fuel
    → (k' : Kernel) × (donate fuel k cur lock ≡ some k') × Donated k lock (priority_of k cur) k'
unfolding donate_on
donate_below zero k cur lock linked held enough = absurd (omega arith)
donate_below (suc fuel) k cur lock linked (h, held, m) enough =
    elim (Bool-cases (ltb (priority_of k h) (priority_of k cur))) [
      | inr stop ↦ (
        k,
        donate_stop fuel k cur lock h held stop,
        nothing-Donated k cur lock h held (ground arith),
      )
      | inl more ↦
          let lt : priority_of k h < priority_of k cur = ltb→lt _ _ more in
          let rec = λ (next : ℕ) (held' : Held k next).
            subst
              (λ (p : ℕ).
                (k' : Kernel) × (donate fuel (give k cur lock h) cur next ≡ some k')
                × Donated (give k cur lock h) next p k')
              (give_current k cur lock h held lt)
              (donate_below fuel (give k cur lock h) cur next (give-Linked k cur lock h held linked)
                (give-Held k cur lock h held next held')
                (omega (arith, enough, give_below k cur lock h held lt m))) in
          further fuel k cur lock h held more lt linked rec
            (Option-cases (k.threads h).waiting_lock)
    ]
  where
    further :
        (fuel : ℕ) (k : Kernel) (cur lock h : ℕ) (held : (k.locks lock).holder ≡ some h)
        → ltb (priority_of k h) (priority_of k cur) ≡ true
        → priority_of k h < priority_of k cur
        → Linked k
        → ((next : ℕ)
            → Held k next
            → (k' : Kernel) × (donate fuel (give k cur lock h) cur next ≡ some k')
              × Donated (give k cur lock h) next (priority_of k cur) k')
        → ((k.threads h).waiting_lock ≡ none)
          ⊎ ((next : ℕ) × ((k.threads h).waiting_lock ≡ some next))
        → (k' : Kernel) × (donate (suc fuel) k cur lock ≡ some k')
          × Donated k lock (priority_of k cur) k'
    further fuel k cur lock h held more lt linked rec (inl free) = (
      give k cur lock h,
      donate_next fuel k cur lock h held more ∙ rw (waiting-give k cur lock h h ∙ free, donate_on),
      last-Donated k cur lock h held lt free,
    )
    further fuel k cur lock h held more lt linked rec (inr (next, waits)) =
        let (k', e, d) = rec next (linked h next waits) in
        (
          k',
          donate_next fuel k cur lock h held more
              ∙ rw (waiting-give k cur lock h h ∙ waits, donate_on) e,
          further-Donated k cur lock h held next k' lt waits d,
        )

-- donate ends, with one call more as fuel than the kernel has threads, if every lock that a thread
-- waits for, and `lock`, is held by one of them: a priority stays or rises from below that of the
-- running thread to it; the holder of `lock`, and the holder of each lock that a raised thread waits
-- for, have at least that priority; who holds a lock and who waits for it stays.
pub donate_lem :
    (fuel : ℕ) (k : Kernel) (cur lock : ℕ)
    → Linked k
    → Held k lock
    → length k.all_list < fuel
    → (k' : Kernel) × (donate fuel k cur lock ≡ some k') × Donated k lock (priority_of k cur) k'
donate_lem fuel k cur lock linked held enough =
    donate_below fuel k cur lock linked held
      (omega (arith, enough, below-le-length (priority_of k) (priority_of k cur) k.all_list))
