-- ===== src/Threads/Locks/Inversion.antt =====
-- The donation of lock_acquire in threads/synch.c of CS439/Project1: no thread waits for a lock that
-- a thread of lower priority holds.
use mathlib.Core.List.{Mem}
use utcs.Prelude.{
  ℕ, ◌+◌, ◌≤◌, ◌≡◌, sym, ◌∙◌, subst, some, some_inj, ◌==◌, ==_iff, ==_refl, length, arith,
  Bool-cases, inl, inr, ◌⊎◌,
}
use utcs.Threads.{Kernel, set_thread, priority_of}
use utcs.Threads.Donation.Chain.{Held, Linked, Donated, donate_lem}
use utcs.Threads.Locks.{lock_donate}

-- A thread that waits for a lock has no higher priority than the thread that holds it.
pub record NoInversion (k : Kernel) : Type 0 where
  pub kept :
      (t l h : ℕ)
      → (k.threads t).waiting_lock ≡ some l
      → (k.locks l).holder ≡ some h
      → priority_of k t ≤ priority_of k h

-- The running thread waits for the lock.
abbrev pub waits_for : Kernel → (cur lock : ℕ) → Kernel
waits_for k cur lock = set_thread k cur (record (k.threads cur) { waiting_lock = some lock })

priority-waits_for :
    (k : Kernel) (cur lock t : ℕ) → priority_of (waits_for k cur lock) t ≡ priority_of k t
priority-waits_for k cur lock t = ground (arith, ==_iff t cur)

waiting-waits_for :
    (k : Kernel) (cur lock t l : ℕ)
    → ((waits_for k cur lock).threads t).waiting_lock ≡ some l
    → ((t ≡ cur) × (l ≡ lock)) ⊎ ((k.threads t).waiting_lock ≡ some l)
waiting-waits_for k cur lock t l w = elim (Bool-cases (t == cur)) [
  | inl e ↦ inl ((==_iff t cur).0 e, some_inj (sym (rw e at w)))
  | inr e ↦ inr (rw e at w)
]

waits_for-Linked :
    (k : Kernel) (cur lock : ℕ) → Linked k → Held k lock → Linked (waits_for k cur lock)
waits_for-Linked k cur lock linked held t l w = elim (waiting-waits_for k cur lock t l w) [
  | inl (_, e) ↦ subst (Held k) (sym e) held
  | inr old ↦ linked t l old
]

-- After the donation, where it held for the other threads.
Donated-NoInversion :
    (k : Kernel) (cur lock : ℕ) (k' : Kernel)
    → NoInversion k
    → Donated (waits_for k cur lock) lock (priority_of (waits_for k cur lock) cur) k'
    → NoInversion k'
Donated-NoInversion k cur lock k' n d = record {
  kept = λ t l h w e.
      let w1 = sym (d.waits t) ∙ w in
      let e1 = sym (d.holders l) ∙ e in
      elim (waiting-waits_for k cur lock t l w1) [
        | inl (t_cur, l_lock) ↦
            let up = d.first h (rw l_lock at e1) in rw t_cur (ground (arith, d.rises cur, up))
        | inr old ↦
            let before = n.kept t l h old e1 in
            ground (
              arith,
              d.rises t,
              d.rises h,
              before,
              d.passed t l h,
              w1,
              e1,
              priority-waits_for k cur lock t,
              priority-waits_for k cur lock h,
            )
      ];
}

-- What lock_acquire does before it waits for a lock that another thread holds, where every lock that
-- a thread waits for, and this one, is held by one of the kernel's threads: if no thread waits for a
-- lock that a thread of lower priority holds, then the donation ends, that is so again with the
-- running thread waiting for the lock, and no priority has fallen.
pub lock_donate-NoInversion :
    (k : Kernel) (cur lock h : ℕ)
    → (k.locks lock).holder ≡ some h
    → Mem h k.all_list
    → Linked k
    → NoInversion k
    → (k' : Kernel) × (lock_donate k cur lock (some h) ≡ some k')
      × NoInversion k'
      × ((k'.threads cur).waiting_lock ≡ some lock)
      × ((t : ℕ) → priority_of k t ≤ priority_of k' t)
unfolding lock_donate
lock_donate-NoInversion k cur lock h held m linked n =
    let (k', e, d) =
      donate_lem (length k.all_list + 1) (waits_for k cur lock) cur lock
        (waits_for-Linked k cur lock linked (h, held, m)) (h, held, m) (omega arith) in
    (
      k',
      e,
      Donated-NoInversion k cur lock k' n d,
      d.waits cur ∙ rw (==_refl cur),
      λ t. ground (arith, d.rises t, priority-waits_for k cur lock t),
    )
