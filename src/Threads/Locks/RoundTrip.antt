-- ===== src/Threads/Locks/RoundTrip.antt =====
-- lock_acquire and lock_release of threads/synch.c in CS439/Project1, for a lock that is free.
use utcs.Prelude.{ℕ, ◌-◌, ◌≡◌, refl, ◌∙◌, ap, true, false, [], ◌∷◌, none, some, ◌==◌, ==_refl}
use utcs.KernelList.{insert_ordered}
use utcs.Threads.{
  Kernel, Lock, Semaphore, SemaAt, is_running, set_lock, set_thread, set_sema, priority_of,
  list_remove,
}
use utcs.Threads.Schedule.{thread_current}
use utcs.Threads.Semas.{sema_down_up}
use utcs.Threads.Semas.Up.{raised, sema_up_none}
use utcs.Threads.Locks.{lock_acquired, lock_wait, lock_donate, lock_acquire, lock_release}

-- The lock's semaphore is taken.
abbrev pub taken : Kernel → (lock : ℕ) → Kernel
taken k lock =
    set_sema k (SemaAt.of_lock lock)
      (record (k.semas (SemaAt.of_lock lock)) { value = (k.semas (SemaAt.of_lock lock)).value - 1 })

lock_donate-none : (k : Kernel) (cur lock : ℕ) → lock_donate k cur lock none ≡ some k
unfolding lock_donate
lock_donate-none k cur lock = refl

acquire_wait :
    (k : Kernel) (lock : ℕ)
    → is_running (k.threads k.current).status ≡ true
    → k.intr_context ≡ false
    → (k.locks lock).holder ≡ none
    → lock_acquire k lock ≡ lock_wait k lock
unfolding lock_acquire thread_current
acquire_wait k lock run ctx free = simp (run, ctx, free, lock_donate-none)

wait_free :
    (k : Kernel) (lock : ℕ)
    → is_running (k.threads k.current).status ≡ true
    → k.intr_context ≡ false
    → ((k.semas (SemaAt.of_lock lock)).value == 0) ≡ false
    → lock_wait k lock ≡ some (true, lock_acquired (taken k lock) k.current lock)
unfolding lock_wait thread_current
wait_free k lock run ctx up = rw (run, sema_down_up k (SemaAt.of_lock lock) run ctx up) refl

-- The lock that the running thread leaves with the priority `p`.
abbrev pub left : Kernel → (lock p : ℕ) → Kernel
left k lock p =
    set_lock (set_thread k k.current (record (k.threads k.current) { locks = []; priority = p }))
      lock (record { holder = none; highest_donation = none; old_priority = none })

-- lock_release of the only lock of the running thread, for which nobody waits.
release_last :
    (k : Kernel) (lock p : ℕ)
    → is_running (k.threads k.current).status ≡ true
    → (k.locks lock).holder ≡ some k.current
    → (k.locks lock).old_priority ≡ some p
    → (k.threads k.current).locks ≡ lock ∷ []
    → (k.semas (SemaAt.of_lock lock)).waiters ≡ []
    → lock_release k lock ≡ some (raised (left k lock p) (SemaAt.of_lock lock))
unfolding lock_release thread_current list_remove
release_last k lock p run held old mine nobody =
    simp (run, held, old, mine, ==_refl k.current, ==_refl lock)
      (sema_up_none (left k lock p) (SemaAt.of_lock lock) nobody)

-- What holds of the lock and the running thread behind lock_acquire.
record Acquired (k : Kernel) (lock : ℕ) (k1 : Kernel) : Type 0 where
  runs : k1.current ≡ k.current
  still : is_running (k1.threads k1.current).status ≡ true
  lock_is : k1.locks lock ≡ record {
    holder = some k1.current;
    highest_donation = some (priority_of k k.current);
    old_priority = some (priority_of k k.current);
  }
  mine : (k1.threads k1.current).locks ≡ lock ∷ []
  sema : k1.semas (SemaAt.of_lock lock) ≡ record { value = 0; waiters = [] }

acquired :
    (k : Kernel) (lock : ℕ)
    → is_running (k.threads k.current).status ≡ true
    → (k.threads k.current).locks ≡ []
    → k.semas (SemaAt.of_lock lock) ≡ record { value = 1; waiters = [] }
    → Acquired k lock (lock_acquired (taken k lock) k.current lock)
unfolding lock_acquired insert_ordered
acquired k lock run none_held free = record {
  runs = refl;
  still = rw (==_refl k.current) run;
  lock_is = rw (==_refl lock);
  mine = rw (==_refl k.current, none_held);
  sema = rw (==_refl lock, free);
}

-- What holds when the lock is released again.
record Released (lock p cur : ℕ) (k2 : Kernel) : Type 0 where
  priority : priority_of k2 cur ≡ p
  locks : (k2.threads cur).locks ≡ []
  lock_is : k2.locks lock ≡ record { holder = none; highest_donation = none; old_priority = none }
  sema : k2.semas (SemaAt.of_lock lock) ≡ record { value = 1; waiters = [] }

released :
    (k : Kernel) (lock p : ℕ)
    → k.semas (SemaAt.of_lock lock) ≡ record { value = 0; waiters = [] }
    → Released lock p k.current (raised (left k lock p) (SemaAt.of_lock lock))
released k lock p s = record {
  priority = rw (==_refl k.current, priority_of);
  locks = rw (==_refl k.current);
  lock_is = rw (==_refl lock);
  sema = rw (==_refl lock, s);
}

release-Acquired :
    (k : Kernel) (lock : ℕ) (k1 : Kernel)
    → Acquired k lock k1
    → (k2 : Kernel) × (lock_release k1 lock ≡ some k2)
      × Released lock (priority_of k k.current) k1.current k2
release-Acquired k lock k1 a = (
  raised (left k1 lock (priority_of k k.current)) (SemaAt.of_lock lock),
  release_last k1 lock (priority_of k k.current) a.still (ap (λ (l : Lock). l.holder) a.lock_is)
      (ap (λ (l : Lock). l.old_priority) a.lock_is) a.mine
      (ap (λ (s : Semaphore). s.waiters) a.sema),
  released k1 lock (priority_of k k.current) a.sema,
)

-- A running thread outside of a handler that holds no lock and acquires one that is free, with
-- nobody waiting for it, holds it; where it releases the lock at once, it has its own priority, holds
-- no lock, and the lock is free again.
lock_release-lock_acquire :
    (k : Kernel) (lock : ℕ)
    → is_running (k.threads k.current).status ≡ true
    → k.intr_context ≡ false
    → (k.threads k.current).locks ≡ []
    → (k.locks lock).holder ≡ none
    → k.semas (SemaAt.of_lock lock) ≡ record { value = 1; waiters = [] }
    → (k1 : Kernel) × (lock_acquire k lock ≡ some (true, k1))
      × (k1.current ≡ k.current)
      × ((k1.locks lock).holder ≡ some k.current)
      × ((k2 : Kernel) × (lock_release k1 lock ≡ some k2)
          × Released lock (priority_of k k.current) k1.current k2)
lock_release-lock_acquire k lock run ctx none_held free s =
    let a = acquired k lock run none_held s in
    (
      lock_acquired (taken k lock) k.current lock,
      acquire_wait k lock run ctx free ∙ wait_free k lock run ctx (rw s refl),
      a.runs,
      ap (λ (l : Lock). l.holder) a.lock_is ∙ ap (λ (n : ℕ). some n) a.runs,
      release-Acquired k lock (lock_acquired (taken k lock) k.current lock) a,
    )
