-- ===== src/Threads/Locks/Release.antt =====
-- lock_release of threads/synch.c in CS439/Project1 by a thread that a waiter gave its priority.
use utcs.Prelude.{
  ℕ, ◌+◌, ◌<◌, ◌≡◌, refl, ap, ◌∙◌, true, false, [], ◌∷◌, none, some, ◌==◌, ==_refl, List, arith,
  ==_iff, ne→==_false, ◌≢◌,
}
use utcs.Threads.{
  Kernel, SemaAt, is_running, is_blocked, priority_of, points_to, list_remove, set_status, ready,
  running, Status,
}
use utcs.Threads.Schedule.{thread_current}
use utcs.Threads.Schedule.Queue.{priority-set_status}
use utcs.Threads.Schedule.Yield.{Chosen, yielded, thread_yield_lem}
use utcs.Threads.Schedule.Unblock.{
  priority-yielded, not_both, unblocked, in_list, thread_unblock-thread_yield,
}
use utcs.Threads.Semas.{sema_up}
use utcs.Threads.Semas.Up.{signalled, semas-signalled, sema_up_one}
use utcs.Threads.Locks.{lock_release}
use utcs.Threads.Locks.RoundTrip.{left}

release_only :
    (k : Kernel) (lock p : ℕ)
    → is_running (k.threads k.current).status ≡ true
    → (k.locks lock).holder ≡ some k.current
    → (k.locks lock).old_priority ≡ some p
    → (k.threads k.current).locks ≡ lock ∷ []
    → lock_release k lock ≡ sema_up (left k lock p) (SemaAt.of_lock lock)
unfolding lock_release thread_current list_remove
release_only k lock p run held old mine =
    simp (run, held, old, mine, ==_refl k.current, ==_refl lock)

-- The lock's semaphore is up and nobody waits for it.
abbrev given_up : Kernel → (lock p : ℕ) → Kernel
given_up k lock p = signalled (left k lock p) (SemaAt.of_lock lock) []

-- The state in which the waiter is ready and the running thread has its old priority.
abbrev handed_on : Kernel → (lock p t : ℕ) → Kernel
handed_on k lock p t = unblocked (given_up k lock p) t

left-running :
    (k : Kernel) (lock p : ℕ)
    → is_running (k.threads k.current).status ≡ true
    → is_running ((left k lock p).threads k.current).status ≡ true
left-running k lock p run = rw (==_refl k.current) run

priority-given_up : (k : Kernel) (lock p : ℕ) → priority_of (given_up k lock p) k.current ≡ p
priority-given_up k lock p = rw (==_refl k.current, priority_of) refl

priority-given_up_other :
    (k : Kernel) (lock p t : ℕ)
    → (t == k.current) ≡ false
    → priority_of (given_up k lock p) t ≡ priority_of k t
priority-given_up_other k lock p t other = rw (other, priority_of) refl

locks-set_status :
    (k : Kernel) (t : ℕ) (s : Status) (u : ℕ)
    → ((set_status k t s).threads u).locks ≡ (k.threads u).locks
locks-set_status k t s u = ground (arith, ==_iff u t)

locks-yielded :
    (k : Kernel) (next : ℕ) (rest : List ℕ) (u : ℕ)
    → ((yielded k next rest).threads u).locks ≡ (k.threads u).locks
locks-yielded k next rest u =
    locks-set_status (record (set_status k k.current ready) { ready_list = rest; current = next })
      next running u
    ∙ locks-set_status k k.current ready u

-- What lock_release leaves: the one candidate of highest priority runs, the thread that called it has
-- its old priority and holds no lock, the lock has no holder, and nobody waits for it.
pub record HandsOn (k : Kernel) (lock p t : ℕ) (k' : Kernel) : Type 0 where
  pub next : ℕ
  pub rest : List ℕ
  pub is_next : k'.current ≡ next
  pub chosen : Chosen (handed_on k lock p t) next rest
  pub priority : priority_of k' k.current ≡ p
  pub no_lock : (k'.threads k.current).locks ≡ []
  pub lock_is :
      k'.locks lock ≡ record { holder = none; highest_donation = none; old_priority = none }
  pub sema :
      k'.semas (SemaAt.of_lock lock)
      ≡ record { value = (k.semas (SemaAt.of_lock lock)).value + 1; waiters = [] }

yielded-HandsOn :
    (k : Kernel) (lock p t next : ℕ) (rest : List ℕ)
    → Chosen (handed_on k lock p t) next rest
    → HandsOn k lock p t (yielded (handed_on k lock p t) next rest)
yielded-HandsOn k lock p t next rest chosen =
    let K = given_up k lock p in
    record {
      next = next;
      rest = rest;
      is_next = refl;
      chosen = chosen;
      priority =
          ap (λ (f : ℕ → ℕ). f k.current)
            (priority-yielded (handed_on k lock p t) next rest
              ∙ priority-set_status (in_list K t) t ready)
          ∙ priority-given_up k lock p;
      no_lock =
          locks-yielded (handed_on k lock p t) next rest k.current
          ∙ locks-set_status (in_list K t) t ready k.current
          ∙ rw (==_refl k.current) refl;
      lock_is = rw (==_refl lock) refl;
      sema = semas-signalled (left k lock p) (SemaAt.of_lock lock) [];
    }

-- lock_release, outside of a handler, of its only lock by a running thread that is not the idle
-- thread, while one blocked thread waits for the lock whose priority is above the one that the
-- lock had found in its holder (old_priority), so that the holder may have been given a higher
-- one since: it ends; the caller has that old priority again and no lock, the lock has no holder,
-- nobody waits for it and its semaphore is up, and of the caller and the ready threads, the
-- waiter among them, the first by priority runs.
pub lock_release_donated :
    (k : Kernel) (lock p t : ℕ)
    → is_running (k.threads k.current).status ≡ true
    → k.intr_context ≡ false
    → points_to k.idle_thread k.current ≡ false
    → (k.locks lock).holder ≡ some k.current
    → (k.locks lock).old_priority ≡ some p
    → (k.threads k.current).locks ≡ lock ∷ []
    → (k.semas (SemaAt.of_lock lock)).waiters ≡ t ∷ []
    → is_blocked (k.threads t).status ≡ true
    → p < priority_of k t
    → (k' : Kernel) × (lock_release k lock ≡ some k') × HandsOn k lock p t k'
lock_release_donated k lock p t run ctx not_idle held old mine waits b outranks =
    let other : (t == k.current) ≡ false = ne→==_false _ _ (λ e. apart e) in
    let K = given_up k lock p in
    let still = left-running k lock p run in
    let (next, rest, e, chosen) =
      thread_yield_lem (handed_on k lock p t) (rw (not_both K t k.current still (rw other b)) still)
        ctx in
    (
      yielded (handed_on k lock p t) next rest,
      release_only k lock p run held old mine
          ∙ sema_up_one (left k lock p) (SemaAt.of_lock lock) t waits
          ∙ thread_unblock-thread_yield K t still (rw other b) ctx not_idle (
              omega (
                arith,
                priority-given_up k lock p,
                priority-given_up_other k lock p t other,
                outranks,
              ))
          ∙ e,
      yielded-HandsOn k lock p t next rest chosen,
    )
  where
    apart : t ≢ k.current
    apart e = cc (==_refl k.current, not_both k t k.current run b, e)
