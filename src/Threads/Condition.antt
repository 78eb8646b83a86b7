-- ===== src/Threads/Condition.antt =====
-- The condition variables of threads/synch.c in CS439/Project1. A condition is the list of its
-- waiters, whose semaphores stand on the stacks of the threads that wait.
use utcs.Prelude.{
  ℕ, Bool, true, false, not, List, [], ◌∷◌, Option, some, if◌then◌else◌, ltb, ◌>>=◌, ◌>>◌, check,
}
use utcs.KernelList.{insert_ordered}
use utcs.Threads.{Kernel, SemaAt, priority_of}
use utcs.Threads.Schedule.{thread_current}
use utcs.Threads.Semas.{sema_init, sema_down, sema_up}
use utcs.Threads.Locks.{lock_held_by_current_thread, lock_acquire, lock_release}

-- struct semaphore_elem, of a thread's stack
pub record Waiter : Type 0 where
  pub thread : ℕ
  pub priority : ℕ

-- less_priority_cond
abbrev pub less_priority_cond : Waiter → Waiter → Bool
less_priority_cond a b = ltb b.priority a.priority

-- cond_wait up to the release of the lock, after which another thread may run.
pub cond_wait : Kernel → (waiters : List Waiter) → (lock : ℕ) → Option (List Waiter × Kernel)
cond_wait k waiters lock = do
  check (not k.intr_context)
  held ← lock_held_by_current_thread k lock
  check held
  cur ← thread_current k
  let waiter : Waiter = record { thread = cur; priority = priority_of k cur }
  let waiters' = insert_ordered less_priority_cond waiters waiter
  k' ← lock_release (sema_init k (SemaAt.of_waiter cur) 0) lock
  some (waiters', k')

-- The rest of cond_wait, for the thread when it runs again: the semaphore, and then the lock.
pub cond_resume : Kernel → (lock : ℕ) → Option (Bool × Kernel)
cond_resume k lock = do
  cur ← thread_current k
  (woken, k') ← sema_down k (SemaAt.of_waiter cur)
  if woken then lock_acquire k' lock else some (false, k')

-- cond_signal behind its assertions
pub signal_front : Kernel → (waiters : List Waiter) → Option (List Waiter × Kernel)
signal_front k [] = some ([], k)
signal_front k (w ∷ rest) = do k' ← sema_up k (SemaAt.of_waiter w.thread); some (rest, k')

-- cond_signal
pub cond_signal : Kernel → (waiters : List Waiter) → (lock : ℕ) → Option (List Waiter × Kernel)
unfolding signal_front
cond_signal k waiters lock = do
  check (not k.intr_context)
  held ← lock_held_by_current_thread k lock
  check held
  signal_front k waiters

-- One round of the loop of cond_broadcast, and whether there was one.
pub cond_broadcast :
    Kernel → (waiters : List Waiter) → (lock : ℕ) → Option (Bool × List Waiter × Kernel)
unfolding cond_signal
cond_broadcast k [] lock = some (false, [], k)
cond_broadcast k (w ∷ rest) lock = do
  (waiters', k') ← cond_signal k (w ∷ rest) lock
  some (true, waiters', k')
