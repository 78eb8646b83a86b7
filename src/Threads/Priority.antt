-- ===== src/Threads/Priority.antt =====
-- thread_set_priority of threads/thread.c in CS439/Project1.
pub mod Change
use utcs.Prelude.{
  ℕ, ◌+◌, Bool, true, false, List, [], ◌∷◌, Option, none, some, if◌then◌else◌, ltb, length, ◌>>=◌,
}
use utcs.Threads.{Kernel, set_lock, set_priority, priority_of}
use utcs.Threads.Schedule.{thread_current, thread_yield}
use utcs.Threads.Donation.{donate}

-- The loop over the locks that the thread holds.
pub set_old_priorities : Kernel → List ℕ → (new_priority : ℕ) → Kernel
set_old_priorities k [] p = k
set_old_priorities k (l ∷ rest) p =
    set_old_priorities (set_lock k l (record (k.locks l) { old_priority = some p })) rest p

-- The new priority, or the donated one where the thread holds a lock and that one is not lower.
pub assign_priority : Kernel → (curr : ℕ) → (locks : List ℕ) → (new_priority : ℕ) → Kernel
unfolding set_old_priorities
assign_priority k curr [] p = set_priority k curr p
assign_priority k curr (l ∷ rest) p =
    let k1 = set_old_priorities k (l ∷ rest) p in
    if ltb (priority_of k1 curr) p then set_priority k1 curr p else k1

-- `if (curr->waiting_lock != NULL)`
pub donate_waiting : Kernel → (curr : ℕ) → (waiting_lock : Option ℕ) → Option Kernel
donate_waiting k curr none = some k
donate_waiting k curr (some lock) = donate (length k.all_list + 1) k curr lock

-- The end of thread_set_priority: the thread makes way for the front of the ready list.
pub yield_to_front : Kernel → List ℕ → (new_priority : ℕ) → Option Kernel
yield_to_front k [] p = some k
yield_to_front k (t ∷ rest) p = if ltb p (priority_of k t) then thread_yield k else some k

-- thread_set_priority
pub thread_set_priority : Kernel → (new_priority : ℕ) → Option Kernel
thread_set_priority k p = do
  curr ← thread_current k
  let k1 = assign_priority k curr (k.threads curr).locks p
  k2 ← donate_waiting k1 curr (k1.threads curr).waiting_lock
  yield_to_front k2 k2.ready_list p
