-- ===== src/Threads/Donation.antt =====
-- donate of threads/synch.c in CS439/Project1.
mod Give
pub mod Chain
use utcs.Prelude.{
  ℕ, zero, suc, Bool, true, false, List, Option, none, some, if◌then◌else◌, ltb, ◌>>=◌,
}
use utcs.Threads.{Kernel, Lock, set_lock, set_priority, priority_of}
use utcs.Threads.Schedule.{thread_current}

-- Is the priority greater than the donation, which may be -1?
abbrev pub above_donation : (priority : ℕ) → Option ℕ → Bool
above_donation priority none = true
above_donation priority (some donation) = ltb donation priority

-- The body of donate behind its test, but for the recursive call: the holder and then the lock get
-- the priority of the running thread.
pub give : Kernel → (cur lock holder : ℕ) → Kernel
give k cur lock holder =
    let p = priority_of k cur in
    let k1 = set_priority k holder p in
    let l = k1.locks lock in
    if above_donation p l.highest_donation
    then set_lock k1 lock (record l { highest_donation = some p })
    else k1

-- The recursive call of donate, on the lock that the holder waits for, if any.
pub donate_on : (donate : Kernel → ℕ → Option Kernel) → Kernel → Option ℕ → Option Kernel
donate_on donate k none = some k
donate_on donate k (some lock) = donate k lock

-- donate, with fuel for its recursive call; a lock with no holder is a NULL pointer.
pub donate : (fuel : ℕ) → Kernel → (cur lock : ℕ) → Option Kernel
unfolding give donate_on
donate zero k cur lock = none
donate (suc fuel) k cur lock = do
  holder ← (k.locks lock).holder
  let k' = give k cur lock holder
  let further = donate_on (λ k'' next. donate fuel k'' cur next) k' (k'.threads holder).waiting_lock
  if ltb (priority_of k holder) (priority_of k cur) then further else some k
