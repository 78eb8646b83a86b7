-- ===== src/Threads/Locks.antt =====
-- The locks of threads/synch.c in CS439/Project1.
pub mod Inversion
pub mod RoundTrip
pub mod Release
use utcs.Prelude.{
  ℕ, ◌+◌, Bool, true, false, not, List, [], ◌∷◌, Option, none, some, ◌==◌, if◌then◌else◌, ltb,
  length, ◌>>=◌, ◌>>◌, check,
}
use utcs.KernelList.{insert_ordered}
use utcs.Threads.{
  Kernel, Thread, Lock, SemaAt, set_lock, set_thread, priority_of, points_to, list_remove,
}
use utcs.Threads.Schedule.{thread_current}
use utcs.Threads.Semas.{sema_init, sema_down, sema_try_down, sema_up}
use utcs.Threads.Donation.{donate}

-- lock_init
pub lock_init : Kernel → (lock : ℕ) → Kernel
lock_init k lock =
    sema_init
      (set_lock k lock (record { holder = none; highest_donation = none; old_priority = none }))
      (SemaAt.of_lock lock) 1

-- lock_held_by_current_thread
unfoldable pub lock_held_by_current_thread : Kernel → (lock : ℕ) → Option Bool
lock_held_by_current_thread k lock = do
  cur ← thread_current k
  some (points_to (k.locks lock).holder cur)

-- less_priority_lock: by the highest donation, the greater first; -1 is less than all others.
abbrev pub less_priority_lock : (ℕ → Lock) → ℕ → ℕ → Bool
less_priority_lock locks a b = less_donation (locks b).highest_donation (locks a).highest_donation
  where
    less_donation : Option ℕ → Option ℕ → Bool
    less_donation x none = false
    less_donation none (some y) = true
    less_donation (some x) (some y) = ltb x y

-- lock_acquire behind sema_down
pub lock_acquired : Kernel → (cur lock : ℕ) → Kernel
lock_acquired k cur lock =
    let k1 = set_lock k lock (record (k.locks lock) { holder = some cur }) in
    let p = priority_of k cur in
    let mine = record (k1.threads cur) {
      waiting_lock = none;
      locks = insert_ordered (less_priority_lock k1.locks) (k1.threads cur).locks lock;
    } in
    set_lock (set_thread k1 cur mine) lock
      (record (k1.locks lock) { highest_donation = some p; old_priority = some p })

-- lock_acquire from sema_down on; a thread that blocked there goes on here when it runs again.
pub lock_wait : Kernel → (lock : ℕ) → Option (Bool × Kernel)
lock_wait k lock = do
  cur ← thread_current k
  (taken, k') ← sema_down k (SemaAt.of_lock lock)
  some (taken, if taken then lock_acquired k' cur lock else k')

-- `if (lock->holder != NULL)` of lock_acquire
pub lock_donate : Kernel → (cur lock : ℕ) → (holder : Option ℕ) → Option Kernel
lock_donate k cur lock none = some k
lock_donate k cur lock (some holder) =
    donate (length k.all_list + 1)
      (set_thread k cur (record (k.threads cur) { waiting_lock = some lock })) cur lock

-- lock_acquire
pub lock_acquire : Kernel → (lock : ℕ) → Option (Bool × Kernel)
lock_acquire k lock = do
  check (not k.intr_context)
  cur ← thread_current k
  check (not (points_to (k.locks lock).holder cur))
  k' ← lock_donate k cur lock (k.locks lock).holder
  lock_wait k' lock

-- lock_try_acquire
pub lock_try_acquire : Kernel → (lock : ℕ) → Option (Bool × Kernel)
lock_try_acquire k lock = do
  cur ← thread_current k
  check (not (points_to (k.locks lock).holder cur))
  let (success, k') = sema_try_down k (SemaAt.of_lock lock)
  let held = set_lock k' lock (record (k'.locks lock) { holder = some cur })
  some (success, if success then held else k')

-- The priority that lock_release leaves: the highest donation in the first lock that is still held.
pub released_priority : Kernel → (old : Option ℕ) → (locks : List ℕ) → Option ℕ
released_priority k old [] = old
released_priority k old (l ∷ rest) = (k.locks l).highest_donation

-- lock_release; a priority of -1 is not modelled.
pub lock_release : Kernel → (lock : ℕ) → Option Kernel
unfolding released_priority
lock_release k lock = do
  cur ← thread_current k
  check (points_to (k.locks lock).holder cur)
  locks' ← list_remove (k.threads cur).locks lock
  p ← released_priority k (k.locks lock).old_priority locks'
  let k1 = set_thread k cur (record (k.threads cur) { locks = locks'; priority = p })
  let k2 = set_lock k1 lock (record { holder = none; highest_donation = none; old_priority = none })
  sema_up k2 (SemaAt.of_lock lock)
