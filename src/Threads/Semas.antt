-- ===== src/Threads/Semas.antt =====
-- The semaphores of threads/synch.c in CS439/Project1.
pub mod Up
use utcs.Prelude.{
  ℕ, ◌+◌, ◌-◌, ◌≡◌, Bool, true, false, not, ◌&&◌, List, [], ◌∷◌, Option, none, some, ◌==◌,
  if◌then◌else◌, ltb, ◌>>=◌, ◌>>◌, check,
}
use utcs.KernelList.{insert_ordered, sort}
use utcs.Threads.{Kernel, Semaphore, SemaAt, set_sema, less_priority, priority_of, is_running}
use utcs.Threads.Schedule.{thread_current, thread_block, thread_unblock}

-- sema_init
abbrev pub sema_init : Kernel → SemaAt → (value : ℕ) → Kernel
sema_init k sema value = set_sema k sema (record { value = value; waiters = [] })

-- One round of the loop of sema_down. The answer says whether the semaphore was taken; if it was not
-- the thread is blocked, and when it runs again the next round is its next step.
pub sema_down : Kernel → SemaAt → Option (Bool × Kernel)
unfolding thread_current
sema_down k sema = do
  check (not k.intr_context)
  cur ← thread_current k
  let s = k.semas sema
  let queue = insert_ordered (less_priority (priority_of k)) s.waiters cur
  let wait = (do
    k' ← thread_block (set_sema k sema (record s { waiters = queue }))
    some (false, k'))
  let take = some (true, set_sema k sema (record s { value = s.value - 1 }))
  if s.value == 0 then wait else take

-- sema_try_down
pub sema_try_down : Kernel → SemaAt → Bool × Kernel
sema_try_down k sema =
    let s = k.semas sema in
    if ltb 0 s.value then (true, set_sema k sema (record s { value = s.value - 1 })) else (false, k)

-- The end of sema_up, on the waiters in order.
pub wake_front : Kernel → SemaAt → (sorted : List ℕ) → Option Kernel
wake_front k sema [] = some k
wake_front k sema (t ∷ rest) =
    thread_unblock (set_sema k sema (record (k.semas sema) { waiters = rest })) t

-- sema_up; an empty list is sorted as it is.
pub sema_up : Kernel → SemaAt → Option Kernel
unfolding wake_front
sema_up k sema = do
  let s = k.semas sema
  sorted ← sort (less_priority (priority_of k)) s.waiters
  wake_front (set_sema k sema (record s { value = s.value + 1 })) sema sorted

-- A semaphore that is up is taken.
pub sema_down_up :
    (k : Kernel) (sema : SemaAt)
    → is_running (k.threads k.current).status ≡ true
    → k.intr_context ≡ false
    → ((k.semas sema).value == 0) ≡ false
    → sema_down k sema
      ≡ some (true, set_sema k sema (record (k.semas sema) { value = (k.semas sema).value - 1 }))
unfolding sema_down
sema_down_up k sema run ctx up = simp (run, ctx, up)
