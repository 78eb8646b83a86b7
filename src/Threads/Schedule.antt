-- ===== src/Threads/Schedule.antt =====
-- The scheduler of threads/thread.c in CS439/Project1. An operation that switches ends in the state
-- in which the next thread goes on; `none` is a failed ASSERT. The interrupt level is not part of
-- the state, the operations run with interrupts off.
pub mod Queue
pub mod Yield
pub mod Unblock
use utcs.Prelude.{
  ℕ, ◌+◌, Bool, true, false, not, ◌&&◌, List, [], ◌∷◌, Option, none, some, ◌==◌, if◌then◌else◌, ltb,
  ◌>>=◌, ◌>>◌, check,
}
use utcs.KernelList.{insert_ordered, sort}
use utcs.Threads.{
  Kernel, Thread, Status, running, ready, blocked, is_running, is_blocked, is_dying, set_status,
  set_thread, assign, less_priority, priority_of, points_to,
}

-- thread_current
unfoldable pub thread_current : Kernel → Option ℕ
thread_current k = check (is_running (k.threads k.current).status) >> some k.current

-- next_thread_to_run: `ready_list`, `idle_thread`; the choice and the list after it
pub next_thread_to_run : List ℕ → Option ℕ → Option ℕ × List ℕ
next_thread_to_run [] idle_thread = (idle_thread, [])
next_thread_to_run (t ∷ rest) idle_thread = (some t, rest)

-- The last part of thread_schedule_tail.
unfoldable pub destroy : (prev : Option ℕ) → Kernel → Option Kernel
destroy none k = some k
destroy (some prev) k =
    if is_dying (k.threads prev).status && not (points_to k.initial_thread prev)
    then (check (not (prev == k.current)) >> some (record k { freed = prev ∷ k.freed }))
    else some k

-- thread_schedule_tail
unfoldable pub thread_schedule_tail : (prev : Option ℕ) → Kernel → Option Kernel
thread_schedule_tail prev k =
    destroy prev (record (set_status k k.current running) { thread_ticks = 0 })

-- switch_threads and the end of schedule, `next` being NULL fails its assertion
unfoldable pub switch_to : Kernel → Option ℕ × List ℕ → Option Kernel
unfolding thread_schedule_tail
switch_to k (none, rest) = none
switch_to k (some next, rest) =
    thread_schedule_tail (if k.current == next then none else some k.current)
      (record k { ready_list = rest; current = next })

-- schedule
unfoldable pub schedule : Kernel → Option Kernel
unfolding switch_to next_thread_to_run
schedule k =
    check (not (is_running (k.threads k.current).status))
    >> switch_to k (next_thread_to_run k.ready_list k.idle_thread)

-- thread_block
pub thread_block : Kernel → Option Kernel
unfolding thread_current schedule
thread_block k = do
  check (not k.intr_context)
  cur ← thread_current k
  schedule (set_status k cur blocked)

-- The list that thread_yield leaves the scheduler.
unfoldable pub enqueue : Kernel → (cur : ℕ) → (sorted : List ℕ) → List ℕ
enqueue k cur sorted =
    if points_to k.idle_thread cur
    then sorted
    else insert_ordered (less_priority (priority_of k)) sorted cur

-- thread_yield behind its assertion
unfoldable pub yield_from : Kernel → (cur : ℕ) → Option Kernel
yield_from k cur = do
  sorted ← sort (less_priority (priority_of k)) k.ready_list
  schedule (set_status (record k { ready_list = enqueue k cur sorted }) cur ready)

-- thread_yield
unfoldable pub thread_yield : Kernel → Option Kernel
unfolding thread_current
thread_yield k = do cur ← thread_current k; check (not k.intr_context); yield_from k cur

-- The end of thread_unblock: the running thread makes way for `t`, which is ready.
unfoldable pub preempt : Kernel → (t : ℕ) → Option Kernel
unfolding thread_current
preempt k t = do
  cur ← thread_current k
  let higher = ltb (priority_of k cur) (priority_of k t)
  let leave = if k.intr_context then some (record k { yield_on_return = true }) else thread_yield k
  if not (points_to k.idle_thread cur) && higher then leave else some k

-- thread_unblock
unfoldable pub thread_unblock : Kernel → (t : ℕ) → Option Kernel
unfolding preempt
thread_unblock k t = do
  check (is_blocked (k.threads t).status)
  let queue = insert_ordered (less_priority (priority_of k)) k.ready_list t
  preempt (set_status (record k { ready_list = queue }) t ready) t

-- intr_handler, for an external interrupt: its handler runs, and the interrupted thread yields if
-- the handler asked for that.
unfoldable pub intr_handler : (handler : Kernel → Option Kernel) → Kernel → Option Kernel
intr_handler handler k = do
  check (not k.intr_context)
  done ← handler (record k { intr_context = true; yield_on_return = false })
  check done.intr_context
  let left = record done { intr_context = false }
  if done.yield_on_return then thread_yield left else some left
