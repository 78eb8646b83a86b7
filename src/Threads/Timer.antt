-- ===== src/Threads/Timer.antt =====
-- timer_sleep and the timer interrupt of devices/timer.c in CS439/Project1, with thread_sleep and
-- thread_tick of threads/thread.c. Ticks are counted without overflow of their 64 bits.
pub mod Wake
pub mod Tick
use utcs.Prelude.{
  ℕ, ◌+◌, Bool, true, false, not, List, [], ◌∷◌, Option, none, some, if◌then◌else◌, ltb, leb, ◌>>=◌,
  ◌>>◌, check,
}
use utcs.KernelList.{insert_ordered}
use utcs.Threads.{Kernel, SemaAt, set_thread, points_to}
use utcs.Threads.Schedule.{thread_current, intr_handler}
use utcs.Threads.Semas.{sema_init, sema_down, sema_up}

-- TIME_SLICE
abbrev pub time_slice : ℕ
time_slice = 4

abbrev pub wake_of : Kernel → ℕ → ℕ
wake_of k t = (k.threads t).wake_on_ticks

-- less_ticks
abbrev pub less_ticks : (ℕ → ℕ) → ℕ → ℕ → Bool
less_ticks wake a b = ltb (wake a) (wake b)

-- thread_sleep
unfoldable pub thread_sleep : Kernel → (t : ℕ) → Kernel
thread_sleep k t = record k { sleep_list = insert_ordered (less_ticks (wake_of k)) k.sleep_list t }

-- timer_sleep; sema_down blocks the thread, since its semaphore is 0.
pub timer_sleep : Kernel → (ticks : ℕ) → Option (Bool × Kernel)
unfolding thread_sleep
timer_sleep k ticks = do
  curr ← thread_current k
  let k1 = set_thread k curr (record (k.threads curr) { wake_on_ticks = k.ticks + ticks })
  sema_down (thread_sleep (sema_init k1 (SemaAt.of_sleep curr) 0) curr) (SemaAt.of_sleep curr)

-- The loop of thread_tick, on the sleeping threads that are left.
pub wake_sleepers : Kernel → (sleepers : List ℕ) → Option Kernel
wake_sleepers k [] = some (record k { sleep_list = [] })
wake_sleepers k (t ∷ rest) =
    let woken = (do
      k' ← sema_up (record k { sleep_list = rest }) (SemaAt.of_sleep t)
      wake_sleepers k' rest) in
    if leb (wake_of k t) k.ticks then woken else some (record k { sleep_list = t ∷ rest })

-- `if (++thread_ticks >= TIME_SLICE)` of thread_tick, and intr_yield_on_return
unfoldable pub end_slice : Kernel → Option Kernel
end_slice k =
    let k' = record k { thread_ticks = k.thread_ticks + 1 } in
    if leb time_slice k'.thread_ticks
    then (check k'.intr_context >> some (record k' { yield_on_return = true }))
    else some k'

-- The statistics of thread_tick.
pub count_tick : Kernel → (t : ℕ) → Kernel
count_tick k t =
    if points_to k.idle_thread t
    then record k { idle_ticks = k.idle_ticks + 1 }
    else record k { kernel_ticks = k.kernel_ticks + 1 }

-- thread_tick
pub thread_tick : Kernel → Option Kernel
unfolding count_tick wake_sleepers end_slice
thread_tick k = do
  t ← thread_current k
  let counted = count_tick k t
  woken ← wake_sleepers counted counted.sleep_list
  end_slice woken

-- timer_interrupt
pub timer_interrupt : Kernel → Option Kernel
unfolding thread_tick
timer_interrupt k = thread_tick (record k { ticks = k.ticks + 1 })
