-- ===== src/Threads/Examples.antt =====
-- The theorems about the threads at a small kernel: thread 1 runs, 2 and 5 are ready, 3 sleeps until
-- tick 10 and 6 until tick 30, 4 waits for a semaphore, 9 is the idle thread. Thread 2 holds lock 7
-- and waits for lock 8, which 5 holds; lock 10 is free.
use mathlib.Core.List.{Mem, mem-cons, mem-cons_self, mem-cons_of_mem, not-mem-nil}
use mathlib.Core.Logic.Or
use utcs.Prelude.{
  ℕ, ◌≤◌, ◌≡◌, refl, Bool, true, false, List, [], ◌∷◌, ◌⊎◌, Option, none, some, if◌then◌else◌, ◌==◌,
  inl, inr, arith,
}
use utcs.Threads.{same_sema}
use utcs.Threads.{
  Kernel, Thread, Status, running, ready, blocked, is_blocked, Lock, Semaphore, SemaAt, of_lock,
  of_sleep, of_waiter, other, priority_of,
}
use utcs.Threads.Schedule.{thread_yield}
use utcs.Threads.Schedule.Queue.{RunsHighest}
use utcs.Threads.Schedule.Yield.{yielded, Chosen, thread_yield_lem}
use utcs.Threads.Schedule.Unblock.{Fair}
use utcs.Threads.Semas.{sema_up}
use utcs.Threads.Semas.Up.{raised, Wakes, sema_up_lem}
use utcs.Threads.Donation.{donate}
use utcs.Threads.Donation.Chain.{Linked, Donated, donate_lem}
use utcs.Threads.Locks.{lock_donate, lock_release}
use utcs.Threads.Locks.Inversion.{NoInversion, lock_donate-NoInversion}
use utcs.Threads.Locks.Release.{HandsOn, lock_release_donated}
use utcs.Threads.Priority.{thread_set_priority}
use utcs.Threads.Priority.Change.{thread_set_priority_lem}
use utcs.Threads.Life.{thread_init}
use utcs.Threads.Life.Boot.{thread_init-none}
use utcs.Threads.Timer.{timer_interrupt}
use utcs.Threads.Timer.Wake.{Sleeping}
use utcs.Threads.Timer.Tick.{Ticked, timer_interrupt_lem}

abbrev thread_with : Status → (priority wake : ℕ) → (waiting_lock : Option ℕ) → Thread
thread_with s p wake l = record {
  tid = 1;
  status = s;
  priority = p;
  wake_on_ticks = wake;
  waiting_lock = l;
  locks = [];
  children = [];
  parent = none;
}

abbrev sample_threads : ℕ → Thread
sample_threads t =
    if t == 1
    then thread_with running 31 0 none
    else if t == 2
    then thread_with ready 20 0 (some 8)
    else if t == 3
    then thread_with blocked 40 10 none
    else if t == 4
    then thread_with blocked 35 0 none
    else if t == 6
    then thread_with blocked 12 30 none
    else thread_with ready 25 0 none

abbrev sample_locks : ℕ → Lock
sample_locks l = record {
  holder = if l == 7 then some 2 else if l == 8 then some 5 else none;
  highest_donation = none;
  old_priority = some 20;
}

abbrev sample_semas : SemaAt → Semaphore
sample_semas (of_sleep t) = record { value = 0; waiters = t ∷ [] }
sample_semas (of_lock l) = record { value = if l == 10 then 1 else 0; waiters = [] }
sample_semas (of_waiter t) = record { value = 0; waiters = [] }
sample_semas (other n) = record { value = 0; waiters = 4 ∷ [] }

abbrev sample : (intr_context : Bool) → Kernel
sample in_handler = record {
  threads = sample_threads;
  locks = sample_locks;
  semas = sample_semas;
  ready_list = 5 ∷ 2 ∷ [];
  all_list = 1 ∷ 2 ∷ 3 ∷ 4 ∷ 5 ∷ 6 ∷ 9 ∷ [];
  sleep_list = 3 ∷ 6 ∷ [];
  idle_thread = some 9;
  initial_thread = some 1;
  current = 1;
  next_tid = 8;
  ticks = 9;
  idle_ticks = 0;
  kernel_ticks = 9;
  thread_ticks = 3;
  intr_context = in_handler;
  yield_on_return = false;
  freed = [];
}

sample-RunsHighest : (c : Bool) → RunsHighest (sample c)
sample-RunsHighest c = record { highest = λ h. (omega arith, (omega arith, tt)) }

thread_yield_lem_sample :
    (next : ℕ) × (rest : List ℕ) × (thread_yield (sample false)
      ≡ some (yielded (sample false) next rest))
    × Chosen (sample false) next rest
thread_yield_lem_sample = thread_yield_lem (sample false) refl refl

waiter_blocked : (t : ℕ) → Mem t (4 ∷ []) → is_blocked ((sample true).threads t).status ≡ true
waiter_blocked t m =
    Or.elim (hlevel) (mem-cons.0 m) (λ (e : t ≡ 4). rw e refl) (λ n. absurd (not-mem-nil n))

sema_up_lem_sample :
    (k' : Kernel) × (sema_up (sample true) (other 0) ≡ some k')
    × Fair k'
    × ((((sample true).semas (other 0)).waiters ≡ []) × (k' ≡ raised (sample true) (other 0))
        ⊎ Wakes (sample true) (other 0) k')
sema_up_lem_sample =
    sema_up_lem (sample true) (other 0) refl waiter_blocked (inr (sample-RunsHighest true))

sample_waits : (t l : ℕ) → (sample_threads t).waiting_lock ≡ some l → (t ≡ 2) × (l ≡ 8)
sample_waits t l w = (ground arith, ground arith)

sample_holds : (l h : ℕ) → (sample_locks l).holder ≡ some h → (l ≡ 7) ⊎ ((l ≡ 8) × (h ≡ 5))
sample_holds l h e = ground arith

sample-Linked : Linked (sample false)
sample-Linked t l w =
    let (_, e) = sample_waits t l w in
    rw e (
      5,
      refl,
      mem-cons_of_mem 1 (mem-cons_of_mem 2 (mem-cons_of_mem 3 (mem-cons_of_mem 4 mem-cons_self))),
    )

donate_lem_sample :
    (k' : Kernel) × (donate 8 (sample false) 1 7 ≡ some k') × Donated (sample false) 7 31 k'
donate_lem_sample =
    donate_lem 8 (sample false) 1 7 sample-Linked (2, refl, mem-cons_of_mem 1 mem-cons_self)
      (omega arith)

sample-NoInversion : NoInversion (sample false)
sample-NoInversion = record {
  kept = λ t l h w e.
      let (t_two, l_eight) = sample_waits t l w in
      elim (sample_holds l h e) [
        | inl l_seven ↦ absurd (omega arith)
        | inr (_, h_five) ↦ rw (t_two, h_five) (omega arith)
      ];
}

lock_donate-NoInversion_example :
    (k' : Kernel) × (lock_donate (sample false) 1 7 (some 2) ≡ some k')
    × NoInversion k'
    × ((k'.threads 1).waiting_lock ≡ some 7)
    × ((t : ℕ) → priority_of (sample false) t ≤ priority_of k' t)
lock_donate-NoInversion_example =
    lock_donate-NoInversion (sample false) 1 7 2 refl (mem-cons_of_mem 1 mem-cons_self)
      sample-Linked sample-NoInversion

sample-Sleeping : (t : ℕ) → is_blocked (sample_threads t).status ≡ true → Sleeping (sample true) t
sample-Sleeping t b = record { blocked = b; waits = refl }

timer_interrupt_lem_sample :
    (k' : Kernel) × (timer_interrupt (sample true) ≡ some k')
    × Ticked (record (sample true) { ticks = 10 }) k'
timer_interrupt_lem_sample =
    timer_interrupt_lem (sample true) refl refl ((refl, tt), (tt, tt)) ((refl, tt), (tt, tt))
      (sample-Sleeping 3 refl, (sample-Sleeping 6 refl, tt))

-- Thread 1 holds lock 10, found at the priority 31, and has the priority of thread 3, which waits.
abbrev donated : Kernel
donated = record (sample false) {
  threads = λ t.
      if t == 1
      then record (thread_with running 40 0 none) { locks = 10 ∷ [] }
      else if t == 3
      then thread_with blocked 40 0 (some 10)
      else sample_threads t;
  locks = λ l.
      if l == 10
      then record { holder = some 1; highest_donation = some 40; old_priority = some 31 }
      else sample_locks l;
  semas = λ s.
      if same_sema s (of_lock 10) then record { value = 0; waiters = 3 ∷ [] } else sample_semas s;
}

lock_release_donated_example :
    (k' : Kernel) × (lock_release donated 10 ≡ some k') × HandsOn donated 10 31 3 k'
lock_release_donated_example =
    lock_release_donated donated 10 31 3 refl refl refl refl refl refl refl refl (omega arith)

thread_set_priority_lem_sample :
    (k' : Kernel) × (thread_set_priority (sample false) 22 ≡ some k')
    × RunsHighest k'
    × (priority_of k' 1 ≡ 22)
thread_set_priority_lem_sample =
    thread_set_priority_lem (sample false) 22 refl refl refl refl ((refl, tt), (tt, tt))
      (refl, (refl, tt))

thread_init-none_example : thread_init (sample false) ≡ none
thread_init-none_example = thread_init-none (sample false)
