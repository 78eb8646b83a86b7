-- ===== src/Threads/Timer/Tick.antt =====
-- thread_tick of threads/thread.c and the timer interrupt of CS439/Project1.
use mathlib.Core.List.{Mem, mem-cons_self, mem-cons_of_mem}
use mathlib.Core.List.Perm
use utcs.Prelude.{
  ℕ, ◌+◌, ◌<◌, ◌⊎◌, ◌≡◌, refl, sym, ◌∙◌, ap, subst, fun_ext, Bool, true, false, List, [], ◌∷◌, some,
  leb, ◌==◌, ==_iff, ==_refl, arith, Bool-cases, inl, inr,
}
use utcs.KernelList.Order.{IsSorted}
use utcs.KernelList.Insert.{insert_ordered-perm}
use utcs.Threads.{Kernel, Thread, SemaAt, ready, is_running, less_priority, priority_of, points_to}
use utcs.Threads.Schedule.{thread_current}
use utcs.Threads.Schedule.Unblock.{not_both}
use utcs.Threads.Semas.{sema_up}
use utcs.Threads.Timer.{
  wake_of, less_ticks, wake_sleepers, time_slice, end_slice, count_tick, thread_tick,
  timer_interrupt,
}
use utcs.Threads.Timer.Wake.{
  AllSleeping, WokeOne, wake_one, still_asleep, Differs, Distinct, Fates, Woke, nobody-Woke,
  AllSleeping-same, Fates-same,
}

loop_stop :
    (k : Kernel) (t : ℕ) (rest : List ℕ)
    → leb (wake_of k t) k.ticks ≡ false
    → wake_sleepers k (t ∷ rest) ≡ some (record k { sleep_list = t ∷ rest })
unfolding wake_sleepers
loop_stop k t rest h = rw (h, wake_sleepers)

loop_due :
    (k : Kernel) (t : ℕ) (rest : List ℕ) (k1 : Kernel)
    → leb (wake_of k t) k.ticks ≡ true
    → sema_up (record k { sleep_list = rest }) (SemaAt.of_sleep t) ≡ some k1
    → wake_sleepers k (t ∷ rest) ≡ wake_sleepers k1 rest
unfolding wake_sleepers
loop_due k t rest k1 h e = rw (h, e, wake_sleepers)

module _ (k : Kernel) (t : ℕ) (k1 : Kernel) (one : WokeOne k t k1) where
  one_wake : wake_of k1 ≡ wake_of k
  one_wake = fun_ext (λ n. rw one.threads (ground (arith, ==_iff n t)))

  one_other : (u : ℕ) → (u == t) ≡ false → k1.threads u ≡ k.threads u
  one_other u ne = rw one.threads (rw ne)

  one_AllSleeping : (xs : List ℕ) → Differs t xs → AllSleeping k xs → AllSleeping k1 xs
  one_AllSleeping [] d s = tt
  one_AllSleeping (x ∷ xs) (ne, d) (sx, s) = (
    record { blocked = rw (one_other x ne) sx.blocked; waits = one.semas x ne ∙ sx.waits },
    one_AllSleeping xs d s,
  )

  one_ready : (k1.threads t).status ≡ ready
  one_ready = rw one.threads (rw (==_refl t))

  one_queued : (u : ℕ) → Mem u k.ready_list → Mem u k1.ready_list
  one_queued u m = rw one.queue (
      (Perm.mem_iff (insert_ordered-perm (less_priority (priority_of k)) k.ready_list t)).1
        (mem-cons_of_mem t m))

  one_front : Mem t k1.ready_list
  one_front = rw one.queue (
      (Perm.mem_iff (insert_ordered-perm (less_priority (priority_of k)) k.ready_list t)).1
        mem-cons_self)

  other_way : (u : ℕ) → (t == u) ≡ false → (u == t) ≡ false
  other_way u h = ground arith

  -- The first sleeper, and those that wake behind it.
  first-Woke :
      (rest : List ℕ) (k' : Kernel)
      → leb (wake_of k t) k.ticks ≡ true
      → Differs t rest
      → Woke k1 rest k'
      → Woke k (t ∷ rest) k'
  first-Woke rest k' h d w = record {
    left = rw h (
        w.left
        ∙ (ap (λ (f : ℕ → ℕ). still_asleep f k1.ticks rest) one_wake
            ∙ ap (λ (n : ℕ). still_asleep (wake_of k) n rest) one.ticks));
    fates = (
      rw h (record {
        is_ready = ap (λ (x : Thread). x.status) (w.others t d) ∙ one_ready;
        up = w.semas t d ∙ one.sleep;
        queued = w.queued t one_front;
      }),
      subst (λ (f : ℕ → ℕ). Fates k' f k.ticks rest) one_wake
          (subst (λ (n : ℕ). Fates k' (wake_of k1) n rest) one.ticks w.fates),
    );
    others = λ u (ne, du). w.others u du ∙ one_other u (other_way u ne);
    semas = λ u (ne, du). w.semas u du ∙ one.semas u (other_way u ne);
    queued = λ u m. w.queued u (one_queued u m);
    current = w.current ∙ one.current;
  }

-- The members that Woke reads of the kernel before.
module _ (k : Kernel) (sleepers : List ℕ) (k' : Kernel) where
  Woke-sleep_list :
      (l : List ℕ) → Woke (record k { sleep_list = l }) sleepers k' → Woke k sleepers k'
  Woke-sleep_list l w = record {
    left = w.left;
    fates = w.fates;
    others = w.others;
    semas = w.semas;
    queued = w.queued;
    current = w.current;
  }

wake_sleepers_lem :
    (k : Kernel) (sleepers : List ℕ)
    → is_running (k.threads k.current).status ≡ true
    → k.intr_context ≡ true
    → IsSorted (less_ticks (wake_of k)) sleepers
    → Distinct sleepers
    → AllSleeping k sleepers
    → (k' : Kernel) × (wake_sleepers k sleepers ≡ some k')
      × Woke k sleepers k'
      × (k'.thread_ticks ≡ k.thread_ticks)
      × (k'.intr_context ≡ k.intr_context)
unfolding wake_sleepers
wake_sleepers_lem k [] run ctx o d s = (
  record k { sleep_list = [] },
  refl,
  record {
    left = refl;
    fates = tt;
    others = λ u d. refl;
    semas = λ u d. refl;
    queued = λ u m. m;
    current = refl;
  },
  refl,
  refl,
)
wake_sleepers_lem k (t ∷ rest) run ctx (before, o) (dt, d) (st, s) =
    elim (Bool-cases (leb (wake_of k t) k.ticks)) [
      | inr h ↦ (
        record k { sleep_list = t ∷ rest },
        loop_stop k t rest h,
        nobody-Woke k t rest h (before, o) (st, s),
        refl,
        refl,
      )
      | inl h ↦
          let k0 = record k { sleep_list = rest } in
          let (k1, e, one) =
            wake_one k0 t run ctx (record { blocked = st.blocked; waits = st.waits }) in
          let run1 : is_running (k1.threads k1.current).status ≡ true =
            rw
              (one.current, one_other k0 t k1 one k.current (not_both k t k.current run st.blocked))
              run in
          let (k', e', w, same, context) =
            wake_sleepers_lem k1 rest run1 (one.context ∙ ctx)
              (subst (λ (f : ℕ → ℕ). IsSorted (less_ticks f) rest) (sym (one_wake k0 t k1 one)) o) d
              (one_AllSleeping k0 t k1 one rest dt (AllSleeping-same k k0 rest refl refl s)) in
          (
            k',
            loop_due k t rest k1 h e ∙ e',
            Woke-sleep_list k (t ∷ rest) k' rest (first-Woke k0 t k1 one rest k' h dt w),
            same ∙ one.slice,
            context ∙ one.context,
          )
    ]

-- The statistics and the slice of the running thread do not matter to the sleepers.
module _ (k : Kernel) (idle_ticks kernel_ticks : ℕ) where
  abbrev counted : Kernel
  counted = record k { idle_ticks = idle_ticks; kernel_ticks = kernel_ticks }

  Woke-counted :
      (xs : List ℕ) (woken : Kernel) (n : ℕ) (due : Bool)
      → Woke counted xs woken
      → Woke k xs (record woken { thread_ticks = n; yield_on_return = due })
  Woke-counted xs woken n due w =
      let k' = record woken { thread_ticks = n; yield_on_return = due } in
      record {
        left = w.left;
        fates = Fates-same woken k' (wake_of k) k.ticks xs refl refl refl w.fates;
        others = w.others;
        semas = w.semas;
        queued = w.queued;
        current = w.current;
      }

-- Who wakes at a tick, and whether the running thread is to yield.
pub record Ticked (k k' : Kernel) : Type 0 where
  pub woke : Woke k k.sleep_list k'
  pub slice : k'.thread_ticks ≡ k.thread_ticks + 1
  pub preempted : (k'.yield_on_return ≡ true) ⊎ (k'.thread_ticks < time_slice)

ticked :
    (k : Kernel) (i j : ℕ) (woken : Kernel)
    → Woke (counted k i j) k.sleep_list woken
    → woken.thread_ticks ≡ k.thread_ticks
    → woken.intr_context ≡ true
    → (k' : Kernel) × (end_slice woken ≡ some k') × Ticked k k'
unfolding end_slice
ticked k i j woken w same ctx = elim (Bool-cases (leb time_slice (woken.thread_ticks + 1))) [
  | inl h ↦ (
    record woken { thread_ticks = woken.thread_ticks + 1; yield_on_return = true },
    rw (h, ctx),
    record {
      woke = Woke-counted k i j k.sleep_list woken (woken.thread_ticks + 1) true w;
      slice = omega (arith, same);
      preempted = inl refl;
    },
  )
  | inr h ↦ (
    record woken { thread_ticks = woken.thread_ticks + 1 },
    rw h,
    record {
      woke = Woke-counted k i j k.sleep_list woken (woken.thread_ticks + 1) woken.yield_on_return w;
      slice = omega (arith, same);
      preempted = inr (ground arith);
    },
  )
]

tick_ran :
    (k c woken : Kernel)
    → is_running (k.threads k.current).status ≡ true
    → count_tick k k.current ≡ c
    → wake_sleepers c c.sleep_list ≡ some woken
    → thread_tick k ≡ end_slice woken
unfolding thread_tick thread_current
tick_ran k c woken run e e' = simp (run, e, e')

tick_counted :
    (k : Kernel) (i j : ℕ)
    → is_running (k.threads k.current).status ≡ true
    → k.intr_context ≡ true
    → IsSorted (less_ticks (wake_of k)) k.sleep_list
    → Distinct k.sleep_list
    → AllSleeping k k.sleep_list
    → count_tick k k.current ≡ counted k i j
    → (k' : Kernel) × (thread_tick k ≡ some k') × Ticked k k'
tick_counted k i j run ctx o d s e =
    let c = counted k i j in
    let (woken, e', w, same, context) =
      wake_sleepers_lem c k.sleep_list run ctx o d
        (AllSleeping-same k c k.sleep_list refl refl s) in
    let (k', e'', t) = ticked k i j woken w same (context ∙ ctx) in
    (k', tick_ran k c woken run e e' ∙ e'', t)

tick_cases :
    (k : Kernel)
    → is_running (k.threads k.current).status ≡ true
    → k.intr_context ≡ true
    → IsSorted (less_ticks (wake_of k)) k.sleep_list
    → Distinct k.sleep_list
    → AllSleeping k k.sleep_list
    → (k' : Kernel) × (thread_tick k ≡ some k') × Ticked k k'
unfolding count_tick
tick_cases k run ctx o d s = elim (Bool-cases (points_to k.idle_thread k.current)) [
  | inl idle ↦ tick_counted k (k.idle_ticks + 1) k.kernel_ticks run ctx o d s (rw idle)
  | inr busy ↦ tick_counted k k.idle_ticks (k.kernel_ticks + 1) run ctx o d s (rw busy)
]

-- The timer interrupt, in the handler of an interrupt of a running thread, where the sleeping
-- threads stand in the order of their times, each once, and each waits blocked for its own
-- `sleep_sema`: it ends; the sleepers whose time has come, by the new tick, can run and find their
-- semaphore up, exactly the others sleep on, no other thread changes, and the running thread is to
-- yield unless its slice is shorter than TIME_SLICE.
pub timer_interrupt_lem :
    (k : Kernel)
    → is_running (k.threads k.current).status ≡ true
    → k.intr_context ≡ true
    → IsSorted (less_ticks (wake_of k)) k.sleep_list
    → Distinct k.sleep_list
    → AllSleeping k k.sleep_list
    → (k' : Kernel) × (timer_interrupt k ≡ some k') × Ticked (record k { ticks = k.ticks + 1 }) k'
unfolding timer_interrupt
timer_interrupt_lem k run ctx o d s =
    let k0 = record k { ticks = k.ticks + 1 } in
    tick_cases k0 run ctx o d (AllSleeping-same k k0 k.sleep_list refl refl s)
