-- ===== src/Threads/Timer/Wake.antt =====
-- The loop of thread_tick in threads/thread.c of CS439/Project1: which sleepers wake.
use mathlib.Core.List.{Mem}
use utcs.Prelude.{
  ℕ, ◌≡◌, refl, sym, ◌∙◌, ap, Bool, true, false, List, [], ◌∷◌, some, if◌then◌else◌, leb, ◌==◌,
  arith,
}
use utcs.KernelList.{insert_ordered}
use utcs.KernelList.Order.{Before, AllBefore, IsSorted}
use utcs.Threads.{
  Kernel, Semaphore, SemaAt, ready, is_running, is_blocked, assign, less_priority, priority_of,
}
use utcs.Threads.Schedule.Unblock.{unblocked, unblock_interrupt}
use utcs.Threads.Semas.{sema_up}
use utcs.Threads.Semas.Up.{signalled, semas-signalled, sema_up_one}
use utcs.Threads.Timer.{wake_of, less_ticks}

-- The thread waits in sema_down of timer_sleep.
pub record Sleeping (k : Kernel) (t : ℕ) : Type 0 where
  pub blocked : is_blocked (k.threads t).status ≡ true
  pub waits : k.semas (SemaAt.of_sleep t) ≡ record { value = 0; waiters = t ∷ [] }

-- `t` is ready, and its `sleep_sema` is up; nothing else changed but for the flag.
pub record WokeOne (k : Kernel) (t : ℕ) (k' : Kernel) : Type 0 where
  pub threads : k'.threads ≡ assign k.threads t (record (k.threads t) { status = ready })
  pub sleep : k'.semas (SemaAt.of_sleep t) ≡ record { value = 1; waiters = [] }
  pub semas :
      (u : ℕ) → (u == t) ≡ false → k'.semas (SemaAt.of_sleep u) ≡ k.semas (SemaAt.of_sleep u)
  pub queue : k'.ready_list ≡ insert_ordered (less_priority (priority_of k)) k.ready_list t
  pub current : k'.current ≡ k.current
  pub context : k'.intr_context ≡ k.intr_context
  pub ticks : k'.ticks ≡ k.ticks
  pub sleepers : k'.sleep_list ≡ k.sleep_list
  pub slice : k'.thread_ticks ≡ k.thread_ticks

pub wake_one :
    (k : Kernel) (t : ℕ)
    → is_running (k.threads k.current).status ≡ true
    → k.intr_context ≡ true
    → Sleeping k t
    → (k' : Kernel) × (sema_up k (SemaAt.of_sleep t) ≡ some k') × WokeOne k t k'
wake_one k t run ctx s =
    let (due, e) = unblock_interrupt (signalled k (SemaAt.of_sleep t) []) t run s.blocked ctx in
    (
      record (unblocked (signalled k (SemaAt.of_sleep t) []) t) { yield_on_return = due },
      sema_up_one k (SemaAt.of_sleep t) t (ap (λ (m : Semaphore). m.waiters) s.waits) ∙ e,
      record {
        threads = refl;
        sleep = semas-signalled k (SemaAt.of_sleep t) [] ∙ rw s.waits;
        semas = λ u ne. rw ne;
        queue = refl;
        current = refl;
        context = refl;
        ticks = refl;
        sleepers = refl;
        slice = refl;
      },
    )

-- The sleepers whose time has not come.
abbrev pub still_asleep : (wake : ℕ → ℕ) → (ticks : ℕ) → List ℕ → List ℕ
still_asleep wake ticks [] = []
still_asleep wake ticks (t ∷ rest) =
    if leb (wake t) ticks then still_asleep wake ticks rest else t ∷ still_asleep wake ticks rest

-- `t` is not in the list.
abbrev pub Differs : ℕ → List ℕ → Type 0
Differs t [] = Unit
Differs t (u ∷ rest) = ((u == t) ≡ false) × Differs t rest

abbrev pub Distinct : List ℕ → Type 0
Distinct [] = Unit
Distinct (t ∷ rest) = Differs t rest × Distinct rest

abbrev pub AllSleeping : Kernel → List ℕ → Type 0
AllSleeping k [] = Unit
AllSleeping k (t ∷ rest) = Sleeping k t × AllSleeping k rest

-- The thread can run, and finds its semaphore up.
pub record Awake (k : Kernel) (t : ℕ) : Type 0 where
  pub is_ready : (k.threads t).status ≡ ready
  pub up : k.semas (SemaAt.of_sleep t) ≡ record { value = 1; waiters = [] }
  pub queued : Mem t k.ready_list

abbrev pub Fate : Kernel → (t : ℕ) → (due : Bool) → Type 0
Fate k t true = Awake k t
Fate k t false = Sleeping k t

-- Each is awake if its time has come, and sleeps if not.
abbrev pub Fates : Kernel → (wake : ℕ → ℕ) → (ticks : ℕ) → List ℕ → Type 0
Fates k wake ticks [] = Unit
Fates k wake ticks (t ∷ rest) = Fate k t (leb (wake t) ticks) × Fates k wake ticks rest

pub record Woke (k : Kernel) (sleepers : List ℕ) (k' : Kernel) : Type 0 where
  pub left : k'.sleep_list ≡ still_asleep (wake_of k) k.ticks sleepers
  pub fates : Fates k' (wake_of k) k.ticks sleepers
  pub others : (u : ℕ) → Differs u sleepers → k'.threads u ≡ k.threads u
  pub semas :
      (u : ℕ) → Differs u sleepers → k'.semas (SemaAt.of_sleep u) ≡ k.semas (SemaAt.of_sleep u)
  pub queued : (u : ℕ) → Mem u k.ready_list → Mem u k'.ready_list
  pub current : k'.current ≡ k.current

-- Behind a sleeper whose time has not come nobody wakes.
late :
    (wake : ℕ → ℕ) (ticks t x : ℕ)
    → leb (wake t) ticks ≡ false
    → Before (less_ticks wake) t x
    → leb (wake x) ticks ≡ false
late wake ticks t x h b = ground arith

still_asleep_late :
    (wake : ℕ → ℕ) (ticks t : ℕ) (xs : List ℕ)
    → leb (wake t) ticks ≡ false
    → AllBefore (less_ticks wake) t xs
    → still_asleep wake ticks xs ≡ xs
still_asleep_late wake ticks t [] h all = refl
still_asleep_late wake ticks t (x ∷ xs) h (b, all) =
    rw (late wake ticks t x h b)
      (ap (λ (l : List ℕ). x ∷ l) (still_asleep_late wake ticks t xs h all))

Fates-late :
    (k : Kernel) (wake : ℕ → ℕ) (ticks t : ℕ) (xs : List ℕ)
    → leb (wake t) ticks ≡ false
    → AllBefore (less_ticks wake) t xs
    → AllSleeping k xs
    → Fates k wake ticks xs
Fates-late k wake ticks t [] h all s = tt
Fates-late k wake ticks t (x ∷ xs) h (b, all) (sx, s) =
    (rw (late wake ticks t x h b) sx, Fates-late k wake ticks t xs h all s)

-- What a kernel with the same threads and semaphores says of its sleepers.
pub AllSleeping-same :
    (k k' : Kernel) (xs : List ℕ)
    → k'.threads ≡ k.threads
    → k'.semas ≡ k.semas
    → AllSleeping k xs
    → AllSleeping k' xs
AllSleeping-same k k' [] e f s = tt
AllSleeping-same k k' (x ∷ xs) e f (sx, s) =
    (record { blocked = rw e sx.blocked; waits = rw f sx.waits }, AllSleeping-same k k' xs e f s)

pub Fates-same :
    (k k' : Kernel) (wake : ℕ → ℕ) (ticks : ℕ) (xs : List ℕ)
    → k'.threads ≡ k.threads
    → k'.semas ≡ k.semas
    → k'.ready_list ≡ k.ready_list
    → Fates k wake ticks xs
    → Fates k' wake ticks xs
Fates-same k k' wake ticks [] e f g s = tt
Fates-same k k' wake ticks (x ∷ xs) e f g (sx, s) =
    (Fate-same k k' x (leb (wake x) ticks) e f g sx, Fates-same k k' wake ticks xs e f g s)
  where
    Fate-same :
        (k k' : Kernel) (t : ℕ) (due : Bool)
        → k'.threads ≡ k.threads
        → k'.semas ≡ k.semas
        → k'.ready_list ≡ k.ready_list
        → Fate k t due
        → Fate k' t due
    Fate-same k k' t true e f g a = record {
      is_ready = rw e a.is_ready;
      up = rw f a.up;
      queued = rw g a.queued;
    }
    Fate-same k k' t false e f g s = record { blocked = rw e s.blocked; waits = rw f s.waits }

-- The first sleeper's time has not come.
pub nobody-Woke :
    (k : Kernel) (t : ℕ) (rest : List ℕ)
    → leb (wake_of k t) k.ticks ≡ false
    → IsSorted (less_ticks (wake_of k)) (t ∷ rest)
    → AllSleeping k (t ∷ rest)
    → Woke k (t ∷ rest) (record k { sleep_list = t ∷ rest })
nobody-Woke k t rest h (all, _) s =
    let s' = AllSleeping-same k (record k { sleep_list = t ∷ rest }) (t ∷ rest) refl refl s in
    record {
      left =
          rw h
            (ap (λ (l : List ℕ). t ∷ l) (sym (still_asleep_late (wake_of k) k.ticks t rest h all)));
      fates = (
        rw h s'.0,
        Fates-late (record k { sleep_list = t ∷ rest }) (wake_of k) k.ticks t rest h all s'.1,
      );
      others = λ u d. refl;
      semas = λ u d. refl;
      queued = λ u m. m;
      current = refl;
    }
