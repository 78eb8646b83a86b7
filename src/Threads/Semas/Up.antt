-- ===== src/Threads/Semas/Up.antt =====
-- sema_up of threads/synch.c in CS439/Project1: whom it wakes.
use mathlib.Core.List.{Mem, mem-cons_self}
use mathlib.Core.List.Perm
use utcs.Prelude.{ℕ, ◌+◌, ◌≡◌, refl, sym, ◌∙◌, true, List, [], ◌∷◌, some, ==_refl, inl, inr, ◌⊎◌}
use utcs.KernelList.{sort}
use utcs.KernelList.Queue.{sort_one, sort_nil}
use utcs.KernelList.Sort.{SortOf, sort_lem}
use utcs.Threads.{
  Kernel, Semaphore, SemaAt, same_sema, is_running, is_blocked, set_sema, less_priority,
  priority_of,
}
use utcs.Threads.Schedule.{thread_unblock}
use utcs.Threads.Schedule.Queue.{less_priority-IsWeakOrder}
use utcs.Threads.Schedule.Unblock.{Fair, thread_unblock-Fair}
use utcs.Threads.Semas.{sema_up, wake_front}

pub same_sema_refl : (s : SemaAt) → same_sema s s ≡ true
same_sema_refl (SemaAt.of_lock a) = ==_refl a
same_sema_refl (SemaAt.of_sleep a) = ==_refl a
same_sema_refl (SemaAt.of_waiter a) = ==_refl a
same_sema_refl (SemaAt.other a) = ==_refl a

-- The value is one more.
abbrev pub raised : Kernel → SemaAt → Kernel
raised k sema = let s = k.semas sema in set_sema k sema (record s { value = s.value + 1 })

-- And the waiters are `rest`.
abbrev pub signalled : Kernel → SemaAt → (rest : List ℕ) → Kernel
signalled k sema rest =
    set_sema (raised k sema) sema (record ((raised k sema).semas sema) { waiters = rest })

pub semas-signalled :
    (k : Kernel) (sema : SemaAt) (rest : List ℕ)
    → (signalled k sema rest).semas sema
      ≡ record { value = (k.semas sema).value + 1; waiters = rest }
semas-signalled k sema rest = rw (same_sema_refl sema)

-- `k'` comes from `k` by waking `w`, and `rest` go on waiting.
pub record Wakes (k : Kernel) (sema : SemaAt) (k' : Kernel) : Type 0 where
  pub w : ℕ
  pub rest : List ℕ
  pub first : SortOf (less_priority (priority_of k)) (k.semas sema).waiters (w ∷ rest)
  pub unblocks : thread_unblock (signalled k sema rest) w ≡ some k'

Fair-set_sema : (k : Kernel) (sema : SemaAt) (v : Semaphore) → Fair k → Fair (set_sema k sema v)
Fair-set_sema k sema v (inl due) = inl due
Fair-set_sema k sema v (inr high) = inr (record { highest = high.highest })

up_sorted :
    (k : Kernel) (sema : SemaAt) (sorted : List ℕ)
    → sort (less_priority (priority_of k)) (k.semas sema).waiters ≡ some sorted
    → sema_up k sema ≡ wake_front (raised k sema) sema sorted
unfolding sema_up
up_sorted k sema sorted e = simp e

up_cases :
    (k : Kernel) (sema : SemaAt) (sorted : List ℕ)
    → is_running (k.threads k.current).status ≡ true
    → ((t : ℕ) → Mem t (k.semas sema).waiters → is_blocked (k.threads t).status ≡ true)
    → Fair k
    → SortOf (less_priority (priority_of k)) (k.semas sema).waiters sorted
    → (k' : Kernel) × (wake_front (raised k sema) sema sorted ≡ some k')
      × Fair k'
      × ((((k.semas sema).waiters ≡ []) × (k' ≡ raised k sema)) ⊎ Wakes k sema k')
unfolding wake_front
up_cases k sema [] run all fair s =
    (raised k sema, refl, Fair-set_sema k sema _ fair, inl (sym (Perm.nil-eq s.perm), refl))
up_cases k sema (w ∷ rest) run all fair s =
    let b = all w (Perm.subset s.perm w mem-cons_self) in
    let fair' = Fair-set_sema (raised k sema) sema _ (Fair-set_sema k sema _ fair) in
    let (k', e, f) = thread_unblock-Fair (signalled k sema rest) w run b fair' in
    (k', e, f, inr (record { w = w; rest = rest; first = s; unblocks = e }))

-- sema_up by a running thread, all of whose waiters are blocked, where the idle thread runs, or
-- no ready thread has a higher priority than the running one, or, in the handler of an interrupt,
-- a yield is due when it returns: it ends and one of these is so again. With no waiter it only
-- adds one to the value; else it wakes the waiter of highest priority, of these the one that
-- waited longest, and the others wait in that order.
pub sema_up_lem :
    (k : Kernel) (sema : SemaAt)
    → is_running (k.threads k.current).status ≡ true
    → ((t : ℕ) → Mem t (k.semas sema).waiters → is_blocked (k.threads t).status ≡ true)
    → Fair k
    → (k' : Kernel) × (sema_up k sema ≡ some k')
      × Fair k'
      × ((((k.semas sema).waiters ≡ []) × (k' ≡ raised k sema)) ⊎ Wakes k sema k')
sema_up_lem k sema run all fair =
    let w = less_priority-IsWeakOrder (priority_of k) in
    let (sorted, e, s) = sort_lem w (k.semas sema).waiters in
    let (k', e', f, c) = up_cases k sema sorted run all fair s in
    (k', up_sorted k sema sorted e ∙ e', f, c)

-- With one waiter.
pub sema_up_one :
    (k : Kernel) (sema : SemaAt) (t : ℕ)
    → (k.semas sema).waiters ≡ t ∷ []
    → sema_up k sema ≡ thread_unblock (signalled k sema []) t
unfolding wake_front
sema_up_one k sema t e =
    up_sorted k sema (t ∷ []) (rw e (sort_one (less_priority (priority_of k)) t))

-- With no waiter.
pub sema_up_none :
    (k : Kernel) (sema : SemaAt)
    → (k.semas sema).waiters ≡ []
    → sema_up k sema ≡ some (raised k sema)
unfolding wake_front
sema_up_none k sema e = up_sorted k sema [] (rw e (sort_nil (less_priority (priority_of k))))
