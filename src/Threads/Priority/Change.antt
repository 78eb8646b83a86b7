-- ===== src/Threads/Priority/Change.antt =====
-- thread_set_priority of threads/thread.c in CS439/Project1, for a thread without locks.
use utcs.Prelude.{
  ℕ, ◌≤◌, ◌≡◌, refl, sym, ◌∙◌, ap, subst, true, false, List, [], ◌∷◌, none, some, ltb, ◌==◌,
  ==_refl, arith, Bool-cases, inl, inr,
}
use utcs.KernelList.Order.{AllBefore, IsSorted}
use utcs.Threads.{Kernel, is_running, set_priority, priority_of, less_priority}
use utcs.Threads.Schedule.{thread_current, thread_yield}
use utcs.Threads.Schedule.Queue.{AllAtMost, RunsHighest}
use utcs.Threads.Schedule.Yield.{yielded, thread_yield_lem}
use utcs.Threads.Schedule.Unblock.{priority-yielded, Chosen-RunsHighest}
use utcs.Threads.Timer.Wake.{Differs}
use utcs.Threads.Priority.{assign_priority, donate_waiting, yield_to_front, thread_set_priority}

donate_waiting-none : (k : Kernel) (cur : ℕ) → donate_waiting k cur none ≡ some k
unfolding donate_waiting
donate_waiting-none k cur = refl

assign_free : (k : Kernel) (cur p : ℕ) → assign_priority k cur [] p ≡ set_priority k cur p
unfolding assign_priority
assign_free k cur p = refl

set_free :
    (k : Kernel) (p : ℕ)
    → is_running (k.threads k.current).status ≡ true
    → (k.threads k.current).locks ≡ []
    → (k.threads k.current).waiting_lock ≡ none
    → thread_set_priority k p ≡ yield_to_front (set_priority k k.current p) k.ready_list p
unfolding thread_set_priority thread_current
set_free k p run none_held free =
    simp (run, none_held, assign_free, ==_refl k.current, free, donate_waiting-none)

-- The thread's new priority, and those of the others.
at_change : (k : Kernel) (cur p : ℕ) → priority_of (set_priority k cur p) cur ≡ p
at_change k cur p = ground (arith, ==_refl cur)

off_change :
    (k : Kernel) (cur p t : ℕ)
    → (t == cur) ≡ false
    → priority_of (set_priority k cur p) t ≡ priority_of k t
off_change k cur p t ne = ground arith

all_after :
    (k : Kernel) (p bound t : ℕ) (xs : List ℕ)
    → AllBefore (less_priority (priority_of k)) t xs
    → Differs k.current xs
    → priority_of k t ≤ bound
    → AllAtMost (priority_of (set_priority k k.current p)) bound xs
all_after k p bound t [] all d le = tt
all_after k p bound t (x ∷ xs) (b, all) (ne, d) le =
    (ground (arith, off_change k k.current p x ne, b, le), all_after k p bound t xs all d le)

-- The thread makes way.
change_yields :
    (k : Kernel)
    → is_running (k.threads k.current).status ≡ true
    → k.intr_context ≡ false
    → (k' : Kernel) × (thread_yield k ≡ some k') × RunsHighest k' × (priority_of k' ≡ priority_of k)
change_yields k run ctx =
    let (next, rest, e, c) = thread_yield_lem k run ctx in
    (yielded k next rest, e, Chosen-RunsHighest k next rest c, priority-yielded k next rest)

front_case :
    (k : Kernel) (p : ℕ) (xs : List ℕ)
    → is_running ((set_priority k k.current p).threads k.current).status ≡ true
    → k.intr_context ≡ false
    → k.ready_list ≡ xs
    → IsSorted (less_priority (priority_of k)) xs
    → Differs k.current xs
    → (k' : Kernel) × (yield_to_front (set_priority k k.current p) xs p ≡ some k')
      × RunsHighest k'
      × (priority_of k' k.current ≡ p)
unfolding yield_to_front
front_case k p [] run ctx e o d = (
  set_priority k k.current p,
  refl,
  record { highest = λ other. rw e tt },
  at_change k k.current p,
)
front_case k p (t ∷ rest) run ctx e (all, o) (ne, d) =
    let k1 = set_priority k k.current p in
    let pt = off_change k k.current p t ne in
    elim (Bool-cases (ltb p (priority_of k1 t))) [
      | inl lower ↦
          let (k', e', high, same) = change_yields k1 run ctx in
          (k', rw lower e', high, ap (λ (f : ℕ → ℕ). f k.current) same ∙ at_change k k.current p)
      | inr not_lower ↦ (
        k1,
        rw not_lower,
        record {
          highest = λ other. subst (AllAtMost (priority_of k1) (priority_of k1 k.current)) (sym e) (
              subst (λ (n : ℕ). AllAtMost (priority_of k1) n (t ∷ rest))
                (sym (at_change k k.current p))
                (
                  ground (arith, not_lower),
                  all_after k p p t rest all d (ground (arith, pt, not_lower)),
                ));
        },
        at_change k k.current p,
      )
    ]

-- thread_set_priority by a running thread outside of a handler that neither holds a lock nor waits
-- for one, where the ready list is in order and the thread is not in it: it ends, the thread has the
-- new priority, and the thread that runs then has the highest priority of all that could run.
pub thread_set_priority_lem :
    (k : Kernel) (p : ℕ)
    → is_running (k.threads k.current).status ≡ true
    → k.intr_context ≡ false
    → (k.threads k.current).locks ≡ []
    → (k.threads k.current).waiting_lock ≡ none
    → IsSorted (less_priority (priority_of k)) k.ready_list
    → Differs k.current k.ready_list
    → (k' : Kernel) × (thread_set_priority k p ≡ some k')
      × RunsHighest k'
      × (priority_of k' k.current ≡ p)
thread_set_priority_lem k p run ctx none_held free o d =
    let run' : is_running ((set_priority k k.current p).threads k.current).status ≡ true =
      rw (==_refl k.current) run in
    let (k', e, high, at) = front_case k p k.ready_list run' ctx refl o d in
    (k', set_free k p run none_held free ∙ e, high, at)
