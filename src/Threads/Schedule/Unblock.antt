-- ===== src/Threads/Schedule/Unblock.antt =====
-- thread_unblock of threads/thread.c and intr_handler of threads/interrupt.c in CS439/Project1: the
-- running thread has the highest priority.
use utcs.Prelude.{
  ℕ, ◌≤◌, ◌<◌, ◌≡◌, refl, sym, ap, lt→ltb, ◌∙◌, subst, Bool, true, false, not, ◌&&◌, List, [], ◌∷◌,
  some, ltb, ◌==◌, ne→==_false, arith, Bool-cases, inl, inr, ◌⊎◌,
}
use utcs.KernelList.{insert_ordered}
use utcs.Threads.{
  Kernel, Status, running, ready, blocked, dying, is_running, is_blocked, set_status, less_priority,
  priority_of, points_to,
}
use utcs.Threads.Schedule.{thread_yield, preempt, thread_unblock}
use utcs.Threads.Schedule.Queue.{AllAtMost, AllBefore-AllAtMost, priority-set_status, RunsHighest}
use utcs.Threads.Schedule.Yield.{Chosen, yielded, thread_yield_lem}

-- The idle thread runs, or no ready thread has a higher priority than the running one, or, in the
-- handler of an interrupt, a yield is due when it returns.
abbrev pub Fair : Kernel → Type 0
Fair k = ((k.intr_context ≡ true) × (k.yield_on_return ≡ true)) ⊎ RunsHighest k

pub priority-yielded :
    (k : Kernel) (next : ℕ) (rest : List ℕ) → priority_of (yielded k next rest) ≡ priority_of k
priority-yielded k next rest =
    priority-set_status
      (record (set_status k k.current ready) { ready_list = rest; current = next }) next running
    ∙ priority-set_status k k.current ready

Chosen-AllAtMost :
    (k : Kernel) (next : ℕ) (rest : List ℕ)
    → Chosen k next rest
    → AllAtMost (priority_of k) (priority_of k next) rest
Chosen-AllAtMost k next rest (inl s) = AllBefore-AllAtMost (priority_of k) next rest (s.sorted.0)
Chosen-AllAtMost k next rest (inr (_, _, e)) =
    subst (AllAtMost (priority_of k) (priority_of k next)) (sym e) tt

pub Chosen-RunsHighest :
    (k : Kernel) (next : ℕ) (rest : List ℕ) → Chosen k next rest → RunsHighest (yielded k next rest)
Chosen-RunsHighest k next rest c = record {
  highest = λ other.
      subst (λ (p : ℕ → ℕ). AllAtMost p (p next) rest) (sym (priority-yielded k next rest))
        (Chosen-AllAtMost k next rest c);
}

-- A thread that calls thread_yield outside of a handler leaves a thread of highest priority running.
pub thread_yield-RunsHighest :
    (k : Kernel)
    → is_running (k.threads k.current).status ≡ true
    → k.intr_context ≡ false
    → (k' : Kernel) × (thread_yield k ≡ some k') × RunsHighest k'
thread_yield-RunsHighest k run ctx =
    let (next, rest, e, c) = thread_yield_lem k run ctx in
    (yielded k next rest, e, Chosen-RunsHighest k next rest c)

-- What preempt may rely on: if `t` has no higher priority then nor has any other ready thread.
abbrev Ready : Kernel → ℕ → Type 0
Ready k t =
    ((k.intr_context ≡ true) × (k.yield_on_return ≡ true))
    ⊎ (points_to k.idle_thread k.current ≡ false
        → priority_of k t ≤ priority_of k k.current
        → AllAtMost (priority_of k) (priority_of k k.current) k.ready_list)

preempt_stay :
    (k : Kernel) (t : ℕ)
    → is_running (k.threads k.current).status ≡ true
    → (not (points_to k.idle_thread k.current) && ltb (priority_of k k.current) (priority_of k t))
      ≡ false
    → Ready k t
    → (k' : Kernel) × (preempt k t ≡ some k') × Fair k'
unfolding preempt
preempt_stay k t run stay (inl due) = (k, rw (run, stay), inl due)
preempt_stay k t run stay (inr all) =
    (k, rw (run, stay), inr (record { highest = λ other. all other (ground (arith, stay, other)) }))

preempt-yield :
    (k : Kernel) (t : ℕ)
    → is_running (k.threads k.current).status ≡ true
    → (not (points_to k.idle_thread k.current) && ltb (priority_of k k.current) (priority_of k t))
      ≡ true
    → k.intr_context ≡ false
    → preempt k t ≡ thread_yield k
unfolding preempt
preempt-yield k t run leave ctx = simp (run, leave, ctx)

preempt_leave :
    (k : Kernel) (t : ℕ)
    → is_running (k.threads k.current).status ≡ true
    → (not (points_to k.idle_thread k.current) && ltb (priority_of k k.current) (priority_of k t))
      ≡ true
    → (k.intr_context ≡ true) ⊎ (k.intr_context ≡ false)
    → (k' : Kernel) × (preempt k t ≡ some k') × Fair k'
unfolding preempt
preempt_leave k t run leave (inl ctx) =
    (record k { yield_on_return = true }, rw (run, leave, ctx), inl (ctx, refl))
preempt_leave k t run leave (inr ctx) =
    let (k', e, high) = thread_yield-RunsHighest k run ctx in
    (k', preempt-yield k t run leave ctx ∙ e, inr high)

preempt-Fair :
    (k : Kernel) (t : ℕ)
    → is_running (k.threads k.current).status ≡ true
    → Ready k t
    → (k' : Kernel) × (preempt k t ≡ some k') × Fair k'
preempt-Fair k t run r =
    elim (Bool-cases (
      not (points_to k.idle_thread k.current) && ltb (priority_of k k.current) (priority_of k t))) [
        | inl leave ↦ preempt_leave k t run leave (Bool-cases k.intr_context)
        | inr stay ↦ preempt_stay k t run stay r
      ]

insert_ordered-AllAtMost :
    (priority : ℕ → ℕ) (p : ℕ) (xs : List ℕ) (t : ℕ)
    → AllAtMost priority p xs
    → priority t ≤ p
    → AllAtMost priority p (insert_ordered (less_priority priority) xs t)
unfolding insert_ordered
insert_ordered-AllAtMost priority p [] t all h = (h, tt)
insert_ordered-AllAtMost priority p (x ∷ xs) t (hx, all) h =
    elim (Bool-cases (less_priority priority t x)) [
      | inl e ↦ rw e (h, (hx, all))
      | inr e ↦ rw e (hx, insert_ordered-AllAtMost priority p xs t all h)
    ]

-- `t` is in its place in the ready list, and ready.
abbrev pub in_list : Kernel → ℕ → Kernel
in_list k t = record k {
  ready_list = insert_ordered (less_priority (priority_of k)) k.ready_list t;
}

abbrev pub unblocked : Kernel → ℕ → Kernel
unblocked k t = set_status (in_list k t) t ready

unblocked-Ready : (k : Kernel) (t : ℕ) → Fair k → Ready (unblocked k t) t
unblocked-Ready k t (inl due) = inl due
unblocked-Ready k t (inr high) = inr (λ other h.
    subst
      (λ (p : ℕ → ℕ).
        p t ≤ p k.current
        → AllAtMost p (p k.current) (insert_ordered (less_priority (priority_of k)) k.ready_list t))
      (sym (priority-set_status k t ready))
      (insert_ordered-AllAtMost (priority_of k) (priority_of k k.current) k.ready_list t
        (high.highest other))
      h)

pub not_both :
    (k : Kernel) (t u : ℕ)
    → is_running (k.threads u).status ≡ true
    → is_blocked (k.threads t).status ≡ true
    → (u == t) ≡ false
not_both k t u r b = ne→==_false u t (λ e. both (k.threads u).status r (rw e b))
  where
    both : (s : Status) → is_running s ≡ true → is_blocked s ≡ true → ⊥
    both running r b = cc b
    both ready r b = cc b
    both blocked r b = cc r
    both dying r b = cc b

thread_unblock-eq :
    (k : Kernel) (t : ℕ)
    → is_blocked (k.threads t).status ≡ true
    → thread_unblock k t ≡ preempt (unblocked k t) t
unfolding thread_unblock
thread_unblock-eq k t b = rw b

pub thread_unblock-Fair :
    (k : Kernel) (t : ℕ)
    → is_running (k.threads k.current).status ≡ true
    → is_blocked (k.threads t).status ≡ true
    → Fair k
    → (k' : Kernel) × (thread_unblock k t ≡ some k') × Fair k'
thread_unblock-Fair k t run b fair =
    let still : is_running ((unblocked k t).threads k.current).status ≡ true =
      rw (not_both k t k.current run b) run in
    let (k', e, f) = preempt-Fair (unblocked k t) t still (unblocked-Ready k t fair) in
    (k', thread_unblock-eq k t b ∙ e, f)

-- Outside of a handler a thread other than the idle one yields to a thread of higher priority.
pub thread_unblock-thread_yield :
    (k : Kernel) (t : ℕ)
    → is_running (k.threads k.current).status ≡ true
    → is_blocked (k.threads t).status ≡ true
    → k.intr_context ≡ false
    → points_to k.idle_thread k.current ≡ false
    → priority_of k k.current < priority_of k t
    → thread_unblock k t ≡ thread_yield (unblocked k t)
thread_unblock-thread_yield k t run b ctx not_idle h =
    thread_unblock-eq k t b
    ∙ preempt-yield (unblocked k t) t (rw (not_both k t k.current run b) run) leave ctx
  where
    outranks : ltb (priority_of (unblocked k t) k.current) (priority_of (unblocked k t) t) ≡ true
    outranks =
        ap (λ (p : ℕ → ℕ). ltb (p k.current) (p t)) (priority-set_status (in_list k t) t ready)
        ∙ lt→ltb _ _ h

    leave :
        (not (points_to k.idle_thread k.current)
          && ltb (priority_of (unblocked k t) k.current) (priority_of (unblocked k t) t))
        ≡ true
    leave = rw not_idle outranks

preempt_interrupt :
    (k : Kernel) (t : ℕ)
    → is_running (k.threads k.current).status ≡ true
    → k.intr_context ≡ true
    → (due : Bool) × (preempt k t ≡ some (record k { yield_on_return = due }))
unfolding preempt
preempt_interrupt k t run ctx =
    elim (Bool-cases (
      not (points_to k.idle_thread k.current) && ltb (priority_of k k.current) (priority_of k t))) [
        | inl leave ↦ (true, rw (run, leave, ctx))
        | inr stay ↦ (k.yield_on_return, rw (run, stay))
      ]

-- In the handler of an interrupt no other thread runs at once.
pub unblock_interrupt :
    (k : Kernel) (t : ℕ)
    → is_running (k.threads k.current).status ≡ true
    → is_blocked (k.threads t).status ≡ true
    → k.intr_context ≡ true
    → (due : Bool) × (thread_unblock k t ≡ some (record (unblocked k t) { yield_on_return = due }))
unblock_interrupt k t run b ctx =
    let still : is_running ((unblocked k t).threads k.current).status ≡ true =
      rw (not_both k t k.current run b) run in
    let (due, e) = preempt_interrupt (unblocked k t) t still ctx in
    (due, thread_unblock-eq k t b ∙ e)
