-- ===== src/Threads/Schedule/Yield.antt =====
-- thread_yield and thread_unblock of threads/thread.c in CS439/Project1.
use mathlib.Core.List.Perm
use utcs.Prelude.{
  ℕ, ◌≡◌, refl, sym, ◌∙◌, ap, subst, true, false, List, [], ◌∷◌, ◌++◌, Option, some, none,
  if◌then◌else◌, ◌==◌, ==_iff, ==_refl, Bool-cases, inl, inr, ◌⊎◌,
}
use utcs.KernelList.{sort}
use utcs.KernelList.Sort.{SortOf, sort_lem}
use utcs.KernelList.Queue.{insert_ordered-cons, insert_ordered-SortOf}
use utcs.Threads.{
  Kernel, running, ready, is_running, is_dying, set_status, less_priority, priority_of, points_to,
}
use utcs.Threads.Schedule.{destroy, next_thread_to_run, schedule, enqueue, yield_from, thread_yield}
use utcs.Threads.Schedule.Queue.{less_priority-IsWeakOrder}

-- `next` runs and `rest` is the ready list.
abbrev pub dispatched : Kernel → (next : ℕ) → (rest : List ℕ) → Kernel
dispatched k next rest =
    record (set_status (record k { ready_list = rest; current = next }) next running) {
      thread_ticks = 0;
    }

destroy-none : (k : Kernel) → destroy none k ≡ some k
unfolding destroy
destroy-none k = refl

destroy_alive :
    (prev : ℕ) (k : Kernel)
    → is_dying (k.threads prev).status ≡ false
    → destroy (some prev) k ≡ some k
unfolding destroy
destroy_alive prev k h = rw h

-- schedule, for a thread that is neither running nor dying.
pub schedule-dispatched :
    (k : Kernel) (next : ℕ) (rest : List ℕ)
    → is_running (k.threads k.current).status ≡ false
    → is_dying (k.threads k.current).status ≡ false
    → next_thread_to_run k.ready_list k.idle_thread ≡ (some next, rest)
    → schedule k ≡ some (dispatched k next rest)
unfolding schedule
schedule-dispatched k next rest r d e = elim (Bool-cases (k.current == next)) [
  | inl same ↦ rw (r, e, same) (destroy-none (dispatched k next rest))
  | inr other ↦ rw (r, e, other) (destroy_alive k.current (dispatched k next rest) (rw other d))
]

-- The threads that could run: those that are ready and the running thread, unless that is idle.
abbrev pub candidates : Kernel → List ℕ
candidates k =
    if points_to k.idle_thread k.current then k.ready_list else k.ready_list ++ k.current ∷ []

-- The running thread is ready, `next` runs and `rest` is the ready list.
abbrev pub yielded : Kernel → (next : ℕ) → (rest : List ℕ) → Kernel
yielded k next rest = dispatched (set_status k k.current ready) next rest

-- `next` and then `rest` are the candidates by priority; with none, the idle thread goes on.
abbrev pub Chosen : Kernel → (next : ℕ) → (rest : List ℕ) → Type 0
Chosen k next rest =
    SortOf (less_priority (priority_of k)) (candidates k) (next ∷ rest)
    ⊎ ((candidates k ≡ []) × (next ≡ k.current) × (rest ≡ []))

points_to-eq : (o : Option ℕ) (t : ℕ) → points_to o t ≡ true → o ≡ some t
points_to-eq none t h = absurd (cc h)
points_to-eq (some u) t h = ap (λ (n : ℕ). some n) ((==_iff u t).0 h)

thread_yield-eq :
    (k : Kernel)
    → is_running (k.threads k.current).status ≡ true
    → k.intr_context ≡ false
    → thread_yield k ≡ yield_from k k.current
unfolding thread_yield
thread_yield-eq k run ctx = rw (run, ctx)

yield_of :
    (k : Kernel) (sorted : List ℕ) (next : ℕ) (rest : List ℕ)
    → sort (less_priority (priority_of k)) k.ready_list ≡ some sorted
    → next_thread_to_run (enqueue k k.current sorted) k.idle_thread ≡ (some next, rest)
    → yield_from k k.current ≡ some (yielded k next rest)
unfolding yield_from
yield_of k sorted next rest s e = rw s (
    schedule-dispatched
      (set_status (record k { ready_list = enqueue k k.current sorted }) k.current ready) next rest
      (rw (==_refl k.current) refl) (rw (==_refl k.current) refl) e)

-- What the idle thread leaves: the front of the ready list, or itself.
idle_choice :
    (k : Kernel) (sorted : List ℕ)
    → points_to k.idle_thread k.current ≡ true
    → SortOf (less_priority (priority_of k)) k.ready_list sorted
    → (next : ℕ) × (rest : List ℕ) × (next_thread_to_run (enqueue k k.current sorted) k.idle_thread
        ≡ (some next, rest))
      × Chosen k next rest
unfolding next_thread_to_run enqueue
idle_choice k [] idle s = (
  k.current,
  [],
  rw (idle, points_to-eq k.idle_thread k.current idle),
  inr (rw idle (sym (Perm.nil-eq s.perm)), refl, refl),
)
idle_choice k (t ∷ ts) idle s = (t, ts, rw idle, inl (rw idle s))

other_choice :
    (k : Kernel) (sorted : List ℕ)
    → points_to k.idle_thread k.current ≡ false
    → SortOf (less_priority (priority_of k)) k.ready_list sorted
    → (next : ℕ) × (rest : List ℕ) × (next_thread_to_run (enqueue k k.current sorted) k.idle_thread
        ≡ (some next, rest))
      × Chosen k next rest
unfolding next_thread_to_run enqueue
other_choice k sorted other s =
    let w = less_priority-IsWeakOrder (priority_of k) in
    let (t, ts, e) = insert_ordered-cons (less_priority (priority_of k)) sorted k.current in
    let all = insert_ordered-SortOf w k.ready_list sorted k.current s in
    (
      t,
      ts,
      rw (other, e),
      inl (
          rw other (
            subst (SortOf (less_priority (priority_of k)) (k.ready_list ++ k.current ∷ [])) e all)),
    )

-- A running thread that is not in an interrupt's handler can call thread_yield: the next thread is
-- the one of highest priority among those that are ready and itself (unless it is the idle
-- thread), of these the one that has waited longest, and the others stay ready in that order. With
-- nothing ready the idle thread goes on.
pub thread_yield_lem :
    (k : Kernel)
    → is_running (k.threads k.current).status ≡ true
    → k.intr_context ≡ false
    → (next : ℕ) × (rest : List ℕ) × (thread_yield k ≡ some (yielded k next rest))
      × Chosen k next rest
thread_yield_lem k run ctx =
    let w = less_priority-IsWeakOrder (priority_of k) in
    let (sorted, e, s) = sort_lem w k.ready_list in
    let (next, rest, front, chosen) =
      choice k sorted s (Bool-cases (points_to k.idle_thread k.current)) in
    (next, rest, thread_yield-eq k run ctx ∙ yield_of k sorted next rest e front, chosen)
  where
    choice :
        (k : Kernel) (sorted : List ℕ)
        → SortOf (less_priority (priority_of k)) k.ready_list sorted
        → (points_to k.idle_thread k.current ≡ true) ⊎ (points_to k.idle_thread k.current ≡ false)
        → (next : ℕ) × (rest : List ℕ) × (next_thread_to_run
              (enqueue k k.current sorted)
              k.idle_thread
            ≡ (some next, rest))
          × Chosen k next rest
    choice k sorted s (inl idle) = idle_choice k sorted idle s
    choice k sorted s (inr other) = other_choice k sorted other s
