-- ===== src/Threads/Schedule/Queue.antt =====
-- The order of the ready list and of the waiters in CS439/Project1: by priority, and first come
-- first served among equal priorities.
use utcs.Prelude.{ℕ, ◌≤◌, ◌≡◌, fun_ext, false, List, [], ◌∷◌, ==_iff, arith}
use utcs.KernelList.Order.{IsWeakOrder, AllBefore}
use utcs.Threads.{Kernel, Status, set_status, less_priority, priority_of, points_to}

pub less_priority-IsWeakOrder : (priority : ℕ → ℕ) → IsWeakOrder (less_priority priority)
less_priority-IsWeakOrder priority = record {
  one_way = λ a b h. ground arith;
  passes_on = λ a b c h k. ground arith;
}

-- No thread of the list has a priority above `p`.
abbrev pub AllAtMost : (priority : ℕ → ℕ) → (p : ℕ) → List ℕ → Type 0
AllAtMost priority p [] = Unit
AllAtMost priority p (t ∷ rest) = (priority t ≤ p) × AllAtMost priority p rest

pub AllBefore-AllAtMost :
    (priority : ℕ → ℕ) (t : ℕ) (xs : List ℕ)
    → AllBefore (less_priority priority) t xs
    → AllAtMost priority (priority t) xs
AllBefore-AllAtMost priority t [] all = tt
AllBefore-AllAtMost priority t (x ∷ xs) (b, all) =
    (ground arith, AllBefore-AllAtMost priority t xs all)

pub priority-set_status :
    (k : Kernel) (t : ℕ) (s : Status) → priority_of (set_status k t s) ≡ priority_of k
priority-set_status k t s = fun_ext (λ n. ground (arith, ==_iff n t))

-- The running thread, if it is not the idle thread, has the highest priority of all that could run.
pub record RunsHighest (k : Kernel) : Type 0 where
  pub highest :
      points_to k.idle_thread k.current ≡ false
      → AllAtMost (priority_of k) (priority_of k k.current) k.ready_list
