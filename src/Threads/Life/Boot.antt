-- ===== src/Threads/Life/Boot.antt =====
-- thread_init of threads/thread.c in CS439/Project1: why it fails.
use utcs.Prelude.{ℕ, ◌≡◌, none, leb, ==_refl, Bool-cases, inl, inr}
use utcs.Threads.{Kernel}
use utcs.Threads.Life.{init_thread, thread_init}

-- init_thread blocks the thread before it asks for the running one.
init_current : (k : Kernel) (p : ℕ) → init_thread k k.current p ≡ none
unfolding init_thread
init_current k p = elim (Bool-cases (leb p 63)) [ inl h ↦ rw (h, ==_refl k.current) | inr h ↦ rw h ]

-- thread_init never ends: init_thread makes the running thread a blocked one and then calls
-- thread_current, which asserts that it is running.
pub thread_init-none : (k : Kernel) → thread_init k ≡ none
unfolding thread_init
thread_init-none k = simp init_current
