-- ===== src/Threads.antt =====
-- threads/thread.h, threads/synch.h of CS439/Project1: the members of a thread, a semaphore and a
-- lock, and what the kernel knows of them all. A thread and a lock are named by their addresses; a
-- priority is a number from PRI_MIN 0 up, and -1 is `none`. The magic number of a thread, its name
-- and its stack are not modelled.
pub mod Schedule
pub mod Semas
pub mod Donation
pub mod Locks
pub mod Condition
pub mod Timer
pub mod Life
pub mod Priority
mod Examples
use utcs.Prelude.{
  ℕ, Bool, true, false, List, [], ◌∷◌, Option, none, some, ◌==◌, if◌then◌else◌, ltb, ◌>>=◌,
}

pub data Status : Type 0 where
  running : Status
  ready : Status
  blocked : Status
  dying : Status

abbrev pub is_running : Status → Bool
is_running running = true
is_running ready = false
is_running blocked = false
is_running dying = false

abbrev pub is_blocked : Status → Bool
is_blocked blocked = true
is_blocked running = false
is_blocked ready = false
is_blocked dying = false

abbrev pub is_dying : Status → Bool
is_dying dying = true
is_dying running = false
is_dying ready = false
is_dying blocked = false

pub record Thread : Type 0 where
  pub tid : ℕ
  pub status : Status
  pub priority : ℕ
  pub wake_on_ticks : ℕ
  pub waiting_lock : Option ℕ
  pub locks : List ℕ
  pub children : List ℕ
  pub parent : Option ℕ

pub record Semaphore : Type 0 where
  pub value : ℕ
  pub waiters : List ℕ

-- Where a semaphore stands: in a lock, as a thread's `sleep_sema`, on a waiter's stack, elsewhere.
pub data SemaAt : Type 0 where
  of_lock : ℕ → SemaAt
  of_sleep : ℕ → SemaAt
  of_waiter : ℕ → SemaAt
  other : ℕ → SemaAt

abbrev pub same_sema : SemaAt → SemaAt → Bool
same_sema (SemaAt.of_lock a) (SemaAt.of_lock b) = a == b
same_sema (SemaAt.of_lock a) (SemaAt.of_sleep b) = false
same_sema (SemaAt.of_lock a) (SemaAt.of_waiter b) = false
same_sema (SemaAt.of_lock a) (SemaAt.other b) = false
same_sema (SemaAt.of_sleep a) (SemaAt.of_lock b) = false
same_sema (SemaAt.of_sleep a) (SemaAt.of_sleep b) = a == b
same_sema (SemaAt.of_sleep a) (SemaAt.of_waiter b) = false
same_sema (SemaAt.of_sleep a) (SemaAt.other b) = false
same_sema (SemaAt.of_waiter a) (SemaAt.of_lock b) = false
same_sema (SemaAt.of_waiter a) (SemaAt.of_sleep b) = false
same_sema (SemaAt.of_waiter a) (SemaAt.of_waiter b) = a == b
same_sema (SemaAt.of_waiter a) (SemaAt.other b) = false
same_sema (SemaAt.other a) (SemaAt.of_lock b) = false
same_sema (SemaAt.other a) (SemaAt.of_sleep b) = false
same_sema (SemaAt.other a) (SemaAt.of_waiter b) = false
same_sema (SemaAt.other a) (SemaAt.other b) = a == b

pub record Lock : Type 0 where
  pub holder : Option ℕ
  pub highest_donation : Option ℕ
  pub old_priority : Option ℕ

-- The static variables of threads/thread.c and devices/timer.c, what the addresses hold, the thread
-- that runs, and the state of threads/interrupt.c that the operations read and set. `freed` lists
-- the pages that palloc_free_page was given.
pub record Kernel : Type 0 where
  pub threads : ℕ → Thread
  pub locks : ℕ → Lock
  pub semas : SemaAt → Semaphore
  pub ready_list : List ℕ
  pub all_list : List ℕ
  pub sleep_list : List ℕ
  pub idle_thread : Option ℕ
  pub initial_thread : Option ℕ
  pub current : ℕ
  pub next_tid : ℕ
  pub ticks : ℕ
  pub idle_ticks : ℕ
  pub kernel_ticks : ℕ
  pub thread_ticks : ℕ
  pub intr_context : Bool
  pub yield_on_return : Bool
  pub freed : List ℕ

module _ {ℓ} {A : Type ℓ} where
  abbrev pub assign : (ℕ → A) → ℕ → A → ℕ → A
  assign f at v n = if n == at then v else f n

-- An assignment to a thread's, a lock's or a semaphore's members.
abbrev pub set_thread : Kernel → ℕ → Thread → Kernel
set_thread k t v = record k { threads = assign k.threads t v }

abbrev pub set_lock : Kernel → ℕ → Lock → Kernel
set_lock k l v = record k { locks = assign k.locks l v }

abbrev pub set_sema : Kernel → SemaAt → Semaphore → Kernel
set_sema k s v = record k { semas = λ x. if same_sema x s then v else k.semas x }

abbrev pub set_status : Kernel → ℕ → Status → Kernel
set_status k t s = set_thread k t (record (k.threads t) { status = s })

abbrev pub set_priority : Kernel → ℕ → ℕ → Kernel
set_priority k t p = set_thread k t (record (k.threads t) { priority = p })

-- The priorities of the threads, by which the lists are sorted.
abbrev pub priority_of : Kernel → ℕ → ℕ
priority_of k t = (k.threads t).priority

-- less_priority
abbrev pub less_priority : (ℕ → ℕ) → ℕ → ℕ → Bool
less_priority priority a b = ltb (priority b) (priority a)

-- Is the pointer equal to a thread's, NULL being equal to none?
abbrev pub points_to : Option ℕ → ℕ → Bool
points_to none t = false
points_to (some u) t = u == t

-- list_remove of lib/kernel/list.c, from the list that the element is in; that it is in none is a
-- fault.
unfoldable pub list_remove : List ℕ → (elem : ℕ) → Option (List ℕ)
list_remove [] elem = none
list_remove (e ∷ rest) elem =
    let later = (do rest' ← list_remove rest elem; some (e ∷ rest')) in
    if e == elem then some rest else later
