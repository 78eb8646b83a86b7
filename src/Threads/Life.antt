-- ===== src/Threads/Life.antt =====
-- The beginning and the end of a thread in threads/thread.c of CS439/Project1: init_thread,
-- thread_init, thread_exit and the search for a thread.
pub mod Boot
use utcs.Prelude.{
  ℕ, Bool, true, false, not, List, [], ◌∷◌, Option, none, some, ◌==◌, if◌then◌else◌, leb, ◌>>=◌,
  ◌>>◌, check,
}
use utcs.KernelList.{push_back}
use utcs.Threads.{
  Kernel, Thread, Status, running, blocked, dying, SemaAt, set_thread, set_status, list_remove,
}
use utcs.Threads.Schedule.{thread_current, schedule}
use utcs.Threads.Semas.{sema_init}
use utcs.Threads.Locks.{lock_init}

-- PRI_DEFAULT and PRI_MAX
abbrev pub pri_default : ℕ
pri_default = 31

abbrev pub pri_max : ℕ
pri_max = 63

-- The members of a thread whose page was cleared, as init_thread sets them up to `waiting_lock`.
pub cleared : (priority : ℕ) → Thread
cleared p = record {
  tid = 0;
  status = blocked;
  priority = p;
  wake_on_ticks = 0;
  waiting_lock = none;
  locks = [];
  children = [];
  parent = none;
}

-- init_thread
pub init_thread : Kernel → (t : ℕ) → (priority : ℕ) → Option Kernel
unfolding cleared thread_current
init_thread k t p = do
  check (leb p pri_max)
  let k1 = sema_init (set_thread k t (cleared p)) (SemaAt.of_sleep t) 0
  cur ← thread_current k1
  let k2 = set_thread k1 t (record (k1.threads t) { parent = some cur })
  let adopted = push_back (k2.threads cur).children t
  let k3 = set_thread k2 cur (record (k2.threads cur) { children = adopted })
  some (record k3 { all_list = push_back k3.all_list t })

-- The lock of allocate_tid.
abbrev pub tid_lock : ℕ
tid_lock = 0

-- thread_init up to the tid, which allocate_tid gives the initial thread.
pub thread_init : Kernel → Option Kernel
thread_init k = do
  let k1 = record (lock_init k tid_lock) { ready_list = []; all_list = []; sleep_list = [] }
  let initial = k1.current
  k2 ← init_thread (record k1 { initial_thread = some initial }) initial pri_default
  some (set_status k2 initial running)

-- `list_remove (&thread_current()->childelem)`: the thread is in its parent's list of children.
pub leave_parent : Kernel → (t : ℕ) → (parent : Option ℕ) → Option Kernel
leave_parent k t none = none
leave_parent k t (some parent) = do
  children' ← list_remove (k.threads parent).children t
  some (set_thread k parent (record (k.threads parent) { children = children' }))

-- thread_exit
pub thread_exit : Kernel → Option Kernel
unfolding leave_parent
thread_exit k = do
  check (not k.intr_context)
  cur ← thread_current k
  k1 ← leave_parent k cur (k.threads cur).parent
  all ← list_remove k1.all_list cur
  schedule (set_status (record k1 { all_list = all }) cur dying)

-- get_thread_by_tid, over `all_list`
pub get_thread_by_tid : Kernel → List ℕ → (tid : ℕ) → Option ℕ
get_thread_by_tid k [] tid = none
get_thread_by_tid k (t ∷ rest) tid =
    if (k.threads t).tid == tid then some t else get_thread_by_tid k rest tid
