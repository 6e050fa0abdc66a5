-- ===== src/Proc.antt =====
-- src/kernel/proc.c and src/inc/uproc.h: the free list of tasks and the lookup of a task.
pub mod Tasks
pub mod Vm
pub mod Gdt
mod Tests
use cezos.Base.{ℕ, zero, suc, ◌+◌, ◌-◌, ◌==◌, not, if◌then◌else◌, Option, none, some}

-- PROC_COUNT
abbrev pub proc_count : ℕ
proc_count = 1024

-- The fields of `struct task_struct` that proc.c uses. A `struct task_struct *` is an index of `tasks`.
pub record Task : Type 0 where
  pub pid : ℕ
  pub ppid : ℕ
  pub next_free : Option ℕ

pub record Procs : Type 0 where
  pub tasks : ℕ → Task
  pub current : Option ℕ
  pub free_tasks : Option ℕ

-- `tasks[i].pid = pid` and `tasks[i].next_free = q`
unfoldable pub set_pid : ℕ → ℕ → Procs → Procs
set_pid i n s = record s {
  tasks = λ j. if j == i then record (s.tasks j) { pid = n } else s.tasks j;
}

unfoldable pub set_next_free : ℕ → Option ℕ → Procs → Procs
set_next_free i q s = record s {
  tasks = λ j. if j == i then record (s.tasks j) { next_free = q } else s.tasks j;
}

-- One round of the loop of `init_procs`.
unfoldable pub init_task : ℕ → Procs → Procs
init_task i s =
    if i == 0
    then set_pid 0 0 (record s { free_tasks = some 0 })
    else set_next_free (i - 1) (some i) (set_pid i 0 s)

-- The rounds below `n`.
unfoldable pub init_tasks : ℕ → Procs → Procs
init_tasks zero s = s
init_tasks (suc n) s = init_task n (init_tasks n s)

unfoldable pub init_procs : Procs → Procs
init_procs s = set_next_free (proc_count - 1) none (init_tasks proc_count s)

-- `pid_to_proc`, for a pid that is not negative. The address of an element of `tasks` is not NULL;
-- that the address of `tasks[pid]` wraps around for a pid far behind the array is left aside.
-- Where permissions are checked, the code reads the pid of `current`, which is the task then.
unfoldable pub pid_to_proc : ℕ → ℕ → Procs → Option ℕ
pid_to_proc pid check_perms s =
    if pid == 0 then s.current else if check_perms == 0 then some pid else elim s.current [
      | none ↦ none
      | some c ↦
          if not (pid == c)
          then none
          else if not ((s.tasks pid).ppid == (s.tasks c).pid)
          then none
          else some pid
    ]
