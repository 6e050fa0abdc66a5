-- ===== src/Proc/Tasks.antt =====
-- What init_procs leaves, and which tasks pid_to_proc gives away.
use cezos.Base.{ℕ, zero, suc, ◌+◌, ◌≤◌, ◌<◌, ◌≡◌, ◌≢◌, ◌↔◌, refl, none, some, arith}
use cezos.Proc.{
  Procs, proc_count, set_pid, set_next_free, init_task, init_tasks, init_procs, pid_to_proc,
}

-- The tasks below `n` are linked in order, have pid 0, and the others are as in `s`.
pub record Linked (n : ℕ) (s t : Procs) : Type 0 where
  pub links : (i : ℕ) → i + 1 < n → (t.tasks i).next_free ≡ some (i + 1)
  pub pids : (i : ℕ) → i < n → (t.tasks i).pid ≡ 0
  pub others : (i : ℕ) → n ≤ i → t.tasks i ≡ s.tasks i
  pub head : 0 < n → t.free_tasks ≡ some 0

init_tasks-Linked : (n : ℕ) (s : Procs) → Linked n s (init_tasks n s)
unfolding init_tasks init_task set_pid set_next_free
init_tasks-Linked zero s = record {
  links = λ i h. absurd (omega arith);
  pids = λ i h. absurd (omega arith);
  others = λ i h. refl;
  head = λ h. absurd (omega arith);
}
init_tasks-Linked (suc n) s =
    let ih = init_tasks-Linked n s in
    record {
      links = λ i h. ground (arith, ih.links i, ih.others n (omega arith));
      pids = λ i h. ground (arith, ih.pids i);
      others = λ i h. ground (arith, ih.others i (omega arith));
      head = λ h. ground (arith, ih.head);
    }

-- init_procs makes one free list of all 1024 tasks in order, each with the pid 0, and writes no task
-- past them.
pub init_procs-Linked :
    (s : Procs)
    → Linked proc_count s (init_procs s) × (((init_procs s).tasks 1023).next_free ≡ none)
unfolding init_procs set_next_free
init_procs-Linked s =
    let l = init_tasks-Linked proc_count s in
    (
      record {
        links = λ i h. ground (arith, l.links i h);
        pids = λ i h. ground (arith, l.pids i h);
        others = λ i h. ground (arith, l.others i h);
        head = l.head;
      },
      ground arith,
    )

-- With permissions checked, pid_to_proc of a pid other than 0, for which there is a task in the array,
-- gives this task exactly if it is the current task and has its own pid as the pid of its parent, and
-- NULL exactly if not.
pub pid_to_proc_iff :
    (pid check_perms : ℕ) (s : Procs)
    → pid ≢ 0
    → pid < proc_count
    → check_perms ≢ 0
    → ((pid_to_proc pid check_perms s ≡ some pid)
        ↔ ((s.current ≡ some pid) × ((s.tasks pid).ppid ≡ (s.tasks pid).pid)))
      × ((pid_to_proc pid check_perms s ≡ none)
          ↔ ¬ ((s.current ≡ some pid) × ((s.tasks pid).ppid ≡ (s.tasks pid).pid)))
unfolding pid_to_proc
pid_to_proc_iff pid check_perms s nz inside checked = (ground arith, (ground arith, ground arith))
