-- ===== src/Proc/Tests.antt =====
-- Task 5 is the current one; and a machine of 10 pages with the free pages 6 and 8.
use cezos.Base.{◌+◌, ◌*◌, ◌≡◌, ◌↔◌, ◌==◌, if◌then◌else◌, some, none, refl, [], ◌∷◌, arith}
use cezos.Kmap.State.{Kernel, null_status}
use cezos.Kmap.FreeList.{Ends, stop, link, IsFreeList}
use cezos.Proc.Vm.{proc_init_vm, UserSpace, proc_init_vm-UserSpace}
use cezos.Proc.{Procs, pid_to_proc}
use cezos.Proc.Tasks.{pid_to_proc_iff}

abbrev running : Procs
running = record {
  tasks = λ i. record { pid = 5; ppid = 5; next_free = none };
  current = some 5;
  free_tasks = none;
}

pid_to_proc_iff_example :
    ((pid_to_proc 5 1 running ≡ some 5)
      ↔ ((running.current ≡ some 5) × ((running.tasks 5).ppid ≡ (running.tasks 5).pid)))
    × ((pid_to_proc 5 1 running ≡ none)
        ↔ ¬ ((running.current ≡ some 5) × ((running.tasks 5).ppid ≡ (running.tasks 5).pid)))
pid_to_proc_iff_example = pid_to_proc_iff 5 1 running (omega arith) (omega arith) (omega arith)

abbrev small : Kernel
small = record {
  pages = λ p. if p == 6 then record { next_free = some 8; refs = 0 } else null_status;
  page_free_list = some 6;
  pages_count = 10;
  pages_basemem_count = 4;
  frame = λ p i. p * 1000 + i;
  next_free = 0;
  invalidated = [];
}

small-IsFreeList : IsFreeList small (6 ∷ 8 ∷ [])
small-IsFreeList = record {
  chain = link refl refl refl (link refl refl refl stop);
  within = λ p h. ground arith;
}

proc_init_vm-UserSpace_example : Ends (UserSpace small 3 6 (8 ∷ [])) (proc_init_vm 3 small)
proc_init_vm-UserSpace_example =
    proc_init_vm-UserSpace small 3 6 (8 ∷ []) (omega arith) small-IsFreeList (λ e. ground arith)
