-- ===== src/Kmap/Directory/Tested.antt =====
-- The tests of `check_kern_pgdir`, loop by loop.
use cezos.Base.{ℕ, ◌+◌, ◌-◌, ◌*◌, ◌/◌, ◌%◌, ◌<◌, ◌≡◌, ◌↔◌, true, arith}
use cezos.Mmu.{
  word_size, page_size, number_ptentries, kernel_base_address, kernel_stack_size, u_pages,
}
use cezos.Kmap.State.{Kernel, Run, ok, Cmd, and_then, ◌>>◌}
use cezos.Kmap.Addr.{paddr}
use cezos.Kmap.Table.{check_va2pa}
use cezos.Kmap.Directory.{
  for_each, require_va, entry_ok, require_entry, pages_size, memory_size, check_pages, check_memory,
  check_stack, check_kern_pgdir,
}
use cezos.Kmap.Directory.Loop.{
  Keeps, Keeps-and_then, and_then-ok, require-Keeps, require-ok, require_va-Keeps, require_va-ok,
  for_each-Keeps, for_each-zero,
}

-- Two commands that keep the state pass exactly if both do.
and_then_iff :
    (r : Run (Unit {0})) (k : Unit {0} → Cmd (Unit {0})) (s : Kernel)
    → Keeps r s
    → (and_then r k ≡ ok tt s) ↔ ((r ≡ ok tt s) × (k tt s ≡ ok tt s))
and_then_iff r k s keeps =
    (λ e. let (u, first, rest) = and_then-ok r k s keeps e in (first, rest), λ h. rw (h.0) (h.1))

require_entry-Keeps : (d i : ℕ) (s : Kernel) → Keeps (require_entry d i s) s
unfolding require_entry
require_entry-Keeps d i s = require-Keeps (entry_ok d s i) s

require_entry-ok :
    (d i : ℕ) (s : Kernel) → (require_entry d i s ≡ ok tt s) ↔ (entry_ok d s i ≡ true)
unfolding require_entry
require_entry-ok d i s = require-ok (entry_ok d s i) s

-- What `check_kern_pgdir` tests: the descriptors at U_PAGES, all of memory from KERNEL_BASE_ADDRESS on,
-- the kernel's stack below it, and the flags of the directory's entries.
pub record Tested (kpgdir pages bootstack : ℕ) (s : Kernel) : Type 0 where
  pub descriptors :
      (k : ℕ)
      → k < (pages_size kpgdir pages bootstack s + 4095) / page_size
      → check_va2pa kpgdir ((u_pages + page_size * k) % word_size) s
        ≡ ok ((paddr pages + page_size * k) % word_size) s
  pub memory :
      (k : ℕ)
      → k < (memory_size kpgdir pages bootstack s + 4095) / page_size
      → check_va2pa kpgdir ((kernel_base_address + page_size * k) % word_size) s
        ≡ ok (page_size * k) s
  pub stack :
      (k : ℕ)
      → k < kernel_stack_size / page_size
      → check_va2pa kpgdir (kernel_base_address - kernel_stack_size + page_size * k) s
        ≡ ok ((paddr bootstack + page_size * k) % word_size) s
  pub entries : (k : ℕ) → k < number_ptentries → entry_ok kpgdir s k ≡ true

-- A loop over addresses passes exactly if the directory translates all of them as it should.
for_each-require_va :
    (d : ℕ) (va pa : ℕ → ℕ) (n : ℕ) (s : Kernel)
    → Keeps (for_each (λ i. require_va d (va i) (pa i)) page_size 0 n s) s
      × ((for_each (λ i. require_va d (va i) (pa i)) page_size 0 n s ≡ ok tt s)
          ↔ ((k : ℕ) → k < n → check_va2pa d (va (page_size * k)) s ≡ ok (pa (page_size * k)) s))
for_each-require_va d va pa n s =
    let keeps = λ (i : ℕ). require_va-Keeps d (va i) (pa i) s in
    let all = for_each-zero (λ i. require_va d (va i) (pa i)) page_size s keeps n in
    (
      for_each-Keeps (λ i. require_va d (va i) (pa i)) page_size s keeps n 0,
      (
        λ e k lt. (require_va-ok d (va (page_size * k)) (pa (page_size * k)) s).0 (all.0 e k lt),
        λ h.
            all.1
              (λ k lt. (require_va-ok d (va (page_size * k)) (pa (page_size * k)) s).1 (h k lt)),
      ),
    )

pub check_kern_pgdir-Tested :
    (kpgdir pages bootstack : ℕ) (s : Kernel)
    → (check_kern_pgdir kpgdir pages bootstack s ≡ ok tt s) ↔ Tested kpgdir pages bootstack s
unfolding check_kern_pgdir
check_kern_pgdir-Tested kpgdir pages bootstack s =
    let n1 = (pages_size kpgdir pages bootstack s + 4095) / page_size in
    let n2 = (memory_size kpgdir pages bootstack s + 4095) / page_size in
    let (keeps1, all1) =
      for_each-require_va kpgdir (λ i. (u_pages + i) % word_size)
        (λ i. (paddr pages + i) % word_size) n1 s in
    let (keeps2, all2) =
      for_each-require_va kpgdir (λ i. (kernel_base_address + i) % word_size) (λ i. i) n2 s in
    let (keeps3, all3) =
      for_each-require_va kpgdir (λ i. kernel_base_address - kernel_stack_size + i)
        (λ i. (paddr bootstack + i) % word_size) 8 s in
    let all4 =
      for_each-zero (require_entry kpgdir) 1 s (λ i. require_entry-Keeps kpgdir i s) 1024 in
    let memory_loop = for_each (check_memory kpgdir pages bootstack) page_size 0 n2 in
    let stack_loop = for_each (check_stack kpgdir pages bootstack) page_size 0 8 in
    let entry_loop = for_each (require_entry kpgdir) 1 0 1024 in
    let split1 =
      and_then_iff (for_each (check_pages kpgdir pages bootstack) page_size 0 n1 s)
        (λ _. memory_loop >> stack_loop >> entry_loop) s keeps1 in
    let split2 =
      and_then_iff ((memory_loop >> stack_loop) s) (λ _. entry_loop) s
        (Keeps-and_then (memory_loop s) (λ _. stack_loop) s keeps2 (λ _. keeps3)) in
    let split3 = and_then_iff (memory_loop s) (λ _. stack_loop) s keeps2 in
    (
      λ e.
          let (p1, rest) = split1.0 e in
          let (p23, p4) = split2.0 rest in
          let (p2, p3) = split3.0 p23 in
          record {
            descriptors = all1.0 p1;
            memory = all2.0 p2;
            stack = all3.0 p3;
            entries = λ k lt.
                entry_at (1 * k) k (omega arith)
                  ((require_entry-ok kpgdir (1 * k) s).0 (all4.0 p4 k lt));
          },
      λ h. split1.1 (
        all1.1 h.descriptors,
        split2.1 (
          split3.1 (all2.1 h.memory, all3.1 h.stack),
          all4.1 (λ k lt.
              (require_entry-ok kpgdir (1 * k) s).1
                (entry_at k (1 * k) (omega arith) (h.entries k lt))),
        ),
      ),
    )
  where
    entry_at : (i j : ℕ) → i ≡ j → entry_ok kpgdir s i ≡ true → entry_ok kpgdir s j ≡ true
    entry_at i j e h = rw (← e) h
