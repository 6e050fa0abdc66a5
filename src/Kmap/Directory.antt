-- ===== src/Kmap/Directory.antt =====
-- `check_kern_pgdir` of kmap.c, the test of the kernel's page directory, which stops in the endless
-- loop of MEM_ERROR_LOOP if it fails.
pub mod Loop
mod Tested
pub mod Checked
use cezos.Base.{
  ℕ, zero, suc, ◌+◌, ◌-◌, ◌*◌, ◌/◌, ◌%◌, ◌==◌, ltb, not, ◌&&◌, ◌||◌, if◌then◌else◌, Bool, true,
  false,
}
use cezos.Mmu.{
  word_size, page_size, number_ptentries, pdx, is_page_present, is_page_writable,
  kernel_base_address, kernel_stack_size, u_virtual_page_table, u_pages,
}
use cezos.Kmap.State.{Kernel, Run, ok, hang, fault, Cmd, pure, and_then, ◌>>=◌, ◌>>◌}
use cezos.Kmap.Addr.{paddr, page_alligned_round}
use cezos.Kmap.Table.{check_va2pa}

-- A loop `for (i = start; ...; i += step)` with the rounds that it has.
unfoldable pub for_each : (ℕ → Cmd (Unit {0})) → ℕ → ℕ → ℕ → Cmd (Unit {0})
for_each body step i zero = pure tt
for_each body step i (suc rounds) = body i >> for_each body step (i + step) rounds

-- `if (test) MEM_ERROR_LOOP(...)`, and one address of the directory.
unfoldable pub require : Bool → Cmd (Unit {0})
require true = pure tt
require false = λ _. hang

unfoldable pub require_va : ℕ → ℕ → ℕ → Cmd (Unit {0})
unfolding require
require_va kpgdir va pa = check_va2pa kpgdir va >>= λ res. require (res == pa)

-- The last loop's tests of directory entry `i`.
unfoldable pub entry_ok : ℕ → Kernel → ℕ → Bool
entry_ok kpgdir s i =
    let present = not (is_page_present (s.frame kpgdir i) == 0) in
    let writable = not (is_page_writable (s.frame kpgdir i) == 0) in
    (not (i == pdx u_virtual_page_table || i == pdx (kernel_base_address - 1) || i == pdx u_pages)
      || present)
    && (not (ltb (pdx kernel_base_address) i) || present && writable)

unfoldable pub require_entry : ℕ → ℕ → Cmd (Unit {0})
unfolding require entry_ok
require_entry kpgdir i s = require (entry_ok kpgdir s i) s

-- A descriptor has 8 bytes. `pages` and `bootstack` are the kernel addresses of these arrays. That
-- the size is a multiple of a page is only reported, not enforced.
module _ (kpgdir pages bootstack : ℕ) where
  unfoldable pub pages_size : Kernel → ℕ
  unfolding page_alligned_round
  pages_size s = page_alligned_round (s.pages_count * 8 % word_size)

  unfoldable pub memory_size : Kernel → ℕ
  memory_size s = s.pages_count * page_size % word_size

  abbrev pub check_pages : ℕ → Cmd (Unit {0})
  check_pages i = require_va kpgdir ((u_pages + i) % word_size) ((paddr pages + i) % word_size)

  abbrev pub check_memory : ℕ → Cmd (Unit {0})
  check_memory i = require_va kpgdir ((kernel_base_address + i) % word_size) i

  abbrev pub check_stack : ℕ → Cmd (Unit {0})
  check_stack i =
      require_va kpgdir (kernel_base_address - kernel_stack_size + i)
        ((paddr bootstack + i) % word_size)

  unfoldable pub check_kern_pgdir : Cmd (Unit {0})
  unfolding pages_size memory_size for_each require_va require_entry
  check_kern_pgdir s =
      and_then (for_each check_pages page_size 0 ((pages_size s + 4095) / page_size) s) (λ _.
        for_each check_memory page_size 0 ((memory_size s + 4095) / page_size)
        >> for_each check_stack page_size 0 (kernel_stack_size / page_size)
        >> for_each (require_entry kpgdir) 1 0 number_ptentries)
