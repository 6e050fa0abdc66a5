-- ===== src/Kmap/Memory/Whole.antt =====
-- `initialize_memory` as a whole.
use cezos.Base.{
  ℕ, ◌+◌, ◌-◌, ◌*◌, ◌%◌, ◌≤◌, ◌<◌, ◌≡◌, ◌≢◌, refl, ap, false, none, List, [], ◌∷◌, arith,
}
use cezos.Mmu.{word_size, page_size, page_table_size, pdx, pgnum, kernel_base_address}
use cezos.Kmap.State.{PageStatus, Kernel, ok}
use cezos.Kmap.Addr.{paddr, page2pa}
use cezos.Kmap.Addr.Laws.{page_kva, page2pa-page}
use cezos.Kmap.Table.{check_va2pa}
use cezos.Kmap.FreeList.{Ends, ends, Ends-mono, Ends-and_then, has}
use cezos.Kmap.Vm.{IsVm, Spare}
use cezos.Kmap.Vm.Absent.{absent_pos}
use cezos.Kmap.Vm.Region.{Apart-pages}
use cezos.Kmap.Memory.{Load, Control, enable_paging, check_kern_pgdir_installed, initialize_memory}
use cezos.Kmap.Memory.Paging.{IsEnabled, enable_paging-IsEnabled}
use cezos.Kmap.Memory.Listed.{self}
use cezos.Kmap.Memory.Prepared.{total_pages, base_pages}
use cezos.Kmap.Memory.Regions.{IsMapped, memory_outside}
use cezos.Kmap.Memory.Checked.{build_directory-IsChecked}
use cezos.Kmap.Memory.Installed.{
  zero_other, IsSelftested, Loads, check_kern_pgdir_installed-IsSelftested,
}

-- What initialize_memory leaves: `hidden` is the page at the head of the free list, whose kernel address
-- is unmapped, and `lost` is a page without references that is not on the list.
pub record IsInitialized (c : Control) (t : Kernel) : Type 0 where
  pub enabled : IsEnabled c
  pub hidden : ℕ
  pub lost : ℕ
  pub left : List ℕ
  pub vm : IsVm (pgnum c.cr3) self t (hidden ∷ left)
  pub memory :
      (j : ℕ)
      → j < 65535
      → j ≢ hidden
      → check_va2pa (pgnum c.cr3) (kernel_base_address + j * page_size) t ≡ ok (j * page_size) t
  pub unmapped :
      check_va2pa (pgnum c.cr3) (kernel_base_address + hidden * page_size) t ≡ ok 0xffff_ffff t
  pub unlisted : (has lost (hidden ∷ left) ≡ false) × ((t.pages lost).refs ≡ 0)

kernel_address : (p : ℕ) → p < 65536 → page_kva p ≡ kernel_base_address + p * page_size
kernel_address p h = omega arith

kernel_entry : (p : ℕ) → p < 65535 → pdx (kernel_base_address + p * page_size) ≢ 0
unfolding pdx
kernel_entry p h = omega arith

module _ (n : ℕ) (few : n ≤ 65535) {d pages bootstack : ℕ} (c : Control) (here : pgnum c.cr3 ≡ d)
    (enabled : IsEnabled c) where
  Selftested-IsInitialized :
      {s t : Kernel} {p0 p1 : ℕ} {xs : List ℕ}
      → IsMapped d n pages bootstack s
      → p1 < n
      → IsSelftested d s p0 p1 xs t
      → IsInitialized c t
  Selftested-IsInitialized {s} {t} {p0} {p1} {xs} m lt done =
      let place = kernel_address p1 (omega arith) in
      record {
        enabled = enabled;
        hidden = p1;
        lost = p0;
        left = xs;
        vm = rw here done.vm;
        memory = λ j h ne. rw here (
            done.others (kernel_base_address + j * page_size) (j * page_size) (memory_outside j h)
              (kernel_entry j h)
              (rw place (Apart-pages _ _ (omega arith) (omega arith) (omega arith)))
              (m.memory j h));
        unmapped = rw (here, ← place) done.unmapped;
        unlisted = done.lost;
      }

module _ (load : Load) (c : Control) (kern_page_directory : ℕ)
    (loaded : c.cr3 ≡ paddr kern_page_directory) (enabled : IsEnabled c) (loads : Loads load)
    (n : ℕ) (few : n ≤ 65535) {pages bootstack : ℕ} where
  self_test :
      {s : Kernel} (xs : List ℕ)
      → IsMapped (pgnum (paddr kern_page_directory)) n pages bootstack s
      → IsVm (pgnum (paddr kern_page_directory)) self s xs
      → Spare (pgnum (paddr kern_page_directory)) 1 s xs
      → has 0 xs ≡ false
      → s.frame (pgnum (paddr kern_page_directory)) 0 ≡ 0
      → Ends (λ _. IsInitialized c) (check_kern_pgdir_installed load c kern_page_directory s)
  self_test {s} [] m vm spare zero empty = absurd (
      omega (
        arith,
        absent_pos (s.frame (pgnum (paddr kern_page_directory))) 0 1024 (omega arith) (omega arith),
      ))
  self_test {s} (p ∷ []) m vm spare zero empty = absurd (
      omega (
        arith,
        absent_pos (s.frame (pgnum (paddr kern_page_directory))) 0 1024 (omega arith) (omega arith),
      ))
  self_test {s} (p0 ∷ p1 ∷ xs) m vm spare zero empty =
      let lt : p1 < n = omega (arith, m.count, vm.free.within p1 (ground arith)) in
      let place = kernel_address p1 (omega arith) in
      let pa : page2pa p1 ≡ p1 * page_size = page2pa-page s p1 vm.few (omega (arith, m.count)) in
      Ends-mono
        (check_kern_pgdir_installed-IsSelftested load c kern_page_directory loaded
          (omega (arith, enabled.pe), enabled.pg) loads vm spare empty (ground arith)
          (rw (place, pa) (m.memory p1 (omega arith))) (rw place (memory_outside p1 (omega arith)))
          (rw place (kernel_entry p1 (omega arith))))
        λ _ t done. Selftested-IsInitialized n few c (ap pgnum loaded) enabled m lt done

-- For the kernel and the machine of build_directory-IsChecked, and a processor that reads the words of
-- the pages that its directory maps while PE and PG are set, initialize_memory ends with the directory
-- loaded and in order, and with PE, MP, NE, WP, AM and PG set and EM and TS not. All of memory from KERNEL_BASE_ADDRESS on is then mapped, but for one page, which is the
-- head of the free list: its kernel address is unmapped. One page more is neither referenced nor free.
pub initialize_memory-IsInitialized :
    (mc_read : ℕ → ℕ) (end_bss bootstack : ℕ) (cut : PageStatus → ℕ → PageStatus) (load : Load)
    (c : Control) (s : Kernel)
    → s.next_free ≡ 0
    → s.page_free_list ≡ none
    → kernel_base_address + base_pages mc_read * page_size ≤ end_bss
    → end_bss + total_pages mc_read * 8 + 4 * page_size ≤ kernel_base_address + page_table_size
    → 2049 ≤ total_pages mc_read
    → end_bss + total_pages mc_read * 8 + 70 * page_size
      ≤ kernel_base_address + page_table_size + (base_pages mc_read - 1) * page_size
    → total_pages mc_read ≤ 65535
    → paddr bootstack % 4096 ≡ 0
    → paddr bootstack + page_table_size ≤ word_size
    → Loads load
    → Ends IsInitialized (initialize_memory mc_read end_bss bootstack cut load c s)
unfolding initialize_memory enable_paging
initialize_memory-IsInitialized mc_read end_bss bootstack cut load c s first unlisted above below
      enough room few aligned low loads =
    Ends-and_then
      (build_directory-IsChecked mc_read end_bss bootstack cut s first unlisted above below enough
        room few aligned low)
      λ r t (m, tested, reached, within).
        Ends-and_then
          (self_test load (enable_paging r.0 c) r.0 refl (enable_paging-IsEnabled r.0 c) loads
            (total_pages mc_read) few m.left m m.vm m.spare m.page_zero
            (m.unused 0 (omega arith, zero_other, omega arith)))
          λ _ u done. ends done
