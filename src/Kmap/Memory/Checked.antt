-- ===== src/Kmap/Memory/Checked.antt =====
-- The directory that `initialize_memory` builds passes the test of `check_kern_pgdir`.
use cezos.Base.{ℕ, ◌+◌, ◌-◌, ◌*◌, ◌/◌, ◌%◌, ◌^◌, ◌≤◌, ◌<◌, ◌≡◌, ◌≢◌, none, arith}
use native.Mathlib.Decide.{ℕ_discrete}
use cezos.Mmu.{word_size, page_size, page_table_size, pdx, pgnum, kernel_base_address, u_pages}
use cezos.Kmap.State.{PageStatus, Kernel, ok}
use cezos.Kmap.Addr.{paddr}
use cezos.Kmap.Table.{check_va2pa}
use cezos.Kmap.FreeList.{Ends, ends, Ends-and_then}
use cezos.Kmap.Directory.Checked.{IsChecked, check_kern_pgdir_iff}
use cezos.Kmap.Vm.{Odd, Maps}
use cezos.Kmap.Vm.Write.{check_va2pa-Maps}
use cezos.Kmap.Memory.{build_directory}
use cezos.Kmap.Memory.Listed.{self}
use cezos.Kmap.Memory.Prepared.{total_pages, base_pages, prepare_pages-Prepared}
use cezos.Kmap.Memory.Regions.{
  IsMapped, stack_bottom, pages_outside, stack_outside, memory_outside, map_regions-IsMapped,
}

module _ (d n pages bootstack : ℕ) {t : Kernel} (m : IsMapped d n pages bootstack t) where
  -- The directory entries of the regions and of the self map are present.
  Odd-entry : (k : ℕ) → 956 ≤ k → k ≢ 958 → k < 1024 → Odd (t.frame d k)
  unfolding pdx
  Odd-entry k from ne to = elim (ℕ_discrete k 956) [
    | yes e ↦ at (u_pages + 0 * page_size) (omega arith) (m.descriptors 0 (omega arith)).directory
    | no ne6 ↦ elim (ℕ_discrete k 957) [
      | yes e ↦ rw e m.own
      | no ne7 ↦ elim (ℕ_discrete k 959) [
        | yes e ↦
            at (stack_bottom + 0 * page_size) (omega arith) (m.stack 0 (omega arith)).directory
        | no ne9 ↦
            at (kernel_base_address + (k - 960) * 1024 * page_size) (omega arith)
              (m.memory ((k - 960) * 1024) (omega arith)).directory
      ]
    ]
  ]
    where
      at :
          (va : ℕ)
          → va / 2 ^ 22 % 1024 ≡ k
          → Odd (t.frame d (va / 2 ^ 22 % 1024))
          → Odd (t.frame d k)
      at va e odd = rw e at odd

  self-ne : (k : ℕ) → 961 ≤ k → k ≢ self
  unfolding pdx
  self-ne k lo e = omega arith

  -- An address in one of the regions.
  translated :
      (va pa w q : ℕ) → pdx w ≢ self → Maps d t w q → va ≡ w → pa ≡ q → check_va2pa d va t ≡ ok pa t
  translated va pa w q ne maps e f = rw (e, f) (check_va2pa-Maps d self m.vm ne maps)

  mapped-IsChecked :
      n ≤ 65535
      → paddr pages + page_table_size ≤ word_size
      → paddr bootstack + page_table_size ≤ word_size
      → IsChecked d pages bootstack t
  mapped-IsChecked few low low' = record {
    descriptors = λ k h.
        let lt : k < 1024 = omega (arith, m.count) in
        translated _ _ _ _ (pages_outside k lt) (m.descriptors k lt) (omega arith) (omega arith);
    memory = λ k h.
        let lt : k < 65535 = omega (arith, m.count) in
        translated _ _ _ _ (memory_outside k lt) (m.memory k lt) (omega arith) (omega arith);
    stack = λ k h.
        translated _ _ _ _ (stack_outside k (omega arith)) (m.stack k (omega arith)) (omega arith)
          (omega arith);
    present = λ k here. Odd-entry k (omega arith) (omega arith) (omega arith);
    kernel = λ k lo hi.
        let odd = Odd-entry k (omega arith) (omega arith) hi in
        (odd, m.writable k (self-ne k lo) odd);
  }

-- For a kernel that begins behind base memory and leaves room below 4 MB for the directory and the
-- descriptors, on a machine with more than 8 MB and less than 256 MB, with 66 free pages below 4 MB
-- besides, for an address of the stack that PADDR takes to a page boundary at least 4 MB below
-- 2 ^ 32, the code builds the directory, does not run out of pages, and passes its own test: the
-- directory translates the pages from U_PAGES on to the descriptors, those below KERNEL_STACK_TOP to
-- PADDR(bootstack) and above, and those from KERNEL_BASE_ADDRESS on, but for the last page, to physical
-- memory. The directory, the descriptors and all page tables lie in the first 4 MB, which is what the
-- directory of the entry code maps.
pub build_directory-IsChecked :
    (mc_read : ℕ → ℕ) (end_bss bootstack : ℕ) (cut : PageStatus → ℕ → PageStatus) (s : Kernel)
    → s.next_free ≡ 0
    → s.page_free_list ≡ none
    → kernel_base_address + base_pages mc_read * page_size ≤ end_bss
    → end_bss + total_pages mc_read * 8 + 4 * page_size ≤ kernel_base_address + page_table_size
    → 2049 ≤ total_pages mc_read
    → end_bss + total_pages mc_read * 8 + 70 * page_size
      ≤ kernel_base_address + page_table_size + (base_pages mc_read - 1) * page_size
    → total_pages mc_read ≤ 65535
    → paddr bootstack % 4096 ≡ 0
    → paddr bootstack + page_table_size ≤ word_size
    → Ends
        (λ r t.
          IsMapped (pgnum (paddr r.0)) (total_pages mc_read) r.1 bootstack t
          × IsChecked (pgnum (paddr r.0)) r.1 bootstack t
          × (pgnum (paddr r.0) < 1024)
          × (paddr r.1 + total_pages mc_read * 8 ≤ page_table_size))
        (build_directory mc_read end_bss cut bootstack s)
unfolding build_directory
build_directory-IsChecked mc_read end_bss bootstack cut s first unlisted above below enough room few
      aligned low =
    Ends-and_then
      (prepare_pages-Prepared mc_read end_bss cut s first unlisted above below enough room)
      λ r t p.
        Ends-and_then
          (map_regions-IsMapped (pgnum (paddr r.0)) (total_pages mc_read) r.1 bootstack p.ready
            p.aligned (omega (arith, p.low)) aligned low)
          λ _ u m.
            let tested = mapped-IsChecked _ _ _ _ m few (omega (arith, p.low)) low in
            rw ((check_kern_pgdir_iff _ _ _ u (omega (arith, m.count))).1 tested)
              (ends (m, tested, p.directory_low, p.descriptors_low))
