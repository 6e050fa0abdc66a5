-- ===== src/Kmap/Memory.antt =====
-- `initialize_memory` of kmap.c: the functions of the other modules in the order in which the code calls
-- them, the control registers, and `check_kern_pgdir_installed`.
mod Listed
mod Prepared
mod Regions
mod Checked
mod Selftest
mod Cleanup
mod Inserted
mod Paging
mod Installed
mod Whole
mod Tests
use cezos.Base.{
  ℕ, ◌-◌, ◌*◌, ◌/◌, ◌%◌, ◌==◌, ltb, not, ◌&&◌, if◌then◌else◌, bit_or, bit_and, Option, none, some,
}
use cezos.Mmu.{
  word_size, page_size, page_table_size, pdx, pgnum, pte_p, pte_w, pte_u, kernel_base_address,
  kernel_stack_size, u_virtual_page_table, u_pages,
}
use cezos.Kmap.State.{
  PageStatus, Kernel, hang, Cmd, pure, ◌>>=◌, ◌>>◌, get, null_status, fill_frame,
}
use cezos.Kmap.Addr.{paddr, page2kva}
use cezos.Kmap.Boot.{boot_alloc}
use cezos.Kmap.Pages.{modify, deref, page_alloc, free_page, set_refs, init_pages}
use cezos.Kmap.Table.{write_word, remove_page, insert_page, map_memory_region}
use cezos.Kmap.Setup.{get_memory_size, create_kern_pgdir}
use cezos.Kmap.Check.{check_page_list, fill_word}
use cezos.Kmap.Directory.{check_kern_pgdir}

-- CR0_PE, CR0_MP, CR0_EM, CR0_TS, CR0_NE, CR0_WP, CR0_AM and CR0_PG of mmu.h
abbrev cr0_pe : ℕ
cr0_pe = 1

abbrev cr0_mp : ℕ
cr0_mp = 2

abbrev cr0_em : ℕ
cr0_em = 4

abbrev cr0_ts : ℕ
cr0_ts = 8

abbrev cr0_ne : ℕ
cr0_ne = 0x20

abbrev cr0_wp : ℕ
cr0_wp = 0x10000

abbrev cr0_am : ℕ
cr0_am = 0x40000

abbrev cr0_pg : ℕ
cr0_pg = 0x8000_0000

-- The control registers that the code reads and writes.
pub record Control : Type 0 where
  pub cr0 : ℕ
  pub cr3 : ℕ

-- lcr3, rcr0 and lcr0, and what is done to the flags between them.
unfoldable enable_paging : ℕ → Control → Control
enable_paging kern_page_directory c = record {
  cr0 =
      bit_and
        (bit_or c.cr0
          (bit_or (bit_or (bit_or (bit_or (bit_or cr0_pe cr0_pg) cr0_am) cr0_wp) cr0_ne) cr0_mp))
        (word_size - 1 - bit_or cr0_ts cr0_em);
  cr3 = paddr kern_page_directory;
}

-- `remaining_mem` of initialize_memory
abbrev pub remaining_mem : ℕ
remaining_mem = 0xffff_ffff - kernel_base_address

-- `memset(pages, 0, n)`, which clears the first n bytes of the array; a descriptor has 8 bytes, and
-- `cut` says what a descriptor is of which only the first bytes are cleared.
unfoldable clear_bytes : (PageStatus → ℕ → PageStatus) → ℕ → Kernel → Kernel
clear_bytes cut n s = record s {
  pages = λ p.
      if ltb p (n / 8)
      then null_status
      else if (p == n / 8) && not (n % 8 == 0)
      then cut (s.pages p) (n % 8)
      else s.pages p;
}

-- The entry through which the directory maps itself.
unfoldable self_map : ℕ → Kernel → Kernel
unfolding write_word
self_map kern_page_directory =
    write_word (pgnum (paddr kern_page_directory)) (pdx u_virtual_page_table)
      (bit_or (bit_or (paddr kern_page_directory) pte_u) pte_p)

-- The three regions. `pages` and `bootstack` are addresses.
unfoldable map_regions : ℕ → ℕ → ℕ → Cmd (Unit {0})
map_regions kpgdir pages bootstack = do
  map_memory_region kpgdir u_pages page_table_size (paddr pages) pte_u
  map_memory_region kpgdir (kernel_base_address - kernel_stack_size) page_table_size
      (paddr bootstack) pte_u
  map_memory_region kpgdir kernel_base_address remaining_mem 0 pte_w

-- The address in a pointer.
abbrev address : Option ℕ → ℕ
address none = 0
address (some a) = a

-- The first statements, up to check_page_list, for which there is fuel for every page. The results
-- are `kern_page_directory` and `pages`; a descriptor has 8 bytes.
module _ (mc_read : ℕ → ℕ) (end_bss : ℕ) (cut : PageStatus → ℕ → PageStatus) where
  unfoldable prepare_pages : Cmd (ℕ × ℕ)
  unfolding self_map clear_bytes
  prepare_pages = do
    modify (get_memory_size mc_read)
    kern_page_directory ← create_kern_pgdir end_bss
    modify (self_map kern_page_directory)
    s ← get
    pages ← boot_alloc end_bss (s.pages_count * 8 % word_size)
    boot_alloc end_bss 0
    modify (clear_bytes cut s.pages_count)
    init_pages end_bss
    check_page_list s.pages_count 1
    pure (kern_page_directory, pages)

  -- The statements up to the test of the directory.
  unfoldable build_directory : ℕ → Cmd (ℕ × ℕ)
  unfolding prepare_pages map_regions
  build_directory bootstack = do
    (kern_page_directory, pages) ← prepare_pages
    map_regions (pgnum (paddr kern_page_directory)) pages bootstack
    check_kern_pgdir (pgnum (paddr kern_page_directory)) pages bootstack
    pure (kern_page_directory, pages)

-- Reads of the words at virtual addresses, by the processor; `none` is a page fault.
abbrev Load : Type 0
Load = Control → Kernel → ℕ → Option ℕ

module _ (load : Load) (c : Control) where
  -- The tests after the page `ps1` was mapped at PAGE_SIZE, and what follows them.
  unfoldable check_inserted : ℕ → ℕ → ℕ → Cmd (Unit {0})
  check_inserted kpgdir ps0 ps1 = do
    s ← get
    if not ((s.pages ps1).refs == 1) then (λ _. hang) else do
      word ← deref (load c s page_size)
      if not (word == 0x0101_0101) then (λ _. hang) else do
        remove_page kpgdir (address (page2kva s ps1))
        modify (write_word kpgdir 0 0)
        modify (set_refs ps0 0)

  unfoldable check_kern_pgdir_installed : ℕ → Cmd (Unit {0})
  unfolding fill_word check_inserted
  check_kern_pgdir_installed kern_page_directory = do
    let kpgdir = pgnum (paddr kern_page_directory)
    ps0 ← page_alloc 0
    ps1 ← page_alloc 0
    free_page ps0
    s ← get
    vaddr ← deref (page2kva s ps1)
    modify
        (λ t. record t { frame = fill_frame t.frame (pgnum (paddr vaddr)) (fill_word 0x0101_0101) })
    insert_page kpgdir ps1 page_size pte_w
    check_inserted kpgdir ps0 ps1

module _ (mc_read : ℕ → ℕ) (end_bss bootstack : ℕ) (cut : PageStatus → ℕ → PageStatus) (load : Load)
    (c : Control) where
  -- The result is the control registers.
  unfoldable initialize_memory : Cmd Control
  unfolding enable_paging build_directory check_kern_pgdir_installed
  initialize_memory = do
    (kern_page_directory, pages) ← build_directory mc_read end_bss cut bootstack
    check_kern_pgdir_installed load (enable_paging kern_page_directory c) kern_page_directory
    pure (enable_paging kern_page_directory c)
