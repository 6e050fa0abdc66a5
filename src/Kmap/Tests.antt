-- ===== src/Kmap/Tests.antt =====
-- The page lists of kmap.c on a machine of ten pages, four of them base memory, where the kernel ends
-- in page 5.
use cezos.Base.{
  ◌+◌, ◌↔◌, ◌*◌, ◌/◌, ◌⊎◌, ◌%◌, ◌<◌, ◌≤◌, ℕ, ◌==◌, ◌≡◌, refl, if◌then◌else◌, some, none, [], ◌∷◌,
  arith,
}
use cezos.Mmu.{page_table_size, kernel_base_address, pgnum}
use cezos.Kmap.State.{PageStatus, Kernel, ok, null_status}
use cezos.Kmap.Addr.{paddr}
use cezos.Kmap.Pages.{page_alloc, page_decref, init_pages, set_refs}
use cezos.Kmap.Table.{check_va2pa}
use cezos.Kmap.Entrypgdir.{entry_pgtable, entry_pgdir, IsEntry, check_va2pa-entry_pgdir}
use cezos.Kmap.FreeList.{Ends, stop, link, IsFreeList}
use cezos.Kmap.Alloc.{Allocated, page_alloc-cons, page_decref-more}
use cezos.Kmap.Directory.{check_kern_pgdir}
use cezos.Kmap.Directory.Checked.{IsChecked, check_kern_pgdir_iff}
use cezos.Kmap.Init.{Initial, init_pages-Initial}

abbrev statuses : ℕ → PageStatus
statuses p =
    if p == 6
    then record { next_free = some 8; refs = 0 }
    else if p == 7
    then record { next_free = none; refs = 1 }
    else if p == 9
    then record { next_free = none; refs = 3 }
    else null_status

abbrev small : Kernel
small = record {
  pages = statuses;
  page_free_list = some 6;
  pages_count = 10;
  pages_basemem_count = 4;
  frame = λ p i. 0x97;
  next_free = 0;
  invalidated = [];
}

-- the state before `init_pages`
abbrev blank : Kernel
blank = record small { pages = λ p. null_status; page_free_list = none }

-- The list of `small` is 6 and 8.
small-IsFreeList : IsFreeList small (6 ∷ 8 ∷ [])
small-IsFreeList = record {
  chain = link refl refl refl (link refl refl refl stop);
  within = λ p h. ground arith;
}

page_alloc-cons_example : Ends (Allocated 1 small 6 (8 ∷ [])) (page_alloc 1 small)
page_alloc-cons_example = page_alloc-cons 1 (omega arith) small-IsFreeList

page_decref-more_example : page_decref 9 small ≡ ok tt (set_refs 9 2 small)
page_decref-more_example = page_decref-more small 9 1 refl (omega arith)

init_pages-Initial_example : Ends (λ _. Initial 0xf000_4010 blank) (init_pages 0xf000_4010 blank)
init_pages-Initial_example = init_pages-Initial 0xf000_4010 blank refl

-- A machine with the entry directory at page 2 and its table at page 3.
abbrev entry_machine : Kernel
entry_machine = record small {
  frame = λ p i. if p == 2 then entry_pgdir 0xf000_3000 i else entry_pgtable i;
}

entry_lem : IsEntry 2 0xf000_3000 entry_machine
unfolding paddr pgnum
entry_lem = record {
  directory = λ i. refl;
  page_table = λ i. refl;
  aligned = refl;
  in_kernel = omega arith;
  fits = omega arith;
  within = omega arith;
}

check_va2pa-entry_pgdir_example :
    ((0xf000_5123 < page_table_size)
        ⊎ ((kernel_base_address ≤ 0xf000_5123)
            × (0xf000_5123 < kernel_base_address + page_table_size))
      → check_va2pa 2 0xf000_5123 entry_machine
        ≡ ok (0xf000_5123 % page_table_size / 4096 * 4096) entry_machine)
    × (page_table_size ≤ 0xf000_5123
        → (0xf000_5123 < kernel_base_address)
          ⊎ (kernel_base_address + page_table_size ≤ 0xf000_5123)
        → check_va2pa 2 0xf000_5123 entry_machine ≡ ok 0xffff_ffff entry_machine)
check_va2pa-entry_pgdir_example = check_va2pa-entry_pgdir 0xf000_5123 entry_lem (omega arith)

check_kern_pgdir_iff_example :
    (check_kern_pgdir 3 0xf012_0000 0xf011_0000 small ≡ ok tt small)
    ↔ IsChecked 3 0xf012_0000 0xf011_0000 small
check_kern_pgdir_iff_example = check_kern_pgdir_iff 3 0xf012_0000 0xf011_0000 small (omega arith)
