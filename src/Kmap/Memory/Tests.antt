-- ===== src/Kmap/Memory/Tests.antt =====
-- initialize_memory on a machine with 640 KB of base memory and 31 MB above 1 MB, for a kernel that ends
-- in page 274. The name bootstack reads as 0, the first word of the stack.
use cezos.Base.{
  ℕ, ◌+◌, ◌*◌, ◌<◌, ◌≤◌, ◌/◌, ◌%◌, ◌==◌, ◌≡◌, refl, ap, sym, ◌∙◌, if◌then◌else◌, none, some, [],
  arith,
}
use cezos.Mmu.{page_size, page_table_size, pgnum, pdx, pte_addr, is_page_present}
use cezos.Kmap.State.{PageStatus, Kernel, null_status}
use cezos.Kmap.Addr.{paddr}
use cezos.Kmap.Entry.{present_of_odd}
use cezos.Kmap.FreeList.{Ends}
use cezos.Kmap.Setup.{total_memory, vram_read}
use cezos.Kmap.Directory.Checked.{IsChecked}
use cezos.Kmap.Vm.{leaf}
use cezos.Kmap.Memory.{Load, Control, build_directory, initialize_memory}
use cezos.Kmap.Memory.Prepared.{total_pages, base_pages}
use cezos.Kmap.Memory.Regions.{IsMapped}
use cezos.Kmap.Memory.Checked.{build_directory-IsChecked}
use cezos.Kmap.Memory.Installed.{Loads}
use cezos.Kmap.Memory.Whole.{IsInitialized, initialize_memory-IsInitialized}

abbrev nvram : ℕ → ℕ
nvram r = if r == 0x15 then 0x80 else if r == 0x16 then 0x02 else if r == 0x18 then 0x7c else 0

abbrev blank : Kernel
blank = record {
  pages = λ p. record { next_free = some p; refs = 7 };
  page_free_list = none;
  pages_count = 0;
  pages_basemem_count = 0;
  frame = λ p i. 0x97;
  next_free = 0;
  invalidated = [];
}

abbrev cut : PageStatus → ℕ → PageStatus
cut r n = null_status

abbrev control : Control
control = record { cr0 = 0x8001_0011; cr3 = 0x0011_6000 }

-- A processor that walks the two tables.
abbrev walk : Load
walk c s va =
    if is_page_present (s.frame (pgnum c.cr3) (pdx va)) == 0
    then none
    else if is_page_present (leaf (pgnum c.cr3) s va) == 0
    then none
    else some (s.frame (pgnum (leaf (pgnum c.cr3) s va)) (va % page_size / 4))

pgnum-pte_addr : (e : ℕ) → pgnum (pte_addr e) ≡ pgnum e
unfolding pgnum pte_addr
pgnum-pte_addr e = omega arith

walk-Loads : Loads walk
walk-Loads c paging s va pa m =
    let page : pgnum (leaf (pgnum c.cr3) s va) ≡ pgnum pa =
      sym (pgnum-pte_addr (leaf (pgnum c.cr3) s va)) ∙ ap pgnum m.target in
    rw (present_of_odd _ m.directory, present_of_odd _ m.entry, page)

total_lem : total_pages nvram ≡ 8192
unfolding total_memory vram_read
total_lem = refl

base_lem : base_pages nvram ≡ 160
unfolding vram_read
base_lem = refl

build_directory-IsChecked_example :
    Ends
      (λ r t.
        IsMapped (pgnum (paddr r.0)) (total_pages nvram) r.1 0 t
        × IsChecked (pgnum (paddr r.0)) r.1 0 t
        × (pgnum (paddr r.0) < 1024)
        × (paddr r.1 + total_pages nvram * 8 ≤ page_table_size))
      (build_directory nvram 0xf011_2345 cut 0 blank)
unfolding paddr
build_directory-IsChecked_example =
    build_directory-IsChecked nvram 0xf011_2345 0 cut blank refl refl (omega (arith, base_lem))
      (omega (arith, total_lem)) (omega (arith, total_lem)) (omega (arith, total_lem, base_lem))
      (omega (arith, total_lem)) refl (omega arith)

initialize_memory-IsInitialized_example :
    Ends IsInitialized (initialize_memory nvram 0xf011_2345 0 cut walk control blank)
unfolding paddr
initialize_memory-IsInitialized_example =
    initialize_memory-IsInitialized nvram 0xf011_2345 0 cut walk control blank refl refl
      (omega (arith, base_lem)) (omega (arith, total_lem)) (omega (arith, total_lem))
      (omega (arith, total_lem, base_lem)) (omega (arith, total_lem)) refl (omega arith) walk-Loads
