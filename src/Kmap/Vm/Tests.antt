-- ===== src/Kmap/Vm/Tests.antt =====
-- The functions on page tables on a machine of 2000 pages: the directory is page 2, its entries 1 to
-- 1023 are present, and the table of entry 1 maps the address 0x40_2000 to page 1600.
use cezos.Base.{
  ℕ, zero, suc, ◌+◌, ◌*◌, ◌/◌, ◌≤◌, ◌<◌, ◌==◌, ◌≡◌, ◌≢◌, refl, leb, ◌&&◌, ◌||◌, if◌then◌else◌,
  false, some, none, List, [], ◌∷◌, arith,
}
use cezos.Mmu.{pgnum, ptx, pte_addr, pdx, page_size}
use cezos.Kmap.State.{PageStatus, Kernel, ok}
use cezos.Kmap.Addr.{page2pa}
use cezos.Kmap.Table.{map_memory_region, insert_page, remove_page, get_page_table, inserted}
use cezos.Kmap.FreeList.{has, Ends, stop, link, IsFreeList}
use cezos.Kmap.Vm.{table, Odd, absent, IsVm, Maps}
use cezos.Kmap.Vm.Walk.{Walked, get_page_table-Walked}
use cezos.Kmap.Vm.Region.{Region, map_memory_region-Region}
use cezos.Kmap.Vm.Insert.{InsertedAt, insert_page-InsertedAt, insert_page_again}
use cezos.Kmap.Vm.Remove.{IsData, Removed, remove_page-Removed}

-- the directory entry of U_VIRTUAL_PAGE_TABLE
abbrev self : ℕ
self = 957

abbrev words : ℕ → ℕ → ℕ
words p i =
    if p == 2
    then (if i == 0 || leb 1024 i
        then 0
        else if i == self
        then 2 * 4096 + 3
        else (i + 10) * 4096 + 3)
    else if p == 11 && i == 2
    then 1600 * 4096 + 1
    else 0

abbrev statuses : ℕ → PageStatus
statuses p =
    if p == 1
    then record { next_free = some 3; refs = 0 }
    else if p == 3
    then record { next_free = none; refs = 0 }
    else record { next_free = none; refs = 1 }

abbrev machine : Kernel
machine = record {
  pages = statuses;
  page_free_list = some 1;
  pages_count = 2000;
  pages_basemem_count = 160;
  frame = words;
  next_free = 0;
  invalidated = [];
}

abbrev free : List ℕ
free = 1 ∷ 3 ∷ []

few_absent : (n : ℕ) → n ≤ 1024 → absent (words 2) n ≤ 1
unfolding absent
few_absent zero h = omega arith
few_absent (suc zero) h = omega arith
few_absent (suc (suc n)) h = ground (arith, few_absent (suc n) (omega arith))

-- the entries that are present, and their tables
entry-Odd :
    (i : ℕ) → i ≢ self → Odd (words 2 i) → (words 2 i ≡ (i + 10) * 4096 + 3) × (0 < i) × (i < 1024)
entry-Odd i ne odd = ground arith

table-machine : (i : ℕ) → i ≢ self → Odd (words 2 i) → table 2 machine i ≡ i + 10
unfolding pgnum
table-machine i ne odd = let (e, lo, hi) = entry-Odd i ne odd in rw e (omega arith)

free_after : (p : ℕ) → 3 < p → has p free ≡ false
free_after p h = ground arith

below : (i : ℕ) → i ≢ self → Odd (words 2 i) → table 2 machine i < 2000
below i ne odd = let (e, lo, hi) = entry-Odd i ne odd in omega (arith, hi, table-machine i ne odd)

free_lem : IsFreeList machine free
free_lem = record {
  chain = link refl refl refl (link refl refl refl stop);
  within = λ p h. ground arith;
}

machine-IsVm : IsVm 2 self machine free
machine-IsVm = record {
  few = omega arith;
  free = free_lem;
  directory = refl;
  room = omega (arith, few_absent 1024 (omega arith));
  tables = λ i ne odd. record {
    within = below i ne odd;
    ne_directory = omega (arith, table-machine i ne odd);
    in_use = free_after (table 2 machine i) (omega (arith, table-machine i ne odd));
  };
  distinct = λ i j ni nj ne oi oj. omega (arith, table-machine i ni oi, table-machine j nj oj);
}

map_memory_region-Region_example :
    Ends
      (λ _. Region 2 self 0x1000 0x5000 0x3000 machine)
      (map_memory_region 2 0x1000 0x3000 0x5000 3 machine)
unfolding pdx
map_memory_region-Region_example =
    map_memory_region-Region 2 self 0x1000 0x5000 0x3000 3 machine-IsVm refl (omega arith)
      (omega arith) (omega arith) outside_self
  where
    outside_self : (j : ℕ) → j < 0x3000 / page_size → pdx (0x1000 + j * page_size) ≢ self
    outside_self j h = omega arith

get_page_table-Walked_example :
    Ends (Walked 2 self machine free 0x1000) (get_page_table 2 0x1000 1 machine)
unfolding pdx
get_page_table-Walked_example = get_page_table-Walked 2 self 0x1000 machine-IsVm (omega arith)

-- the table of entry 1 is page 11
table_one : table 2 machine 1 ≡ 11
table_one = table-machine 1 (omega arith) refl

insert_page-InsertedAt_example :
    Ends (InsertedAt 2 self machine 0x40_1000 1500 free) (insert_page 2 1500 0x40_1000 7 machine)
unfolding pdx ptx pgnum pte_addr page2pa
insert_page-InsertedAt_example =
    insert_page-InsertedAt 2 self 0x40_1000 1500 7 machine-IsVm (omega arith) refl refl
      (omega arith) (omega arith) (omega arith) refl

insert_page_again_example : insert_page 2 1600 0x40_2000 7 machine ≡ ok inserted machine
unfolding pdx ptx pgnum pte_addr page2pa
insert_page_again_example =
    insert_page_again 2 self 0x40_2000 1600 7 machine-IsVm (omega arith) refl refl (omega arith)

page_lem : Maps 2 machine 0x40_2000 (page2pa 1600)
unfolding pdx ptx pgnum pte_addr page2pa
page_lem = record { directory = refl; entry = refl; target = refl }

data_lem : IsData 2 self machine 1600
data_lem = record {
  ne_directory = omega arith;
  ne_table =
      λ i ne odd. let (e, lo, hi) = entry-Odd i ne odd in omega (arith, table-machine i ne odd);
}

remove_page-Removed_example :
    Ends (λ _. Removed 2 self machine 0x40_2000 1600 free) (remove_page 2 0x40_2000 machine)
unfolding pdx
remove_page-Removed_example =
    remove_page-Removed 2 self 0x40_2000 1600 machine-IsVm (omega arith) page_lem (omega arith)
      data_lem refl refl refl
