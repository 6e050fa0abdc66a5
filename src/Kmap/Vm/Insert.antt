-- ===== src/Kmap/Vm/Insert.antt =====
-- `insert_page`: on an entry that is not present, and on the page that is mapped there already.
use cezos.Base.{ℕ, ◌+◌, ◌%◌, ◌<◌, ◌==◌, ◌≡◌, ◌≢◌, false, true, refl, List, arith}
use cezos.Mmu.{word_size, pdx, ptx, pte_addr}
use cezos.Kmap.State.{Kernel, ok, update}
use cezos.Kmap.Addr.{page2pa}
use cezos.Kmap.Addr.Laws.{page2pa-page}
use cezos.Kmap.Pages.{incref, set_refs}
use cezos.Kmap.Table.{
  Inserted, inserted, page_entry, store_pte, load_pte, insert_page, insert_again, check_va2pa,
  write_word,
}
use cezos.Kmap.Entry.{page_entry-odd, page_entry-addr, absent_of_even}
use cezos.Kmap.FreeList.{Ends, ends, has, Chain-update}
use cezos.Kmap.Vm.{Odd, table, leaf, Maps, IsVm}
use cezos.Kmap.Vm.Walk.{get_page_table-present}
use cezos.Kmap.Vm.Write.{Apart, check_va2pa-Maps, written-IsVm, Maps-written, Maps-written_other}

module _ (d self : ℕ) where
  -- A reference more changes no entry and no link.
  pub incref-IsVm :
      {s : Kernel} {xs : List ℕ} (p : ℕ)
      → has p xs ≡ false
      → IsVm d self s xs
      → IsVm d self (incref p s) xs
  unfolding incref set_refs
  incref-IsVm p out vm = record {
    few = vm.few;
    free = record { chain = Chain-update p _ out vm.free.chain; within = vm.free.within };
    directory = vm.directory;
    room = vm.room;
    tables = λ i ni o. record {
      within = (vm.tables i ni o).within;
      ne_directory = (vm.tables i ni o).ne_directory;
      in_use = (vm.tables i ni o).in_use;
    };
    distinct = vm.distinct;
  }

  pub incref-Maps : {s : Kernel} (p : ℕ) {w q : ℕ} → Maps d s w q → Maps d (incref p s) w q
  unfolding incref set_refs
  incref-Maps p m = record { directory = m.directory; entry = m.entry; target = m.target }

  -- What `insert_page` leaves when the page was not mapped at the address.
  pub record InsertedAt (s : Kernel) (va p : ℕ) (xs : List ℕ) (r : Inserted) (t : Kernel)
      : Type 0 where
    pub result : r ≡ inserted
    pub translated : check_va2pa d va t ≡ ok (page2pa p) t
    pub counted : (t.pages p).refs ≡ ((s.pages p).refs + 1) % word_size
    pub others : (w q : ℕ) → pdx w ≢ self → Apart w va → Maps d s w q → check_va2pa d w t ≡ ok q t
    pub vm : IsVm d self t xs

  module _ {s : Kernel} {xs : List ℕ} (va p permissions : ℕ) (vm : IsVm d self s xs)
      (ne : pdx va ≢ self) (odd : Odd (s.frame d (pdx va))) where
    -- At an address with a page table and no page, the page is counted and its entry written.
    pub insert_page-absent :
        leaf d s va % 2 ≡ 0
        → pte_addr (leaf d s va) ≢ page2pa p
        → insert_page d p va permissions s
          ≡ ok inserted (
              write_word
                (table d s (pdx va))
                (ptx va)
                (page_entry (page2pa p) permissions)
                (incref p s))
    unfolding insert_page store_pte load_pte incref set_refs
    insert_page-absent even differs =
        let other : (pte_addr (leaf d s va) == page2pa p) ≡ false = ground arith in
        rw (get_page_table-present d self va 1 vm ne odd, other, absent_of_even _ even)

    -- An address with a page table and no page, whose empty entry does not hold the address of p, as an
    -- entry of zeros does for page 0: insert_page of a page p that is not free returns 0, translates the address to p, counts one reference more, leaves the translation of every
    -- other page as it was, and keeps the directory and the free list in order.
    pub insert_page-InsertedAt :
        leaf d s va % 2 ≡ 0
        → pte_addr (leaf d s va) ≢ page2pa p
        → p < s.pages_count
        → permissions < 4096
        → has p xs ≡ false
        → Ends (InsertedAt s va p xs) (insert_page d p va permissions s)
    unfolding incref set_refs update write_word
    insert_page-InsertedAt even differs in_range low in_use =
        let vm' = incref-IsVm p in_use vm in
        let v = page_entry (page2pa p) permissions in
        let aligned : page2pa p % 4096 ≡ 0 = omega (arith, page2pa-page s p vm.few in_range) in
        let after = written-IsVm d self vm' va v ne odd in
        rw (insert_page-absent even differs) (
          ends (record {
            result = refl;
            translated = check_va2pa-Maps d self after ne (
                Maps-written d self vm' va v ne odd (page_entry-odd _ _)
                  (page_entry-addr _ _ aligned low));
            counted = ground arith;
            others = λ w q nw apart m.
                check_va2pa-Maps d self after nw
                  (Maps-written_other d self vm' va v ne odd nw apart (incref-Maps p m));
            vm = after;
          }))

    -- Where the page is mapped at the address already, insert_page with permissions other than 0
    -- returns 0 and changes nothing at all: the new permissions are not stored.
    pub insert_page_again :
        pte_addr (leaf d s va) ≡ page2pa p
        → permissions ≢ 0
        → insert_page d p va permissions s ≡ ok inserted s
    unfolding insert_page insert_again load_pte
    insert_page_again same given =
        let test : (pte_addr (leaf d s va) == page2pa p) ≡ true = ground arith in
        let nonzero : (permissions == 0) ≡ false = ground arith in
        rw (get_page_table-present d self va 1 vm ne odd, test, nonzero)
