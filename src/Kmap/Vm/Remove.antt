-- ===== src/Kmap/Vm/Remove.antt =====
-- `remove_page` of a page whose only reference is the mapping, and what follows a second call.
use cezos.Base.{ℕ, ◌%◌, ◌<◌, ◌≡◌, ◌≢◌, false, none, List, ◌∷◌, arith, ap}
use cezos.Mmu.{pdx, ptx}
use cezos.Kmap.State.{Kernel, ok}
use cezos.Kmap.Addr.{pa2page, page2pa}
use cezos.Kmap.Addr.Laws.{page_conversions}
use cezos.Kmap.Table.{
  slot, search_page, remove_page, store_pte, load_pte, write_word, invalidate_tlb, check_va2pa,
}
use cezos.Kmap.Entry.{present_of_odd, absent_of_even, entry_of-kaddr}
use cezos.Kmap.FreeList.{Ends, ends, Ends-and_then, has}
use cezos.Kmap.Alloc.{Freed, page_decref-one}
use cezos.Kmap.Vm.{Odd, table, leaf, Maps, IsVm}
use cezos.Kmap.Vm.Walk.{get_page_table-present}
use cezos.Kmap.Vm.Write.{
  Apart, check_va2pa-Maps, written, written-IsVm, leaf-written, row_same, written-Odd,
  Maps-written_other,
}

module _ (d self : ℕ) where
  -- The lookup of a mapped address returns its page and the place of its entry.
  pub search_page-Maps :
      {s : Kernel} {xs : List ℕ} {va pa : ℕ}
      → IsVm d self s xs
      → pdx va ≢ self
      → Maps d s va pa
      → search_page d va s ≡ ok (pa2page s pa, slot (table d s (pdx va)) (ptx va)) s
  unfolding search_page load_pte
  search_page-Maps {va} vm ne m =
      rw (get_page_table-present d self va 0 vm ne m.directory, present_of_odd _ m.entry, m.target)

  -- Page `q` is neither the directory nor one of its tables.
  pub record IsData (s : Kernel) (q : ℕ) : Type 0 where
    pub ne_directory : q ≢ d
    pub ne_table : (i : ℕ) → i ≢ self → Odd (s.frame d i) → table d s i ≢ q

  Freed-IsVm :
      {s t : Kernel} {xs : List ℕ} {q : ℕ}
      → IsVm d self s xs
      → IsData s q
      → q < s.pages_count
      → Freed s q xs t
      → IsVm d self t (q ∷ xs)
  Freed-IsVm {s} {t} {xs} {q} vm own in_range f = record {
    few = omega (arith, vm.few, f.count);
    free = record { chain = f.chain; within = λ p h. ground (arith, f.count, vm.free.within p) };
    directory = ground (arith, own.ne_directory, vm.directory);
    room = rw f.memory (omega (arith, vm.room));
    tables = rw f.memory (λ i ni o. record {
      within = omega (arith, f.count, (vm.tables i ni o).within);
      ne_directory = (vm.tables i ni o).ne_directory;
      in_use = ground (arith, own.ne_table i ni o, (vm.tables i ni o).in_use);
    });
    distinct = rw f.memory vm.distinct;
  }

  -- What `remove_page` leaves.
  pub record Removed (s : Kernel) (va q : ℕ) (xs : List ℕ) (t : Kernel) : Type 0 where
    pub unmapped : check_va2pa d va t ≡ ok 0xffff_ffff t
    pub flushed : t.invalidated ≡ va ∷ s.invalidated
    pub others :
        (w pa : ℕ) → pdx w ≢ self → Apart w va → Maps d s w pa → check_va2pa d w t ≡ ok pa t
    pub vm : IsVm d self t (q ∷ xs)
    pub cleared : leaf d t va % 2 ≡ 0
    pub row : t.frame d ≡ s.frame d
    pub keeps : (w pa : ℕ) → pdx w ≢ self → Apart w va → Maps d s w pa → Maps d t w pa

  -- An address with a table and an entry that is not present.
  pub check_va2pa_even :
      {s : Kernel} {xs : List ℕ} (va : ℕ)
      → IsVm d self s xs
      → pdx va ≢ self
      → Odd (s.frame d (pdx va))
      → leaf d s va % 2 ≡ 0
      → check_va2pa d va s ≡ ok 0xffff_ffff s
  unfolding check_va2pa load_pte
  check_va2pa_even {s} va vm ne odd even = rw (
    present_of_odd _ odd,
    entry_of-kaddr s (s.frame d (pdx va)) (ptx va) (vm.tables (pdx va) ne odd).within,
    absent_of_even _ even,
  )

  -- An entry of the log changes nothing else.
  flush-IsVm :
      {t : Kernel} {ys : List ℕ} (va : ℕ) → IsVm d self t ys → IsVm d self (invalidate_tlb va t) ys
  unfolding invalidate_tlb
  flush-IsVm va vm = record {
    few = vm.few;
    free = record { chain = vm.free.chain; within = vm.free.within };
    directory = vm.directory;
    room = vm.room;
    tables = λ i ni o. record {
      within = (vm.tables i ni o).within;
      ne_directory = (vm.tables i ni o).ne_directory;
      in_use = (vm.tables i ni o).in_use;
    };
    distinct = vm.distinct;
  }

  pub Maps-frame : {s t : Kernel} {w pa : ℕ} → t.frame ≡ s.frame → Maps d s w pa → Maps d t w pa
  Maps-frame e m = record {
    directory = rw e m.directory;
    entry = rw e m.entry;
    target = rw e m.target;
  }

  module _ {s : Kernel} {xs : List ℕ} (va q : ℕ) (vm : IsVm d self s xs) (ne : pdx va ≢ self)
      (maps : Maps d s va (page2pa q)) where
    -- After the entry was cleared and the page freed, the TLB is flushed.
    after_free :
        {t : Kernel}
        → q < s.pages_count
        → IsData s q
        → Freed (written d self vm va 0 ne maps.directory) q xs t
        → Removed s va q xs (invalidate_tlb va t)
    unfolding write_word invalidate_tlb
    after_free {t} in_range own f =
        let vm' = written-IsVm d self vm va 0 ne maps.directory in
        let own' : IsData (written d self vm va 0 ne maps.directory) q = record {
          ne_directory = own.ne_directory;
          ne_table = rw (row_same d self vm va 0 ne maps.directory) own.ne_table;
        } in
        let done = flush-IsVm va (Freed-IsVm vm' own' in_range f) in
        record {
          unmapped =
              check_va2pa_even va done ne
                (rw f.memory (written-Odd d self vm va 0 ne maps.directory))
                (rw f.memory
                  (ap (λ (e : ℕ). e % 2) (leaf-written d self vm va 0 ne maps.directory)));
          flushed = ap (λ l. va ∷ l) f.flushed;
          others = λ w pa nw apart m. check_va2pa-Maps d self done nw (
              Maps-frame f.memory (Maps-written_other d self vm va 0 ne maps.directory nw apart m));
          vm = done;
          cleared =
              rw f.memory (ap (λ (e : ℕ). e % 2) (leaf-written d self vm va 0 ne maps.directory));
          row = rw f.memory (row_same d self vm va 0 ne maps.directory);
          keeps = λ w pa nw apart m.
              Maps-frame f.memory (Maps-written_other d self vm va 0 ne maps.directory nw apart m);
        }

    -- For an address that maps a data page q whose only reference this is, remove_page ends, and
    -- then the address is unmapped and flushed from the TLB, q is at the head of the free list, every
    -- other page is translated as before, and the directory and the free list are in order.
    pub remove_page-Removed :
        q < s.pages_count
        → IsData s q
        → has q xs ≡ false
        → (s.pages q).refs ≡ 1
        → (s.pages q).next_free ≡ none
        → Ends (λ _. Removed s va q xs) (remove_page d va s)
    unfolding remove_page store_pte write_word
    remove_page-Removed in_range own in_use one alone =
        let found = (page_conversions s q vm.few in_range).0 in
        let vm' = written-IsVm d self vm va 0 ne maps.directory in
        rw (search_page-Maps vm ne maps, found)
          (Ends-and_then (page_decref-one q one alone in_use vm'.free.chain)
            λ _ t f. ends (after_free in_range own f))
