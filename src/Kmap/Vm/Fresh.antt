-- ===== src/Kmap/Vm/Fresh.antt =====
-- `get_page_table` where the table is absent: which page becomes the table.
use cezos.Base.{ℕ, ◌%◌, ◌≡◌, ◌≢◌, refl, sym, ◌∙◌, List, ◌∷◌, arith, bit_or}
use cezos.Mmu.{pdx, ptx}
use cezos.Kmap.State.{Kernel, update}
use cezos.Kmap.Addr.{page2pa}
use cezos.Kmap.Pages.{incref, set_refs}
use cezos.Kmap.Table.{PtePtr, slot, get_page_table, table_entry, new_table, write_word}
use cezos.Kmap.Entry.{absent_of_even, entry_of-kaddr}
use cezos.Kmap.FreeList.{Ends, ends, Ends-and_then}
use cezos.Kmap.Alloc.{Allocated, page_alloc-cons}
use cezos.Kmap.Vm.{Odd, table, IsVm, Keeps}
use cezos.Kmap.Vm.Installed.{
  installed, word, other_entry, new_entry, entered, table-new, ne_directory, installed-Keeps,
  installed-IsVm,
}
use cezos.Kmap.Vm.Walk.{pdx-lt}

-- The head `p` of the free list is the new table, which is empty, and nothing else changes but the
-- directory's entry.
pub record Fresh (d self : ℕ) (s : Kernel) (va p : ℕ) (xs : List ℕ) (pte : PtePtr) (t : Kernel)
    : Type 0 where
  pub pointer : pte ≡ slot (table d t (pdx va)) (ptx va)
  pub place : table d t (pdx va) ≡ p
  pub present : Odd (t.frame d (pdx va))
  pub keeps : Keeps d self s t
  pub vm : IsVm d self t xs
  pub empty : (j : ℕ) → t.frame p j ≡ 0
  pub others : (q j : ℕ) → q ≢ d → q ≢ p → t.frame q j ≡ s.frame q j
  pub entries : (i : ℕ) → i ≢ pdx va → t.frame d i ≡ s.frame d i
  pub statuses : (q : ℕ) → q ≢ p → t.pages q ≡ s.pages q
  pub pages : t.pages_count ≡ s.pages_count

module _ (d self : ℕ) {s : Kernel} {p : ℕ} {xs : List ℕ} (va : ℕ) (vm : IsVm d self s (p ∷ xs))
    (ne : pdx va ≢ self) (even : s.frame d (pdx va) % 2 ≡ 0) where
  -- What new_table has done.
  Made : ℕ → Kernel → Type 0
  Made pde u =
      (r : ℕ) × (t : Kernel) × Allocated 1 s p xs r t
      × (u ≡ installed d self t p (pdx va))
      × (pde ≡ bit_or (page2pa p) 7)

  new_table-Made : Ends Made (new_table d va s)
  unfolding new_table Made
  new_table-Made =
      Ends-and_then (page_alloc-cons 1 vm.few vm.free)
        λ r t a. rw (a.page) (ends (r, t, a, refl, refl))

  installed-Fresh :
      (r : ℕ) (t : Kernel)
      → Allocated 1 s p xs r t
      → Fresh d self s va p xs
          (slot (table d (installed d self t p (pdx va)) (pdx va)) (ptx va))
          (installed d self t p (pdx va))
  unfolding write_word incref set_refs update
  installed-Fresh r t a = record {
    pointer = refl;
    place = table-new d self vm ne (pdx-lt va) even a;
    present = entered d self vm ne (pdx-lt va) even a;
    keeps = installed-Keeps d self vm ne (pdx-lt va) even a;
    vm = installed-IsVm d self vm ne (pdx-lt va) even a;
    empty = λ j. ground (
      arith,
      word d self vm ne (pdx-lt va) even a p j,
      ne_directory d self vm ne (pdx-lt va) even a,
    );
    others = λ q j nd np. ground (arith, word d self vm ne (pdx-lt va) even a q j);
    entries = other_entry d self vm ne (pdx-lt va) even a;
    statuses = λ q np. ground (arith, a.others q np);
    pages = a.count;
  }

  -- For an absent table get_page_table makes one of the first free page.
  pub get_page_table-Fresh : Ends (Fresh d self s va p xs) (get_page_table d va 1 s)
  unfolding get_page_table table_entry Made
  get_page_table-Fresh = rw (absent_of_even _ even) (
      Ends-and_then new_table-Made λ pde u (r, t, a, e, f).
        let fresh = installed-Fresh r t a in
        let same : pde ≡ (installed d self t p (pdx va)).frame d (pdx va) =
          f ∙ sym (new_entry d self vm ne (pdx-lt va) even a) in
        let vm' = fresh.vm in
        rw
          (
            e,
            same,
            entry_of-kaddr (installed d self t p (pdx va))
                ((installed d self t p (pdx va)).frame d (pdx va)) (ptx va)
                (vm'.tables (pdx va) ne fresh.present).within,
          )
          (ends fresh))
