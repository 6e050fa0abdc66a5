-- ===== src/Kmap/Memory/Inserted.antt =====
-- The middle of `check_kern_pgdir_installed`: a page is filled and mapped at the address PAGE_SIZE, where no
-- table is, so that the first free page becomes the table.
use cezos.Base.{ℕ, ◌%◌, ◌<◌, ◌≡◌, ◌≢◌, refl, sym, ap, ◌∙◌, false, inl, List, ◌∷◌, arith}
use mathlib.Core.Path.{subst}
use native.Mathlib.Decide.{ℕ_discrete}
use cezos.Mmu.{page_size, pdx, ptx, pgnum, pte_w, pte_addr}
use cezos.Kmap.State.{Kernel, Run, ok, fill_frame, set_word, update, null_status}
use cezos.Kmap.Addr.{page2pa}
use cezos.Kmap.Addr.Laws.{page2pa-page}
use cezos.Kmap.Pages.{incref, set_refs}
use cezos.Kmap.Table.{PtePtr, inserted, slot, page_entry, write_word, get_page_table, insert_page}
use cezos.Kmap.Entry.{page_entry-odd, page_entry-addr}
use cezos.Kmap.FreeList.{Ends, ends, has}
use cezos.Kmap.Vm.{Odd, table, leaf, Maps, IsVm}
use cezos.Kmap.Vm.Walk.{get_page_table-present}
use cezos.Kmap.Vm.Fresh.{Fresh, get_page_table-Fresh}
use cezos.Kmap.Vm.Write.{written-IsVm, row_same, Maps-Keeps, Maps-written, Maps-written_other}
use cezos.Kmap.Vm.Insert.{incref-IsVm, incref-Maps, insert_page-absent}
use cezos.Kmap.Vm.Remove.{IsData}
use cezos.Kmap.Memory.Selftest.{filled, row-filled, filled-IsVm, filled-Maps}

-- The result of a run that ends.
Ends-result :
    {A : Type 0} {P : A → Kernel → Type 0} {r : Run A}
    → Ends P r
    → (a : A) × (t : Kernel) × (r ≡ ok a t) × P a t
Ends-result (ends p) = (_, _, refl, p)

-- insert_page looks the entry up first, so it does the same where the table is there already.
insert_page_found :
    (d p va permissions : ℕ) (s t : Kernel) {pte : PtePtr}
    → get_page_table d va 1 s ≡ ok pte t
    → get_page_table d va 1 t ≡ ok pte t
    → insert_page d p va permissions s ≡ insert_page d p va permissions t
unfolding insert_page
insert_page_found d p va permissions s t e f = rw (e, f)

first_entry : pdx page_size ≡ 0
unfolding pdx
first_entry = refl

module _ (d self : ℕ) (zero_other : 0 ≢ self) where
  -- What is known after the page `p` was filled with the word `w` and mapped.
  pub record IsInserted (s : Kernel) (p q w : ℕ) (xs : List ℕ) (t : Kernel) : Type 0 where
    pub vm : IsVm d self t xs
    pub present : Odd (t.frame d 0)
    pub maps : Maps d t page_size (page2pa p)
    pub keeps : (va pa : ℕ) → pdx va ≢ self → pdx va ≢ 0 → Maps d s va pa → Maps d t va pa
    pub word : t.frame p 0 ≡ w
    pub status : t.pages p ≡ record null_status { refs = 1 }
    pub own : IsData d self t p
    pub count : t.pages_count ≡ s.pages_count

  module _ {s : Kernel} {xs : List ℕ} (p q w : ℕ) (vm : IsVm d self s (q ∷ xs))
      (own : IsData d self s p) (ne : p ≢ q) (out : has p xs ≡ false) (in_range : p < s.pages_count)
      (nonzero : p ≢ 0) (status : s.pages p ≡ null_status) (absent : s.frame d 0 ≡ 0) where
    abbrev full : Kernel
    full = filled d self p w vm own

    first-even : full.frame d (pdx page_size) % 2 ≡ 0
    unfolding fill_frame
    first-even = rw first_entry (ground (arith, own.ne_directory))

    first-ne : pdx page_size ≢ self
    first-ne = rw first_entry zero_other

    module _ {u : Kernel}
        (f : Fresh d self full page_size q xs
          (slot (table d u (pdx page_size)) (ptx page_size))
          u) where
      abbrev counted-vm : IsVm d self (incref p u) xs
      counted-vm = incref-IsVm d self p out f.vm

      leaf-empty : leaf d u page_size ≡ 0
      leaf-empty = ap (λ (t : ℕ). u.frame t (ptx page_size)) f.place ∙ f.empty (ptx page_size)

      abbrev entry : ℕ
      entry = page_entry (page2pa p) pte_w

      abbrev result : Kernel
      result = write_word (table d u (pdx page_size)) (ptx page_size) entry (incref p u)

      insert_page-result : insert_page d p page_size pte_w u ≡ ok inserted result
      unfolding pte_addr
      insert_page-result =
          insert_page-absent d self page_size p pte_w f.vm first-ne f.present
            (omega (arith, leaf-empty))
            (λ e. omega (arith, leaf-empty, page2pa-page s p vm.few in_range))

      counted-Odd : Odd ((incref p u).frame d (pdx page_size))
      unfolding incref set_refs
      counted-Odd = f.present

      result-row : result.frame d ≡ u.frame d
      unfolding incref set_refs
      result-row = row_same d self counted-vm page_size entry first-ne counted-Odd

      result-own : IsData d self result p
      result-own = record {
        ne_directory = own.ne_directory;
        ne_table = λ i ni odd.
            let same : result.frame d i ≡ u.frame d i = ap (λ (r : ℕ → ℕ). r i) result-row in
            elim (ℕ_discrete i (pdx page_size)) [
              | yes e ↦ λ there. ne (sym there ∙ ap pgnum same ∙ rw e f.place)
              | no e ↦
                  let old : result.frame d i ≡ s.frame d i =
                    same ∙ f.entries i e ∙ ap (λ (r : ℕ → ℕ). r i) (row-filled d self p w vm own) in
                  λ there. own.ne_table i ni (omega (arith, old)) (ap pgnum (sym old) ∙ there)
            ];
      }

      result-keeps : (va pa : ℕ) → pdx va ≢ self → pdx va ≢ 0 → Maps d s va pa → Maps d result va pa
      unfolding incref set_refs
      result-keeps va pa ns nz m =
          Maps-written_other d self counted-vm page_size entry first-ne counted-Odd ns
            (inl (λ e. nz (e ∙ first_entry)))
            (incref-Maps d self p
              (Maps-Keeps d self f.keeps ns (filled-Maps d self p w vm own ns m)))

      result-word : result.frame p 0 ≡ w
      unfolding incref set_refs write_word set_word fill_frame
      result-word = ground (arith, f.place, f.others p 0 own.ne_directory ne)

      result-status : result.pages p ≡ record null_status { refs = 1 }
      unfolding incref set_refs write_word update
      result-status = ground (arith, f.statuses p ne)

      result-IsInserted : IsInserted s p q w xs result
      unfolding incref set_refs write_word
      result-IsInserted =
          let aligned : page2pa p % 4096 ≡ 0 = omega (arith, page2pa-page s p vm.few in_range) in
          record {
            vm = written-IsVm d self counted-vm page_size entry first-ne counted-Odd;
            present = rw result-row (rw first_entry at f.present);
            maps =
                Maps-written d self counted-vm page_size entry first-ne counted-Odd
                  (page_entry-odd _ _) (page_entry-addr _ _ aligned (omega arith));
            keeps = result-keeps;
            word = result-word;
            status = result-status;
            own = result-own;
            count = f.pages;
          }

    -- The page is mapped, its word is kept, and `q` is the new table.
    pub insert_page-IsInserted :
        Ends
          (λ r t. (r ≡ inserted) × IsInserted s p q w xs t)
          (insert_page d p page_size pte_w full)
    insert_page-IsInserted =
        let (pte, u, run, f) = Ends-result (
          get_page_table-Fresh d self page_size (filled-IsVm d self p w vm own) first-ne
            first-even) in
        let f' : Fresh d self full page_size q xs (slot (table d u (pdx page_size)) (ptx page_size))
            u =
          subst (λ (a : PtePtr). Fresh d self full page_size q xs a u) f.pointer f in
        let again = get_page_table-present d self page_size 1 f.vm first-ne f.present in
        rw
          (
            insert_page_found d p page_size pte_w full u run
                (again ∙ ap (λ (a : PtePtr). ok a u) (sym f.pointer)),
            insert_page-result f',
          )
          (ends (refl, result-IsInserted f'))
