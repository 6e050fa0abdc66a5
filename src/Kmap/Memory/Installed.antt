-- ===== src/Kmap/Memory/Installed.antt =====
-- `check_kern_pgdir_installed` as a whole.
use cezos.Base.{
  ◌^◌, ℕ, ◌/◌, ◌%◌, ◌<◌, ◌≡◌, ◌≢◌, refl, sym, ap, ◌∙◌, false, some, none, List, ◌∷◌, arith,
}
use cezos.Mmu.{page_size, pdx, pgnum, pte_w}
use cezos.Kmap.State.{PageStatus, Kernel, ok, and_then}
use cezos.Kmap.Addr.{paddr, page2pa}
use cezos.Kmap.Addr.Laws.{max_pages, page_kva, page2kva-page, pgnum-page_kva}
use cezos.Kmap.Pages.{set_refs}
use cezos.Kmap.Table.{write_word, insert_page, check_va2pa}
use cezos.Kmap.FreeList.{Ends, ends, Ends-and_then, has, Chain-cons}
use cezos.Kmap.Alloc.{page_alloc-cons, free_page-cons}
use cezos.Kmap.Check.{fill_word}
use cezos.Kmap.Vm.{Odd, table, Maps, IsVm, Spare}
use cezos.Kmap.Vm.Write.{Apart, check_va2pa-Maps}
use cezos.Kmap.Vm.Remove.{IsData, Removed, Maps-frame, remove_page-Removed, check_va2pa_even}
use cezos.Kmap.Memory.{Load, Control, check_inserted, check_kern_pgdir_installed}
use cezos.Kmap.Memory.Listed.{self}
use cezos.Kmap.Memory.Selftest.{IsPair, Freed-IsPair, filled}
use cezos.Kmap.Memory.Inserted.{IsInserted, insert_page-IsInserted}
use cezos.Kmap.Memory.Cleanup.{
  cleaned-zero, cleaned_entry, cleaned-IsVm, cleaned-Maps, leaf-cleaned, refs-cleaned,
}

-- The self map is not directory entry 0.
pub zero_other : 0 ≢ self
unfolding pdx
zero_other = omega arith

module _ (d : ℕ) where
  -- What `check_kern_pgdir_installed` leaves, where `p0` and `p1` were the first two free pages. The
  -- second one is free again, but its kernel address is unmapped, and the first one is lost.
  pub record IsSelftested (s : Kernel) (p0 p1 : ℕ) (xs : List ℕ) (t : Kernel) : Type 0 where
    pub vm : IsVm d self t (p1 ∷ xs)
    pub unmapped : check_va2pa d (page_kva p1) t ≡ ok 0xffff_ffff t
    pub others :
        (va pa : ℕ)
        → pdx va ≢ self
        → pdx va ≢ 0
        → Apart va (page_kva p1)
        → Maps d s va pa
        → check_va2pa d va t ≡ ok pa t
    pub lost : (has p0 (p1 ∷ xs) ≡ false) × ((t.pages p0).refs ≡ 0)
    pub empty : t.frame d 0 ≡ 0

  Removed-IsSelftested :
      {s t u : Kernel} {p0 p1 w : ℕ} {xs : List ℕ}
      → p1 ≢ p0
      → has p0 xs ≡ false
      → pdx (page_kva p1) ≢ self
      → pdx (page_kva p1) ≢ 0
      → Maps d s (page_kva p1) (page2pa p1)
      → IsInserted d self zero_other s p1 p0 w xs t
      → Removed d self t (page_kva p1) p1 xs u
      → IsSelftested s p0 p1 xs (set_refs p0 0 (write_word d 0 0 u))
  Removed-IsSelftested {s} {t} {u} {p0} {p1} {xs = xs} ne out ns nz kernel i r =
      let off : has p0 (p1 ∷ xs) ≡ false = ground arith in
      let odd : Odd (u.frame d 0) = rw (ap (λ (f : ℕ → ℕ). f 0) r.row) i.present in
      let spare : Spare d 1 u (p1 ∷ xs) = rw r.row (omega (arith, (i.vm).room)) in
      let vm = cleaned-IsVm d self p0 r.vm spare zero_other off odd in
      let there : Odd (u.frame d (pdx (page_kva p1))) =
        rw (ap (λ (f : ℕ → ℕ). f (pdx (page_kva p1))) r.row)
          (i.keeps (page_kva p1) (page2pa p1) ns nz kernel).directory in
      record {
        vm = vm;
        unmapped =
            check_va2pa_even d self (page_kva p1) vm ns
              (rw (cleaned_entry d self p0 r.vm spare zero_other off odd (pdx (page_kva p1)) nz)
                there)
              (rw (leaf-cleaned d self p0 r.vm spare zero_other off odd (page_kva p1) nz ns there)
                r.cleared);
        others = λ va pa vs vz apart m. check_va2pa-Maps d self vm vs (
            cleaned-Maps d self p0 r.vm spare zero_other off odd vz vs
              (r.keeps va pa vs apart (i.keeps va pa vs vz m)));
        lost = (off, refs-cleaned d self p0 r.vm spare zero_other off odd);
        empty = cleaned-zero d self p0 r.vm spare zero_other off odd;
      }

pgnum-page2pa : (p : ℕ) → p < max_pages → pgnum (page2pa p) ≡ p
unfolding pgnum page2pa
pgnum-page2pa p h = omega arith

fill_word_lem : fill_word 0x0101_0101 ≡ 0x0101_0101
unfolding fill_word
fill_word_lem = refl

-- PE and PG are set, so that the processor translates addresses.
abbrev pub IsPaging : Control → Type 0
IsPaging c = (c.cr0 % 2 ≡ 1) × (c.cr0 / 2 ^ 31 % 2 ≡ 1)

-- With paging on, the processor reads the words of the pages that the loaded directory maps.
abbrev pub Loads : Load → Type 0
Loads load =
    (c : Control)
    → IsPaging c
    → (s : Kernel) (va pa : ℕ) → Maps (pgnum c.cr3) s va pa
    → load c s va ≡ some (s.frame (pgnum pa) (va % page_size / 4))

module _ (load : Load) (c : Control) (kern_page_directory : ℕ)
    (loaded : c.cr3 ≡ paddr kern_page_directory) (paging : IsPaging c) (loads : Loads load) where
  abbrev kpgdir : ℕ
  kpgdir = pgnum (paddr kern_page_directory)

  module _ {s : Kernel} {p0 p1 : ℕ} {xs : List ℕ} (vm : IsVm kpgdir self s (p0 ∷ p1 ∷ xs))
      (spare : Spare kpgdir 1 s (p0 ∷ p1 ∷ xs)) (empty : s.frame kpgdir 0 ≡ 0) (nonzero : p1 ≢ 0)
      (kernel : Maps kpgdir s (page_kva p1) (page2pa p1)) (ns : pdx (page_kva p1) ≢ self)
      (nz : pdx (page_kva p1) ≢ 0) where
    load-word :
        {t : Kernel}
        → p1 < max_pages
        → IsInserted kpgdir self zero_other s p1 p0 0x0101_0101 xs t
        → load c t page_size ≡ some 0x0101_0101
    load-word {t} few i =
        loads c paging t page_size (page2pa p1) (rw loaded i.maps)
        ∙ ap (λ (q : ℕ). some (t.frame q 0)) (pgnum-page2pa p1 few)
        ∙ ap (λ (v : ℕ). some v) i.word

    new_ne : p1 ≢ p0
    new_ne = ground (arith, (Chain-cons vm.free.chain).2)

    lost-out : has p0 xs ≡ false
    lost-out = ground (arith, (Chain-cons vm.free.chain).2)

    second : (has p1 xs ≡ false) × (p1 < s.pages_count)
    second = ((Chain-cons (Chain-cons vm.free.chain).3).2, vm.free.within p1 (ground arith))

    check_inserted-IsSelftested :
        {t : Kernel}
        → IsInserted kpgdir self zero_other s p1 p0 0x0101_0101 xs t
        → Ends (λ _. IsSelftested kpgdir s p0 p1 xs) (check_inserted load c kpgdir p0 p1 t)
    unfolding check_inserted
    check_inserted-IsSelftested {t} i =
        let (off, lt) = second in
        let few : p1 < max_pages = omega (arith, vm.few) in
        let in_range : p1 < t.pages_count = omega (arith, i.count) in
        let one : (t.pages p1).refs ≡ 1 = ap (λ (r : PageStatus). r.refs) i.status in
        let alone : (t.pages p1).next_free ≡ none = ap (λ (r : PageStatus). r.next_free) i.status in
        rw (one, load-word few i, page2kva-page t p1 (omega (arith, vm.few, i.count)) in_range)
          (Ends-and_then
            (remove_page-Removed kpgdir self (page_kva p1) p1 i.vm ns
              (i.keeps (page_kva p1) (page2pa p1) ns nz kernel) in_range i.own off one alone)
            λ _ u r. ends (Removed-IsSelftested kpgdir new_ne lost-out ns nz kernel i r))

    -- The second page is neither the directory nor a table.
    second-IsData : {v : Kernel} → v.frame ≡ s.frame → IsData kpgdir self v p1
    second-IsData {v} memory = record {
      ne_directory = ground (arith, vm.directory);
      ne_table = rw memory (λ i ni o. unlisted (table kpgdir s i) (vm.tables i ni o).in_use);
    }
      where
        unlisted : (q : ℕ) → has q (p0 ∷ p1 ∷ xs) ≡ false → q ≢ p1
        unlisted q h = ground arith

    -- The allocator changes no mapping.
    IsInserted-pair :
        {v t : Kernel}
        → IsPair kpgdir self s p0 p1 xs v
        → IsInserted kpgdir self zero_other v p1 p0 0x0101_0101 xs t
        → IsInserted kpgdir self zero_other s p1 p0 0x0101_0101 xs t
    IsInserted-pair pair i = record {
      vm = i.vm;
      present = i.present;
      maps = i.maps;
      keeps = λ va pa vs vz m. i.keeps va pa vs vz (Maps-frame kpgdir self pair.memory m);
      word = i.word;
      status = i.status;
      own = i.own;
      count = i.count ∙ pair.count;
    }

    -- The page is filled, mapped and tested.
    pair-IsSelftested :
        {v : Kernel} (pair : IsPair kpgdir self s p0 p1 xs v)
        → Ends
            (λ _. IsSelftested kpgdir s p0 p1 xs)
            (and_then
              (insert_page kpgdir p1 page_size pte_w
                (filled kpgdir self p1 0x0101_0101 pair.vm (second-IsData pair.memory)))
              (λ _. check_inserted load c kpgdir p0 p1))
    pair-IsSelftested {v} pair =
        Ends-and_then
          (insert_page-IsInserted kpgdir self zero_other p1 p0 0x0101_0101 pair.vm
            (second-IsData pair.memory) new_ne second.0 (omega (arith, pair.count, second.1))
            nonzero pair.status (rw pair.memory empty))
          λ _ t (_, i). check_inserted-IsSelftested (IsInserted-pair pair i)

    -- From a directory in order, which maps all of memory and has no table for the address
    -- PAGE_SIZE, the code's last test passes.
    pub check_kern_pgdir_installed-IsSelftested :
        Ends
          (λ _. IsSelftested kpgdir s p0 p1 xs)
          (check_kern_pgdir_installed load c kern_page_directory s)
    unfolding check_kern_pgdir_installed
    check_kern_pgdir_installed-IsSelftested =
        let few : p1 < max_pages = omega (arith, vm.few, second.1) in
        Ends-and_then (page_alloc-cons 0 vm.few vm.free) λ r t a. rw (a.page) (
          Ends-and_then
            (page_alloc-cons {p = p1} {xs = xs} 0 (omega (arith, a.count, vm.few)) (record {
              chain = a.chain;
              within = λ q h. omega (arith, a.count, vm.free.within q (ground arith));
            }))
            λ r' u b. rw (b.page) (
              Ends-and_then
                (free_page-cons {s = u} {xs = xs} p0 (b.others p0 (λ e. new_ne (sym e)) ∙ a.cleared)
                  lost-out b.chain)
                λ _ v f.
                  let pair = Freed-IsPair kpgdir self vm spare a b f in
                  rw
                    (
                      page2kva-page v p1 (omega (arith, pair.count, vm.few))
                          (omega (arith, pair.count, second.1)),
                      pgnum-page_kva p1 few,
                    )
                    (pair-IsSelftested pair)))
