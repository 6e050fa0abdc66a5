-- ===== src/Kmap/Vm/Region.antt =====
-- `map_memory_region`: every page of the region is mapped, and no other mapping is lost.
use cezos.Base.{
  ℕ, Bool, true, zero, suc, ◌+◌, ◌*◌, ◌/◌, ◌%◌, ◌≤◌, ◌<◌, ◌≡◌, ◌≢◌, refl, false, inl, inr, List,
  arith, sym, ◌∙◌,
}
use native.Mathlib.Decide.{ℕ_discrete}
use cezos.Mmu.{word_size, page_size, pdx, ptx}
use cezos.Kmap.State.{Kernel, ok}
use cezos.Kmap.Table.{
  page_entry, store_pte, write_word, map_page, map_pages, map_memory_region, check_va2pa,
}
use cezos.Kmap.Entry.{page_entry-odd, page_entry-addr}
use cezos.Kmap.FreeList.{has, Ends, ends, Ends-mono, Ends-and_then}
use cezos.Kmap.Vm.{Maps, IsLow, IsVm, Spare, IsWritable}
use cezos.Kmap.Vm.Walk.{get_page_table-Walked}
use cezos.Kmap.Vm.Write.{
  Apart, Maps-Keeps, check_va2pa-Maps, written-IsVm, row_same, Maps-written, Maps-written_other,
}

pub Apart-pages : (a b : ℕ) → a < word_size → b < word_size → a / 4096 ≢ b / 4096 → Apart a b
unfolding pdx ptx
Apart-pages a b ha hb ne = elim (ℕ_discrete (pdx a) (pdx b)) [
  | yes e ↦ inr (λ f. ne (omega arith))
  | no e ↦ inl e
]

module _ (d self : ℕ) where
  record Mapped (s : Kernel) (xs : List ℕ) (va pa : ℕ) (t : Kernel) : Type 0 where
    maps : Maps d t va pa
    keeps : {w q : ℕ} → pdx w ≢ self → Apart w va → Maps d s w q → Maps d t w q
    left : List ℕ
    vm : IsVm d self t left
    count : t.pages_count ≡ s.pages_count
    out : (q : ℕ) → has q xs ≡ false → has q left ≡ false
    untouched : (i : ℕ) → i ≢ pdx va → t.frame d i ≡ s.frame d i
    writable : IsWritable d self s → IsWritable d self t
    spare : (n : ℕ) → Spare d n s xs → Spare d n t left
    low :
        (uses : ℕ → Bool)
        → uses (pdx va) ≡ true
        → IsLow uses self (s.frame d) xs
        → IsLow uses self (t.frame d) left

  map_page-Mapped :
      {s : Kernel} {xs : List ℕ} (va pa permission : ℕ)
      → IsVm d self s xs
      → pdx va ≢ self
      → pa % 4096 ≡ 0
      → permission < 4096
      → Ends (λ _. Mapped s xs va pa) (map_page d va pa permission s)
  unfolding map_page store_pte write_word
  map_page-Mapped va pa perm vm ne aligned low =
      Ends-and_then (get_page_table-Walked d self va vm ne) λ pte t w.
        let v = page_entry pa perm in
        rw w.pointer (
          ends (record {
            maps =
                Maps-written d self w.vm va v ne w.present (page_entry-odd pa perm)
                  (page_entry-addr pa perm aligned low);
            keeps = λ nw apart m.
                Maps-written_other d self w.vm va v ne w.present nw apart
                  (Maps-Keeps d self w.keeps nw m);
            left = w.left;
            vm = written-IsVm d self w.vm va v ne w.present;
            count = w.count;
            out = w.out;
            untouched = λ i ni. rw (row_same d self w.vm va v ne w.present) (w.untouched i ni);
            writable = λ old. rw (row_same d self w.vm va v ne w.present) (w.writable old);
            spare = λ n room. rw (row_same d self w.vm va v ne w.present) (w.spare n room);
            low = λ uses wants old.
                rw (row_same d self w.vm va v ne w.present) (w.low uses wants old);
          }))

  module _ (virt phys permission : ℕ) where
    -- What the rounds from `i` up to `i + n` have done.
    pub record Rounds (s : Kernel) (xs : List ℕ) (i n : ℕ) (t : Kernel) : Type 0 where
      pub maps :
          (j : ℕ) → i ≤ j → j < i + n → Maps d t (virt + j * page_size) (phys + j * page_size)
      pub keeps :
          (w q : ℕ)
          → pdx w ≢ self
          → ((j : ℕ) → i ≤ j → j < i + n → Apart w (virt + j * page_size))
          → Maps d s w q
          → Maps d t w q
      pub left : List ℕ
      pub vm : IsVm d self t left
      pub count : t.pages_count ≡ s.pages_count
      pub out : (q : ℕ) → has q xs ≡ false → has q left ≡ false
      pub untouched :
          (e : ℕ)
          → ((j : ℕ) → i ≤ j → j < i + n → e ≢ pdx (virt + j * page_size))
          → t.frame d e ≡ s.frame d e
      pub writable : IsWritable d self s → IsWritable d self t
      pub spare : (k : ℕ) → Spare d k s xs → Spare d k t left
      pub low :
          (uses : ℕ → Bool)
          → ((j : ℕ) → i ≤ j → j < i + n → uses (pdx (virt + j * page_size)) ≡ true)
          → IsLow uses self (s.frame d) xs
          → IsLow uses self (t.frame d) left

    map_pages-Rounds :
        (n i : ℕ) {s : Kernel} {xs : List ℕ}
        → IsVm d self s xs
        → phys % 4096 ≡ 0
        → permission < 4096
        → virt + (i + n) * page_size ≤ word_size
        → phys + (i + n) * page_size ≤ word_size
        → ((j : ℕ) → j < i + n → pdx (virt + j * page_size) ≢ self)
        → Ends (λ _. Rounds s xs i n) (map_pages d virt phys permission i n s)
    unfolding map_pages
    map_pages-Rounds zero i {s} {xs} vm aligned low hv hp outside = ends (record {
      maps = λ j lo hi. absurd (omega arith);
      keeps = λ w q nw apart m. m;
      left = xs;
      vm = vm;
      count = refl;
      out = λ q off. off;
      untouched = λ e apart. refl;
      writable = λ old. old;
      spare = λ k room. room;
      low = λ uses wants old. old;
    })
    map_pages-Rounds (suc n) i {s} {xs} vm aligned low hv hp outside =
        let va : (virt + i * page_size) % word_size ≡ virt + i * page_size = omega arith in
        let pa : (phys + i * page_size) % word_size ≡ phys + i * page_size = omega arith in
        rw (va, pa)
          (Ends-and_then
            (map_page-Mapped (virt + i * page_size) (phys + i * page_size) permission vm
              (outside i (omega arith)) (omega arith) low)
            λ _ t first.
              Ends-mono
                (map_pages-Rounds n (i + 1) {s = t} {xs = first.left} first.vm aligned low
                  (omega arith) (omega arith) (λ j h. outside j (omega arith)))
                λ _ u rest. record {
                  maps = λ j lo hi. elim (ℕ_discrete i j) [
                    | yes e ↦ rw (sym e) (
                        rest.keeps _ _ (outside i (omega arith))
                          (λ k klo khi. Apart-pages _ _ (omega arith) (omega arith) (omega arith))
                          first.maps)
                    | no e ↦ rest.maps j (omega arith) (omega arith)
                  ];
                  keeps = λ w q nw apart m.
                      rest.keeps w q nw (λ j lo hi. apart j (omega arith) (omega arith))
                        (first.keeps nw (apart i (omega arith) (omega arith)) m);
                  left = rest.left;
                  vm = rest.vm;
                  count = rest.count ∙ first.count;
                  out = λ q off. rest.out q (first.out q off);
                  untouched = λ e apart.
                      rest.untouched e (λ j lo hi. apart j (omega arith) (omega arith))
                      ∙ first.untouched e (apart i (omega arith) (omega arith));
                  writable = λ old. rest.writable (first.writable old);
                  spare = λ k room. rest.spare k (first.spare k room);
                  low = λ uses wants old.
                      rest.low uses (λ j lo hi. wants j (omega arith) (omega arith))
                        (first.low uses (wants i (omega arith) (omega arith)) old);
                })

  pub map_memory_region-Rounds :
      {s : Kernel} {xs : List ℕ} (virt phys size permission : ℕ)
      → IsVm d self s xs
      → phys % 4096 ≡ 0
      → permission < 4096
      → virt + size ≤ word_size
      → phys + size ≤ word_size
      → ((j : ℕ) → j < size / page_size → pdx (virt + j * page_size) ≢ self)
      → Ends
          (λ _. Rounds virt phys permission s xs 0 (size / page_size))
          (map_memory_region d virt size phys permission s)
  unfolding map_memory_region
  map_memory_region-Rounds virt phys size permission vm aligned low hv hp outside =
      map_pages-Rounds virt phys permission (size / page_size) 0 vm aligned low (omega arith)
        (omega arith) (λ j h. outside j (omega arith))

  -- A region is mapped by the directory if `check_va2pa` finds its pages in order, at `phys` and
  -- above, and finds every page outside of it where it found it before.
  pub record Region (virt phys size : ℕ) (s t : Kernel) : Type 0 where
    pub translated :
        (j : ℕ)
        → j < size / page_size
        → check_va2pa d (virt + j * page_size) t ≡ ok (phys + j * page_size) t
    pub others :
        (w q : ℕ)
        → pdx w ≢ self
        → ((j : ℕ) → j < size / page_size → Apart w (virt + j * page_size))
        → Maps d s w q
        → check_va2pa d w t ≡ ok q t

  -- From a state whose directory and free list are in order, with a free page for every absent
  -- table, map_memory_region ends without a fault, whatever the number of pages: check_va2pa then
  -- translates each page of the region to the physical page at the same distance from phys, and
  -- each page that was mapped outside the region as before. The region and its image lie below
  -- 2 ^ 32, phys is page-aligned, the permissions fit 12 bits and the region does not touch the
  -- directory entry of the self map.
  pub map_memory_region-Region :
      {s : Kernel} {xs : List ℕ} (virt phys size permission : ℕ)
      → IsVm d self s xs
      → phys % 4096 ≡ 0
      → permission < 4096
      → virt + size ≤ word_size
      → phys + size ≤ word_size
      → ((j : ℕ) → j < size / page_size → pdx (virt + j * page_size) ≢ self)
      → Ends (λ _. Region virt phys size s) (map_memory_region d virt size phys permission s)
  map_memory_region-Region virt phys size permission vm aligned low hv hp outside =
      Ends-mono (map_memory_region-Rounds virt phys size permission vm aligned low hv hp outside)
        λ _ t r. record {
          translated = λ j h.
              check_va2pa-Maps d self r.vm (outside j h) (r.maps j (omega arith) (omega arith));
          others = λ w q nw apart m.
              check_va2pa-Maps d self r.vm nw (r.keeps w q nw (λ j lo hi. apart j (omega arith)) m);
        }
