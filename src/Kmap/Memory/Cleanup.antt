-- ===== src/Kmap/Memory/Cleanup.antt =====
-- The last statements of `check_kern_pgdir_installed`: directory entry 0 is cleared, and the count of the
-- page that was its table.
use cezos.Base.{ℕ, ◌%◌, ◌==◌, ◌&&◌, ◌≡◌, ◌≢◌, refl, ap, sym, ◌∙◌, false, List, if◌then◌else◌, arith}
use cezos.Mmu.{pdx, ptx, pgnum}
use cezos.Kmap.State.{Kernel, set_word, update}
use cezos.Kmap.Pages.{set_refs}
use cezos.Kmap.Table.{write_word}
use cezos.Kmap.FreeList.{has, IsFreeList, Chain-update}
use cezos.Kmap.Vm.{Odd, table, leaf, Maps, IsTable, IsVm, Spare}
use cezos.Kmap.Vm.Absent.{absent-entered}

module _ (d self : ℕ) {s : Kernel} {xs : List ℕ} (p : ℕ) (vm : IsVm d self s xs)
    (spare : Spare d 1 s xs) (zero_other : 0 ≢ self) (out : has p xs ≡ false)
    (odd : Odd (s.frame d 0)) where
  abbrev pub cleaned : Kernel
  cleaned = set_refs p 0 (write_word d 0 0 s)

  word : (q j : ℕ) → cleaned.frame q j ≡ (if (q == d) && (j == 0) then 0 else s.frame q j)
  unfolding set_refs write_word set_word
  word q j = refl

  pub cleaned-zero : cleaned.frame d 0 ≡ 0
  cleaned-zero = ground (arith, word d 0)

  pub cleaned_entry : (i : ℕ) → i ≢ 0 → cleaned.frame d i ≡ s.frame d i
  cleaned_entry i ne = ground (arith, word d i)

  Odd-ne_zero : (i : ℕ) → Odd (cleaned.frame d i) → i ≢ 0
  Odd-ne_zero i o e =
      let same : cleaned.frame d i ≡ cleaned.frame d 0 = ap (cleaned.frame d) e in
      omega (arith, cleaned-zero)

  Odd-old : (i : ℕ) → Odd (cleaned.frame d i) → Odd (s.frame d i)
  Odd-old i o = rw (cleaned_entry i (Odd-ne_zero i o)) at o

  table-cleaned : (i : ℕ) → i ≢ 0 → table d cleaned i ≡ table d s i
  table-cleaned i ne = ap pgnum (cleaned_entry i ne)

  IsTable-cleaned : {q : ℕ} → IsTable d s xs q → IsTable d cleaned xs q
  unfolding set_refs write_word
  IsTable-cleaned tab = record {
    within = tab.within;
    ne_directory = tab.ne_directory;
    in_use = tab.in_use;
  }

  free-cleaned : IsFreeList cleaned xs
  unfolding set_refs write_word
  free-cleaned = record { chain = Chain-update p _ out vm.free.chain; within = vm.free.within }

  count-cleaned : cleaned.pages_count ≡ s.pages_count
  unfolding set_refs write_word
  count-cleaned = refl

  pub cleaned-IsVm : IsVm d self cleaned xs
  cleaned-IsVm = record {
    few = omega (arith, vm.few, count-cleaned);
    free = free-cleaned;
    directory = vm.directory;
    room =
        let even : cleaned.frame d 0 % 2 ≡ 0 = omega (arith, cleaned-zero) in
        omega (
          arith,
          absent-entered {f = cleaned.frame d} {g = s.frame d} 0 1024 even odd
              (λ j ne. sym (cleaned_entry j ne)) (omega arith),
        );
    tables = λ i ni o.
        rw (table-cleaned i (Odd-ne_zero i o)) (IsTable-cleaned (vm.tables i ni (Odd-old i o)));
    distinct = λ i j ni nj ne oi oj.
        rw (table-cleaned i (Odd-ne_zero i oi), table-cleaned j (Odd-ne_zero j oj))
          (vm.distinct i j ni nj ne (Odd-old i oi) (Odd-old j oj));
  }

  pub leaf-cleaned :
      (va : ℕ)
      → pdx va ≢ 0
      → pdx va ≢ self
      → Odd (s.frame d (pdx va))
      → leaf d cleaned va ≡ leaf d s va
  leaf-cleaned va nz ns o =
      ap (λ (q : ℕ). cleaned.frame q (ptx va)) (table-cleaned (pdx va) nz)
      ∙ ground (arith, word (table d s (pdx va)) (ptx va), (vm.tables (pdx va) ns o).ne_directory)

  pub cleaned-Maps :
      {va pa : ℕ} → pdx va ≢ 0 → pdx va ≢ self → Maps d s va pa → Maps d cleaned va pa
  cleaned-Maps {va} nz ns m =
      let same = leaf-cleaned va nz ns m.directory in
      record {
        directory = rw (cleaned_entry (pdx va) nz) m.directory;
        entry = rw same m.entry;
        target = rw same m.target;
      }

  pub refs-cleaned : (cleaned.pages p).refs ≡ 0
  unfolding set_refs update write_word
  refs-cleaned = ground arith

  pub head-cleaned : cleaned.page_free_list ≡ s.page_free_list
  unfolding set_refs write_word
  head-cleaned = refl
