-- ===== src/Kmap/Vm/Installed.antt =====
-- What a new table does to a directory: the state after get_page_table has entered it.
use cezos.Base.{
  ℕ, suc, Bool, true, refl, ◌%◌, ◌<◌, ◌==◌, ◌≡◌, ◌≢◌, ◌∙◌, ap, sym, List, ◌∷◌, arith, if◌then◌else◌,
  bit_or, ◌&&◌,
}
use native.Mathlib.Decide.{ℕ_discrete}
use cezos.Bits.{bit_or_second}
use cezos.Mmu.{pgnum}
use cezos.Kmap.State.{Kernel, set_word, fill_frame}
use cezos.Kmap.Addr.{page2pa}
use cezos.Kmap.Pages.{incref, set_refs}
use cezos.Kmap.Table.{write_word}
use cezos.Kmap.Entry.{table_pde, table_pde-odd}
use cezos.Kmap.FreeList.{Chain-update, Chain-cons, IsFreeList}
use cezos.Kmap.Alloc.{Allocated}
use cezos.Kmap.Vm.Absent.{absent-entered}
use cezos.Kmap.Vm.{Odd, table, wanted, IsLow, IsTable, IsVm, Spare, IsWritable, Keeps}

module _ (d self : ℕ) where
  -- The state after a new table `p` was entered for directory entry `i`.
  abbrev pub installed : Kernel → ℕ → ℕ → Kernel
  installed t p i = write_word d i (bit_or (page2pa p) 7) (incref p t)

  module _ {s t : Kernel} {p i : ℕ} {xs : List ℕ} (vm : IsVm d self s (p ∷ xs)) (ne : i ≢ self)
      (below : i < 1024) (even : s.frame d i % 2 ≡ 0) {r : ℕ} (a : Allocated 1 s p xs r t) where
    in_range : p < s.pages_count
    in_range = vm.free.within p (ground arith)

    pub ne_directory : p ≢ d
    ne_directory = ground (arith, vm.directory)

    pub word :
        (q j : ℕ)
        → (installed t p i).frame q j ≡ (
            if (q == d) && (j == i)
            then bit_or (page2pa p) 7
            else if q == p
            then 0
            else s.frame q j)
    unfolding write_word set_word incref fill_frame
    word q j = rw a.memory

    pub other_entry : (j : ℕ) → j ≢ i → (installed t p i).frame d j ≡ s.frame d j
    other_entry j nj = ground (arith, word d j, ne_directory)

    pub new_entry : (installed t p i).frame d i ≡ bit_or (page2pa p) 7
    new_entry = ground (arith, word d i)

    pub entered : Odd ((installed t p i).frame d i)
    entered = rw new_entry (table_pde-odd (page2pa p))

    pub table-new : table d (installed t p i) i ≡ p
    table-new = ap pgnum new_entry ∙ table_pde p (omega (arith, in_range, vm.few))

    table-other : (j : ℕ) → j ≢ i → table d (installed t p i) j ≡ table d s j
    table-other j nj = ap pgnum (other_entry j nj)

    Odd-other : (j : ℕ) → j ≢ i → Odd ((installed t p i).frame d j) → Odd (s.frame d j)
    Odd-other j nj odd = rw (other_entry j nj) at odd

    pub count : (installed t p i).pages_count ≡ s.pages_count
    unfolding write_word incref
    count = a.count

    -- A table of the old state is not the new page.
    IsTable-ne : {q : ℕ} → IsTable d s (p ∷ xs) q → q ≢ p
    IsTable-ne {q} tab = ground (arith, tab.in_use)

    IsTable-old : {q : ℕ} → IsTable d s (p ∷ xs) q → IsTable d (installed t p i) xs q
    IsTable-old tab = record {
      within = omega (arith, count, tab.within);
      ne_directory = tab.ne_directory;
      in_use = ground (arith, tab.in_use);
    }

    IsTable-new : IsTable d (installed t p i) xs p
    IsTable-new = record {
      within = omega (arith, count, in_range);
      ne_directory = ne_directory;
      in_use = (Chain-cons vm.free.chain).2;
    }

    old_table :
        (j : ℕ)
        → j ≢ self
        → j ≢ i
        → Odd ((installed t p i).frame d j)
        → IsTable d s (p ∷ xs) (table d s j)
    old_table j nj ne odd = vm.tables j nj (Odd-other j ne odd)

    installed-tables :
        (j : ℕ)
        → j ≢ self
        → Odd ((installed t p i).frame d j)
        → IsTable d (installed t p i) xs (table d (installed t p i) j)
    installed-tables j nj odd = elim (ℕ_discrete j i) [
      | yes e ↦ rw (e, table-new) IsTable-new
      | no e ↦ rw (table-other j e) (IsTable-old (old_table j nj e odd))
    ]

    new-ne-old :
        (j : ℕ)
        → j ≢ self
        → j ≢ i
        → Odd ((installed t p i).frame d j)
        → table d (installed t p i) i ≢ table d (installed t p i) j
    new-ne-old j nj e odd =
        rw (table-new, table-other j e) (λ same. IsTable-ne (old_table j nj e odd) (sym same))

    installed-distinct :
        (j k : ℕ)
        → j ≢ self
        → k ≢ self
        → j ≢ k
        → Odd ((installed t p i).frame d j)
        → Odd ((installed t p i).frame d k)
        → table d (installed t p i) j ≢ table d (installed t p i) k
    installed-distinct j k nj nk jk oj odd = elim (ℕ_discrete j i) [
      | yes e ↦ rw e (new-ne-old k nk (λ f. jk (e ∙ sym f)) odd)
      | no e ↦ elim (ℕ_discrete k i) [
        | yes f ↦ rw f (λ same. new-ne-old j nj e oj (sym same))
        | no f ↦
            rw (table-other j e, table-other k f)
              (vm.distinct j k nj nk jk (Odd-other j e oj) (Odd-other k f odd))
      ]
    ]

    installed-free : IsFreeList (installed t p i) xs
    unfolding write_word incref set_refs
    installed-free = record {
      chain = Chain-update p _ (Chain-cons vm.free.chain).2 a.chain;
      within = λ q h. omega (arith, a.count, vm.free.within q (ground arith));
    }

    pub installed-IsVm : IsVm d self (installed t p i) xs
    installed-IsVm = record {
      few = omega (arith, vm.few, count);
      free = installed-free;
      directory = ground (arith, vm.directory);
      room = omega (
        arith,
        vm.room,
        absent-entered {f = s.frame d} {g = (installed t p i).frame d} i 1024 even entered
            other_entry below,
      );
      tables = installed-tables;
      distinct = installed-distinct;
    }

    Odd-ne : (j : ℕ) → Odd (s.frame d j) → j ≢ i
    Odd-ne j odd e = let same : s.frame d j ≡ s.frame d i = ap (s.frame d) e in omega arith

    pub installed-IsWritable : IsWritable d self s → IsWritable d self (installed t p i)
    installed-IsWritable old j nj odd = elim (ℕ_discrete j i) [
      | yes e ↦ rw (e, new_entry) (omega (arith, bit_or_second (page2pa p) 7))
      | no e ↦ rw (other_entry j e) (old j nj (Odd-other j e odd))
    ]

    pub installed-Spare : (n : ℕ) → Spare d n s (p ∷ xs) → Spare d n (installed t p i) xs
    installed-Spare n room = omega (
      arith,
      absent-entered {f = s.frame d} {g = (installed t p i).frame d} i 1024 even entered other_entry
          below,
    )

    pub installed-IsLow :
        (uses : ℕ → Bool)
        → uses i ≡ true
        → IsLow uses self (s.frame d) (p ∷ xs)
        → IsLow uses self ((installed t p i).frame d) xs
    installed-IsLow uses wants low =
        let one_less : wanted uses (s.frame d) ≡ suc (wanted uses ((installed t p i).frame d)) =
          absent-entered {f = λ k. if uses k then s.frame d k else 1}
            {g = λ k. if uses k then (installed t p i).frame d k else 1} i 1024 (rw wants even)
            (rw wants entered) (λ k nk. rw (other_entry k nk) refl) below in
        let (is_low, rest) = (rw one_less at low.front) in
        record {
          tables = λ j nj odd. elim (ℕ_discrete j i) [
            | yes e ↦ rw (e, table-new) is_low
            | no e ↦ rw (table-other j e) (low.tables j nj (Odd-other j e odd))
          ];
          front = rest;
        }

    pub installed-Keeps : Keeps d self s (installed t p i)
    installed-Keeps = record {
      entries = λ j nj odd. other_entry j (Odd-ne j odd);
      words = λ j k nj odd. old_word (table d s j) k (vm.tables j nj odd);
    }
      where
        old_word : (q k : ℕ) → IsTable d s (p ∷ xs) q → (installed t p i).frame q k ≡ s.frame q k
        old_word q k tab = ground (arith, word q k, tab.ne_directory, IsTable-ne tab)
