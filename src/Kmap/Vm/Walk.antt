-- ===== src/Kmap/Vm/Walk.antt =====
-- `get_page_table` with `create`: it finds the table entry of an address, and makes the table first
-- where there is none.
use cezos.Base.{ℕ, Bool, true, ◌%◌, ◌<◌, ◌≡◌, ◌≢◌, refl, sym, List, [], ◌∷◌, false, arith, inl, inr}
use cezos.Mmu.{pdx, ptx}
use cezos.Kmap.State.{Kernel, ok, and_then}
use cezos.Kmap.Table.{PtePtr, slot, get_page_table, table_entry, new_table}
use cezos.Kmap.Entry.{present_of_odd, absent_of_even, entry_of-kaddr}
use cezos.Kmap.FreeList.{Ends, ends, Ends-and_then, has}
use cezos.Kmap.Alloc.{page_alloc-cons}
use cezos.Kmap.Vm.Absent.{parity, absent_pos}
use cezos.Kmap.Vm.Installed.{
  other_entry, new_entry, entered, count, installed-IsWritable, installed-Spare, installed-Keeps,
  installed-IsVm, installed-IsLow,
}
use cezos.Kmap.Vm.{Odd, table, IsLow, IsVm, Spare, IsWritable, Keeps}

-- What `get_page_table` leaves when it has found or made the entry for `va`.
pub record Walked (d self : ℕ) (s : Kernel) (xs : List ℕ) (va : ℕ) (pte : PtePtr) (t : Kernel)
    : Type 0 where
  pub pointer : pte ≡ slot (table d t (pdx va)) (ptx va)
  pub present : Odd (t.frame d (pdx va))
  pub keeps : Keeps d self s t
  pub left : List ℕ
  pub vm : IsVm d self t left
  pub count : t.pages_count ≡ s.pages_count
  pub out : (q : ℕ) → has q xs ≡ false → has q left ≡ false
  pub untouched : (i : ℕ) → i ≢ pdx va → t.frame d i ≡ s.frame d i
  pub writable : IsWritable d self s → IsWritable d self t
  pub spare : (n : ℕ) → Spare d n s xs → Spare d n t left
  pub low :
      (uses : ℕ → Bool)
      → uses (pdx va) ≡ true
      → IsLow uses self (s.frame d) xs
      → IsLow uses self (t.frame d) left

pub pdx-lt : (va : ℕ) → pdx va < 1024
unfolding pdx
pdx-lt va = omega arith

module _ (d self : ℕ) where
  -- Where the table exists the walk finds it and changes nothing.
  pub get_page_table-present :
      {s : Kernel} {xs : List ℕ} (va create : ℕ)
      → IsVm d self s xs
      → pdx va ≢ self
      → Odd (s.frame d (pdx va))
      → get_page_table d va create s ≡ ok (slot (table d s (pdx va)) (ptx va)) s
  unfolding get_page_table
  get_page_table-present {s} va create vm ne odd = rw (
    present_of_odd _ odd,
    entry_of-kaddr s (s.frame d (pdx va)) (ptx va) (vm.tables (pdx va) ne odd).within,
  )

  -- What the branch that makes a table has done, before the entry is looked up.
  abbrev Made : Kernel → ℕ → ℕ → List ℕ → ℕ → Kernel → Type 0
  Made s va p xs pde t =
      (pde ≡ t.frame d (pdx va))
      × Odd (t.frame d (pdx va))
      × Keeps d self s t
      × IsVm d self t xs
      × (t.pages_count ≡ s.pages_count)
      × ((i : ℕ) → i ≢ pdx va → t.frame d i ≡ s.frame d i)
      × (IsWritable d self s → IsWritable d self t)
      × ((n : ℕ) → Spare d n s (p ∷ xs) → Spare d n t xs)
      × ((uses : ℕ → Bool)
          → uses (pdx va) ≡ true
          → IsLow uses self (s.frame d) (p ∷ xs)
          → IsLow uses self (t.frame d) xs)

  module _ {s : Kernel} (va : ℕ) (ne : pdx va ≢ self) (even : s.frame d (pdx va) % 2 ≡ 0) where
    new_table-Made :
        {p : ℕ} {xs : List ℕ} → IsVm d self s (p ∷ xs) → Ends (Made s va p xs) (new_table d va s)
    unfolding new_table
    new_table-Made {p} vm = Ends-and_then (page_alloc-cons 1 vm.few vm.free) λ r t a. rw (a.page) (
        ends (
          sym (new_entry d self vm ne (pdx-lt va) even a),
          entered d self vm ne (pdx-lt va) even a,
          installed-Keeps d self vm ne (pdx-lt va) even a,
          installed-IsVm d self vm ne (pdx-lt va) even a,
          count d self vm ne (pdx-lt va) even a,
          other_entry d self vm ne (pdx-lt va) even a,
          installed-IsWritable d self vm ne (pdx-lt va) even a,
          installed-Spare d self vm ne (pdx-lt va) even a,
          installed-IsLow d self vm ne (pdx-lt va) even a,
        ))

    new_table-Walked :
        (xs : List ℕ)
        → IsVm d self s xs
        → Ends (Walked d self s xs va) (and_then (new_table d va s) (table_entry va))
    unfolding table_entry
    new_table-Walked [] vm =
        absurd (omega (arith, vm.room, absent_pos (s.frame d) (pdx va) 1024 even (pdx-lt va)))
    new_table-Walked (p ∷ xs) vm =
        Ends-and_then (new_table-Made vm)
          λ pde t (same, odd, keeps, vm', count, untouched, writable, spare, low).
            rw
              (
                same,
                entry_of-kaddr t (t.frame d (pdx va)) (ptx va) (vm'.tables (pdx va) ne odd).within,
              )
              (ends (record {
                pointer = refl;
                present = odd;
                out = λ q off. ground arith;
                keeps = keeps;
                left = xs;
                vm = vm';
                count = count;
                untouched = untouched;
                writable = writable;
                spare = spare;
                low = low;
              }))

  -- From a directory and a free list in order, with a free page for every absent table, and for an
  -- address outside the self map, `get_page_table` with `create` ends: it returns the entry of the
  -- address in a present table, and what was mapped before stays.
  pub get_page_table-Walked :
      {s : Kernel} {xs : List ℕ} (va : ℕ)
      → IsVm d self s xs
      → pdx va ≢ self
      → Ends (Walked d self s xs va) (get_page_table d va 1 s)
  unfolding get_page_table
  get_page_table-Walked {s} {xs} va vm ne = elim (parity (s.frame d (pdx va))) [
    | inl odd ↦ rw (get_page_table-present va 1 vm ne odd) (
        ends (record {
          pointer = refl;
          present = odd;
          out = λ q off. off;
          keeps = record { entries = λ i ni o. refl; words = λ i j ni o. refl };
          left = xs;
          vm = vm;
          count = refl;
          untouched = λ i ni. refl;
          writable = λ old. old;
          spare = λ n room. room;
          low = λ uses wants old. old;
        }))
    | inr even ↦ rw (absent_of_even _ even) (new_table-Walked va ne even _ vm)
  ]
