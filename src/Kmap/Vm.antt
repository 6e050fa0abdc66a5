-- ===== src/Kmap/Vm.antt =====
-- The invariant of a page directory `d` and the free pages, and what it means that an address is
-- mapped. The directory entry `self`, through which the directory maps itself, is left aside.
pub mod Absent
pub mod Installed
pub mod Walk
pub mod Fresh
pub mod Write
pub mod Region
pub mod Insert
pub mod Remove
mod Tests
use cezos.Base.{
  ℕ, zero, suc, ◌==◌, if◌then◌else◌, length, ◌+◌, ◌/◌, ◌%◌, ◌≤◌, ◌<◌, ◌≡◌, ◌≢◌, false, List, [],
  ◌∷◌, Bool,
}
use cezos.Mmu.{number_ptentries, pdx, ptx, pgnum, pte_addr}
use cezos.Kmap.State.{Kernel}
use cezos.Kmap.Addr.Laws.{max_pages}
use cezos.Kmap.FreeList.{has, IsFreeList}

abbrev pub Odd : ℕ → Type 0
Odd e = e % 2 ≡ 1

-- How many of the first `n` entries of a directory are not present.
unfoldable pub absent : (ℕ → ℕ) → ℕ → ℕ
absent row zero = 0
absent row (suc n) = (if row n % 2 == 1 then 0 else 1) + absent row n

-- How many of the directory entries for which tables are wanted are not present.
abbrev pub wanted : (ℕ → Bool) → (ℕ → ℕ) → ℕ
wanted uses row = absent (λ i. if uses i then row i else 1) number_ptentries

-- The first `n` pages of a list lie in the first 4 MB.
abbrev pub AllLow : ℕ → List ℕ → Type 0
AllLow zero xs = Unit {0}
AllLow (suc n) [] = ⊥
AllLow (suc n) (x ∷ xs) = (x < 1024) × AllLow n xs

-- The tables of a directory with the entries `row` lie in the first 4 MB, which is all of memory that
-- the directory of the entry code maps, and so do the next free pages, as many as are wanted.
pub record IsLow (uses : ℕ → Bool) (self : ℕ) (row : ℕ → ℕ) (xs : List ℕ) : Type 0 where
  pub tables : (i : ℕ) → i ≢ self → Odd (row i) → pgnum (row i) < 1024
  pub front : AllLow (wanted uses row) xs

module _ (d : ℕ) where
  -- the page of the table that directory entry `i` names
  abbrev pub table : Kernel → ℕ → ℕ
  table s i = pgnum (s.frame d i)

  -- the table entry for an address
  abbrev pub leaf : Kernel → ℕ → ℕ
  leaf s va = s.frame (table s (pdx va)) (ptx va)

  -- The address is mapped: both entries are present, and the second one holds `pa`.
  pub record Maps (s : Kernel) (va pa : ℕ) : Type 0 where
    pub directory : Odd (s.frame d (pdx va))
    pub entry : Odd (leaf s va)
    pub target : pte_addr (leaf s va) ≡ pa

  -- A table is a page of the machine, is not the directory, and is not free.
  pub record IsTable (s : Kernel) (xs : List ℕ) (t : ℕ) : Type 0 where
    pub within : t < s.pages_count
    pub ne_directory : t ≢ d
    pub in_use : has t xs ≡ false

  pub record IsVm (self : ℕ) (s : Kernel) (xs : List ℕ) : Type 0 where
    pub few : s.pages_count ≤ max_pages
    pub free : IsFreeList s xs
    pub directory : has d xs ≡ false
    -- there is a free page for every table that is still to be made
    pub room : absent (s.frame d) number_ptentries ≤ length xs
    pub tables : (i : ℕ) → i ≢ self → Odd (s.frame d i) → IsTable s xs (table s i)
    pub distinct :
        (i j : ℕ)
        → i ≢ self
        → j ≢ self
        → i ≢ j
        → Odd (s.frame d i)
        → Odd (s.frame d j)
        → table s i ≢ table s j

  -- There are `n` free pages more than tables to be made.
  abbrev pub Spare : ℕ → Kernel → List ℕ → Type 0
  Spare n s xs = absent (s.frame d) number_ptentries + n ≤ length xs

  -- Every table is entered with PTE_W.
  abbrev pub IsWritable : ℕ → Kernel → Type 0
  IsWritable self s = (i : ℕ) → i ≢ self → Odd (s.frame d i) → s.frame d i / 2 % 2 ≡ 1

  -- Every table that was there stays, with its entries.
  pub record Keeps (self : ℕ) (s t : Kernel) : Type 0 where
    pub entries : (i : ℕ) → i ≢ self → Odd (s.frame d i) → t.frame d i ≡ s.frame d i
    pub words :
        (i j : ℕ) → i ≢ self → Odd (s.frame d i) → t.frame (table s i) j ≡ s.frame (table s i) j
