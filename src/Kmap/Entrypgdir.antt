-- ===== src/Kmap/Entrypgdir.antt =====
-- src/kernel/entrypgdir.c, the page directory that the kernel starts on: what it maps.
use cezos.Base.{
  ℕ, ◌+◌, ◌-◌, ◌*◌, ◌/◌, ◌%◌, ◌^◌, ◌<◌, ◌≤◌, ◌==◌, ◌≡◌, ◌⊎◌, ap, ◌∙◌, ltb, if◌then◌else◌, bit_or,
  arith,
}
use cezos.Bits.{bit_or-low, bit_or-shift, bit_or-zero}
use cezos.Mmu.{
  word_size, page_table_size, number_ptentries, pdx, ptx, pgnum, pte_p, pte_w, pte_addr,
  kernel_base_address,
}
use cezos.Kmap.State.{Kernel, ok}
use cezos.Kmap.Addr.{paddr}
use cezos.Kmap.Table.{check_va2pa, load_pte}
use cezos.Kmap.Entry.{present_of_odd, absent_of_even, entry_of-kaddr}

-- The rows of the table are written out in the code, one line for each page.
unfoldable pub entry_pgtable : ℕ → ℕ
entry_pgtable i = if ltb i number_ptentries then bit_or (bit_or (i * 0x1000) pte_p) pte_w else 0

-- `pgtable` is the address that the linker gives to `entry_pgtable`.
unfoldable pub entry_pgdir : ℕ → ℕ → ℕ
entry_pgdir pgtable i =
    if i == 0
    then ((pgtable + word_size - kernel_base_address) % word_size + pte_p) % word_size
    else if i == kernel_base_address / 2 ^ 22
    then ((pgtable + word_size - kernel_base_address) % word_size + pte_p + pte_w) % word_size
    else 0

-- The machine holds the directory at page `d` and the table at the address `pgtable`.
pub record IsEntry (d pgtable : ℕ) (s : Kernel) : Type 0 where
  pub directory : (i : ℕ) → s.frame d i ≡ entry_pgdir pgtable i
  pub page_table : (i : ℕ) → s.frame (pgnum (paddr pgtable)) i ≡ entry_pgtable i
  pub aligned : pgtable % 4096 ≡ 0
  pub in_kernel : kernel_base_address ≤ pgtable
  pub fits : pgtable < word_size
  pub within : pgnum (paddr pgtable) < s.pages_count

row-odd : (i : ℕ) → i < 1024 → entry_pgtable i % 2 ≡ 1
unfolding entry_pgtable
row-odd i h = ground (arith, bit_or-low (bit_or (i * 4096) 1) 2, bit_or-low (i * 4096) 1)

row-addr : (i : ℕ) → i < 1024 → pte_addr (entry_pgtable i) ≡ i * 4096
unfolding entry_pgtable pte_addr
row-addr i h = ground (
  arith,
  bit_or-shift 12 (bit_or (i * 4096) 1) 2,
  bit_or-shift 12 (i * 4096) 1,
  bit_or-zero (bit_or (i * 4096) 1 / 4096),
  bit_or-zero (i * 4096 / 4096),
)

module _ {d pgtable : ℕ} {s : Kernel} (m : IsEntry d pgtable s) where
  -- Both entries that are there name the table.
  named :
      (i : ℕ)
      → (i ≡ 0) ⊎ (i ≡ 960)
      → (s.frame d i % 2 ≡ 1) × (pgnum (s.frame d i) ≡ pgnum (paddr pgtable))
  unfolding entry_pgdir pgnum paddr
  named i mapped = ground (arith, m.directory i, m.aligned, m.in_kernel, m.fits)

  through : (va : ℕ) → (pdx va ≡ 0) ⊎ (pdx va ≡ 960) → check_va2pa d va s ≡ ok (ptx va * 4096) s
  unfolding check_va2pa load_pte ptx
  through va mapped =
      let (odd, name) = named (pdx va) mapped in
      let row : s.frame (pgnum (s.frame d (pdx va))) (ptx va) ≡ entry_pgtable (ptx va) =
        rw (name, m.page_table (ptx va)) in
      let entry_odd : s.frame (pgnum (s.frame d (pdx va))) (ptx va) % 2 ≡ 1 =
        rw (row) (row-odd (ptx va) (omega arith)) in
      rw (
        present_of_odd _ odd,
        entry_of-kaddr s (s.frame d (pdx va)) (ptx va) (omega (arith, name, m.within)),
        present_of_odd _ entry_odd,
        row,
        row-addr (ptx va) (omega arith),
      )

  mapped_pdx :
      (va : ℕ)
      → va < word_size
      → (va < page_table_size)
        ⊎ ((kernel_base_address ≤ va) × (va < kernel_base_address + page_table_size))
      → (pdx va ≡ 0) ⊎ (pdx va ≡ 960)
  unfolding pdx
  mapped_pdx va fits inside = ground arith

  nothing :
      (va : ℕ)
      → va < word_size
      → page_table_size ≤ va
      → (va < kernel_base_address) ⊎ (kernel_base_address + page_table_size ≤ va)
      → check_va2pa d va s ≡ ok 0xffff_ffff s
  unfolding check_va2pa pdx entry_pgdir
  nothing va fits low out =
      let even : s.frame d (pdx va) % 2 ≡ 0 = ground (arith, m.directory (pdx va)) in
      rw (absent_of_even _ even)

page_of : (va : ℕ) → ptx va * 4096 ≡ va % page_table_size / 4096 * 4096
unfolding ptx
page_of va = omega arith

-- The directory that the kernel starts on translates the first 4 MB, and the 4 MB from
-- KERNEL_BASE_ADDRESS on, to the first 4 MB of physical memory, page by page, and no other address
-- below 2 ^ 32.
pub check_va2pa-entry_pgdir :
    {d pgtable : ℕ} {s : Kernel} (va : ℕ)
    → IsEntry d pgtable s
    → va < word_size
    → ((va < page_table_size)
          ⊎ ((kernel_base_address ≤ va) × (va < kernel_base_address + page_table_size))
        → check_va2pa d va s ≡ ok (va % page_table_size / 4096 * 4096) s)
      × (page_table_size ≤ va
          → (va < kernel_base_address) ⊎ (kernel_base_address + page_table_size ≤ va)
          → check_va2pa d va s ≡ ok 0xffff_ffff s)
check_va2pa-entry_pgdir {s} va m fits = (
  λ inside. through m va (mapped_pdx m va fits inside) ∙ ap (λ n. ok n s) (page_of va),
  λ low out. nothing m va fits low out,
)
