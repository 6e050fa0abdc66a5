-- ===== src/Kmap/Entry.antt =====
-- What the entries that kmap.c writes into its tables say when they are read back.
use cezos.Base.{ℕ, ◌*◌, ◌/◌, ◌%◌, ◌^◌, ◌<◌, ◌==◌, ◌≡◌, bit_or, false, true, arith}
use cezos.Bits.{bit_or-low, bit_or-shift, bit_or-zero, bit_and-one}
use cezos.Mmu.{pgnum, pte_addr, is_page_present}
use cezos.Kmap.State.{Kernel}
use cezos.Kmap.Addr.{kaddr, paddr, page2pa}
use cezos.Kmap.Addr.Laws.{max_pages}
use cezos.Kmap.Table.{slot, entry_of, page_entry}

bit_or-page : (a b : ℕ) → bit_or a b / 4096 ≡ bit_or (a / 4096) (b / 4096)
bit_or-page a b = bit_or-shift 12 a b

pub page_entry-odd : (pa perm : ℕ) → page_entry pa perm % 2 ≡ 1
unfolding page_entry
page_entry-odd pa perm = omega (arith, bit_or-low (bit_or pa perm) 1)

pub page_entry-addr :
    (pa perm : ℕ) → pa % 4096 ≡ 0 → perm < 4096 → pte_addr (page_entry pa perm) ≡ pa
unfolding page_entry pte_addr
page_entry-addr pa perm aligned low =
    let flags : perm / 4096 ≡ 0 = omega arith in
    let whole : bit_or (bit_or pa perm) 1 / 4096 ≡ pa / 4096 =
      simp (bit_or-page, flags, bit_or-zero) in
    omega arith

-- The directory entry of a new table.
pub table_pde : (p : ℕ) → p < max_pages → (pgnum (bit_or (page2pa p) 7) ≡ p)
unfolding pgnum page2pa
table_pde p few = omega (arith, number)
  where
    number : bit_or (p * 2 ^ 12 % 2 ^ 32) 7 / 4096 ≡ p * 2 ^ 12 % 2 ^ 32 / 4096
    number = rw (bit_or-page, bit_or-zero)

pub table_pde-odd : (pa : ℕ) → bit_or pa 7 % 2 ≡ 1
table_pde-odd pa = omega (arith, bit_or-low pa 7)

pub present_of_odd : (e : ℕ) → e % 2 ≡ 1 → (is_page_present e == 0) ≡ false
unfolding is_page_present
present_of_odd e odd = ground (arith, bit_and-one e)

pub absent_of_even : (e : ℕ) → e % 2 ≡ 0 → (is_page_present e == 0) ≡ true
unfolding is_page_present
absent_of_even e even = ground (arith, bit_and-one e)

-- KADDR of the address in an entry leads back to the page that the entry names.
pub entry_of-kaddr :
    (s : Kernel) (pde i : ℕ)
    → pgnum pde < s.pages_count
    → entry_of (kaddr s (pte_addr pde)) i ≡ slot (pgnum pde) i
unfolding kaddr pte_addr pgnum entry_of paddr
entry_of-kaddr s pde i in_range = ground arith
