-- ===== src/Kmap/Addr/Laws.antt =====
-- The conversions of kmap.h are inverse to one another on the pages that the machine has.
use cezos.Base.{ℕ, ◌+◌, ◌*◌, ◌%◌, ◌≤◌, ◌<◌, ◌≡◌, some, arith}
use cezos.Mmu.{word_size, pgnum, kernel_base_address}
use cezos.Kmap.State.{Kernel}
use cezos.Kmap.Addr.{paddr, page2pa, pa2page, page2kva}

-- The physical memory of a 32-bit machine has at most 2 ^ 20 pages.
abbrev pub max_pages : ℕ
max_pages = 1048576

-- the kernel address of a page
abbrev pub page_kva : ℕ → ℕ
page_kva p = (p * 4096 + kernel_base_address) % word_size

module _ (s : Kernel) (p : ℕ) (few : s.pages_count ≤ max_pages) (in_range : p < s.pages_count) where
  pub page2pa-page : page2pa p ≡ p * 4096
  unfolding page2pa
  page2pa-page = omega arith

  pub page2kva-page : page2kva s p ≡ some (page_kva p)
  unfolding page2kva pgnum
  page2kva-page = ground arith

pub pgnum-page_kva : (p : ℕ) → p < max_pages → pgnum (paddr (page_kva p)) ≡ p
unfolding pgnum paddr
pgnum-page_kva p h = omega arith

-- For a page p below pages_count, where pages_count is at most 2 ^ 20, pa2page (page2pa p) is p,
-- page2kva p is not NULL, and PADDR of it is page2pa p again.
pub page_conversions :
    (s : Kernel) (p : ℕ)
    → s.pages_count ≤ max_pages
    → p < s.pages_count
    → (pa2page s (page2pa p) ≡ some p)
      × (page2kva s p ≡ some (page_kva p))
      × (paddr (page_kva p) ≡ page2pa p)
unfolding pa2page page2pa pgnum paddr
page_conversions s p few in_range = (ground arith, page2kva-page s p few in_range, omega arith)
