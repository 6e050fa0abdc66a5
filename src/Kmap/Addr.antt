-- ===== src/Kmap/Addr.antt =====
-- kmap.h: conversions between physical addresses, kernel virtual addresses and page descriptors.
pub mod Laws
use cezos.Base.{ℕ, ◌+◌, ◌-◌, ◌*◌, ◌%◌, ◌^◌, leb, if◌then◌else◌, Option, none, some}
use cezos.Mmu.{word_size, page_size, pgnum, kernel_base_address}
use cezos.Kmap.State.{Kernel}

-- `_paddr`. The test `pa < 0` is on an unsigned number, so it never holds.
unfoldable pub paddr : ℕ → ℕ
paddr kva = (kva + word_size - kernel_base_address) % word_size

-- `_kaddr`
unfoldable pub kaddr : Kernel → ℕ → Option ℕ
kaddr s pa =
    if leb s.pages_count (pgnum pa) then none else some ((pa + kernel_base_address) % word_size)

unfoldable pub page2pa : ℕ → ℕ
page2pa pp = pp * 2 ^ 12 % word_size

unfoldable pub pa2page : Kernel → ℕ → Option ℕ
pa2page s pa = if leb s.pages_count (pgnum pa) then none else some (pgnum pa)

unfoldable pub page2kva : Kernel → ℕ → Option ℕ
unfolding kaddr page2pa
page2kva s ps = kaddr s (page2pa ps)

-- PAGE_ALLIGNED_ROUND of kmap.c, on a 32-bit address
unfoldable pub page_alligned_round : ℕ → ℕ
page_alligned_round addr = (addr + (page_size - addr % page_size)) % word_size
