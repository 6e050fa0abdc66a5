-- ===== src/Mmu.antt =====
-- src/inc/mmu.h, src/inc/memlayout.h, src/inc/types.h: the parts of a linear address, the flags of
-- a page table entry and the constants of the memory layout.
-- A mask of low bits is written as a remainder, a shift to the right as a quotient.
use cezos.Base.{ℕ, ◌+◌, ◌-◌, ◌*◌, ◌/◌, ◌%◌, ◌^◌, bit_and}

-- uint32_t, virtaddr_t, physaddr_t and size_t wrap at this number.
abbrev pub word_size : ℕ
word_size = 2 ^ 32

-- PAGE_SIZE, NUMBER_PTENTRIES, PAGE_TABLE_SIZE
abbrev pub page_size : ℕ
page_size = 4096

abbrev pub number_ptentries : ℕ
number_ptentries = 1024

abbrev pub page_table_size : ℕ
page_table_size = page_size * number_ptentries

-- PDX, PTX, PGNUM and PGOFF
unfoldable pub pdx : ℕ → ℕ
pdx la = la / 2 ^ 22 % 1024

unfoldable pub ptx : ℕ → ℕ
ptx la = la / 2 ^ 12 % 1024

unfoldable pub pgnum : ℕ → ℕ
pgnum la = la / 2 ^ 12 % 1048576

unfoldable pub pgoff : ℕ → ℕ
pgoff la = la % 4096

-- PTE_P, PTE_W and PTE_U
abbrev pub pte_p : ℕ
pte_p = 1

abbrev pub pte_w : ℕ
pte_w = 2

abbrev pub pte_u : ℕ
pte_u = 4

-- PTE_ADDR: the entry with its twelve low bits cleared.
unfoldable pub pte_addr : ℕ → ℕ
pte_addr pte = pte - pte % 4096

-- IS_PAGE_PRESENT and IS_PAGE_WRITABLE of kmap.c
unfoldable pub is_page_present : ℕ → ℕ
is_page_present page = bit_and page pte_p

unfoldable pub is_page_writable : ℕ → ℕ
is_page_writable page = bit_and page pte_w

-- KERNEL_BASE_ADDRESS, KERNEL_STACK_TOP and KERNEL_STACK_SIZE
abbrev pub kernel_base_address : ℕ
kernel_base_address = 0xf000_0000

abbrev pub kernel_stack_size : ℕ
kernel_stack_size = 32768

-- MEMORY_MAPPED_IO_LIMIT, MEMORY_MAPPED_IO_BASE (which is U_LIMIT), U_VIRTUAL_PAGE_TABLE, U_PAGES
abbrev pub memory_mapped_io_limit : ℕ
memory_mapped_io_limit = kernel_base_address - page_table_size

abbrev pub memory_mapped_io_base : ℕ
memory_mapped_io_base = memory_mapped_io_limit - page_table_size

abbrev pub u_virtual_page_table : ℕ
u_virtual_page_table = memory_mapped_io_base - page_table_size

abbrev pub u_pages : ℕ
u_pages = u_virtual_page_table - page_table_size

-- ROUNDDOWN and ROUNDUP, on uint32_t
unfoldable pub rounddown : ℕ → ℕ → ℕ
rounddown a n = a - a % n

unfoldable pub roundup : ℕ → ℕ → ℕ
unfolding rounddown
roundup a n = rounddown ((a + n + word_size - 1) % word_size) n
