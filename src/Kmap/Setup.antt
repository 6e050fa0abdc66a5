-- ===== src/Kmap/Setup.antt =====
-- The set-up of memory in kmap.c before the page allocator: what boot_alloc gives, the sizes of memory
-- and the first directory.
use cezos.Base.{
  ℕ, ◌+◌, ◌*◌, ◌/◌, ◌%◌, ◌^◌, ◌<◌, ◌≤◌, ◌==◌, ◌≡◌, ◌≢◌, refl, ap, ◌∙◌, ltb, not, if◌then◌else◌,
  bit_or, arith, false, true,
}
use cezos.Bits.{bit_or-lt}
use cezos.Mmu.{word_size, page_size, page_table_size, pgnum, kernel_base_address}
use cezos.Kmap.State.{Kernel, hang, fill_frame, Cmd, pure, ◌>>=◌, ◌>>◌}
use cezos.Kmap.Addr.{paddr, page_alligned_round}
use cezos.Kmap.Addr.Laws.{max_pages}
use cezos.Kmap.Boot.{first_address, boot_alloc}
use cezos.Kmap.Pages.{modify, memset_page}
use cezos.Kmap.FreeList.{Ends, ends, Ends-and_then}

-- NVRAM_BASELO, NVRAM_EXTLO and NVRAM_EXT16LO of kclock.h
abbrev pub nvram_baselo : ℕ
nvram_baselo = 0x0e + 7

abbrev nvram_extlo : ℕ
nvram_extlo = 0x0e + 9

abbrev nvram_ext16lo : ℕ
nvram_ext16lo = 0x0e + 38

-- `mc_read` gives the byte of the clock's memory at a register.
module _ (mc_read : ℕ → ℕ) where
  unfoldable pub vram_read : ℕ → ℕ
  vram_read reg = bit_or (mc_read reg) (mc_read (reg + 1) * 2 ^ 8)

  -- `totalmem`, in KB
  unfoldable pub total_memory : ℕ
  total_memory =
      let basemem = vram_read nvram_baselo in
      let extmem = vram_read nvram_extlo in
      let ext16mem = vram_read nvram_ext16lo * 64 in
      if not (ext16mem == 0)
      then 16 * 1024 + ext16mem
      else if not (extmem == 0)
      then 1 * 1024 + extmem
      else basemem

  unfoldable pub get_memory_size : Kernel → Kernel
  unfolding total_memory
  get_memory_size s = record s {
    pages_basemem_count = vram_read nvram_baselo / (page_size / 1024);
    pages_count = total_memory / (page_size / 1024);
  }

  -- The counts that the page tables can rely on: there are no more pages than physical addresses
  -- have, and no more base memory than 64 MB has.
  pub record Counts (s t : Kernel) : Type 0 where
    pub few : t.pages_count ≤ max_pages
    pub base : t.pages_basemem_count < 16384

  vram_read-lt : ((r : ℕ) → mc_read r < 256) → (reg : ℕ) → vram_read reg < 65536
  unfolding vram_read
  vram_read-lt bytes reg =
      let lo = bytes reg in
      let hi = bytes (reg + 1) in
      bit_or-lt 16 (mc_read reg) (mc_read (reg + 1) * 2 ^ 8) (omega arith) (omega arith)

  -- If the clock's memory holds bytes and the size above 16 MB, in units of 64 KB, is at most 0xff00,
  -- then get_memory_size counts at most 2 ^ 20 pages, and fewer than 2 ^ 14 pages of base memory.
  pub get_memory_size-Counts :
      (s : Kernel)
      → ((r : ℕ) → mc_read r < 256)
      → vram_read nvram_ext16lo ≤ 0xff00
      → Counts s (get_memory_size s)
  unfolding get_memory_size
  get_memory_size-Counts s bytes low = record {
    few = ground (arith, vram_read-lt bytes nvram_extlo, vram_read-lt bytes nvram_baselo);
    base = omega (arith, vram_read-lt bytes nvram_baselo);
  }

module _ (end_bss : ℕ) where
  unfoldable pub create_kern_pgdir : Cmd ℕ
  unfolding memset_page
  create_kern_pgdir = do
    pgdir ← boot_alloc end_bss page_size
    if pgdir == 0 then (λ _. hang) else do modify (memset_page pgdir); pure pgdir

  -- What `boot_alloc` leaves: the bytes from `a` on are given, the next address is page-aligned and
  -- behind them, less than a page and one byte away, and nothing else changes.
  pub record Given (s : Kernel) (nbytes a : ℕ) (t : Kernel) : Type 0 where
    pub start : a ≡ first_address end_bss s
    pub behind : a + nbytes < t.next_free
    pub near : t.next_free ≤ a + nbytes + page_size
    pub aligned : t.next_free % page_size ≡ 0
    pub limit : t.next_free ≤ kernel_base_address + page_table_size
    pub rest : t ≡ record s { next_free = t.next_free }

  -- The next address, where it does not wrap.
  after :
      (a nbytes : ℕ)
      → a + nbytes + page_size < word_size
      → page_alligned_round ((a + nbytes) % word_size)
        ≡ (a + nbytes) / page_size * page_size + page_size
  unfolding page_alligned_round
  after a nbytes fits = omega arith

  pub boot_alloc-room :
      (nbytes : ℕ) (s : Kernel)
      → (nbytes == 0) ≡ false
      → first_address end_bss s + nbytes + page_size < word_size
      → (first_address end_bss s + nbytes) / page_size * page_size + page_size
        ≤ kernel_base_address + page_table_size
      → Ends (Given s nbytes) (boot_alloc end_bss nbytes s)
  unfolding boot_alloc
  boot_alloc-room nbytes s some_bytes fits room =
      let a = first_address end_bss s in
      let test : ltb (kernel_base_address + page_table_size)
            ((a + nbytes) / page_size * page_size + page_size)
          ≡ false =
        ground arith in
      rw (some_bytes, after a nbytes fits, test)
        (ends (record {
          start = refl;
          behind = omega arith;
          near = omega arith;
          aligned = omega arith;
          limit = room;
          rest = refl;
        }))

  boot_alloc-full :
      (nbytes : ℕ) (s : Kernel)
      → (nbytes == 0) ≡ false
      → first_address end_bss s + nbytes + page_size < word_size
      → kernel_base_address + page_table_size
        < (first_address end_bss s + nbytes) / page_size * page_size + page_size
      → boot_alloc end_bss nbytes s ≡ hang
  unfolding boot_alloc
  boot_alloc-full nbytes s some_bytes fits full =
      let a = first_address end_bss s in
      let test : ltb (kernel_base_address + page_table_size)
            ((a + nbytes) / page_size * page_size + page_size)
          ≡ true =
        ground arith in
      rw (some_bytes, after a nbytes fits, test)

  -- For a number of bytes other than 0, where the next address does not wrap, boot_alloc gives the
  -- bytes from its address on and moves the address to the first page behind them, if that is at
  -- most KERNEL_BASE_ADDRESS + 4 MB; if it is higher, the code stops.
  pub boot_alloc-Given :
      (nbytes : ℕ) (s : Kernel)
      → nbytes ≢ 0
      → first_address end_bss s + nbytes + page_size < word_size
      → ((first_address end_bss s + nbytes) / page_size * page_size + page_size
            ≤ kernel_base_address + page_table_size
          → Ends (Given s nbytes) (boot_alloc end_bss nbytes s))
        × (kernel_base_address + page_table_size
              < (first_address end_bss s + nbytes) / page_size * page_size + page_size
            → boot_alloc end_bss nbytes s ≡ hang)
  boot_alloc-Given nbytes s ne fits =
      let some_bytes : (nbytes == 0) ≡ false = ground arith in
      (boot_alloc-room nbytes s some_bytes fits, boot_alloc-full nbytes s some_bytes fits)

  -- What `create_kern_pgdir` leaves: a zero page at the end of the kernel, which is given.
  pub record Directory (s : Kernel) (pgdir : ℕ) (t : Kernel) : Type 0 where
    pub start : pgdir ≡ page_alligned_round end_bss
    pub empty : (i : ℕ) → t.frame (pgnum (paddr pgdir)) i ≡ 0
    pub others : (p i : ℕ) → p ≢ pgnum (paddr pgdir) → t.frame p i ≡ s.frame p i
    pub given : pgdir + page_size < t.next_free
    pub near : t.next_free ≤ pgdir + 2 * page_size
    pub aligned : t.next_free % page_size ≡ 0
    pub rest : t ≡ record s { next_free = t.next_free; frame = t.frame }

  first_start :
      (s : Kernel) → s.next_free ≡ 0 → first_address end_bss s ≡ page_alligned_round end_bss
  unfolding first_address
  first_start s first = ground arith

  pub round_bounds :
      kernel_base_address ≤ end_bss
      → end_bss + 3 * page_size ≤ kernel_base_address + page_table_size
      → (end_bss < page_alligned_round end_bss)
        × (page_alligned_round end_bss ≤ end_bss + page_size)
  unfolding page_alligned_round
  round_bounds above below = omega arith

  -- On the first call of boot_alloc, for a kernel that ends inside the first 4 MB with two pages to
  -- spare, create_kern_pgdir returns the first page behind the kernel, filled with 0, and the next
  -- call of boot_alloc gives memory behind it, from a page boundary on. No other page changes.
  pub create_kern_pgdir-Directory :
      (s : Kernel)
      → s.next_free ≡ 0
      → kernel_base_address ≤ end_bss
      → end_bss + 3 * page_size ≤ kernel_base_address + page_table_size
      → Ends (Directory s) (create_kern_pgdir s)
  unfolding create_kern_pgdir memset_page fill_frame
  create_kern_pgdir-Directory s first above below =
      let here = first_start s first in
      let bounds = round_bounds above below in
      Ends-and_then
        (boot_alloc-room page_size s refl (omega (arith, here, bounds))
          (omega (arith, here, bounds)))
        λ a t g.
          let nonzero : (a == 0) ≡ false = ground (arith, g.start, here, bounds) in
          let same : t.frame ≡ s.frame = ap (λ (u : Kernel). u.frame) g.rest in
          rw nonzero (
            ends (record {
              start = g.start ∙ here;
              empty = λ i. ground arith;
              others = λ p i ne.
                  let cell : t.frame p i ≡ s.frame p i = ap (λ (f : ℕ → ℕ → ℕ). f p i) same in
                  ground arith;
              given = g.behind;
              near = omega (arith, g.near);
              aligned = g.aligned;
              rest =
                  ap (λ (u : Kernel). record u { frame = fill_frame t.frame (pgnum (paddr a)) 0 })
                    g.rest;
            }))
