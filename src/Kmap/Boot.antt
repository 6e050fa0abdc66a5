-- ===== src/Kmap/Boot.antt =====
-- `boot_alloc` of kmap.c, the allocator that is used before the page allocator is ready.
use cezos.Base.{ℕ, ◌+◌, ◌%◌, ◌==◌, ltb, if◌then◌else◌}
use cezos.Mmu.{word_size, page_table_size, kernel_base_address}
use cezos.Kmap.State.{Kernel, hang, Cmd, pure, ◌>>=◌, ◌>>◌, get, put}
use cezos.Kmap.Addr.{page_alligned_round}

-- `end_bss` is the address that the linker gives to the end of the bss section.
module _ (end_bss : ℕ) where
  -- the static `next_free` after the test for NULL
  unfoldable pub first_address : Kernel → ℕ
  first_address s = if s.next_free == 0 then page_alligned_round end_bss else s.next_free

  unfoldable pub boot_alloc : ℕ → Cmd ℕ
  boot_alloc nbytes = do
    s ← get
    let start = first_address s
    put (record s { next_free = start })
    if nbytes == 0 then pure start else do
      let next = page_alligned_round ((start + nbytes) % word_size)
      put (record s { next_free = next })
      if ltb (kernel_base_address + page_table_size) next then (λ _. hang) else pure start
