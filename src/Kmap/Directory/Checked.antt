-- ===== src/Kmap/Directory/Checked.antt =====
-- When `check_kern_pgdir` passes.
use cezos.Base.{ℕ, ◌+◌, ◌-◌, ◌*◌, ◌/◌, ◌%◌, ◌^◌, ◌<◌, ◌≤◌, ◌≡◌, ◌⊎◌, ◌↔◌, true, arith}
use cezos.Bits.{bit_and-one, bit_and-two}
use cezos.Mmu.{
  word_size, page_size, pdx, is_page_present, is_page_writable, kernel_base_address,
  kernel_stack_size, u_pages,
}
use cezos.Kmap.State.{Kernel, ok}
use cezos.Kmap.Addr.{paddr, page_alligned_round}
use cezos.Kmap.Table.{check_va2pa}
use cezos.Kmap.Directory.{entry_ok, pages_size, memory_size, check_kern_pgdir}
use cezos.Kmap.Directory.Tested.{check_kern_pgdir-Tested}

-- The pages from U_PAGES on that the descriptors reach, 8 bytes each, are those of the array; the pages
-- from KERNEL_BASE_ADDRESS on are all of memory; the eight pages of the stack are below it. The
-- entries for U_PAGES, the self map and the stack are present, and those behind the first one for
-- memory are present and writable.
pub record IsChecked (kpgdir pages bootstack : ℕ) (s : Kernel) : Type 0 where
  pub descriptors :
      (k : ℕ)
      → k * page_size ≤ s.pages_count * 8
      → check_va2pa kpgdir ((u_pages + page_size * k) % word_size) s
        ≡ ok ((paddr pages + page_size * k) % word_size) s
  pub memory :
      (k : ℕ)
      → k < s.pages_count
      → check_va2pa kpgdir ((kernel_base_address + page_size * k) % word_size) s
        ≡ ok (page_size * k) s
  pub stack :
      (k : ℕ)
      → k < 8
      → check_va2pa kpgdir (kernel_base_address - kernel_stack_size + page_size * k) s
        ≡ ok ((paddr bootstack + page_size * k) % word_size) s
  pub present : (k : ℕ) → (k ≡ 956) ⊎ (k ≡ 957) ⊎ (k ≡ 959) → s.frame kpgdir k % 2 ≡ 1
  pub kernel :
      (k : ℕ) → 961 ≤ k → k < 1024 → (s.frame kpgdir k % 2 ≡ 1) × (s.frame kpgdir k / 2 % 2 ≡ 1)

module _ (d k : ℕ) (s : Kernel) where
  entry_ok-present : entry_ok d s k ≡ true → (k ≡ 956) ⊎ (k ≡ 957) ⊎ (k ≡ 959) → s.frame d k % 2 ≡ 1
  unfolding entry_ok pdx is_page_present
  entry_ok-present h here = ground (arith, bit_and-one (s.frame d k))

  entry_ok-kernel :
      entry_ok d s k ≡ true → 961 ≤ k → k < 1024 → (s.frame d k % 2 ≡ 1) × (s.frame d k / 2 % 2 ≡ 1)
  unfolding entry_ok pdx is_page_present is_page_writable
  entry_ok-kernel h lo hi = ground (arith, bit_and-one (s.frame d k), bit_and-two (s.frame d k))

  flags-entry_ok :
      k < 1024
      → ((k ≡ 956) ⊎ (k ≡ 957) ⊎ (k ≡ 959) → s.frame d k % 2 ≡ 1)
      → (961 ≤ k → k < 1024 → (s.frame d k % 2 ≡ 1) × (s.frame d k / 2 % 2 ≡ 1))
      → entry_ok d s k ≡ true
  unfolding entry_ok pdx is_page_present is_page_writable
  flags-entry_ok lt h h' = ground (arith, bit_and-one (s.frame d k), bit_and-two (s.frame d k))

-- With fewer than 2^20 pages, check_kern_pgdir passes, and leaves the state as it is, exactly if the
-- directory translates the addresses of the descriptors, of all of memory and of the kernel's stack
-- as it should, its entries for U_PAGES, the self map and the stack are present, and those behind
-- the first one for memory are present and writable.
pub check_kern_pgdir_iff :
    (kpgdir pages bootstack : ℕ) (s : Kernel)
    → s.pages_count < 2 ^ 20
    → (check_kern_pgdir kpgdir pages bootstack s ≡ ok tt s) ↔ IsChecked kpgdir pages bootstack s
unfolding pages_size memory_size page_alligned_round
check_kern_pgdir_iff kpgdir pages bootstack s few = (
  λ e.
      let t = (check_kern_pgdir-Tested kpgdir pages bootstack s).0 e in
      record {
        descriptors = λ k lt. t.descriptors k (omega arith);
        memory = λ k lt. t.memory k (omega arith);
        stack = λ k lt. t.stack k (omega arith);
        present = λ k here. entry_ok-present kpgdir k s (t.entries k (ground arith)) here;
        kernel = λ k lo hi. entry_ok-kernel kpgdir k s (t.entries k hi) lo hi;
      },
  λ c. (check_kern_pgdir-Tested kpgdir pages bootstack s).1 (record {
    descriptors = λ k lt. c.descriptors k (omega arith);
    memory = λ k lt. c.memory k (omega arith);
    stack = λ k lt. c.stack k (omega arith);
    entries = λ k lt. flags-entry_ok kpgdir k s lt (c.present k) (c.kernel k);
  }),
)
