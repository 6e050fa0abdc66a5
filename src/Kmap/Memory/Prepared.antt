-- ===== src/Kmap/Memory/Prepared.antt =====
-- The first part of `initialize_memory`: the directory, the array of descriptors and the free list.
use cezos.Base.{
  ℕ, ◌+◌, ◌-◌, ◌*◌, ◌/◌, ◌%◌, ◌≤◌, ◌<◌, ◌==◌, ◌≡◌, ◌≢◌, refl, ap, sym, ◌∙◌, none, if◌then◌else◌,
  bit_or, arith, ==_refl,
}
use mathlib.Core.Path.{subst}
use cezos.Bits.{bit_or-low}
use cezos.Mmu.{word_size, page_size, page_table_size, pgnum, pte_u, kernel_base_address}
use cezos.Kmap.State.{
  PageStatus, Kernel, Run, ok, hang, fault, Cmd, pure, and_then, ◌>>=◌, ◌>>◌, set_word,
}
use cezos.Kmap.Addr.{paddr, page_alligned_round}
use cezos.Kmap.Boot.{first_address, boot_alloc}
use cezos.Kmap.Pages.{modify, init_pages}
use cezos.Kmap.Check.{check_page_list}
use cezos.Kmap.Table.{write_word}
use cezos.Kmap.Vm.{Odd}
use cezos.Kmap.FreeList.{Ends, ends, Ends-and_then}
use cezos.Kmap.Setup.{
  nvram_baselo, vram_read, total_memory, get_memory_size, Directory, create_kern_pgdir-Directory,
  Given, boot_alloc-room,
}
use cezos.Kmap.Init.{boot_alloc-zero}
use cezos.Kmap.Memory.{clear_bytes, self_map, prepare_pages}
use cezos.Kmap.Memory.Listed.{self, IsReady, list_pages-IsReady}

-- What is known before the regions are mapped; `n` is the number of pages.
pub record Prepared (n : ℕ) (r : ℕ × ℕ) (t : Kernel) : Type 0 where
  pub ready : IsReady (pgnum (paddr r.0)) n t
  pub aligned : paddr r.1 % 4096 ≡ 0
  pub low : paddr r.1 ≤ page_table_size
  -- the directory and the descriptors lie in the first 4 MB
  pub directory_low : pgnum (paddr r.0) < 1024
  pub descriptors_low : paddr r.1 + n * 8 ≤ page_table_size

first_address-later : (e : ℕ) (s : Kernel) → 0 < s.next_free → first_address e s ≡ s.next_free
unfolding first_address
first_address-later e s h = ground arith

-- Two commands in a row, and what follows them.
Ends-follow :
    {A : Type 0} {P : Unit {0} → Kernel → Type 0} {Q : A → Kernel → Type 0} (r : Run (Unit {0}))
    (k : Cmd (Unit {0})) (f : Cmd A)
    → Ends P (and_then r (λ _. k))
    → ((u : Unit {0}) (t : Kernel) → P u t → Ends Q (f t))
    → Ends Q (and_then r (λ _. k >> f))
Ends-follow (ok a s) k f h next = Ends-and_then h next
Ends-follow hang k f h next = elim h [ ]
Ends-follow fault k f h next = elim h [ ]

module _ (mc_read : ℕ → ℕ) where
  abbrev pub total_pages : ℕ
  total_pages = total_memory mc_read / (page_size / 1024)

  abbrev pub base_pages : ℕ
  base_pages = vram_read mc_read nvram_baselo / (page_size / 1024)

-- The first page behind the kernel.
directory_bounds :
    (end_bss b n a : ℕ)
    → kernel_base_address + b * page_size ≤ end_bss
    → end_bss + n * 8 + 4 * page_size ≤ kernel_base_address + page_table_size
    → a ≡ page_alligned_round end_bss
    → (b ≤ pgnum (paddr a))
      × (0 < pgnum (paddr a))
      × (a ≤ end_bss + page_size)
      × (a ≡ kernel_base_address + pgnum (paddr a) * 4096)
unfolding page_alligned_round paddr pgnum
directory_bounds end_bss b n a above below start = omega arith

-- A page boundary in the first 4 MB.
paddr_low :
    (b : ℕ)
    → kernel_base_address ≤ b
    → b ≤ kernel_base_address + page_table_size
    → b % 4096 ≡ 0
    → (paddr b % 4096 ≡ 0) × (paddr b ≤ page_table_size)
unfolding paddr
paddr_low b above below aligned = omega arith

paddr_end :
    (b n : ℕ)
    → kernel_base_address ≤ b
    → b + n ≤ kernel_base_address + page_table_size
    → paddr b + n ≤ page_table_size
unfolding paddr
paddr_end b n above below = omega arith

module _ (mc_read : ℕ → ℕ) (end_bss : ℕ) (cut : PageStatus → ℕ → PageStatus) (s : Kernel)
    (first : s.next_free ≡ 0) (unlisted : s.page_free_list ≡ none)
    (above : kernel_base_address + base_pages mc_read * page_size ≤ end_bss)
    (below : end_bss + total_pages mc_read * 8 + 4 * page_size
      ≤ kernel_base_address + page_table_size)
    (enough : 2049 ≤ total_pages mc_read)
    (room : end_bss + total_pages mc_read * 8 + 70 * page_size
      ≤ kernel_base_address + page_table_size + (base_pages mc_read - 1) * page_size) where
  -- The state before init_pages.
  abbrev cleared : Kernel → Kernel
  cleared u = clear_bytes cut (total_pages mc_read) (record u { next_free = u.next_free })

  self_map-row :
      (a : ℕ) (t : Kernel) (i : ℕ)
      → (self_map a t).frame (pgnum (paddr a)) i
        ≡ (if i == self then bit_or (bit_or (paddr a) pte_u) 1 else t.frame (pgnum (paddr a)) i)
  unfolding self_map write_word set_word
  self_map-row a t i = ground arith

  self_map-count : (a : ℕ) (t : Kernel) → (self_map a t).pages_count ≡ t.pages_count
  unfolding self_map write_word
  self_map-count a t = refl

  -- The address that the second call of boot_alloc gives.
  next_address :
      (a : ℕ) {t : Kernel}
      → Directory end_bss (get_memory_size mc_read s) a t
      → first_address end_bss (self_map a t) ≡ a + 2 * page_size
  unfolding self_map write_word
  next_address a {t} dir = omega (
    arith,
    dir.start,
    dir.given,
    dir.near,
    dir.aligned,
    directory_bounds end_bss (base_pages mc_read) (total_pages mc_read) a above below dir.start,
    first_address-later end_bss (self_map a t) (omega (arith, dir.given)),
  )

  module _ (a : ℕ) {t : Kernel} (dir : Directory end_bss (get_memory_size mc_read s) a t) (b : ℕ)
      {u : Kernel} (given : Given end_bss (self_map a t) (total_pages mc_read * 8) b u) where
    row : (i : ℕ) → (cleared u).frame (pgnum (paddr a)) i ≡ (self_map a t).frame (pgnum (paddr a)) i
    unfolding clear_bytes
    row i = ap (λ (k : Kernel). k.frame (pgnum (paddr a)) i) given.rest

    own_entry : Odd ((cleared u).frame (pgnum (paddr a)) self)
    own_entry =
        let entry : (self_map a t).frame (pgnum (paddr a)) self
            ≡ bit_or (bit_or (paddr a) pte_u) 1 =
          self_map-row a t self ∙ rw (==_refl self) refl in
        omega (arith, row self, entry, bit_or-low (bit_or (paddr a) pte_u) 1)

    other_entry : (i : ℕ) → i ≢ self → (cleared u).frame (pgnum (paddr a)) i ≡ 0
    other_entry i ne = row i ∙ self_map-row a t i ∙ ground (arith, dir.empty i)

    -- What the calls of boot_alloc have left alone.
    counts :
        (u.pages_count ≡ total_pages mc_read)
        × (u.pages_basemem_count ≡ base_pages mc_read)
        × (u.page_free_list ≡ none)
    unfolding self_map write_word get_memory_size
    counts = (
      ap (λ (k : Kernel). k.pages_count) given.rest ∙ ap (λ (k : Kernel). k.pages_count) dir.rest,
      ap (λ (k : Kernel). k.pages_basemem_count) given.rest
          ∙ ap (λ (k : Kernel). k.pages_basemem_count) dir.rest,
      ap (λ (k : Kernel). k.page_free_list) given.rest
          ∙ ap (λ (k : Kernel). k.page_free_list) dir.rest
          ∙ unlisted,
    )

    -- Where the array of descriptors begins and ends.
    places :
        (b ≡ a + 2 * page_size)
        × (b + total_pages mc_read * 8 < u.next_free)
        × (u.next_free ≤ kernel_base_address + page_table_size)
        × (u.next_free ≤ a + total_pages mc_read * 8 + 3 * page_size)
    places = omega (arith, next_address a dir, given.start, given.behind, given.near, given.limit)

    cleared-IsReady :
        Ends
          (λ _. IsReady (pgnum (paddr a)) (total_pages mc_read))
          (and_then (init_pages end_bss (cleared u)) (λ _. check_page_list (total_pages mc_read) 1))
    unfolding clear_bytes paddr
    cleared-IsReady =
        let (count, base, free) = counts in
        let (from, some_way, to, end) = places in
        let (behind, nonzero, near, page) =
          directory_bounds end_bss (base_pages mc_read) (total_pages mc_read) a above below
            dir.start in
        let next : first_address end_bss (cleared u) ≡ u.next_free =
          first_address-later end_bss (cleared u) (omega arith) in
        subst
          (λ (n : ℕ).
            Ends (λ _. IsReady (pgnum (paddr a)) n)
              (and_then (init_pages end_bss (cleared u)) (λ _. check_page_list n 1)))
          count
          (list_pages-IsReady end_bss (pgnum (paddr a)) (cleared u) free (omega arith) nonzero
            (rw next (omega arith)) (rw next (omega arith)) (omega arith) (omega arith) own_entry
            other_entry (rw next (omega (arith, base))))

  -- What follows the self map, for `n` pages.
  abbrev second_part : ℕ → ℕ → Cmd (ℕ × ℕ)
  second_part n a = do
    pages ← boot_alloc end_bss (n * 8 % word_size)
    boot_alloc end_bss 0
    modify (clear_bytes cut n)
    init_pages end_bss
    check_page_list n 1
    pure (a, pages)

  second_part-Prepared :
      (a : ℕ) {t : Kernel}
      → Directory end_bss (get_memory_size mc_read s) a t
      → Ends (Prepared (total_pages mc_read)) (second_part (total_pages mc_read) a (self_map a t))
  second_part-Prepared a {t} dir =
      let size : total_pages mc_read * 8 % word_size ≡ total_pages mc_read * 8 = omega arith in
      let next = next_address a dir in
      let (behind, nonzero, near, page) =
        directory_bounds end_bss (base_pages mc_read) (total_pages mc_read) a above below
          dir.start in
      rw size (
        Ends-and_then
          (boot_alloc-room end_bss (total_pages mc_read * 8) (self_map a t) (ground arith)
            (omega arith) (omega arith))
          λ b u given.
            let (from, some_way, to, end) = places a dir b given in
            let later : first_address end_bss u ≡ u.next_free =
              first_address-later end_bss u (omega arith) in
            rw (boot_alloc-zero, later)
              (Ends-follow (init_pages end_bss (cleared u))
                (check_page_list (total_pages mc_read) 1) (pure (a, b))
                (cleared-IsReady a dir b given)
                λ _ v ready. ends (record {
                  ready = ready;
                  aligned = (paddr_low b (omega arith) (omega arith) (omega arith)).0;
                  low = (paddr_low b (omega arith) (omega arith) (omega arith)).1;
                  directory_low = omega arith;
                  descriptors_low =
                      paddr_end b (total_pages mc_read * 8) (omega arith) (omega arith);
                })))

  -- For a kernel behind base memory, with more than 8 MB of memory, and room below 4 MB for the
  -- directory and the descriptors, the first part of initialize_memory ends in a state where the
  -- regions can be mapped.
  pub prepare_pages-Prepared :
      Ends (Prepared (total_pages mc_read)) (prepare_pages mc_read end_bss cut s)
  unfolding prepare_pages get_memory_size
  prepare_pages-Prepared =
      Ends-and_then
        (create_kern_pgdir-Directory end_bss (get_memory_size mc_read s) first (omega arith)
          (omega arith))
        λ a t dir.
          subst (λ (n : ℕ). Ends (Prepared (total_pages mc_read)) (second_part n a (self_map a t)))
            (sym (self_map-count a t ∙ ap (λ (k : Kernel). k.pages_count) dir.rest))
            (second_part-Prepared a dir)
