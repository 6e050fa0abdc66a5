-- ===== src/Kmap/Pages.antt =====
-- The allocator of physical pages in kmap.c: `page_free_list`, reference counts, `init_pages`.
use cezos.Base.{
  ℕ, zero, suc, ◌+◌, ◌-◌, ◌/◌, ◌%◌, ◌==◌, if◌then◌else◌, bit_and, max, not, ◌||◌, Bool, true, false,
  Option, none, some,
}
use cezos.Mmu.{word_size, page_size, pgnum}
use cezos.Kmap.State.{Kernel, ok, hang, fault, Cmd, pure, ◌>>=◌, ◌>>◌, get, update, fill_frame}
use cezos.Kmap.Addr.{paddr, page2kva}
use cezos.Kmap.Boot.{boot_alloc}

-- PAGE_ZERO_FILLED
abbrev pub page_zero_filled : ℕ
page_zero_filled = 1

-- `ps->next_free = q`, `ps->refs = n` and `page_free_list = q`
unfoldable pub set_next : ℕ → Option ℕ → Kernel → Kernel
set_next ps q s = record s { pages = update s.pages ps (record (s.pages ps) { next_free = q }) }

unfoldable pub set_refs : ℕ → ℕ → Kernel → Kernel
set_refs ps n s = record s { pages = update s.pages ps (record (s.pages ps) { refs = n }) }

unfoldable pub set_free_list : Option ℕ → Kernel → Kernel
set_free_list q s = record s { page_free_list = q }

abbrev pub modify : (Kernel → Kernel) → Cmd (Unit {0})
modify f s = ok tt (f s)

-- A pointer that is read through: NULL is a fault.
abbrev pub deref : {A : Type 0} → Option A → Cmd A
deref none = λ _. fault
deref (some a) = pure a

unfoldable pub first_free_page : Cmd ℕ
unfolding set_next set_free_list
first_free_page = do
  s ← get
  first ← deref s.page_free_list
  modify (set_free_list (s.pages first).next_free)
  elim s.page_free_list [ none ↦ λ _. hang | some head ↦ modify (set_next head none) >> pure head ]

-- `memset(vaddr, 0, PAGE_SIZE)` at the kernel address of a page: each of its words becomes 0.
unfoldable pub memset_page : ℕ → Kernel → Kernel
memset_page vaddr s = record s { frame = fill_frame s.frame (pgnum (paddr vaddr)) 0 }

-- The branch of `page_alloc` for PAGE_ZERO_FILLED.
unfoldable pub zero_fill : ℕ → Cmd ℕ
unfolding memset_page
zero_fill ps = do s ← get; vaddr ← deref (page2kva s ps); modify (memset_page vaddr); pure ps

unfoldable pub page_alloc : ℕ → Cmd ℕ
unfolding zero_fill
page_alloc alloc_flags = do
  ps ← first_free_page
  if bit_and alloc_flags page_zero_filled == page_zero_filled then zero_fill ps else pure ps

abbrev is_some : Option ℕ → Bool
is_some none = false
is_some (some p) = true

unfoldable pub free_page : ℕ → Cmd (Unit {0})
unfolding set_next set_refs set_free_list
free_page ps = do
  s ← get
  if not ((s.pages ps).refs == 0) || is_some (s.pages ps).next_free then (λ _. hang) else do
    modify (set_next ps s.page_free_list)
    modify (set_free_list (some ps))
    modify (set_refs ps 0)

-- `ps->refs += 1`; the count is a size_t, which wraps.
unfoldable pub incref : ℕ → Kernel → Kernel
unfolding set_refs
incref ps s = set_refs ps (((s.pages ps).refs + 1) % word_size) s

unfoldable pub page_decref : ℕ → Cmd (Unit {0})
page_decref ps = do
  s ← get
  let left = ((s.pages ps).refs + word_size - 1) % word_size
  modify (set_refs ps left)
  if left == 0 then free_page ps else pure tt

-- The bodies of the loops of `init_pages`, and a loop `for (; i < i + rounds; ++i)`.
unfoldable pub mark_free : ℕ → Kernel → Kernel
unfolding set_next set_refs set_free_list
mark_free i s = set_refs i 0 (set_free_list (some i) (set_next i s.page_free_list s))

unfoldable pub mark_used : ℕ → Kernel → Kernel
unfolding set_next set_refs
mark_used i s = set_refs i 1 (set_next i none s)

unfoldable pub for_range : (ℕ → Kernel → Kernel) → ℕ → ℕ → Kernel → Kernel
for_range body i zero s = s
for_range body i (suc rounds) s = for_range body (i + 1) rounds (body i s)

unfoldable pub init_pages : ℕ → Cmd (Unit {0})
init_pages end_bss = do
  modify (λ s. set_next 0 none (set_refs 0 1 s))
  s ← get
  let base = s.pages_basemem_count
  modify (for_range mark_free 1 (base - 1))
  addr ← boot_alloc end_bss 0
  let used = paddr addr / page_size
  let i = max 1 base
  modify (for_range mark_used i (used - i))
  let j = max i used
  modify (for_range mark_free j (s.pages_count - j))
