-- ===== src/Kmap/Table.antt =====
-- The page tables of kmap.c: the two-level walk, insertion and removal of one page, and regions.
use cezos.Base.{
  ℕ, zero, suc, ◌+◌, ◌*◌, ◌/◌, ◌%◌, ◌==◌, if◌then◌else◌, bit_or, not, Bool, true, false, Option,
  none, some, ◌∷◌,
}
use cezos.Mmu.{
  word_size, page_size, pdx, ptx, pgnum, pte_p, pte_w, pte_u, pte_addr, is_page_present,
}
use cezos.Kmap.State.{Kernel, hang, fault, Cmd, pure, ◌>>=◌, ◌>>◌, get, set_word}
use cezos.Kmap.Addr.{paddr, kaddr, page2pa, pa2page}
use cezos.Kmap.Pages.{modify, page_alloc, incref, page_decref}

-- A `pte_t *`: NULL, an address that holds no object, or an entry of a table in physical memory.
pub data PtePtr : Type 0 where
  null : PtePtr
  wild : ℕ → PtePtr
  slot : ℕ → ℕ → PtePtr

-- `&pagetable_va[i]`, where `pagetable_va` is the result of KADDR. An index into NULL is NULL only
-- if it is 0.
unfoldable pub entry_of : Option ℕ → ℕ → PtePtr
entry_of none i = if i == 0 then null else wild (i * 4)
entry_of (some kva) i = slot (pgnum (paddr kva)) i

abbrev pub is_null : PtePtr → Bool
is_null null = true
is_null (wild a) = false
is_null (slot p i) = false

-- `*pte` and `*pte = v`
unfoldable pub load_pte : PtePtr → Cmd ℕ
load_pte null = λ _. fault
load_pte (wild a) = λ _. fault
load_pte (slot p i) = do s ← get; pure (s.frame p i)

unfoldable pub write_word : ℕ → ℕ → ℕ → Kernel → Kernel
write_word p i v s = record s { frame = set_word s.frame p i v }

unfoldable pub store_pte : PtePtr → ℕ → Cmd (Unit {0})
unfolding write_word
store_pte null v = λ _. fault
store_pte (wild a) v = λ _. fault
store_pte (slot p i) v = modify (write_word p i v)

unfoldable pub invalidate_tlb : ℕ → Kernel → Kernel
invalidate_tlb vaddr s = record s { invalidated = vaddr ∷ s.invalidated }

-- The branch of `get_page_table` that makes a table: its new directory entry. page_alloc never
-- returns NULL, so the test for that is left out.
unfoldable pub new_table : ℕ → ℕ → Cmd ℕ
unfolding write_word
new_table pgdir vaddr = do
  ps ← page_alloc 1
  modify (incref ps)
  let pde = bit_or (page2pa ps) (bit_or (bit_or pte_w pte_p) pte_u)
  modify (write_word pgdir (pdx vaddr) pde)
  pure pde

-- The end of `get_page_table`: from the directory entry to the table entry.
unfoldable pub table_entry : ℕ → ℕ → Cmd PtePtr
unfolding entry_of
table_entry vaddr pde = do s ← get; pure (entry_of (kaddr s (pte_addr pde)) (ptx vaddr))

unfoldable pub get_page_table : ℕ → ℕ → ℕ → Cmd PtePtr
unfolding table_entry
get_page_table pgdir vaddr create = do
  s ← get
  let pde = s.frame pgdir (pdx vaddr)
  if not (is_page_present pde == 0)
      then table_entry vaddr pde
      else if create == 0
      then (λ _. hang)
      else do pde ← new_table pgdir vaddr; table_entry vaddr pde

-- The page that is found, and the pointer that goes through `store_buffer` (NULL as it was before).
unfoldable pub search_page : ℕ → ℕ → Cmd (Option ℕ × PtePtr)
search_page pgdir vaddr = do
  pte ← get_page_table pgdir vaddr 0
  if is_null pte then pure (none, null) else do
    entry ← load_pte pte
    s ← get
    if is_page_present entry == 0 then pure (none, null) else pure (pa2page s (pte_addr entry), pte)

unfoldable pub remove_page : ℕ → ℕ → Cmd (Unit {0})
unfolding invalidate_tlb
remove_page pgdir vaddr = do
  (ps, pte_store) ← search_page pgdir vaddr
  elim ps [
    | none ↦ pure tt
    | some p ↦ store_pte pte_store 0 >> page_decref p >> modify (invalidate_tlb vaddr)
  ]

-- The results 0 and -1 of `insert_page`.
pub data Inserted : Type 0 where
  inserted invalid_address : Inserted

-- `*pte = paddr | permissions | PTE_P`
unfoldable pub page_entry : ℕ → ℕ → ℕ
page_entry pa permissions = bit_or (bit_or pa permissions) pte_p

-- The case of `insert_page` that the page is mapped there already. The condition assigns:
-- `obtained_perm = permissions`, so it tests the new permissions for 0.
unfoldable pub insert_again : PtePtr → ℕ → ℕ → ℕ → Cmd Inserted
unfolding invalidate_tlb page_entry
insert_again pte pa vaddr permissions =
    if not (permissions == 0)
    then pure inserted
    else do modify (invalidate_tlb vaddr); store_pte pte (page_entry pa permissions); pure inserted

unfoldable pub insert_page : ℕ → ℕ → ℕ → ℕ → Cmd Inserted
unfolding insert_again page_entry
insert_page pgdir ps vaddr permissions = do
  pte ← get_page_table pgdir vaddr 1
  if is_null pte then pure invalid_address else do
    entry ← load_pte pte
    if pte_addr entry == page2pa ps then insert_again pte (page2pa ps) vaddr permissions else do
      if is_page_present entry == 0 then pure tt else remove_page pgdir vaddr
      modify (incref ps)
      store_pte pte (page_entry (page2pa ps) permissions)
      pure inserted

-- One round of the loop of `map_memory_region`.
unfoldable pub map_page : ℕ → ℕ → ℕ → ℕ → Cmd (Unit {0})
unfolding page_entry
map_page pgdir vaddr pa permission = do
  pte ← get_page_table pgdir vaddr 1
  if is_null pte then (λ _. hang) else store_pte pte (page_entry pa permission)

-- The loop from round `i` on.
unfoldable pub map_pages : ℕ → ℕ → ℕ → ℕ → ℕ → ℕ → Cmd (Unit {0})
map_pages pgdir virtaddr physaddr permission i zero = pure tt
map_pages pgdir virtaddr physaddr permission i (suc rounds) =
    map_page pgdir ((virtaddr + i * page_size) % word_size) ((physaddr + i * page_size) % word_size)
      permission
    >> map_pages pgdir virtaddr physaddr permission (i + 1) rounds

unfoldable pub map_memory_region : ℕ → ℕ → ℕ → ℕ → ℕ → Cmd (Unit {0})
unfolding map_pages
map_memory_region pgdir virtaddr size physaddr permission =
    map_pages pgdir virtaddr physaddr permission 0 (size / page_size)

-- `check_va2pa`; `~0` is 0xffffffff.
unfoldable pub check_va2pa : ℕ → ℕ → Cmd ℕ
unfolding entry_of
check_va2pa pgdir va = do
  s ← get
  let pde = s.frame pgdir (pdx va)
  if is_page_present pde == 0 then pure 0xffff_ffff else do
    entry ← load_pte (entry_of (kaddr s (pte_addr pde)) (ptx va))
    if is_page_present entry == 0 then pure 0xffff_ffff else pure (pte_addr entry)
