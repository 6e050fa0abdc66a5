-- ===== src/Proc/Vm.antt =====
-- `proc_init_vm` of proc.c: the page directory of a task.
use cezos.Base.{
  ℕ, ◌/◌, ◌%◌, ◌^◌, ◌<◌, ◌==◌, ◌≤◌, ◌≡◌, ◌≢◌, refl, ap, ◌∙◌, if◌then◌else◌, bit_or, none, some,
  List, ◌∷◌, arith,
}
use cezos.Bits.{bit_or-low, bit_or-shift, bit_or-zero}
use cezos.Mmu.{pdx, pgnum, pte_p, pte_w, u_virtual_page_table}
use cezos.Kmap.State.{Kernel, ok, hang, Cmd, ◌>>=◌, set_word, fill_frame, update}
use cezos.Kmap.Addr.{paddr, page2kva}
use cezos.Kmap.Addr.Laws.{max_pages, page_kva, page2kva-page, pgnum-page_kva}
use cezos.Kmap.Pages.{page_alloc, incref, set_refs}
use cezos.Kmap.FreeList.{Ends, ends, Ends-and_then, Chain, Chain-cons, Chain-update, IsFreeList}
use cezos.Kmap.Alloc.{Allocated, page_alloc-cons}

-- `memcpy` of a page.
unfoldable pub copy_frame : (ℕ → ℕ → ℕ) → ℕ → ℕ → ℕ → ℕ → ℕ
copy_frame f dst src q i = if q == dst then f src i else f q i

-- The page directory at a kernel address: the kernel's, with an entry that maps the directory itself.
unfoldable pub fill_pgdir : ℕ → ℕ → Kernel → Kernel
unfolding copy_frame
fill_pgdir kern_page_directory task_pgdir s =
    let page = pgnum (paddr task_pgdir) in
    record s {
      frame =
          set_word (copy_frame s.frame page kern_page_directory) page (pdx u_virtual_page_table)
            (bit_or (bit_or (paddr task_pgdir) pte_p) pte_w);
    }

-- What follows the allocation of the page `ps`.
unfoldable pub set_pgdir : ℕ → ℕ → Cmd ℕ
unfolding fill_pgdir
set_pgdir kern_page_directory ps s = elim (page2kva s ps) [
  | none ↦ hang
  | some task_pgdir ↦ ok task_pgdir (incref ps (fill_pgdir kern_page_directory task_pgdir s))
]

-- `kern_page_directory` is the number of its page. The value is what `task->task_pgdir` becomes.
unfoldable pub proc_init_vm : ℕ → Cmd ℕ
unfolding set_pgdir
proc_init_vm kern_page_directory = page_alloc 1 >>= set_pgdir kern_page_directory

-- The entry through which the directory maps itself.
abbrev self_entry : ℕ → ℕ
self_entry pa = bit_or (bit_or pa pte_p) pte_w

self_entry-odd : (pa : ℕ) → self_entry pa % 2 ≡ 1
self_entry-odd pa = omega (arith, bit_or-low (bit_or pa 1) 2, bit_or-low pa 1)

self_entry-addr : (pa : ℕ) → self_entry pa / 4096 ≡ pa / 4096
self_entry-addr pa =
    bit_or-shift 12 (bit_or pa 1) 2
    ∙ bit_or-zero (bit_or pa 1 / 2 ^ 12)
    ∙ bit_or-shift 12 pa 1
    ∙ bit_or-zero (pa / 2 ^ 12)

pgnum-self_entry : (p : ℕ) → p < max_pages → pgnum (self_entry (paddr (page_kva p))) ≡ p
unfolding pgnum
pgnum-self_entry p few =
    ap (λ (n : ℕ). n % 1048576) (self_entry-addr (paddr (page_kva p))) ∙ pgnum-page_kva p few

set_word_here : (f : ℕ → ℕ → ℕ) (p i v : ℕ) → set_word f p i v p i ≡ v
unfolding set_word
set_word_here f p i v = ground arith

-- What `proc_init_vm` leaves in the page `p`: the kernel's directory, but for the entry through which
-- the new one maps itself. The page has one reference and is off the free list, and no other page and
-- no other descriptor changes.
pub record UserSpace (s : Kernel) (kern p : ℕ) (xs : List ℕ) (task_pgdir : ℕ) (t : Kernel)
    : Type 0 where
  pub address : task_pgdir ≡ page_kva p
  pub shared : (i : ℕ) → i ≢ pdx u_virtual_page_table → t.frame p i ≡ s.frame kern i
  pub self : pgnum (t.frame p (pdx u_virtual_page_table)) ≡ p
  pub present : t.frame p (pdx u_virtual_page_table) % 2 ≡ 1
  pub counted : (t.pages p).refs ≡ 1
  pub chain : Chain t.pages t.page_free_list xs
  pub others : (q i : ℕ) → q ≢ p → (t.frame q i ≡ s.frame q i) × (t.pages q ≡ s.pages q)

set_pgdir-UserSpace :
    {s u : Kernel} {kern p q : ℕ} {xs : List ℕ}
    → s.pages_count ≤ max_pages
    → IsFreeList s (p ∷ xs)
    → kern ≢ p
    → Allocated 1 s p xs q u
    → Ends (UserSpace s kern p xs) (set_pgdir kern p u)
unfolding set_pgdir fill_pgdir copy_frame set_word incref set_refs update fill_frame
set_pgdir-UserSpace {s} {u} {kern} {p} {q} {xs} few free ne a =
    let (head, unref, new, rest) = Chain-cons free.chain in
    let in_range : p < s.pages_count = free.within p (ground arith) in
    let kva = page2kva-page u p (omega (arith, a.count)) (omega (arith, a.count)) in
    let number = pgnum-page_kva p (omega arith) in
    let memory : (r i : ℕ) → r ≢ p → u.frame r i ≡ s.frame r i =
      λ r i other. ap (λ (f : ℕ → ℕ → ℕ). f r i) a.memory ∙ ground arith in
    let written =
      set_word_here (copy_frame u.frame p kern) p (pdx u_virtual_page_table)
        (self_entry (paddr (page_kva p))) in
    rw (set_pgdir, kva, number)
      (ends (record {
        address = refl;
        shared = λ i other. ground (arith, memory kern i ne);
        self = ap pgnum written ∙ pgnum-self_entry p (omega arith);
        present = ap (λ (e : ℕ). e % 2) written ∙ self_entry-odd (paddr (page_kva p));
        counted = ground (arith, a.cleared);
        chain = Chain-update p _ new a.chain;
        others = λ r i other. (ground (arith, memory r i other), ground (arith, a.others r other));
      }))

-- With `p` at the head of the free list, and the kernel's directory in another page, proc_init_vm
-- gives the task a directory in `p`.
pub proc_init_vm-UserSpace :
    (s : Kernel) (kern p : ℕ) (xs : List ℕ)
    → s.pages_count ≤ max_pages
    → IsFreeList s (p ∷ xs)
    → kern ≢ p
    → Ends (UserSpace s kern p xs) (proc_init_vm kern s)
unfolding proc_init_vm
proc_init_vm-UserSpace s kern p xs few free ne =
    Ends-and_then (page_alloc-cons 1 few free)
      (λ q u a. rw a.page (set_pgdir-UserSpace few free ne a))
