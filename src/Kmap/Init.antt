-- ===== src/Kmap/Init.antt =====
-- `init_pages`: which pages are free at the start, and which are reserved.
use cezos.Base.{
  ℕ, ap, zero, suc, ◌+◌, ◌-◌, ◌/◌, ◌≤◌, ◌<◌, ◌==◌, ltb, leb, ◌&&◌, ◌||◌, ◌≡◌, ◌≢◌, refl, ◌∙◌, false,
  none, List, [], ◌∷◌, max, arith, if◌then◌else◌, Bool,
}
use cezos.Mmu.{page_size}
use cezos.Kmap.State.{Kernel, ok, update}
use cezos.Kmap.Addr.{paddr, page_alligned_round}
use cezos.Kmap.Boot.{first_address, boot_alloc}
use cezos.Kmap.Pages.{mark_free, mark_used, for_range, init_pages, set_next, set_refs}
use cezos.Kmap.FreeList.{Ends, ends, has, Chain, stop, link, Chain-update}

-- The numbers from `i` up, `n` of them, each put in front of what was before.
abbrev pub push_range : ℕ → ℕ → List ℕ → List ℕ
push_range i zero xs = xs
push_range i (suc n) xs = push_range (i + 1) n (i ∷ xs)

abbrev pub in_range : ℕ → ℕ → ℕ → Bool
in_range i n p = leb i p && ltb p (i + n)

has-push_range :
    (n i p : ℕ) (xs : List ℕ) → has p (push_range i n xs) ≡ (in_range i n p || has p xs)
has-push_range zero i p xs = ground arith
has-push_range (suc n) i p xs = ground (arith, has-push_range n (i + 1) p (i ∷ xs))

abbrev IsList : Kernel → List ℕ → Type 0
IsList s xs = Chain s.pages s.page_free_list xs

mark_free-IsList :
    (s : Kernel) {xs : List ℕ} (i : ℕ)
    → has i xs ≡ false
    → IsList s xs
    → IsList (mark_free i s) (i ∷ xs)
unfolding mark_free update
mark_free-IsList s i out chain =
    link {q = s.page_free_list} (ground arith) (ground arith) out
      (Chain-update i _ out (Chain-update i _ out chain))

mark_used-IsList :
    (s : Kernel) {xs : List ℕ} (i : ℕ) → has i xs ≡ false → IsList s xs → IsList (mark_used i s) xs
unfolding mark_used
mark_used-IsList s i out chain = Chain-update i _ out (Chain-update i _ out chain)

free_range :
    (n i : ℕ) (s : Kernel) {xs : List ℕ}
    → ((p : ℕ) → i ≤ p → has p xs ≡ false)
    → IsList s xs
    → IsList (for_range mark_free i n s) (push_range i n xs)
unfolding for_range
free_range zero i s new chain = chain
free_range (suc n) i s new chain =
    free_range n (i + 1) (mark_free i s) (λ p h. ground (arith, new p))
      (mark_free-IsList s i (new i (omega arith)) chain)

used_range :
    (n i : ℕ) (s : Kernel) {xs : List ℕ}
    → ((p : ℕ) → i ≤ p → has p xs ≡ false)
    → IsList s xs
    → IsList (for_range mark_used i n s) xs
unfolding for_range
used_range zero i s new chain = chain
used_range (suc n) i s new chain =
    used_range n (i + 1) (mark_used i s) (λ p h. new p (omega arith))
      (mark_used-IsList s i (new i (omega arith)) chain)

-- The reference counts after the loops.
refs-mark_free : (i p : ℕ) (s : Kernel) → i ≢ p → ((mark_free i s).pages p).refs ≡ (s.pages p).refs
unfolding mark_free update
refs-mark_free i p s ne = ground arith

refs-free_range :
    (n i p : ℕ) (s : Kernel)
    → in_range i n p ≡ false
    → ((for_range mark_free i n s).pages p).refs ≡ (s.pages p).refs
unfolding for_range
refs-free_range zero i p s out = refl
refs-free_range (suc n) i p s out =
    ground (arith, refs-free_range n (i + 1) p (mark_free i s), refs-mark_free i p s)

refs-mark_used :
    (i p : ℕ) (s : Kernel)
    → ((mark_used i s).pages p).refs ≡ (if i == p then 1 else (s.pages p).refs)
unfolding mark_used update
refs-mark_used i p s = ground arith

refs-used_range :
    (n i p : ℕ) (s : Kernel)
    → ((for_range mark_used i n s).pages p).refs ≡ (if in_range i n p then 1 else (s.pages p).refs)
unfolding for_range
refs-used_range zero i p s = ground arith
refs-used_range (suc n) i p s =
    ground (arith, refs-used_range n (i + 1) p (mark_used i s), refs-mark_used i p s)

-- What the loops leave alone.
abbrev config : Kernel → ℕ × ℕ × (ℕ → ℕ → ℕ)
config s = (s.next_free, s.pages_count, s.frame)

config-for_range :
    (body : ℕ → Kernel → Kernel)
    → ((i : ℕ) (s : Kernel) → config (body i s) ≡ config s)
    → (n i : ℕ) (s : Kernel) → config (for_range body i n s) ≡ config s
unfolding for_range
config-for_range body same zero i s = refl
config-for_range body same (suc n) i s = config-for_range body same n (i + 1) (body i s) ∙ same i s

config-mark_free : (n i : ℕ) (s : Kernel) → config (for_range mark_free i n s) ≡ config s
unfolding mark_free
config-mark_free = config-for_range mark_free (λ i s. refl)

config-mark_used : (n i : ℕ) (s : Kernel) → config (for_range mark_used i n s) ≡ config s
unfolding mark_used
config-mark_used = config-for_range mark_used (λ i s. refl)

pub boot_alloc-zero :
    (e : ℕ) (s : Kernel)
    → boot_alloc e 0 s ≡ ok (first_address e s) (record s { next_free = first_address e s })
unfolding boot_alloc
boot_alloc-zero e s = refl

-- The pages that `init_pages` makes free, as ranges: base memory without page 0, and the memory
-- from `top` on.
abbrev pub top : ℕ → Kernel → ℕ
top end_bss s = max (max 1 s.pages_basemem_count) (paddr (first_address end_bss s) / page_size)

abbrev pub initial_list : ℕ → Kernel → List ℕ
initial_list end_bss s =
    push_range (top end_bss s) (s.pages_count - top end_bss s)
      (push_range 1 (s.pages_basemem_count - 1) [])

pub record Initial (end_bss : ℕ) (s t : Kernel) : Type 0 where
  pub chain : Chain t.pages t.page_free_list (initial_list end_bss s)
  pub members :
      (p : ℕ)
      → has p (initial_list end_bss s) ≡ (
          in_range (top end_bss s) (s.pages_count - top end_bss s) p
          || in_range 1 (s.pages_basemem_count - 1) p)
  pub reserved :
      (p : ℕ)
      → p < top end_bss s
      → in_range 1 (s.pages_basemem_count - 1) p ≡ false
      → (t.pages p).refs ≡ 1
  pub memory : t.frame ≡ s.frame
  pub count : t.pages_count ≡ s.pages_count

first_address-config :
    (e : ℕ) (s t : Kernel) → config t ≡ config s → first_address e t ≡ first_address e s
unfolding first_address
first_address-config e s t same =
    ap (λ (n : ℕ). if n == 0 then page_alligned_round e else n)
      (ap (λ (c : ℕ × ℕ × (ℕ → ℕ → ℕ)). c.0) same)

module _ (e : ℕ) (s : Kernel) (empty : s.page_free_list ≡ none) where
  -- The states between the loops.
  abbrev zeroth : Kernel
  zeroth = set_next 0 none (set_refs 0 1 s)

  abbrev base_free : Kernel
  base_free = for_range mark_free 1 (s.pages_basemem_count - 1) zeroth

  abbrev allocated : Kernel
  allocated = record base_free { next_free = first_address e base_free }

  abbrev used_from : ℕ
  used_from = max 1 s.pages_basemem_count

  -- The end of the kernel as the code computes it is the one of the specification.
  end_same : max used_from (paddr (first_address e base_free) / page_size) ≡ top e s
  unfolding set_next set_refs
  end_same =
      ap (λ (a : ℕ). max used_from (paddr a / page_size))
        (first_address-config e s base_free (config-mark_free _ 1 zeroth))

  abbrev used_rounds : ℕ
  used_rounds = paddr (first_address e base_free) / page_size - used_from

  abbrev kernel_used : Kernel
  kernel_used = for_range mark_used used_from used_rounds allocated

  abbrev finished : Kernel
  finished = for_range mark_free (top e s) (s.pages_count - top e s) kernel_used

  base_chain : IsList base_free (push_range 1 (s.pages_basemem_count - 1) [])
  unfolding set_next set_refs
  base_chain = free_range (s.pages_basemem_count - 1) 1 zeroth (λ p h. refl) (rw empty stop)

  outside_base :
      (p : ℕ) → used_from ≤ p → has p (push_range 1 (s.pages_basemem_count - 1) []) ≡ false
  outside_base p h = ground (arith, has-push_range (s.pages_basemem_count - 1) 1 p [])

  finished-chain : IsList finished (initial_list e s)
  finished-chain =
      free_range (s.pages_count - top e s) (top e s) kernel_used
        (λ p h. outside_base p (omega arith))
        (used_range used_rounds used_from allocated outside_base base_chain)

  finished-refs :
      (p : ℕ)
      → p < top e s
      → in_range 1 (s.pages_basemem_count - 1) p ≡ false
      → (finished.pages p).refs ≡ 1
  unfolding set_next set_refs update
  finished-refs p below out = ground (
    arith,
    refs-free_range (s.pages_count - top e s) (top e s) p kernel_used,
    end_same,
    refs-used_range used_rounds used_from p allocated,
    refs-free_range (s.pages_basemem_count - 1) 1 p zeroth,
  )

  finished-config : (finished.pages_count ≡ s.pages_count) × (finished.frame ≡ s.frame)
  unfolding set_next set_refs
  finished-config =
      let later =
        config-mark_free (s.pages_count - top e s) (top e s) kernel_used
        ∙ config-mark_used used_rounds used_from allocated in
      let first = config-mark_free (s.pages_basemem_count - 1) 1 zeroth in
      (
        ap (λ (c : ℕ × ℕ × (ℕ → ℕ → ℕ)). c.1) later ∙ ap (λ (c : ℕ × ℕ × (ℕ → ℕ → ℕ)). c.1) first,
        ap (λ (c : ℕ × ℕ × (ℕ → ℕ → ℕ)). c.2) later ∙ ap (λ (c : ℕ × ℕ × (ℕ → ℕ → ℕ)). c.2) first,
      )

  finished-Initial : Initial e s finished
  finished-Initial = record {
    chain = finished-chain;
    members = λ p. ground (
      arith,
      has-push_range (s.pages_count - top e s) (top e s) p
          (push_range 1 (s.pages_basemem_count - 1) []),
      has-push_range (s.pages_basemem_count - 1) 1 p [],
    );
    reserved = finished-refs;
    memory = finished-config.1;
    count = finished-config.0;
  }

-- From an empty free list init_pages always ends. Then the free list is exactly the pages from 1
-- below pages_basemem_count and those from the end of the kernel (or of base memory, if that is
-- higher) below pages_count, each of them unreferenced and once; every other page below the end
-- of the kernel, page 0 among them, has one reference. No word of memory changes.
pub init_pages-Initial :
    (end_bss : ℕ) (s : Kernel)
    → s.page_free_list ≡ none
    → Ends (λ _. Initial end_bss s) (init_pages end_bss s)
unfolding init_pages set_next set_refs
init_pages-Initial e s empty =
    rw (boot_alloc-zero) (rw (end_same e s empty) (ends (finished-Initial e s empty)))
