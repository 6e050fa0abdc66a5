-- ===== src/Kmap/Alloc.antt =====
-- `page_alloc`, `free_page` and `page_decref` on the free list.
use cezos.Base.{
  ℕ, suc, ◌+◌, ◌-◌, ◌%◌, ◌≤◌, ◌<◌, ◌==◌, ◌≡◌, ◌≢◌, ◌⊎◌, refl, ◌∙◌, false, none, some, List, [], ◌∷◌,
  arith, if◌then◌else◌, bit_and, Bool-cases, inl, inr,
}
use cezos.Mmu.{word_size}
use cezos.Kmap.State.{Kernel, ok, fault, hang, update, fill_frame, null_status}
use cezos.Kmap.Addr.Laws.{max_pages, page2kva-page, pgnum-page_kva}
use cezos.Kmap.Pages.{
  page_zero_filled, first_free_page, zero_fill, page_alloc, free_page, page_decref, set_refs,
}
use cezos.Kmap.FreeList.{
  Ends, ends, Ends-mono, has, Chain, link, Chain-update, Chain-nil, Chain-cons, IsFreeList,
}

-- What `page_alloc` leaves: `p` is off the list with its link cleared, and the rest is untouched.
pub record Allocated (flags : ℕ) (s : Kernel) (p : ℕ) (xs : List ℕ) (q : ℕ) (t : Kernel)
    : Type 0 where
  pub page : q ≡ p
  pub chain : Chain t.pages t.page_free_list xs
  pub count : t.pages_count ≡ s.pages_count
  pub cleared : t.pages p ≡ null_status
  pub others : (i : ℕ) → i ≢ p → t.pages i ≡ s.pages i
  pub memory : t.frame ≡ (
      if bit_and flags page_zero_filled == page_zero_filled
      then fill_frame s.frame p 0
      else s.frame)

abbrev taken : Kernel → ℕ → Kernel
taken s p = record s {
  page_free_list = (s.pages p).next_free;
  pages = update s.pages p (record (s.pages p) { next_free = none });
}

first_free_page-some :
    (s : Kernel) (p : ℕ) → s.page_free_list ≡ some p → first_free_page s ≡ ok p (taken s p)
unfolding first_free_page
first_free_page-some s p h = rw h

zero_fill_lem :
    (s : Kernel) (p : ℕ)
    → s.pages_count ≤ max_pages
    → p < s.pages_count
    → zero_fill p s ≡ ok p (record s { frame = fill_frame s.frame p 0 })
unfolding zero_fill
zero_fill_lem s p few in_range = rw (page2kva-page s p few in_range, pgnum-page_kva p (omega arith))

-- With `p` at the head of the free list `page_alloc` takes it, and fills its frame with zero
-- words exactly if the flag asks for that.
pub page_alloc-cons :
    {s : Kernel} {p : ℕ} {xs : List ℕ} (flags : ℕ)
    → s.pages_count ≤ max_pages
    → IsFreeList s (p ∷ xs)
    → Ends (Allocated flags s p xs) (page_alloc flags s)
unfolding page_alloc update
page_alloc-cons {s} {p} {xs} flags few free =
    let (head, unref, new, rest) = Chain-cons free.chain in
    let in_range : p < s.pages_count = free.within p (ground arith) in
    let others : (i : ℕ) → i ≢ p → (taken s p).pages i ≡ s.pages i = λ i ne. ground arith in
    let cleared : (taken s p).pages p ≡ null_status = ground arith in
    let chain = Chain-update p (record (s.pages p) { next_free = none }) new rest in
    rw (first_free_page-some s p head) (elim (Bool-cases (bit_and flags 1 == 1)) [
      | inl zero ↦
          rw (zero, zero_fill_lem (taken s p) p few in_range)
            (ends (record {
              page = refl;
              chain = chain;
              count = refl;
              cleared = cleared;
              others = others;
              memory = rw zero;
            }))
      | inr keep ↦ rw keep (
          ends (record {
            page = refl;
            chain = chain;
            count = refl;
            cleared = cleared;
            others = others;
            memory = rw keep;
          }))
    ])

-- With no free page left `page_alloc` reads through NULL.
pub page_alloc-nil : {s : Kernel} (flags : ℕ) → IsFreeList s [] → page_alloc flags s ≡ fault
unfolding page_alloc first_free_page
page_alloc-nil flags free = rw (Chain-nil free.chain)

-- What `free_page` leaves: `p` at the head of the list.
pub record Freed (s : Kernel) (p : ℕ) (xs : List ℕ) (t : Kernel) : Type 0 where
  pub chain : Chain t.pages t.page_free_list (p ∷ xs)
  pub count : t.pages_count ≡ s.pages_count
  pub others : (i : ℕ) → i ≢ p → t.pages i ≡ s.pages i
  pub memory : t.frame ≡ s.frame
  pub flushed : t.invalidated ≡ s.invalidated

-- A page that is not on the list, is unreferenced and has no link is put at the head of the list.
pub free_page-cons :
    {s : Kernel} {xs : List ℕ} (p : ℕ)
    → s.pages p ≡ null_status
    → has p xs ≡ false
    → Chain s.pages s.page_free_list xs
    → Ends (λ _. Freed s p xs) (free_page p s)
unfolding free_page update
free_page-cons {s} p clear out chain = rw clear (
    ends (record {
      chain =
          link {q = s.page_free_list} (ground arith) (ground arith) out
            (Chain-update p _ out (Chain-update p _ out chain));
      count = refl;
      others = λ i ne. ground arith;
      memory = refl;
      flushed = refl;
    }))

-- A page that is referenced, or that has a successor on the list, is not freed: the code stops.
pub free_page-hang :
    (s : Kernel) (p : ℕ)
    → ((s.pages p).refs ≢ 0) ⊎ ((s.pages p).next_free ≢ none)
    → free_page p s ≡ hang
unfolding free_page
free_page-hang s p busy = ground arith

-- Freeing the last page of the list a second time is not noticed: its link is NULL and it is
-- unreferenced, so the tests pass, and afterwards the page is its own successor.
pub free_page_twice :
    (s : Kernel) (p : ℕ)
    → s.pages p ≡ null_status
    → s.page_free_list ≡ some p
    → Ends (λ _ t. (t.page_free_list ≡ some p) × ((t.pages p).next_free ≡ some p)) (free_page p s)
unfolding free_page update
free_page_twice s p clear head = rw clear (ends (ground arith))

-- `page_decref` of a page with one reference frees it, and with more only counts down.
pub page_decref-one :
    {s : Kernel} {xs : List ℕ} (p : ℕ)
    → (s.pages p).refs ≡ 1
    → (s.pages p).next_free ≡ none
    → has p xs ≡ false
    → Chain s.pages s.page_free_list xs
    → Ends (λ _. Freed s p xs) (page_decref p s)
unfolding page_decref update set_refs
page_decref-one {s} {xs} p one alone out chain =
    let left : ((s.pages p).refs + word_size - 1) % word_size ≡ 0 = omega arith in
    rw left (
      Ends-mono
        (free_page-cons {s = set_refs p 0 s} {xs = xs} p (ground arith) out
          (Chain-update p _ out chain))
        λ _ t freed. record {
          chain = freed.chain;
          count = freed.count;
          others = λ i ne. freed.others i ne ∙ unchanged i ne;
          memory = freed.memory;
          flushed = freed.flushed;
        })
  where
    unchanged : (i : ℕ) → i ≢ p → (set_refs p 0 s).pages i ≡ s.pages i
    unchanged i ne = ground arith

pub page_decref-more :
    (s : Kernel) (p n : ℕ)
    → (s.pages p).refs ≡ suc (suc n)
    → suc (suc n) < word_size
    → page_decref p s ≡ ok tt (set_refs p (suc n) s)
unfolding page_decref
page_decref-more s p n many fits =
    let left : ((s.pages p).refs + word_size - 1) % word_size ≡ suc n = omega arith in
    rw left (ground arith)
