-- ===== src/Kmap/Check/Sorted.antt =====
-- What `check_page_list` leaves: the free list with the pages of the first 4 MB in front.
use cezos.Base.{
  ℕ, ◌≤◌, ◌<◌, ◌==◌, ltb, ◌≡◌, refl, ap, ap₂, sym, ◌∙◌, if◌then◌else◌, true, false, ◌&&◌,
  Bool-cases, inl, inr, Option, none, List, [], ◌∷◌, ◌++◌, length, arith, eq_of_==,
}
use mathlib.Core.Bool.{true≢false}
use cezos.Kmap.State.{Kernel, PageStatus}
use cezos.Kmap.Addr.Laws.{max_pages}
use cezos.Kmap.Pages.{set_free_list}
use cezos.Kmap.FreeList.{has, Chain, stop, link, IsFreeList, Ends, Ends-mono, Chain-nil, Chain-cons}
use cezos.Kmap.Check.{at_ps1, at_ps2, at_link, Lists, check_page_list}
use cezos.Kmap.Check.Places.{low, high, Links}
use cezos.Kmap.Check.Split.{Done, split_list-Done}
use cezos.Kmap.Check.Poison.{Poisoned, poison_list-Poisoned}
use cezos.Kmap.Check.Parts.{
  sorted, has-sorted, length-sorted, Fresh, Fresh-sorted, Distinct-Fresh, Within-Fresh,
}

-- The free list of the allocator, as links of distinct pages without references.
Links-Chain :
    (xs : List ℕ) {pages : ℕ → PageStatus} {head : Option ℕ}
    → Chain pages head xs
    → Links pages head xs
Links-Chain [] c = Chain-nil c
Links-Chain (p ∷ xs) c = let (e, unref, new, rest) = Chain-cons c in (e, Links-Chain xs rest)

Fresh-Chain :
    (n : ℕ) (xs : List ℕ) {pages : ℕ → PageStatus} {head : Option ℕ}
    → Chain pages head xs
    → ((q : ℕ) → has q xs ≡ true → q < n)
    → Fresh n xs
Fresh-Chain n [] c within = tt
Fresh-Chain n (p ∷ xs) c within =
    let (e, unref, new, rest) = Chain-cons c in
    (new, within p (ground arith), Fresh-Chain n xs rest (λ q on. within q (ground arith)))

refs-Chain :
    (xs : List ℕ) {pages : ℕ → PageStatus} {head : Option ℕ} (q : ℕ)
    → Chain pages head xs
    → has q xs ≡ true
    → (pages q).refs ≡ 0
refs-Chain [] q c on = absurd (true≢false (sym on))
refs-Chain (p ∷ xs) {pages} q c on =
    let (e, unref, new, rest) = Chain-cons c in
    elim (Bool-cases (q == p)) [
      | inl here ↦ rw (eq_of_== q p here) unref
      | inr there ↦ refs-Chain xs q rest (ground arith)
    ]

Chain-Links :
    (n : ℕ) (xs : List ℕ) {pages : ℕ → PageStatus} {head : Option ℕ}
    → Links pages head xs
    → Fresh n xs
    → ((q : ℕ) → has q xs ≡ true → (pages q).refs ≡ 0)
    → Chain pages head xs
Chain-Links n [] h f unref = rw h stop
Chain-Links n (p ∷ xs) (e, h) (new, lt, f) unref =
    rw e (
      link refl (unref p (ground arith)) new
        (Chain-Links n xs h f (λ q on. unref q (ground arith))))

-- What `check_page_list` leaves: the free pages of the first 4 MB, then the others, each in their old
-- order; the words of the former hold the byte 0x97 and three zeros; no reference count, no other page
-- and no other part of the state changes.
pub record Sorted (s : Kernel) (xs : List ℕ) (t : Kernel) : Type 0 where
  pub free : IsFreeList t (low xs ++ high xs)
  pub refs : (p : ℕ) → (t.pages p).refs ≡ (s.pages p).refs
  pub used : (p : ℕ) → has p xs ≡ false → t.pages p ≡ s.pages p
  pub cells : (p i : ℕ) → t.frame p i ≡ (if has p xs && ltb p 1024 then 0x97 else s.frame p i)
  pub rest : t ≡ record s { pages = t.pages; page_free_list = t.page_free_list; frame = t.frame }

-- Both loops together.
Sorted-Done :
    (s t : Kernel) (u : Lists) (xs : List ℕ)
    → IsFreeList s xs
    → Done xs at_ps1 at_ps2 (record { kernel = s; ps1 = none; ps2 = none }) u
    → Poisoned (sorted xs) (set_free_list u.ps1 u.kernel) t
    → Sorted s xs t
unfolding set_free_list
Sorted-Done s t u xs free d p =
    let fresh =
      Fresh-sorted s.pages_count xs (Fresh-Chain s.pages_count xs free.chain free.within) in
    let pages_eq : t.pages ≡ u.kernel.pages = ap (λ (k : Kernel). k.pages) p.rest in
    let head_eq : t.page_free_list ≡ u.ps1 = ap (λ (k : Kernel). k.page_free_list) p.rest in
    let count : t.pages_count ≡ s.pages_count =
      ap (λ (k : Kernel). k.pages_count) p.rest ∙ ap (λ (k : Kernel). k.pages_count) d.rest in
    let memory : u.kernel.frame ≡ s.frame = ap (λ (k : Kernel). k.frame) d.rest in
    record {
      free = record {
        chain =
            rw (pages_eq, head_eq)
              (Chain-Links s.pages_count (sorted xs) (d.lows (high xs) d.highs) fresh
                (λ q on. d.refs q ∙ refs-Chain xs q free.chain (sym (has-sorted q xs) ∙ on)));
        within = λ q on. omega (arith, count, free.within q (sym (has-sorted q xs) ∙ on));
      };
      refs = λ q. ap (λ (f : ℕ → PageStatus). (f q).refs) pages_eq ∙ d.refs q;
      used = λ q off.
          ap (λ (f : ℕ → PageStatus). f q) pages_eq
          ∙ ap₂ (λ (n : Option ℕ) (r : ℕ). the_status n r) (d.kept (at_link q) refl refl off)
              (d.refs q);
      cells = λ q i. p.cells q i ∙ rw (has-sorted q xs, memory) refl;
      rest =
          p.rest
          ∙ ap (λ (k : Kernel). record k { page_free_list = u.ps1; frame = t.frame }) d.rest
          ∙ ap₂
              (λ (f : ℕ → PageStatus) (h : Option ℕ). record s {
                pages = f;
                page_free_list = h;
                frame = t.frame;
              })
              (sym pages_eq) (sym head_eq);
    }
  where
    the_status : Option ℕ → ℕ → PageStatus
    the_status n r = record { next_free = n; refs = r }

-- On fuel for the pages of the free list, which may stand in any order, check_page_list(1) ends.
-- The free list then holds the same pages, those of the first 4 MB in front; each word of these is
-- 0x97; and nothing else changes.
pub check_page_list-Sorted :
    (s : Kernel) (xs : List ℕ) (fuel : ℕ)
    → s.pages_count ≤ max_pages
    → IsFreeList s xs
    → length xs ≤ fuel
    → Ends (λ _ t. Sorted s xs t) (check_page_list fuel 1 s)
unfolding check_page_list set_free_list
check_page_list-Sorted s xs fuel few free enough =
    let fresh = Fresh-Chain s.pages_count xs free.chain free.within in
    let (u, run, d) =
      split_list-Done xs fuel s.page_free_list at_ps1 at_ps2
        (record { kernel = s; ps1 = none; ps2 = none }) enough
        (Distinct-Fresh s.pages_count xs few fresh) (Links-Chain xs free.chain) refl refl refl
        refl in
    let links = d.lows (high xs) d.highs in
    let count : u.kernel.pages_count ≡ s.pages_count = ap (λ (k : Kernel). k.pages_count) d.rest in
    rw (run) (
      Ends-mono
        (poison_list-Poisoned (sorted xs) fuel u.ps1 (set_free_list u.ps1 u.kernel)
          (omega (arith, length-sorted xs)) (omega (arith, count))
          (rw count (Within-Fresh s.pages_count (sorted xs) (Fresh-sorted s.pages_count xs fresh)))
          links)
        (λ _ t p. Sorted-Done s t u xs free d p))
