-- ===== src/Kmap/Check/Places.antt =====
-- The places that `check_page_list` writes to, and the lists that it makes.
use cezos.Base.{
  ℕ, ◌<◌, ◌==◌, ltb, ◌≡◌, refl, if◌then◌else◌, Bool, true, false, not, Option, none, some, List, [],
  ◌∷◌, arith,
}
use mathlib.Core.Bool.{true≢false}
use cezos.Mmu.{pdx}
use cezos.Kmap.State.{PageStatus, update}
use cezos.Kmap.Addr.{page2pa}
use cezos.Kmap.Addr.Laws.{max_pages}
use cezos.Kmap.Pages.{set_next}
use cezos.Kmap.FreeList.{has}
use cezos.Kmap.Check.{Place, at_ps1, at_ps2, at_link, Lists, assign, is_high}

-- The pages of the first 4 MB, and the others, in order.
abbrev pub low : List ℕ → List ℕ
low [] = []
low (p ∷ xs) = let rest = low xs in if ltb p 1024 then p ∷ rest else rest

abbrev pub high : List ℕ → List ℕ
high [] = []
high (p ∷ xs) = let rest = high xs in if ltb p 1024 then rest else p ∷ rest

-- The links lead from `head` through the list to NULL.
abbrev pub Links : (ℕ → PageStatus) → Option ℕ → List ℕ → Type 0
Links pages head [] = head ≡ none
Links pages head (p ∷ xs) = (head ≡ some p) × Links pages (pages p).next_free xs

abbrev pub Distinct : List ℕ → Type 0
Distinct [] = Unit {0}
Distinct (p ∷ xs) = (has p xs ≡ false) × (p < max_pages) × Distinct xs

-- What stands at a place.
abbrev pub read : Place → Lists → Option ℕ
read at_ps1 st = st.ps1
read at_ps2 st = st.ps2
read (at_link p) st = (st.kernel.pages p).next_free

abbrev pub same_place : Place → Place → Bool
same_place at_ps1 at_ps1 = true
same_place at_ps1 at_ps2 = false
same_place at_ps1 (at_link p) = false
same_place at_ps2 at_ps1 = false
same_place at_ps2 at_ps2 = true
same_place at_ps2 (at_link p) = false
same_place (at_link p) at_ps1 = false
same_place (at_link p) at_ps2 = false
same_place (at_link p) (at_link q) = p == q

-- The place is not the link of a page of the list.
abbrev pub on : Place → List ℕ → Bool
on at_ps1 xs = false
on at_ps2 xs = false
on (at_link p) xs = has p xs

pub read-assign : (tp : Place) (v : Option ℕ) (st : Lists) → read tp (assign tp v st) ≡ v
unfolding assign set_next update
read-assign at_ps1 v st = refl
read-assign at_ps2 v st = refl
read-assign (at_link p) v st = ground arith

pub read-assign_other :
    (q tp : Place) (v : Option ℕ) (st : Lists)
    → same_place q tp ≡ false
    → read q (assign tp v st) ≡ read q st
unfolding assign set_next update
read-assign_other at_ps1 at_ps1 v st ne = absurd (true≢false ne)
read-assign_other at_ps1 at_ps2 v st ne = refl
read-assign_other at_ps1 (at_link p) v st ne = refl
read-assign_other at_ps2 at_ps1 v st ne = refl
read-assign_other at_ps2 at_ps2 v st ne = absurd (true≢false ne)
read-assign_other at_ps2 (at_link p) v st ne = refl
read-assign_other (at_link q) at_ps1 v st ne = refl
read-assign_other (at_link q) at_ps2 v st ne = refl
read-assign_other (at_link q) (at_link p) v st ne = ground arith

pub refs-assign :
    (tp : Place) (v : Option ℕ) (st : Lists) (p : ℕ)
    → ((assign tp v st).kernel.pages p).refs ≡ (st.kernel.pages p).refs
unfolding assign set_next update
refs-assign at_ps1 v st p = refl
refs-assign at_ps2 v st p = refl
refs-assign (at_link q) v st p = ground arith

pub kernel-assign :
    (tp : Place) (v : Option ℕ) (st : Lists)
    → (assign tp v st).kernel ≡ record st.kernel { pages = (assign tp v st).kernel.pages }
unfolding assign set_next
kernel-assign at_ps1 v st = refl
kernel-assign at_ps2 v st = refl
kernel-assign (at_link q) v st = refl

pub other_link :
    (p : ℕ) (tp : Place) (xs : List ℕ) → on tp (p ∷ xs) ≡ false → same_place (at_link p) tp ≡ false
other_link p at_ps1 xs out = refl
other_link p at_ps2 xs out = refl
other_link p (at_link q) xs out = ground arith

pub link_other :
    (p : ℕ) (tp : Place) (xs : List ℕ) → on tp (p ∷ xs) ≡ false → same_place tp (at_link p) ≡ false
link_other p at_ps1 xs out = refl
link_other p at_ps2 xs out = refl
link_other p (at_link q) xs out = ground arith

pub on_rest : (p : ℕ) (tp : Place) (xs : List ℕ) → on tp (p ∷ xs) ≡ false → on tp xs ≡ false
on_rest p at_ps1 xs out = refl
on_rest p at_ps2 xs out = refl
on_rest p (at_link q) xs out = ground arith

-- A write to another place keeps the links of a list.
pub Links-assign :
    (xs : List ℕ) (head : Option ℕ) (tp : Place) (v : Option ℕ) (st : Lists)
    → on tp xs ≡ false
    → Links st.kernel.pages head xs
    → Links (assign tp v st).kernel.pages head xs
Links-assign [] head tp v st out h = h
Links-assign (p ∷ xs) head tp v st out (e, h) =
    let same : ((assign tp v st).kernel.pages p).next_free ≡ (st.kernel.pages p).next_free =
      read-assign_other (at_link p) tp v st (other_link p tp xs out) in
    (e, rw same (Links-assign xs (st.kernel.pages p).next_free tp v st (on_rest p tp xs out) h))

-- `is_high` of a page of the machine.
pub is_high_lem : (p : ℕ) → p < max_pages → is_high 1 p ≡ not (ltb p 1024)
unfolding is_high pdx page2pa
is_high_lem p h = ground arith
