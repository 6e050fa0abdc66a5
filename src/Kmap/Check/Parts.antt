-- ===== src/Kmap/Check/Parts.antt =====
-- A list of pages in two parts: those of the first 4 MB and the others.
use cezos.Base.{
  ℕ, ◌+◌, ◌≤◌, ◌<◌, ltb, ◌≡◌, refl, ◌∙◌, true, false, not, ◌||◌, ◌&&◌, Bool-cases, inl, inr, List,
  [], ◌∷◌, ◌++◌, length, arith, length-append,
}
use cezos.Kmap.Addr.Laws.{max_pages}
use cezos.Kmap.FreeList.{has}
use cezos.Kmap.Check.Places.{low, high, Distinct}
use cezos.Kmap.Check.Poison.{Within}

-- Which pages are on the lists.
pub has-append : (q : ℕ) (xs ys : List ℕ) → has q (xs ++ ys) ≡ (has q xs || has q ys)
has-append q [] ys = refl
has-append q (p ∷ xs) ys = ground (arith, has-append q xs ys)

pub has-low : (q : ℕ) (xs : List ℕ) → has q (low xs) ≡ (ltb q 1024 && has q xs)
has-low q [] = ground arith
has-low q (p ∷ xs) = ground (arith, has-low q xs)

pub has-high : (q : ℕ) (xs : List ℕ) → has q (high xs) ≡ (not (ltb q 1024) && has q xs)
has-high q [] = ground arith
has-high q (p ∷ xs) = ground (arith, has-high q xs)

abbrev pub sorted : List ℕ → List ℕ
sorted xs = low xs ++ high xs

pub has-sorted : (q : ℕ) (xs : List ℕ) → has q (sorted xs) ≡ has q xs
has-sorted q xs = has-append q (low xs) (high xs) ∙ ground (arith, has-low q xs, has-high q xs)

pub length-sorted : (xs : List ℕ) → length (sorted xs) ≡ length xs
length-sorted xs = length-append (low xs) (high xs) ∙ both xs
  where
    both : (xs : List ℕ) → length (low xs) + length (high xs) ≡ length xs
    both [] = refl
    both (p ∷ xs) = ground (arith, both xs)

module _ (n : ℕ) where
  -- A list of distinct pages below `n`, as it stands in the free list.
  abbrev pub Fresh : List ℕ → Type 0
  Fresh [] = Unit {0}
  Fresh (p ∷ xs) = (has p xs ≡ false) × (p < n) × Fresh xs

  pub Fresh-low : (xs : List ℕ) → Fresh xs → Fresh (low xs)
  Fresh-low [] h = tt
  Fresh-low (p ∷ xs) (new, lt, h) = elim (Bool-cases (ltb p 1024)) [
    | inl is_low ↦ rw is_low (has-low p xs ∙ ground arith, lt, Fresh-low xs h)
    | inr above ↦ rw above (Fresh-low xs h)
  ]

  pub Fresh-high : (xs : List ℕ) → Fresh xs → Fresh (high xs)
  Fresh-high [] h = tt
  Fresh-high (p ∷ xs) (new, lt, h) = elim (Bool-cases (ltb p 1024)) [
    | inl is_low ↦ rw is_low (Fresh-high xs h)
    | inr above ↦ rw above (has-high p xs ∙ ground arith, lt, Fresh-high xs h)
  ]

  pub Fresh-append :
      (xs ys : List ℕ)
      → Fresh xs
      → Fresh ys
      → ((q : ℕ) → has q xs ≡ true → has q ys ≡ false)
      → Fresh (xs ++ ys)
  Fresh-append [] ys h h' apart = h'
  Fresh-append (p ∷ xs) ys (new, lt, h) h' apart = (
    has-append p xs ys ∙ ground (arith, new, apart p (here p xs)),
    lt,
    Fresh-append xs ys h h' (λ q on. apart q (there q p xs on)),
  )
    where
      here : (p : ℕ) (xs : List ℕ) → has p (p ∷ xs) ≡ true
      here p xs = ground arith

      there : (q p : ℕ) (xs : List ℕ) → has q xs ≡ true → has q (p ∷ xs) ≡ true
      there q p xs on = ground arith

  pub Fresh-sorted : (xs : List ℕ) → Fresh xs → Fresh (sorted xs)
  Fresh-sorted xs h =
      Fresh-append (low xs) (high xs) (Fresh-low xs h) (Fresh-high xs h)
        (λ q on. has-high q xs ∙ ground (arith, has-low q xs, on))

  pub Distinct-Fresh : (xs : List ℕ) → n ≤ max_pages → Fresh xs → Distinct xs
  Distinct-Fresh [] few h = tt
  Distinct-Fresh (p ∷ xs) few (new, lt, h) = (new, omega arith, Distinct-Fresh xs few h)

  pub Within-Fresh : (xs : List ℕ) → Fresh xs → Within n xs
  Within-Fresh [] h = tt
  Within-Fresh (p ∷ xs) (new, lt, h) = (lt, Within-Fresh xs h)
