-- ===== src/Kmap/Check/Poison.antt =====
-- The second loop of `check_page_list`: the pattern in the free pages of the first 4 MB.
use cezos.Base.{
  ℕ, zero, suc, ◌≤◌, ◌<◌, ◌==◌, ltb, ◌≡◌, refl, ap, ◌∙◌, if◌then◌else◌, Bool, true, false, not,
  ◌||◌, ◌&&◌, Bool-cases, inl, inr, Option, List, [], ◌∷◌, length, arith,
}
use cezos.Kmap.State.{Kernel, ok, fill_frame}
use cezos.Kmap.Addr.Laws.{max_pages, page2kva-page, pgnum-page_kva}
use cezos.Kmap.FreeList.{has, Ends, ends, Ends-mono}
use cezos.Kmap.Check.{is_high, fill_word, poison, poison_list}
use cezos.Kmap.Check.Places.{Links, is_high_lem}

abbrev pub Within : ℕ → List ℕ → Type 0
Within n [] = Unit {0}
Within n (p ∷ ys) = (p < n) × Within n ys

-- What one page of the list becomes.
abbrev poisoned : ℕ → Kernel → Kernel
poisoned p s = record s { frame = λ q i. if ltb p 1024 && (q == p) then 0x97 else s.frame q i }

pattern_lem : fill_word 0x97 ≡ 0x97
unfolding fill_word
pattern_lem = refl

poison-ok :
    (p : ℕ) (s : Kernel)
    → s.pages_count ≤ max_pages
    → p < s.pages_count
    → poison 1 p s ≡ ok tt (poisoned p s)
unfolding poison fill_frame
poison-ok p s few lt = elim (Bool-cases (ltb p 1024)) [
  | inl is_low ↦
      let test : is_high 1 p ≡ false = is_high_lem p (omega arith) ∙ ap not is_low in
      rw
        (
          poison,
          test,
          page2kva-page s p few lt,
          pgnum-page_kva p (omega arith),
          pattern_lem,
          is_low,
        )
        refl
  | inr above ↦
      let test : is_high 1 p ≡ true = is_high_lem p (omega arith) ∙ ap not above in
      rw (poison, test, above) refl
]

-- The words of the pages of the list in the first 4 MB hold the pattern, and nothing else changes.
pub record Poisoned (ys : List ℕ) (s t : Kernel) : Type 0 where
  pub rest : t ≡ record s { frame = t.frame }
  pub cells : (q i : ℕ) → t.frame q i ≡ (if has q ys && ltb q 1024 then 0x97 else s.frame q i)

Poisoned-cons :
    (p : ℕ) (ys : List ℕ) (s t : Kernel) → Poisoned ys (poisoned p s) t → Poisoned (p ∷ ys) s t
Poisoned-cons p ys s t h = record {
  rest = h.rest;
  cells = λ q i. h.cells q i ∙ cell (has q ys) q (s.frame q i);
}
  where
    cell :
        (b : Bool) (q v : ℕ)
        → (if b && ltb q 1024 then 0x97 else if ltb p 1024 && (q == p) then 0x97 else v)
          ≡ (if (q == p || b) && ltb q 1024 then 0x97 else v)
    cell true q v = ground arith
    cell false q v = ground arith

pub poison_list-Poisoned :
    (ys : List ℕ) (fuel : ℕ) (head : Option ℕ) (s : Kernel)
    → length ys ≤ fuel
    → s.pages_count ≤ max_pages
    → Within s.pages_count ys
    → Links s.pages head ys
    → Ends (λ _ t. Poisoned ys s t) (poison_list 1 fuel head s)
unfolding poison_list
poison_list-Poisoned [] fuel head s enough few within h =
    rw h (ends (record { rest = refl; cells = λ q i. refl }))
poison_list-Poisoned (p ∷ ys) zero head s enough few within h = absurd (omega arith)
poison_list-Poisoned (p ∷ ys) (suc fuel) head s enough few (lt, within) (e, h) =
    rw (e, poison_list, poison-ok p s few lt)
      (Ends-mono
        (poison_list-Poisoned ys fuel (s.pages p).next_free (poisoned p s) (omega arith) few within
          h)
        (λ _ t d. Poisoned-cons p ys s t d))
