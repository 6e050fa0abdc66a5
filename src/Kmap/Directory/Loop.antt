-- ===== src/Kmap/Directory/Loop.antt =====
-- The parts of `check_kern_pgdir`: one test, and a loop of tests.
use cezos.Base.{
  ℕ, zero, suc, ◌+◌, ◌*◌, ◌<◌, ◌==◌, ◌≡◌, ◌↔◌, refl, ap, sym, ◌∙◌, Bool, true, false, Bool-cases,
  if◌then◌else◌, inl, inr, arith, ==_refl, eq_of_==,
}
use mathlib.Core.Bool.{true≢false}
use cezos.Mmu.{ptx, pte_addr, pdx, is_page_present}
use cezos.Kmap.State.{Kernel, Run, ok, hang, fault, Cmd, pure, and_then}
use cezos.Kmap.Addr.{kaddr}
use cezos.Kmap.Table.{check_va2pa, load_pte, entry_of, PtePtr, null, wild, slot}
use cezos.Kmap.Directory.{for_each, require, require_va}

-- A run that ends leaves the state as it was.
abbrev pub Keeps : {A : Type 0} → Run A → Kernel → Type 0
Keeps {A} r s = (a : A) (t : Kernel) → r ≡ ok a t → t ≡ s

abbrev pub state_of : {A : Type 0} → Run A → Kernel → Kernel
state_of (ok a t) s = t
state_of hang s = s
state_of fault s = s

pub Keeps-ok : {A : Type 0} (a : A) (s : Kernel) → Keeps (ok a s) s
Keeps-ok a s b t e = sym (ap (λ r. state_of r s) e)

pub Keeps-and_then :
    {A B : Type 0} (r : Run A) (k : A → Cmd B) (s : Kernel)
    → Keeps r s
    → ((a : A) → Keeps (k a s) s)
    → Keeps (and_then r k) s
Keeps-and_then (ok a t) k s h h' b u e = h' a b u (rw (h a t refl) at e)
Keeps-and_then hang k s h h' b u e = absurd cc
Keeps-and_then fault k s h h' b u e = absurd cc

-- Both parts of a run that ends and keeps the state.
pub and_then-ok :
    {A : Type 0} (r : Run A) (k : A → Cmd (Unit {0})) (s : Kernel)
    → Keeps r s
    → and_then r k ≡ ok tt s
    → (a : A) × (r ≡ ok a s) × (k a s ≡ ok tt s)
and_then-ok (ok a t) k s h e = (a, ap (λ u. ok a u) (h a t refl), rw (h a t refl) at e)
and_then-ok hang k s h e = absurd cc
and_then-ok fault k s h e = absurd cc

pub check_va2pa-Keeps : (d va : ℕ) (s : Kernel) → Keeps (check_va2pa d va s) s
unfolding check_va2pa load_pte
check_va2pa-Keeps d va s = elim (Bool-cases (is_page_present (s.frame d (pdx va)) == 0)) [
  | inl absent ↦ rw absent (Keeps-ok _ s)
  | inr present ↦ rw present (by_pte (entry_of (kaddr s (pte_addr (s.frame d (pdx va)))) (ptx va)))
]
  where
    by_pte :
        (pte : PtePtr)
        → Keeps
            (and_then (load_pte pte s) (λ entry.
              if is_page_present entry == 0 then pure 0xffff_ffff else pure (pte_addr entry)))
            s
    by_pte null = λ a t e. absurd cc
    by_pte (wild x) = λ a t e. absurd cc
    by_pte (slot p i) = elim (Bool-cases (is_page_present (s.frame p i) == 0)) [
      | inl absent ↦ rw absent (Keeps-ok _ s)
      | inr present ↦ rw present (Keeps-ok _ s)
    ]

pub require-Keeps : (b : Bool) (s : Kernel) → Keeps (require b s) s
unfolding require
require-Keeps true s = Keeps-ok tt s
require-Keeps false s = λ a t e. absurd cc

pub require-ok : (b : Bool) (s : Kernel) → (require b s ≡ ok tt s) ↔ (b ≡ true)
unfolding require
require-ok true s = (λ e. refl, λ e. refl)
require-ok false s = (λ e. absurd cc, λ e. absurd (true≢false (sym e)))

-- An address passes exactly if the directory translates it to the address that is wanted.
pub require_va-Keeps : (d va pa : ℕ) (s : Kernel) → Keeps (require_va d va pa s) s
unfolding require_va
require_va-Keeps d va pa s =
    Keeps-and_then (check_va2pa d va s) (λ res. require (res == pa)) s (check_va2pa-Keeps d va s)
      (λ res. require-Keeps (res == pa) s)

pub require_va-ok :
    (d va pa : ℕ) (s : Kernel) → (require_va d va pa s ≡ ok tt s) ↔ (check_va2pa d va s ≡ ok pa s)
unfolding require_va
require_va-ok d va pa s = (
  λ e.
      let (res, run, test) =
        and_then-ok (check_va2pa d va s) (λ res. require (res == pa)) s (check_va2pa-Keeps d va s)
          e in
      run ∙ ap (λ (r : ℕ). ok r s) (eq_of_== res pa ((require-ok (res == pa) s).0 test)),
  λ e. rw e ((require-ok (pa == pa) s).1 (==_refl pa)),
)

-- A loop passes exactly if every round does.
module _ (body : ℕ → Cmd (Unit {0})) (step : ℕ) (s : Kernel)
    (keeps : (i : ℕ) → Keeps (body i s) s) where
  pub for_each-Keeps : (n i : ℕ) → Keeps (for_each body step i n s) s
  unfolding for_each
  for_each-Keeps zero i = Keeps-ok tt s
  for_each-Keeps (suc n) i =
      Keeps-and_then (body i s) (λ _. for_each body step (i + step) n) s (keeps i)
        (λ _. for_each-Keeps n (i + step))

  pub for_each-ok :
      (n i : ℕ)
      → (for_each body step i n s ≡ ok tt s) ↔ ((k : ℕ) → k < n → body (i + step * k) s ≡ ok tt s)
  unfolding for_each
  for_each-ok zero i = (λ e k lt. absurd (omega arith), λ h. refl)
  for_each-ok (suc n) i = (
    λ e k lt.
        let (u, first, rest) =
          and_then-ok (body i s) (λ _. for_each body step (i + step) n) s (keeps i) e in
        later first ((for_each-ok n (i + step)).0 rest) k lt,
    λ h.
        let first : body i s ≡ ok tt s = start (h 0 (omega arith)) in
        rw first ((for_each-ok n (i + step)).1 (λ k lt. shift k (h (suc k) (omega arith)))),
  )
    where
      at : (a b : ℕ) → a ≡ b → body a s ≡ ok tt s → body b s ≡ ok tt s
      at a b e h = rw (← e) h

      start : body (i + step * 0) s ≡ ok tt s → body i s ≡ ok tt s
      start h = at (i + step * 0) i (omega arith) h

      shift : (k : ℕ) → body (i + step * suc k) s ≡ ok tt s → body (i + step + step * k) s ≡ ok tt s
      shift k h = at (i + step * suc k) (i + step + step * k) (grind arith) h

      later :
          body i s ≡ ok tt s
          → ((k : ℕ) → k < n → body (i + step + step * k) s ≡ ok tt s)
          → (k : ℕ) → k < suc n
          → body (i + step * k) s ≡ ok tt s
      later first rest zero lt = at i (i + step * 0) (omega arith) first
      later first rest (suc k) lt =
          at (i + step + step * k) (i + step * suc k) (grind arith) (rest k (omega arith))

  -- The same from 0 on.
  pub for_each-zero :
      (n : ℕ)
      → (for_each body step 0 n s ≡ ok tt s) ↔ ((k : ℕ) → k < n → body (step * k) s ≡ ok tt s)
  for_each-zero n = (
    λ e k lt. at (0 + step * k) (step * k) (omega arith) ((for_each-ok n 0).0 e k lt),
    λ h. (for_each-ok n 0).1 (λ k lt. at (step * k) (0 + step * k) (omega arith) (h k lt)),
  )
    where
      at : (a b : ℕ) → a ≡ b → body a s ≡ ok tt s → body b s ≡ ok tt s
      at a b e h = rw (← e) h
