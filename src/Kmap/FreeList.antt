-- ===== src/Kmap/FreeList.antt =====
-- The free list of kmap.c as a list of page numbers.
use cezos.Base.{
  ℕ, ◌==◌, ◌<◌, ◌≡◌, refl, Bool, true, false, ◌||◌, Option, none, some, List, [], ◌∷◌, arith,
}
use cezos.Kmap.State.{Kernel, PageStatus, Run, ok, Cmd, and_then, update}

-- Total correctness of a run: it ends, without a fault, in a state with `P`.
pub data Ends {A : Type 0} (P : A → Kernel → Type 0) : Run A → Type 0 where
  ends : {a : A} {s : Kernel} → P a s → Ends P (ok a s)

module _ {A B : Type 0} {P : A → Kernel → Type 0} {Q : B → Kernel → Type 0} where
  pub Ends-and_then :
      {r : Run A} {k : A → Cmd B}
      → Ends P r
      → ((a : A) (s : Kernel) → P a s → Ends Q (k a s))
      → Ends Q (and_then r k)
  Ends-and_then (ends p) next = next _ _ p

pub Ends-mono :
    {A : Type 0} {P Q : A → Kernel → Type 0} {r : Run A}
    → Ends P r
    → ((a : A) (s : Kernel) → P a s → Q a s)
    → Ends Q r
Ends-mono (ends p) weaken = ends (weaken _ _ p)

abbrev pub has : ℕ → List ℕ → Bool
has p [] = false
has p (q ∷ xs) = p == q || has p xs

-- From `head` the `next_free` links lead through the distinct unreferenced pages of the list.
pub data Chain (pages : ℕ → PageStatus) : Option ℕ → List ℕ → Type 0 where
  stop : Chain pages none []
  link :
      {p : ℕ} {q : Option ℕ} {xs : List ℕ}
      → (pages p).next_free ≡ q
      → (pages p).refs ≡ 0
      → has p xs ≡ false
      → Chain pages q xs
      → Chain pages (some p) (p ∷ xs)

-- Pages that are not on the list may change.
pub Chain-update :
    {pages : ℕ → PageStatus} {head : Option ℕ} {xs : List ℕ} (i : ℕ) (v : PageStatus)
    → has i xs ≡ false
    → Chain pages head xs
    → Chain (update pages i v) head xs
unfolding update
Chain-update i v out stop = stop
Chain-update i v out (link {p} next unref new rest) =
    link (ground arith) (ground arith) new (Chain-update i v (ground arith) rest)

pub record IsFreeList (s : Kernel) (xs : List ℕ) : Type 0 where
  pub chain : Chain s.pages s.page_free_list xs
  pub within : (p : ℕ) → has p xs ≡ true → p < s.pages_count

-- What a chain of known pages says of its head.
module _ {pages : ℕ → PageStatus} where
  pub Chain-nil : {head : Option ℕ} → Chain pages head [] → head ≡ none
  Chain-nil stop = refl

  pub Chain-cons :
      {head : Option ℕ} {p : ℕ} {xs : List ℕ}
      → Chain pages head (p ∷ xs)
      → (head ≡ some p)
        × ((pages p).refs ≡ 0)
        × (has p xs ≡ false)
        × Chain pages (pages p).next_free xs
  Chain-cons (link next unref new rest) = (refl, unref, new, rw next rest)
