-- ===== src/Kmap/References/Calls.antt =====
-- Every sequence of calls leaves the descriptors in agreement with the references that are held.
use cezos.Base.{
  ℕ, zero, suc, ◌+◌, ◌≤◌, ◌<◌, ◌==◌, ◌≡◌, refl, ◌∙◌, false, List, [], ◌∷◌, length, Bool-cases, inl,
  inr, arith,
}
use cezos.Mmu.{word_size}
use cezos.Kmap.State.{Kernel, pure, and_then}
use cezos.Kmap.Addr.Laws.{max_pages}
use cezos.Kmap.Pages.{page_decref}
use cezos.Kmap.FreeList.{Ends, ends, Ends-and_then, IsFreeList}
use cezos.Kmap.Alloc.{page_alloc-cons, page_decref-one, page_decref-more}
use cezos.Kmap.References.{
  Call, acquire, share, release, count, remove, perform, perform_all, acquires,
}
use cezos.Kmap.References.Counted.{
  IsCounted, count-le-length, length-remove, acquired-IsCounted, not_free, shared-IsCounted,
  less-IsCounted, Freed-IsCounted, unused-IsCounted,
}

-- What a call leaves: it takes at most the pages that it asks for, and adds at most one reference.
After : List ℕ → Kernel → List ℕ → List ℕ → ℕ → List ℕ → Kernel → Type 0
After base s held left taken held' t =
    (left' : List ℕ) × IsCounted base s held' left' t
    × (length left ≤ length left' + taken)
    × (length held' ≤ length held + 1)

acquires-cons :
    (call : Call) (calls : List Call)
    → acquires (call ∷ calls) ≡ acquires (call ∷ []) + acquires calls
acquires-cons (acquire flags) calls = omega arith
acquires-cons (share p) calls = omega arith
acquires-cons (release p) calls = omega arith

module _ {base : List ℕ} {s : Kernel} (few : s.pages_count ≤ max_pages) where
  acquire-IsCounted :
      {t : Kernel} {held : List ℕ} (left : List ℕ) (flags : ℕ)
      → IsCounted base s held left t
      → 1 ≤ length left
      → Ends (After base s held left 1) (perform (acquire flags) held t)
  unfolding perform After
  acquire-IsCounted [] flags c room = absurd (omega arith)
  acquire-IsCounted (p ∷ xs) flags c room =
      Ends-and_then (page_alloc-cons flags (omega (arith, c.size)) c.free)
        λ r u a. rw (a.page) (ends (xs, acquired-IsCounted c a, omega arith, omega arith))

  share-IsCounted :
      {t : Kernel} (held left : List ℕ) (p : ℕ)
      → IsCounted base s held left t
      → length held + 1 < word_size
      → Ends (After base s held left 0) (perform (share p) held t)
  unfolding perform After
  share-IsCounted held left p c small = elim (Bool-cases (count p held == 0)) [
    | inl free ↦ rw free (ends (left, c, omega arith, omega arith))
    | inr held_p ↦ rw held_p (
        ends (
          left,
          shared-IsCounted c p held_p (omega (arith, count-le-length p held)),
          omega arith,
          omega arith,
        ))
  ]

  release-IsCounted :
      {t : Kernel} (held left : List ℕ) (p : ℕ)
      → IsCounted base s held left t
      → length held + 1 < word_size
      → Ends (After base s held left 0) (perform (release p) held t)
  unfolding perform After
  release-IsCounted {t} held left p c small = elim (Bool-cases (count p held == 0)) [
    | inl free ↦ rw free (ends (left, c, omega arith, omega arith))
    | inr held_p ↦ rw held_p (give_back held_p (count p held) refl)
  ]
    where
      give_back :
          (count p held == 0) ≡ false
          → (n : ℕ) → count p held ≡ n
          → Ends (After base s held left 0) (and_then (page_decref p t) (λ _. pure (remove p held)))
      give_back held_p zero e = absurd (ground arith)
      give_back held_p (suc zero) e =
          Ends-and_then
            (page_decref-one p (c.refs p (c.ours p held_p) ∙ e) (c.unlinked p held_p)
              (not_free c p held_p) c.free.chain)
            λ _ u f. ends (
              p ∷ left,
              Freed-IsCounted c p held_p e f,
              omega arith,
              omega (arith, length-remove p held),
            )
      give_back held_p (suc (suc n)) e =
          rw
            (page_decref-more t p n (c.refs p (c.ours p held_p) ∙ e)
              (omega (arith, count-le-length p held)))
            (ends (
              left,
              less-IsCounted c p held_p n e,
              omega arith,
              omega (arith, length-remove p held),
            ))

  call-IsCounted :
      {t : Kernel} (call : Call) (held left : List ℕ)
      → IsCounted base s held left t
      → acquires (call ∷ []) ≤ length left
      → length held + 1 < word_size
      → Ends (After base s held left (acquires (call ∷ []))) (perform call held t)
  call-IsCounted (acquire flags) held left c room small = acquire-IsCounted left flags c room
  call-IsCounted (share p) held left c room small = share-IsCounted held left p c small
  call-IsCounted (release p) held left c room small = release-IsCounted held left p c small

  calls-IsCounted :
      {t : Kernel} (calls : List Call) (held left : List ℕ)
      → IsCounted base s held left t
      → acquires calls ≤ length left
      → length held + length calls < word_size
      → Ends
          (λ held' u. (left' : List ℕ) × IsCounted base s held' left' u)
          (perform_all calls held t)
  unfolding perform_all After
  calls-IsCounted [] held left c room small = ends (left, c)
  calls-IsCounted (call ∷ calls) held left c room small =
      Ends-and_then
        (call-IsCounted call held left c (omega (arith, acquires-cons call calls)) (omega arith))
        λ held' u (left', c', used, grown).
          calls-IsCounted calls held' left' c' (omega (arith, acquires-cons call calls))
            (omega arith)

-- From a free list in order, every sequence of calls that takes no more pages than there are free,
-- and has fewer than 2 ^ 32 calls, ends without a fault. A page that was free at the start is then
-- free exactly if no client holds it, and its count is the number of references that are held; the
-- list is in order, and no other descriptor and no word of another page has changed.
pub perform_all-IsCounted :
    {s : Kernel} (base : List ℕ) (calls : List Call)
    → s.pages_count ≤ max_pages
    → IsFreeList s base
    → acquires calls ≤ length base
    → length calls < word_size
    → Ends (λ held t. (left : List ℕ) × IsCounted base s held left t) (perform_all calls [] s)
perform_all-IsCounted base calls few free room small =
    calls-IsCounted few calls [] base (unused-IsCounted base free) room (omega arith)
