-- ===== src/Kmap/References/Counted.antt =====
-- The descriptors always agree with the references that the clients hold.
use cezos.Base.{
  ℕ, suc, ◌+◌, ◌≤◌, ◌<◌, ◌==◌, ◌&&◌, ◌≡◌, ◌≢◌, refl, ap, ◌∙◌, true, false, none, Option, List, [],
  ◌∷◌, length, if◌then◌else◌, Bool-cases, inl, inr, eq_of_==, arith, bit_and,
}
use cezos.Mmu.{word_size}
use cezos.Kmap.State.{PageStatus, Kernel, update, fill_frame}
use cezos.Kmap.Pages.{page_zero_filled, incref, set_refs}
use cezos.Kmap.FreeList.{has, Chain, IsFreeList, Chain-update, Chain-cons}
use cezos.Kmap.Alloc.{Allocated, Freed}
use cezos.Kmap.References.{count, remove}

count-remove :
    (p q : ℕ) (xs : List ℕ)
    → (count p xs == 0) ≡ false
    → count q (remove p xs) + (if q == p then 1 else 0) ≡ count q xs
count-remove p q [] held = absurd (ground arith)
count-remove p q (r ∷ xs) held = ground (arith, count-remove p q xs)

pub count-le-length : (p : ℕ) (xs : List ℕ) → count p xs ≤ length xs
count-le-length p [] = omega arith
count-le-length p (q ∷ xs) = ground (arith, count-le-length p xs)

pub length-remove : (p : ℕ) (xs : List ℕ) → length (remove p xs) ≤ length xs
length-remove p [] = omega arith
length-remove p (q ∷ xs) = ground (arith, length-remove p xs)

-- The pages of `base` are shared by the free list and the clients: a page is free exactly if no client
-- holds it, and otherwise its count is the number of references.
pub record IsCounted (base : List ℕ) (s : Kernel) (held left : List ℕ) (t : Kernel) : Type 0 where
  pub free : IsFreeList t left
  pub bounded : (p : ℕ) → has p base ≡ true → p < s.pages_count
  pub free_iff : (p : ℕ) → has p left ≡ (has p base && (count p held == 0))
  pub refs : (p : ℕ) → has p base ≡ true → (t.pages p).refs ≡ count p held
  pub ours : (p : ℕ) → (count p held == 0) ≡ false → has p base ≡ true
  pub unlinked : (p : ℕ) → (count p held == 0) ≡ false → (t.pages p).next_free ≡ none
  pub others : (p : ℕ) → has p base ≡ false → t.pages p ≡ s.pages p
  pub memory : (p i : ℕ) → has p base ≡ false → t.frame p i ≡ s.frame p i
  pub size : t.pages_count ≡ s.pages_count

module _ {base : List ℕ} {s t : Kernel} {held : List ℕ} where
  module _ {p : ℕ} {xs : List ℕ} (c : IsCounted base s held (p ∷ xs) t) where
    head-has : (q : ℕ) → has q (p ∷ xs) ≡ (has q base && (count q held == 0))
    head-has q = c.free_iff q

    -- A page of the clients is filled at most when it is taken.
    other_frame :
        (flags q i : ℕ)
        → q ≢ p
        → (if bit_and flags page_zero_filled == page_zero_filled
              then fill_frame t.frame p 0
              else t.frame)
            q i
          ≡ t.frame q i
    unfolding fill_frame
    other_frame flags q i ne =
        elim (Bool-cases (bit_and flags page_zero_filled == page_zero_filled)) [
          | inl zero_filled ↦ rw zero_filled (ground arith)
          | inr same ↦ rw same refl
        ]

    pub acquired-IsCounted :
        {flags r : ℕ} {u : Kernel}
        → Allocated flags t p xs r u
        → IsCounted base s (p ∷ held) xs (incref p u)
    unfolding incref set_refs update
    acquired-IsCounted {flags} a =
        let new = (Chain-cons c.free.chain).2 in
        record {
          free = record {
            chain = Chain-update p _ new a.chain;
            within = λ q h. omega (arith, a.count, c.free.within q (ground arith));
          };
          bounded = c.bounded;
          free_iff = λ q. ground (arith, head-has q, new);
          refs = λ q h. ground (arith, c.refs q h, a.others q, a.cleared, head-has p);
          ours = λ q h. ground (arith, c.ours q, head-has p);
          unlinked = λ q h. ground (arith, c.unlinked q, a.others q, a.cleared);
          others = λ q h. ground (arith, c.others q h, a.others q, head-has p);
          memory = λ q i h.
              ap (λ (f : ℕ → ℕ → ℕ). f q i) a.memory
              ∙ other_frame flags q i (ground (arith, head-has p))
              ∙ c.memory q i h;
          size = a.count ∙ c.size;
        }

  module _ {left : List ℕ} (c : IsCounted base s held left t) (p : ℕ)
      (held_p : (count p held == 0) ≡ false) where
    pub not_free : has p left ≡ false
    not_free = c.free_iff p ∙ ground arith

    pub shared-IsCounted :
        count p held + 1 < word_size → IsCounted base s (p ∷ held) left (incref p t)
    unfolding incref set_refs update
    shared-IsCounted small = record {
      free = record { chain = Chain-update p _ not_free c.free.chain; within = c.free.within };
      bounded = c.bounded;
      free_iff = λ q. ground (arith, c.free_iff q);
      refs = λ q h. ground (arith, c.refs q h, c.refs p (c.ours p held_p));
      ours = λ q h. ground (arith, c.ours q, c.ours p held_p);
      unlinked = λ q h. ground (arith, c.unlinked q, c.unlinked p held_p);
      others = λ q h. ground (arith, c.others q h, c.ours p held_p);
      memory = c.memory;
      size = c.size;
    }

    -- The last reference but one, and the last one.
    pub less-IsCounted :
        (n : ℕ)
        → count p held ≡ suc (suc n)
        → IsCounted base s (remove p held) left (set_refs p (suc n) t)
    unfolding set_refs update
    less-IsCounted n two = record {
      free = record { chain = Chain-update p _ not_free c.free.chain; within = c.free.within };
      bounded = c.bounded;
      free_iff = λ q. ground (arith, c.free_iff q, count-remove p q held held_p);
      refs = λ q h. ground (arith, c.refs q h, count-remove p q held held_p);
      ours = λ q h. ground (arith, c.ours q, count-remove p q held held_p);
      unlinked = λ q h. ground (arith, c.unlinked q, count-remove p q held held_p);
      others = λ q h. ground (arith, c.others q h, c.ours p held_p);
      memory = c.memory;
      size = c.size;
    }

    pub Freed-IsCounted :
        {u : Kernel}
        → count p held ≡ 1
        → Freed t p left u
        → IsCounted base s (remove p held) (p ∷ left) u
    Freed-IsCounted one f =
        let in_range : p < t.pages_count = omega (arith, c.size, c.bounded p (c.ours p held_p)) in
        let unref = (Chain-cons f.chain).1 in
        record {
          free = record {
            chain = f.chain;
            within = λ q h. ground (arith, in_range, f.count, c.free.within q);
          };
          bounded = c.bounded;
          free_iff =
              λ q. ground (arith, c.free_iff q, count-remove p q held held_p, c.ours p held_p);
          refs = λ q h. ground (arith, c.refs q h, f.others q, unref, count-remove p q held held_p);
          ours = λ q h. ground (arith, c.ours q, count-remove p q held held_p);
          unlinked = λ q h. ground (arith, c.unlinked q, f.others q, count-remove p q held held_p);
          others = λ q h. ground (arith, c.others q h, f.others q, c.ours p held_p);
          memory = λ q i h. ap (λ (m : ℕ → ℕ → ℕ). m q i) f.memory ∙ c.memory q i h;
          size = f.count ∙ c.size;
        }

refs-free :
    (xs : List ℕ) {pages : ℕ → PageStatus} {head : Option ℕ} (q : ℕ)
    → Chain pages head xs
    → has q xs ≡ true
    → (pages q).refs ≡ 0
refs-free [] q c on = absurd (ground arith)
refs-free (p ∷ xs) {pages} q c on =
    let (e, unref, new, rest) = Chain-cons c in
    elim (Bool-cases (q == p)) [
      | inl here ↦ rw (eq_of_== q p here) unref
      | inr there ↦ refs-free xs q rest (ground arith)
    ]

-- At the start nobody holds a page.
pub unused-IsCounted : {s : Kernel} (base : List ℕ) → IsFreeList s base → IsCounted base s [] base s
unused-IsCounted base free = record {
  free = free;
  bounded = free.within;
  free_iff = λ p. ground arith;
  refs = λ p h. refs-free base p free.chain h;
  ours = λ p h. absurd (ground arith);
  unlinked = λ p h. absurd (ground arith);
  others = λ p h. refl;
  memory = λ p i h. refl;
  size = refl;
}
