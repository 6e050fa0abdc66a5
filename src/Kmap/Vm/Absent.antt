-- ===== src/Kmap/Vm/Absent.antt =====
-- The count of absent directory entries.
use cezos.Base.{ℕ, zero, suc, ◌%◌, ◌<◌, ◌≤◌, ◌≡◌, ◌≢◌, ◌⊎◌, inl, inr, refl, arith}
use native.Mathlib.Decide.{ℕ_discrete}
use cezos.Kmap.Vm.{Odd, absent}

pub parity : (e : ℕ) → Odd e ⊎ (e % 2 ≡ 0)
parity e = elim (ℕ_discrete (e % 2) 1) [ yes h ↦ inl h | no h ↦ inr (omega arith) ]

pub absent-eq : {f g : ℕ → ℕ} (n : ℕ) → ((j : ℕ) → j < n → g j ≡ f j) → absent g n ≡ absent f n
unfolding absent
absent-eq zero same = refl
absent-eq {f} {g} (suc n) same =
    ground (arith, same n, absent-eq {f = f} {g = g} n (λ j h. same j (omega arith)))

-- To enter one absent entry makes the count one less.
pub absent-entered :
    {f g : ℕ → ℕ} (i n : ℕ)
    → f i % 2 ≡ 0
    → Odd (g i)
    → ((j : ℕ) → j ≢ i → g j ≡ f j)
    → i < n
    → absent f n ≡ suc (absent g n)
unfolding absent
absent-entered i zero even odd same h = absurd (omega arith)
absent-entered {f} {g} i (suc n) even odd same h = elim (ℕ_discrete i n) [
  | yes e ↦
      let even_n : f n % 2 ≡ 0 = rw e at even in
      let odd_n : g n % 2 ≡ 1 = rw e at odd in
      ground (arith, absent-eq {f = f} {g = g} n (λ j below. same j (omega arith)))
  | no e ↦ ground (arith, same n, absent-entered {f = f} {g = g} i n even odd same)
]

pub absent-le : (f : ℕ → ℕ) (n : ℕ) → absent f n ≤ n
unfolding absent
absent-le f zero = omega arith
absent-le f (suc n) = ground (arith, absent-le f n)

-- An entry that is absent is counted.
pub absent_pos : (f : ℕ → ℕ) (i n : ℕ) → f i % 2 ≡ 0 → i < n → 0 < absent f n
unfolding absent
absent_pos f i zero even h = absurd (omega arith)
absent_pos f i (suc n) even h = elim (ℕ_discrete i n) [
  | yes e ↦ let even_n : f n % 2 ≡ 0 = rw e at even in ground arith
  | no e ↦ omega (arith, absent_pos f i n even (omega arith))
]
