-- ===== src/Str/Memory/Fill.antt =====
-- `memset`, `memcmp` and `memfind`.
use cezos.Base.{
  ℕ, zero, suc, ◌+◌, ◌-◌, ◌%◌, ◌≤◌, ◌<◌, ◌==◌, ◌≡◌, ◌≢◌, ◌↔◌, refl, ltb, leb, ◌&&◌, if◌then◌else◌,
  arith, inl, inr, Bool-cases, eq_of_==, ==_refl, true, false, ap,
}
use native.Mathlib.Decide.{dec_lt, ℕ_discrete}
use cezos.Base.Int.{pos, sub_ℕ}
use cezos.Str.Memory.{Mem, poke, mask, memset_loop, memset, memcmp, memfind}

memset_loop-at :
    (n i : ℕ) (m : Mem) (p c a : ℕ)
    → memset_loop m p c i n a ≡ (if leb p a && ltb a (p + n) then mask c (i + (a - p)) else m a)
unfolding memset_loop
memset_loop-at zero i m p c a = ground arith
memset_loop-at (suc n) i m p c a =
    let ih = memset_loop-at n (i + 1) (poke m p (mask c i)) (p + 1) c a in
    elim (dec_lt p a) [
      | yes above ↦
          let same : i + 1 + (a - (p + 1)) ≡ i + (a - p) = omega arith in
          ground (arith, ih, ap (mask c) same)
      | no low ↦ elim (ℕ_discrete a p) [
        | yes here ↦
            let first : i + (a - p) ≡ i = omega arith in ground (arith, ih, ap (mask c) first)
        | no below ↦ ground (arith, ih)
      ]
    ]

-- memset writes the four bytes of the int c in turn over the region, starting with the lowest one
-- at dst, and nothing outside of it.
pub memset-at :
    (m : Mem) (dst c len a : ℕ)
    → memset m dst c len a ≡ (if leb dst a && ltb a (dst + len) then mask c (a - dst) else m a)
unfolding memset
memset-at m dst c len a =
    ground (arith, memset_loop-at len 0 m dst c a, ap (mask c) (zero_plus (a - dst)))
  where
    zero_plus : (k : ℕ) → 0 + k ≡ k
    zero_plus k = omega arith

memcmp-zero :
    (n : ℕ) (m : Mem) (v1 v2 : ℕ)
    → memcmp m v1 v2 n ≡ pos 0
    → (i : ℕ) → i < n
    → m (v1 + i) ≡ m (v2 + i)
unfolding memcmp
memcmp-zero zero m v1 v2 h i lt = absurd (omega arith)
memcmp-zero (suc n) m v1 v2 h i lt = elim (Bool-cases (m v1 == m v2)) [
  | inl e ↦ elim (ℕ_discrete i 0) [
    | yes z ↦
        let at1 : v1 + i ≡ v1 = omega arith in
        let at2 : v2 + i ≡ v2 = omega arith in rw (at1, at2) (eq_of_== _ _ e)
    | no nz ↦
        let at1 : v1 + i ≡ v1 + 1 + (i - 1) = omega arith in
        let at2 : v2 + i ≡ v2 + 1 + (i - 1) = omega arith in
        rw (at1, at2) (memcmp-zero n m (v1 + 1) (v2 + 1) (rw e at h) (i - 1) (omega arith))
  ]
  | inr e ↦ absurd (differ (rw e at h) e)
]
  where
    differ : sub_ℕ (m v1) (m v2) ≡ pos 0 → (m v1 == m v2) ≡ false → ⊥
    differ h e = ground arith

memcmp-same :
    (n : ℕ) (m : Mem) (v1 v2 : ℕ)
    → ((i : ℕ) → i < n → m (v1 + i) ≡ m (v2 + i))
    → memcmp m v1 v2 n ≡ pos 0
unfolding memcmp
memcmp-same zero m v1 v2 same = refl
memcmp-same (suc n) m v1 v2 same =
    let here : (m v1 == m v2) ≡ true =
      at_start (v1 + 0) (v2 + 0) (omega arith) (omega arith) (same 0 (omega arith)) in
    rw here (
      memcmp-same n m (v1 + 1) (v2 + 1) (λ i lt.
        later i (v1 + suc i) (v2 + suc i) (omega arith) (omega arith) (same (suc i) (omega arith))))
  where
    at_start : (a b : ℕ) → a ≡ v1 → b ≡ v2 → m a ≡ m b → (m v1 == m v2) ≡ true
    at_start a b ea eb e = rw (← ea, ← eb, e) (==_refl (m b))

    later :
        (i a b : ℕ) → a ≡ v1 + 1 + i → b ≡ v2 + 1 + i → m a ≡ m b → m (v1 + 1 + i) ≡ m (v2 + 1 + i)
    later i a b ea eb e = rw (← ea, ← eb) e

-- memcmp returns 0 exactly if the two regions hold the same bytes.
pub memcmp_iff :
    (m : Mem) (v1 v2 len : ℕ)
    → (memcmp m v1 v2 len ≡ pos 0) ↔ ((i : ℕ) → i < len → m (v1 + i) ≡ m (v2 + i))
memcmp_iff m v1 v2 len = (memcmp-zero len m v1 v2, memcmp-same len m v1 v2)

-- memfind returns an address of the region or its end; no byte before it is c, and the byte at it
-- is c if it is not the end.
pub memfind-first :
    (n : ℕ) (m : Mem) (s c : ℕ)
    → (s ≤ memfind m s c n)
      × (memfind m s c n ≤ s + n)
      × ((a : ℕ) → s ≤ a → a < memfind m s c n → m a ≢ c % 256)
      × (memfind m s c n < s + n → m (memfind m s c n) ≡ c % 256)
unfolding memfind
memfind-first zero m s c =
    (omega arith, omega arith, λ a lo hi. absurd (omega arith), λ lt. absurd (omega arith))
memfind-first (suc n) m s c =
    let (lo, hi, none_before, found) = memfind-first n m (s + 1) c in
    elim (Bool-cases (m s == c % 256)) [
      | inl e ↦ rw e (omega arith, omega arith, λ a l h. absurd (omega arith), λ lt. eq_of_== _ _ e)
      | inr e ↦ rw e (
        omega arith,
        omega arith,
        λ a l h. elim (ℕ_discrete a s) [
          | yes q ↦ rw q (λ same. absurd (miss same e))
          | no ne ↦ none_before a (omega arith) h
        ],
        λ lt. found (omega arith),
      )
    ]
  where
    miss : m s ≡ c % 256 → (m s == c % 256) ≡ false → ⊥
    miss same e = ground arith
