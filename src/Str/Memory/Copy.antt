-- ===== src/Str/Memory/Copy.antt =====
-- `memcpy` and `memmove`, on regions that may overlap.
use cezos.Base.{
  ℕ, zero, suc, ◌+◌, ◌-◌, ◌≤◌, ◌<◌, ◌≡◌, ◌⊎◌, refl, ap, ◌∙◌, ltb, leb, ◌&&◌, if◌then◌else◌, arith,
}
use native.Mathlib.Decide.{dec_lt, ℕ_discrete}
use cezos.Str.Memory.{Mem, poke, memcpy, memmove}

-- memcpy, and so memmove, copies the region right where the destination is not above the source, or
-- the regions do not overlap: each byte of the destination is the byte that the source held before,
-- and no other byte changes.
pub memcpy-at :
    (n : ℕ) (m : Mem) (dst src a : ℕ)
    → (dst ≤ src) ⊎ (src + n ≤ dst)
    → memcpy m dst src n a ≡ (if leb dst a && ltb a (dst + n) then m (src + (a - dst)) else m a)
unfolding memcpy
memcpy-at zero m dst src a apart = ground arith
memcpy-at (suc n) m dst src a apart =
    let ih = memcpy-at n (poke m dst (m src)) (dst + 1) (src + 1) a (later apart) in
    elim (dec_lt dst a) [
      | yes above ↦
          let same : src + 1 + (a - (dst + 1)) ≡ src + (a - dst) = omega arith in
          ground (arith, ih, ap m same)
      | no low ↦ elim (ℕ_discrete a dst) [
        | yes here ↦
            let first : src + (a - dst) ≡ src = omega arith in ground (arith, ih, ap m first)
        | no below ↦ ground (arith, ih)
      ]
    ]
  where
    later : (dst ≤ src) ⊎ (src + suc n ≤ dst) → (dst + 1 ≤ src + 1) ⊎ (src + 1 + n ≤ dst + 1)
    later apart = omega arith

memcpy-below : (n : ℕ) (m : Mem) (dst src a : ℕ) → a < dst → memcpy m dst src n a ≡ m a
unfolding memcpy
memcpy-below zero m dst src a h = refl
memcpy-below (suc n) m dst src a h =
    memcpy-below n (poke m dst (m src)) (dst + 1) (src + 1) a (omega arith) ∙ ground arith

memcpy_period :
    (n : ℕ) (m : Mem) (src d a : ℕ)
    → 0 < d
    → src + d ≤ a
    → a < src + d + n
    → memcpy m (src + d) src n a ≡ memcpy m (src + d) src n (a - d)
unfolding memcpy
memcpy_period zero m src d a pos lo hi = absurd (omega arith)
memcpy_period (suc n) m src d a pos lo hi = elim (ℕ_discrete a (src + d)) [
  | yes e ↦
      let back : a - d ≡ src = omega arith in
      rw
        (
          back,
          memcpy-below n m' (src + d + 1) (src + 1) a (omega arith),
          memcpy-below n m' (src + d + 1) (src + 1) src (omega arith),
        )
        (ground arith)
  | no ne ↦ rw up (memcpy_period n m' (src + 1) d a pos (omega arith) (omega arith))
]
  where
    m' : Mem
    m' = poke m (src + d) (m src)

    up : src + d + 1 ≡ src + 1 + d
    up = omega arith

-- Where the destination begins inside the source, d bytes above its start, memmove does not move
-- the region: each byte that it writes is the one that stands d bytes below it afterwards, so the
-- destination repeats the first d bytes of the source, which stay as they were.
pub memmove_overlap :
    (n : ℕ) (m : Mem) (src d : ℕ)
    → 0 < d
    → ((a : ℕ) → a < src + d → memmove m (src + d) src n a ≡ m a)
      × ((a : ℕ)
          → src + d ≤ a
          → a < src + d + n
          → memmove m (src + d) src n a ≡ memmove m (src + d) src n (a - d))
unfolding memmove
memmove_overlap n m src d pos = (memcpy-below n m (src + d) src, λ a. memcpy_period n m src d a pos)
