-- ===== src/Bits.antt =====
-- `|` and `&` at variables: the lowest digit, the digits above it, and shifts to the right.
use Prim.Native.Nat.{digits, bit_and-bitwise, bit_or-bitwise}
use native.Mathlib.Nat.{pow-succ', div-div-eq-div-mul}
use cezos.Base.{
  ℕ, zero, suc, ◌+◌, ◌*◌, ◌/◌, ◌%◌, ◌^◌, ◌≤◌, ◌<◌, ◌≡◌, refl, sym, ◌∙◌, ap, bit_and, bit_or, min,
  max, arith,
}

-- The native operations stand for `digits`, whose count of rounds is dropped here.
module _ (z : ℕ → ℕ) (f : ℕ → ℕ → ℕ) where
  digits_of_zero : (n b : ℕ) → digits z f n zero b ≡ z b
  digits_of_zero zero b = refl
  digits_of_zero (suc n) b = refl

  digits_rounds : (n m a b : ℕ) → a ≤ n → a ≤ m → digits z f n a b ≡ digits z f m a b
  digits_rounds n m zero b p q = digits_of_zero n b ∙ sym (digits_of_zero m b)
  digits_rounds zero m (suc a) b p q = absurd (omega arith)
  digits_rounds (suc n) zero (suc a) b p q = absurd (omega arith)
  digits_rounds (suc n) (suc m) (suc a) b p q =
      ap (λ t. t * 2 + f (suc a % 2) (b % 2))
        (digits_rounds n m (suc a / 2) (b / 2) (omega arith) (omega arith))

  digits_lowest :
      (a b : ℕ)
      → digits z f (suc a) (suc a) b
        ≡ digits z f (suc a / 2) (suc a / 2) (b / 2) * 2 + f (suc a % 2) (b % 2)
  digits_lowest a b =
      ap (λ t. t * 2 + f (suc a % 2) (b % 2))
        (digits_rounds a (suc a / 2) (suc a / 2) (b / 2) (omega arith) (omega arith))

or_lowest : (a b : ℕ) → bit_or a b ≡ bit_or (a / 2) (b / 2) * 2 + max (a % 2) (b % 2)
or_lowest zero b = simp bit_or-bitwise (omega arith)
or_lowest (suc a) b = simp bit_or-bitwise (digits_lowest (λ y. y) max a b)

and_lowest : (a b : ℕ) → bit_and a b ≡ bit_and (a / 2) (b / 2) * 2 + min (a % 2) (b % 2)
and_lowest zero b = simp bit_and-bitwise (omega arith)
and_lowest (suc a) b = simp bit_and-bitwise (digits_lowest (λ y. 0) min a b)

pub zero-bit_or : (b : ℕ) → bit_or 0 b ≡ b
zero-bit_or b = bit_or-bitwise 0 b

pub bit_or-low : (a b : ℕ) → bit_or a b % 2 ≡ max (a % 2) (b % 2)
bit_or-low a b = omega (arith, or_lowest a b)

bit_or-half : (a b : ℕ) → bit_or a b / 2 ≡ bit_or (a / 2) (b / 2)
bit_or-half a b = omega (arith, or_lowest a b)

-- The digit above the lowest one.
pub bit_or_second : (a b : ℕ) → bit_or a b / 2 % 2 ≡ max (a / 2 % 2) (b / 2 % 2)
bit_or_second a b = rw bit_or-half (bit_or-low (a / 2) (b / 2))

div-one : (x : ℕ) → x / 2 ^ 0 ≡ x
div-one x = omega arith

div_pow : (x k : ℕ) → x / 2 ^ suc k ≡ x / 2 / 2 ^ k
div_pow x k = rw (pow-succ', ← div-div-eq-div-mul)

-- `(a | b) >> k` is `(a >> k) | (b >> k)`.
pub bit_or-shift : (k a b : ℕ) → bit_or a b / 2 ^ k ≡ bit_or (a / 2 ^ k) (b / 2 ^ k)
bit_or-shift zero a b = simp div-one
bit_or-shift (suc k) a b = simp (div_pow, bit_or-half) (bit_or-shift k (a / 2) (b / 2))

bit_or-zero_rounds : (n a : ℕ) → a ≤ n → bit_or a 0 ≡ a
bit_or-zero_rounds zero zero h = refl
bit_or-zero_rounds zero (suc a) h = absurd (omega arith)
bit_or-zero_rounds (suc n) a h =
    omega (arith, or_lowest a 0, bit_or-zero_rounds n (a / 2) (omega arith))

pub bit_or-zero : (a : ℕ) → bit_or a 0 ≡ a
bit_or-zero a = bit_or-zero_rounds a a (omega arith)

and-zero_rounds : (n a : ℕ) → a ≤ n → bit_and a 0 ≡ 0
and-zero_rounds zero zero h = refl
and-zero_rounds zero (suc a) h = absurd (omega arith)
and-zero_rounds (suc n) a h = omega (arith, and_lowest a 0, and-zero_rounds n (a / 2) (omega arith))

pub bit_and-zero : (a : ℕ) → bit_and a 0 ≡ 0
bit_and-zero a = and-zero_rounds a a (omega arith)

-- Tests of the two lowest flags.
pub bit_and-one : (a : ℕ) → bit_and a 1 ≡ a % 2
bit_and-one a = omega (arith, and_lowest a 1, bit_and-zero (a / 2))

pub bit_and-two : (a : ℕ) → bit_and a 2 ≡ a / 2 % 2 * 2
bit_and-two a = omega (arith, and_lowest a 2, bit_and-one (a / 2))

-- `|` of numbers below `2 ^ k` stays below it.
pub bit_or-lt : (k a b : ℕ) → a < 2 ^ k → b < 2 ^ k → bit_or a b < 2 ^ k
bit_or-lt zero a b p q = let first : a ≡ 0 = omega arith in rw (first, zero-bit_or) q
bit_or-lt (suc k) a b p q = omega (
  arith,
  or_lowest a b,
  bit_or-lt k (a / 2) (b / 2) (omega (arith, pow-succ' 2 k)) (omega (arith, pow-succ' 2 k)),
  pow-succ' 2 k,
)

bit_and-low : (a b : ℕ) → bit_and a b % 2 ≡ min (a % 2) (b % 2)
bit_and-low a b = omega (arith, and_lowest a b)

bit_and-half : (a b : ℕ) → bit_and a b / 2 ≡ bit_and (a / 2) (b / 2)
bit_and-half a b = omega (arith, and_lowest a b)

bit_and-shift : (k a b : ℕ) → bit_and a b / 2 ^ k ≡ bit_and (a / 2 ^ k) (b / 2 ^ k)
bit_and-shift zero a b = simp div-one
bit_and-shift (suc k) a b = simp (div_pow, bit_and-half) (bit_and-shift k (a / 2) (b / 2))

-- The digit `k` of the number that has the digits of `flags` set and those of `mask` kept.
pub flags_digit :
    (k a flags mask : ℕ)
    → bit_and (bit_or a flags) mask / 2 ^ k % 2
      ≡ min (max (a / 2 ^ k % 2) (flags / 2 ^ k % 2)) (mask / 2 ^ k % 2)
flags_digit k a flags mask =
    ap (λ (n : ℕ). n % 2) (bit_and-shift k (bit_or a flags) mask)
    ∙ bit_and-low (bit_or a flags / 2 ^ k) (mask / 2 ^ k)
    ∙ ap (λ (n : ℕ). min n (mask / 2 ^ k % 2))
        (ap (λ (n : ℕ). n % 2) (bit_or-shift k a flags) ∙ bit_or-low (a / 2 ^ k) (flags / 2 ^ k))

-- `|` with a number whose four lowest digits are 0.
pub bit_or-low_four : (a b : ℕ) → b % 16 ≡ 0 → bit_or a b % 16 ≡ a % 16
bit_or-low_four a b h = omega (
  arith,
  or_lowest a b,
  or_lowest (a / 2) (b / 2),
  or_lowest (a / 2 / 2) (b / 2 / 2),
  or_lowest (a / 2 / 2 / 2) (b / 2 / 2 / 2),
)

-- `|` of a number shifted to the left and a number below the shift is their sum.
pub bit_or-add : (k a b : ℕ) → b < 2 ^ k → bit_or (a * 2 ^ k) b ≡ a * 2 ^ k + b
bit_or-add zero a b h =
    let none_left : b ≡ 0 = omega arith in
    let one : a * 2 ^ 0 ≡ a = omega arith in rw (none_left, one, bit_or-zero) (omega arith)
bit_or-add (suc k) a b h =
    let double : a * 2 ^ suc k ≡ a * 2 ^ k * 2 = twice in
    let half : a * 2 ^ k * 2 / 2 ≡ a * 2 ^ k = omega arith in
    rw double (
      omega (
        arith,
        or_lowest (a * 2 ^ k * 2) b,
        ap (λ (n : ℕ). bit_or n (b / 2)) half,
        bit_or-add k a (b / 2) (omega (arith, pow-succ' 2 k)),
      ))
  where
    twice : a * 2 ^ suc k ≡ a * 2 ^ k * 2
    twice = ap (λ (n : ℕ). a * n) (pow-succ' 2 k) ∙ grind arith
