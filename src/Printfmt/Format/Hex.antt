-- ===== src/Printfmt/Format/Hex.antt =====
-- Numbers that are printed in a fixed number of hexadecimal digits.
use native.Mathlib.Nat.{pow-suc, pow-zero, div-add-mod'}
use cezos.Base.{
  ℕ, zero, suc, ◌+◌, ◌*◌, ◌/◌, ◌%◌, ◌^◌, ◌≤◌, ◌<◌, leb, ◌≡◌, refl, ap, ap₂, ◌∙◌, false, Bool-cases,
  inl, inr, some, List, [], ◌∷◌, ◌++◌, replicate, arith,
}
use cezos.Base.Int.{pos, ◌-ℤ◌}
use cezos.Printfmt.{digit, padding, printnum}
use cezos.Printfmt.Digits.{digit_value-digit, value, value-append}

-- The last `k` hexadecimal digits of a number.
unfoldable pub hex_digits : ℕ → ℕ → List ℕ
hex_digits zero n = []
hex_digits (suc k) n = hex_digits k (n / 16) ++ digit (n % 16) ∷ []

hex_digits_zero : (k : ℕ) → hex_digits k 0 ≡ replicate k b'0'
unfolding hex_digits digit
hex_digits_zero zero = refl
hex_digits_zero (suc k) = ap (λ (l : List ℕ). l ++ zeros 1) (hex_digits_zero k) ∙ at_end k
  where
    zeros : ℕ → List ℕ
    zeros n = replicate n b'0'

    at_end : (k : ℕ) → zeros k ++ zeros 1 ≡ zeros (suc k)
    at_end zero = refl
    at_end (suc k) = ap (λ (l : List ℕ). b'0' ∷ l) (at_end k)

div-lt-pow : (k n : ℕ) → n < 16 ^ suc k → n / 16 < 16 ^ k
div-lt-pow k n h = let wide : n < 16 ^ k * 16 = rw (← pow-suc 16 k) h in omega (arith, wide)

-- They stand for the number, if it has no more digits.
pub value-hex_digits : (k n : ℕ) → n < 16 ^ k → value 16 (hex_digits k n) 0 ≡ n
unfolding hex_digits value
value-hex_digits zero n h = omega (arith, subst_pow h)
  where
    subst_pow : n < 16 ^ 0 → n < 1
    subst_pow h = rw (← pow-zero 16) h
value-hex_digits (suc k) n h =
    value-append 16 (hex_digits k (n / 16)) (digit (n % 16)) 0
    ∙ ap₂ (λ (q r : ℕ). q * 16 + r) (value-hex_digits k (n / 16) (div-lt-pow k n h))
        (digit_value-digit (n % 16) (omega arith))
    ∙ div-add-mod' n 16

one_less : (k : ℕ) → pos (suc k) -ℤ pos 1 ≡ pos k
one_less k = ground arith

pub printnum-hex_digits :
    (k fuel n : ℕ)
    → n < 16 ^ suc k
    → suc k ≤ fuel
    → printnum fuel n 16 (pos (suc k)) b'0' ≡ some (hex_digits (suc k) n)
unfolding printnum hex_digits padding
printnum-hex_digits k zero n h enough = absurd (omega arith)
printnum-hex_digits zero (suc fuel) n h enough =
    let small : n < 16 = rw (← one_digit) h in
    let last : leb 16 n ≡ false = ground arith in rw last refl
  where
    one_digit : 16 ^ 1 ≡ 16
    one_digit = refl
printnum-hex_digits (suc k) (suc fuel) n h enough = elim (Bool-cases (leb 16 n)) [
  | inl more ↦
      rw
        (
          more,
          one_less (suc k),
          printnum-hex_digits k fuel (n / 16) (div-lt-pow (suc k) n h) (omega arith),
        )
        refl
  | inr last ↦
      let none_left : n / 16 ≡ 0 = ground arith in
      rw (last, none_left, hex_digits_zero (suc k), one_less (suc k)) refl
]
