-- ===== src/Str/Number/Read.antt =====
-- `strtol` reads the digits that `printnum` prints.
use native.Mathlib.Nat.{div-add-mod', mod-lt, mod-eq_of_lt, div-le_self}
use cezos.Base.{
  ℕ, zero, suc, ◌+◌, ◌-◌, ◌*◌, ◌/◌, ◌%◌, ◌^◌, ◌≤◌, ◌<◌, ltb, leb, ◌&&◌, ◌≡◌, refl, ap, ◌∙◌, true,
  false, some, Bool-cases, inl, inr, List, [], ◌∷◌, ◌++◌, append_assoc, arith,
}
use cezos.Base.Int.{pos, negsuc, ◌-ℤ◌}
use cezos.Printfmt.Digits.{quotient-lt-power, digits_left}
use cezos.Printfmt.{digit, padding, printnum}
use cezos.Str.Number.{dig, dig_below, read_digits}

dig-digit : (d : ℕ) → d < 16 → dig (digit d) ≡ some d
unfolding dig digit
dig-digit d h = elim (Bool-cases (ltb d 10)) [
  | inl small ↦
      let val : b'0' + d - b'0' ≡ d = omega arith in
      let is : (leb b'0' (b'0' + d) && leb (b'0' + d) b'9') ≡ true = ground arith in
      rw (small, is) (ap some val)
  | inr big ↦
      let val : b'a' + (d - 10) - b'a' + 10 ≡ d = ground arith in
      let not_digit : (leb b'0' (b'a' + (d - 10)) && leb (b'a' + (d - 10)) b'9') ≡ false =
        ground arith in
      let is : (leb b'a' (b'a' + (d - 10)) && leb (b'a' + (d - 10)) b'z') ≡ true = ground arith in
      rw (big, not_digit, is) (ap some val)
]

dig_below-digit : (base d : ℕ) → base ≤ 16 → d < base → dig_below base (digit d) ≡ some d
unfolding dig_below
dig_below-digit base d hi h =
    let below : leb base d ≡ false = ground arith in
    rw (dig_below, dig-digit d (omega arith), below) refl

-- One more digit.
read_digits-digit :
    (base val d : ℕ) (rest : List ℕ)
    → base ≤ 16
    → d < base
    → read_digits base val (digit d ∷ rest) ≡ read_digits base ((val * base + d) % 2 ^ 32) rest
unfolding read_digits
read_digits-digit base val d rest hi h = rw (read_digits, dig_below-digit base d hi h) refl

-- The string begins with a character that is no blank and no sign.
abbrev pub Starts : List ℕ → Type 0
Starts [] = ⊥
Starts (c ∷ s) = 48 ≤ c

Starts-append : (s t : List ℕ) → Starts s → Starts (s ++ t)
Starts-append [] t h = absurd h
Starts-append (c ∷ s) t h = h

-- The digits are read back, whatever follows them.
pub record Readable (num base : ℕ) (out : List ℕ) : Type 0 where
  pub front : Starts out
  pub back : (rest : List ℕ) → read_digits base 0 (out ++ rest) ≡ read_digits base num rest

module _ {base : ℕ} (lo : 2 ≤ base) (hi : base ≤ 16) where
  digit-Starts : (d : ℕ) → Starts (digit d ∷ [])
  unfolding digit
  digit-Starts d = ground arith

  Readable-last : (num : ℕ) → num < base → Readable num base (digit (num % base) ∷ [])
  Readable-last num h = record {
    front = digit-Starts (num % base);
    back = λ rest.
        read_digits-digit base 0 (num % base) rest hi (mod-lt num {m = base} (omega arith))
        ∙ ap (λ (n : ℕ). read_digits base n rest) (omega (arith, mod-eq_of_lt h));
  }

  Readable-more :
      (num : ℕ) (out : List ℕ)
      → num < 2 ^ 32
      → Readable (num / base) base out
      → Readable num base (out ++ digit (num % base) ∷ [])
  Readable-more num out fits r = record {
    front = Starts-append out (digit (num % base) ∷ []) r.front;
    back = λ rest.
        ap (read_digits base 0) (append_assoc out (digit (num % base) ∷ []) rest)
        ∙ r.back (digit (num % base) ∷ rest)
        ∙ read_digits-digit base (num / base) (num % base) rest hi
            (mod-lt num {m = base} (omega arith))
        ∙ ap (λ (n : ℕ). read_digits base n rest)
            (ap (λ (n : ℕ). n % 2 ^ 32) (div-add-mod' num base) ∙ mod-eq_of_lt fits);
  }

less : (k : ℕ) → negsuc k -ℤ pos 1 ≡ negsuc (suc k)
less k = ground arith

-- What `printnum` prints without padding.
pub printnum-Readable :
    (fuel num base k padc : ℕ)
    → 2 ≤ base
    → base ≤ 16
    → 0 < fuel
    → num < 2 ^ fuel
    → num < 2 ^ 32
    → (out : List ℕ) × (printnum fuel num base (negsuc k) padc ≡ some out) × Readable num base out
unfolding printnum padding
printnum-Readable zero num base k padc lo hi some_fuel enough fits = absurd (omega arith)
printnum-Readable (suc fuel) num base k padc lo hi some_fuel enough fits =
    elim (Bool-cases (leb base num)) [
      | inl more ↦
          let (out, run, r) =
            printnum-Readable fuel (num / base) base (suc k) padc lo hi
              (digits_left num base fuel lo (ground arith) enough)
              (quotient-lt-power num base fuel lo enough) (omega (arith, div-le_self num base)) in
          (
            out ++ digit (num % base) ∷ [],
            rw (more, less k, run) refl,
            Readable-more lo hi num out fits r,
          )
      | inr last ↦
          (digit (num % base) ∷ [], rw (last, less k) refl, Readable-last lo hi num (ground arith))
    ]
