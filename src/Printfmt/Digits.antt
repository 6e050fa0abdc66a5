-- ===== src/Printfmt/Digits.antt =====
-- What `printnum` prints: the digits of the number behind the padding.
use native.Mathlib.Nat.{
  div-lt_iff_lt-mul, le-div_iff_mul-le, pow-suc, mod-lt, div-add-mod', mod-eq_of_lt, pow-zero,
  one-mul,
}
use cezos.Base.{
  ℕ, zero, suc, ◌+◌, ◌-◌, ◌*◌, ◌/◌, ◌%◌, ◌^◌, ◌≤◌, ◌<◌, ◌≡◌, ◌⊎◌, inl, inr, refl, sym, ap, ap₂, ◌∙◌,
  leb, ltb, if◌then◌else◌, Bool-cases, some, List, [], ◌∷◌, ◌++◌, length, replicate, append_assoc,
  length-append, arith,
}
use cezos.Base.Int.{ℤ, pos, pos_part, ◌-ℤ◌}
use cezos.Printfmt.{digit, padding, printnum}

-- The value of a digit character.
unfoldable pub digit_value : ℕ → ℕ
digit_value c = if ltb c b'a' then c - b'0' else c - b'a' + 10

-- The number that a list of digits stands for, read after `n`.
unfoldable pub value : ℕ → List ℕ → ℕ → ℕ
value base [] n = n
value base (c ∷ ds) n = value base ds (n * base + digit_value c)

pub value-append :
    (base : ℕ) (ds : List ℕ) (c n : ℕ)
    → value base (ds ++ c ∷ []) n ≡ value base ds n * base + digit_value c
unfolding value
value-append base [] c n = refl
value-append base (d ∷ ds) c n = value-append base ds c (n * base + digit_value d)

pub digit_value-digit : (d : ℕ) → d < 16 → digit_value (digit d) ≡ d
unfolding digit digit_value
digit_value-digit d h = ground arith

-- The output is padding, then the digits of the number: as many that the first one is not 0, but one
-- for 0, and padding up to the width.
pub record Printed (num base : ℕ) (width : ℤ) (padc : ℕ) (out : List ℕ) : Type 0 where
  pub digits : List ℕ
  pub output : out ≡ replicate (pos_part (width -ℤ pos (length digits))) padc ++ digits
  pub denotes : value base digits 0 ≡ num
  pub one : 0 < length digits
  pub short : (length digits ≡ 1) ⊎ (base ^ (length digits - 1) ≤ num)

power_le : (a num base : ℕ) → 0 < base → a ≤ num / base → a * base ≤ num
power_le a num base nz le = (le-div_iff_mul-le nz).0 le

pred_suc : (k : ℕ) → suc k - 1 ≡ k
pred_suc k = omega arith

pow_one : (b : ℕ) → b ^ 1 ≡ b
pow_one b = pow-suc b 0 ∙ ap (λ (x : ℕ). x * b) (pow-zero b) ∙ one-mul b

power_suc : (b k : ℕ) → 0 < k → b ^ k ≡ b ^ (k - 1) * b
power_suc b zero h = absurd (omega arith)
power_suc b (suc k) h = rw (pred_suc k) (pow-suc b k)

width_suc : (w : ℤ) (n : ℕ) → pos_part ((w -ℤ pos 1) -ℤ pos n) ≡ pos_part (w -ℤ pos (suc n))
width_suc w n = ground arith

small : (num base : ℕ) → num < base → num % base ≡ num
small num base h = mod-eq_of_lt h

more_len : (ds : List ℕ) (c : ℕ) → length (ds ++ c ∷ []) ≡ suc (length ds)
more_len ds c = omega (arith, length-append ds (c ∷ []))

Printed-last :
    (num base : ℕ) (width : ℤ) (padc : ℕ)
    → 2 ≤ base
    → base ≤ 16
    → num < base
    → Printed num base width padc (padding width padc ++ digit (num % base) ∷ [])
unfolding padding value
Printed-last num base width padc lo hi last = record {
  digits = digit (num % base) ∷ [];
  output = refl;
  denotes = omega (
    arith,
    small num base last,
    digit_value-digit (num % base) (omega (arith, small num base last)),
  );
  one = omega arith;
  short = inl refl;
}

power_bound :
    (num base k : ℕ)
    → 2 ≤ base
    → base ≤ num
    → 0 < k
    → (k ≡ 1) ⊎ (base ^ (k - 1) ≤ num / base)
    → base ^ (suc k - 1) ≤ num
power_bound num base k lo more nz (inl e) = rw (e, pow_one base) more
power_bound num base k lo more nz (inr le) =
    rw (pred_suc k, power_suc base k nz) (power_le (base ^ (k - 1)) num base (omega arith) le)

Printed-more :
    (num base : ℕ) (width : ℤ) (padc : ℕ) (out : List ℕ)
    → 2 ≤ base
    → base ≤ 16
    → base ≤ num
    → Printed (num / base) base (width -ℤ pos 1) padc out
    → Printed num base width padc (out ++ digit (num % base) ∷ [])
Printed-more num base width padc out lo hi more p = record {
  digits = p.digits ++ digit (num % base) ∷ [];
  output =
      ap (λ l. l ++ digit (num % base) ∷ []) p.output
      ∙ append_assoc (replicate (pos_part (width -ℤ pos 1 -ℤ pos (length p.digits))) padc) p.digits
          (digit (num % base) ∷ [])
      ∙ ap (λ (n : ℕ). replicate n padc ++ (p.digits ++ digit (num % base) ∷ []))
          (width_suc width (length p.digits)
            ∙ ap (λ (n : ℕ). pos_part (width -ℤ pos n))
                (sym (more_len p.digits (digit (num % base)))));
  denotes =
      value-append base p.digits (digit (num % base)) 0
      ∙ ap₂ (λ (q r : ℕ). q * base + r) p.denotes
          (digit_value-digit (num % base) (omega (arith, mod-lt num {m = base} (omega arith))))
      ∙ div-add-mod' num base;
  one = omega (arith, more_len p.digits (digit (num % base)));
  short = inr (
      rw (more_len p.digits (digit (num % base)))
        (power_bound num base (length p.digits) lo more p.one p.short));
}

-- The quotient fits one binary digit less.
pub quotient-lt-power : (num base k : ℕ) → 2 ≤ base → num < 2 ^ suc k → num / base < 2 ^ k
quotient-lt-power num base k lo h =
    let double : num < 2 ^ k * 2 = rw (← pow-suc 2 k) h in
    (div-lt_iff_lt-mul (omega arith)).1 (grind arith)

pub digits_left : (num base fuel : ℕ) → 2 ≤ base → base ≤ num → num < 2 ^ suc fuel → 0 < fuel
digits_left num base zero lo le h = absurd (omega arith)
digits_left num base (suc fuel) lo le h = omega arith

-- For a base from 2 to 16, on fuel for the binary digits of the number, printnum prints the number in
-- that base: its digits without a leading 0, behind as much padding as the width asks for.
pub printnum-Printed :
    (fuel num base : ℕ) (width : ℤ) (padc : ℕ)
    → 2 ≤ base
    → base ≤ 16
    → 0 < fuel
    → num < 2 ^ fuel
    → (out : List ℕ) × (printnum fuel num base width padc ≡ some out)
      × Printed num base width padc out
unfolding printnum
printnum-Printed zero num base width padc lo hi some_fuel enough = absurd (omega arith)
printnum-Printed (suc fuel) num base width padc lo hi some_fuel enough =
    elim (Bool-cases (leb base num)) [
      | inl more ↦
          let (out, run, p) =
            printnum-Printed fuel (num / base) base (width -ℤ pos 1) padc lo hi
              (digits_left num base fuel lo (ground arith) enough)
              (quotient-lt-power num base fuel lo enough) in
          (
            out ++ digit (num % base) ∷ [],
            rw (more, run) refl,
            Printed-more num base width padc out lo hi (ground arith) p,
          )
      | inr last ↦ (
        padding width padc ++ digit (num % base) ∷ [],
        rw (last) refl,
        Printed-last num base width padc lo hi (ground arith),
      )
    ]
