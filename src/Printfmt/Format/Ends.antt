-- ===== src/Printfmt/Format/Ends.antt =====
-- The loop of `vprintfmt` ends, and what it prints does not depend on the fuel.
use cezos.Base.{
  ◌^◌, sym, ◌∙◌, ◌++◌, ℕ, zero, suc, ◌≤◌, ◌<◌, ◌==◌, ◌≡◌, ◌≢◌, inl, inr, refl, ap, Option, none,
  some, List, [], ◌∷◌, length, arith, Bool-cases,
}
use cezos.Printfmt.Escape.{
  Arg, Spec, initial, Escape, found, unknown, missing, scan, switch, flag, number, conversion,
  unrecognized, no_argument, numbered, goes_on, extend,
}
use cezos.Printfmt.Digits.{printnum-Printed}
use cezos.Printfmt.Convert.{print_number, convert}
use cezos.Printfmt.Format.{
  Printed, done, fault, stuck, emit, after_conversion, after_escape, format, vprintfmt,
}

-- The rest of the format behind an escape is shorter than what follows the `%`.
abbrev Shorter : List ℕ → Escape → Type 0
Shorter fmt (found c s rest args) = length rest < length fmt
Shorter fmt (unknown args) = Unit {0}
Shorter fmt missing = Unit {0}

Shorter-cons : (ch : ℕ) (fmt : List ℕ) (e : Escape) → Shorter fmt e → Shorter (ch ∷ fmt) e
Shorter-cons ch fmt (found c s rest args) h = omega arith
Shorter-cons ch fmt (unknown args) h = tt
Shorter-cons ch fmt missing h = tt

scan-Shorter :
    (n : Option ℕ) (s : Spec) (fmt : List ℕ) (args : List Arg) → Shorter fmt (scan n s fmt args)
unfolding scan
scan-Shorter n s [] args = tt
scan-Shorter n s (ch ∷ fmt) args = elim (Bool-cases (goes_on n ch)) [
  | inl more ↦ rw (scan, more) (Shorter-cons ch fmt _ (scan-Shorter (extend n ch) s fmt args))
  | inr other ↦
      rw (scan, other)
        (elim (switch (numbered n s) ch args)
          as (λ w. Shorter (ch ∷ fmt) (elim w [
            | flag s' args' ↦ scan none s' fmt args'
            | number d ↦ scan (some d) (numbered n s) fmt args
            | conversion ↦ found ch (numbered n s) fmt args
            | unrecognized ↦ unknown args
            | no_argument ↦ missing
          ])) [
            | flag s' args' ↦ Shorter-cons ch fmt _ (scan-Shorter none s' fmt args')
            | number d ↦ Shorter-cons ch fmt _ (scan-Shorter (some d) (numbered n s) fmt args)
            | conversion ↦ omega arith
            | unrecognized ↦ tt
            | no_argument ↦ tt
          ])
]

-- Two loops that agree on formats up to a length and do not get stuck there.
record Agree (n : ℕ) (go go' : List ℕ → List Arg → Printed) : Type 0 where
  same : (fmt : List ℕ) (args : List Arg) → length fmt ≤ n → go fmt args ≡ go' fmt args
  ended : (fmt : List ℕ) (args : List Arg) → length fmt ≤ n → go fmt args ≢ stuck

emit-ne-stuck : (out : List ℕ) (p : Printed) → p ≢ stuck → emit out p ≢ stuck
emit-ne-stuck out (done rest) h = λ e. cc
emit-ne-stuck out fault h = λ e. cc
emit-ne-stuck out stuck h = absurd (h refl)

abbrev Fine : Printed → Printed → Type 0
Fine p p' = (p ≡ p') × (p ≢ stuck)

module _ {n : ℕ} {go go' : List ℕ → List Arg → Printed} (a : Agree n go go') where
  emit-Fine :
      (out fmt : List ℕ) (args : List Arg)
      → length fmt ≤ n
      → Fine (emit out (go fmt args)) (emit out (go' fmt args))
  emit-Fine out fmt args h =
      (ap (emit out) (a.same fmt args h), emit-ne-stuck out (go fmt args) (a.ended fmt args h))

  after_escape-Fine :
      (fmt : List ℕ) (e : Escape)
      → length fmt ≤ n
      → Shorter fmt e
      → Fine (after_escape go fmt e) (after_escape go' fmt e)
  unfolding after_escape
  after_escape-Fine fmt (unknown args) h short = emit-Fine (b'%' ∷ []) fmt args h
  after_escape-Fine fmt missing h short = (refl, λ e. cc)
  after_escape-Fine fmt (found ch s rest args) h short = by_conversion (convert ch s args)
    where
      by_conversion :
          (c : Option (List ℕ × List Arg))
          → Fine (after_conversion go rest c) (after_conversion go' rest c)
      by_conversion none = (refl, λ e. cc)
      by_conversion (some (out, left)) = emit-Fine out rest left (omega arith)

format-Fine :
    (fuel fuel' : ℕ) (fmt : List ℕ) (args : List Arg)
    → length fmt ≤ fuel
    → length fmt ≤ fuel'
    → Fine (format fuel fmt args) (format fuel' fmt args)
unfolding format
format-Fine zero zero [] args h h' = (refl, λ e. cc)
format-Fine zero (suc fuel') [] args h h' = (refl, λ e. cc)
format-Fine (suc fuel) zero [] args h h' = (refl, λ e. cc)
format-Fine (suc fuel) (suc fuel') [] args h h' = (refl, λ e. cc)
format-Fine zero fuel' (ch ∷ fmt) args h h' = absurd (omega arith)
format-Fine (suc fuel) zero (ch ∷ fmt) args h h' = absurd (omega arith)
format-Fine (suc fuel) (suc fuel') (ch ∷ fmt) args h h' =
    let below : Agree (length fmt) (format fuel) (format fuel') = record {
      same = λ rest left l. (format-Fine fuel fuel' rest left (omega arith) (omega arith)).0;
      ended = λ rest left l. (format-Fine fuel fuel' rest left (omega arith) (omega arith)).1;
    } in
    elim (Bool-cases (ch == b'%')) [
      | inl escape ↦
          rw (format, escape)
            (after_escape-Fine below fmt (scan none initial fmt args) (omega arith)
              (scan-Shorter none initial fmt args))
      | inr literal ↦ rw (format, literal) (emit-Fine below (ch ∷ []) fmt args (omega arith))
    ]

print_number-ne-none :
    (prefix : List ℕ) (s : Spec) (num base : ℕ) (args : List Arg)
    → 2 ≤ base
    → base ≤ 16
    → num < 2 ^ 64
    → print_number prefix s num base args ≢ none
unfolding print_number
print_number-ne-none prefix s num base args lo hi wide =
    let (out, run, p) = printnum-Printed 64 num base s.width s.padc lo hi (omega arith) wide in
    λ e. some-ne-none (
      sym (
        ap (λ (o : Option (List ℕ)). elim o [ none ↦ none | some out ↦ some (prefix ++ out, args) ])
          run)
      ∙ e)
  where
    some-ne-none : {A : Type 0} {a : A} → some a ≢ none
    some-ne-none e = cc

-- For every format and all arguments vprintfmt ends: it prints, or reads what is not there. More fuel
-- than the length of the format changes nothing, and the printing of a 64-bit number in a base from 2
-- to 16 never runs out of its own fuel.
pub vprintfmt-ne-stuck :
    (fmt : List ℕ) (args : List Arg)
    → (vprintfmt fmt args ≢ stuck)
      × ((fuel : ℕ) → length fmt ≤ fuel → format fuel fmt args ≡ vprintfmt fmt args)
      × ((prefix : List ℕ) (s : Spec) (num base : ℕ)
          → 2 ≤ base
          → base ≤ 16
          → num < 2 ^ 64
          → print_number prefix s num base args ≢ none)
unfolding vprintfmt
vprintfmt-ne-stuck fmt args = (
  (format-Fine (length fmt) (length fmt) fmt args (omega arith) (omega arith)).1,
  λ fuel enough. (format-Fine fuel (length fmt) fmt args enough (omega arith)).0,
  λ prefix s num base lo hi wide. print_number-ne-none prefix s num base args lo hi wide,
)
