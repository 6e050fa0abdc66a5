-- ===== src/Str/Number/Round.antt =====
-- A word that `vprintfmt` prints and `strtol` reads.
use cezos.Base.{
  ℕ, ◌+◌, ◌-◌, ◌%◌, ◌^◌, ◌≤◌, ◌<◌, ltb, leb, ◌==◌, ◌≡◌, refl, ap, sym, ◌∙◌, true, false, Option,
  none, some, Bool-cases, inl, inr, List, [], ◌∷◌, ◌++◌, append-nil, arith,
}
use cezos.Base.Int.{negsuc}
use cezos.Command.{codes}
use cezos.Printfmt.{printnum}
use cezos.Printfmt.Escape.{word, signed, initial, scan, switch}
use cezos.Printfmt.Convert.{getint, getuint, print_number, print_signed, convert}
use cezos.Printfmt.Format.{done, after_conversion, after_escape, format, vprintfmt}
use cezos.Str.Number.{is_blank, skip_blanks, read_sign, read_base, read_digits, strtol}
use cezos.Str.Number.Read.{Starts, Readable, printnum-Readable}

skip_blanks-Starts : (s : List ℕ) → Starts s → skip_blanks s ≡ s
unfolding skip_blanks
skip_blanks-Starts [] h = absurd h
skip_blanks-Starts (c ∷ s) h =
    let test : is_blank c ≡ false = ground arith in rw (skip_blanks, test) refl

read_sign-Starts : (s : List ℕ) → Starts s → read_sign s ≡ (false, s)
unfolding read_sign
read_sign-Starts [] h = absurd h
read_sign-Starts (c ∷ s) h =
    let plus : (c == b'+') ≡ false = ground arith in
    let minus : (c == b'-') ≡ false = ground arith in rw (read_sign, plus, minus) refl

read_base_ten : (s : List ℕ) → read_base 10 s ≡ (10, s)
unfolding read_base
read_base_ten [] = refl
read_base_ten (c ∷ []) = refl
read_base_ten (c ∷ d ∷ s) = refl

-- All of the output is read.
read_all :
    {num base : ℕ} {out : List ℕ} → Readable num base out → read_digits base 0 out ≡ (num, [])
unfolding read_digits
read_all {num} {base} {out} r = ap (read_digits base 0) (sym (append-nil out)) ∙ r.back []

strtol-Readable :
    {num : ℕ} {out : List ℕ}
    → Readable num 10 out
    → (strtol out 10 ≡ (signed num, []))
      × (strtol (b'-' ∷ out) 10 ≡ (signed ((2 ^ 32 - num) % 2 ^ 32), []))
unfolding strtol skip_blanks read_sign
strtol-Readable {num} {out} r = (
  rw (skip_blanks-Starts out r.front, read_sign-Starts out r.front, read_base_ten out, read_all r)
      refl,
  rw (read_base_ten out, read_all r) refl,
)

vprintfmt-d :
    (w : ℕ)
    → vprintfmt (codes "%d") (word w ∷ [])
      ≡ after_conversion (format 1) [] (convert b'd' initial (word w ∷ []))
unfolding vprintfmt format after_escape scan switch
vprintfmt-d w = refl

leb-false : (a b : ℕ) → b < a → leb a b ≡ false
leb-false a b h = ground arith

leb-true : (a b : ℕ) → a ≤ b → leb a b ≡ true
leb-true a b h = ground arith

lt_of_ltb : (a b : ℕ) → ltb a b ≡ true → a < b
lt_of_ltb a b h = ground arith

le_of_ltb : (a b : ℕ) → ltb a b ≡ false → b ≤ a
le_of_ltb a b h = ground arith

print_number-printnum :
    (prefix out : List ℕ) (num : ℕ)
    → printnum 64 num 10 (negsuc 0) b' ' ≡ some out
    → print_number prefix initial num 10 [] ≡ some (prefix ++ out, [])
unfolding print_number
print_number-printnum prefix out num run =
    ap (λ (o : Option (List ℕ)). elim o [ none ↦ none | some out ↦ some (prefix ++ out, []) ]) run

convert_nonneg :
    (w : ℕ) (out : List ℕ)
    → ltb w (2 ^ 31) ≡ true
    → printnum 64 w 10 (negsuc 0) b' ' ≡ some out
    → convert b'd' initial (word w ∷ []) ≡ some (out, [])
unfolding convert getint getuint print_signed
convert_nonneg w out small run =
    let less = lt_of_ltb w (2 ^ 31) small in
    let low : leb (2 ^ 63) w ≡ false = leb-false (2 ^ 63) w (omega (arith, less)) in
    rw (small, low) (print_number-printnum [] out w run)

convert_neg :
    (w : ℕ) (out : List ℕ)
    → w < 2 ^ 32
    → ltb w (2 ^ 31) ≡ false
    → printnum 64 (2 ^ 32 - w) 10 (negsuc 0) b' ' ≡ some out
    → convert b'd' initial (word w ∷ []) ≡ some (b'-' ∷ out, [])
unfolding convert getint getuint print_signed
convert_neg w out h big run =
    let more = le_of_ltb w (2 ^ 31) big in
    let high : leb (2 ^ 63) (w + (2 ^ 64 - 2 ^ 32)) ≡ true =
      leb-true (2 ^ 63) (w + (2 ^ 64 - 2 ^ 32)) (omega (arith, more)) in
    let size : (2 ^ 64 - (w + (2 ^ 64 - 2 ^ 32))) % 2 ^ 64 ≡ 2 ^ 32 - w = omega (arith, more) in
    rw (big, high, size) (print_number-printnum (b'-' ∷ []) out (2 ^ 32 - w) run)

printed_d :
    (w : ℕ) (out : List ℕ)
    → convert b'd' initial (word w ∷ []) ≡ some (out, [])
    → vprintfmt (codes "%d") (word w ∷ []) ≡ done out
unfolding format
printed_d w out run =
    vprintfmt-d w ∙ ap (after_conversion (format 1) []) run ∙ ap done (append-nil out)

-- A word that is printed by vprintfmt with %d is read back by strtol in base 10, with its sign and to
-- its end.
pub strtol-vprintfmt :
    (w : ℕ)
    → w < 2 ^ 32
    → (out : List ℕ) × (vprintfmt (codes "%d") (word w ∷ []) ≡ done out)
      × (strtol out 10 ≡ (signed w, []))
strtol-vprintfmt w h = elim (Bool-cases (ltb w (2 ^ 31))) [
  | inl small ↦
      let (out, run, r) =
        printnum-Readable 64 w 10 0 b' ' (omega arith) (omega arith) (omega arith) (omega arith)
          h in
      (out, printed_d w out (convert_nonneg w out small run), (strtol-Readable r).0)
  | inr big ↦
      let least = le_of_ltb w (2 ^ 31) big in
      let (out, run, r) =
        printnum-Readable 64 (2 ^ 32 - w) 10 0 b' ' (omega arith) (omega arith) (omega arith)
          (omega arith) (omega arith) in
      let back : (2 ^ 32 - (2 ^ 32 - w)) % 2 ^ 32 ≡ w = omega arith in
      (
        b'-' ∷ out,
        printed_d w (b'-' ∷ out) (convert_neg w out h big run),
        (strtol-Readable r).1 ∙ ap (λ (n : ℕ). (signed n, [])) back,
      )
]
