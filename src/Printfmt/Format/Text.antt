-- ===== src/Printfmt/Format/Text.antt =====
-- Strings in the output of `vprintfmt`: the conversion s with its padding.
use cezos.Base.{
  ℕ, zero, suc, ◌≡◌, ◌==◌, ◌&&◌, not, refl, ap, true, ltb, Bool, if◌then◌else◌, List, [], ◌∷◌, ◌++◌,
  append-nil, length, replicate, take, min, arith, Bool-cases, inl, inr,
}
use cezos.Base.Int.{ℤ, pos, negsuc, pos_part, ◌-ℤ◌}
use cezos.Printfmt.Escape.{Spec}
use cezos.Printfmt.Convert.{shown, show_string, print_string}

-- The bytes that a precision lets through, as they are shown.
abbrev pub cut : ℤ → List ℕ → List ℕ
cut (pos n) p = take n p
cut (negsuc n) p = p

abbrev pub shown_all : Bool → List ℕ → List ℕ
shown_all altflag [] = []
shown_all altflag (ch ∷ p) = shown altflag ch ∷ shown_all altflag p

pred : (n : ℕ) → pos (suc n) -ℤ pos 1 ≡ pos n
pred n = ground arith

show_string-cut :
    (altflag : Bool) (precision : ℤ) (p : List ℕ)
    → show_string altflag precision p ≡ shown_all altflag (cut precision p)
unfolding show_string
show_string-cut altflag (pos zero) [] = refl
show_string-cut altflag (pos (suc n)) [] = refl
show_string-cut altflag (negsuc n) [] = refl
show_string-cut altflag (pos zero) (ch ∷ p) = refl
show_string-cut altflag (pos (suc n)) (ch ∷ p) =
    let more : ltb 0 (suc n) ≡ true = ground arith in
    let less : pos (suc n) -ℤ pos 1 ≡ pos n = pred n in
    rw (more, less) (ap (λ l. shown altflag ch ∷ l) (show_string-cut altflag (pos n) p))
show_string-cut altflag (negsuc n) (ch ∷ p) =
    let negative : ltb 0 (suc n) ≡ true = ground arith in
    rw negative (ap (λ l. shown altflag ch ∷ l) (show_string-cut altflag (negsuc n) p))

no_room : (w : ℤ) (k n : ℕ) → pos_part (((w -ℤ pos k) -ℤ pos (pos_part (w -ℤ pos k))) -ℤ pos n) ≡ 0
no_room w k n = ground arith

-- With a positive width and a padding character other than `-`, the string stands behind its padding, which is the
-- width less what the precision counts: nothing where no precision is given. Otherwise blanks behind
-- the string fill the width. In both cases the string is cut to the precision, if there is one.
pub print_string-Padded :
    (s : Spec) (p : List ℕ)
    → print_string s p ≡ (
        if ltb 0 (pos_part s.width) && not (s.padc == b'-')
        then replicate (pos_part (s.width -ℤ pos (min (pos_part s.precision) (length p)))) s.padc
          ++ shown_all s.altflag (cut s.precision p)
        else shown_all s.altflag (cut s.precision p)
          ++ replicate
              (pos_part (s.width -ℤ pos (length (shown_all s.altflag (cut s.precision p)))))
              b' ')
unfolding print_string
print_string-Padded s p = elim (Bool-cases (ltb 0 (pos_part s.width) && not (s.padc == b'-'))) [
  | inl left ↦
      rw
        (
          left,
          show_string-cut s.altflag s.precision p,
          no_room,
          append-nil (shown_all s.altflag (cut s.precision p)),
        )
        refl
  | inr right ↦ rw (right, show_string-cut s.altflag s.precision p) refl
]
