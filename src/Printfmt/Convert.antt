-- ===== src/Printfmt/Convert.antt =====
-- The conversions of `vprintfmt` of src/lib/printfmt.c: what each of them gives to `putch`, in order.
use cezos.Base.{
  ℕ, ◌+◌, ◌-◌, ◌*◌, ◌%◌, ◌^◌, leb, ltb, ◌==◌, ◌&&◌, ◌||◌, not, if◌then◌else◌, Bool, Option, none,
  some, List, [], ◌∷◌, ◌++◌, length, replicate, min,
}
use cezos.Base.Int.{ℤ, pos, pos_part, ◌-ℤ◌}
use cezos.Command.{codes}
use cezos.Printfmt.{printnum}
use cezos.Printfmt.Escape.{Arg, word, text, Spec, initial, is_neg}

-- The first loop of a string: its bytes until the precision is used up; `?` for a byte that is not
-- printing, under `#`. A char above 127 is negative, and so below the space, and is given to `putch`
-- as the word of a negative `int`.
abbrev pub shown : Bool → ℕ → ℕ
shown altflag ch =
    if altflag && (leb 128 ch || (ltb ch b' ' || ltb b'~' ch))
    then b'?'
    else if leb 128 ch
    then ch + (2 ^ 32 - 2 ^ 8)
    else ch

unfoldable pub show_string : Bool → ℤ → List ℕ → List ℕ
show_string altflag precision [] = []
show_string altflag precision (ch ∷ p) =
    if is_neg precision
    then shown altflag ch ∷ show_string altflag precision p
    else if ltb 0 (pos_part precision)
    then shown altflag ch ∷ show_string altflag (precision -ℤ pos 1) p
    else []

-- The padding in front: the width less the bytes that the loop up to `precision` has counted, if the
-- width is positive and the padding is not on the right; and the width that is left then.
abbrev pub pads_left : Spec → Bool
pads_left s = ltb 0 (pos_part s.width) && not (s.padc == b'-')

abbrev pub left_count : Spec → List ℕ → ℕ
left_count s p =
    if pads_left s then pos_part (s.width -ℤ pos (min (pos_part s.precision) (length p))) else 0

abbrev pub width_left : Spec → List ℕ → ℤ
width_left s p =
    if pads_left s
    then (s.width -ℤ pos (min (pos_part s.precision) (length p))) -ℤ pos (left_count s p)
    else s.width

unfoldable pub print_string : Spec → List ℕ → List ℕ
unfolding show_string
print_string s p =
    let out = show_string s.altflag s.precision p in
    replicate (left_count s p) s.padc
    ++ (out ++ replicate (pos_part (width_left s p -ℤ pos (length out))) b' ')

-- What a conversion gives to `putch`, and the arguments that are left. `none`: an argument is missing,
-- or is not of the kind that the conversion reads, or the code reads outside of an array.
abbrev pub Converted : Type 0
Converted = Option (List ℕ × List Arg)

-- `getuint`; for `getint` the bits of the `long long`, with the sign extended.
unfoldable pub getuint : ℕ → List Arg → Option (ℕ × List Arg)
getuint lflag [] = none
getuint lflag (text t ∷ args) = none
getuint lflag (word w ∷ []) = if leb 2 lflag then none else some (w, [])
getuint lflag (word w ∷ text t ∷ args) = if leb 2 lflag then none else some (w, text t ∷ args)
getuint lflag (word w ∷ word h ∷ args) =
    if leb 2 lflag then some (w + h * 2 ^ 32, args) else some (w, word h ∷ args)

abbrev extend_sign : ℕ → ℕ → ℕ
extend_sign lflag n = if leb 2 lflag then n else if ltb n (2 ^ 31) then n else n + (2 ^ 64 - 2 ^ 32)

unfoldable pub getint : ℕ → List Arg → Option (ℕ × List Arg)
unfolding getuint
getint lflag args = elim (getuint lflag args) [
  | none ↦ none
  | some (n, rest) ↦ some (extend_sign lflag n, rest)
]

-- `printnum` behind a prefix, with fuel for the 64 binary digits that a number has at most.
unfoldable pub print_number : List ℕ → Spec → ℕ → ℕ → List Arg → Converted
unfolding printnum
print_number prefix s num base args = elim (printnum 64 num base s.width s.padc) [
  | none ↦ none
  | some out ↦ some (prefix ++ out, args)
]

-- The conversion d: a negative number is printed behind a sign, which the width does not count.
unfoldable pub print_signed : Spec → ℕ → List Arg → Converted
unfolding print_number
print_signed s num args =
    if leb (2 ^ 63) num
    then print_number (b'-' ∷ []) s ((2 ^ 64 - num) % 2 ^ 64) 10 args
    else print_number [] s num 10 args

unfoldable pub error_string : ℕ → Option (List ℕ)
error_string err =
    if err == 1
    then some (codes "unspecified error")
    else if err == 2
    then some (codes "bad environment")
    else if err == 3
    then some (codes "invalid parameter")
    else if err == 4
    then some (codes "out of memory")
    else if err == 5
    then some (codes "out of environments")
    else if err == 6
    then some (codes "segmentation fault")
    else none

-- `printfmt(putch, putdat, "error %d", err)`, where `err` is not negative, or `"%s"` with the text. The
-- least `int` stays negative, and the code reads before the start of its table.
unfoldable pub print_error : ℕ → List Arg → Converted
unfolding error_string print_string print_number
print_error err args =
    if err == 2 ^ 31 then none else elim (if leb 7 err then none else error_string err) [
      | none ↦ print_number (codes "error ") initial err 10 args
      | some p ↦ some (print_string initial p, args)
    ]

-- `err` of a word: `if (err < 0) err = -err`
abbrev pub magnitude : ℕ → ℕ
magnitude w = if ltb w (2 ^ 31) then w else 2 ^ 32 - w

-- The cases c, e and s of the `switch`.
unfoldable pub convert_one : ℕ → Spec → List Arg → Converted
unfolding print_string print_error
convert_one ch s [] = none
convert_one ch s (word w ∷ args) =
    if ch == b'c'
    then some (w ∷ [], args)
    else if ch == b'e'
    then print_error (magnitude w) args
    else none
convert_one ch s (text t ∷ args) =
    if ch == b's'
    then some (print_string s (elim t [ none ↦ codes "(null)" | some p ↦ p ]), args)
    else none

abbrev pub print_with : Option (ℕ × List Arg) → (ℕ → List Arg → Converted) → Converted
print_with none print = none
print_with (some (n, args)) print = print n args

unfoldable pub convert : ℕ → Spec → List Arg → Converted
unfolding getuint getint print_number print_signed convert_one
convert ch s args =
    if ch == b'd'
    then print_with (getint s.lflag args) (print_signed s)
    else if ch == b'u'
    then print_with (getuint s.lflag args) (λ n. print_number [] s n 10)
    else if ch == b'o'
    then some (codes "XXX", args)
    else if ch == b'p'
    then print_with (getuint 0 args) (λ n. print_number (codes "0x") s n 16)
    else if ch == b'x'
    then print_with (getuint s.lflag args) (λ n. print_number [] s n 16)
    else if ch == b'%'
    then some (b'%' ∷ [], args)
    else convert_one ch s args
