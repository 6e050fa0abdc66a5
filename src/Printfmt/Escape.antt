-- ===== src/Printfmt/Escape.antt =====
-- The escapes of a format string in `vprintfmt` of src/lib/printfmt.c: flags, numbers, conversions.
use cezos.Base.{
  ℕ, ◌+◌, ◌-◌, ◌*◌, ◌^◌, leb, ltb, ◌==◌, ◌&&◌, ◌||◌, if◌then◌else◌, Bool, true, false, Option, none,
  some, List, [], ◌∷◌,
}
use cezos.Base.Int.{ℤ, pos, negsuc, neg_part}

-- What a place of the `va_list` holds: a 32-bit word, or a pointer to a string, with `none` for NULL.
-- A `long long` takes two words, the low one first.
pub data Arg : Type 0 where
  word : ℕ → Arg
  text : Option (List ℕ) → Arg

-- `padc`, `width`, `precision`, `lflag` and `altflag`.
pub record Spec : Type 0 where
  pub padc : ℕ
  pub width : ℤ
  pub precision : ℤ
  pub lflag : ℕ
  pub altflag : Bool

abbrev pub initial : Spec
initial = record { padc = b' '; width = negsuc 0; precision = negsuc 0; lflag = 0; altflag = false }

-- An `int32_t` of a word, and the test for a negative number.
abbrev pub signed : ℕ → ℤ
signed w = if ltb w (2 ^ 31) then pos w else negsuc (2 ^ 32 - w - 1)

abbrev pub is_neg : ℤ → Bool
is_neg n = ltb 0 (neg_part n)

abbrev pub process_precision : ℤ → Spec → Spec
process_precision n s =
    if is_neg s.width
    then record s { width = n; precision = negsuc 0 }
    else record s { precision = n }

-- One pass of the `switch`: a flag, the first digit of a number, a conversion, which comes in
-- `convert`, or neither; or the argument of a `*` is missing.
pub data Switch : Type 0 where
  flag : Spec → List Arg → Switch
  number : ℕ → Switch
  conversion unrecognized no_argument : Switch

abbrev pub is_conversion : ℕ → Bool
is_conversion ch =
    ch == b'c'
    || ch == b'e'
    || ch == b's'
    || ch == b'd'
    || ch == b'u'
    || ch == b'o'
    || ch == b'p'
    || ch == b'x'
    || ch == b'%'

abbrev pub is_digit : ℕ → Bool
is_digit ch = leb b'0' ch && leb ch b'9'

-- `precision = va_arg(ap, int)`
abbrev star : Spec → List Arg → Switch
star s [] = no_argument
star s (text t ∷ args) = no_argument
star s (word w ∷ args) = flag (process_precision (signed w) s) args

unfoldable pub switch : Spec → ℕ → List Arg → Switch
switch s ch args =
    if ch == b'-'
    then flag (record s { padc = b'-' }) args
    else if ch == b'0'
    then flag (record s { padc = b'0' }) args
    else if is_digit ch
    then number (ch - b'0')
    else if ch == b'*'
    then star s args
    else if ch == b'.'
    then flag (record s { width = if is_neg s.width then pos 0 else s.width }) args
    else if ch == b'#'
    then flag (record s { altflag = true }) args
    else if ch == b'l'
    then flag (record s { lflag = s.lflag + 1 }) args
    else if is_conversion ch
    then conversion
    else unrecognized

-- What follows a `%`: a conversion with its flags and the rest of the format, or none.
pub data Escape : Type 0 where
  found : ℕ → Spec → List ℕ → List Arg → Escape
  unknown : List Arg → Escape
  missing : Escape

-- The flags after a number that is read, if there is one.
abbrev pub numbered : Option ℕ → Spec → Spec
numbered none s = s
numbered (some n) s = process_precision (pos n) s

abbrev pub goes_on : Option ℕ → ℕ → Bool
goes_on none ch = false
goes_on (some n) ch = is_digit ch

abbrev pub extend : Option ℕ → ℕ → Option ℕ
extend none ch = none
extend (some n) ch = some (n * 10 + (ch - b'0'))

-- From `reswitch` on; `n` is the number that the loop over digits has read so far.
unfoldable pub scan : Option ℕ → Spec → List ℕ → List Arg → Escape
scan n s [] args = unknown args
scan n s (ch ∷ fmt) args = elim (goes_on n ch) [
  | true ↦ scan (extend n ch) s fmt args
  | false ↦ elim (switch (numbered n s) ch args) [
    | flag s' args' ↦ scan none s' fmt args'
    | number d ↦ scan (some d) (numbered n s) fmt args
    | conversion ↦ found ch (numbered n s) fmt args
    | unrecognized ↦ unknown args
    | no_argument ↦ missing
  ]
]
