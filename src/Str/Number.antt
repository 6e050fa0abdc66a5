-- ===== src/Str/Number.antt =====
-- `strtol` of string.c on a C string, the list of its bytes before the NUL.
pub mod Read
pub mod Round
use cezos.Base.{
  ℕ, zero, suc, ◌+◌, ◌-◌, ◌*◌, ◌%◌, ◌^◌, ltb, leb, ◌==◌, ◌&&◌, ◌||◌, if◌then◌else◌, Bool, true,
  false, Option, none, some, List, [], ◌∷◌,
}
use cezos.Base.Int.{ℤ}
use cezos.Printfmt.Escape.{signed}

abbrev pub is_blank : ℕ → Bool
is_blank c = c == b' ' || c == b'\t'

unfoldable pub skip_blanks : List ℕ → List ℕ
skip_blanks [] = []
skip_blanks (c ∷ s) = let rest = skip_blanks s in if is_blank c then rest else c ∷ s

-- `neg`, and the string behind the sign.
unfoldable pub read_sign : List ℕ → Bool × List ℕ
read_sign [] = (false, [])
read_sign (c ∷ s) =
    if c == b'+' then (false, s) else if c == b'-' then (true, s) else (false, c ∷ s)

-- The base 0 is chosen from the string; `0x` is skipped in base 16 too.
unfoldable pub read_base : ℕ → List ℕ → ℕ × List ℕ
read_base base [] = (if base == 0 then 10 else base, [])
read_base base (c ∷ []) =
    if base == 0 && c == b'0' then (8, []) else (if base == 0 then 10 else base, c ∷ [])
read_base base (c ∷ d ∷ s) =
    if (base == 0 || base == 16) && (c == b'0' && d == b'x')
    then (16, s)
    else if base == 0 && c == b'0'
    then (8, d ∷ s)
    else (if base == 0 then 10 else base, c ∷ d ∷ s)

-- `dig`; `none` for a byte that is no digit and no letter.
unfoldable pub dig : ℕ → Option ℕ
dig c =
    if leb b'0' c && leb c b'9'
    then some (c - b'0')
    else if leb b'a' c && leb c b'z'
    then some (c - b'a' + 10)
    else if leb b'A' c && leb c b'Z'
    then some (c - b'A' + 10)
    else none

-- `dig`, if it is a digit of the base.
unfoldable pub dig_below : ℕ → ℕ → Option ℕ
unfolding dig
dig_below base c = elim (dig c) [ none ↦ none | some d ↦ if leb base d then none else some d ]

-- The loop over the digits; `val` is the word of a `long`.
unfoldable pub read_digits : ℕ → ℕ → List ℕ → ℕ × List ℕ
unfolding dig_below
read_digits base val [] = (val, [])
read_digits base val (c ∷ s) = elim (dig_below base c) [
  | none ↦ (val, c ∷ s)
  | some d ↦ read_digits base ((val * base + d) % 2 ^ 32) s
]

-- The value of `neg ? -val : val`
abbrev pub with_sign : Bool → ℕ → ℤ
with_sign true val = signed ((2 ^ 32 - val) % 2 ^ 32)
with_sign false val = signed val

abbrev pub finish : Bool → ℕ × List ℕ → ℤ × List ℕ
finish neg (val, s) = (with_sign neg val, s)

-- `strtol` for a base that is not negative: the value, and the string at `*endptr`.
unfoldable pub strtol : List ℕ → ℕ → ℤ × List ℕ
unfolding skip_blanks read_sign read_base read_digits
strtol s base =
    let (neg, s1) = read_sign (skip_blanks s) in
    let (base1, s2) = read_base base s1 in finish neg (read_digits base1 0 s2)
