-- ===== src/Printfmt.antt =====
-- src/lib/printfmt.c, the printing of numbers.
pub mod Digits
pub mod Escape
pub mod Convert
pub mod Format
pub mod Buffer
mod Tests
use cezos.Base.{
  ℕ, zero, suc, ◌+◌, ◌-◌, ◌/◌, ◌%◌, leb, ltb, if◌then◌else◌, Option, none, some, List, [], ◌∷◌,
  ◌++◌, replicate,
}
use cezos.Base.Int.{ℤ, pos, negsuc, pos_part, ◌-ℤ◌}

-- The character of a digit, in "0123456789abcdef".
unfoldable pub digit : ℕ → ℕ
digit d = if ltb d 10 then b'0' + d else b'a' + (d - 10)

-- What `while (--width > 0) putch(padc)` prints.
unfoldable pub padding : ℤ → ℕ → List ℕ
padding width padc = replicate (pos_part (width -ℤ pos 1)) padc

-- What `printnum` gives to `putch`, in order, on fuel for the depth of the recursion.
unfoldable pub printnum : ℕ → ℕ → ℕ → ℤ → ℕ → Option (List ℕ)
unfolding padding digit
printnum zero num base width padc = none
printnum (suc fuel) num base width padc =
    let rest = printnum fuel (num / base) base (width -ℤ pos 1) padc in
    if leb base num
    then elim rest [ none ↦ none | some out ↦ some (out ++ digit (num % base) ∷ []) ]
    else some (padding width padc ++ digit (num % base) ∷ [])
