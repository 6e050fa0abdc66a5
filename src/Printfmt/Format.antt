-- ===== src/Printfmt/Format.antt =====
-- `vprintfmt` of src/lib/printfmt.c.
pub mod Ends
pub mod Text
pub mod Hex
pub mod Pieces
mod Tests
use cezos.Base.{
  ℕ, zero, suc, ◌+◌, ◌==◌, true, false, Option, none, some, List, [], ◌∷◌, ◌++◌, length,
}
use cezos.Printfmt.Escape.{Arg, initial, Escape, scan, found, unknown, missing}
use cezos.Printfmt.Convert.{convert}

-- What a call prints: the characters that it gives to `putch`, in order. `fault` is a read of
-- what is not there, an argument most of all, and `stuck` no result of the code: the fuel has run out.
pub data Printed : Type 0 where
  done : List ℕ → Printed
  fault stuck : Printed

abbrev pub emit : List ℕ → Printed → Printed
emit out (done rest) = done (out ++ rest)
emit out fault = fault
emit out stuck = stuck

-- The end of a round after a conversion and after an escape; `go` is the loop. After an escape that is
-- not recognized the code prints the `%` and goes on behind it, so that the escape is printed as it
-- is; the arguments that its `*` took are gone.
abbrev pub after_conversion :
    (List ℕ → List Arg → Printed) → List ℕ → Option (List ℕ × List Arg) → Printed
after_conversion go rest none = fault
after_conversion go rest (some (out, args)) = emit out (go rest args)

unfoldable pub after_escape : (List ℕ → List Arg → Printed) → List ℕ → Escape → Printed
after_escape go fmt (unknown args) = emit (b'%' ∷ []) (go fmt args)
after_escape go fmt missing = fault
after_escape go fmt (found ch s rest args) = after_conversion go rest (convert ch s args)

-- The loop of `vprintfmt`.
unfoldable pub format : ℕ → List ℕ → List Arg → Printed
unfolding after_escape
format fuel [] args = done []
format zero (ch ∷ fmt) args = stuck
format (suc fuel) (ch ∷ fmt) args = elim (ch == b'%') [
  | false ↦ emit (ch ∷ []) (format fuel fmt args)
  | true ↦ after_escape (format fuel) fmt (scan none initial fmt args)
]

-- Each round takes a byte of the format at least.
unfoldable pub vprintfmt : List ℕ → List Arg → Printed
unfolding format
vprintfmt fmt args = format (length fmt) fmt args
