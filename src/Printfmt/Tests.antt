-- ===== src/Printfmt/Tests.antt =====
-- 300 in base 16, padded with zeros to a width of 6; and a buffer of 4 bytes at 200.
use cezos.Base.{ℕ, ◌-◌, ◌≡◌, refl, some, List, [], ◌∷◌, take, arith}
use cezos.Base.Int.{pos}
use cezos.Command.{codes}
use cezos.Printfmt.{printnum}
use cezos.Printfmt.Digits.{Printed, printnum-Printed}
use cezos.Printfmt.Escape.{word, scan, switch}
use cezos.Printfmt.Convert.{convert}
use cezos.Printfmt.Format.{done, vprintfmt}
use cezos.Printfmt.Buffer.{snprintf}
use cezos.Printfmt.Buffer.Written.{Stored, snprintf-Stored}
use cezos.Str.Memory.{Mem}

printnum-Printed_example :
    (out : List ℕ) × (printnum 64 300 16 (pos 6) b'0' ≡ some out) × Printed 300 16 (pos 6) b'0' out
printnum-Printed_example =
    printnum-Printed 64 300 16 (pos 6) b'0' (omega arith) (omega arith) (omega arith) (omega arith)

abbrev filled : Mem
filled a = 0xcc

printed : vprintfmt (codes "n=%d") (word 345 ∷ []) ≡ done (codes "n=345")
unfolding vprintfmt scan switch convert
printed = refl

snprintf-Stored_example :
    (m' : Mem) × (snprintf filled 200 (pos 4) (codes "n=%d") (word 345 ∷ []) ≡ some (pos 5, m'))
    × Stored filled 200 (take (4 - 1) (codes "n=345")) m'
snprintf-Stored_example =
    snprintf-Stored filled 200 4 (codes "n=%d") (word 345 ∷ []) (codes "n=345") (omega arith)
      (omega arith) (omega arith) (omega arith) printed
