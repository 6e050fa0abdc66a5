-- ===== src/Printf/Tests.antt =====
-- "pid 7" at the start of the third line.
use cezos.Base.{◌+◌, ◌≡◌, refl, some, [], ◌∷◌, arith}
use cezos.Command.{codes}
use cezos.Console.Screen.{Console}
use cezos.Console.Screen.Scroll.{view}
use cezos.Printf.{cprintf}
use cezos.Printf.Shown.{written, cprintf-Shown}
use cezos.Printfmt.Escape.{word, scan, switch}
use cezos.Printfmt.Convert.{convert}
use cezos.Printfmt.Format.{done, vprintfmt}

abbrev screen : Console
screen = record { c_buffer = λ i. 0x720; c_pos = 160; port = 0x3d4; outs = []; delays = 0 }

printed : vprintfmt (codes "pid %d") (word 7 ∷ []) ≡ done (codes "pid 7")
unfolding vprintfmt scan switch convert
printed = refl

cprintf-Shown_example :
    (t : Console) × (cprintf (λ outs p i. 0) (codes "pid %d") (word 7 ∷ []) screen ≡ some (t, 0))
    × (view t ≡ (160 + 5, written (codes "pid 7") 160 (λ i. 0x720)))
cprintf-Shown_example =
    cprintf-Shown (λ outs p i. 0) (codes "pid %d") (word 7 ∷ []) (codes "pid 7") screen printed
      (
        omega arith,
        omega arith,
        (
          omega arith,
          omega arith,
          (omega arith, omega arith, (omega arith, omega arith, (omega arith, omega arith, tt))),
        ),
      )
      (omega arith)
