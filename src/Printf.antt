-- ===== src/Printf.antt =====
-- src/kernel/printf.c: `vprintfmt` on the console.
pub mod Shown
mod Tests
use cezos.Base.{ℕ, Option, none, some, List, [], ◌∷◌}
use cezos.Console.Screen.{Console, Device, console_putc}
use cezos.Printfmt.Escape.{Arg}
use cezos.Printfmt.Format.{Printed, done, fault, stuck, vprintfmt}

module _ (inb : Device) where
  -- `cputchar`, which is `console_putc`. `*cnt++` moves the pointer `cnt`, its own copy, and leaves the
  -- count.
  unfoldable pub putch : ℕ → Console × ℕ → Console × ℕ
  unfolding console_putc
  putch ch (s, cnt) = (console_putc inb ch s, cnt)

  unfoldable pub putch_all : List ℕ → Console × ℕ → Console × ℕ
  unfolding putch
  putch_all [] st = st
  putch_all (ch ∷ out) st = putch_all out (putch ch st)

  abbrev pub run_console : Console → Printed → Option (Console × ℕ)
  run_console s (done out) = some (putch_all out (s, 0))
  run_console s fault = none
  run_console s stuck = none

  -- The console and the value that is returned; `none` if the printing has none.
  unfoldable pub vcprintf : List ℕ → List Arg → Console → Option (Console × ℕ)
  unfolding putch_all vprintfmt
  vcprintf fmt args s = run_console s (vprintfmt fmt args)

  unfoldable pub cprintf : List ℕ → List Arg → Console → Option (Console × ℕ)
  unfolding vcprintf
  cprintf fmt args s = vcprintf fmt args s
