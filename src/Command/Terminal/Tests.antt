-- ===== src/Command/Terminal/Tests.antt =====
-- The lines "x", with a backspace, and "s", which powers off, and one more.
use cezos.Base.{ℕ, ◌≡◌, refl, some, List, [], ◌∷◌, arith}
use cezos.Console.Screen.{Console}
use cezos.Readline.Edit.{no_end}
use cezos.Command.{wait_input}
use cezos.Command.Display.{Symbols}
use cezos.Command.Display.Printed.{IsLinked}
use cezos.Command.Terminal.{wait_input_printing}
use cezos.Command.Terminal.Served.{
  Typed, keys, keys_left, lines, lines_left, served, wait_input_printing-served,
}

abbrev screen : Console
screen = record { c_buffer = λ i. 0x720; c_pos = 0; port = 0x3d4; outs = []; delays = 0 }

abbrev symbols : Symbols
symbols = record {
  start = 0x10_000c;
  entry = 0xf010_000c;
  etext = 0xf010_3000;
  edata = 0xf010_8000;
  end_bss = 0xf010_9000;
}

symbols-IsLinked : IsLinked symbols
symbols-IsLinked = record {
  start = omega arith;
  entry = omega arith;
  etext = omega arith;
  edata = omega arith;
  end_bss = omega arith;
}

abbrev typed_lines : List Typed
typed_lines =
    record { chars = b'a' ∷ b'\x08' ∷ b'x' ∷ []; last = b'\n' }
    ∷ record { chars = b's' ∷ []; last = b'\r' }
    ∷ record { chars = []; last = b'\n' }
    ∷ []

wait_input_printing-served_example :
    (wait_input (lines typed_lines) ≡ lines_left (served typed_lines))
    × (buf' : ℕ → ℕ) × (s' : Console) × (wait_input_printing
          (λ outs p i. 0)
          symbols
          (keys typed_lines)
          (λ j. 0)
          screen
        ≡ some ((keys_left (served typed_lines), buf'), s'))
unfolding no_end
wait_input_printing-served_example =
    wait_input_printing-served (λ outs p i. 0) symbols symbols-IsLinked typed_lines (λ j. 0) screen
      (
        refl,
        refl,
        (omega arith, (omega arith, (omega arith, tt))),
        (refl, refl, (omega arith, tt), (refl, refl, tt, tt)),
      )
