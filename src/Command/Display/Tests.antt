-- ===== src/Command/Display/Tests.antt =====
-- The line "k" on a blank screen.
use cezos.Base.{◌≡◌, refl, if◌then◌else◌, some, List, ℕ, [], ◌∷◌, arith}
use cezos.Base.Int.{pos, negsuc}
use cezos.Console.Screen.{Console}
use cezos.Command.{codes, commands}
use cezos.Command.Match.{comparable}
use cezos.Printfmt.{digit}
use cezos.Printfmt.Format.Hex.{hex_digits}
use cezos.Command.Display.{Symbols, run_printing}
use cezos.Command.Display.Printed.{
  IsLinked, shown, help_text, info_text, symbol_text, run_printing-shown,
}

abbrev screen : Console
screen = record { c_buffer = λ i. 0x720; c_pos = 0; port = 0x3d4; outs = []; delays = 0 }

abbrev symbols : Symbols
symbols = record {
  start = 0x10_000c;
  entry = 0xf010_000c;
  etext = 0xf010_3000;
  edata = 0xf010_8000;
  end_bss = 0xf010_9000;
}

symbols-IsLinked : IsLinked symbols
symbols-IsLinked = record {
  start = omega arith;
  entry = omega arith;
  etext = omega arith;
  edata = omega arith;
  end_bss = omega arith;
}

abbrev line : List ℕ
line = b'k' ∷ []

run_printing-shown_example : run_printing (λ outs p i. 0) symbols line screen ≡ (
    if comparable line (codes "help")
    then some (pos 0, shown (λ outs p i. 0) (help_text commands) screen)
    else if comparable line (codes "kerninfo")
    then some (pos 0, shown (λ outs p i. 0) (info_text symbols) screen)
    else if comparable line (codes "shutdown")
    then some (negsuc 0, screen)
    else some (negsuc 9, screen))
run_printing-shown_example =
    run_printing-shown (λ outs p i. 0) symbols line screen symbols-IsLinked (omega arith, tt)

entry_line :
    symbol_text (codes "entry  ") 0xf010_000c
    ≡ codes "[Info] entry  f010000c (virt)  0010000c (phys)\n"
unfolding hex_digits digit
entry_line = refl
