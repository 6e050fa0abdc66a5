-- ===== src/Console/Setup/Tests.antt =====
-- A color display whose controller keeps its registers.
use cezos.Base.{ℕ, ◌+◌, ◌≡◌, refl, true, [], arith}
use cezos.Console.Screen.{Console, Device, move_cursor}
use cezos.Console.Setup.{Video, write_first, find_display, init_cga}
use cezos.Console.Setup.Cursor.{init_cga-move_cursor}
use cezos.Ports.{HasRegisters, register, selected}

abbrev color : Video
color = record { cga = λ i. 0x700 + i; monochrome = λ i. 0; writable = true }

abbrev screen : Console
screen = record { c_buffer = λ i. 0x700; c_pos = 1234; port = 0x3d4; outs = []; delays = 0 }

abbrev controller : Device
controller outs p i = register 0x3d4 (selected 0x3d4 outs) outs

controller-HasRegisters : HasRegisters controller 0x3d4
controller-HasRegisters = record { answer = λ outs. refl }

init_cga-move_cursor_example :
    ((init_cga controller color (move_cursor screen)).c_pos ≡ 1234)
    × (color.writable ≡ true
        → (i : ℕ) → (init_cga controller color (move_cursor screen)).c_buffer i ≡ 0x700 + i)
unfolding find_display write_first
init_cga-move_cursor_example =
    init_cga-move_cursor controller color screen refl controller-HasRegisters (omega arith)
