-- ===== src/Console/Screen/Tests.antt =====
-- Characters at a position of the last line, and at one above it.
use cezos.Base.{ℕ, ◌+◌, ◌*◌, ◌/◌, ◌≤◌, ◌<◌, ◌≡◌, [], arith}
use cezos.Console.Screen.{Console, Device, console_putc}
use cezos.Console.Screen.Bounds.{Inside, console_putc-Inside}
use cezos.Console.Screen.Scroll.{Scrolled, console_putc-newline}

abbrev screen : ℕ → Console
screen p = record { c_buffer = λ i. 0x700 + i; c_pos = p; port = 0x3d4; outs = []; delays = 0 }

-- hardware that is always ready
abbrev ready : Device
ready s p i = 0xff

console_putc-Inside_example : Inside (screen 1999) (console_putc ready b'x' (screen 1999))
console_putc-Inside_example = console_putc-Inside ready b'x' (omega arith)

console_putc-newline_example :
    ((screen 1950).c_pos < 1920
      → ((console_putc ready b'\n' (screen 1950)).c_pos ≡ (1950 / 80 + 1) * 80)
        × ((console_putc ready b'\n' (screen 1950)).c_buffer ≡ (screen 1950).c_buffer))
    × (1920 ≤ (screen 1950).c_pos → Scrolled (screen 1950) (console_putc ready b'\n' (screen 1950)))
console_putc-newline_example = console_putc-newline ready (screen 1950) (omega arith)
