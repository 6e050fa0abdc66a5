-- ===== src/Console/Setup.antt =====
-- `console_init` and `clrscr` of console.c.
pub mod Cursor
mod Tests
use cezos.Base.{
  ℕ, zero, suc, ◌+◌, ◌*◌, ◌/◌, ◌%◌, ◌^◌, ◌==◌, not, if◌then◌else◌, bit_and, bit_or, Bool, true,
  false, Option, none, some, List, [], ◌∷◌,
}
use cezos.Command.{codes}
use cezos.Console.Screen.{Console, Device, outb, com1, com1_lsr}
use cezos.Printf.{cprintf}

-- MONOCHROME_PORT and CGA_PORT
abbrev pub monochrome_port : ℕ
monochrome_port = 0x3b4

abbrev pub cga_port : ℕ
cga_port = 0x3d4

-- The cells at the address of the color display and at that of the monochrome one; whether the former
-- keep what is written to them.
pub record Video : Type 0 where
  pub cga : ℕ → ℕ
  pub monochrome : ℕ → ℕ
  pub writable : Bool

-- `*cp = v` at the color display
unfoldable pub write_first : ℕ → Video → Video
write_first v d = if d.writable then record d { cga = λ i. if i == 0 then v else d.cga i } else d

-- The test of the display, which gives `c_buffer` and `port`.
unfoldable pub find_display : Video → (ℕ → ℕ) × ℕ
unfolding write_first
find_display d =
    let tried = write_first 0xCE70 d in
    if tried.cga 0 == 0xCE70
    then ((write_first (d.cga 0) tried).cga, cga_port)
    else (tried.monochrome, monochrome_port)

module _ (inb : Device) where
  -- The cursor's position, from the registers 14 and 15 of the display's controller.
  unfoldable pub read_cursor : Console → Console
  unfolding outb
  read_cursor s =
      let high = outb s.port 14 s in
      let low = outb s.port 15 high in
      record low {
        c_pos = bit_or (inb high.outs (s.port + 1) 0 * 2 ^ 8) (inb low.outs (s.port + 1) 0) % 65536;
      }

  unfoldable pub init_cga : Video → Console → Console
  unfolding find_display read_cursor
  init_cga d s =
      let (buffer, port) = find_display d in
      read_cursor (record s { c_buffer = buffer; port = port })

  -- `serial_init`: the writes to COM1 + COM_FCR, COM_LCR, COM_DLL, COM_DLM, COM_LCR, COM_MCR and
  -- COM_IER, and `serial_exists`. The two reads behind it are thrown away.
  unfoldable pub serial_init : Console → Bool × Console
  unfolding outb
  serial_init s =
      let latched =
        outb (com1 + 1) 0
          (outb com1 (115200 / 9600) (outb (com1 + 3) 0x80 (outb (com1 + 2) 0 s))) in
      let ready = outb (com1 + 1) 0x01 (outb (com1 + 4) 0 (outb (com1 + 3) 0x03 latched)) in
      (not (inb ready.outs com1_lsr 0 == 0xff), ready)

  abbrev printed : Option (Console × ℕ) → Option (Bool × Console)
  printed none = none
  printed (some (s, cnt)) = some (false, s)

  -- `kbd_init` does nothing. `none` if the printing has no result.
  unfoldable pub console_init : Video → Console → Option (Bool × Console)
  unfolding init_cga serial_init cprintf
  console_init d s =
      let (serial_exists, t) = serial_init (init_cga d s) in
      elim serial_exists [
        | true ↦ some (true, t)
        | false ↦ printed (cprintf inb (codes "No serial monitor\n") [] t)
      ]

-- The loop of `clrscr` from the byte `i` on; a cell has two bytes.
unfoldable pub clear_cells : ℕ → ℕ → (ℕ → ℕ) → ℕ → ℕ
clear_cells i zero cells = cells
clear_cells i (suc n) cells = clear_cells (i + 2) n (λ j. if j == i / 2 then b' ' else cells j)

-- `while(inb(0x64) & 0x1) inb(0x60);` over the readings of the two ports to come.
unfoldable pub drain : List (ℕ × ℕ) → List (ℕ × ℕ)
drain [] = []
drain ((status, code) ∷ readings) =
    let rest = drain readings in if bit_and status 1 == 0 then (status, code) ∷ readings else rest

-- `clrscr`, with interrupts off: the cells of the color display, and the readings that are left.
unfoldable pub clrscr : (ℕ → ℕ) → List (ℕ × ℕ) → (ℕ → ℕ) × List (ℕ × ℕ)
unfolding clear_cells drain
clrscr cells readings = (clear_cells 0 (80 * 25) cells, drain readings)
