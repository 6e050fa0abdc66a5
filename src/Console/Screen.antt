-- ===== src/Console/Screen.antt =====
-- The output of console.c: the serial line, the parallel port and the CGA text buffer.
pub mod Bounds
pub mod Scroll
mod Tests
use cezos.Base.{
  ℕ, zero, suc, ◌+◌, ◌-◌, ◌*◌, ◌/◌, ◌%◌, ◌==◌, ltb, leb, not, if◌then◌else◌, bit_and, List, [], ◌∷◌,
}

-- CRT_COLS and CRT_SIZE of console.h
abbrev pub crt_cols : ℕ
crt_cols = 80

abbrev pub crt_rows : ℕ
crt_rows = 25

abbrev pub crt_size : ℕ
crt_size = crt_rows * crt_cols

-- COM1 + COM_TX, COM1 + COM_LSR and the ports of the printer
abbrev pub com1 : ℕ
com1 = 0x3f8

abbrev pub com1_lsr : ℕ
com1_lsr = com1 + 5

abbrev pub lpt : ℕ
lpt = 0x378

-- `c_buffer`, `c_pos`, `port`, the writes by `outb`, newest first, each with its port and its byte,
-- and the number of calls of `delay`.
pub record Console : Type 0 where
  pub c_buffer : ℕ → ℕ
  pub c_pos : ℕ
  pub port : ℕ
  pub outs : List (ℕ × ℕ)
  pub delays : ℕ

unfoldable pub outb : ℕ → ℕ → Console → Console
outb p v s = record s { outs = (p, v % 256) ∷ s.outs }

-- The loop `for (i = 0; !(ready) && i < 12800; ++i) delay();` with the rounds that are left: how
-- many rounds it waits. `status` answers the poll of a round.
unfoldable pub wait : (ℕ → ℕ) → ℕ → ℕ → ℕ → ℕ
wait status flag i zero = i
wait status flag i (suc left) =
    let rest = wait status flag (i + 1) left in if bit_and (status i) flag == 0 then rest else i

abbrev pub wait_limit : ℕ
wait_limit = 12800

-- What the hardware answers to `inb`: from the writes so far, the port and the number of the poll.
abbrev pub Device : Type 0
Device = List (ℕ × ℕ) → ℕ → ℕ → ℕ

-- The cell that `c_buffer[c_pos]` is in, overwritten; a cell is a uint16_t.
unfoldable pub set_cell : ℕ → ℕ → Console → Console
set_cell i v s = record s { c_buffer = λ j. if j == i then v % 65536 else s.c_buffer j }

-- A character with no attribute is given black on white: `c |= 0x0700` where `c` is below 256.
unfoldable pub with_attribute : ℕ → ℕ
with_attribute c = if ltb c 256 then c + 0x700 else c

-- The `switch` of `cga_putc`, the tab left out. `(c & ~0xff) | ' '` is a sum.
unfoldable pub cga_char : ℕ → Console → Console
unfolding set_cell
cga_char c s =
    if c % 256 == b'\x08'
    then (if ltb 0 s.c_pos
        then set_cell (s.c_pos - 1) (c / 256 * 256 + 32) (record s { c_pos = s.c_pos - 1 })
        else s)
    else if c % 256 == b'\n'
    then (let down = (s.c_pos + crt_cols) % 65536 in record s { c_pos = down - down % crt_cols })
    else if c % 256 == b'\r'
    then record s { c_pos = s.c_pos - s.c_pos % crt_cols }
    else set_cell s.c_pos c (record s { c_pos = (s.c_pos + 1) % 65536 })

-- The end of `cga_putc`: one line up if the position has left the screen.
unfoldable pub scroll : Console → Console
scroll s =
    if leb crt_size s.c_pos
    then record s {
      c_buffer = λ i.
          if ltb i (crt_size - crt_cols)
          then s.c_buffer (i + crt_cols)
          else if ltb i crt_size
          then 0x720
          else s.c_buffer i;
      c_pos = s.c_pos - crt_cols;
    }
    else s

-- The cursor of the display follows `c_pos`.
unfoldable pub move_cursor : Console → Console
unfolding outb
move_cursor s =
    outb (s.port + 1) s.c_pos
      (outb s.port 15 (outb (s.port + 1) (s.c_pos / 256) (outb s.port 14 s)))

-- `cga_putc` of anything but a tab
unfoldable pub cga_plain : ℕ → Console → Console
cga_plain c s = move_cursor (scroll (cga_char (with_attribute c) s))

module _ (inb : Device) where
  -- Poll `p` for a flag, at most 12800 times.
  unfoldable pub await : ℕ → ℕ → Console → Console
  unfolding wait
  await p flag s = record s { delays = s.delays + wait (inb s.outs p) flag 0 wait_limit }

  unfoldable pub serial_putc : ℕ → Console → Console
  unfolding outb await
  serial_putc c s = outb com1 c (await com1_lsr 0x20 s)

  unfoldable pub lpt_putc : ℕ → Console → Console
  unfolding outb await
  lpt_putc c s = outb (lpt + 2) 0x08 (outb (lpt + 2) 0x0d (outb lpt c (await (lpt + 1) 0x80 s)))

  -- `console_putc` of anything but a tab
  unfoldable pub console_plain : ℕ → Console → Console
  console_plain c s = cga_plain c (lpt_putc c (serial_putc c s))

  -- A tab is five calls of `console_putc(' ')`, none of which meets the tab again.
  unfoldable pub tab_spaces : Console → Console
  tab_spaces s = let space = console_plain b' ' in space (space (space (space (space s))))

  unfoldable pub cga_putc : ℕ → Console → Console
  cga_putc c s = if c % 256 == b'\t' then move_cursor (scroll (tab_spaces s)) else cga_plain c s

  unfoldable pub console_putc : ℕ → Console → Console
  console_putc c s = cga_putc c (lpt_putc c (serial_putc c s))
