-- ===== src/Console/Screen/Scroll.antt =====
-- What one character does to the screen: a character in its cell, a new line, a scroll.
use cezos.Base.{
  ℕ, ◌+◌, ◌-◌, ◌*◌, ◌/◌, ◌%◌, ◌≤◌, ◌<◌, ◌==◌, ◌≡◌, refl, ap, ◌∙◌, arith, ltb, leb, if◌then◌else◌,
  false, true,
}
use cezos.Console.Screen.{
  crt_size, Console, with_attribute, cga_char, scroll, move_cursor, cga_plain, Device, cga_putc,
  console_putc, serial_putc, lpt_putc,
}

-- The screen after one line up: each line holds the one below it, and the last line is blank.
pub record Scrolled (s t : Console) : Type 0 where
  pub lines : (i : ℕ) → i < 1920 → t.c_buffer i ≡ s.c_buffer (i + 80)
  pub blank : (i : ℕ) → 1920 ≤ i → i < crt_size → t.c_buffer i ≡ 0x720
  pub position : t.c_pos ≡ 1920

-- the position, and the cells
abbrev pub View : Type 0
View = ℕ × (ℕ → ℕ)

abbrev pub view : Console → View
view s = (s.c_pos, s.c_buffer)

view-move_cursor : (s : Console) → view (move_cursor s) ≡ view s
unfolding move_cursor
view-move_cursor s = refl

view-ports :
    (inb : Device) (c : ℕ) (s : Console) → view (lpt_putc inb c (serial_putc inb c s)) ≡ view s
unfolding lpt_putc serial_putc
view-ports inb c s = refl

next_line :
    (s : Console)
    → s.c_pos < crt_size
    → view (cga_char 0x70a s) ≡ ((s.c_pos / 80 + 1) * 80, s.c_buffer)
unfolding cga_char
next_line s h = ap (λ (p : ℕ). (p, s.c_buffer)) (omega arith)

put_cell :
    (c : ℕ) (s : Console)
    → 32 ≤ c
    → c < 256
    → s.c_pos < crt_size
    → view (cga_char (with_attribute c) s)
      ≡ (s.c_pos + 1, λ j. if j == s.c_pos then c + 0x700 else s.c_buffer j)
unfolding cga_char with_attribute
put_cell c s lo hi h =
    let black : ltb c 256 ≡ true = ground arith in
    let low : (c + 0x700) % 256 ≡ c = omega arith in
    let wide : (c + 0x700) % 65536 ≡ c + 0x700 = omega arith in
    let next : (s.c_pos + 1) % 65536 ≡ s.c_pos + 1 = omega arith in
    let t1 : (c == 8) ≡ false = ground arith in
    let t2 : (c == 10) ≡ false = ground arith in
    let t3 : (c == 13) ≡ false = ground arith in rw (black, low, t1, t2, t3, wide, next) refl

-- A backspace in black on white.
back_cell :
    (s : Console)
    → 0 < s.c_pos
    → view (cga_char 0x708 s) ≡ (s.c_pos - 1, λ j. if j == s.c_pos - 1 then 0x720 else s.c_buffer j)
unfolding cga_char
back_cell s pos = let test : ltb 0 s.c_pos ≡ true = ground arith in rw test refl

scroll-stay : (s : Console) → s.c_pos < crt_size → scroll s ≡ s
unfolding scroll
scroll-stay s h = ground arith

scroll-line :
    (s : Console)
    → crt_size ≤ s.c_pos
    → view (scroll s) ≡ (
      s.c_pos - 80,
      λ i.
          if ltb i 1920
          then s.c_buffer (i + 80)
          else if ltb i crt_size
          then 0x720
          else s.c_buffer i,
    )
unfolding scroll
scroll-line s h = let test : leb crt_size s.c_pos ≡ true = ground arith in rw test refl

module _ (inb : Device) (s : Console) (h : s.c_pos < crt_size) where
  -- the state when `cga_putc` begins
  abbrev sent : ℕ → Console
  sent c = lpt_putc inb c (serial_putc inb c s)

  abbrev advanced : Console
  advanced = cga_char 0x70a (sent b'\n')

  line_view : view (console_putc inb b'\n' s) ≡ view (scroll advanced)
  unfolding console_putc cga_putc cga_plain with_attribute move_cursor
  line_view = refl

  advanced-view : view advanced ≡ ((s.c_pos / 80 + 1) * 80, s.c_buffer)
  unfolding lpt_putc serial_putc
  advanced-view = next_line (sent b'\n') h

  advanced_pos : advanced.c_pos ≡ (s.c_pos / 80 + 1) * 80
  advanced_pos = ap (λ (v : View). v.0) advanced-view

  newline_above :
      s.c_pos < 1920 → view (console_putc inb b'\n' s) ≡ ((s.c_pos / 80 + 1) * 80, s.c_buffer)
  newline_above above =
      line_view ∙ ap view (scroll-stay advanced (omega (arith, advanced_pos))) ∙ advanced-view

  newline_last :
      1920 ≤ s.c_pos
      → view (console_putc inb b'\n' s) ≡ (
        advanced.c_pos - 80,
        λ i.
            if ltb i 1920
            then advanced.c_buffer (i + 80)
            else if ltb i crt_size
            then 0x720
            else advanced.c_buffer i,
      )
  newline_last last = line_view ∙ scroll-line advanced (omega (arith, advanced_pos))

  newline_cell :
      1920 ≤ s.c_pos
      → (i : ℕ)
      → (console_putc inb b'\n' s).c_buffer i ≡ (
          if ltb i 1920
          then s.c_buffer (i + 80)
          else if ltb i crt_size
          then 0x720
          else s.c_buffer i)
  newline_cell last i =
      ap (λ (v : View). v.1 i) (newline_last last)
      ∙ ap
          (λ (v : View).
            if ltb i 1920 then v.1 (i + 80) else if ltb i crt_size then 0x720 else v.1 i)
          advanced-view

  newline_position : 1920 ≤ s.c_pos → (console_putc inb b'\n' s).c_pos ≡ 1920
  newline_position last = ap (λ (v : View). v.0) (newline_last last) ∙ omega (arith, advanced_pos)

  -- A new line, from a position on the screen. Above the last line the position goes to the start
  -- of the next line and no cell changes; on the last line every line takes the text of the one
  -- below it, the last line becomes blank, and the position goes to its start.
  pub console_putc-newline :
      (s.c_pos < 1920
        → ((console_putc inb b'\n' s).c_pos ≡ (s.c_pos / 80 + 1) * 80)
          × ((console_putc inb b'\n' s).c_buffer ≡ s.c_buffer))
      × (1920 ≤ s.c_pos → Scrolled s (console_putc inb b'\n' s))
  console_putc-newline = (
    λ above. (
      ap (λ (v : View). v.0) (newline_above above),
      ap (λ (v : View). v.1) (newline_above above),
    ),
    λ last. record {
      lines = λ i lt. newline_cell last i ∙ ground arith;
      blank = λ i lo hi. newline_cell last i ∙ ground arith;
      position = newline_position last;
    },
  )

  typed_view :
      (c : ℕ)
      → 32 ≤ c
      → c < 256
      → view (console_putc inb c s) ≡ view (scroll (cga_char (with_attribute c) (sent c)))
  unfolding console_putc cga_putc cga_plain move_cursor
  typed_view c lo hi = let test : (c % 256 == 9) ≡ false = ground arith in rw test refl

  -- A character from the space up, at a position before the last cell: it is written black on
  -- white at the position, no other cell changes, and the position goes up by one.
  pub console_putc-char :
      (c : ℕ)
      → 32 ≤ c
      → c < 256
      → s.c_pos < 1999
      → view (console_putc inb c s)
        ≡ (s.c_pos + 1, λ j. if j == s.c_pos then c + 0x700 else s.c_buffer j)
  unfolding lpt_putc serial_putc
  console_putc-char c lo hi room =
      let cell = put_cell c (sent c) lo hi h in
      typed_view c lo hi
      ∙ ap view (
          scroll-stay (cga_char (with_attribute c) (sent c))
            (omega (arith, ap (λ (v : View). v.0) cell)))
      ∙ cell

  back_view : view (console_putc inb b'\x08' s) ≡ view (scroll (cga_char 0x708 (sent b'\x08')))
  unfolding console_putc cga_putc cga_plain with_attribute move_cursor
  back_view = refl

  -- A backspace behind the start of the screen goes back by one cell and blanks it.
  pub console_putc-backspace :
      0 < s.c_pos
      → view (console_putc inb b'\x08' s)
        ≡ (s.c_pos - 1, λ j. if j == s.c_pos - 1 then 0x720 else s.c_buffer j)
  unfolding lpt_putc serial_putc
  console_putc-backspace pos =
      let cell = back_cell (sent b'\x08') pos in
      back_view
      ∙ ap view
          (scroll-stay (cga_char 0x708 (sent b'\x08')) (omega (arith, ap (λ (v : View). v.0) cell)))
      ∙ cell
