-- ===== src/Console/Screen/Bounds.antt =====
-- Every write of `console_putc` to the text buffer is inside the screen.
use cezos.Base.{ℕ, ◌%◌, ◌≤◌, ◌<◌, ◌==◌, ◌≡◌, inl, inr, refl, arith, Bool-cases}
use cezos.Console.Screen.{
  crt_size, Console, with_attribute, cga_char, scroll, move_cursor, cga_plain, Device,
  console_plain, cga_putc, tab_spaces, console_putc, serial_putc, lpt_putc,
}

-- The position is on the screen, and the memory behind the screen is as in `s`.
pub record Inside (s t : Console) : Type 0 where
  pub on_screen : t.c_pos < crt_size
  pub beyond : (i : ℕ) → crt_size ≤ i → t.c_buffer i ≡ s.c_buffer i

module _ {s : Console} where
  cga_char_at :
      (c : ℕ) {t : Console}
      → Inside s t
      → (cga_char c t).c_pos < 2080
        × ((i : ℕ) → crt_size ≤ i → (cga_char c t).c_buffer i ≡ s.c_buffer i)
  unfolding cga_char
  cga_char_at c v = (ground arith, λ i h. ground (arith, v.beyond i))

  scroll-Inside :
      (t : Console)
      → t.c_pos < 2080
      → ((i : ℕ) → crt_size ≤ i → t.c_buffer i ≡ s.c_buffer i)
      → Inside s (scroll t)
  unfolding scroll
  scroll-Inside t below same = record {
    on_screen = ground arith;
    beyond = λ i h. ground (arith, same i);
  }

  move_cursor-Inside : {t : Console} → Inside s t → Inside s (move_cursor t)
  unfolding move_cursor
  move_cursor-Inside v = record { on_screen = v.on_screen; beyond = v.beyond }

  cga_plain-Inside : (c : ℕ) {t : Console} → Inside s t → Inside s (cga_plain c t)
  unfolding cga_plain
  cga_plain-Inside c {t} v =
      let (pos, same) = cga_char_at (with_attribute c) v in
      move_cursor-Inside (scroll-Inside (cga_char (with_attribute c) t) pos same)

  module _ (inb : Device) where
    ports-Inside :
        (c : ℕ) {t : Console} → Inside s t → Inside s (lpt_putc inb c (serial_putc inb c t))
    unfolding lpt_putc serial_putc
    ports-Inside c v = record { on_screen = v.on_screen; beyond = v.beyond }

    console_plain-Inside : (c : ℕ) {t : Console} → Inside s t → Inside s (console_plain inb c t)
    unfolding console_plain
    console_plain-Inside c v = cga_plain-Inside c (ports-Inside c v)

    tab_spaces-Inside : {t : Console} → Inside s t → Inside s (tab_spaces inb t)
    unfolding tab_spaces
    tab_spaces-Inside v = console_plain-Inside _ (
        console_plain-Inside _
          (console_plain-Inside _ (console_plain-Inside _ (console_plain-Inside _ v))))

    cga_putc-Inside : (c : ℕ) {t : Console} → Inside s t → Inside s (cga_putc inb c t)
    unfolding cga_putc
    cga_putc-Inside c {t} v = elim (Bool-cases (c % 256 == b'\t')) [
      | inl tab ↦
          let after = tab_spaces-Inside v in
          let on = after.on_screen in
          rw tab (move_cursor-Inside (scroll-Inside (tab_spaces inb t) (omega arith) after.beyond))
      | inr other ↦ rw other (cga_plain-Inside c v)
    ]

-- If the position is on the screen, then after console_putc of any character, for any answers of
-- the hardware, it is on the screen again, and no memory behind the 2000 cells was written.
pub console_putc-Inside :
    (inb : Device) (c : ℕ) {s : Console} → s.c_pos < crt_size → Inside s (console_putc inb c s)
unfolding console_putc
console_putc-Inside inb c h =
    cga_putc-Inside inb c (ports-Inside inb c (record { on_screen = h; beyond = λ i p. refl }))
