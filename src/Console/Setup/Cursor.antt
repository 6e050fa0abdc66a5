-- ===== src/Console/Setup/Cursor.antt =====
-- The console finds the cursor where it left it, and clears the screen.
use cezos.Base.{
  ℕ, zero, suc, ◌+◌, ◌*◌, ◌/◌, ◌%◌, ◌^◌, ◌<◌, ◌==◌, ltb, leb, ◌&&◌, ◌≡◌, refl, ap₂, ◌∙◌,
  if◌then◌else◌, bit_or, true, false, List, arith, ==_refl,
}
use native.Mathlib.Decide.{ℕ_discrete}
use cezos.Bits.{bit_or-add}
use cezos.Console.Screen.{Console, Device, outb, move_cursor}
use cezos.Console.Setup.{
  Video, write_first, find_display, read_cursor, init_cga, clear_cells, clrscr,
}
use cezos.Ports.{HasRegisters}

-- The two bytes of a position.
word_bytes : (p : ℕ) → p < 65536 → bit_or (p / 256 % 256 * 2 ^ 8) (p % 256) % 65536 ≡ p
word_bytes p h = omega (arith, bit_or-add 8 (p / 256 % 256) (p % 256) (omega arith))

-- `read_cursor` behind `move_cursor` on a controller that keeps its registers.
read_cursor-move_cursor :
    (inb : Device) (s : Console)
    → HasRegisters inb s.port
    → s.c_pos < 65536
    → (read_cursor inb (move_cursor s)).c_pos ≡ s.c_pos
unfolding read_cursor move_cursor outb
read_cursor-move_cursor inb s crtc small =
    let up : (s.port == s.port + 1) ≡ false = ground arith in
    let down : (s.port + 1 == s.port) ≡ false = ground arith in
    let same = ==_refl s.port in
    let same_data = ==_refl (s.port + 1) in
    ap₂ (λ (x y : ℕ). bit_or (x * 2 ^ 8) y % 65536)
      (crtc.answer _ ∙ rw (up, down, same, same_data) refl)
      (crtc.answer _ ∙ rw (up, down, same, same_data) refl)
    ∙ word_bytes s.c_pos small

-- The display that is found, with its cells as they were.
find_display-cells : (d : Video) → d.writable ≡ true → (i : ℕ) → (find_display d).0 i ≡ d.cga i
unfolding find_display write_first
find_display-cells d w i = elim (ℕ_discrete i 0) [
  | yes first ↦ rw (w, first) refl
  | no later ↦ rw w (ground arith)
]

-- What the first two loops do.
clear_cells-at :
    (n k : ℕ) (cells : ℕ → ℕ) (j : ℕ)
    → clear_cells (2 * k) n cells j ≡ (if leb k j && ltb j (k + n) then b' ' else cells j)
unfolding clear_cells
clear_cells-at zero k cells j = ground arith
clear_cells-at (suc n) k cells j =
    let next : 2 * k + 2 ≡ 2 * (k + 1) = omega arith in
    let half : 2 * k / 2 ≡ k = omega arith in
    rw (next, half)
      (clear_cells-at n (k + 1) (λ i. if i == k then b' ' else cells i) j ∙ ground arith)

-- clrscr puts a space without a color into each of the 2000 cells of the screen and leaves the other
-- cells.
pub clrscr-at :
    (cells : ℕ → ℕ) (readings : List (ℕ × ℕ)) (j : ℕ)
    → (clrscr cells readings).0 j ≡ (if ltb j 2000 then b' ' else cells j)
unfolding clrscr
clrscr-at cells readings j = clear_cells-at 2000 0 cells j ∙ ground arith

-- On a controller that keeps its registers, init_cga finds the position where the console left the
-- cursor, and the test of the color display leaves its cells as they were.
pub init_cga-move_cursor :
    (inb : Device) (d : Video) (s : Console)
    → s.port ≡ (find_display d).1
    → HasRegisters inb s.port
    → s.c_pos < 65536
    → ((init_cga inb d (move_cursor s)).c_pos ≡ s.c_pos)
      × (d.writable ≡ true → (i : ℕ) → (init_cga inb d (move_cursor s)).c_buffer i ≡ d.cga i)
unfolding init_cga read_cursor outb move_cursor
init_cga-move_cursor inb d s e crtc small =
    (rw (← e) (read_cursor-move_cursor inb s crtc small), find_display-cells d)
