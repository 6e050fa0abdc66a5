-- ===== src/Printf/Shown.antt =====
-- What `cprintf` shows on the screen.
use cezos.Base.{
  ℕ, ◌+◌, ◌≤◌, ◌<◌, ◌==◌, if◌then◌else◌, ◌≡◌, refl, ap, ◌∙◌, some, List, [], ◌∷◌, length, arith,
}
use cezos.Console.Screen.{Console, Device, console_putc, crt_size}
use cezos.Console.Screen.Scroll.{View, view, console_putc-char}
use cezos.Printfmt.Escape.{Arg}
use cezos.Printfmt.Format.{done, vprintfmt}
use cezos.Printf.{putch, putch_all, vcprintf, cprintf}

-- The characters from the space up.
abbrev pub Visible : List ℕ → Type 0
Visible [] = Unit {0}
Visible (ch ∷ out) = (32 ≤ ch) × (ch < 256) × Visible out

-- The cells with a text written black on white from a position on.
abbrev pub written : List ℕ → ℕ → (ℕ → ℕ) → ℕ → ℕ
written [] p cells = cells
written (ch ∷ out) p cells = written out (p + 1) (λ j. if j == p then ch + 0x700 else cells j)

module _ (inb : Device) where
  putch_all-view :
      (out : List ℕ) (s : Console) (cnt : ℕ)
      → Visible out
      → s.c_pos + length out < crt_size
      → (view (putch_all inb out (s, cnt)).0
          ≡ (s.c_pos + length out, written out s.c_pos s.c_buffer))
        × ((putch_all inb out (s, cnt)).1 ≡ cnt)
  unfolding putch_all putch
  putch_all-view [] s cnt v fits = (ap (λ (p : ℕ). (p, s.c_buffer)) (omega arith), refl)
  putch_all-view (ch ∷ out) s cnt (lo, hi, v) fits =
      let cell = console_putc-char inb s (omega arith) ch lo hi (omega arith) in
      let next = console_putc inb ch s in
      let at : next.c_pos ≡ s.c_pos + 1 = ap (λ (w : View). w.0) cell in
      let (ih, same) = putch_all-view out next cnt v (omega arith) in
      (
        ih
            ∙ ap (λ (w : View). (w.0 + length out, written out w.0 w.1)) cell
            ∙ ap (λ (p : ℕ). (p, written (ch ∷ out) s.c_pos s.c_buffer)) (omega arith),
        same,
      )

  -- Where the format prints characters from the space up, which fit the screen behind the position:
  -- cprintf writes them black on white from the position on, leaves the other cells, moves the position
  -- behind them, and returns 0.
  pub cprintf-Shown :
      (fmt : List ℕ) (args : List Arg) (out : List ℕ) (s : Console)
      → vprintfmt fmt args ≡ done out
      → Visible out
      → s.c_pos + length out < crt_size
      → (t : Console) × (cprintf inb fmt args s ≡ some (t, 0))
        × (view t ≡ (s.c_pos + length out, written out s.c_pos s.c_buffer))
  unfolding cprintf vcprintf
  cprintf-Shown fmt args out s printed v fits =
      let (shown, zero_count) = putch_all-view out s 0 v fits in
      (
        (putch_all inb out (s, 0)).0,
        rw printed (ap (λ (n : ℕ). some ((putch_all inb out (s, 0)).0, n)) zero_count),
        shown,
      )
