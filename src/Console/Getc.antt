-- ===== src/Console/Getc.antt =====
-- `console_getc` of console.c: it polls the serial line and the keyboard, and takes a character.
mod Tests
use cezos.Base.{
  ℕ, ◌+◌, ◌≤◌, ◌==◌, ◌≡◌, ◌⊎◌, inl, inr, refl, sym, ap, ◌∙◌, if◌then◌else◌, Bool, true, false,
  Option, none, some, List, [], ◌∷◌, ◌++◌, length, length-append, append-nil, append_assoc, bit_and,
  arith,
}
use cezos.Console.Ring.{Cons, console_interrupt, take_char}
use cezos.Console.Ring.Queue.{
  IsValid, pending, contents, length-window, typed, take_char_refines, console_interrupt-append,
}
use cezos.Console.Keyboard.{Keyboard, kbd_proc_data}

-- `serial_proc_data` on the bytes of the line status register and of the receive buffer.
unfoldable pub serial_proc_data : ℕ × ℕ → Unit {0} → Option ℕ × Unit {0}
serial_proc_data reading u =
    let (lsr, rx) = reading in (if bit_and lsr 0x01 == 0 then none else some rx, u)

unfoldable pub serial_interrupt : Bool → List (ℕ × ℕ) → Cons → Cons
serial_interrupt serial_exists readings s =
    if serial_exists then (console_interrupt serial_proc_data readings tt s).1 else s

unfoldable pub keyboard_interrupt : List (ℕ × ℕ) → Keyboard → Cons → Keyboard × Cons
keyboard_interrupt readings k s = console_interrupt kbd_proc_data readings k s

-- The results are the character, the keyboard and the buffer.
unfoldable pub console_getc :
    Bool → List (ℕ × ℕ) → List (ℕ × ℕ) → Keyboard → Cons → ℕ × Keyboard × Cons
console_getc serial_exists serial_readings keyboard_readings k s =
    let polled =
      keyboard_interrupt keyboard_readings k (serial_interrupt serial_exists serial_readings s) in
    let taken = take_char polled.1 in (taken.0, polled.0, taken.1)

-- What the serial line delivers, if there is one.
abbrev pub from_serial : Bool → List (ℕ × ℕ) → List ℕ
from_serial serial_exists readings =
    if serial_exists then typed serial_proc_data readings tt else []

length-contents : (s : Cons) → length (contents s) ≡ pending s
length-contents s = length-window s.buf s.rpos (pending s)

serial_interrupt-append :
    (exists : Bool) (readings : List (ℕ × ℕ)) {s : Cons}
    → IsValid s
    → pending s + length (from_serial exists readings) ≤ 511
    → IsValid (serial_interrupt exists readings s)
      × (contents (serial_interrupt exists readings s) ≡ contents s ++ from_serial exists readings)
unfolding serial_interrupt
serial_interrupt-append true readings v room =
    console_interrupt-append serial_proc_data readings tt v room
serial_interrupt-append false readings v room = (v, sym (append-nil _))

-- The characters that wait, then those of the serial line, then those of the keyboard.
abbrev pub incoming : Bool → List (ℕ × ℕ) → List (ℕ × ℕ) → Keyboard → Cons → List ℕ
incoming exists serial_readings keyboard_readings k s =
    (contents s ++ from_serial exists serial_readings) ++ typed kbd_proc_data keyboard_readings k

-- While what waits and what the devices deliver are together at most 511 characters, console_getc
-- returns the oldest of what waits, then the serial line's characters, then the keyboard's, and
-- leaves the others in order; it returns 0 if there is none. The buffer stays well-formed.
pub console_getc_refines :
    (exists : Bool) (sr kr : List (ℕ × ℕ)) (k : Keyboard) {s : Cons}
    → IsValid s
    → pending s + length (from_serial exists sr) + length (typed kbd_proc_data kr k) ≤ 511
    → IsValid (console_getc exists sr kr k s).2
      × ((incoming exists sr kr k s
            ≡ (console_getc exists sr kr k s).0 ∷ contents (console_getc exists sr kr k s).2)
          ⊎ ((incoming exists sr kr k s ≡ []) × ((console_getc exists sr kr k s).0 ≡ 0)))
unfolding console_getc keyboard_interrupt
console_getc_refines exists sr kr k {s} v room =
    let (v1, one) = serial_interrupt-append exists sr v (omega arith) in
    let count : pending (serial_interrupt exists sr s)
        ≡ pending s + length (from_serial exists sr) =
      sym (length-contents (serial_interrupt exists sr s))
      ∙ ap length one
      ∙ length-append (contents s) (from_serial exists sr)
      ∙ ap (λ (n : ℕ). n + length (from_serial exists sr)) (length-contents s) in
    let (v2, two) = console_interrupt-append kbd_proc_data kr k v1 (omega arith) in
    let (v3, taken) = take_char_refines v2 in
    let whole = ap (λ l. l ++ typed kbd_proc_data kr k) (sym one) ∙ sym two in
    (
      v3,
      elim taken [
        | inl e ↦ inl (whole ∙ e)
        | inr (e, z) ↦ inr (whole ∙ e, ap (λ (r : ℕ × Cons). r.0) z)
      ],
    )
