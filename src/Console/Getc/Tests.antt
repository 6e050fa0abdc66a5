-- ===== src/Console/Getc/Tests.antt =====
-- The serial line delivers an l, the keyboard an a.
use cezos.Base.{ℕ, ◌≡◌, ◌⊎◌, List, [], ◌∷◌, true, arith}
use cezos.Console.Ring.{Cons}
use cezos.Console.Ring.Queue.{IsValid, contents, typed}
use cezos.Console.Keyboard.{
  Keyboard, no_flags, kbd_proc_data, press, charcode, normalmap, shiftcode, togglecode, set_flags,
  clear_flags, flip_flags,
}
use cezos.Console.Getc.{console_getc, incoming, serial_proc_data, console_getc_refines}

abbrev empty : Cons
empty = record { buf = λ i. 0; rpos = 7; wpos = 7 }

empty-IsValid : IsValid empty
empty-IsValid = record { reading = omega arith; writing = omega arith }

abbrev keyboard : Keyboard
keyboard = record { flags = no_flags; resets = 0 }

abbrev line : List (ℕ × ℕ)
line = (1, b'l') ∷ (0, 0) ∷ []

abbrev keys : List (ℕ × ℕ)
keys = (1, 0x1e) ∷ (1, 0x9e) ∷ (0, 0) ∷ []

console_getc_refines_example :
    IsValid (console_getc true line keys keyboard empty).2
    × ((incoming true line keys keyboard empty
          ≡ (console_getc true line keys keyboard empty).0
            ∷ contents (console_getc true line keys keyboard empty).2)
        ⊎ ((incoming true line keys keyboard empty ≡ [])
            × ((console_getc true line keys keyboard empty).0 ≡ 0)))
unfolding typed serial_proc_data kbd_proc_data press charcode normalmap shiftcode togglecode
    set_flags clear_flags flip_flags
console_getc_refines_example =
    console_getc_refines true line keys keyboard empty-IsValid (omega arith)
