-- ===== src/Console/Keyboard/Tests.antt =====
-- The key of the letter a, with SHIFT held.
use cezos.Base.{◌-◌, ◌≡◌, refl, if◌then◌else◌, true, arith}
use cezos.Console.Keyboard.{Keyboard, no_flags, differs, normalmap, press}
use cezos.Console.Keyboard.Letters.{press-letter}

abbrev shifted : Keyboard
shifted = record { flags = record no_flags { shift = true }; resets = 0 }

press-letter_example : (press 0x1e shifted).0 ≡ (
    if differs shifted.flags.shift shifted.flags.capslock
    then normalmap 0x1e - 32
    else normalmap 0x1e)
unfolding normalmap
press-letter_example = press-letter 0x1e shifted (omega arith) refl refl refl
