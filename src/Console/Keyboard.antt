-- ===== src/Console/Keyboard.antt =====
-- The keyboard of console.c and the key tables of console.h: from scan codes to characters.
pub mod Letters
mod Tests
use cezos.Base.{
  ℕ, ◌+◌, ◌-◌, ◌%◌, ◌==◌, leb, ltb, ◌&&◌, ◌||◌, not, if◌then◌else◌, Bool, true, false, Option, none,
  some, List, [], ◌∷◌, bit_and, get_or,
}

-- The bits SHIFT, CTL, ALT, CAPSLOCK, NUMLOCK, SCROLLLOCK and E0ESC of a shift state.
pub record Flags : Type 0 where
  pub shift : Bool
  pub ctl : Bool
  pub alt : Bool
  pub capslock : Bool
  pub numlock : Bool
  pub scrolllock : Bool
  pub e0esc : Bool

abbrev pub no_flags : Flags
no_flags = record {
  shift = false;
  ctl = false;
  alt = false;
  capslock = false;
  numlock = false;
  scrolllock = false;
  e0esc = false;
}

abbrev pub differs : Bool → Bool → Bool
differs true b = not b
differs false b = b

-- `a | b`, `a & ~b` and `a ^ b`
unfoldable pub set_flags : Flags → Flags → Flags
set_flags a b = record {
  shift = a.shift || b.shift;
  ctl = a.ctl || b.ctl;
  alt = a.alt || b.alt;
  capslock = a.capslock || b.capslock;
  numlock = a.numlock || b.numlock;
  scrolllock = a.scrolllock || b.scrolllock;
  e0esc = a.e0esc || b.e0esc;
}

unfoldable pub clear_flags : Flags → Flags → Flags
clear_flags a b = record {
  shift = a.shift && not b.shift;
  ctl = a.ctl && not b.ctl;
  alt = a.alt && not b.alt;
  capslock = a.capslock && not b.capslock;
  numlock = a.numlock && not b.numlock;
  scrolllock = a.scrolllock && not b.scrolllock;
  e0esc = a.e0esc && not b.e0esc;
}

unfoldable pub flip_flags : Flags → Flags → Flags
flip_flags a b = record {
  shift = differs a.shift b.shift;
  ctl = differs a.ctl b.ctl;
  alt = differs a.alt b.alt;
  capslock = differs a.capslock b.capslock;
  numlock = differs a.numlock b.numlock;
  scrolllock = differs a.scrolllock b.scrolllock;
  e0esc = differs a.e0esc b.e0esc;
}

unfoldable pub shiftcode : ℕ → Flags
shiftcode d =
    if d == 0x1d || d == 0x9d
    then record no_flags { ctl = true }
    else if d == 0x2a || d == 0x36
    then record no_flags { shift = true }
    else if d == 0x38 || d == 0xb8
    then record no_flags { alt = true }
    else no_flags

unfoldable pub togglecode : ℕ → Flags
togglecode d =
    if d == 0x3a
    then record no_flags { capslock = true }
    else if d == 0x45
    then record no_flags { numlock = true }
    else if d == 0x46
    then record no_flags { scrolllock = true }
    else no_flags

abbrev pub normalmap_rows : List ℕ
normalmap_rows =
    0 ∷ 27 ∷ b'1' ∷ b'2' ∷ b'3' ∷ b'4' ∷ b'5' ∷ b'6' ∷ b'7' ∷ b'8' ∷ b'9' ∷ b'0' ∷ b'-' ∷ b'=' ∷ 8
    ∷ 9 ∷ b'q' ∷ b'w' ∷ b'e' ∷ b'r' ∷ b't' ∷ b'y' ∷ b'u' ∷ b'i' ∷ b'o' ∷ b'p' ∷ b'[' ∷ b']' ∷ 10 ∷ 0
    ∷ b'a' ∷ b's' ∷ b'd' ∷ b'f' ∷ b'g' ∷ b'h' ∷ b'j' ∷ b'k' ∷ b'l' ∷ b';' ∷ b'\'' ∷ b'`' ∷ 0 ∷ b'\\'
    ∷ b'z' ∷ b'x' ∷ b'c' ∷ b'v' ∷ b'b' ∷ b'n' ∷ b'm' ∷ b',' ∷ b'.' ∷ b'/' ∷ 0 ∷ b'*' ∷ 0 ∷ b' ' ∷ 0
    ∷ 0 ∷ 0 ∷ 0 ∷ 0 ∷ 0 ∷ 0 ∷ 0 ∷ 0 ∷ 0 ∷ 0 ∷ 0 ∷ 0 ∷ b'7' ∷ b'8' ∷ b'9' ∷ b'-' ∷ b'4' ∷ b'5' ∷ b'6'
    ∷ b'+' ∷ b'1' ∷ b'2' ∷ b'3' ∷ b'0' ∷ b'.' ∷ 0 ∷ 0 ∷ 0 ∷ 0 ∷ []

abbrev pub shiftmap_rows : List ℕ
shiftmap_rows =
    0 ∷ 27 ∷ b'!' ∷ b'@' ∷ b'#' ∷ b'$' ∷ b'%' ∷ b'^' ∷ b'&' ∷ b'*' ∷ b'(' ∷ b')' ∷ b'_' ∷ b'+' ∷ 8
    ∷ 9 ∷ b'Q' ∷ b'W' ∷ b'E' ∷ b'R' ∷ b'T' ∷ b'Y' ∷ b'U' ∷ b'I' ∷ b'O' ∷ b'P' ∷ b'{' ∷ b'}' ∷ 10 ∷ 0
    ∷ b'A' ∷ b'S' ∷ b'D' ∷ b'F' ∷ b'G' ∷ b'H' ∷ b'J' ∷ b'K' ∷ b'L' ∷ b':' ∷ b'"' ∷ b'~' ∷ 0 ∷ b'|'
    ∷ b'Z' ∷ b'X' ∷ b'C' ∷ b'V' ∷ b'B' ∷ b'N' ∷ b'M' ∷ b'<' ∷ b'>' ∷ b'?' ∷ 0 ∷ b'*' ∷ 0 ∷ b' ' ∷ 0
    ∷ 0 ∷ 0 ∷ 0 ∷ 0 ∷ 0 ∷ 0 ∷ 0 ∷ 0 ∷ 0 ∷ 0 ∷ 0 ∷ 0 ∷ b'7' ∷ b'8' ∷ b'9' ∷ b'-' ∷ b'4' ∷ b'5' ∷ b'6'
    ∷ b'+' ∷ b'1' ∷ b'2' ∷ b'3' ∷ b'0' ∷ b'.' ∷ 0 ∷ 0 ∷ 0 ∷ 0 ∷ []

abbrev pub ctlmap_rows : List ℕ
ctlmap_rows =
    0 ∷ 0 ∷ 0 ∷ 0 ∷ 0 ∷ 0 ∷ 0 ∷ 0 ∷ 0 ∷ 0 ∷ 0 ∷ 0 ∷ 0 ∷ 0 ∷ 0 ∷ 0 ∷ 17 ∷ 23 ∷ 5 ∷ 18 ∷ 20 ∷ 25 ∷ 21
    ∷ 9 ∷ 15 ∷ 16 ∷ 0 ∷ 0 ∷ 13 ∷ 0 ∷ 1 ∷ 19 ∷ 4 ∷ 6 ∷ 7 ∷ 8 ∷ 10 ∷ 11 ∷ 12 ∷ 0 ∷ 0 ∷ 0 ∷ 0 ∷ 28 ∷ 26
    ∷ 24 ∷ 3 ∷ 22 ∷ 2 ∷ 14 ∷ 13 ∷ 0 ∷ 0 ∷ 239 ∷ 0 ∷ 0 ∷ []

-- KEY_HOME and the keys behind it, which the three tables share.
unfoldable pub special : ℕ → ℕ
special d =
    if d == 0xc8
    then 0xe2
    else if d == 0xc9
    then 0xe6
    else if d == 0xcb
    then 0xe4
    else if d == 0xcd
    then 0xe5
    else if d == 0xcf
    then 0xe1
    else if d == 0xd0
    then 0xe3
    else if d == 0xd1
    then 0xe7
    else if d == 0xd2
    then 0xe8
    else if d == 0xd3
    then 0xe9
    else 0

-- The keys that normalmap and shiftmap name besides.
unfoldable pub keypad : ℕ → ℕ
unfolding special
keypad d =
    if d == 0xc7 then 0xe0 else if d == 0x9c then b'\n' else if d == 0xb5 then b'/' else special d

unfoldable pub normalmap : ℕ → ℕ
unfolding keypad
normalmap d = get_or normalmap_rows d (keypad d)

unfoldable pub shiftmap : ℕ → ℕ
unfolding keypad
shiftmap d = get_or shiftmap_rows d (keypad d)

unfoldable pub ctlmap : ℕ → ℕ
unfolding special
ctlmap d = get_or ctlmap_rows d (if d == 0x97 then 0xe0 else if d == 0xb5 then 239 else special d)

-- `charcode[shift & (CTL | SHIFT)][data]`
unfoldable pub charcode : Flags → ℕ → ℕ
charcode f d = if f.ctl then ctlmap d else if f.shift then shiftmap d else normalmap d

-- The effect of CAPSLOCK on a character.
unfoldable pub swap_case : ℕ → ℕ
swap_case c =
    if leb b'a' c && leb c b'z'
    then c + b'A' - b'a'
    else if leb b'A' c && leb c b'Z'
    then c + b'a' - b'A'
    else c

-- The static `shift`, and how often the reset port was written.
pub record Keyboard : Type 0 where
  pub flags : Flags
  pub resets : ℕ

abbrev pub e0 : Flags
e0 = record no_flags { e0esc = true }

-- The end of `kbd_proc_data`, for a key that is pressed.
unfoldable pub press : ℕ → Keyboard → ℕ × Keyboard
press code k =
    let scan = if k.flags.e0esc then (code % 128) + 128 else code in
    let shift =
      flip_flags (set_flags (clear_flags k.flags e0) (shiftcode scan)) (togglecode scan) in
    let plain = charcode shift scan in
    let c = if shift.capslock then swap_case plain else plain in
    (
      c,
      record {
        flags = shift;
        resets = if shift.ctl && shift.alt && c == 0xe9 then k.resets + 1 else k.resets;
      },
    )

-- The branch of `kbd_proc_data` for a key that is released.
unfoldable pub release : ℕ → Keyboard → Keyboard
release code k =
    let scan = if k.flags.e0esc then code else code % 128 in
    record k { flags = clear_flags k.flags (set_flags (shiftcode scan) e0) }

-- `kbd_proc_data` on the bytes of the status port and of the data port; `none` is -1.
unfoldable pub kbd_proc_data : ℕ × ℕ → Keyboard → Option ℕ × Keyboard
kbd_proc_data reading k =
    let (stat, scan) = reading in
    if bit_and stat 0x01 == 0
    then (none, k)
    else if not (bit_and stat 0x20 == 0)
    then (none, k)
    else if scan == 0xe0
    then (some 0, record k { flags = set_flags k.flags e0 })
    else if leb 128 scan
    then (some 0, release scan k)
    else (let (c, k') = press scan k in (some c, k'))
