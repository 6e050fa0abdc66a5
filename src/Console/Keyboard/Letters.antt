-- ===== src/Console/Keyboard/Letters.antt =====
-- What the shift state does to letters, and what is left of it after a key is released.
use cezos.Base.{
  ℕ, zero, suc, ◌+◌, ◌-◌, ◌%◌, ◌<◌, ◌==◌, ◌≡◌, refl, leb, ◌&&◌, ◌||◌, not, if◌then◌else◌, Bool,
  true, false, arith,
}
use native.Mathlib.Decide.{ℕ_discrete}
use cezos.Console.Keyboard.{
  Flags, no_flags, differs, set_flags, clear_flags, flip_flags, shiftcode, togglecode, normalmap,
  shiftmap, charcode, swap_case, Keyboard, press, release, e0,
}

Flags-eq :
    {a b : Flags}
    → a.shift ≡ b.shift
    → a.ctl ≡ b.ctl
    → a.alt ≡ b.alt
    → a.capslock ≡ b.capslock
    → a.numlock ≡ b.numlock
    → a.scrolllock ≡ b.scrolllock
    → a.e0esc ≡ b.e0esc
    → a ≡ b
Flags-eq p q r s t u v = λ i. record {
  shift = p i;
  ctl = q i;
  alt = r i;
  capslock = s i;
  numlock = t i;
  scrolllock = u i;
  e0esc = v i;
}

-- One flag of the state, through a press and a release.
through : (f s t : Bool) → (differs (f && true || s) t && not (s || false)) ≡ (differs f t && not s)
through f true t = ground arith
through f false t = ground arith

press_and_release :
    (f s t : Flags)
    → f.e0esc ≡ false
    → s.e0esc ≡ false
    → t.e0esc ≡ false
    → clear_flags (flip_flags (set_flags (clear_flags f e0) s) t) (set_flags s e0)
      ≡ clear_flags (flip_flags f t) s
unfolding set_flags clear_flags flip_flags
press_and_release f s t pf ps pt =
    Flags-eq (through f.shift s.shift t.shift) (through f.ctl s.ctl t.ctl)
      (through f.alt s.alt t.alt) (through f.capslock s.capslock t.capslock)
      (through f.numlock s.numlock t.numlock) (through f.scrolllock s.scrolllock t.scrolllock)
      (ground arith)

shiftcode-e0esc : (d : ℕ) → (shiftcode d).e0esc ≡ false
unfolding shiftcode
shiftcode-e0esc d = ground arith

togglecode-e0esc : (d : ℕ) → (togglecode d).e0esc ≡ false
unfolding togglecode
togglecode-e0esc d = ground arith

release_code : (d : ℕ) → d < 128 → (d + 128) % 128 ≡ d
release_code d h = omega arith

pressed-e0esc :
    (f s t : Flags)
    → s.e0esc ≡ false
    → t.e0esc ≡ false
    → (flip_flags (set_flags (clear_flags f e0) s) t).e0esc ≡ false
unfolding set_flags clear_flags flip_flags
pressed-e0esc f s t ps pt = ground arith

-- Without the escape byte, a key that is pressed and released leaves the flags as they were, except
-- that its own shift flags are cleared and its toggle flags are flipped.
pub press-release :
    (d : ℕ) (k : Keyboard)
    → d < 128
    → k.flags.e0esc ≡ false
    → (release (d + 128) (press d k).1).flags
      ≡ clear_flags (flip_flags k.flags (togglecode d)) (shiftcode d)
unfolding press release
press-release d k make plain =
    simp
      (
        plain,
        pressed-e0esc k.flags (shiftcode d) (togglecode d) (shiftcode-e0esc d) (togglecode-e0esc d),
        release_code d make,
      )
      (press_and_release k.flags (shiftcode d) (togglecode d) plain (shiftcode-e0esc d)
        (togglecode-e0esc d))

-- All numbers below `n` pass the test.
unfoldable all_below : ℕ → (ℕ → Bool) → Bool
all_below zero test = true
all_below (suc n) test = test n && all_below n test

here : (a b : Bool) → (a && b) ≡ true → a ≡ true
here a b h = ground arith

there : (a b : Bool) → (a && b) ≡ true → b ≡ true
there a b h = ground arith

all_below-lt : (n : ℕ) (test : ℕ → Bool) (d : ℕ) → all_below n test ≡ true → d < n → test d ≡ true
unfolding all_below
all_below-lt zero test d all lt = absurd (omega arith)
all_below-lt (suc n) test d all lt = elim (ℕ_discrete d n) [
  | yes e ↦ rw e (here (test n) (all_below n test) all)
  | no ne ↦ all_below-lt n test d (there (test n) (all_below n test) all) (omega arith)
]

abbrev pub is_letter : ℕ → Bool
is_letter c = leb b'a' c && leb c b'z'

abbrev modifier : ℕ → Bool
modifier d =
    d == 0x1d
    || d == 0x9d
    || d == 0x2a
    || d == 0x36
    || d == 0x38
    || d == 0xb8
    || d == 0x3a
    || d == 0x45
    || d == 0x46

abbrev letter_test : ℕ → Bool
letter_test d =
    not (is_letter (normalmap d)) || ((shiftmap d + 32 == normalmap d) && not (modifier d))

letters : all_below 128 letter_test ≡ true
unfolding all_below normalmap shiftmap
letters = refl

-- What the tables say of a letter key.
letter_key :
    (d : ℕ)
    → d < 128
    → is_letter (normalmap d) ≡ true
    → (shiftmap d + 32 ≡ normalmap d) × (shiftcode d ≡ no_flags) × (togglecode d ≡ no_flags)
unfolding shiftcode togglecode
letter_key d make letter =
    let test = all_below-lt 128 letter_test d letters make in
    (ground arith, ground arith, ground arith)

-- A letter key, without CTL and the escape byte, gives the capital letter if exactly one of SHIFT and
-- CAPSLOCK is on, and the small letter otherwise.
pub press-letter :
    (d : ℕ) (k : Keyboard)
    → d < 128
    → is_letter (normalmap d) ≡ true
    → k.flags.e0esc ≡ false
    → k.flags.ctl ≡ false
    → (press d k).0
      ≡ (if differs k.flags.shift k.flags.capslock then normalmap d - 32 else normalmap d)
unfolding press charcode swap_case clear_flags flip_flags set_flags
press-letter d k make letter plain free =
    let (capital, no_shift, no_toggle) = letter_key d make letter in
    rw (plain, no_shift, no_toggle, free) (ground arith)
