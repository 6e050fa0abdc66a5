-- ===== src/Readline/Shown.antt =====
-- The line on the screen while it is typed: what `readline` gives to cputchar goes to console_putc.
use cezos.Base.{
  ℕ, suc, ◌+◌, ◌-◌, ◌%◌, ◌≤◌, ◌<◌, ◌==◌, ltb, leb, ◌≡◌, refl, ap, ◌∙◌, false, ◌&&◌, ◌||◌,
  if◌then◌else◌, List, [], ◌∷◌, ◌++◌, length, arith, inl, inr, Bool-cases, ◌⊎◌, sym,
}
use mathlib.Core.Path.{subst}
use cezos.Str.Compare.Prefix.{IsBytes}
use cezos.Console.Screen.{Console, Device, console_putc}
use cezos.Console.Screen.Scroll.{View, console_putc-char, console_putc-backspace}
use cezos.Readline.Edit.{edit, echo_of, edit_all, echo_all, typed}

-- The cells from `p` on show the line, whose last character stands first, black on white.
abbrev pub Shows : (ℕ → ℕ) → ℕ → List ℕ → Type 0
Shows cells p [] = Unit {0}
Shows cells p (x ∷ xs) = (cells (p + length xs) ≡ x + 0x700) × Shows cells p xs

Shows-other :
    (cells : ℕ → ℕ) (p n v : ℕ) (xs : List ℕ)
    → p + length xs ≤ n
    → Shows cells p xs
    → Shows (λ j. if j == n then v else cells j) p xs
Shows-other cells p n v [] le h = h
Shows-other cells p n v (x ∷ xs) le (e, h) =
    (ground arith, Shows-other cells p n v xs (omega arith) h)

-- The line is shown from `p` on, the position is behind it, the cells before `p` are as they were,
-- and each cell behind the line is blank or as it was.
pub record IsShown (s : Console) (p : ℕ) (xs : List ℕ) (t : Console) : Type 0 where
  pub position : t.c_pos ≡ p + length xs
  pub shows : Shows t.c_buffer p xs
  pub before : (j : ℕ) → j < p → t.c_buffer j ≡ s.c_buffer j
  pub behind : (j : ℕ) → p + length xs ≤ j → (t.c_buffer j ≡ s.c_buffer j) ⊎ (t.c_buffer j ≡ 0x720)

module _ (inb : Device) where
  -- The console after the characters of a list that has the newest one first.
  unfoldable pub echoed : List ℕ → Console → Console
  echoed [] s = s
  echoed (c ∷ cs) s = console_putc inb c (echoed cs s)

  module _ {s t : Console} {p : ℕ} {xs : List ℕ} where
    append-IsShown :
        (c : ℕ)
        → 32 ≤ c
        → c < 256
        → p + length xs < 1999
        → IsShown s p xs t
        → IsShown s p (c % 256 ∷ xs) (console_putc inb c t)
    append-IsShown c lo hi room e =
        let cell =
          console_putc-char inb t (omega (arith, e.position)) c lo hi (omega (arith, e.position)) in
        let at : (j : ℕ)
            → (console_putc inb c t).c_buffer j
              ≡ (if j == t.c_pos then c + 0x700 else t.c_buffer j) =
          λ j. ap (λ (v : View). v.1 j) cell in
        record {
          position = omega (arith, ap (λ (v : View). v.0) cell, e.position);
          shows =
              subst (λ (f : ℕ → ℕ). Shows f p (c % 256 ∷ xs)) (sym (ap (λ (v : View). v.1) cell))
                (
                  ground (arith, e.position),
                  Shows-other t.c_buffer p t.c_pos (c + 0x700) xs (omega (arith, e.position))
                      e.shows,
                );
          before = λ j lt. at j ∙ ground (arith, e.position, e.before j lt);
          behind = λ j le.
              let far : (j == t.c_pos) ≡ false = ground (arith, e.position) in
              rw (at j, far) (e.behind j (omega arith));
        }

    delete-IsShown :
        (x : ℕ)
        → p + length xs < 1999
        → IsShown s p (x ∷ xs) t
        → IsShown s p xs (console_putc inb b'\x08' t)
    delete-IsShown x room e =
        let cell =
          console_putc-backspace inb t (omega (arith, e.position)) (omega (arith, e.position)) in
        let at : (j : ℕ)
            → (console_putc inb b'\x08' t).c_buffer j
              ≡ (if j == t.c_pos - 1 then 0x720 else t.c_buffer j) =
          λ j. ap (λ (v : View). v.1 j) cell in
        record {
          position = omega (arith, ap (λ (v : View). v.0) cell, e.position);
          shows =
              subst (λ (f : ℕ → ℕ). Shows f p xs) (sym (ap (λ (v : View). v.1) cell))
                (Shows-other t.c_buffer p (t.c_pos - 1) 0x720 xs (omega (arith, e.position))
                  e.shows.1);
          before = λ j lt. at j ∙ ground (arith, e.position, e.before j lt);
          behind = λ j le. elim (Bool-cases (j == t.c_pos - 1)) [
            | inl here ↦ inr (at j ∙ rw here refl)
            | inr there ↦ rw (at j, there) (e.behind j (ground (arith, e.position)))
          ];
        }

  -- One character. A full line can only be made shorter.
  edit-IsShown :
      (c : ℕ) (xs : List ℕ) {s t : Console} {p : ℕ}
      → c < 256
      → p + suc (length xs) < 1999
      → IsShown s p xs t
      → IsShown s p (edit c xs) (echoed (echo_of c xs) t)
  unfolding edit echo_of echoed
  edit-IsShown c [] byte room e = elim (Bool-cases (leb b' ' c)) [
    | inl typed ↦ rw typed (append-IsShown c (ground arith) byte (omega arith) e)
    | inr ignored ↦ rw ignored e
  ]
  edit-IsShown c (x ∷ xs) byte room e = elim (Bool-cases (c == b'\x08' || c == b'\x7f')) [
    | inl back ↦ rw back (delete-IsShown x (omega arith) e)
    | inr kept ↦ elim (Bool-cases (leb b' ' c && ltb (suc (length xs)) 1023)) [
      | inl typed ↦ rw (kept, typed) (append-IsShown c (ground arith) byte (omega arith) e)
      | inr ignored ↦ rw (kept, ignored) e
    ]
  ]

  length-edit : (c : ℕ) (xs : List ℕ) → length (edit c xs) ≤ suc (length xs)
  unfolding edit
  length-edit c [] = ground arith
  length-edit c (x ∷ xs) = ground arith

  echoed-append :
      (new old : List ℕ) (s : Console) → echoed (new ++ old) s ≡ echoed new (echoed old s)
  unfolding echoed
  echoed-append [] old s = refl
  echoed-append (c ∷ new) old s = ap (console_putc inb c) (echoed-append new old s)

  pub edit_all-IsShown :
      (cs xs echo : List ℕ) (s : Console) (p : ℕ)
      → IsBytes cs
      → p + (length xs + length cs) < 1999
      → IsShown s p xs (echoed echo s)
      → (p + length (edit_all cs xs) < 1999)
        × IsShown s p (edit_all cs xs) (echoed (echo_all cs xs echo) s)
  unfolding edit_all echo_all
  edit_all-IsShown [] xs echo s p bytes room e = (omega arith, e)
  edit_all-IsShown (c ∷ cs) xs echo s p (byte, bytes) room e =
      edit_all-IsShown cs (edit c xs) (echo_of c xs ++ echo) s p bytes
        (omega (arith, length-edit c xs))
        (rw (echoed-append (echo_of c xs) echo s) (edit-IsShown c xs byte (omega arith) e))
