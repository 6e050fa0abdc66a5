-- ===== src/Readline.antt =====
-- src/lib/readline.c
pub mod Edit
pub mod Shown
pub mod Echo
mod Tests
use cezos.Base.{
  ℕ, zero, suc, ◌+◌, ◌-◌, ◌%◌, ◌==◌, ltb, leb, ◌&&◌, ◌||◌, if◌then◌else◌, ◌⊎◌, inl, inr, List, [],
  ◌∷◌,
}
use cezos.Base.Int.{ℤ, pos, negsuc}

-- BUFLEN
abbrev pub buflen : ℕ
buflen = 1024

-- The state of the loop: `buf`, `i`, and the characters given to `cputchar`, newest first.
pub record Editor : Type 0 where
  pub buf : ℕ → ℕ
  pub i : ℕ
  pub echo : List ℕ

-- What one call of `readline` comes to: a line in `buf`, NULL after a read error, or a wait for more
-- input when the characters have run out.
pub data Outcome : Type 0 where
  line : Editor → Outcome
  read_error : ℤ → Editor → Outcome
  waiting : Editor → Outcome

-- `buf[i] = c`; a char keeps the low byte.
abbrev pub set_char : ℕ → ℕ → Editor → Editor
set_char i c s = record s { buf = λ j. if j == i then c % 256 else s.buf j }

-- One round for a character `c` that is no read error, with the end of the call (`inl`) or the next state (`inr`).
unfoldable pub round : ℕ → Editor → Editor ⊎ Editor
round c s =
    if (c == b'\x08' || c == b'\x7f') && ltb 0 s.i
    then inr (record s { i = s.i - 1; echo = b'\x08' ∷ s.echo })
    else if leb b' ' c && ltb s.i (buflen - 1)
    then inr (record (set_char s.i c s) { i = s.i + 1; echo = c ∷ s.echo })
    else if c == b'\n' || c == b'\r'
    then inl (record (set_char s.i 0 s) { echo = b'\n' ∷ s.echo })
    else inr s

-- The loop over the results of `getchar`. `iscons` is 1, so `echoing` holds.
unfoldable pub readline_loop : List ℤ → Editor → Outcome
readline_loop [] s = waiting s
readline_loop (negsuc n ∷ cs) s = read_error (negsuc n) s
readline_loop (pos c ∷ cs) s = elim (round c s) [
  | inl done ↦ line done
  | inr next ↦ readline_loop cs next
]

unfoldable pub readline : List ℤ → Editor → Outcome
unfolding readline_loop
readline cs s = readline_loop cs (record s { i = 0 })
