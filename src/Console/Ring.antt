-- ===== src/Console/Ring.antt =====
-- The input buffer of console.c: `cons`, `console_interrupt` and the end of `console_getc`.
pub mod Queue
mod Tests
use cezos.Base.{ℕ, zero, suc, ◌+◌, ◌%◌, ◌==◌, if◌then◌else◌, Option, none, some, List, [], ◌∷◌}

-- CONSBUFSIZE
abbrev pub consbufsize : ℕ
consbufsize = 512

-- The static `cons`. The buffer is a table of bytes over its indices.
pub record Cons : Type 0 where
  pub buf : ℕ → ℕ
  pub rpos : ℕ
  pub wpos : ℕ

-- An index after `++`, set back to 0 at the end of the buffer.
abbrev pub advance : ℕ → ℕ
advance i = if i + 1 == consbufsize then 0 else i + 1

-- The body of the loop of `console_interrupt`: a zero is skipped, and any other value is stored
-- as a byte. There is no test for a full buffer.
unfoldable pub store : ℕ → Cons → Cons
store c s =
    if c == 0
    then s
    else record s { buf = λ i. if i == s.wpos then c % 256 else s.buf i; wpos = advance s.wpos }

-- `console_interrupt(proc)`. The device hands `proc` one reading in each round; `proc` returns
-- `none` for -1, which ends the loop, as it does when the device has no reading left.
unfoldable pub console_interrupt :
    {R K : Type 0} → (R → K → Option ℕ × K) → List R → K → Cons → K × Cons
console_interrupt proc [] k s = (k, s)
console_interrupt proc (r ∷ rs) k s =
    let (c, k') = proc r k in
    elim c [ none ↦ (k', s) | some v ↦ console_interrupt proc rs k' (store v s) ]

-- The end of `console_getc`, after the two interrupt routines were polled: the next character, or
-- 0 where there is none.
unfoldable pub take_char : Cons → ℕ × Cons
take_char s =
    if s.rpos == s.wpos then (0, s) else (s.buf s.rpos, record s { rpos = advance s.rpos })
