-- ===== src/Printfmt/Buffer.antt =====
-- `sprintputch`, `vsnprintf` and `snprintf` of src/lib/printfmt.c, over a memory of bytes. The format
-- and the arguments do not lie in the buffer.
pub mod Written
use cezos.Base.{
  ℕ, ◌+◌, ◌-◌, ◌*◌, ◌%◌, ◌^◌, ltb, ◌==◌, ◌||◌, if◌then◌else◌, Option, none, some, List, [], ◌∷◌,
}
use cezos.Base.Int.{ℤ, pos, negsuc, pos_part, neg_part, ltb_ℤ}
use cezos.Printfmt.Escape.{Arg, signed}
use cezos.Printfmt.Format.{Printed, done, fault, stuck, vprintfmt}
use cezos.Str.Memory.{Mem, poke}

-- `struct sprintbuf`, with the memory that it points to; `cnt` is the word of an `int`.
pub record SprintBuf : Type 0 where
  pub buf : ℕ
  pub ebuf : ℕ
  pub cnt : ℕ
  pub memory : Mem

unfoldable pub sprintputch : ℕ → SprintBuf → SprintBuf
sprintputch ch b =
    let counted = record b { cnt = (b.cnt + 1) % 2 ^ 32 } in
    if ltb b.buf b.ebuf
    then record counted { buf = (b.buf + 1) % 2 ^ 32; memory = poke b.memory b.buf (ch % 256) }
    else counted

-- What `vprintfmt` does with `sprintputch`.
unfoldable pub put_all : List ℕ → SprintBuf → SprintBuf
unfolding sprintputch
put_all [] b = b
put_all (ch ∷ out) b = put_all out (sprintputch ch b)

-- `struct sprintbuf b = {buf, buf+n-1, 0}`
abbrev pub sprintbuf : Mem → ℕ → ℤ → SprintBuf
sprintbuf m p n = record {
  buf = p;
  ebuf = (p + pos_part n + (2 ^ 32 - 1 - neg_part n)) % 2 ^ 32;
  cnt = 0;
  memory = m;
}

-- The NUL behind the output, and what is returned.
abbrev pub terminated : SprintBuf → ℤ × Mem
terminated b = (signed b.cnt, poke b.memory b.buf 0)

abbrev pub run_buffer : SprintBuf → Printed → Option (ℤ × Mem)
run_buffer b (done out) = some (terminated (put_all out b))
run_buffer b fault = none
run_buffer b stuck = none

-- The value of `vsnprintf` and the memory that it leaves; `none` if the printing has none. -E_INVAL
-- is -3.
unfoldable pub vsnprintf : Mem → ℕ → ℤ → List ℕ → List Arg → Option (ℤ × Mem)
unfolding put_all vprintfmt
vsnprintf m p n fmt args =
    if p == 0 || ltb_ℤ n (pos 1)
    then some (negsuc 2, m)
    else run_buffer (sprintbuf m p n) (vprintfmt fmt args)

-- `snprintf` is `vsnprintf` on its arguments.
unfoldable pub snprintf : Mem → ℕ → ℤ → List ℕ → List Arg → Option (ℤ × Mem)
unfolding vsnprintf
snprintf m p n fmt args = vsnprintf m p n fmt args
