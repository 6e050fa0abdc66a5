-- ===== src/Command/Terminal.antt =====
-- wait_input of src/kernel/command.c on the results of getchar and the console: the prompt, the line
-- that is typed with its echo, and the command that the line runs.
mod Lines
pub mod Served
mod Tests
use cezos.Base.{
  ℕ, zero, suc, ◌+◌, ◌-◌, ◌^◌, ◌==◌, if◌then◌else◌, true, false, Option, none, some, List, [], ◌∷◌,
  replicate,
}
use cezos.Base.Int.{ℤ, pos, pos_part, neg_part, is_zero, ◌-ℤ◌}
use cezos.Console.Screen.{Console, Device}
use cezos.Printfmt.Escape.{word, text}
use cezos.Readline.{buflen, Editor, Outcome, line, read_error, waiting, readline}
use cezos.Readline.Shown.{echoed}
use cezos.Command.{codes, poweroff}
use cezos.Command.Display.{Symbols, Shown, pure, ◌>>=◌, ◌>>◌, print, run_printing}

-- The string in a buffer from the index `i` on, up to the NUL.
unfoldable pub string_at : ℕ → (ℕ → ℕ) → ℕ → List ℕ
string_at zero buf i = []
string_at (suc fuel) buf i =
    let rest = string_at fuel buf (i + 1) in if buf i == 0 then [] else buf i ∷ rest

-- What a call of readline comes to, with its static buffer: the string in it, or NULL, or it waits for
-- more input.
pub data Answer : Type 0 where
  answer : Option (List ℕ) → (ℕ → ℕ) → Answer
  unfinished : (ℕ → ℕ) → Answer

-- How the loop of wait_input goes on: it waits in a call, returns, or has another round.
pub data Next : Type 0 where
  waits returns again : (ℕ → ℕ) → Next

module _ (inb : Device) where
  -- The calls of `cputchar` in order; `echo` has the newest character first.
  unfoldable pub say : List ℕ → Shown (Unit {0})
  unfolding echoed
  say echo s = some (tt, echoed inb echo s)

  -- The end of a call: what it printed behind the prompt, and its result.
  unfoldable pub finish : Outcome → Shown Answer
  unfolding say print string_at
  finish (line e) = do say e.echo; pure (answer (some (string_at buflen e.buf 0)) e.buf)
  finish (read_error c e) = do
    say e.echo
    print inb (codes "read error: %d\n") (word (2 ^ 32 - neg_part c) ∷ [])
    pure (answer none e.buf)
  finish (waiting e) = do say e.echo; pure (unfinished e.buf)

  -- `readline` with its prompt; `buf` is the static array.
  unfoldable pub readline_printing : Option (List ℕ) → List ℤ → (ℕ → ℕ) → Shown Answer
  unfolding finish readline
  readline_printing none cs buf = finish (readline cs record { buf = buf; i = 0; echo = [] })
  readline_printing (some prompt) cs buf = do
    print inb (codes "%s") (text (some prompt) ∷ [])
    finish (readline cs record { buf = buf; i = 0; echo = [] })

  module _ (k : Symbols) where
    -- What the loop does with a result of readline.
    unfoldable pub respond : Answer → Shown Next
    unfolding run_printing
    respond (unfinished buf) = pure (waits buf)
    respond (answer none buf) = pure (again buf)
    respond (answer (some l) buf) = do
      res ← run_printing inb k l
      if is_zero (res -ℤ poweroff) then pure (returns buf) else pure (again buf)

    -- The loop of `wait_input` on the results of getchar that each call of readline takes: what is
    -- left of them when it returns, or `none` while it waits, with the buffer and the console.
    unfoldable pub serve : List (List ℤ) → (ℕ → ℕ) → Shown (Option (List (List ℤ)) × (ℕ → ℕ))
    unfolding readline_printing respond
    serve [] buf = pure (none, buf)
    serve (cs ∷ calls) buf = do
      result ← readline_printing (some (codes "cezOS > ")) cs buf
      next ← respond result
      elim next [
        | waits buf' ↦ pure (none, buf')
        | returns buf' ↦ pure (some calls, buf')
        | again buf' ↦ serve calls buf'
      ]

    -- `wait_input` with the lines that it prints before its loop.
    unfoldable pub wait_input_printing :
        List (List ℤ) → (ℕ → ℕ) → Shown (Option (List (List ℤ)) × (ℕ → ℕ))
    unfolding serve
    wait_input_printing calls buf = do
      print inb (codes "%s") (text (some (replicate 10 b'\n')) ∷ [])
      print inb (codes "%s") (text (some (replicate 10 b'\n')) ∷ [])
      print inb (codes "%s") (text (some (replicate 10 b'\n')) ∷ [])
      serve calls buf
