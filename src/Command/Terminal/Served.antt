-- ===== src/Command/Terminal/Served.antt =====
-- wait_input on typed lines does what the loop does on the lines alone.
use cezos.Base.{
  ℕ, ◌≡◌, refl, ap, ◌∙◌, true, if◌then◌else◌, Bool-cases, inl, inr, Option, none, some, List, [],
  ◌∷◌, replicate,
}
use cezos.Base.Int.{ℤ, is_zero, ◌-ℤ◌}
use cezos.Str.Compare.Prefix.{IsBytes}
use cezos.Console.Screen.{Console, Device}
use cezos.Printfmt.Escape.{text}
use cezos.Printfmt.Format.Pieces.{string}
use cezos.Readline.{buflen, Editor, line, readline}
use cezos.Readline.Edit.{is_end, no_end, edit_all, typed, readline-edit_echo}
use cezos.Readline.Shown.{echoed}
use cezos.Command.{codes, poweroff, run_command, powers_off, wait_input}
use cezos.Command.Display.{Symbols, Shown, pure, and_then, ◌>>=◌, print}
use cezos.Command.Display.Printed.{IsLinked, shown, print-output_of, run_printing-run_command}
use cezos.Command.Terminal.{
  string_at, say, answer, Next, waits, returns, again, finish, readline_printing, respond, serve,
  wait_input_printing,
}
use cezos.Command.Terminal.Lines.{in_order, edit_all-IsText, in_order-IsBytes, string_at-line}

-- A line that is typed: the characters up to its end, and the newline or carriage return.
pub record Typed : Type 0 where
  pub chars : List ℕ
  pub last : ℕ

abbrev pub AreTyped : List Typed → Type 0
AreTyped [] = Unit {0}
AreTyped (t ∷ ts) = (no_end t.chars ≡ true) × (is_end t.last ≡ true) × IsBytes t.chars × AreTyped ts

-- The results of getchar, call by call, and the lines.
abbrev pub keys : List Typed → List (List ℤ)
keys [] = []
keys (t ∷ ts) = typed t.chars t.last [] ∷ keys ts

abbrev pub line_of : Typed → List ℕ
line_of t = in_order (edit_all t.chars [])

abbrev pub lines : List Typed → List (Option (List ℕ))
lines [] = []
lines (t ∷ ts) = some (line_of t) ∷ lines ts

-- The lines behind the first one that powers off; `none` if none does.
unfoldable pub served : List Typed → Option (List Typed)
served [] = none
served (t ∷ ts) = let rest = served ts in if powers_off (line_of t) then some ts else rest

-- What is left at the end, for the loop and for wait_input.
abbrev pub keys_left : Option (List Typed) → Option (List (List ℤ))
keys_left none = none
keys_left (some ts) = some (keys ts)

abbrev pub lines_left : Option (List Typed) → Option (List (Option (List ℕ)))
lines_left none = none
lines_left (some ts) = some (lines ts)

wait_input-served : (ts : List Typed) → wait_input (lines ts) ≡ lines_left (served ts)
unfolding wait_input served
wait_input-served [] = refl
wait_input-served (t ∷ ts) = elim (Bool-cases (powers_off (line_of t))) [
  | inl off ↦ rw (off) refl
  | inr on ↦ rw (on) (wait_input-served ts)
]

module _ (inb : Device) where
  finish-line :
      (e : Editor) (s : Console)
      → finish inb (line e) s
        ≡ some (answer (some (string_at buflen e.buf 0)) e.buf, echoed inb e.echo s)
  unfolding finish say
  finish-line e s = refl

  readline-typed :
      (t : Typed) (buf : ℕ → ℕ) (s : Console)
      → no_end t.chars ≡ true
      → is_end t.last ≡ true
      → IsBytes t.chars
      → (buf' : ℕ → ℕ) × (s' : Console) × (readline_printing inb
            (some (codes "cezOS > "))
            (typed t.chars t.last [])
            buf
            s
          ≡ some (answer (some (line_of t)) buf', s'))
  unfolding readline_printing finish
  readline-typed t buf s go stop bytes =
      let (done, run, ends, edited, said) =
        readline-edit_echo t.chars t.last [] record { buf = buf; i = 0; echo = [] } go stop in
      let prompted = (print-output_of inb (string (codes "cezOS > ") ∷ []) (refl, tt)).runs s in
      (
        done.buf,
        echoed inb done.echo (shown inb (codes "cezOS > ") s),
        ap
              (λ o. and_then o (λ _.
                finish inb
                  (readline (typed t.chars t.last []) record { buf = buf; i = 0; echo = [] })))
              prompted
            ∙ ap (λ o. finish inb o (shown inb (codes "cezOS > ") s)) run
            ∙ finish-line done (shown inb (codes "cezOS > ") s)
            ∙ ap
                (λ (l : List ℕ).
                  some (
                    answer (some l) done.buf,
                    echoed inb done.echo (shown inb (codes "cezOS > ") s),
                  ))
                (string_at-line done.buf (edit_all t.chars []) (edit_all-IsText t.chars [] bytes tt)
                  edited.holds ends edited.short),
      )

  module _ (k : Symbols) (linked : IsLinked k) where
    respond-run_command :
        (l : List ℕ) (buf : ℕ → ℕ) (s : Console)
        → IsBytes l
        → (t : Console) × (respond inb k (answer (some l) buf) s
            ≡ some (if powers_off l then returns buf else again buf, t))
    unfolding respond powers_off
    respond-run_command l buf s bytes =
        let (t, run) = run_printing-run_command inb k l s linked bytes in
        (t, ap (λ o. and_then o (decide buf)) run ∙ branch t)
      where
        decide : (ℕ → ℕ) → ℤ → Shown Next
        decide buf res = if is_zero (res -ℤ poweroff) then pure (returns buf) else pure (again buf)

        branch :
            (t : Console)
            → decide buf (run_command l) t
              ≡ some (if powers_off l then returns buf else again buf, t)
        branch t = elim (Bool-cases (is_zero (run_command l -ℤ poweroff))) [
          | inl off ↦ rw (off) refl
          | inr on ↦ rw (on) refl
        ]

    -- One round of the loop.
    round :
        (t : Typed) (ts : List Typed) (buf : ℕ → ℕ) (s : Console)
        → AreTyped (t ∷ ts)
        → (buf' : ℕ → ℕ) × (s' : Console) × (serve inb k (keys (t ∷ ts)) buf s ≡ (
            if powers_off (line_of t)
            then some ((some (keys ts), buf'), s')
            else serve inb k (keys ts) buf' s'))
    unfolding serve
    round t ts buf s (go, stop, bytes, h) =
        let (buf', s1, read) = readline-typed t buf s go stop bytes in
        let (s', done) =
          respond-run_command (line_of t) buf' s1
            (in_order-IsBytes (edit_all t.chars []) (edit_all-IsText t.chars [] bytes tt)) in
        (
          buf',
          s',
          ap (λ o. and_then o (λ result. respond inb k result >>= proceed)) read
              ∙ ap (λ o. and_then o proceed) done
              ∙ branch buf' s',
        )
      where
        proceed : Next → Shown (Option (List (List ℤ)) × (ℕ → ℕ))
        proceed (waits buf') = pure (none, buf')
        proceed (returns buf') = pure (some (keys ts), buf')
        proceed (again buf') = serve inb k (keys ts) buf'

        branch :
            (buf' : ℕ → ℕ) (s' : Console)
            → proceed (if powers_off (line_of t) then returns buf' else again buf') s' ≡ (
                if powers_off (line_of t)
                then some ((some (keys ts), buf'), s')
                else serve inb k (keys ts) buf' s')
        branch buf' s' = elim (Bool-cases (powers_off (line_of t))) [
          | inl off ↦ rw (off) refl
          | inr on ↦ rw (on) refl
        ]

    serve-served :
        (ts : List Typed) (buf : ℕ → ℕ) (s : Console)
        → AreTyped ts
        → (buf' : ℕ → ℕ) × (s' : Console) × (serve inb k (keys ts) buf s
            ≡ some ((keys_left (served ts), buf'), s'))
    unfolding serve served
    serve-served [] buf s h = (buf, s, refl)
    serve-served (t ∷ ts) buf s (go, stop, bytes, h) =
        let (buf1, s1, run) = round t ts buf s (go, stop, bytes, h) in
        elim (Bool-cases (powers_off (line_of t))) [
          | inl off ↦ rw off (buf1, s1, run ∙ rw off refl)
          | inr on ↦
              let (buf', s', rest) = serve-served ts buf1 s1 h in rw on (buf', s', run ∙ rw on rest)
        ]

    -- For lines of characters of one byte, each typed up to a newline or a carriage return, and symbols
    -- whose addresses have 32 bits: on the keys and the console wait_input ends as it does on the
    -- edited lines alone. If one of them powers off, both return behind the first such line; if not,
    -- both wait after the last one. No printing on the way fails.
    pub wait_input_printing-served :
        (ts : List Typed) (buf : ℕ → ℕ) (s : Console)
        → AreTyped ts
        → (wait_input (lines ts) ≡ lines_left (served ts))
          × (buf' : ℕ → ℕ) × (s' : Console) × (wait_input_printing inb k (keys ts) buf s
              ≡ some ((keys_left (served ts), buf'), s'))
    unfolding wait_input_printing
    wait_input_printing-served ts buf s h =
        let (s1, one) = newlines s in
        let (s2, two) = newlines s1 in
        let (s3, three) = newlines s2 in
        let (buf', s', run) = serve-served ts buf s3 h in
        (wait_input-served ts, buf', s', rw (one, two, three) run)
      where
        newlines :
            (s : Console)
            → (t : Console) × (print inb (codes "%s") (text (some (replicate 10 b'\n')) ∷ []) s
                ≡ some (tt, t))
        newlines s = (
          shown inb (replicate 10 b'\n') s,
          (print-output_of inb (string (replicate 10 b'\n') ∷ []) (refl, tt)).runs s,
        )
