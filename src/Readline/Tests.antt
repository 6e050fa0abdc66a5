-- ===== src/Readline/Tests.antt =====
-- A line with one backspace.
use cezos.Base.{◌≡◌, refl, [], ◌∷◌, length, arith}
use cezos.Console.Screen.{Console}
use cezos.Readline.Shown.{echoed}
use cezos.Readline.Echo.{IsAnswered, readline-IsAnswered}
use cezos.Readline.{Editor, line, readline}
use cezos.Readline.Edit.{no_end, edit_all, typed, Editing, readline-edit_all}

abbrev editor : Editor
editor = record { buf = λ j. 7; i = 3; echo = [] }

readline-edit_all_example :
    (done : Editor) × (readline (typed (b'a' ∷ b'x' ∷ b'\x08' ∷ b'b' ∷ []) b'\n' []) editor
      ≡ line done)
    × (done.buf (length (edit_all (b'a' ∷ b'x' ∷ b'\x08' ∷ b'b' ∷ []) [])) ≡ 0)
    × Editing editor.buf (edit_all (b'a' ∷ b'x' ∷ b'\x08' ∷ b'b' ∷ []) []) done
unfolding no_end
readline-edit_all_example =
    readline-edit_all (b'a' ∷ b'x' ∷ b'\x08' ∷ b'b' ∷ []) b'\n' [] editor refl refl

-- a blank screen with the position behind the prompt on the last line, where wait_input calls readline
abbrev prompt : Console
prompt = record { c_pos = 1928; c_buffer = λ j. 0x720; port = 0x3d4; outs = []; delays = 0 }

readline-IsAnswered_example :
    (done : Editor) × (readline (typed (b'a' ∷ b'x' ∷ b'\x08' ∷ b'b' ∷ []) b'\n' []) editor
      ≡ line done)
    × Editing editor.buf (edit_all (b'a' ∷ b'x' ∷ b'\x08' ∷ b'b' ∷ []) []) done
    × IsAnswered
        (λ s p n. 0)
        prompt
        (edit_all (b'a' ∷ b'x' ∷ b'\x08' ∷ b'b' ∷ []) [])
        (echoed (λ s p n. 0) done.echo prompt)
unfolding no_end
readline-IsAnswered_example =
    readline-IsAnswered (λ s p n. 0) (b'a' ∷ b'x' ∷ b'\x08' ∷ b'b' ∷ []) b'\n' [] editor prompt refl
      refl (omega arith, (omega arith, (omega arith, (omega arith, tt)))) refl (omega arith)
