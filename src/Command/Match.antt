-- ===== src/Command/Match.antt =====
-- Which command a line runs.
use cezos.Base.{
  ℕ, ◌≡◌, refl, ◌||◌, ◌&&◌, if◌then◌else◌, Bool, true, Option, none, some, List, [], ◌∷◌, ◌++◌,
  arith, not,
}
use cezos.Base.Int.{pos, negsuc}
use cezos.Str.Compare.Prefix.{IsBytes, is_prefix, strcmp-is_prefix}
use cezos.Command.{codes, poweroff, run_command, powers_off, wait_input}

-- One of the line and the name begins with the other.
abbrev pub comparable : List ℕ → List ℕ → Bool
comparable line name = is_prefix line name || is_prefix name line

-- run_command takes the first of help, kerninfo and shutdown that begins with the line, or with
-- which the line begins, and returns 0, 0 and -1 for them; it returns -10 if there is none.
pub run_command-comparable :
    (line : List ℕ)
    → IsBytes line
    → run_command line ≡ (
        if comparable line (codes "help")
        then pos 0
        else if comparable line (codes "kerninfo")
        then pos 0
        else if comparable line (codes "shutdown")
        then negsuc 0
        else negsuc 9)
unfolding run_command
run_command-comparable line bytes =
    rw
      (
        strcmp-is_prefix line (codes "help") bytes (omega arith),
        strcmp-is_prefix line (codes "kerninfo") bytes (omega arith),
        strcmp-is_prefix line (codes "shutdown") bytes (omega arith),
      )
      refl

-- Every result makes `wait_input` go on: it is NULL, or a line whose command does not power off.
unfoldable pub go_on : List (Option (List ℕ)) → Bool
go_on [] = true
go_on (none ∷ inputs) = go_on inputs
go_on (some line ∷ inputs) = not (powers_off line) && go_on inputs

-- wait_input returns behind the first line whose command returns POWEROFF, and takes all the results
-- before it, NULL results and lines with another command or none.
pub wait_input-returns :
    (before after : List (Option (List ℕ))) (line : List ℕ)
    → go_on before ≡ true
    → run_command line ≡ poweroff
    → wait_input (before ++ some line ∷ after) ≡ some after
unfolding wait_input powers_off go_on
wait_input-returns [] after line on off = rw (off) refl
wait_input-returns (none ∷ before) after line on off = wait_input-returns before after line on off
wait_input-returns (some l ∷ before) after line on off =
    let ih = wait_input-returns before after line in ground arith
