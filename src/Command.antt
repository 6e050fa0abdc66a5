-- ===== src/Command.antt =====
-- src/kernel/command.c and src/kernel/command.h, the command line of the kernel.
pub mod Match
pub mod Display
pub mod Terminal
mod Tests
use Prim.Native.Char.{code}
use Prim.Native.String
use Prim.Native.String.{String}
use cezos.Base.{ℕ, ◌==◌, if◌then◌else◌, Bool, Option, none, some, List, [], ◌∷◌}
use cezos.Base.Int.{ℤ, pos, negsuc, is_zero, ◌-ℤ◌}
use cezos.Str.Compare.{strcmp}

-- The bytes of a text that is ASCII.
abbrev pub codes : String → List ℕ
codes String.[] = []
codes (String.◌∷◌ c s) = code c ∷ codes s

-- OK, POWEROFF and INVALID
abbrev pub ok : ℤ
ok = pos 0

abbrev pub poweroff : ℤ
poweroff = negsuc 0

abbrev pub invalid : ℤ
invalid = negsuc 9

-- The functions that `struct command_t` points to. What they print is in Display.
pub data Function : Type 0 where
  display_help display_kernel_info poweroff_machine : Function

unfoldable pub call : Function → ℤ
call display_help = ok
call display_kernel_info = ok
call poweroff_machine = poweroff

pub record CommandEntry : Type 0 where
  pub name : List ℕ
  pub description : List ℕ
  pub function : Function

abbrev pub commands : List CommandEntry
commands =
    record {
      name = codes "help";
      description = codes "Display all commands avalable";
      function = display_help;
    }
    ∷ record {
      name = codes "kerninfo";
      description = codes "Display information about cezOS";
      function = display_kernel_info;
    }
    ∷ record {
      name = codes "shutdown";
      description = codes "Shutdown the machine";
      function = poweroff_machine;
    }
    ∷ []

-- The loop of `run_command` over the table.
unfoldable pub run_from : List CommandEntry → List ℕ → ℤ
unfolding call
run_from [] command_name = invalid
run_from (c ∷ cs) command_name =
    let rest = run_from cs command_name in
    if is_zero (strcmp command_name c.name) then call c.function else rest

unfoldable pub run_command : List ℕ → ℤ
unfolding run_from
run_command command_name = run_from commands command_name

-- The condition of the loop of `wait_input`.
unfoldable pub powers_off : List ℕ → Bool
powers_off line = is_zero (run_command line -ℤ poweroff)

-- `wait_input` on the results of `readline` to come, `none` for NULL: the inputs that are left when
-- it returns, or `none` if it still waits after the last one.
unfoldable pub wait_input : List (Option (List ℕ)) → Option (List (Option (List ℕ)))
wait_input [] = none
wait_input (none ∷ inputs) = wait_input inputs
wait_input (some line ∷ inputs) =
    let rest = wait_input inputs in if powers_off line then some inputs else rest
