-- ===== src/Command/Display.antt =====
-- The functions of src/kernel/command.c with what they print.
pub mod Printed
mod Tests
use cezos.Base.{ℕ, ◌+◌, ◌-◌, ◌%◌, if◌then◌else◌, Option, none, some, List, [], ◌∷◌}
use cezos.Base.Int.{ℤ, is_zero}
use cezos.Mmu.{word_size, kernel_base_address}
use cezos.Str.Compare.{strcmp}
use cezos.Console.Screen.{Console, Device}
use cezos.Printfmt.Escape.{Arg, word, text}
use cezos.Printf.{cprintf}
use cezos.Command.{
  codes, ok, poweroff, invalid, Function, display_help, display_kernel_info, poweroff_machine,
  CommandEntry, commands,
}

-- The addresses that the linker gives to the symbols.
pub record Symbols : Type 0 where
  pub start : ℕ
  pub entry : ℕ
  pub etext : ℕ
  pub edata : ℕ
  pub end_bss : ℕ

-- A function that prints: its result and the console; `none` if a printing has no result.
abbrev pub Shown : Type 0 → Type 0
Shown A = Console → Option (A × Console)

abbrev pub pure : {A : Type 0} → A → Shown A
pure a s = some (a, s)

module _ {A B : Type 0} where
  abbrev pub and_then : Option (A × Console) → (A → Shown B) → Option (B × Console)
  and_then none k = none
  and_then (some (a, s)) k = k a s

  infixl 5 ◌>>=◌ ◌>>◌
  abbrev pub ◌>>=◌ : Shown A → (A → Shown B) → Shown B
  m >>= k = λ s. and_then (m s) k

  abbrev pub ◌>>◌ : Shown A → Shown B → Shown B
  m >> n = m >>= λ _. n

-- `symbol - KERNEL_BASE_ADDRESS`
abbrev pub below_base : ℕ → ℕ
below_base symbol = (symbol + (word_size - kernel_base_address)) % word_size

abbrev with_count : Option (Console × ℕ) → Option (Unit {0} × Console)
with_count none = none
with_count (some (s, cnt)) = some (tt, s)

module _ (inb : Device) where
  -- A call of `cprintf` whose result is not used.
  unfoldable pub print : List ℕ → List Arg → Shown (Unit {0})
  unfolding cprintf
  print fmt args s = with_count (cprintf inb fmt args s)

  -- The loop of `display_help` over the rest of the table.
  unfoldable pub show_commands : List CommandEntry → Shown (Unit {0})
  unfolding print
  show_commands [] = pure tt
  show_commands (c ∷ cs) =
      print (codes "[Info] Command: %s\n[Info]\tDescription: %s\n[Info]\n")
        (text (some c.name) ∷ text (some c.description) ∷ [])
      >> show_commands cs

  unfoldable pub show_help : Shown ℤ
  unfolding show_commands
  show_help = do show_commands commands; pure ok

  unfoldable pub show_kernel_info : Symbols → Shown ℤ
  unfolding print
  show_kernel_info k = do
    print (codes "[Info] Special kernel symbols:\n") []
    print (codes "[Info] _start                  %08x (phys)\n") (word k.start ∷ [])
    print (codes "[Info] entry  %08x (virt)  %08x (phys)\n")
        (word k.entry ∷ word (below_base k.entry) ∷ [])
    print (codes "[Info] etext  %08x (virt)  %08x (phys)\n")
        (word k.etext ∷ word (below_base k.etext) ∷ [])
    print (codes "[Info] edata  %08x (virt)  %08x (phys)\n")
        (word k.edata ∷ word (below_base k.edata) ∷ [])
    print (codes "[Info] end    %08x (virt)  %08x (phys)\n")
        (word k.end_bss ∷ word (below_base k.end_bss) ∷ [])
    pure ok

  -- The call through the pointer of `struct command_t`.
  unfoldable pub call_printing : Symbols → Function → Shown ℤ
  unfolding show_help show_kernel_info
  call_printing k display_help = show_help
  call_printing k display_kernel_info = show_kernel_info k
  call_printing k poweroff_machine = pure poweroff

  unfoldable pub run_printing_from : Symbols → List CommandEntry → List ℕ → Shown ℤ
  unfolding call_printing
  run_printing_from k [] command_name = pure invalid
  run_printing_from k (c ∷ cs) command_name =
      let rest = run_printing_from k cs command_name in
      if is_zero (strcmp command_name c.name) then call_printing k c.function else rest

  -- `run_command` on the console.
  unfoldable pub run_printing : Symbols → List ℕ → Shown ℤ
  unfolding run_printing_from
  run_printing k command_name = run_printing_from k commands command_name
