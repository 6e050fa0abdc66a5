-- ===== src/Command/Display/Printed.antt =====
-- The text that a command prints.
use cezos.Base.{
  ℕ, ◌+◌, ◌%◌, ◌<◌, ◌^◌, ◌≡◌, refl, ap, sym, ◌∙◌, true, Bool-cases, inl, inr, if◌then◌else◌, some,
  List, [], ◌∷◌, ◌++◌, arith,
}
use cezos.Base.Int.{ℤ, pos, negsuc}
use cezos.Str.Compare.Prefix.{IsBytes, strcmp-is_prefix}
use cezos.Console.Screen.{Console, Device, console_putc}
use cezos.Printfmt.Format.Hex.{hex_digits}
use cezos.Printfmt.Format.Pieces.{
  Piece, plain_text, wide_word, string, format_of, arguments_of, output_of, IsPrintable, ascii,
  vprintfmt-output_of,
}
use cezos.Printf.{putch, putch_all, vcprintf, cprintf}
use cezos.Command.{codes, CommandEntry, commands, run_command}
use cezos.Command.Match.{comparable, run_command-comparable}
use cezos.Command.Display.{
  Symbols, below_base, Shown, pure, and_then, ◌>>◌, print, show_commands, show_help,
  show_kernel_info, run_printing,
}

-- The addresses of the symbols have 32 bits.
pub record IsLinked (k : Symbols) : Type 0 where
  pub start : k.start < 2 ^ 32
  pub entry : k.entry < 2 ^ 32
  pub etext : k.etext < 2 ^ 32
  pub edata : k.edata < 2 ^ 32
  pub end_bss : k.end_bss < 2 ^ 32

-- The physical address of a symbol: the kernel is linked from 2 ^ 32 - 2 ^ 28 on.
abbrev physical : ℕ → ℕ
physical symbol = (symbol + 2 ^ 28) % 2 ^ 32

-- What the functions print.
abbrev pub symbol_text : List ℕ → ℕ → List ℕ
symbol_text name symbol =
    codes "[Info] "
    ++ (name
        ++ (hex_digits 8 symbol
            ++ (codes " (virt)  " ++ (hex_digits 8 (physical symbol) ++ codes " (phys)\n"))))

abbrev pub info_text : Symbols → List ℕ
info_text k =
    codes "[Info] Special kernel symbols:\n"
    ++ (codes "[Info] _start                  "
        ++ (hex_digits 8 k.start
            ++ (codes " (phys)\n"
                ++ (symbol_text (codes "entry  ") k.entry
                    ++ (symbol_text (codes "etext  ") k.etext
                        ++ (symbol_text (codes "edata  ") k.edata
                            ++ symbol_text (codes "end    ") k.end_bss))))))

abbrev pub command_text : CommandEntry → List ℕ
command_text c =
    codes "[Info] Command: "
    ++ (c.name ++ (codes "\n[Info]\tDescription: " ++ (c.description ++ codes "\n[Info]\n")))

abbrev pub help_text : List CommandEntry → List ℕ
help_text [] = []
help_text (c ∷ cs) = command_text c ++ help_text cs

abbrev IsAscii : List CommandEntry → Type 0
IsAscii [] = Unit {0}
IsAscii (c ∷ cs) = (ascii c.name ≡ true) × (ascii c.description ≡ true) × IsAscii cs

-- The console after the characters of a text.
unfoldable pub shown : Device → List ℕ → Console → Console
shown inb [] s = s
shown inb (ch ∷ out) s = shown inb out (console_putc inb ch s)

module _ (inb : Device) where
  shown-append : (l r : List ℕ) (s : Console) → shown inb (l ++ r) s ≡ shown inb r (shown inb l s)
  unfolding shown
  shown-append [] r s = refl
  shown-append (ch ∷ l) r s = shown-append l r (console_putc inb ch s)

  putch_all-shown :
      (out : List ℕ) (s : Console) (n : ℕ) → putch_all inb out (s, n) ≡ (shown inb out s, n)
  unfolding putch_all putch shown
  putch_all-shown [] s n = refl
  putch_all-shown (ch ∷ out) s n = putch_all-shown out (console_putc inb ch s) n

  -- A function that prints a text and returns a value.
  pub record Prints {A : Type 0} (m : Shown A) (a : A) (out : List ℕ) : Type 0 where
    pub runs : (s : Console) → m s ≡ some (a, shown inb out s)

  pub print-output_of :
      (ps : List Piece)
      → IsPrintable ps
      → Prints (print inb (format_of ps) (arguments_of ps)) tt (output_of ps)
  unfolding print cprintf vcprintf
  print-output_of ps h = record {
    runs = λ s. rw (vprintfmt-output_of ps h, putch_all-shown (output_of ps) s 0) refl;
  }

  print_then :
      (ps : List Piece) {A : Type 0} {m : Shown A} {a : A} {out : List ℕ}
      → IsPrintable ps
      → Prints m a out
      → Prints (print inb (format_of ps) (arguments_of ps) >> m) a (output_of ps ++ out)
  print_then ps {A} {m} {a} {out} h rest = record {
    runs = λ s.
        ap (λ o. and_then o (λ _. m)) ((print-output_of ps h).runs s)
        ∙ rest.runs (shown inb (output_of ps) s)
        ∙ ap (λ (t : Console). some (a, t)) (sym (shown-append (output_of ps) out s));
  }

  pure-Prints : {A : Type 0} (a : A) → Prints (pure a) a []
  unfolding shown
  pure-Prints a = record { runs = λ s. refl }

  abbrev symbol_pieces : List ℕ → ℕ → List Piece
  symbol_pieces name symbol =
      plain_text (codes "[Info] " ++ name)
      ∷ wide_word symbol
      ∷ plain_text (codes " (virt)  ")
      ∷ wide_word (below_base symbol)
      ∷ plain_text (codes " (phys)\n")
      ∷ []

  show_kernel_info-Prints :
      (k : Symbols) → IsLinked k → Prints (show_kernel_info inb k) (pos 0) (info_text k)
  unfolding show_kernel_info hex_digits
  show_kernel_info-Prints k l =
      print_then (plain_text (codes "[Info] Special kernel symbols:\n") ∷ []) (refl, tt)
        (print_then
          (plain_text (codes "[Info] _start                  ")
            ∷ wide_word k.start
            ∷ plain_text (codes " (phys)\n")
            ∷ [])
          (refl, (l.start, (refl, tt)))
          (print_then (symbol_pieces (codes "entry  ") k.entry)
            (refl, (l.entry, (refl, (omega arith, (refl, tt)))))
            (print_then (symbol_pieces (codes "etext  ") k.etext)
              (refl, (l.etext, (refl, (omega arith, (refl, tt)))))
              (print_then (symbol_pieces (codes "edata  ") k.edata)
                (refl, (l.edata, (refl, (omega arith, (refl, tt)))))
                (print_then (symbol_pieces (codes "end    ") k.end_bss)
                  (refl, (l.end_bss, (refl, (omega arith, (refl, tt))))) (pure-Prints (pos 0)))))))

  then-Prints :
      {A : Type 0} {m : Shown (Unit {0})} {n : Shown A} {a : A} (l r : List ℕ)
      → Prints m tt l
      → Prints n a r
      → Prints (m >> n) a (l ++ r)
  then-Prints {n = n} {a = a} l r first second = record {
    runs = λ s.
        ap (λ o. and_then o (λ _. n)) (first.runs s)
        ∙ second.runs (shown inb l s)
        ∙ ap (λ (t : Console). some (a, t)) (sym (shown-append l r s));
  }

  abbrev command_pieces : CommandEntry → List Piece
  command_pieces c =
      plain_text (codes "[Info] Command: ")
      ∷ string c.name
      ∷ plain_text (codes "\n[Info]\tDescription: ")
      ∷ string c.description
      ∷ plain_text (codes "\n[Info]\n")
      ∷ []

  show_commands-Prints :
      (cs : List CommandEntry) → IsAscii cs → Prints (show_commands inb cs) tt (help_text cs)
  unfolding show_commands
  show_commands-Prints [] h = pure-Prints tt
  show_commands-Prints (c ∷ cs) (name, description, h) =
      print_then (command_pieces c) (refl, (name, (refl, (description, (refl, tt)))))
        (show_commands-Prints cs h)

  show_help-Prints : Prints (show_help inb) (pos 0) (help_text commands)
  unfolding show_help
  show_help-Prints =
      then-Prints (help_text commands) []
        (show_commands-Prints commands (refl, refl, (refl, refl, (refl, refl, tt))))
        (pure-Prints (pos 0))

  run_printing-comparable :
      (k : Symbols) (line : List ℕ)
      → IsBytes line
      → run_printing inb k line ≡ (
          if comparable line (codes "help")
          then show_help inb
          else if comparable line (codes "kerninfo")
          then show_kernel_info inb k
          else if comparable line (codes "shutdown")
          then pure (negsuc 0)
          else pure (negsuc 9))
  unfolding run_printing
  run_printing-comparable k line bytes =
      rw
        (
          strcmp-is_prefix line (codes "help") bytes (omega arith),
          strcmp-is_prefix line (codes "kerninfo") bytes (omega arith),
          strcmp-is_prefix line (codes "shutdown") bytes (omega arith),
        )
        refl

  -- run_command takes the first of help, kerninfo and shutdown that begins with the line, or with
  -- which the line begins. help prints the name and the description of each command, and returns 0;
  -- kerninfo prints the addresses of the kernel's symbols, virtual and physical, in eight hexadecimal
  -- digits, and returns 0; shutdown returns -1 and prints nothing, and so does a line for which there
  -- is no command, with -10. The addresses have 32 bits.
  pub run_printing-shown :
      (k : Symbols) (line : List ℕ) (s : Console)
      → IsLinked k
      → IsBytes line
      → run_printing inb k line s ≡ (
          if comparable line (codes "help")
          then some (pos 0, shown inb (help_text commands) s)
          else if comparable line (codes "kerninfo")
          then some (pos 0, shown inb (info_text k) s)
          else if comparable line (codes "shutdown")
          then some (negsuc 0, s)
          else some (negsuc 9, s))
  run_printing-shown k line s linked bytes =
      ap (λ (m : Shown ℤ). m s) (run_printing-comparable k line bytes)
      ∙ elim (Bool-cases (comparable line (codes "help"))) [
        | inl help ↦ rw (help) (show_help-Prints.runs s)
        | inr other ↦ elim (Bool-cases (comparable line (codes "kerninfo"))) [
          | inl info ↦ rw (other, info) ((show_kernel_info-Prints k linked).runs s)
          | inr last ↦ elim (Bool-cases (comparable line (codes "shutdown"))) [
            | inl off ↦ rw (other, last, off) refl
            | inr unknown ↦ rw (other, last, unknown) refl
          ]
        ]
      ]

  -- The result is that of run_command.
  pub run_printing-run_command :
      (k : Symbols) (line : List ℕ) (s : Console)
      → IsLinked k
      → IsBytes line
      → (t : Console) × (run_printing inb k line s ≡ some (run_command line, t))
  run_printing-run_command k line s linked bytes =
      rw (run_printing-shown k line s linked bytes, run_command-comparable line bytes)
        (elim (Bool-cases (comparable line (codes "help"))) [
          | inl help ↦ rw (help) (shown inb (help_text commands) s, refl)
          | inr other ↦ elim (Bool-cases (comparable line (codes "kerninfo"))) [
            | inl info ↦ rw (other, info) (shown inb (info_text k) s, refl)
            | inr last ↦ elim (Bool-cases (comparable line (codes "shutdown"))) [
              | inl off ↦ rw (other, last, off) (s, refl)
              | inr unknown ↦ rw (other, last, unknown) (s, refl)
            ]
          ]
        ])
