-- ===== src/Console/Ring/Tests.antt =====
-- The input buffer at a place where the writes go round its end.
use cezos.Base.{ℕ, ◌%◌, ◌==◌, if◌then◌else◌, ◌≡◌, ◌⊎◌, Option, some, none, [], ◌∷◌, ◌++◌, arith}
use cezos.Console.Ring.{Cons, take_char, console_interrupt}
use cezos.Console.Ring.Queue.{IsValid, contents, typed, take_char_refines, console_interrupt-append}

-- Two bytes wait, at 510 and 511.
abbrev wrapped : Cons
wrapped = record { buf = λ i. i % 256; rpos = 510; wpos = 0 }

wrapped-IsValid : IsValid wrapped
wrapped-IsValid = record { reading = omega arith; writing = omega arith }

-- A device without a state whose readings are characters, and end with 300 for -1.
abbrev device : ℕ → ℕ → Option ℕ × ℕ
device r k = (if r == 300 then none else some r, k)

take_char_refines_example :
    IsValid (take_char wrapped).1
    × ((contents wrapped ≡ (take_char wrapped).0 ∷ contents (take_char wrapped).1)
        ⊎ ((contents wrapped ≡ []) × (take_char wrapped ≡ (0, wrapped))))
take_char_refines_example = take_char_refines wrapped-IsValid

console_interrupt-append_example :
    IsValid (console_interrupt device (b'l' ∷ 0 ∷ b's' ∷ 300 ∷ []) 0 wrapped).1
    × (contents (console_interrupt device (b'l' ∷ 0 ∷ b's' ∷ 300 ∷ []) 0 wrapped).1
        ≡ contents wrapped ++ typed device (b'l' ∷ 0 ∷ b's' ∷ 300 ∷ []) 0)
unfolding typed
console_interrupt-append_example =
    console_interrupt-append device (b'l' ∷ 0 ∷ b's' ∷ 300 ∷ []) 0 wrapped-IsValid (omega arith)
