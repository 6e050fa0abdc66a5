-- ===== src/Bootloader/Tests.antt =====
-- A drive that is always ready, with a kernel of two segments: 100 bytes from 0x1000 of the file at
-- 0x100000, and 600 bytes from 0x2010 at 0x108010.
use cezos.Base.{ℕ, ◌+◌, ◌-◌, ◌*◌, ◌%◌, ◌^◌, ltb, ◌==◌, if◌then◌else◌, List, [], ◌∷◌}
use cezos.Str.Memory.{Mem}
use cezos.Bootloader.{Outs, Loader}
use cezos.Bootloader.Segment.{image}

abbrev field_bytes : List (ℕ × ℕ)
field_bytes =
    (0, 0x7f)
    ∷ (1, b'E')
    ∷ (2, b'L')
    ∷ (3, b'F')
    ∷ (26, 0x10)
    ∷ (28, 52)
    ∷ (44, 2)
    ∷ (57, 0x10)
    ∷ (66, 0x10)
    ∷ (72, 100)
    ∷ (88, 0x10)
    ∷ (89, 0x20)
    ∷ (96, 0x10)
    ∷ (97, 0x80)
    ∷ (98, 0x10)
    ∷ (104, 0x58)
    ∷ (105, 2)
    ∷ []

abbrev byte_in : List (ℕ × ℕ) → ℕ → ℕ
byte_in [] j = if ltb j 4096 then 0 else j % 251
byte_in ((k, b) ∷ fields) j = if j == k then b else byte_in fields j

abbrev disk : ℕ → ℕ → ℕ
disk n i = byte_in field_bytes ((n - 1) * 512 + i)

abbrev status : Outs → ℕ → ℕ
status outs k = 0x40

abbrev data_port : Outs → ℕ → ℕ
data_port (c ∷ (p6, b3) ∷ (p5, b2) ∷ (p4, b1) ∷ (p3, b0) ∷ outs) i =
    disk (b0 + b1 * 2 ^ 8 + b2 * 2 ^ 16 + b3 % 16 * 2 ^ 24) i
data_port outs i = 0xff

abbrev loader : Loader
loader = record { memory = λ a. 0; outs = [] }

abbrev file : Mem
file = image disk
