-- ===== src/Bootloader.antt =====
-- src/bootloader/main.c: sectors of the disk into memory, the segments of the kernel, its entry.
pub mod Sector
pub mod Segment
pub mod Image
mod Tests
use cezos.Base.{
  ℕ, zero, suc, ◌+◌, ◌-◌, ◌*◌, ◌/◌, ◌%◌, ◌^◌, ltb, leb, ◌==◌, ◌&&◌, if◌then◌else◌, bit_and, bit_or,
  Option, none, some, true, false, List, [], ◌∷◌,
}
use cezos.Str.Memory.{Mem}

abbrev pub sectsize : ℕ
sectsize = 512

abbrev pub elf_magic : ℕ
elf_magic = 0x464C457F

-- `kelf_header`
abbrev pub kelf_header : ℕ
kelf_header = 0x10000

-- The writes by `outb`, newest first, each with its port and its byte.
abbrev pub Outs : Type 0
Outs = List (ℕ × ℕ)

-- The memory and the writes.
pub record Loader : Type 0 where
  pub memory : Mem
  pub outs : Outs

-- The six writes of `readsect`, from the four bytes of the sector's number.
abbrev pub command : ℕ → ℕ → ℕ → ℕ → Outs → Outs
command b0 b1 b2 b3 outs =
    (0x1F7, 0x20) ∷ (0x1F6, b3) ∷ (0x1F5, b2) ∷ (0x1F4, b1) ∷ (0x1F3, b0) ∷ (0x1F2, 1) ∷ outs

-- The fields of `struct Elf` and of `struct Proghdr` that the loader reads, in the byte order of the
-- machine.
unfoldable pub half_at : Mem → ℕ → ℕ
half_at m a = m a + m (a + 1) * 2 ^ 8

unfoldable pub word_at : Mem → ℕ → ℕ
unfolding half_at
word_at m a = half_at m a + half_at m (a + 2) * 2 ^ 16

-- How the loader ends: in the kernel's entry, in `load_error`, or, which is no end of the code, out
-- of fuel.
pub data Boot : Type 0 where
  entry : ℕ → Loader → Boot
  load_error stuck : Boot

-- The drive: the answer to a poll of its status, from the writes so far and the number of the poll,
-- and the bytes that its data port gives after these writes. `limit` is the fuel for the polls.
module _ (status : Outs → ℕ → ℕ) (data_port : Outs → ℕ → ℕ) (limit : ℕ) where
  unfoldable pub waitdisk : ℕ → ℕ → Outs → Option (Unit {0})
  waitdisk zero i outs = none
  waitdisk (suc fuel) i outs =
      let rest = waitdisk fuel (i + 1) outs in
      if bit_and (status outs i) 0xC0 == 0x40 then some tt else rest

  -- `insl` at the data port: `cnt` words to `addr`.
  unfoldable pub insl : ℕ → ℕ → Loader → Loader
  insl addr cnt s = record s {
    memory = λ a.
        if leb addr a && ltb a (addr + 4 * cnt) then data_port s.outs (a - addr) else s.memory a;
  }

  unfoldable pub readsect : ℕ → ℕ → Loader → Option Loader
  unfolding waitdisk insl
  readsect dst offset s = elim (waitdisk limit 0 s.outs) [
    | none ↦ none
    | some _ ↦
        let sent =
          command (offset % 256) (offset / 2 ^ 8 % 256) (offset / 2 ^ 16 % 256)
            (bit_or (offset / 2 ^ 24) 0xE0 % 256) s.outs in
        elim (waitdisk limit 0 sent) [
          | none ↦ none
          | some _ ↦ some (insl dst (sectsize / 4) (record s { outs = sent }))
        ]
  ]

  -- The loop of `readseg`, on fuel for the sectors.
  unfoldable pub read_sectors : ℕ → ℕ → ℕ → ℕ → Loader → Option Loader
  unfolding readsect
  read_sectors zero pa end_pa offset s = none
  read_sectors (suc fuel) pa end_pa offset s = elim (ltb pa end_pa) [
    | false ↦ some s
    | true ↦ elim (readsect pa offset s) [
      | none ↦ none
      | some t ↦ read_sectors fuel ((pa + sectsize) % 2 ^ 32) end_pa ((offset + 1) % 2 ^ 32) t
    ]
  ]

  -- The fuel is enough for the sectors that `count` bytes touch, and the last test of the loop.
  unfoldable pub readseg : ℕ → ℕ → ℕ → Loader → Option Loader
  unfolding read_sectors
  readseg pa count offset s =
      read_sectors (count / sectsize + 3) (pa / sectsize * sectsize) ((pa + count) % 2 ^ 32)
        (offset / sectsize + 1) s

  -- `p_pa`, `p_memsz` and `p_offset` of the program header at `ph`.
  unfoldable pub load_segment : ℕ → Loader → Option Loader
  unfolding readseg
  load_segment ph s =
      readseg (word_at s.memory (ph + 12)) (word_at s.memory (ph + 20)) (word_at s.memory (ph + 4))
        s

  -- The loop over the program headers; the fuel is their number.
  unfoldable pub load_segments : ℕ → ℕ → ℕ → Loader → Option Loader
  unfolding load_segment
  load_segments zero ph eph s = if ltb ph eph then none else some s
  load_segments (suc fuel) ph eph s = elim (ltb ph eph) [
    | false ↦ some s
    | true ↦ elim (load_segment ph s) [
      | none ↦ none
      | some t ↦ load_segments fuel ((ph + 32) % 2 ^ 32) eph t
    ]
  ]

  -- `ph` and `eph`, and the call of `e_entry`.
  unfoldable pub run_kernel : Loader → Boot
  unfolding load_segments
  run_kernel s =
      let ph = (kelf_header + word_at s.memory (kelf_header + 28)) % 2 ^ 32 in
      let phnum = half_at s.memory (kelf_header + 44) in
      elim (load_segments phnum ph ((ph + 32 * phnum) % 2 ^ 32) s) [
        | none ↦ stuck
        | some t ↦ entry (word_at t.memory (kelf_header + 24)) t
      ]

  unfoldable pub kload : Loader → Boot
  unfolding readseg run_kernel
  kload s = elim (readseg kelf_header (sectsize * 8) 0 s) [
    | none ↦ stuck
    | some t ↦ if word_at t.memory kelf_header == elf_magic then run_kernel t else load_error
  ]
