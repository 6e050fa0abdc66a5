-- ===== src/Bootloader/Image.antt =====
-- `kload`: the kernel's file, its segments in memory, and the jump to its entry.
use cezos.Base.{ℕ, ◌+◌, ◌*◌, ◌%◌, ◌^◌, ◌≤◌, ◌<◌, ◌≡◌, ◌⊎◌}
use cezos.Str.Memory.{Mem}
use cezos.Bootloader.{sectsize, elf_magic, kelf_header, half_at, word_at, Outs}
use cezos.Bootloader.Sector.{IsDrive}
use cezos.Bootloader.Segment.{image, first_byte, behind}

-- The table of program headers in a file, and the fields of the header with a number.
unfoldable pub phoff : Mem → ℕ
phoff file = word_at file 28

unfoldable pub phnum : Mem → ℕ
phnum file = half_at file 44

unfoldable pub p_pa : Mem → ℕ → ℕ
p_pa file i = word_at file (phoff file + 32 * i + 12)

unfoldable pub p_memsz : Mem → ℕ → ℕ
p_memsz file i = word_at file (phoff file + 32 * i + 20)

unfoldable pub p_offset : Mem → ℕ → ℕ
p_offset file i = word_at file (phoff file + 32 * i + 4)

-- A file that the loader can load: its program headers lie in the first page, its segments behind the
-- place of that page and before the last sector of the address space, at the same place in a sector
-- as in the file, and no segment's sectors touch the bytes of one before it.
pub record IsKernel (file : Mem) : Type 0 where
  pub magic : word_at file 0 ≡ elf_magic
  pub headers : phoff file + 32 * phnum file ≤ 4096
  pub fits : (i : ℕ) → i < phnum file → p_pa file i + p_memsz file i + 512 ≤ 2 ^ 32
  pub within : (i : ℕ) → i < phnum file → p_offset file i + p_memsz file i + 1024 ≤ 2 ^ 37
  pub same : (i : ℕ) → i < phnum file → p_pa file i % sectsize ≡ p_offset file i % sectsize
  pub above : (i : ℕ) → i < phnum file → 0x11000 ≤ p_pa file i
  pub apart :
      (i j : ℕ)
      → i < j
      → j < phnum file
      → (p_pa file i + p_memsz file i ≤ first_byte (p_pa file j))
        ⊎ (behind (p_pa file j) (p_memsz file j) ≤ p_pa file i)

-- The memory after `d` segments: the first page of the file at the header, and the segments.
pub record HasSegments (file : Mem) (d : ℕ) (m : Mem) : Type 0 where
  pub page : (j : ℕ) → j < 4096 → m (kelf_header + j) ≡ file j
  pub segment :
      (i k : ℕ) → i < d → k < p_memsz file i → m (p_pa file i + k) ≡ file (p_offset file i + k)

module _ {status data_port : Outs → ℕ → ℕ} {limit : ℕ} {disk : ℕ → ℕ → ℕ}
    (drive : IsDrive status data_port limit disk) (kernel : IsKernel (image disk)) where
  abbrev file : Mem
  file = image disk

  -- The header with the number `d`.
  abbrev header : ℕ → ℕ
  header d = kelf_header + phoff file + 32 * d
