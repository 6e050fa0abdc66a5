-- ===== src/Bootloader/Segment.antt =====
-- What `readseg` loads: whole sectors around the bytes that are asked for.
use cezos.Base.{ℕ, ◌+◌, ◌-◌, ◌*◌, ◌/◌, ◌%◌, ◌≤◌, ◌<◌, ltb, leb, ◌&&◌, ◌≡◌, ◌⊎◌, if◌then◌else◌}
use cezos.Str.Memory.{Mem}
use cezos.Bootloader.{sectsize}

-- The bytes of the disk from sector 1 on: the file of the kernel.
abbrev pub image : (ℕ → ℕ → ℕ) → ℕ → ℕ
image disk j = disk (j / sectsize + 1) (j % sectsize)

-- The first byte of the sector that `pa` is in, and the first one behind the sectors of the bytes.
abbrev pub first_byte : ℕ → ℕ
first_byte pa = pa / sectsize * sectsize

abbrev pub behind : ℕ → ℕ → ℕ
behind pa count = (pa + count + 511) / sectsize * sectsize

-- `count` bytes of the kernel's file from `offset` on, at `pa`, and no other sectors changed.
pub record Loaded (disk : ℕ → ℕ → ℕ) (pa count offset : ℕ) (m m' : Mem) : Type 0 where
  pub bytes : (i : ℕ) → i < count → m' (pa + i) ≡ image disk (offset + i)
  pub beyond : (a : ℕ) → (a < first_byte pa) ⊎ (behind pa count ≤ a) → m' a ≡ m a

-- The memory with `n` sectors from `pa` on.
abbrev with_sectors : (ℕ → ℕ → ℕ) → ℕ → ℕ → ℕ → Mem → Mem
with_sectors disk n pa offset m a =
    if leb pa a && ltb a (pa + sectsize * n)
    then disk (offset + (a - pa) / sectsize) ((a - pa) % sectsize)
    else m a
