-- ===== src/Bootloader/Sector.antt =====
-- What `readsect` and `readseg` load from a drive that answers.
use cezos.Base.{
  ℕ, zero, suc, ◌+◌, ◌-◌, ◌*◌, ◌/◌, ◌%◌, ◌^◌, ◌≤◌, ◌<◌, ltb, leb, ◌==◌, ◌&&◌, ◌≡◌, inl, inr, refl,
  ap, sym, ◌∙◌, if◌then◌else◌, bit_and, bit_or, some, true, Bool-cases, arith,
}
use native.Mathlib.Decide.{ℕ_discrete}
use mathlib.Core.Bool.{true≢false}
use cezos.Bits.{bit_or-low_four, bit_or-shift}
use cezos.Str.Memory.{Mem}
use cezos.Bootloader.{sectsize, Outs, Loader, command, waitdisk, insl, readsect}

-- A drive whose sectors hold `disk`. After any writes it is ready within `limit` polls, and after the
-- command to read a sector in LBA mode, which bit 6 of the drive and head byte says, its data port gives
-- the bytes of the sector, whose number has 28 bits. Bits 5 and 7 of the byte are 1 as the standard has it.
pub record IsDrive (status data_port : Outs → ℕ → ℕ) (limit : ℕ) (disk : ℕ → ℕ → ℕ) : Type 0 where
  pub ready :
      (outs : Outs) → (k : ℕ) × (k < limit) × ((bit_and (status outs k) 0xC0 == 0x40) ≡ true)
  pub sector :
      (b0 b1 b2 b3 : ℕ) (outs : Outs) (i : ℕ)
      → i < sectsize
      → b3 < 2 ^ 8
      → b3 / 2 ^ 5 ≡ 7
      → data_port (command b0 b1 b2 b3 outs) i
        ≡ disk (b0 + b1 * 2 ^ 8 + b2 * 2 ^ 16 + b3 % 16 * 2 ^ 24) i

-- The memory with a sector at `dst`.
abbrev pub with_sector : (ℕ → ℕ → ℕ) → ℕ → ℕ → Mem → Mem
with_sector disk dst offset m a =
    if leb dst a && ltb a (dst + sectsize) then disk offset (a - dst) else m a

module _ {status data_port : Outs → ℕ → ℕ} {limit : ℕ} {disk : ℕ → ℕ → ℕ}
    (drive : IsDrive status data_port limit disk) where
  -- A poll that finds the drive ready, within the fuel, ends the wait.
  waitdisk-some :
      (fuel i k : ℕ) (outs : Outs)
      → i ≤ k
      → k < i + fuel
      → (bit_and (status outs k) 0xC0 == 0x40) ≡ true
      → waitdisk status data_port limit fuel i outs ≡ some tt
  unfolding waitdisk
  waitdisk-some zero i k outs lo hi ready = absurd (omega arith)
  waitdisk-some (suc fuel) i k outs lo hi ready =
      elim (Bool-cases (bit_and (status outs i) 0xC0 == 0x40)) [
        | inl now ↦ rw now refl
        | inr later ↦ elim (ℕ_discrete i k) [
          | yes here ↦ absurd (true≢false (sym ready ∙ rw (← here) later))
          | no ne ↦ rw later (waitdisk-some fuel (i + 1) k outs (omega arith) (omega arith) ready)
        ]
      ]

  waited : (outs : Outs) → waitdisk status data_port limit limit 0 outs ≡ some tt
  waited outs =
      let (k, within, ready) = drive.ready outs in
      waitdisk-some limit 0 k outs (omega arith) (omega arith) ready

  -- The number that the drive reads from the four bytes.
  number :
      (offset b : ℕ)
      → offset < 2 ^ 28
      → b % 16 ≡ offset / 2 ^ 24
      → offset % 256
          + offset / 2 ^ 8 % 256 * 2 ^ 8
          + offset / 2 ^ 16 % 256 * 2 ^ 16
          + b % 16 * 2 ^ 24
        ≡ offset
  number offset b h e = omega arith

  high : (offset : ℕ) → offset < 2 ^ 28 → bit_or (offset / 2 ^ 24) 0xE0 % 256 % 16 ≡ offset / 2 ^ 24
  high offset h = omega (arith, bit_or-low_four (offset / 2 ^ 24) 0xE0 refl)

  -- The three highest bits of the last byte.
  mode : (offset : ℕ) → offset < 2 ^ 28 → bit_or (offset / 2 ^ 24) 0xE0 % 256 / 2 ^ 5 ≡ 7
  mode offset h =
      let low : offset / 2 ^ 24 / 2 ^ 5 ≡ 0 = omega arith in
      let flags : bit_or (offset / 2 ^ 24) 0xE0 / 2 ^ 5 ≡ 7 =
        rw (bit_or-shift 5 (offset / 2 ^ 24) 0xE0, low) refl in
      omega (arith, flags)

  -- `readsect` of a sector that has a number ends, and leaves the sector at `dst`.
  pub readsect-some :
      (dst offset : ℕ) (s : Loader)
      → offset < 2 ^ 28
      → (t : Loader) × (readsect status data_port limit dst offset s ≡ some t)
        × ((a : ℕ) → t.memory a ≡ with_sector disk dst offset s.memory a)
  unfolding readsect insl
  readsect-some dst offset s h =
      let sent : Outs =
        command (offset % 256) (offset / 2 ^ 8 % 256) (offset / 2 ^ 16 % 256)
          (bit_or (offset / 2 ^ 24) 0xE0 % 256) s.outs in
      (
        insl status data_port limit dst 128 (record s { outs = sent }),
        rw (readsect, waited s.outs, waited sent) refl,
        λ a. inserted a,
      )
    where
      inserted :
          (a : ℕ)
          → (insl status data_port limit dst 128 (record {
            memory = s.memory;
            outs =
                command
                  (offset % 256)
                  (offset / 2 ^ 8 % 256)
                  (offset / 2 ^ 16 % 256)
                  (bit_or (offset / 2 ^ 24) 0xE0 % 256)
                  s.outs;
          })).memory
              a
            ≡ with_sector disk dst offset s.memory a
      inserted a = elim (Bool-cases (leb dst a && ltb a (dst + sectsize))) [
        | inl inside ↦
            let within : a - dst < sectsize = ground arith in
            rw inside (
              drive.sector (offset % 256) (offset / 2 ^ 8 % 256) (offset / 2 ^ 16 % 256)
                (bit_or (offset / 2 ^ 24) 0xE0 % 256) s.outs (a - dst) within (omega arith)
                (mode offset h)
              ∙ ap (λ (n : ℕ). disk n (a - dst))
                  (number offset (bit_or (offset / 2 ^ 24) 0xE0 % 256) h (high offset h)))
        | inr outside ↦ rw outside refl
      ]
