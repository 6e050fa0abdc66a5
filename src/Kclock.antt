-- ===== src/Kclock.antt =====
-- src/kernel/kclock.c: the clock's memory. The state is the list of the writes by `outb`, newest first.
mod Tests
use cezos.Base.{ℕ, ◌+◌, ◌%◌, ◌<◌, ◌≡◌, ◌≢◌, ◌∙◌, List, [], ◌∷◌, arith}
use cezos.Console.Screen.{Device}
use cezos.Ports.{HasRegisters}

-- IO_RTC
abbrev pub io_rtc : ℕ
io_rtc = 0x70

unfoldable pub mc_write : ℕ → ℕ → List (ℕ × ℕ) → List (ℕ × ℕ)
mc_write reg datum outs = (io_rtc + 1, datum % 256) ∷ (io_rtc, reg % 256) ∷ outs

module _ (inb : Device) where
  unfoldable pub mc_read : ℕ → List (ℕ × ℕ) → ℕ × List (ℕ × ℕ)
  mc_read reg outs = let sent = (io_rtc, reg % 256) ∷ outs in (inb sent (io_rtc + 1) 0, sent)

-- On a clock whose registers keep what is written to them, mc_read of a register gives the byte that
-- mc_write put there, also if another register was written since then.
pub mc_read-mc_write :
    (inb : Device) (reg other datum filler : ℕ) (outs : List (ℕ × ℕ))
    → HasRegisters inb io_rtc
    → reg < 128
    → other < 128
    → reg ≢ other
    → (mc_read inb reg (mc_write other filler (mc_write reg datum outs))).0 ≡ datum % 256
unfolding mc_read mc_write
mc_read-mc_write inb reg other datum filler outs clock hr ho ne = clock.answer _ ∙ ground arith
