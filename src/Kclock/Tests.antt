-- ===== src/Kclock/Tests.antt =====
-- The register 0x15, with a write to 0x17 after it.
use cezos.Base.{◌≡◌, refl, []}
use cezos.Console.Screen.{Device}
use cezos.Kclock.{mc_read, mc_write}
use cezos.Ports.{register, selected}

abbrev clock : Device
clock outs p i = register 0x70 (selected 0x70 outs) outs

kept : (mc_read clock 0x15 (mc_write 0x17 5 (mc_write 0x15 0x180 []))).0 ≡ 0x80
unfolding mc_read mc_write
kept = refl
