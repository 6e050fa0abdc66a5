-- ===== src/Ports.antt =====
-- Registers behind two ports: the first selects a register, the second is its data. The display's
-- controller and the clock's memory are of this kind.
use cezos.Base.{ℕ, ◌+◌, ◌==◌, ◌&&◌, ◌≡◌, if◌then◌else◌, List, [], ◌∷◌}
use cezos.Console.Screen.{Device}

-- The register that is selected at the port, after writes, the newest first.
abbrev pub selected : ℕ → List (ℕ × ℕ) → ℕ
selected port [] = 0
selected port ((p, v) ∷ outs) = let before = selected port outs in if p == port then v else before

-- What was written last to a register.
abbrev pub register : ℕ → ℕ → List (ℕ × ℕ) → ℕ
register port r [] = 0
register port r ((p, v) ∷ outs) =
    let before = register port r outs in
    if (p == port + 1) && (selected port outs == r) then v else before

-- The device answers at its data port with what was written last to the register that is selected.
pub record HasRegisters (inb : Device) (port : ℕ) : Type 0 where
  pub answer :
      (outs : List (ℕ × ℕ)) → inb outs (port + 1) 0 ≡ register port (selected port outs) outs
