-- ===== src/Command/Tests.antt =====
-- Lines of the command line.
use cezos.Base.{ℕ, ◌≡◌, refl, none, some, List, [], ◌∷◌, ◌++◌}
use cezos.Str.Compare.{strcmp}
use cezos.Command.{powers_off, run_command, wait_input}
use cezos.Command.Match.{go_on, wait_input-returns}

abbrev line : List ℕ
line = b's' ∷ []

wait_input-returns_example :
    wait_input ((none ∷ some (b'x' ∷ []) ∷ []) ++ some line ∷ none ∷ []) ≡ some (none ∷ [])
unfolding go_on powers_off run_command strcmp
wait_input-returns_example =
    wait_input-returns (none ∷ some (b'x' ∷ []) ∷ []) (none ∷ []) line refl refl
