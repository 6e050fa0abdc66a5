-- ===== src/Printfmt/Format/Tests.antt =====
-- Formats with arguments of several kinds.
use cezos.Base.{ℕ, ◌≡◌, ◌≢◌, ◌≤◌, ◌<◌, ◌^◌, List, refl, some, none, [], ◌∷◌, ◌++◌, replicate, min}
use cezos.Base.Int.{pos, pos_part, ◌-ℤ◌}
use cezos.Command.{codes}
use cezos.Printfmt.Escape.{Spec, word, text, initial, scan, switch}
use cezos.Printfmt.Convert.{print_number, convert, show_string, print_string}
use cezos.Printfmt.Format.{done, fault, stuck, format, vprintfmt}
use cezos.Printfmt.Format.Ends.{vprintfmt-ne-stuck}
use cezos.Printfmt.Format.Text.{print_string-Padded}

mixed :
    vprintfmt (codes "[%5d|%-4s|%x|%e|%5q|%08x|%.2s|%lld]") (
      word 0xffff_ffff
      ∷ text (some (codes "ab"))
      ∷ word 48879
      ∷ word 4
      ∷ word 255
      ∷ text (some (codes "xyz"))
      ∷ word 5
      ∷ word 1
      ∷ [])
    ≡ done (codes "[-    1|ab  |beef|out of memory|%5q|000000ff|xy|4294967301]")
unfolding vprintfmt scan switch convert show_string
mixed = refl

-- An argument that is not there, and a string where a number is read.
missing : vprintfmt (codes "%d") [] ≡ fault
unfolding vprintfmt scan switch convert
missing = refl

other_kind : vprintfmt (codes "%x") (text none ∷ []) ≡ fault
unfolding vprintfmt scan switch convert
other_kind = refl

-- Without a precision the padding on the left has the whole width.
wide_string : vprintfmt (codes "%4s") (text (some (codes "ab")) ∷ []) ≡ done (codes "    ab")
unfolding vprintfmt scan switch convert show_string
wide_string = refl

vprintfmt-ne-stuck_example :
    (vprintfmt (codes "%d%s") (word 3 ∷ []) ≢ stuck)
    × ((fuel : ℕ)
        → 4 ≤ fuel
        → format fuel (codes "%d%s") (word 3 ∷ []) ≡ vprintfmt (codes "%d%s") (word 3 ∷ []))
    × ((prefix : List ℕ) (s : Spec) (num base : ℕ)
        → 2 ≤ base
        → base ≤ 16
        → num < 2 ^ 64
        → print_number prefix s num base (word 3 ∷ []) ≢ none)
vprintfmt-ne-stuck_example = vprintfmt-ne-stuck (codes "%d%s") (word 3 ∷ [])

print_string-Padded_example :
    print_string (record initial { width = pos 6; precision = pos 2 }) (codes "abc")
    ≡ replicate (pos_part (pos 6 -ℤ pos (min 2 3))) b' ' ++ codes "ab"
print_string-Padded_example =
    print_string-Padded (record initial { width = pos 6; precision = pos 2 }) (codes "abc")
