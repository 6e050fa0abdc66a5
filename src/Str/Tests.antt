-- ===== src/Str/Tests.antt =====
-- The functions of string.c on small strings and on a memory whose address a holds a % 7 + 1, with the
-- string "ab" at 100.
use cezos.Base.{
  ℕ, ◌^◌, ◌+◌, ◌-◌, ◌%◌, ◌≤◌, ◌<◌, ◌==◌, ◌≡◌, inl, inr, refl, ◌||◌, if◌then◌else◌, some, List, [],
  ◌∷◌, take, arith,
}
use cezos.Base.Int.{pos, negsuc, is_zero}
use cezos.Command.{codes}
use cezos.Printfmt.Escape.{word, signed}
use cezos.Printfmt.Format.{done, vprintfmt}
use cezos.Str.Memory.Concat.{with_chars, strcat, strcat-at}
use cezos.Str.Number.{strtol}
use cezos.Str.Number.Round.{strtol-vprintfmt}
use cezos.Str.Compare.{strcmp}
use cezos.Str.Compare.Prefix.{is_prefix, strcmp-is_prefix}
use cezos.Str.Memory.{Mem, memmove, strcpy, strncpy}
use cezos.Str.Memory.Copy.{memmove_overlap}
use cezos.Str.Memory.Strings.{IsStr, Copied, strcpy-Copied, strncpy-Copied}

abbrev bytes : Mem
bytes a = if a == 100 then b'a' else if a == 101 then b'b' else if a == 102 then 0 else a % 7 + 1

abbrev text : List ℕ
text = b'a' ∷ b'b' ∷ []

text_lem : IsStr bytes 100 text
text_lem = (refl, omega arith, (refl, omega arith, refl))

strcmp-is_prefix_example :
    is_zero (strcmp text (b'a' ∷ [])) ≡ (is_prefix text (b'a' ∷ []) || is_prefix (b'a' ∷ []) text)
strcmp-is_prefix_example =
    strcmp-is_prefix text (b'a' ∷ []) (omega arith, (omega arith, tt)) (omega arith, tt)

memmove_overlap_example :
    ((a : ℕ) → a < 20 + 2 → memmove bytes (20 + 2) 20 6 a ≡ bytes a)
    × ((a : ℕ)
        → 20 + 2 ≤ a
        → a < 20 + 2 + 6
        → memmove bytes (20 + 2) 20 6 a ≡ memmove bytes (20 + 2) 20 6 (a - 2))
memmove_overlap_example = memmove_overlap 6 bytes 20 2 (omega arith)

strcpy-Copied_example : (m' : Mem) × (strcpy 3 bytes 200 100 ≡ some m') × Copied bytes 200 text m'
strcpy-Copied_example =
    strcpy-Copied 3 text bytes 200 100 (omega arith) (inr (omega arith)) text_lem

strncpy-Copied_example : Copied bytes 200 (take 1 text) (strncpy bytes 200 100 1)
strncpy-Copied_example = strncpy-Copied 1 text bytes 200 100 (inr (omega arith)) text_lem

strtol-vprintfmt_example :
    (out : List ℕ) × (vprintfmt (codes "%d") (word 0xffff_fff4 ∷ []) ≡ done out)
    × (strtol out 10 ≡ (signed 0xffff_fff4, []))
strtol-vprintfmt_example = strtol-vprintfmt 0xffff_fff4 (omega arith)

-- The base is chosen from the string.
bases :
    (strtol (codes " 0x1Fz") 0 ≡ (pos 31, codes "z"))
    × (strtol (codes "-017") 0 ≡ (negsuc 14, []))
    × (strtol (codes "+42") 0 ≡ (pos 42, []))
unfolding strtol
bases = (refl, refl, refl)

-- "ab" at 100 and "c" behind it, with the outer variable 1.
abbrev pair : Mem
pair a = if a == 300 then b'c' else if a == 301 then 0 else bytes a

strcat-at_example :
    (m' : Mem) × (strcat 1 pair 100 300 3 ≡ some m')
    × ((a : ℕ)
        → m' a
          ≡ (if a == (100 + 2 + 1) % 2 ^ 32 then 0 else with_chars (b'c' ∷ []) (100 + 2) pair a))
strcat-at_example =
    strcat-at 1 3 text (b'c' ∷ []) pair 100 300 (omega arith) (omega arith) (omega arith)
      (omega arith) (inl (omega arith)) (refl, omega arith, (refl, omega arith, refl))
      (refl, omega arith, refl)
