-- ===== src/Str/Compare.antt =====
-- The functions of string.c that only read. A C string is the list of its bytes before the NUL, so
-- `*(s + i) != '\0'` is that the rest of the list is not empty. A `char` is signed.
pub mod Prefix
use cezos.Base.{
  ℕ, zero, suc, ◌+◌, ◌-◌, ◌≡◌, ◌↔◌, ◌⊎◌, inl, inr, refl, ap, ◌==◌, ltb, leb, ◌&&◌, ◌||◌,
  if◌then◌else◌, Bool, true, false, Option, none, some, List, [], ◌∷◌, ◌++◌, length, arith,
  Bool-cases, ◌<◌,
}
use cezos.Base.Int.{ℤ, pos, negsuc, ◌-ℤ◌, ltb_ℤ, neg, is_zero}

-- The value of a byte as a `char`, promoted to `int`.
abbrev pub schar : ℕ → ℤ
schar b = if ltb b 128 then pos b else negsuc (255 - b)

unfoldable pub count_up : List ℕ → ℕ → ℕ
count_up [] count = count
count_up (c ∷ s) count = count_up s (count + 1)

-- `strlen`; `none` is NULL.
unfoldable pub strlen : Option (List ℕ) → ℤ
unfolding count_up
strlen none = negsuc 0
strlen (some s) = pos (count_up s 0)

-- `strnlen`, for a size that an `int` can hold
unfoldable pub strnlen : Option (List ℕ) → ℕ → ℤ
unfolding strlen
strnlen none size = negsuc 0
strnlen (some s) size = if ltb_ℤ (pos size) (strlen (some s)) then pos size else strlen (some s)

abbrev pub diff : ℕ → ℕ → ℤ
diff a b = schar a -ℤ schar b

-- `strcmp`: the first difference, negated; 0 as soon as one of the strings ends.
unfoldable pub strcmp : List ℕ → List ℕ → ℤ
strcmp [] s2 = pos 0
strcmp (a ∷ s1) [] = pos 0
strcmp (a ∷ s1) (b ∷ s2) =
    let rest = strcmp s1 s2 in if is_zero (diff a b) then rest else neg (diff a b)

unfoldable pub strncmp : List ℕ → List ℕ → ℕ → ℤ
strncmp [] s2 size = pos 0
strncmp (a ∷ s1) [] size = pos 0
strncmp (a ∷ s1) (b ∷ s2) zero = pos 0
strncmp (a ∷ s1) (b ∷ s2) (suc size) =
    let rest = strncmp s1 s2 size in if is_zero (diff a b) then rest else neg (diff a b)

-- `strchr`: the rest of the string from the first `c` on; `none` is NULL.
unfoldable pub strchr : List ℕ → ℕ → Option (List ℕ)
strchr [] c = none
strchr (b ∷ s) c = let rest = strchr s c in if b == c then some (b ∷ s) else rest
