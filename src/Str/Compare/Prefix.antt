-- ===== src/Str/Compare/Prefix.antt =====
-- What `strcmp` and `strncmp` take for equal: strings one of which begins with the other.
use cezos.Base.{
  ℕ, ◌+◌, ◌≡◌, ◌<◌, refl, ◌==◌, ◌&&◌, ◌||◌, Bool, true, false, some, List, [], ◌∷◌, ◌++◌, length,
  arith, min, ◌∙◌, ◌≢◌, inl, inr, Bool-cases,
}
use cezos.Base.Int.{pos, is_zero, neg, ◌-ℤ◌}
use cezos.Str.Compare.{schar, diff, strnlen, count_up, strcmp}

abbrev pub IsBytes : List ℕ → Type 0
IsBytes [] = Unit {0}
IsBytes (b ∷ s) = (b < 256) × IsBytes s

-- The second list begins with the first.
unfoldable pub is_prefix : List ℕ → List ℕ → Bool
is_prefix [] t = true
is_prefix (a ∷ s) [] = false
is_prefix (a ∷ s) (b ∷ t) = a == b && is_prefix s t

diff_zero : (a b : ℕ) → a < 256 → b < 256 → is_zero (diff a b) ≡ (a == b)
diff_zero a b ha hb = ground arith

neg-diff : (a b : ℕ) → a < 256 → b < 256 → (a == b) ≡ false → is_zero (neg (diff a b)) ≡ false
neg-diff a b ha hb ne = ground arith

-- For strings of bytes strcmp returns 0 exactly if one of the two strings begins with the other;
-- the empty string compares equal to every string.
pub strcmp-is_prefix :
    (s t : List ℕ) → IsBytes s → IsBytes t → is_zero (strcmp s t) ≡ (is_prefix s t || is_prefix t s)
unfolding strcmp is_prefix
strcmp-is_prefix [] t hs ht = refl
strcmp-is_prefix (a ∷ s) [] hs ht = refl
strcmp-is_prefix (a ∷ s) (b ∷ t) hs ht = elim (Bool-cases (a == b)) [
  | inl e ↦
      let same : is_zero (diff a b) ≡ true = diff_zero a b hs.0 ht.0 ∙ e in
      let back : (b == a) ≡ true = ground arith in
      rw (same, e, back) (strcmp-is_prefix s t hs.1 ht.1)
  | inr e ↦
      let differ : is_zero (diff a b) ≡ false = diff_zero a b hs.0 ht.0 ∙ e in
      let back : (b == a) ≡ false = ground arith in rw (differ, e, back) (neg-diff a b hs.0 ht.0 e)
]

-- Behind a common beginning of bytes the first bytes that differ decide: strcmp returns the second
-- one less the first one, as values of char.
pub strcmp-first_difference :
    (p s t : List ℕ) (a b : ℕ)
    → IsBytes p
    → a < 256
    → b < 256
    → a ≢ b
    → strcmp (p ++ a ∷ s) (p ++ b ∷ t) ≡ schar b -ℤ schar a
unfolding strcmp
strcmp-first_difference [] s t a b hp ha hb ne =
    let differ : is_zero (diff a b) ≡ false = ground arith in rw differ (ground arith)
strcmp-first_difference (c ∷ p) s t a b hp ha hb ne =
    let same : is_zero (diff c c) ≡ true = ground arith in
    rw same (strcmp-first_difference p s t a b hp.1 ha hb ne)

count_up-length : (s : List ℕ) (n : ℕ) → count_up s n ≡ n + length s
unfolding count_up
count_up-length [] n = omega arith
count_up-length (c ∷ s) n = omega (arith, count_up-length s (n + 1))

-- strnlen is the number of bytes of the string, or size if that is less.
pub strnlen-min : (s : List ℕ) (size : ℕ) → strnlen (some s) size ≡ pos (min (length s) size)
unfolding strnlen
strnlen-min s size = ground (arith, count_up-length s 0)
