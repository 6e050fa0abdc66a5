-- ===== src/Str/Memory/Strings.antt =====
-- `strcpy` and `strncpy` on strings in memory.
use cezos.Base.{
  ℕ, zero, suc, ◌+◌, ◌<◌, ◌==◌, ◌≡◌, ◌≢◌, ◌⊎◌, refl, ◌∙◌, some, List, [], ◌∷◌, length, take, arith,
  true, false,
}
use cezos.Str.Memory.{Mem, poke, strcpy, strncpy}

-- At `p` there stands the string `xs` with its NUL.
abbrev pub IsStr : Mem → ℕ → List ℕ → Type 0
IsStr m p [] = m p ≡ 0
IsStr m p (x ∷ xs) = (m p ≡ x) × (x ≢ 0) × IsStr m (p + 1) xs

-- No address from `lo` to `hi` is changed.
abbrev pub Beyond : ℕ → ℕ → Mem → Mem → Type 0
Beyond lo hi m m' = (a : ℕ) → (a < lo) ⊎ (hi < a) → m' a ≡ m a

-- A write outside of a string leaves it.
pub IsStr-poke :
    (xs : List ℕ) (m : Mem) (p a v : ℕ)
    → (a < p) ⊎ (p + length xs < a)
    → IsStr m p xs
    → IsStr (poke m a v) p xs
IsStr-poke [] m p a v out h = ground arith
IsStr-poke (x ∷ xs) m p a v out (e, ne, h) =
    (ground arith, ne, IsStr-poke xs m (p + 1) a v (omega arith) h)

-- The bytes at `dst` after a copy, and what lies around them.
pub record Copied (m : Mem) (dst : ℕ) (xs : List ℕ) (m' : Mem) : Type 0 where
  pub copy : IsStr m' dst xs
  pub beyond : Beyond dst (dst + length xs) m m'

Copied-nil : (m : Mem) (dst : ℕ) → Copied m dst [] (poke m dst 0)
Copied-nil m dst = record { copy = ground arith; beyond = λ a out. ground arith }

Copied-cons :
    {m m' : Mem} {dst x : ℕ} {xs : List ℕ}
    → x ≢ 0
    → Copied (poke m dst x) (dst + 1) xs m'
    → Copied m dst (x ∷ xs) m'
Copied-cons {m} {m'} {dst} {x} {xs} ne c = record {
  copy = (c.beyond dst (omega arith) ∙ ground arith, ne, c.copy);
  beyond = λ a out. c.beyond a (omega arith) ∙ ground arith;
}

-- On fuel above its length strcpy copies a string with its NUL to a place that does not overlap
-- it, and writes nothing else.
pub strcpy-Copied :
    (fuel : ℕ) (xs : List ℕ) (m : Mem) (dst src : ℕ)
    → length xs < fuel
    → (dst + length xs < src) ⊎ (src + length xs < dst)
    → IsStr m src xs
    → (m' : Mem) × (strcpy fuel m dst src ≡ some m') × Copied m dst xs m'
unfolding strcpy
strcpy-Copied zero xs m dst src enough apart h = absurd (omega arith)
strcpy-Copied (suc fuel) [] m dst src enough apart h =
    let end : (m src == 0) ≡ true = ground arith in (poke m dst 0, rw end refl, Copied-nil m dst)
strcpy-Copied (suc fuel) (x ∷ xs) m dst src enough apart (e, ne, h) =
    let more : (m src == 0) ≡ false = ground arith in
    let (m', run, c) =
      strcpy-Copied fuel xs (poke m dst (m src)) (dst + 1) (src + 1) (omega arith) (omega arith)
        (IsStr-poke xs m (src + 1) dst (m src) (omega arith) h) in
    (m', rw more run, Copied-cons ne (rw (← e) c))

-- strncpy copies the first bytes of a string, at most size of them, to a place that does not
-- overlap it, puts a NUL behind them, and writes nothing else. Where the string has size bytes or
-- more, the NUL is at dst + size.
pub strncpy-Copied :
    (size : ℕ) (xs : List ℕ) (m : Mem) (dst src : ℕ)
    → (dst + length xs < src) ⊎ (src + length xs < dst)
    → IsStr m src xs
    → Copied m dst (take size xs) (strncpy m dst src size)
unfolding strncpy
strncpy-Copied zero xs m dst src apart h = Copied-nil m dst
strncpy-Copied (suc size) [] m dst src apart h =
    let end : (m src == 0) ≡ true = ground arith in rw end (Copied-nil m dst)
strncpy-Copied (suc size) (x ∷ xs) m dst src apart (e, ne, h) =
    let more : (m src == 0) ≡ false = ground arith in
    rw more (
      Copied-cons ne (
        rw (← e) (
          strncpy-Copied size xs (poke m dst (m src)) (dst + 1) (src + 1) (omega arith)
            (IsStr-poke xs m (src + 1) dst (m src) (omega arith) h))))
