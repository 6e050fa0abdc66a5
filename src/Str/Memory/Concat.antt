-- ===== src/Str/Memory/Concat.antt =====
-- `strcat` of string.c.
use native.Mathlib.Decide.{ℕ_discrete, dec_lt}
use cezos.Base.{
  ℕ, zero, suc, ◌+◌, ◌-◌, ◌%◌, ◌^◌, ◌≢◌, ◌≤◌, ◌<◌, ◌==◌, leb, ltb, ◌&&◌, ◌≡◌, ◌⊎◌, refl, ap, ◌∙◌,
  if◌then◌else◌, Option, none, some, true, false, List, [], ◌∷◌, length, get_or, arith,
}
use cezos.Str.Memory.{Mem, poke}
use cezos.Str.Memory.Strings.{IsStr, IsStr-poke}

-- The loop of `strlen` on memory, on fuel.
unfoldable pub length_at : ℕ → Mem → ℕ → Option ℕ
length_at zero m p = none
length_at (suc fuel) m p = elim (m p == 0) [
  | true ↦ some 0
  | false ↦ elim (length_at fuel m (p + 1)) [ none ↦ none | some n ↦ some (n + 1) ]
]

-- `strlen` as a word: -1 for NULL.
unfoldable pub strlen_at : ℕ → Mem → ℕ → Option ℕ
unfolding length_at
strlen_at fuel m s = if s == 0 then some (2 ^ 32 - 1) else length_at fuel m s

-- The loop, from the places `dst + len + i` and `src + i` on.
unfoldable pub copy_chars : ℕ → Mem → ℕ → ℕ → Option Mem
copy_chars zero m dst src = none
copy_chars (suc fuel) m dst src =
    let rest = copy_chars fuel (poke m dst (m src)) (dst + 1) (src + 1) in
    if m src == 0 then some m else rest

-- The loop has a variable `i` of its own, so the NUL is written at the place of the outer one, which
-- is never set: `i` is what it happens to hold. This place is taken modulo 2 ^ 32; the loop's places are
-- not, so a copy that goes round at the end of the address space is left aside.
unfoldable pub strcat : ℕ → Mem → ℕ → ℕ → ℕ → Option Mem
unfolding strlen_at copy_chars
strcat i m dst src fuel = elim (strlen_at fuel m dst) [
  | none ↦ none
  | some len ↦ elim (copy_chars fuel m ((dst + len) % 2 ^ 32) src) [
    | none ↦ none
    | some m' ↦ some (poke m' ((dst + len + i) % 2 ^ 32) 0)
  ]
]

length_at-some :
    (xs : List ℕ) (fuel : ℕ) (m : Mem) (p : ℕ)
    → length xs < fuel
    → IsStr m p xs
    → length_at fuel m p ≡ some (length xs)
unfolding length_at
length_at-some xs zero m p enough h = absurd (omega arith)
length_at-some [] (suc fuel) m p enough h =
    let end : (m p == 0) ≡ true = ground arith in rw (length_at, end) refl
length_at-some (x ∷ xs) (suc fuel) m p enough (e, ne, h) =
    let more : (m p == 0) ≡ false = ground arith in
    rw (length_at, more, length_at-some xs fuel m (p + 1) (omega arith) h)
      (ap (λ (n : ℕ). some n) (omega arith))

-- The memory with a string at `dst`, without its NUL.
abbrev pub with_chars : List ℕ → ℕ → Mem → Mem
with_chars ys dst m a = if leb dst a && ltb a (dst + length ys) then get_or ys (a - dst) 0 else m a

get_or_first : (y : ℕ) (ys : List ℕ) (n : ℕ) → n ≡ 0 → get_or (y ∷ ys) n 0 ≡ y
get_or_first y ys n e = rw e refl

get_or_later : (y : ℕ) (ys : List ℕ) (n k : ℕ) → n ≡ suc k → get_or (y ∷ ys) n 0 ≡ get_or ys k 0
get_or_later y ys n k e = rw e refl

with_chars-cons :
    (y : ℕ) (ys : List ℕ) (dst : ℕ) (m : Mem) (a : ℕ)
    → with_chars ys (dst + 1) (poke m dst y) a ≡ with_chars (y ∷ ys) dst m a
with_chars-cons y ys dst m a = elim (dec_lt dst a) [
  | yes above ↦ ground (arith, get_or_later y ys (a - dst) (a - (dst + 1)) (omega arith))
  | no low ↦ elim (ℕ_discrete a dst) [
    | yes here ↦ ground (arith, get_or_first y ys (a - dst) (omega arith))
    | no below ↦ ground arith
  ]
]

copy_chars-some :
    (ys : List ℕ) (fuel : ℕ) (m : Mem) (dst src : ℕ)
    → length ys < fuel
    → (dst + length ys ≤ src) ⊎ (src + length ys < dst)
    → IsStr m src ys
    → (m' : Mem) × (copy_chars fuel m dst src ≡ some m') × ((a : ℕ) → m' a ≡ with_chars ys dst m a)
unfolding copy_chars
copy_chars-some ys zero m dst src enough apart h = absurd (omega arith)
copy_chars-some [] (suc fuel) m dst src enough apart h =
    let end : (m src == 0) ≡ true = ground arith in
    (m, rw (copy_chars, end) refl, λ a. ground arith)
copy_chars-some (y ∷ ys) (suc fuel) m dst src enough apart (e, ne, h) =
    let more : (m src == 0) ≡ false = ground arith in
    let (m', run, all) =
      copy_chars-some ys fuel (poke m dst (m src)) (dst + 1) (src + 1) (omega arith) (omega arith)
        (IsStr-poke ys m (src + 1) dst (m src) (omega arith) h) in
    (
      m',
      rw (copy_chars, more) run,
      λ a.
          all a
          ∙ ap (λ (v : ℕ). with_chars ys (dst + 1) (poke m dst v) a) e
          ∙ with_chars-cons y ys dst m a,
    )

-- On fuel above their lengths, for a first string that is not at NULL and has room for the second one
-- in the address space, strcat puts the bytes of the second string behind those of the first, if they
-- do not overlap, and a NUL at the place that the variable i says, modulo 2 ^ 32; nothing else
-- changes. So it ends the string right only if i happens to hold the length of the second one.
pub strcat-at :
    (i fuel : ℕ) (xs ys : List ℕ) (m : Mem) (dst src : ℕ)
    → dst ≢ 0
    → dst + length xs + length ys < 2 ^ 32
    → length xs < fuel
    → length ys < fuel
    → (dst + length xs + length ys ≤ src) ⊎ (src + length ys < dst + length xs)
    → IsStr m dst xs
    → IsStr m src ys
    → (m' : Mem) × (strcat i m dst src fuel ≡ some m')
      × ((a : ℕ)
          → m' a ≡ (
              if a == (dst + length xs + i) % 2 ^ 32
              then 0
              else with_chars ys (dst + length xs) m a))
unfolding strcat strlen_at
strcat-at i fuel xs ys m dst src nonzero room enough enough' apart h h' =
    let (m', run, all) = copy_chars-some ys fuel m (dst + length xs) src enough' apart h' in
    let there : (dst == 0) ≡ false = ground arith in
    let place : (dst + length xs) % 2 ^ 32 ≡ dst + length xs = omega arith in
    (
      poke m' ((dst + length xs + i) % 2 ^ 32) 0,
      rw (strcat, there, length_at-some xs fuel m dst enough h, place, run) refl,
      λ a. ap (λ (v : ℕ). if a == (dst + length xs + i) % 2 ^ 32 then 0 else v) (all a),
    )
