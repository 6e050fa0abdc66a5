-- ===== src/Command/Terminal/Lines.antt =====
-- The lines that are typed at the prompt.
use cezos.Base.{
  ℕ, suc, ◌+◌, ◌-◌, ◌≤◌, ◌<◌, ◌==◌, ltb, leb, ◌&&◌, ◌||◌, ◌≡◌, refl, sym, ap, ◌∙◌, false,
  Bool-cases, inl, inr, List, [], ◌∷◌, ◌++◌, length, append_assoc, append-nil, arith,
}
use cezos.Str.Compare.Prefix.{IsBytes}
use cezos.Readline.Edit.{edit, edit_all, Holds}
use cezos.Command.Terminal.{string_at}

-- The line whose last character stands first.
unfoldable pub in_order : List ℕ → List ℕ
in_order [] = []
in_order (x ∷ xs) = in_order xs ++ x ∷ []

-- Characters of one byte from the space up.
abbrev pub IsText : List ℕ → Type 0
IsText [] = Unit {0}
IsText (x ∷ xs) = (32 ≤ x) × (x < 256) × IsText xs

edit-IsText : (c : ℕ) (xs : List ℕ) → c < 256 → IsText xs → IsText (edit c xs)
unfolding edit
edit-IsText c [] byte h = elim (Bool-cases (leb b' ' c)) [
  | inl typed ↦ rw (typed) (ground arith, omega arith, tt)
  | inr ignored ↦ rw (ignored) tt
]
edit-IsText c (x ∷ xs) byte (lo, hi, h) = elim (Bool-cases (c == b'\x08' || c == b'\x7f')) [
  | inl back ↦ rw back h
  | inr kept ↦ elim (Bool-cases (leb b' ' c && ltb (suc (length xs)) 1023)) [
    | inl typed ↦ rw (kept, typed) (ground arith, omega arith, (lo, hi, h))
    | inr ignored ↦ rw (kept, ignored) (lo, hi, h)
  ]
]

pub edit_all-IsText : (cs xs : List ℕ) → IsBytes cs → IsText xs → IsText (edit_all cs xs)
unfolding edit_all
edit_all-IsText [] xs bytes h = h
edit_all-IsText (c ∷ cs) xs (byte, bytes) h =
    edit_all-IsText cs (edit c xs) bytes (edit-IsText c xs byte h)

IsBytes-append : (l r : List ℕ) → IsBytes l → IsBytes r → IsBytes (l ++ r)
IsBytes-append [] r h h' = h'
IsBytes-append (x ∷ l) r (hi, h) h' = (hi, IsBytes-append l r h h')

pub in_order-IsBytes : (xs : List ℕ) → IsText xs → IsBytes (in_order xs)
unfolding in_order
in_order-IsBytes [] h = tt
in_order-IsBytes (x ∷ xs) (lo, hi, h) =
    IsBytes-append (in_order xs) (x ∷ []) (in_order-IsBytes xs h) (hi, tt)

string_at-char :
    (buf : ℕ → ℕ) (x n i : ℕ)
    → 0 < x
    → buf i ≡ x
    → string_at (suc n) buf i ≡ x ∷ string_at n buf (i + 1)
unfolding string_at
string_at-char buf x n i nonzero cell =
    let test : (x == 0) ≡ false = ground arith in rw (cell, test) refl

string_at_end : (buf : ℕ → ℕ) (n i : ℕ) → buf i ≡ 0 → string_at (suc n) buf i ≡ []
unfolding string_at
string_at_end buf n i ends = rw ends refl

string_at-in_order :
    (buf : ℕ → ℕ) (xs : List ℕ) (n fuel : ℕ)
    → IsText xs
    → Holds buf xs
    → length xs + n ≡ fuel
    → string_at fuel buf 0 ≡ in_order xs ++ string_at n buf (length xs)
unfolding in_order Holds
string_at-in_order buf [] n fuel text holds size =
    ap (λ (k : ℕ). string_at k buf 0) (omega (arith, size))
string_at-in_order buf (x ∷ xs) n fuel (lo, hi, text) (cell, holds) size =
    string_at-in_order buf xs (suc n) fuel text holds (omega (arith, size))
    ∙ ap (λ (l : List ℕ). in_order xs ++ l)
        (string_at-char buf x n (length xs) (omega arith) cell
          ∙ ap (λ (k : ℕ). x ∷ string_at n buf k) (omega arith))
    ∙ sym (append_assoc (in_order xs) (x ∷ []) (string_at n buf (suc (length xs))))

-- The string that readline returns.
pub string_at-line :
    (buf : ℕ → ℕ) (xs : List ℕ)
    → IsText xs
    → Holds buf xs
    → buf (length xs) ≡ 0
    → length xs ≤ 1023
    → string_at 1024 buf 0 ≡ in_order xs
string_at-line buf xs text holds ends short =
    string_at-in_order buf xs (suc (1023 - length xs)) 1024 text holds (omega arith)
    ∙ ap (λ (l : List ℕ). in_order xs ++ l) (string_at_end buf (1023 - length xs) (length xs) ends)
    ∙ append-nil (in_order xs)
