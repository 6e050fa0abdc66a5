-- ===== src/Printfmt/Buffer/Written.antt =====
-- What `snprintf` leaves in the buffer.
use cezos.Base.{
  ℕ, zero, suc, ◌+◌, ◌-◌, ◌%◌, ◌^◌, ◌≤◌, ◌<◌, ◌==◌, ltb, ◌||◌, ◌≡◌, ◌⊎◌, inl, inr, refl, ap, ◌∙◌,
  true, false, some, List, [], ◌∷◌, length, take, arith,
}
use cezos.Base.Int.{ℤ, pos, negsuc, ltb_ℤ}
use cezos.Printfmt.Escape.{Arg, signed}
use cezos.Printfmt.Format.{done, vprintfmt}
use cezos.Printfmt.Buffer.{SprintBuf, sprintputch, put_all, sprintbuf, snprintf, vsnprintf}
use cezos.Str.Memory.{Mem, poke}
use cezos.Str.Memory.Strings.{Beyond}

-- At `p` there stand the low bytes of `xs`, and a NUL behind them.
abbrev pub Holds : Mem → ℕ → List ℕ → Type 0
Holds m p [] = m p ≡ 0
Holds m p (x ∷ xs) = (m p ≡ x % 256) × Holds m (p + 1) xs

-- The bytes at `p` after the call, and what lies around them.
pub record Stored (m : Mem) (p : ℕ) (xs : List ℕ) (m' : Mem) : Type 0 where
  pub bytes : Holds m' p xs
  pub beyond : Beyond p (p + length xs) m m'

-- The state behind `put_all`: the count, and the memory once the NUL is put.
record Filled (s : SprintBuf) (room : ℕ) (out : List ℕ) (t : SprintBuf) : Type 0 where
  count : t.cnt ≡ s.cnt + length out
  stored : Stored s.memory s.buf (take room out) (poke t.memory t.buf 0)

Stored-nil : (m : Mem) (p : ℕ) → Stored m p [] (poke m p 0)
Stored-nil m p = record { bytes = ground arith; beyond = λ a out. ground arith }

Stored-cons :
    {m m' : Mem} {p x : ℕ} {xs : List ℕ}
    → Stored (poke m p (x % 256)) (p + 1) xs m'
    → Stored m p (x ∷ xs) m'
Stored-cons {m} {m'} {p} {x} {xs} c = record {
  bytes = (c.beyond p (omega arith) ∙ ground arith, c.bytes);
  beyond = λ a out. c.beyond a (omega arith) ∙ ground arith;
}

-- One character, with the buffer full and with room for it.
sprintputch-full :
    (ch : ℕ) (s : SprintBuf)
    → s.ebuf ≤ s.buf
    → s.cnt + 1 < 2 ^ 32
    → sprintputch ch s ≡ record s { cnt = s.cnt + 1 }
unfolding sprintputch
sprintputch-full ch s full few =
    let test : ltb s.buf s.ebuf ≡ false = ground arith in
    let next : (s.cnt + 1) % 2 ^ 32 ≡ s.cnt + 1 = omega arith in rw (test, next) refl

sprintputch-room :
    (ch : ℕ) (s : SprintBuf)
    → s.buf < s.ebuf
    → s.ebuf < 2 ^ 32
    → s.cnt + 1 < 2 ^ 32
    → sprintputch ch s ≡ record {
      buf = s.buf + 1;
      ebuf = s.ebuf;
      cnt = s.cnt + 1;
      memory = poke s.memory s.buf (ch % 256);
    }
unfolding sprintputch
sprintputch-room ch s space fits few =
    let test : ltb s.buf s.ebuf ≡ true = ground arith in
    let next : (s.cnt + 1) % 2 ^ 32 ≡ s.cnt + 1 = omega arith in
    let up : (s.buf + 1) % 2 ^ 32 ≡ s.buf + 1 = omega arith in rw (test, next, up) refl

put_all-Filled :
    (out : List ℕ) (s : SprintBuf) (room : ℕ)
    → s.ebuf ≡ s.buf + room
    → s.buf + room < 2 ^ 32
    → s.cnt + length out < 2 ^ 32
    → Filled s room out (put_all out s)
unfolding put_all
put_all-Filled [] s zero end fits few = record {
  count = omega arith;
  stored = Stored-nil s.memory s.buf;
}
put_all-Filled [] s (suc room) end fits few = record {
  count = omega arith;
  stored = Stored-nil s.memory s.buf;
}
put_all-Filled (ch ∷ out) s zero end fits few =
    let rest = put_all-Filled out (record s { cnt = s.cnt + 1 }) zero end fits (omega arith) in
    rw (sprintputch-full ch s (omega arith) (omega arith))
      (record { count = rest.count ∙ omega arith; stored = rest.stored })
put_all-Filled (ch ∷ out) s (suc room) end fits few =
    let rest =
      put_all-Filled out
        (record {
          buf = s.buf + 1;
          ebuf = s.ebuf;
          cnt = s.cnt + 1;
          memory = poke s.memory s.buf (ch % 256);
        })
        room (omega arith) (omega arith) (omega arith) in
    rw (sprintputch-room ch s (omega arith) (omega arith) (omega arith))
      (record { count = rest.count ∙ omega arith; stored = Stored-cons rest.stored })

signed_small : (n : ℕ) → n < 2 ^ 31 → signed n ≡ pos n
signed_small n h = ground arith

end_of : (p n : ℕ) → 1 ≤ n → p + n ≤ 2 ^ 32 → (p + n + (2 ^ 32 - 1 - 0)) % 2 ^ 32 ≡ p + (n - 1)
end_of p n lo hi = omega arith

-- Where the format is printed, to a buffer of n bytes that does not go round at the end of the address
-- space, snprintf returns the length of the whole output. The buffer holds the output, cut to n - 1
-- bytes, with a NUL behind it, and no other byte of the memory changes.
pub snprintf-Stored :
    (m : Mem) (p n : ℕ) (fmt : List ℕ) (args : List Arg) (out : List ℕ)
    → 0 < p
    → 1 ≤ n
    → p + n ≤ 2 ^ 32
    → length out < 2 ^ 31
    → vprintfmt fmt args ≡ done out
    → (m' : Mem) × (snprintf m p (pos n) fmt args ≡ some (pos (length out), m'))
      × Stored m p (take (n - 1) out) m'
unfolding snprintf vsnprintf
snprintf-Stored m p n fmt args out nz lo hi few printed =
    let filled =
      put_all-Filled out (sprintbuf m p (pos n)) (n - 1) (end_of p n lo hi) (omega arith)
        (omega arith) in
    let b = put_all out (sprintbuf m p (pos n)) in
    let total : b.cnt ≡ length out = filled.count ∙ omega arith in
    let ok : (p == 0 || ltb_ℤ (pos n) (pos 1)) ≡ false = ground arith in
    (
      poke b.memory b.buf 0,
      rw (ok, printed)
          (ap (λ r. some (r, poke b.memory b.buf 0))
            (ap signed total ∙ signed_small (length out) few)),
      filled.stored,
    )

-- Without a buffer, or with a size below 1, snprintf returns -E_INVAL, prints nothing and writes
-- nothing.
pub snprintf_refused :
    (m : Mem) (p : ℕ) (n : ℤ) (fmt : List ℕ) (args : List Arg)
    → (p ≡ 0) ⊎ (ltb_ℤ n (pos 1) ≡ true)
    → snprintf m p n fmt args ≡ some (negsuc 2, m)
unfolding snprintf vsnprintf
snprintf_refused m p n fmt args (inl e) = rw e refl
snprintf_refused m p n fmt args (inr e) =
    let refused : (p == 0 || ltb_ℤ n (pos 1)) ≡ true = ground arith in rw refused refl
