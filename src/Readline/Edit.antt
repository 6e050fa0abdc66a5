-- ===== src/Readline/Edit.antt =====
-- The line that `readline` leaves in its buffer.
use cezos.Base.{
  ℕ, suc, ◌+◌, ◌-◌, ◌%◌, ◌≤◌, ◌<◌, ◌==◌, ltb, leb, ◌≡◌, refl, ap, ◌∙◌, true, false, ◌&&◌, ◌||◌,
  if◌then◌else◌, List, [], ◌∷◌, ◌++◌, length, arith, inl, inr, Bool-cases, Bool, not,
}
use cezos.Base.Int.{ℤ, pos}
use cezos.Readline.{buflen, set_char, Editor, line, round, readline_loop, readline}

-- The typed line, its last character first, after one more character: a backspace takes the last
-- one off, a printing character goes on the line while it is shorter than 1023.
unfoldable pub edit : ℕ → List ℕ → List ℕ
edit c [] = if leb b' ' c then c % 256 ∷ [] else []
edit c (x ∷ xs) =
    if c == b'\x08' || c == b'\x7f'
    then xs
    else if leb b' ' c && ltb (suc (length xs)) 1023
    then c % 256 ∷ x ∷ xs
    else x ∷ xs

-- What the character echoes, newest first.
unfoldable pub echo_of : ℕ → List ℕ → List ℕ
echo_of c [] = if leb b' ' c then c ∷ [] else []
echo_of c (x ∷ xs) =
    if c == b'\x08' || c == b'\x7f'
    then b'\x08' ∷ []
    else if leb b' ' c && ltb (suc (length xs)) 1023
    then c ∷ []
    else []

-- A newline or a carriage return ends the line.
abbrev pub is_end : ℕ → Bool
is_end c = c == b'\n' || c == b'\r'

unfoldable pub edit_all : List ℕ → List ℕ → List ℕ
edit_all [] xs = xs
edit_all (c ∷ cs) xs = edit_all cs (edit c xs)

unfoldable pub echo_all : List ℕ → List ℕ → List ℕ → List ℕ
echo_all [] xs echo = echo
echo_all (c ∷ cs) xs echo = echo_all cs (edit c xs) (echo_of c xs ++ echo)

unfoldable pub no_end : List ℕ → Bool
no_end [] = true
no_end (c ∷ cs) = not (is_end c) && no_end cs

-- The results of `getchar` for the characters `cs`, then `c`, then others.
unfoldable pub typed : List ℕ → ℕ → List ℤ → List ℤ
typed [] c rest = pos c ∷ rest
typed (d ∷ cs) c rest = pos d ∷ typed cs c rest

-- The buffer holds the line below the index `i`.
unfoldable pub Holds : (ℕ → ℕ) → List ℕ → Type 0
Holds buf [] = Unit
Holds buf (x ∷ xs) = (buf (length xs) ≡ x) × Holds buf xs

Holds-set_char :
    (buf : ℕ → ℕ) (v : ℕ) (xs : List ℕ) (n : ℕ)
    → length xs ≤ n
    → Holds buf xs
    → Holds (λ j. if j == n then v else buf j) xs
unfolding Holds
Holds-set_char buf v [] n le h = h
Holds-set_char buf v (x ∷ xs) n le (e, h) = (grind arith, Holds-set_char buf v xs n (omega arith) h)

-- The editor holds the line `xs` in a buffer that is `memory` from its end on.
pub record Editing (memory : ℕ → ℕ) (xs : List ℕ) (s : Editor) : Type 0 where
  pub at_end : s.i ≡ length xs
  pub short : length xs ≤ 1023
  pub holds : Holds s.buf xs
  pub outside : (j : ℕ) → buflen ≤ j → s.buf j ≡ memory j

-- The next state of a round for the typed line.
module _ (memory : ℕ → ℕ) {s : Editor} {xs : List ℕ} (e : Editing memory xs s) where
  append-Editing :
      (c : ℕ)
      → length xs < 1023
      → Editing memory (c % 256 ∷ xs) (record (set_char s.i c s) { i = s.i + 1; echo = c ∷ s.echo })
  unfolding Holds
  append-Editing c lt = record {
    at_end = omega (arith, e.at_end);
    short = lt;
    holds = (
      ground (arith, e.at_end),
      Holds-set_char s.buf (c % 256) xs s.i (omega (arith, e.at_end)) e.holds,
    );
    outside = λ j le. let rest = e.outside j le in ground (arith, e.at_end, e.short);
  }

  stop-Editing : Editing memory xs (record (set_char s.i 0 s) { echo = b'\n' ∷ s.echo })
  stop-Editing = record {
    at_end = e.at_end;
    short = e.short;
    holds = Holds-set_char s.buf 0 xs s.i (omega (arith, e.at_end)) e.holds;
    outside = λ j le. let rest = e.outside j le in ground (arith, e.at_end, e.short);
  }

delete-Editing :
    (memory : ℕ → ℕ) {s : Editor} {x : ℕ} {xs : List ℕ}
    → Editing memory (x ∷ xs) s
    → Editing memory xs (record s { i = s.i - 1; echo = b'\x08' ∷ s.echo })
unfolding Holds
delete-Editing memory {s} {x} {xs} e = record {
  at_end = omega (arith, e.at_end);
  short = omega (arith, e.short);
  holds = (let (_, h) = e.holds in h);
  outside = e.outside;
}

round-edit :
    (memory : ℕ → ℕ) (c : ℕ) (xs : List ℕ) (s : Editor)
    → is_end c ≡ false
    → Editing memory xs s
    → (next : Editor) × (round c s ≡ inr next)
      × Editing memory (edit c xs) next
      × (next.echo ≡ echo_of c xs ++ s.echo)
unfolding round edit echo_of
round-edit memory c [] s go e = elim (Bool-cases (leb b' ' c)) [
  | inl t ↦ (
    record (set_char s.i c s) { i = s.i + 1; echo = c ∷ s.echo },
    ground (arith, e.at_end),
    rw (t) (append-Editing memory e c (omega arith)),
    rw (t) refl,
  )
  | inr t ↦ (s, ground (arith, e.at_end), rw (t) e, rw (t) refl)
]
round-edit memory c (x ∷ xs) s go e = elim (Bool-cases (c == b'\x08' || c == b'\x7f')) [
  | inl t ↦ (
    record s { i = s.i - 1; echo = b'\x08' ∷ s.echo },
    ground (arith, e.at_end),
    rw (t) (delete-Editing memory e),
    rw (t) refl,
  )
  | inr f ↦ elim (Bool-cases (leb b' ' c && ltb (suc (length xs)) 1023)) [
    | inl t ↦ (
      record (set_char s.i c s) { i = s.i + 1; echo = c ∷ s.echo },
      ground (arith, e.at_end),
      rw (f, t) (append-Editing memory e c (ground arith)),
      rw (f, t) refl,
    )
    | inr t ↦ (s, ground (arith, e.at_end), rw (f, t) e, rw (f, t) refl)
  ]
]

round-stop :
    (c : ℕ) (s : Editor)
    → is_end c ≡ true
    → round c s ≡ inl (record (set_char s.i 0 s) { echo = b'\n' ∷ s.echo })
unfolding round
round-stop c s stop = ground arith

loop-stop :
    (c : ℕ) (cs : List ℤ) (s : Editor)
    → is_end c ≡ true
    → readline_loop (pos c ∷ cs) s ≡ line (record (set_char s.i 0 s) { echo = b'\n' ∷ s.echo })
unfolding readline_loop
loop-stop c cs s stop = rw (readline_loop, round-stop c s stop) refl

loop-round :
    (c : ℕ) (cs : List ℤ) (s next : Editor)
    → round c s ≡ inr next
    → readline_loop (pos c ∷ cs) s ≡ readline_loop cs next
unfolding readline_loop
loop-round c cs s next step = rw (readline_loop, step) refl

-- The loop on characters that do not end the line, and then one that does.
pub loop-edit :
    (memory : ℕ → ℕ) (cs : List ℕ) (c : ℕ) (rest : List ℤ) (xs : List ℕ) (s : Editor)
    → no_end cs ≡ true
    → is_end c ≡ true
    → Editing memory xs s
    → (done : Editor) × (readline_loop (typed cs c rest) s ≡ line done)
      × (done.buf (length (edit_all cs xs)) ≡ 0)
      × Editing memory (edit_all cs xs) done
      × (done.echo ≡ b'\n' ∷ echo_all cs xs s.echo)
unfolding readline_loop typed edit_all no_end echo_all
loop-edit memory [] c rest xs s go stop e = (
  record (set_char s.i 0 s) { echo = b'\n' ∷ s.echo },
  loop-stop c rest s stop,
  ground (arith, e.at_end),
  stop-Editing memory e,
  refl,
)
loop-edit memory (d ∷ cs) c rest xs s go stop e =
    let (next, step, after, echoed) = round-edit memory d xs s (ground arith) e in
    let (done, returns, ends, edited, said) =
      loop-edit memory cs c rest (edit d xs) next (ground arith) stop after in
    (
      done,
      loop-round d (typed cs c rest) s next step ∙ returns,
      ends,
      edited,
      said ∙ ap (λ (l : List ℕ). b'\n' ∷ echo_all cs (edit d xs) l) echoed,
    )

-- The line, and what was given to cputchar.
pub readline-edit_echo :
    (cs : List ℕ) (c : ℕ) (rest : List ℤ) (s : Editor)
    → no_end cs ≡ true
    → is_end c ≡ true
    → (done : Editor) × (readline (typed cs c rest) s ≡ line done)
      × (done.buf (length (edit_all cs [])) ≡ 0)
      × Editing s.buf (edit_all cs []) done
      × (done.echo ≡ b'\n' ∷ echo_all cs [] s.echo)
unfolding readline Holds
readline-edit_echo cs c rest s go stop =
    loop-edit s.buf cs c rest [] (record s { i = 0 }) go stop
      record { at_end = refl; short = omega arith; holds = tt; outside = λ j le. refl }

-- For characters without a newline or a carriage return, then one of the two, readline returns its
-- buffer with the line that the characters edit, at most 1023 long, and a 0 behind it; no byte past
-- the buffer is written.
pub readline-edit_all :
    (cs : List ℕ) (c : ℕ) (rest : List ℤ) (s : Editor)
    → no_end cs ≡ true
    → is_end c ≡ true
    → (done : Editor) × (readline (typed cs c rest) s ≡ line done)
      × (done.buf (length (edit_all cs [])) ≡ 0)
      × Editing s.buf (edit_all cs []) done
readline-edit_all cs c rest s go stop =
    let (done, returns, ends, edited, said) = readline-edit_echo cs c rest s go stop in
    (done, returns, ends, edited)
