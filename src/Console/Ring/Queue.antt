-- ===== src/Console/Ring/Queue.antt =====
-- The input buffer as a queue of at most 511 bytes.
use cezos.Base.{
  ℕ, zero, suc, ◌+◌, ◌-◌, ◌%◌, ◌≤◌, ◌<◌, ◌==◌, ◌≡◌, ◌≢◌, refl, ap, ap₂, ◌∙◌, true, false,
  if◌then◌else◌, Option, none, some, List, [], ◌∷◌, ◌++◌, length, arith, append-nil, append_assoc,
  ◌⊎◌, inl, inr, sym, Option-cases, Bool-cases,
}
use cezos.Console.Ring.{consbufsize, Cons, advance, store, console_interrupt, take_char}

pub record IsValid (s : Cons) : Type 0 where
  pub reading : s.rpos < consbufsize
  pub writing : s.wpos < consbufsize

-- the number of bytes that wait
abbrev pub pending : Cons → ℕ
pending s = (s.wpos + consbufsize - s.rpos) % consbufsize

-- `n` bytes of the buffer from index `i` on, going round at its end
abbrev pub window : (ℕ → ℕ) → ℕ → ℕ → List ℕ
window buf i zero = []
window buf i (suc n) = buf i ∷ window buf (advance i) n

abbrev pub contents : Cons → List ℕ
contents s = window s.buf s.rpos (pending s)

pub length-window : (buf : ℕ → ℕ) (i n : ℕ) → length (window buf i n) ≡ n
length-window buf i zero = refl
length-window buf i (suc n) = ap suc (length-window buf (advance i) n)

-- A write just past a window extends it.
window-write :
    (buf : ℕ → ℕ) (v w i n : ℕ)
    → i < consbufsize
    → n < consbufsize
    → w ≡ (i + n) % consbufsize
    → window (λ j. if j == w then v else buf j) i (suc n) ≡ window buf i n ++ v ∷ []
window-write buf v w i zero hi hn e = ground arith
window-write buf v w i (suc n) hi hn e =
    ap₂ ◌∷◌ (ground arith)
      (window-write buf v w (advance i) n (ground arith) (omega arith) (ground arith))

module _ {s : Cons} (v : IsValid s) where
  pub store-IsValid : (c : ℕ) → IsValid (store c s)
  unfolding store
  store-IsValid c = ground arith

  -- One more index is in use, unless the buffer was full.
  count-advance :
      pending s < 511 → (advance s.wpos + consbufsize - s.rpos) % consbufsize ≡ suc (pending s)
  count-advance room = ground arith

  pending-store : (c : ℕ) → c ≢ 0 → pending s < 511 → pending (store c s) ≡ suc (pending s)
  unfolding store
  pending-store c ne room =
      let test : (c == 0) ≡ false = ground arith in rw test (count-advance room)

  count-full : pending s ≡ 511 → (advance s.wpos + consbufsize - s.rpos) % consbufsize ≡ 0
  count-full full = ground arith

  -- A character other than 0 is appended, where fewer than 511 wait.
  store-append :
      (c : ℕ) → c ≢ 0 → pending s < 511 → contents (store c s) ≡ contents s ++ (c % 256) ∷ []
  unfolding store
  store-append c ne room =
      let test : (c == 0) ≡ false = ground arith in
      rw (test, count-advance room)
        (window-write s.buf (c % 256) s.wpos s.rpos (pending s) v.reading (omega arith)
          (omega arith))

  -- Where 511 wait, one character more empties the queue: all of them are lost.
  store_full : (c : ℕ) → c ≢ 0 → pending s ≡ 511 → contents (store c s) ≡ []
  unfolding store
  store_full c ne full = let test : (c == 0) ≡ false = ground arith in rw (test, count-full full)

  store_zero : store 0 s ≡ s
  unfolding store
  store_zero = refl

  pub take_char-IsValid : IsValid (take_char s).1
  unfolding take_char
  take_char-IsValid = ground arith

  count-taken :
      (n : ℕ) → pending s ≡ suc n → (s.wpos + consbufsize - advance s.rpos) % consbufsize ≡ n
  count-taken n e = ground arith

  take_some :
      (n : ℕ) → pending s ≡ suc n → (contents s ≡ (take_char s).0 ∷ contents (take_char s).1)
  unfolding take_char
  take_some n e =
      let test : (s.rpos == s.wpos) ≡ false = ground arith in rw (test, e, count-taken n e) refl

  take_none : pending s ≡ 0 → (contents s ≡ []) × (take_char s ≡ (0, s))
  unfolding take_char
  take_none e = let test : (s.rpos == s.wpos) ≡ true = ground arith in (rw e refl, rw test refl)

  -- The end of console_getc on a well-formed buffer: if characters wait it returns the oldest one
  -- and leaves the others, and if none waits it returns 0 and changes nothing. The buffer stays
  -- well-formed.
  pub take_char_refines :
      IsValid (take_char s).1
      × ((contents s ≡ (take_char s).0 ∷ contents (take_char s).1)
          ⊎ ((contents s ≡ []) × (take_char s ≡ (0, s))))
  take_char_refines = (take_char-IsValid, by_count (pending s) refl)
    where
      by_count :
          (n : ℕ)
          → pending s ≡ n
          → (contents s ≡ (take_char s).0 ∷ contents (take_char s).1)
            ⊎ ((contents s ≡ []) × (take_char s ≡ (0, s)))
      by_count zero e = inr (take_none e)
      by_count (suc n) e = inl (take_some n e)

-- What `console_interrupt` does with the characters of a device depends only on them.
module _ {R K : Type 0} (proc : R → K → Option ℕ × K) where
  -- The characters that the device yields before -1, zeros left out, as bytes.
  unfoldable pub typed : List R → K → List ℕ
  typed [] k = []
  typed (r ∷ rs) k =
      let (c, k') = proc r k in
      elim c [
        | none ↦ []
        | some v ↦ let rest = typed rs k' in if v == 0 then rest else (v % 256) ∷ rest
      ]

  module _ (r : R) (rs : List R) (k : K) (s : Cons) {c : ℕ} (e : (proc r k).0 ≡ some c) where
    interrupt-some :
        console_interrupt proc (r ∷ rs) k s ≡ console_interrupt proc rs (proc r k).1 (store c s)
    unfolding console_interrupt
    interrupt-some = rw (e, console_interrupt)

    typed-some :
        typed (r ∷ rs) k
        ≡ (if c == 0 then typed rs (proc r k).1 else (c % 256) ∷ typed rs (proc r k).1)
    unfolding typed
    typed-some = rw (e, typed)

  -- The characters to come, put behind those that wait.
  abbrev Appended : List R → K → Cons → Type 0
  Appended rs k s =
      IsValid (console_interrupt proc rs k s).1
      × (contents (console_interrupt proc rs k s).1 ≡ contents s ++ typed rs k)

  Appended-store :
      (rs : List R) (k : K) {s : Cons} (c : ℕ)
      → IsValid s
      → c ≢ 0
      → pending s < 511
      → Appended rs k (store c s)
      → contents (console_interrupt proc rs k (store c s)).1 ≡ contents s ++ (c % 256) ∷ typed rs k
  Appended-store rs k {s} c v ne room ih =
      ih.1
      ∙ ap (λ l. l ++ typed rs k) (store-append v c ne room)
      ∙ append_assoc (contents s) ((c % 256) ∷ []) (typed rs k)

  -- While what waits and what is typed are together at most 511 characters, console_interrupt
  -- appends the typed characters in order, whatever the device and its state, and keeps the buffer
  -- well-formed.
  pub console_interrupt-append :
      (rs : List R) (k : K) {s : Cons}
      → IsValid s
      → pending s + length (typed rs k) ≤ 511
      → Appended rs k s
  unfolding console_interrupt typed store
  console_interrupt-append [] k v room = (v, sym (append-nil _))
  console_interrupt-append (r ∷ rs) k {s} v room = elim (Option-cases (proc r k).0) [
    | inl e ↦ rw (e, console_interrupt, typed) (v, sym (append-nil _))
    | inr (c, e) ↦ elim (Bool-cases (c == 0)) [
      | inl z ↦
          let rest : typed (r ∷ rs) k ≡ typed rs (proc r k).1 = rw (typed-some r rs k s e, z) in
          let same : store c s ≡ s = rw z in
          rw (interrupt-some r rs k s e, rest, same)
            (console_interrupt-append rs (proc r k).1 v (rw rest at room))
      | inr ne ↦
          let rest : typed (r ∷ rs) k ≡ (c % 256) ∷ typed rs (proc r k).1 =
            rw (typed-some r rs k s e, ne) in
          let ne' : c ≢ 0 = ground arith in
          let short : pending s + suc (length (typed rs (proc r k).1)) ≤ 511 = rw rest at room in
          let ih =
            console_interrupt-append rs (proc r k).1 {s = store c s} (store-IsValid v c)
              (omega (arith, pending-store v c ne' (omega arith))) in
          rw (interrupt-some r rs k s e, rest)
            (ih.0, Appended-store rs (proc r k).1 c v ne' (omega arith) ih)
    ]
  ]
