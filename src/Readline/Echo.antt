-- ===== src/Readline/Echo.antt =====
-- What `readline` shows on the screen when it has returned its line.
use cezos.Base.{
  ℕ, ◌+◌, ◌-◌, ◌*◌, ◌/◌, ◌≤◌, ◌<◌, ltb, ◌≡◌, refl, ap, ◌∙◌, true, if◌then◌else◌, List, [], ◌∷◌,
  length, arith, inl, inr, ◌⊎◌,
}
use native.Mathlib.Decide.{dec_lt}
use cezos.Base.Int.{ℤ}
use cezos.Str.Compare.Prefix.{IsBytes}
use cezos.Console.Screen.{crt_size, Console, Device, console_putc}
use cezos.Console.Screen.Scroll.{console_putc-newline}
use cezos.Readline.{Editor, line, readline}
use cezos.Readline.Edit.{is_end, edit_all, no_end, typed, Editing, readline-edit_echo}
use cezos.Readline.Shown.{Shows, echoed, IsShown, edit_all-IsShown}

-- A line in cells that hold what the cells `n` further down held.
Shows-moved :
    (f g : ℕ → ℕ) (p n : ℕ) (xs : List ℕ)
    → n ≤ p
    → p + length xs < 1999
    → ((i : ℕ) → i + n < crt_size → g i ≡ f (i + n))
    → Shows f p xs
    → Shows g (p - n) xs
Shows-moved f g p n [] inside room moved h = tt
Shows-moved f g p n (x ∷ xs) inside room moved (e, h) = (
  moved (p - n + length xs) (omega arith) ∙ ap f (omega arith) ∙ e,
  Shows-moved f g p n xs inside (omega arith) moved h,
)

module _ (inb : Device) where
  -- By how many cells the screen has moved up when the line is ended.
  abbrev pub up : Console → List ℕ → ℕ
  up s xs = if ltb (s.c_pos + length xs) 1920 then 0 else 80

  -- What the screen shows when `readline` has returned its line. The line stands where the position
  -- was, the cells before it are as they were, those behind it are blank or as they were, and the
  -- position is at the start of the line below; all of it is a line further up if the line ended in
  -- the last line of the screen.
  pub record IsAnswered (s : Console) (xs : List ℕ) (t : Console) : Type 0 where
    pub inside : up s xs ≤ s.c_pos
    pub shows : Shows t.c_buffer (s.c_pos - up s xs) xs
    pub before : (j : ℕ) → j + up s xs < s.c_pos → t.c_buffer j ≡ s.c_buffer (j + up s xs)
    pub behind :
        (j : ℕ)
        → s.c_pos + length xs ≤ j + up s xs
        → j < crt_size
        → (t.c_buffer j ≡ s.c_buffer (j + up s xs)) ⊎ (t.c_buffer j ≡ 0x720)
    pub position : t.c_pos ≡ ((s.c_pos + length xs) / 80 + 1) * 80 - up s xs

  -- The end of the line, where every cell then holds what the cell `n` further down held, as far as
  -- there is one on the screen, and is blank otherwise.
  ended-IsAnswered :
      {s t : Console} (u : Console) {xs : List ℕ} (n : ℕ)
      → up s xs ≡ n
      → n ≤ s.c_pos
      → s.c_pos + length xs < 1999
      → ((i : ℕ) → i + n < crt_size → u.c_buffer i ≡ t.c_buffer (i + n))
      → ((i : ℕ) → crt_size ≤ i + n → i < crt_size → u.c_buffer i ≡ 0x720)
      → u.c_pos ≡ ((s.c_pos + length xs) / 80 + 1) * 80 - n
      → IsShown s s.c_pos xs t
      → IsAnswered s xs u
  ended-IsAnswered {s} {t} u {xs} n moved inside room lines blank pos e = record {
    inside = rw moved inside;
    shows = rw moved (Shows-moved t.c_buffer u.c_buffer s.c_pos n xs inside room lines e.shows);
    before = rw moved (λ j lt. lines j (omega arith) ∙ e.before (j + n) lt);
    behind = rw moved λ j le lt. elim (dec_lt (j + n) crt_size) [
      | yes there ↦ rw (lines j there) (e.behind (j + n) le)
      | no none_there ↦ inr (blank j (omega arith) lt)
    ];
    position = rw moved pos;
  }

  newline-IsAnswered :
      {s t : Console} {xs : List ℕ}
      → s.c_pos + length xs < 1999
      → length xs ≤ 1023
      → IsShown s s.c_pos xs t
      → IsAnswered s xs (console_putc inb b'\n' t)
  newline-IsAnswered {s} {t} {xs} room short e =
      let (above, last) = console_putc-newline inb t (omega (arith, e.position)) in
      elim (dec_lt (s.c_pos + length xs) 1920) [
        | yes lt ↦
            let (pos, same) = above (omega (arith, e.position)) in
            ended-IsAnswered (console_putc inb b'\n' t) 0 (ground arith) (omega arith) room
              (λ i h. ap (λ (f : ℕ → ℕ). f i) same ∙ ap t.c_buffer (omega arith))
              (λ i h h'. absurd (omega arith)) (omega (arith, pos, e.position)) e
        | no ge ↦
            let scrolled = last (omega (arith, e.position)) in
            ended-IsAnswered (console_putc inb b'\n' t) 80 (ground arith) (omega arith) room
              (λ i h. scrolled.lines i (omega arith)) (λ i h h'. scrolled.blank i (omega arith) h')
              (omega (arith, scrolled.position)) e
      ]

  -- For characters of one byte without a newline or a carriage return, then one of the two, where as
  -- many cells as there are characters are left behind the position, and one more: readline returns
  -- the line that the characters edit, and the screen shows this line, black on white from the
  -- position on, with nothing left of the characters that were taken back; if the line ends in the
  -- last line of the screen, all of it has moved up by one line.
  pub readline-IsAnswered :
      (cs : List ℕ) (c : ℕ) (rest : List ℤ) (e : Editor) (s : Console)
      → no_end cs ≡ true
      → is_end c ≡ true
      → IsBytes cs
      → e.echo ≡ []
      → s.c_pos + length cs < 1999
      → (done : Editor) × (readline (typed cs c rest) e ≡ line done)
        × Editing e.buf (edit_all cs []) done
        × IsAnswered s (edit_all cs []) (echoed inb done.echo s)
  unfolding echoed
  readline-IsAnswered cs c rest e s go stop bytes quiet room =
      let (done, returns, ends, edited, said) = readline-edit_echo cs c rest e go stop in
      let start : IsShown s s.c_pos [] s = record {
        position = omega arith;
        shows = tt;
        before = λ j lt. refl;
        behind = λ j le. inl refl;
      } in
      let (fits, shown) = edit_all-IsShown inb cs [] [] s s.c_pos bytes (omega arith) start in
      (done, returns, edited, rw (said, quiet) (newline-IsAnswered fits edited.short shown))
