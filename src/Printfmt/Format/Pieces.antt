-- ===== src/Printfmt/Format/Pieces.antt =====
-- What `vprintfmt` prints for a format that is put together from pieces: text, `%s` and `%08x`.
use cezos.Base.{
  ℕ, suc, ◌^◌, ◌<◌, ◌==◌, ltb, leb, ◌&&◌, not, ◌≡◌, refl, sym, ap, ◌∙◌, Bool, true, false, Option,
  none, some, List, [], ◌∷◌, ◌++◌, length, replicate, append_assoc, append-nil, arith,
}
use cezos.Base.Int.{pos, negsuc, pos_part, ◌-ℤ◌}
use cezos.Command.{codes}
use cezos.Printfmt.Escape.{Arg, word, text, Spec, initial, found, scan, switch}
use cezos.Printfmt.Convert.{
  show_string, print_string, getuint, print_with, print_number, convert, convert_one,
}
use cezos.Printfmt.Format.{
  Printed, done, fault, stuck, emit, after_conversion, after_escape, format, vprintfmt,
}
use cezos.Printfmt.Format.Ends.{vprintfmt-ne-stuck}
use cezos.Printfmt.Format.Hex.{hex_digits, printnum-hex_digits}

-- No character of a text is a `%`.
abbrev plain : List ℕ → Bool
plain [] = true
plain (ch ∷ l) = not (ch == b'%') && plain l

-- All of them are below 128.
abbrev pub ascii : List ℕ → Bool
ascii [] = true
ascii (ch ∷ l) = ltb ch 128 && ascii l

emit_nil : (p : Printed) → emit [] p ≡ p
emit_nil (done out) = refl
emit_nil fault = refl
emit_nil stuck = refl

emit-emit : (l r : List ℕ) (p : Printed) → emit (l ++ r) p ≡ emit l (emit r p)
emit-emit l r (done out) = ap done (append_assoc l r out)
emit-emit l r fault = refl
emit-emit l r stuck = refl

vprintfmt-char :
    (ch : ℕ) (fmt : List ℕ) (args : List Arg)
    → (ch == b'%') ≡ false
    → vprintfmt (ch ∷ fmt) args ≡ emit (ch ∷ []) (vprintfmt fmt args)
unfolding vprintfmt format
vprintfmt-char ch fmt args other = rw (vprintfmt, format, other) refl

vprintfmt-plain :
    (l fmt : List ℕ) (args : List Arg)
    → plain l ≡ true
    → vprintfmt (l ++ fmt) args ≡ emit l (vprintfmt fmt args)
vprintfmt-plain [] fmt args h = sym (emit_nil (vprintfmt fmt args))
vprintfmt-plain (ch ∷ l) fmt args h =
    vprintfmt-char ch (l ++ fmt) args (ground arith)
    ∙ ap (emit (ch ∷ [])) (vprintfmt-plain l fmt args (ground arith))
    ∙ sym (emit-emit (ch ∷ []) l (vprintfmt fmt args))

-- An address in eight digits.
abbrev wide : Spec
wide = record initial { padc = b'0'; width = pos 8 }

scan-wide :
    (fmt : List ℕ) (args : List Arg)
    → scan none initial (codes "08x" ++ fmt) args ≡ found b'x' wide fmt args
unfolding scan switch
scan-wide fmt args = refl

getuint-word : (w : ℕ) (args : List Arg) → getuint 0 (word w ∷ args) ≡ some (w, args)
unfolding getuint
getuint-word w [] = refl
getuint-word w (word v ∷ args) = refl
getuint-word w (text t ∷ args) = refl

convert-wide :
    (w : ℕ) (args : List Arg)
    → w < 2 ^ 32
    → convert b'x' wide (word w ∷ args) ≡ some (hex_digits 8 w, args)
unfolding convert print_number
convert-wide w args h =
    ap (λ (o : Option (ℕ × List Arg)). print_with o (λ n. print_number [] wide n 16))
      (getuint-word w args)
    ∙ ap (λ (o : Option (List ℕ)). elim o [ none ↦ none | some out ↦ some ([] ++ out, args) ])
        (printnum-hex_digits 7 64 w h (omega arith))

vprintfmt-wide :
    (w : ℕ) (fmt : List ℕ) (args : List Arg)
    → w < 2 ^ 32
    → vprintfmt (codes "%08x" ++ fmt) (word w ∷ args) ≡ emit (hex_digits 8 w) (vprintfmt fmt args)
unfolding vprintfmt format after_escape
vprintfmt-wide w fmt args h =
    ap (after_escape (format (suc (suc (suc (length fmt))))) (codes "08x" ++ fmt))
      (scan-wide fmt (word w ∷ args))
    ∙ ap (after_conversion (format (suc (suc (suc (length fmt))))) fmt) (convert-wide w args h)
    ∙ ap (emit (hex_digits 8 w))
        ((vprintfmt-ne-stuck fmt args).1 (suc (suc (suc (length fmt)))) (omega arith))

scan-text :
    (fmt : List ℕ) (args : List Arg)
    → scan none initial (codes "s" ++ fmt) args ≡ found b's' initial fmt args
unfolding scan switch
scan-text fmt args = refl

show_string-ascii : (l : List ℕ) → ascii l ≡ true → show_string false (negsuc 0) l ≡ l
unfolding show_string
show_string-ascii [] h = refl
show_string-ascii (ch ∷ l) h =
    let low : leb 128 ch ≡ false = ground arith in
    rw (low) (ap (λ (r : List ℕ). ch ∷ r) (show_string-ascii l (ground arith)))

convert-text :
    (l : List ℕ) (args : List Arg)
    → ascii l ≡ true
    → convert b's' initial (text (some l) ∷ args) ≡ some (l, args)
unfolding convert convert_one print_string
convert-text l args h = rw (show_string-ascii l h) (
    ap (λ (r : List ℕ). some (r, args))
      (ap (λ (n : ℕ). l ++ replicate n b' ') (no_width (length l)) ∙ append-nil l))
  where
    no_width : (n : ℕ) → pos_part (negsuc 0 -ℤ pos n) ≡ 0
    no_width n = ground arith

vprintfmt-text :
    (l fmt : List ℕ) (args : List Arg)
    → ascii l ≡ true
    → vprintfmt (codes "%s" ++ fmt) (text (some l) ∷ args) ≡ emit l (vprintfmt fmt args)
unfolding vprintfmt format after_escape
vprintfmt-text l fmt args h =
    ap (after_escape (format (suc (length fmt))) (codes "s" ++ fmt))
      (scan-text fmt (text (some l) ∷ args))
    ∙ ap (after_conversion (format (suc (length fmt))) fmt) (convert-text l args h)
    ∙ ap (emit l) ((vprintfmt-ne-stuck fmt args).1 (suc (length fmt)) (omega arith))

-- A piece of a format: text, a word for `%08x`, a string for `%s`.
pub data Piece : Type 0 where
  plain_text : List ℕ → Piece
  wide_word : ℕ → Piece
  string : List ℕ → Piece

abbrev pub format_of : List Piece → List ℕ
format_of [] = []
format_of (plain_text l ∷ ps) = l ++ format_of ps
format_of (wide_word w ∷ ps) = codes "%08x" ++ format_of ps
format_of (string l ∷ ps) = codes "%s" ++ format_of ps

abbrev pub arguments_of : List Piece → List Arg
arguments_of [] = []
arguments_of (plain_text l ∷ ps) = arguments_of ps
arguments_of (wide_word w ∷ ps) = word w ∷ arguments_of ps
arguments_of (string l ∷ ps) = text (some l) ∷ arguments_of ps

abbrev pub output_of : List Piece → List ℕ
output_of [] = []
output_of (plain_text l ∷ ps) = l ++ output_of ps
output_of (wide_word w ∷ ps) = hex_digits 8 w ++ output_of ps
output_of (string l ∷ ps) = l ++ output_of ps

-- The text has no `%`, the words have 32 bits, and the strings are below 128.
abbrev pub IsPrintable : List Piece → Type 0
IsPrintable [] = Unit {0}
IsPrintable (plain_text l ∷ ps) = (plain l ≡ true) × IsPrintable ps
IsPrintable (wide_word w ∷ ps) = (w < 2 ^ 32) × IsPrintable ps
IsPrintable (string l ∷ ps) = (ascii l ≡ true) × IsPrintable ps

-- For a format of pieces vprintfmt prints the text and the strings as they are, and each word in eight
-- hexadecimal digits.
pub vprintfmt-output_of :
    (ps : List Piece)
    → IsPrintable ps
    → vprintfmt (format_of ps) (arguments_of ps) ≡ done (output_of ps)
unfolding vprintfmt
vprintfmt-output_of [] h = refl
vprintfmt-output_of (plain_text l ∷ ps) (h, hs) =
    vprintfmt-plain l (format_of ps) (arguments_of ps) h ∙ ap (emit l) (vprintfmt-output_of ps hs)
vprintfmt-output_of (wide_word w ∷ ps) (h, hs) =
    vprintfmt-wide w (format_of ps) (arguments_of ps) h
    ∙ ap (emit (hex_digits 8 w)) (vprintfmt-output_of ps hs)
vprintfmt-output_of (string l ∷ ps) (h, hs) =
    vprintfmt-text l (format_of ps) (arguments_of ps) h ∙ ap (emit l) (vprintfmt-output_of ps hs)
