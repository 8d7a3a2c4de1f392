-- ===== src/Patch/Lines.antt =====
-- The lines of a text that is put together from lines.
use lando_api.Common.{
  not, true, arith, ◌&&◌, Bool, ◌≡◌, refl, sym, ap, ◌∙◌, Bool-cases, inl, inr, nat_beq, false, List,
  String, [], ◌∷◌, ◌++◌, map, All,
}
use lando_api.Common.Text.{
  is_truthy, text, join, splitlines, lines_from, is_line_break, add_to_first, without_last_empty,
}
use lando_api.Common.Int.Decimal.{AllChars, AllChars-append, cons_onto}
use lando_api.Patch.{file_lines, add_char}
use package.text.Mathlib.TextLemmas.{append_assoc, append-nil, cons-append, nil-append}
use Prim.Native.String
use Prim.Native.Char.{Char, code}
use lando_api.Common.Search.{strip}
use lando_api.Patch.Build.{no_line_breaks}

-- There is no line feed in the text.
abbrev pub IsLine : String → Type 0
IsLine = AllChars (λ c. nat_beq (code c) 10 ≡ false)

abbrev pub ended : String → String
ended line = String.◌++◌ line "\n"

pub file_lines-line :
    (line rest : String)
    → IsLine line
    → file_lines (String.◌++◌ line (String.◌++◌ "\n" rest)) ≡ ended line ∷ file_lines rest
unfolding file_lines
file_lines-line String.[] rest h =
    ap file_lines (nil-append (String.◌++◌ "\n" rest) ∙ cons_onto "\n" rest)
file_lines-line (String.◌∷◌ c line) rest h =
    let e = file_lines-line line rest h.1 in
    ap file_lines (cons-append c line (String.◌++◌ "\n" rest))
    ∙ rw (h.0) (ap (add_char c) e)
    ∙ ap (λ l. l ∷ file_lines rest) (sym (cons-append c line "\n"))

text-add_char :
    (c : Char) (lines : List String) → text (add_char c lines) ≡ String.◌∷◌ c (text lines)
unfolding add_char text
text-add_char c [] = append-nil (String.◌∷◌ c "")
text-add_char c (line ∷ lines) = cons-append c line (text lines)

-- The lines of a file hold all of it.
pub text-file_lines : (s : String) → text (file_lines s) ≡ s
unfolding file_lines text
text-file_lines String.[] = refl
text-file_lines (String.◌∷◌ c s) = elim (Bool-cases (nat_beq (code c) 10)) [
  | inl t ↦ rw t (cons_onto c (text (file_lines s)) ∙ ap (String.◌∷◌ c) (text-file_lines s))
  | inr f ↦ rw f (text-add_char c (file_lines s) ∙ ap (String.◌∷◌ c) (text-file_lines s))
]

pub file_lines-map :
    (lines : List String) (rest : String)
    → All IsLine lines
    → file_lines (String.◌++◌ (text (map ended lines)) rest) ≡ map ended lines ++ file_lines rest
unfolding text
file_lines-map [] rest h = ap file_lines (nil-append rest)
file_lines-map (l ∷ lines) rest h =
    ap file_lines (
      append_assoc (ended l) (text (map ended lines)) rest
      ∙ append_assoc l "\n" (String.◌++◌ (text (map ended lines)) rest))
    ∙ file_lines-line l (String.◌++◌ (text (map ended lines)) rest) h.0
    ∙ ap (λ ls. ended l ∷ ls) (file_lines-map lines rest h.1)

-- Lines that are joined, and one more line feed.
pub text-ended :
    (l : String) (lines : List String)
    → String.◌++◌ (join "\n" (l ∷ lines)) "\n" ≡ text (map ended (l ∷ lines))
unfolding join text
text-ended l [] = sym (append-nil (ended l))
text-ended l (m ∷ lines) =
    append_assoc l (String.◌++◌ "\n" (join "\n" (m ∷ lines))) "\n"
    ∙ ap (String.◌++◌ l) (
        append_assoc "\n" (join "\n" (m ∷ lines)) "\n" ∙ ap (String.◌++◌ "\n") (text-ended m lines))
    ∙ sym (append_assoc l "\n" (text (map ended (m ∷ lines))))

not_line_feed : (c : Char) → is_line_break (code c) ≡ false → nat_beq (code c) 10 ≡ false
unfolding is_line_break
not_line_feed c h = ground arith

add_to_first-IsLine :
    (c : Char) (lines : List String)
    → nat_beq (code c) 10 ≡ false
    → All IsLine lines
    → All IsLine (add_to_first c lines)
unfolding add_to_first
add_to_first-IsLine c [] h k = ((h, tt), tt)
add_to_first-IsLine c (line ∷ lines) h k = ((h, k.0), k.1)

-- No line of `splitlines` has a line feed.
lines_from-IsLine : (b : Bool) (s : String) → All IsLine (lines_from b s)
unfolding lines_from
lines_from-IsLine b String.[] = (tt, tt)
lines_from-IsLine b (String.◌∷◌ c s) =
    let ih = lines_from-IsLine (nat_beq (code c) 13) s in
    elim (Bool-cases (b && nat_beq (code c) 10)) [
      | inl t ↦ rw t ih
      | inr f ↦ rw f (elim (Bool-cases (is_line_break (code c))) [
        | inl t ↦ rw t (tt, ih)
        | inr g ↦
            rw g (add_to_first-IsLine c (lines_from (nat_beq (code c) 13) s) (not_line_feed c g) ih)
      ])
    ]

without_last_empty-IsLine :
    (lines : List String) → All IsLine lines → All IsLine (without_last_empty lines)
unfolding without_last_empty
without_last_empty-IsLine [] h = tt
without_last_empty-IsLine (line ∷ []) h = elim (Bool-cases (is_truthy line)) [
  | inl t ↦ rw t h
  | inr f ↦ rw f tt
]
without_last_empty-IsLine (line ∷ next ∷ rest) h =
    (h.0, without_last_empty-IsLine (next ∷ rest) h.1)

pub splitlines-IsLine : (s : String) → All IsLine (splitlines s)
unfolding splitlines
splitlines-IsLine s = without_last_empty-IsLine (lines_from false s) (lines_from-IsLine false s)

text-IsLine : (lines : List String) → All IsLine lines → IsLine (text lines)
unfolding text
text-IsLine [] h = tt
text-IsLine (l ∷ lines) h =
    AllChars-append (λ c. nat_beq (code c) 10 ≡ false) l (text lines) h.0 (text-IsLine lines h.1)

pub no_line_breaks-IsLine : (s : String) → IsLine (no_line_breaks s)
unfolding no_line_breaks
no_line_breaks-IsLine s = text-IsLine (splitlines (strip s)) (splitlines-IsLine (strip s))

pub IsLine-append : (s t : String) → IsLine s → IsLine t → IsLine (String.◌++◌ s t)
IsLine-append s t h k = AllChars-append (λ c. nat_beq (code c) 10 ≡ false) s t h k

-- A test for a literal.
abbrev pub is_line : String → Bool
is_line String.[] = true
is_line (String.◌∷◌ c s) = not (nat_beq (code c) 10) && is_line s

pub is_line-IsLine : (s : String) → is_line s ≡ true → IsLine s
is_line-IsLine String.[] h = tt
is_line-IsLine (String.◌∷◌ c s) h = elim (Bool-cases (nat_beq (code c) 10)) [
  | inl t ↦ let h' : false ≡ true = rw t at h in absurd (cc)
  | inr f ↦ (f, is_line-IsLine s (rw f at h))
]
