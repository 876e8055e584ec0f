-- ===== src/Chars.antt =====
-- Rust's methods on `str` where it is read as its characters: a text is the list of their code points.
use cydrust.Prelude.{
  ℕ, ◌+◌, Bool, true, false, ◌&&◌, ◌||◌, Option, none, some, List, [], ◌∷◌, ◌++◌, if◌then◌else◌,
  ltb, leb, ◌==◌,
}

abbrev pub Text : Type 0
Text = List ℕ

abbrev between : ℕ → ℕ → ℕ → Bool
between a b c = leb a c && leb c b

-- `char::is_whitespace`
unfoldable pub is_whitespace : ℕ → Bool
is_whitespace c =
    between 9 13 c
    || c == 32
    || c == 133
    || c == 160
    || c == 5760
    || between 8192 8202 c
    || c == 8232
    || c == 8233
    || c == 8239
    || c == 8287
    || c == 12288

-- `len_utf8`
abbrev pub len_utf8 : ℕ → ℕ
len_utf8 c = if ltb c 128 then 1 else if ltb c 2048 then 2 else if ltb c 65536 then 3 else 4

-- `len()`, in bytes
unfoldable pub byte_length : Text → ℕ
byte_length [] = 0
byte_length (c ∷ cs) = len_utf8 c + byte_length cs

unfoldable pub trim_start : Text → Text
trim_start [] = []
trim_start (c ∷ cs) = let rest = trim_start cs in if is_whitespace c then rest else c ∷ cs

abbrev pub is_nil : Text → Bool
is_nil [] = true
is_nil (c ∷ cs) = false

unfoldable pub trim_end : Text → Text
trim_end [] = []
trim_end (c ∷ cs) =
    let rest = trim_end cs in if is_nil rest && is_whitespace c then [] else c ∷ rest

abbrev pub trim : Text → Text
trim text = trim_end (trim_start text)

-- a character before the first of the words
abbrev on_word : ℕ → Bool → List Text → List Text
on_word c true (w ∷ ws) = (c ∷ w) ∷ ws
on_word c true [] = (c ∷ []) ∷ []
on_word c false ws = (c ∷ []) ∷ ws

-- whether the text goes on with a word
abbrev starts_word : Text → Bool
starts_word [] = false
starts_word (c ∷ cs) = if is_whitespace c then false else true

-- `split_whitespace`
unfoldable pub words : Text → List Text
words [] = []
words (c ∷ cs) =
    let rest = words cs in if is_whitespace c then rest else on_word c (starts_word cs) rest

-- `join(" ")`
unfoldable pub join_words : List Text → Text
join_words [] = []
join_words (w ∷ []) = w
join_words (w ∷ v ∷ ws) = w ++ b' ' ∷ join_words (v ∷ ws)

-- whether a line ends before the text
abbrev ends_here : Text → Bool
ends_here [] = false
ends_here (c ∷ cs) = c == b'\n'

-- `lines().next()`, without the line's end
unfoldable pub first_text_line : Text → Text
first_text_line [] = []
first_text_line (c ∷ cs) =
    let rest = first_text_line cs in
    if c == b'\n' then [] else if c == b'\r' && ends_here cs then [] else c ∷ rest

-- what stands before the last space; `none` where there is none
unfoldable pub before_last_space : Text → Option Text
before_last_space [] = none
before_last_space (c ∷ cs) =
    let later = before_last_space cs in
    elim later [ some t ↦ some (c ∷ t) | none ↦ if c == b' ' then some [] else none ]

-- a character before the first of the lines
abbrev pub on_line : ℕ → List Text → List Text
on_line c [] = (c ∷ []) ∷ []
on_line c (l ∷ ls) = (c ∷ l) ∷ ls

-- `lines()`
unfoldable pub lines : Text → List Text
lines [] = []
lines (c ∷ cs) =
    let rest = lines cs in
    if c == b'\n' then [] ∷ rest else if c == b'\r' && ends_here cs then rest else on_line c rest

unfoldable pub starts_with : Text → Text → Bool
starts_with [] text = true
starts_with (p ∷ ps) [] = false
starts_with (p ∷ ps) (c ∷ cs) = p == c && starts_with ps cs
