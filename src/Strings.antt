-- ===== src/Strings.antt =====
-- Rust's methods on `str` that the bridge's programs use, on bytes. The separators are ASCII, and no
-- byte of another character is one of these.
pub mod Parts
use cydrust.Prelude.{
  ℕ, zero, suc, ltb, leb, Bool, true, false, ◌&&◌, ◌||◌, Option, none, some, List, [], ◌∷◌, ◌++◌,
  if◌then◌else◌, ◌==◌,
}
use cydrust.Proto.Model.{Bytes}

-- `contains` of a byte
unfoldable pub has : ℕ → Bytes → Bool
has b [] = false
has b (c ∷ cs) = c == b || has b cs

-- what follows the last `b`
unfoldable pub after_last : ℕ → Bytes → Option Bytes
after_last b [] = none
after_last b (c ∷ cs) =
    let later = after_last b cs in
    elim later [ some t ↦ some t | none ↦ if c == b then some cs else none ]

abbrev pub or_all : Option Bytes → Bytes → Bytes
or_all none all = all
or_all (some t) all = t

-- `rsplit(b).next()`, which is never `None`
unfoldable pub last_part : ℕ → Bytes → Bytes
last_part b text = or_all (after_last b text) text

abbrev pub is_nil : Bytes → Bool
is_nil [] = true
is_nil (c ∷ cs) = false

-- `trim_end_matches(b)`
unfoldable pub trim_end : ℕ → Bytes → Bytes
trim_end b [] = []
trim_end b (c ∷ cs) = let rest = trim_end b cs in if is_nil rest && c == b then [] else c ∷ rest

-- `replace(from, to)` of a byte
unfoldable pub replace : ℕ → ℕ → Bytes → Bytes
replace from to [] = []
replace from to (c ∷ cs) = (if c == from then to else c) ∷ replace from to cs

abbrev pub on_head : ℕ → List Bytes → List Bytes
on_head c [] = (c ∷ []) ∷ []
on_head c (part ∷ parts) = (c ∷ part) ∷ parts

-- `split(b)`
unfoldable pub split : ℕ → Bytes → List Bytes
split b [] = [] ∷ []
split b (c ∷ cs) = let rest = split b cs in if c == b then [] ∷ rest else on_head c rest

-- `join` with a byte
unfoldable pub join : ℕ → List Bytes → Bytes
join b [] = []
join b (part ∷ []) = part
join b (part ∷ next ∷ parts) = part ++ b ∷ join b (next ∷ parts)

unfoldable pub strip_prefix : Bytes → Bytes → Option Bytes
strip_prefix [] text = some text
strip_prefix (p ∷ ps) [] = none
strip_prefix (p ∷ ps) (c ∷ cs) = let rest = strip_prefix ps cs in if p == c then rest else none

-- a byte of UTF-8 that goes on with a character
abbrev pub goes_on : ℕ → Bool
goes_on c = leb 128 c && ltb c 192

-- `chars().take(n).collect()`
unfoldable pub take_chars : ℕ → Bytes → Bytes
take_chars n [] = []
take_chars zero (c ∷ cs) = let rest = take_chars zero cs in if goes_on c then c ∷ rest else []
take_chars (suc n) (c ∷ cs) =
    let rest = take_chars n cs in
    let same = take_chars (suc n) cs in if goes_on c then c ∷ same else c ∷ rest

-- `chars().count()`
unfoldable pub count_chars : Bytes → ℕ
count_chars [] = 0
count_chars (c ∷ cs) = let rest = count_chars cs in if goes_on c then rest else suc rest
