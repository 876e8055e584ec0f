-- ===== src/Metrics/Titles.antt =====
-- bridge/src/metrics.rs: the titles of sessions. A text is its characters. `to_lowercase` is a
-- parameter. In `matches_wrapper_tag` a byte that is not ASCII ends the name and is no whitespace: it
-- is the first of its character, and no such byte is one.
pub mod Short
use cydrust.Prelude.{
  ℕ, zero, suc, ◌+◌, ◌/◌, Bool, true, false, ◌&&◌, ◌||◌, not, Option, none, some, List, [], ◌∷◌,
  ◌++◌, if◌then◌else◌, ltb, leb, ◌==◌, length, take, any,
}
use cydrust.Proto.Same.{same_bytes}
use cydrust.Json.{Value, get, get_str, as_str, as_array, Items, nil, cons}
use cydrust.Strings.{last_part}
use cydrust.Chars.{
  Text, is_whitespace, byte_length, trim, trim_end, is_nil, words, join_words, first_text_line,
  before_last_space, starts_with,
}

abbrev pub injected_prefixes : List Text
injected_prefixes =
    (b'<' ∷ b'c' ∷ b'o' ∷ b'm' ∷ b'm' ∷ b'a' ∷ b'n' ∷ b'd' ∷ b'-' ∷ [])
    ∷ (b'<' ∷ b'l' ∷ b'o' ∷ b'c' ∷ b'a' ∷ b'l' ∷ b'-' ∷ b'c' ∷ b'o' ∷ b'm' ∷ b'm' ∷ b'a' ∷ b'n'
        ∷ b'd' ∷ [])
    ∷ (b'<' ∷ b's' ∷ b'y' ∷ b's' ∷ b't' ∷ b'e' ∷ b'm' ∷ b'-' ∷ b'r' ∷ b'e' ∷ b'm' ∷ b'i' ∷ b'n'
        ∷ b'd' ∷ b'e' ∷ b'r' ∷ [])
    ∷ (b'C' ∷ b'a' ∷ b'v' ∷ b'e' ∷ b'a' ∷ b't' ∷ b':' ∷ [])
    ∷ (b'<' ∷ b't' ∷ b'a' ∷ b's' ∷ b'k' ∷ b'-' ∷ [])
    ∷ (b'<' ∷ b't' ∷ b'a' ∷ b's' ∷ b'k' ∷ b' ' ∷ [])
    ∷ (b'<' ∷ b't' ∷ b'o' ∷ b'o' ∷ b'l' ∷ [])
    ∷ (b'<' ∷ b'f' ∷ b'u' ∷ b'n' ∷ b'c' ∷ b't' ∷ b'i' ∷ b'o' ∷ b'n' ∷ [])
    ∷ (b'<' ∷ b'b' ∷ b'u' ∷ b'd' ∷ b'g' ∷ b'e' ∷ b't' ∷ [])
    ∷ (b'<' ∷ b'u' ∷ b's' ∷ b'e' ∷ b'r' ∷ b'-' ∷ b'p' ∷ b'r' ∷ b'o' ∷ b'm' ∷ b'p' ∷ b't' ∷ b'-'
        ∷ b's' ∷ b'u' ∷ b'b' ∷ b'm' ∷ b'i' ∷ b't' ∷ [])
    ∷ (b'<' ∷ b'p' ∷ b'o' ∷ b's' ∷ b't' ∷ b'-' ∷ b't' ∷ b'o' ∷ b'o' ∷ b'l' ∷ [])
    ∷ (b'<' ∷ b'p' ∷ b'r' ∷ b'e' ∷ b'-' ∷ b't' ∷ b'o' ∷ b'o' ∷ b'l' ∷ [])
    ∷ (b'<' ∷ b'b' ∷ b'a' ∷ b's' ∷ b'h' ∷ b'-' ∷ b'i' ∷ b'n' ∷ b'p' ∷ b'u' ∷ b't' ∷ [])
    ∷ (b'<' ∷ b'b' ∷ b'a' ∷ b's' ∷ b'h' ∷ b'-' ∷ b's' ∷ b't' ∷ b'd' ∷ b'o' ∷ b'u' ∷ b't' ∷ [])
    ∷ (b'<' ∷ b'b' ∷ b'a' ∷ b's' ∷ b'h' ∷ b'-' ∷ b's' ∷ b't' ∷ b'd' ∷ b'e' ∷ b'r' ∷ b'r' ∷ [])
    ∷ (b'<' ∷ b'i' ∷ b'd' ∷ b'e' ∷ b'_' ∷ [])
    ∷ (b'B' ∷ b'a' ∷ b's' ∷ b'e' ∷ b' ' ∷ b'd' ∷ b'i' ∷ b'r' ∷ b'e' ∷ b'c' ∷ b't' ∷ b'o' ∷ b'r'
        ∷ b'y' ∷ b' ' ∷ b'f' ∷ b'o' ∷ b'r' ∷ b' ' ∷ b't' ∷ b'h' ∷ b'i' ∷ b's' ∷ b' ' ∷ b's' ∷ b'k'
        ∷ b'i' ∷ b'l' ∷ b'l' ∷ [])
    ∷ []

abbrev pub noise_replies : List Text
noise_replies =
    (b'y' ∷ b'e' ∷ b's' ∷ [])
    ∷ (b'o' ∷ b'k' ∷ [])
    ∷ (b'o' ∷ b'k' ∷ b'a' ∷ b'y' ∷ [])
    ∷ (b'y' ∷ [])
    ∷ (b'g' ∷ b'o' ∷ [])
    ∷ (b'g' ∷ b'o' ∷ b' ' ∷ b'o' ∷ b'n' ∷ [])
    ∷ (b'c' ∷ b'o' ∷ b'n' ∷ b't' ∷ b'i' ∷ b'n' ∷ b'u' ∷ b'e' ∷ [])
    ∷ (b's' ∷ b'u' ∷ b'r' ∷ b'e' ∷ [])
    ∷ (b'd' ∷ b'o' ∷ b' ' ∷ b'i' ∷ b't' ∷ [])
    ∷ (b'n' ∷ b'e' ∷ b'x' ∷ b't' ∷ [])
    ∷ (b'y' ∷ b'e' ∷ b'p' ∷ [])
    ∷ (b'y' ∷ b'e' ∷ b'a' ∷ b'h' ∷ [])
    ∷ (b'n' ∷ b'o' ∷ [])
    ∷ (b'n' ∷ [])
    ∷ (b's' ∷ b't' ∷ b'o' ∷ b'p' ∷ [])
    ∷ (b't' ∷ b'h' ∷ b'a' ∷ b'n' ∷ b'k' ∷ b's' ∷ [])
    ∷ (b't' ∷ b'h' ∷ b'a' ∷ b'n' ∷ b'k' ∷ b' ' ∷ b'y' ∷ b'o' ∷ b'u' ∷ [])
    ∷ (b'k' ∷ [])
    ∷ (b'p' ∷ b'l' ∷ b'e' ∷ b'a' ∷ b's' ∷ b'e' ∷ b' ' ∷ b'c' ∷ b'o' ∷ b'n' ∷ b't' ∷ b'i' ∷ b'n'
        ∷ b'u' ∷ b'e' ∷ [])
    ∷ []

abbrev pub is_alphabetic : ℕ → Bool
is_alphabetic c = (leb b'A' c && leb c b'Z') || (leb b'a' c && leb c b'z')

abbrev pub is_digit : ℕ → Bool
is_digit c = leb b'0' c && leb c b'9'

-- the loop of `matches_wrapper_tag`
unfoldable pub after_name : Text → Bool
after_name [] = false
after_name (c ∷ cs) =
    let rest = after_name cs in
    if is_alphabetic c || is_digit c || c == b'_' || c == b'-'
    then rest
    else ltb c 128 && (is_whitespace c || c == b'>' || c == b'/')

unfoldable pub matches_wrapper_tag : Text → Bool
matches_wrapper_tag [] = false
matches_wrapper_tag (c ∷ []) = false
matches_wrapper_tag (c ∷ d ∷ cs) = c == b'<' && is_alphabetic d && after_name cs

unfoldable pub is_injected : Text → Bool
is_injected text = any (λ p. starts_with p text) injected_prefixes || matches_wrapper_tag text

-- `text` is trimmed; `lower` is it in lower case
noise_in : Text → Text → Bool
noise_in t lower =
    is_nil t
    || is_injected t
    || any (λ r. same_bytes r lower) noise_replies
    || (starts_with (b'[' ∷ []) t
        && starts_with
            (b'[' ∷ b'r' ∷ b'e' ∷ b'q' ∷ b'u' ∷ b'e' ∷ b's' ∷ b't' ∷ b' ' ∷ b'i' ∷ b'n' ∷ b't'
              ∷ b'e' ∷ b'r' ∷ b'r' ∷ b'u' ∷ b'p' ∷ b't' ∷ b'e' ∷ b'd' ∷ [])
            lower)

unfoldable pub is_noise_prompt : (Text → Text) → Text → Bool
unfolding noise_in
is_noise_prompt to_lowercase text = noise_in (trim text) (to_lowercase (trim text))

-- a text, where it is not empty
abbrev pub not_empty : Text → Option Text
not_empty [] = none
not_empty (c ∷ cs) = some (c ∷ cs)

-- the first `limit` characters, up to the last space where that is not too early
unfoldable pub cut_at_word : ℕ → Text → Option Text
cut_at_word limit cut = elim (before_last_space cut) [
  | none ↦ not_empty (trim_end cut)
  | some t ↦
      if leb (limit / 2) (byte_length t) then not_empty (trim_end t) else not_empty (trim_end cut)
]

-- the line, whole or cut
unfoldable pub limited : ℕ → Text → Option Text
limited limit line =
    if is_nil line
    then none
    else if leb (length line) limit
    then some line
    else cut_at_word limit (take limit line)

unfoldable pub first_line : Text → ℕ → Option Text
first_line text limit =
    let trimmed = trim text in
    if is_nil trimmed
    then none
    else limited limit (join_words (words (trim (first_text_line trimmed))))

module _ {N : Type 0} (chars : List ℕ → Text) where
  -- the texts of the blocks, and whether there is any
  unfoldable pub text_blocks : Items N → Option Text
  text_blocks nil = none
  text_blocks (cons b xs) =
      let rest = text_blocks xs in
      let type_here = elim (get_str b (b't' ∷ b'y' ∷ b'p' ∷ b'e' ∷ [])) as (λ o. Bool) [
        | none ↦ false
        | some t ↦ same_bytes t (b't' ∷ b'e' ∷ b'x' ∷ b't' ∷ [])
      ] in
      elim (if type_here then get_str b (b't' ∷ b'e' ∷ b'x' ∷ b't' ∷ []) else none) [
        | none ↦ rest
        | some t ↦ elim rest [ none ↦ some (chars t) | some u ↦ some (chars t ++ u) ]
      ]

  content_text : Option (Value N) → Option Text
  content_text none = none
  content_text (some content) = elim (as_str content) [
    | some s ↦ some (chars s)
    | none ↦ elim (as_array content) [ none ↦ none | some arr ↦ text_blocks arr ]
  ]

  unfoldable pub extract_message_text : Value N → Option Text
  unfolding content_text
  extract_message_text message =
      content_text (get message (b'c' ∷ b'o' ∷ b'n' ∷ b't' ∷ b'e' ∷ b'n' ∷ b't' ∷ []))

module _ {N : Type 0} (chars : List ℕ → Text) (to_lowercase : Text → Text)
    (from_line : List ℕ → Option (Value N)) where
  -- the prompt of a user's message that is no noise
  prompt_of : Value N → Option Text
  prompt_of msg = elim (extract_message_text chars msg) [
    | none ↦ none
    | some raw ↦
        if is_noise_prompt to_lowercase (trim raw) then none else some (take 200 (trim raw))
  ]

  user_message : Value N → Option Text
  user_message obj = elim (get_str obj (b't' ∷ b'y' ∷ b'p' ∷ b'e' ∷ [])) [
    | none ↦ none
    | some t ↦
        if same_bytes t (b'u' ∷ b's' ∷ b'e' ∷ b'r' ∷ [])
        then elim (get obj (b'm' ∷ b'e' ∷ b's' ∷ b's' ∷ b'a' ∷ b'g' ∷ b'e' ∷ [])) [
          | none ↦ none
          | some msg ↦ prompt_of msg
        ]
        else none
  ]

  prompt_parsed : Option (Value N) → Option Text
  prompt_parsed none = none
  prompt_parsed (some obj) = user_message obj

  -- the loop over the lines
  unfoldable pub first_prompt : List (List ℕ) → Option Text
  unfolding prompt_of user_message prompt_parsed
  first_prompt [] = none
  first_prompt (line ∷ lines) =
      let rest = first_prompt lines in
      elim (prompt_parsed (from_line line)) [ none ↦ rest | some t ↦ some t ]

abbrev pub is_hex : ℕ → Bool
is_hex c = is_digit c || (leb b'A' c && leb c b'F') || (leb b'a' c && leb c b'f')

-- `n` hexadecimal digits, and what follows them
unfoldable pub hex_run : ℕ → Text → Option (Text × Text)
hex_run zero text = some ([], text)
hex_run (suc n) [] = none
hex_run (suc n) (c ∷ cs) =
    let rest = hex_run n cs in
    if is_hex c then elim rest [ none ↦ none | some (run, after) ↦ some (c ∷ run, after) ] else none

-- the groups, with a dash between two
unfoldable pub groups_at : List ℕ → Text → Option Text
groups_at [] text = some []
groups_at (n ∷ []) text = elim (hex_run n text) [ none ↦ none | some (run, after) ↦ some run ]
groups_at (n ∷ m ∷ ns) text = elim (hex_run n text) [
  | none ↦ none
  | some (run, []) ↦ none
  | some (run, c ∷ after) ↦
      let rest = groups_at (m ∷ ns) after in
      if c == b'-' then elim rest [ none ↦ none | some t ↦ some (run ++ b'-' ∷ t) ] else none
]

abbrev pub groups : List ℕ
groups = 8 ∷ 4 ∷ 4 ∷ 4 ∷ 12 ∷ []

-- the loop over `start`
unfoldable pub first_uuid : Text → Option Text
first_uuid [] = none
first_uuid (c ∷ cs) =
    let later = first_uuid cs in elim (groups_at groups (c ∷ cs)) [ some t ↦ some t | none ↦ later ]

unfoldable pub uuid_from_stem : Text → Text
uuid_from_stem stem = elim (first_uuid stem) [ some t ↦ t | none ↦ last_part b'-' stem ]
