-- ===== src/Proto/Scan.antt =====
-- firmware/src/proto.rs: the part of `parse_state` that reads the sessions. A text is its bytes; the
-- scanner looks for ASCII characters only, and no byte of another character is one of these, so
-- that it can go byte by byte, and every slice but those of `trunc_bytes` ends at such a character.
-- `parse::<f32>` after a `trim`, and `as i32`, are parameters.
pub mod Capped
pub mod Find
use cydrust.Prelude.{
  ℕ, zero, suc, ◌+◌, ◌-◌, ◌<◌, Bool, true, false, ◌&&◌, not, Option, none, some, List, [], ◌∷◌,
  ◌++◌, if◌then◌else◌, ltb, ◌==◌, length, take, drop,
}
use cydrust.Prelude.Int.{ℤ, negsuc}
use cydrust.Prelude.Run.{Run, ok, ◌>>=◌}
use cydrust.Proto.Model.{Bytes, SessionStatus, working, idle, waiting, SessionRow}
use cydrust.Proto.Same.{same_bytes}
use cydrust.Proto.Text.{trunc_bytes}

abbrev pub shown_sessions : ℕ
shown_sessions = 8

-- whether the text begins with the needle, and what follows it there
after_prefix : Bytes → Bytes → Option Bytes
after_prefix [] text = some text
after_prefix (n ∷ needle) [] = none
after_prefix (n ∷ needle) (c ∷ text) =
    let rest = after_prefix needle text in if n == c then rest else none

-- `text.find(needle)`, and what follows the needle there
unfoldable pub find_str : Bytes → Bytes → Option Bytes
unfolding after_prefix
find_str needle [] = after_prefix needle []
find_str needle (c ∷ text) =
    let later = find_str needle text in
    elim (after_prefix needle (c ∷ text)) [ some rest ↦ some rest | none ↦ later ]

-- what stands before the first byte `b`; `none` where there is none
unfoldable pub up_to : ℕ → Bytes → Option Bytes
up_to b [] = none
up_to b (c ∷ text) =
    let rest = up_to b text in
    if c == b then some [] else elim rest [ none ↦ none | some t ↦ some (c ∷ t) ]

-- `rest.find([',', '}']).unwrap_or(rest.len())` and the slice up to it
unfoldable pub number_text : Bytes → Bytes
number_text [] = []
number_text (c ∷ text) =
    let rest = number_text text in if c == b',' then [] else if c == b'}' then [] else c ∷ rest

abbrev quote : ℕ
quote = b'"'

unfoldable pub extract_str : Bytes → Bytes → Option Bytes
extract_str obj key = elim (find_str (quote ∷ key ++ quote ∷ b':' ∷ quote ∷ []) obj) [
  | none ↦ none
  | some rest ↦ up_to quote rest
]

abbrev pub or_str : Option Bytes → Bytes → Bytes
or_str none d = d
or_str (some s) d = s

abbrev waiting_str : Bytes
waiting_str = b'w' ∷ b'a' ∷ b'i' ∷ b't' ∷ b'i' ∷ b'n' ∷ b'g' ∷ []

abbrev working_str : Bytes
working_str = b'w' ∷ b'o' ∷ b'r' ∷ b'k' ∷ b'i' ∷ b'n' ∷ b'g' ∷ []

unfoldable pub status_of : Bytes → SessionStatus
status_of s =
    if same_bytes s waiting_str then waiting else if same_bytes s working_str then working else idle

-- `"sessions":[`
abbrev sessions_marker : Bytes
sessions_marker =
    quote ∷ b's' ∷ b'e' ∷ b's' ∷ b's' ∷ b'i' ∷ b'o' ∷ b'n' ∷ b's' ∷ quote ∷ b':' ∷ b'[' ∷ []

abbrev status_key : Bytes
status_key = b's' ∷ b't' ∷ b'a' ∷ b't' ∷ b'u' ∷ b's' ∷ []

abbrev idle_str : Bytes
idle_str = b'i' ∷ b'd' ∷ b'l' ∷ b'e' ∷ []

-- the project of an object, or "?"
abbrev pub name_of : Bytes → Bytes
name_of obj =
    or_str (extract_str obj (b'p' ∷ b'r' ∷ b'o' ∷ b'j' ∷ b'e' ∷ b'c' ∷ b't' ∷ [])) (b'?' ∷ [])

-- its tool, or "claude"
abbrev pub tool_of : Bytes → Bytes
tool_of obj =
    or_str (extract_str obj (b't' ∷ b'o' ∷ b'o' ∷ b'l' ∷ []))
      (b'c' ∷ b'l' ∷ b'a' ∷ b'u' ∷ b'd' ∷ b'e' ∷ [])

-- where the loop stands, and what it has of the state
pub record Scan : Type 0 where
  pub index : ℕ
  pub depth : ℕ
  pub obj_start : Option ℕ
  pub rows : List SessionRow
  pub dropped : ℕ

abbrev pub start : Scan
start = record { index = 0; depth = 1; obj_start = none; rows = []; dropped = 0 }

-- `if depth == 0 { break; }` after a closing brace
not_last : ℕ → Bool
not_last depth = not (depth == 1)

-- `']' if depth == 1 => break`
stays : ℕ → ℕ → Bool
stays c depth = not (c == b']' && depth == 1)

module _ {F : Type 0} (parse_f32 : Bytes → Option F) (to_i32 : F → ℤ) where
  number_after : Bytes → Bytes → Option F
  number_after needle obj = elim (find_str needle obj) [
    | none ↦ none
    | some rest ↦ parse_f32 (number_text rest)
  ]

  unfoldable pub num_field : Bytes → Bytes → Option F
  unfolding number_after
  num_field obj key =
      let tail = quote ∷ key ++ quote ∷ b':' ∷ [] in
      elim (number_after (b'{' ∷ tail) obj) [
        | some v ↦ some v
        | none ↦ number_after (b',' ∷ tail) obj
      ]

  -- `num_field(obj, k).map(|v| v as i32).unwrap_or(-1)`
  int_field : Bytes → Bytes → ℤ
  int_field obj key = elim (num_field obj key) [ none ↦ negsuc 0 | some v ↦ to_i32 v ]

  -- The row of an object, with its strings cut. Project and tool are cut for a dropped object too,
  -- which has no effect.
  unfoldable pub made : Bytes → Bytes → Bytes → Bytes → Bytes → SessionRow
  unfolding int_field
  made obj project tool id summary = record {
    project = project;
    status = status_of (or_str (extract_str obj status_key) idle_str);
    tool = tool;
    id = id;
    age_sec = int_field obj (b'a' ∷ []);
    wait_sec = int_field obj (b'w' ∷ b's' ∷ []);
    summary = summary;
  }

  unfoldable pub row_of : Bytes → Run SessionRow
  row_of obj = do
    id ← trunc_bytes (or_str (extract_str obj (b'i' ∷ [])) []) 16
    summary ← trunc_bytes (or_str (extract_str obj (b's' ∷ [])) []) 80
    project ← trunc_bytes (name_of obj) 32
    tool ← trunc_bytes (tool_of obj) 8
    ok (made obj project tool id summary)

  -- a complete object: a row, or one more that is dropped
  unfoldable pub add_row : Scan → SessionRow → Scan
  add_row st row =
      if ltb (length st.rows) shown_sessions
      then record st { rows = st.rows ++ row ∷ [] }
      else record st { dropped = st.dropped + 1 }

  unfoldable pub add_object : Bytes → Scan → Run Scan
  add_object rest st = elim (st.obj_start) [
    | none ↦ ok st
    | some s ↦ row_of (take (st.index + 1 - s) (drop s rest)) >>= λ row. ok (add_row st row)
  ]

  -- the `match` on a character; the flag is false where the loop breaks
  unfoldable pub on_char : Bytes → ℕ → Scan → Run (Scan × Bool)
  unfolding not_last stays
  on_char rest c st =
      if c == b'{'
      then ok (
        record st {
          depth = st.depth + 1;
          obj_start = if st.depth == 1 then some st.index else st.obj_start;
        },
        true,
      )
      else if c == b'}'
      then (if st.depth == 2
          then (add_object rest (record st { depth = 1 }) >>= λ t.
              ok (record t { obj_start = none }, true))
          else ok (record st { depth = st.depth - 1 }, not_last st.depth))
      else ok (st, stays c st.depth)

  -- the loop over the characters that are left
  unfoldable pub scan : Bytes → Bytes → Scan → Run Scan
  scan rest [] st = ok st
  scan rest (c ∷ cs) st = on_char rest c st >>= λ r. elim (r.1) [
    | true ↦ scan rest cs (record (r.0) { index = r.0.index + 1 })
    | false ↦ ok r.0
  ]

  -- the sessions of a text, and the number of those that are dropped
  unfoldable pub parse_sessions : Bytes → Run Scan
  parse_sessions text = elim (find_str sessions_marker text) [
    | none ↦ ok start
    | some rest ↦ scan rest rest start
  ]
