-- ===== src/Collect/Claude.antt =====
-- bridge/src/collector.rs: `tail_lines`, `detect_active_turn` and `scan_claude`. Decoding and JSON's
-- parser are parameters, and so is what a read of a transcript gives.
pub mod Turn
use cydrust.Prelude.{
  ℕ, ◌-◌, Bool, true, false, ◌&&◌, Option, none, some, List, [], ◌∷◌, ◌++◌, if◌then◌else◌, ltb,
}
use mathlib.Core.List.{reverse}
use cydrust.Proto.Model.{Bytes}
use cydrust.Proto.Same.{same_bytes}
use cydrust.Json.{Value, get_str}
use cydrust.Strings.{split}
use cydrust.Chars.{Text, lines, trim, is_nil}
use cydrust.Bridge.Model.{Float}
use cydrust.Bridge.State.{Op}
use cydrust.Collect.{Paths, home_or_dot, or_question, last_full, report}

abbrev pub tail_bytes : ℕ
tail_bytes = 65_536

-- a transcript that could be opened; `read_from` is what a seek and a read to the end give
pub record Transcript : Type 0 where
  pub size : Option ℕ
  pub read_from : ℕ → Option Bytes

-- an entry of the walk; `clock` is what the clock says to the upsert
pub record Entry (F : Type 0) : Type 0 where
  pub is_jsonl : Bool
  pub stem : Option Bytes
  pub parent : Option Bytes
  pub mtime : Option F
  pub opened : Option Transcript
  pub clock : F

abbrev tool : Bytes
tool = b'c' ∷ b'l' ∷ b'a' ∷ b'u' ∷ b'd' ∷ b'e' ∷ []

claude_projects_root : {P : Type 0} → Paths P → Option P → P
claude_projects_root paths home =
    paths.join
      (paths.join (home_or_dot paths home) (b'.' ∷ b'c' ∷ b'l' ∷ b'a' ∷ b'u' ∷ b'd' ∷ b'e' ∷ []))
      (b'p' ∷ b'r' ∷ b'o' ∷ b'j' ∷ b'e' ∷ b'c' ∷ b't' ∷ b's' ∷ [])

abbrev or_name : Bytes → Option Bytes → Bytes
or_name name none = name
or_name name (some p) = p

unfoldable pub project_from_encoded_dir : Bytes → Bytes
project_from_encoded_dir name = or_name name (last_full (split b'-' name))

abbrev drop_first : List Text → List Text
drop_first [] = []
drop_first (l ∷ ls) = ls

module _ (decode : Bytes → Text) where
  -- the lines of what was read
  unfoldable pub lines_read : Bool → Option Bytes → List Text
  lines_read truncated none = []
  lines_read truncated (some buf) =
      if truncated then drop_first (lines (decode buf)) else lines (decode buf)

  unfoldable pub tail_of : Transcript → Option ℕ → List Text
  tail_of t none = []
  tail_of t (some size) =
      let truncated = ltb tail_bytes size in
      lines_read truncated (t.read_from (if truncated then size - tail_bytes else 0))

  unfoldable pub tail_lines : Option Transcript → List Text
  tail_lines none = []
  tail_lines (some t) = tail_of t t.size

-- whether the type is that of a turn, and then whether it is the user's
abbrev pub speaker : Option Bytes → Option Bool
speaker none = none
speaker (some t) =
    if same_bytes t (b'u' ∷ b's' ∷ b'e' ∷ b'r' ∷ [])
    then some true
    else if same_bytes t (b'a' ∷ b's' ∷ b's' ∷ b'i' ∷ b's' ∷ b't' ∷ b'a' ∷ b'n' ∷ b't' ∷ [])
    then some false
    else none

module _ {N : Type 0} (from_str : Text → Option (Value N)) where
  abbrev speaker_of : Option (Value N) → Option Bool
  speaker_of none = none
  speaker_of (some obj) = speaker (get_str obj (b't' ∷ b'y' ∷ b'p' ∷ b'e' ∷ []))

  -- the entry of a line that is not empty
  unfoldable pub parsed : Text → Option (Value N)
  parsed line = if is_nil (trim line) then none else from_str (trim line)

  -- who speaks in a line; `none` where the loop goes on
  unfoldable pub line_speaker : Text → Option Bool
  line_speaker line = speaker_of (parsed line)

  -- the loop over the lines from the last on
  unfoldable pub look_back : List Text → Bool
  look_back [] = false
  look_back (line ∷ earlier) =
      let rest = look_back earlier in
      elim (line_speaker line) [ some is_user ↦ is_user | none ↦ rest ]

module _ {N : Type 0} (decode : Bytes → Text) (from_str : Text → Option (Value N)) where
  unfoldable pub detect_active_turn : Option Transcript → Bool
  detect_active_turn t = look_back from_str (reverse (tail_lines decode t))

abbrev project_of : Option Bytes → Bytes
project_of none = b'?' ∷ []
project_of (some name) = project_from_encoded_dir name

module _ {N F : Type 0} (f : Float F) (decode : Bytes → Text)
    (from_str : Text → Option (Value N)) where
  -- the modification time, at most now
  abbrev pub clamped : F → Option F → F
  clamped now none = f.min (f.milli 0) now
  clamped now (some m) = f.min m now

  -- a turn is looked for where the file was written in the last five minutes
  unfoldable pub is_active : F → Entry F → Bool
  is_active now e =
      f.le (f.sub now (clamped now e.mtime)) (f.milli 300_000)
      && detect_active_turn decode from_str e.opened

  -- the call for an entry of the walk that is a transcript
  unfoldable pub claude_entry : F → Option (Entry F) → List (Op F)
  claude_entry now none = []
  claude_entry now (some e) =
      if e.is_jsonl
      then elim (e.stem) [
        | none ↦ []
        | some id ↦
            report id tool (project_of e.parent) (clamped now e.mtime) (is_active now e) e.clock
            ∷ []
      ]
      else []

  unfoldable pub claude_entries : F → List (Option (Entry F)) → List (Op F)
  claude_entries now [] = []
  claude_entries now (e ∷ es) = claude_entry now e ++ claude_entries now es

  -- the calls of a scan; `walk` is what lies under the root, where there is one
  unfoldable pub scan_claude : F → Option (List (Option (Entry F))) → List (Op F)
  scan_claude now none = []
  scan_claude now (some walk) = claude_entries now walk
