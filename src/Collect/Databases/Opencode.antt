-- ===== src/Collect/Databases/Opencode.antt =====
-- bridge/src/collector_opencode.rs. The rows of the query, each with what the lookup of its last message
-- gives, are arguments; i64 is given by its sign and the f64 it is cast to.
use cydrust.Prelude.{
  ℕ, Bool, true, false, ◌&&◌, ◌||◌, not, Option, none, some, List, [], ◌∷◌, ◌++◌, if◌then◌else◌,
}
use cydrust.Proto.Model.{Bytes}
use cydrust.Proto.Same.{same_bytes}
use cydrust.Json.{Value, null, get, get_str}
use cydrust.Strings.{is_nil, split, trim_end, replace}
use cydrust.Bridge.Model.{Float}
use cydrust.Bridge.State.{Op}
use cydrust.Collect.{Paths, home_or_dot, question_mark, or_question, last_full, report, mark_if}

module _ {P : Type 0} (paths : Paths P) where
  -- the first part that is not empty and exists
  first_part : (Bytes → Bytes) → List Bytes → Option P
  first_part trim [] = none
  first_part trim (part ∷ parts) =
      let later = first_part trim parts in
      let p = paths.of_text (trim part) in
      if not (is_nil (trim part)) && paths.exists p then some p else later

  -- `$OPENCODE_DATA_DIR`
  env_root : (Bytes → Bytes) → ℕ → Option Bytes → Option P
  env_root trim sep none = none
  env_root trim sep (some v) = first_part trim (split sep (replace b',' sep v))

  -- `$XDG_DATA_HOME/<name>`, where it exists
  unfoldable pub xdg_root : Bytes → Option Bytes → Option P
  xdg_root name none = none
  xdg_root name (some xdg) =
      let p = paths.join (paths.of_text xdg) name in
      if not (is_nil xdg) && paths.exists p then some p else none

  unfoldable pub local_root : Bytes → Option P → P
  local_root name home =
      paths.join
        (paths.join
          (paths.join (home_or_dot paths home) (b'.' ∷ b'l' ∷ b'o' ∷ b'c' ∷ b'a' ∷ b'l' ∷ []))
          (b's' ∷ b'h' ∷ b'a' ∷ b'r' ∷ b'e' ∷ []))
        name

  unfoldable pub opencode_data_root :
      (Bytes → Bytes) → Bool → Option Bytes → Option Bytes → Option P → P
  unfolding first_part env_root
  opencode_data_root trim windows env xdg home =
      elim (env_root trim (if windows then b';' else b':') env) [
        | some p ↦ p
        | none ↦ elim (xdg_root (b'o' ∷ b'p' ∷ b'e' ∷ b'n' ∷ b'c' ∷ b'o' ∷ b'd' ∷ b'e' ∷ []) xdg) [
          | some p ↦ p
          | none ↦ local_root (b'o' ∷ b'p' ∷ b'e' ∷ b'n' ∷ b'c' ∷ b'o' ∷ b'd' ∷ b'e' ∷ []) home
        ]
      ]

unfoldable pub project_from_directory : Option Bytes → Bytes
project_from_directory none = question_mark
project_from_directory (some directory) =
    or_question (last_full (split b'/' (trim_end b'/' (replace b'\\' b'/' directory))))

-- an i64: whether it is positive, and the f64 that it is cast to
pub record Millis (F : Type 0) : Type 0 where
  pub is_positive : Bool
  pub as_f64 : F

-- a row of `session`, with the text of its last message
pub record SessionRecord (F : Type 0) : Type 0 where
  pub id : Option Bytes
  pub directory : Option Bytes
  pub time_created : Option (Millis F)
  pub time_updated : Option (Millis F)
  pub is_archived : Bool
  pub message : Option Bytes
  pub clock : F

module _ {N : Type 0} where
  abbrev is_null : Value N → Bool
  is_null null = true
  is_null _ = false

  -- `map(|v| !v.is_null()).unwrap_or(false)`
  abbrev given : Option (Value N) → Bool
  given none = false
  given (some v) = not (is_null v)

  -- created and not completed
  unfoldable pub is_generating : Option (Value N) → Bool
  is_generating none = false
  is_generating (some t) =
      given (get t (b'c' ∷ b'r' ∷ b'e' ∷ b'a' ∷ b't' ∷ b'e' ∷ b'd' ∷ []))
      && not (given (get t (b'c' ∷ b'o' ∷ b'm' ∷ b'p' ∷ b'l' ∷ b'e' ∷ b't' ∷ b'e' ∷ b'd' ∷ [])))

  abbrev pub has_role : Bytes → Value N → Bool
  has_role role msg = elim (get_str msg (b'r' ∷ b'o' ∷ b'l' ∷ b'e' ∷ [])) [
    | none ↦ false
    | some r ↦ same_bytes r role
  ]

  unfoldable pub infer_waiting : Option (Value N) → Bool
  infer_waiting none = false
  infer_waiting (some msg) =
      if has_role (b'a' ∷ b's' ∷ b's' ∷ b'i' ∷ b's' ∷ b't' ∷ b'a' ∷ b'n' ∷ b't' ∷ []) msg
      then not (is_generating (get msg (b't' ∷ b'i' ∷ b'm' ∷ b'e' ∷ [])))
      else false

  unfoldable pub infer_active_turn : Option (Value N) → Bool
  infer_active_turn none = false
  infer_active_turn (some msg) =
      if has_role (b'u' ∷ b's' ∷ b'e' ∷ b'r' ∷ []) msg
      then true
      else if has_role (b'a' ∷ b's' ∷ b's' ∷ b'i' ∷ b's' ∷ b't' ∷ b'a' ∷ b'n' ∷ b't' ∷ []) msg
      then is_generating (get msg (b't' ∷ b'i' ∷ b'm' ∷ b'e' ∷ []))
      else false

module _ {F : Type 0} (f : Float F) (thousandth : F → F) where
  unfoldable pub ms_to_epoch : Option (Millis F) → Option F
  ms_to_epoch none = none
  ms_to_epoch (some n) =
      if n.is_positive
      then some
          (if f.lt (f.milli 1_000_000_000_000_000) n.as_f64 then thousandth n.as_f64 else n.as_f64)
      else none

  abbrev or_time : Option F → Option F → Option F
  or_time none o = o
  or_time (some t) o = some t

  -- when the session was written last
  unfoldable pub opencode_time : SessionRecord F → Option F
  opencode_time row = or_time (ms_to_epoch row.time_updated) (ms_to_epoch row.time_created)

module _ {N F : Type 0} (f : Float F) (thousandth : F → F)
    (from_str : Bytes → Option (Value N)) where
  abbrev last_message : Option Bytes → Option (Value N)
  last_message none = none
  last_message (some text) = from_str text

  -- the calls for a session of that id and time
  unfoldable pub opencode_calls : Bytes → F → SessionRecord F → List (Op F)
  opencode_calls sid last row =
      let msg = last_message row.message in
      report sid (b'o' ∷ b'p' ∷ b'e' ∷ b'n' ∷ b'c' ∷ b'o' ∷ b'd' ∷ b'e' ∷ [])
        (project_from_directory row.directory) last (infer_active_turn msg) row.clock
      ∷ mark_if (infer_waiting msg) sid last

  unfoldable pub opencode_session : F → SessionRecord F → Bytes → List (Op F)
  opencode_session now row sid =
      if is_nil sid || row.is_archived then [] else elim (opencode_time f thousandth row) [
        | none ↦ []
        | some v ↦ opencode_calls sid (f.min v now) row
      ]

  abbrev pub opencode_known : F → SessionRecord F → Option Bytes → List (Op F)
  opencode_known now row none = []
  opencode_known now row (some sid) = opencode_session now row sid

  unfoldable pub opencode_row : F → SessionRecord F → List (Op F)
  opencode_row now row = opencode_known now row row.id

  -- `rows` is what the query gives, where the database can be read
  unfoldable pub opencode_rows : F → List (SessionRecord F) → List (Op F)
  opencode_rows now [] = []
  opencode_rows now (row ∷ rows) = opencode_row now row ++ opencode_rows now rows

  unfoldable pub scan_opencode : F → Option (List (SessionRecord F)) → List (Op F)
  scan_opencode now none = []
  scan_opencode now (some rows) = opencode_rows now rows
