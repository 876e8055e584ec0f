-- ===== src/Collect/Databases/Hermes.antt =====
-- bridge/src/collector_hermes.rs. The rows of the query, each with what the lookups of its messages
-- give, are arguments.
use cydrust.Prelude.{
  Bool, true, false, ◌&&◌, ◌||◌, not, Option, none, some, List, [], ◌∷◌, ◌++◌, if◌then◌else◌,
}
use cydrust.Proto.Model.{Bytes}
use cydrust.Proto.Same.{same_bytes}
use cydrust.Strings.{is_nil, split, trim_end, replace}
use cydrust.Bridge.Model.{Float}
use cydrust.Bridge.State.{Op}
use cydrust.Collect.{Paths, question_mark, or_question, last_full, report, mark_if}
use cydrust.Collect.Databases.Opencode.{xdg_root, local_root}

module _ {P : Type 0} (paths : Paths P) where
  -- the directory of a variable, where it is set and exists
  env_dir : Option Bytes → Option P
  env_dir none = none
  env_dir (some v) =
      if not (is_nil v) && paths.exists (paths.of_text v) then some (paths.of_text v) else none

  abbrev set_var : Option Bytes → Option Bytes
  set_var none = none
  set_var (some v) = if is_nil v then none else some v

  -- the base on Windows
  windows_base : Bool → Option Bytes → Option Bytes → Option Bytes
  windows_base false local roaming = none
  windows_base true local roaming = elim (set_var local) [
    | some v ↦ some v
    | none ↦ set_var roaming
  ]

  -- where no variable of Hermes' own names a directory
  default_root : Option Bytes → Option Bytes → Option P → P
  default_root (some base) xdg home =
      paths.join (paths.of_text base) (b'h' ∷ b'e' ∷ b'r' ∷ b'm' ∷ b'e' ∷ b's' ∷ [])
  default_root none xdg home =
      elim (xdg_root paths (b'h' ∷ b'e' ∷ b'r' ∷ b'm' ∷ b'e' ∷ b's' ∷ []) xdg) [
        | some p ↦ p
        | none ↦ local_root paths (b'h' ∷ b'e' ∷ b'r' ∷ b'm' ∷ b'e' ∷ b's' ∷ []) home
      ]

  unfoldable pub hermes_data_root :
      Option Bytes → Option Bytes → Bool → Option Bytes → Option Bytes → Option Bytes → Option P → P
  unfolding env_dir windows_base default_root
  hermes_data_root data_dir hermes_home windows local roaming xdg home = elim (env_dir data_dir) [
    | some p ↦ p
    | none ↦ elim (env_dir hermes_home) [
      | some p ↦ p
      | none ↦ default_root (windows_base windows local roaming) xdg home
    ]
  ]

unfoldable pub project_from_cwd : Option Bytes → Bytes
project_from_cwd none = question_mark
project_from_cwd (some cwd) =
    or_question (last_full (split b'/' (trim_end b'/' (replace b'\\' b'/' cwd))))

-- a row of `sessions`; `role` is none where the lookup fails or finds no row
pub record HermesRecord (F : Type 0) : Type 0 where
  pub id : Option Bytes
  pub cwd : Option Bytes
  pub started_at : Option F
  pub ended_at : Option F
  pub is_archived : Bool
  pub newest_message : Option F
  pub role : Option (Option Bytes)
  pub clock : F

module _ {F : Type 0} (f : Float F) where
  unfoldable pub sec : Option F → Option F
  sec none = none
  sec (some n) = if f.lt (f.milli 0) n then some n else none

  abbrev or_time : Option F → Option F → Option F
  or_time none o = o
  or_time (some t) o = some t

  -- when the session ended, or else began
  unfoldable pub hermes_time : HermesRecord F → Option F
  hermes_time row = or_time (sec row.ended_at) (sec row.started_at)

module _ {F : Type 0} (f : Float F) (to_lowercase : Bytes → Bytes) where
  abbrev is_none : Option F → Bool
  is_none none = true
  is_none (some t) = false

  unfoldable pub last_role : Option (Option Bytes) → Option Bytes
  last_role none = none
  last_role (some none) = some (to_lowercase [])
  last_role (some (some role)) = some (to_lowercase role)

  abbrev pub is_role : Option Bytes → Bytes → Bool
  is_role none k = false
  is_role (some r) k = same_bytes r k

  -- at the latest message, where it is later
  abbrev with_message : Option F → F → F
  with_message none last = last
  with_message (some mt) last = f.max last mt

  unfoldable pub hermes_active : HermesRecord F → Bool
  hermes_active row =
      is_role (last_role row.role) (b'u' ∷ b's' ∷ b'e' ∷ b'r' ∷ []) && is_none (sec f row.ended_at)

  unfoldable pub hermes_calls : Bytes → F → HermesRecord F → List (Op F)
  hermes_calls sid last row =
      report sid (b'h' ∷ b'e' ∷ b'r' ∷ b'm' ∷ b'e' ∷ b's' ∷ []) (project_from_cwd row.cwd) last
        (hermes_active row) row.clock
      ∷ mark_if
          (is_role (last_role row.role)
            (b'a' ∷ b's' ∷ b's' ∷ b'i' ∷ b's' ∷ b't' ∷ b'a' ∷ b'n' ∷ b't' ∷ []))
          sid last

  unfoldable pub hermes_session : F → HermesRecord F → Bytes → List (Op F)
  hermes_session now row sid =
      if is_nil sid || row.is_archived then [] else elim (hermes_time f row) [
        | none ↦ []
        | some v ↦ hermes_calls sid (f.min (with_message (sec f row.newest_message) v) now) row
      ]

  abbrev pub hermes_known : F → HermesRecord F → Option Bytes → List (Op F)
  hermes_known now row none = []
  hermes_known now row (some sid) = hermes_session now row sid

  unfoldable pub hermes_row : F → HermesRecord F → List (Op F)
  hermes_row now row = hermes_known now row row.id

  unfoldable pub hermes_rows : F → List (HermesRecord F) → List (Op F)
  hermes_rows now [] = []
  hermes_rows now (row ∷ rows) = hermes_row now row ++ hermes_rows now rows

  unfoldable pub scan_hermes : F → Option (List (HermesRecord F)) → List (Op F)
  scan_hermes now none = []
  scan_hermes now (some rows) = hermes_rows now rows
