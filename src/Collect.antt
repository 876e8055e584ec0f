-- ===== src/Collect.antt =====
-- bridge/src/collector.rs and its siblings: what the scans of Claude, Codex, OpenCode and Hermes read,
-- and the calls that they make on the store. Files, directories and rows of a query are arguments.
pub mod Claude
pub mod Codex
pub mod Databases
pub mod Scans
mod Examples
use cydrust.Prelude.{ℕ, Bool, true, false, Option, none, some, List, [], ◌∷◌}
use cydrust.Proto.Model.{Bytes}
use cydrust.Strings.{is_nil, split}
use cydrust.Bridge.Model.{Float, Session}
use cydrust.Bridge.State.{Op, upsert_op, mark_op}

-- std's paths, as the collectors use them
pub record Paths (P : Type 0) : Type 0 where
  pub of_text : Bytes → P
  pub join : P → Bytes → P
  pub exists : P → Bool

abbrev pub question_mark : Bytes
question_mark = b'?' ∷ []

abbrev pub or_question : Option Bytes → Bytes
or_question none = question_mark
or_question (some s) = s

-- the last of the parts that is not empty
unfoldable pub last_full : List Bytes → Option Bytes
last_full [] = none
last_full (part ∷ parts) =
    let later = last_full parts in
    elim later [ some p ↦ some p | none ↦ elim (is_nil part) [ true ↦ none | false ↦ some part ] ]

module _ {P : Type 0} (paths : Paths P) where
  -- `dirs::home_dir().unwrap_or_else(|| PathBuf::from("."))`
  abbrev pub home_or_dot : Option P → P
  home_or_dot none = paths.of_text (b'.' ∷ [])
  home_or_dot (some home) = home

module _ {F : Type 0} where
  -- a session as a scan reports it; `clock` is what the clock says inside the call
  abbrev pub report : Bytes → Bytes → Bytes → F → Bool → F → Op F
  report id tool project last active clock =
      upsert_op
        (record {
          id = id;
          tool = tool;
          project = project;
          last_activity = last;
          waiting = false;
          waiting_since = none;
          active_turn = active;
        })
        clock

  -- the mark that follows, where the session waits
  abbrev pub mark_if : Bool → Bytes → F → List (Op F)
  mark_if true id ts = mark_op id ts ∷ []
  mark_if false id ts = []
