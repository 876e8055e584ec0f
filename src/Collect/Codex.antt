-- ===== src/Collect/Codex.antt =====
-- bridge/src/collector_codex.rs: a rollout's id, project and turn, and `scan_codex`.
pub mod Uuid
pub mod Rollouts
pub mod Last
pub mod Verdict
use cydrust.Prelude.{
  ℕ, zero, suc, ◌+◌, Bool, true, false, ◌&&◌, ◌||◌, Option, none, some, List, [], ◌∷◌, ◌++◌,
  if◌then◌else◌, ltb, leb, ◌==◌, take, drop,
}
use cydrust.Proto.Model.{Bytes}
use cydrust.Proto.Same.{same_bytes}
use cydrust.Json.{Value, get, get_str}
use cydrust.Strings.{is_nil, last_part, trim_end, replace}
use cydrust.Chars.{Text, lines}
use cydrust.Bridge.Model.{Float}
use cydrust.Bridge.State.{Op}
use cydrust.Collect.{Paths, home_or_dot, report, mark_if}
use cydrust.Collect.Claude.{parsed}

abbrev pub working : Bytes
working = b't' ∷ b'a' ∷ b's' ∷ b'k' ∷ b'_' ∷ b's' ∷ b't' ∷ b'a' ∷ b'r' ∷ b't' ∷ b'e' ∷ b'd' ∷ []

abbrev pub done : Bytes
done = b't' ∷ b'a' ∷ b's' ∷ b'k' ∷ b'_' ∷ b'c' ∷ b'o' ∷ b'm' ∷ b'p' ∷ b'l' ∷ b'e' ∷ b't' ∷ b'e' ∷ []

abbrev pub aborted : Bytes
aborted = b't' ∷ b'u' ∷ b'r' ∷ b'n' ∷ b'_' ∷ b'a' ∷ b'b' ∷ b'o' ∷ b'r' ∷ b't' ∷ b'e' ∷ b'd' ∷ []

abbrev pub agent : Bytes
agent = b'a' ∷ b'g' ∷ b'e' ∷ b'n' ∷ b't' ∷ []

abbrev pub user : Bytes
user = b'u' ∷ b's' ∷ b'e' ∷ b'r' ∷ []

codex_sessions_root : {P : Type 0} → Paths P → Option Bytes → Option P → P
codex_sessions_root paths codex_home home =
    let default_root =
      paths.join
        (paths.join (home_or_dot paths home) (b'.' ∷ b'c' ∷ b'o' ∷ b'd' ∷ b'e' ∷ b'x' ∷ []))
        (b's' ∷ b'e' ∷ b's' ∷ b's' ∷ b'i' ∷ b'o' ∷ b'n' ∷ b's' ∷ []) in
    elim codex_home [
      | none ↦ default_root
      | some v ↦
          if is_nil v
          then default_root
          else paths.join (paths.of_text v)
              (b's' ∷ b'e' ∷ b's' ∷ b's' ∷ b'i' ∷ b'o' ∷ b'n' ∷ b's' ∷ [])
    ]

-- `is_ascii_hexdigit`
unfoldable pub is_hex : ℕ → Bool
is_hex c = (leb b'0' c && leb c b'9') || (leb b'a' c && leb c b'f') || (leb b'A' c && leb c b'F')

-- how many hex digits stand at the front, up to `glen`
unfoldable pub hex_run : ℕ → Bytes → ℕ
hex_run zero s = 0
hex_run (suc glen) [] = 0
hex_run (suc glen) (c ∷ s) = let rest = hex_run glen s in if is_hex c then suc rest else 0

-- the dash before every group but the first
abbrev pub after_dash : Bool → Bytes → Option Bytes
after_dash true s = some s
after_dash false [] = none
after_dash false (c ∷ s) = if c == b'-' then some s else none

abbrev pub dash_size : Bool → ℕ
dash_size true = 0
dash_size false = 1

-- the loop over the groups: how long the match at the front is
unfoldable pub match_groups : Bool → List ℕ → Bytes → Option ℕ
match_groups first [] s = some 0
match_groups first (glen ∷ groups) s = elim (after_dash first s) [
  | none ↦ none
  | some t ↦ elim (hex_run glen t == glen) [
    | false ↦ none
    | true ↦ elim (match_groups false groups (drop glen t)) [
      | none ↦ none
      | some n ↦ some (dash_size first + glen + n)
    ]
  ]
]

abbrev pub groups : List ℕ
groups = 8 ∷ 4 ∷ 4 ∷ 4 ∷ 12 ∷ []

unfoldable pub find_uuid : Bytes → Option Bytes
find_uuid [] = none
find_uuid (c ∷ s) =
    let rest = find_uuid s in
    elim (match_groups true groups (c ∷ s)) [ some n ↦ some (take n (c ∷ s)) | none ↦ rest ]

unfoldable pub uuid_from_stem : Bytes → Bytes
uuid_from_stem stem = elim (find_uuid stem) [ some u ↦ u | none ↦ last_part b'-' stem ]

unfoldable pub project_from_cwd : Bytes → Bytes
project_from_cwd cwd =
    let trimmed = trim_end b'/' (replace b'\\' b'/' cwd) in
    if is_nil trimmed then (b'?' ∷ []) else last_part b'/' trimmed

pub record Rollout : Type 0 where
  pub id : Bytes
  pub project : Bytes
  pub waiting : Bool
  pub active : Bool

-- the variables of `parse_rollout`'s loop
pub record Reading : Type 0 where
  pub sid : Bytes
  pub project : Bytes
  pub last_turn_state : Option Bytes
  pub last_msg_kind : Option Bytes

abbrev full : Option Bytes → Option Bytes
full none = none
full (some s) = if is_nil s then none else some s

abbrev set_sid : Option Bytes → Reading → Reading
set_sid none r = r
set_sid (some id) r = record r { sid = id }

abbrev set_project : Option Bytes → Reading → Reading
set_project none r = r
set_project (some cwd) r = record r { project = project_from_cwd cwd }

-- the marker that a type of event is, if it is one
unfoldable pub turn_marker : Bytes → Option Bytes
turn_marker t =
    if same_bytes t working
    then some working
    else if same_bytes t done
    then some done
    else if same_bytes t aborted
    then some aborted
    else none

-- who speaks in an event
unfoldable pub msg_kind : Bytes → Option Bytes
msg_kind t =
    if same_bytes t (
      b'a' ∷ b'g' ∷ b'e' ∷ b'n' ∷ b't' ∷ b'_' ∷ b'm' ∷ b'e' ∷ b's' ∷ b's' ∷ b'a' ∷ b'g' ∷ b'e' ∷ [])
    then some agent
    else if same_bytes t
        (b'u' ∷ b's' ∷ b'e' ∷ b'r' ∷ b'_' ∷ b'm' ∷ b'e' ∷ b's' ∷ b's' ∷ b'a' ∷ b'g' ∷ b'e' ∷ [])
    then some user
    else none

abbrev pub or_else : Option Bytes → Option Bytes → Option Bytes
or_else none o = o
or_else (some s) o = some s

abbrev pub and_then : Option Bytes → (Bytes → Option Bytes) → Option Bytes
and_then none g = none
and_then (some s) g = g s

-- an event of that type; the patterns exclude one another
unfoldable pub on_event : Option Bytes → Reading → Reading
on_event pt r = record r {
  last_turn_state = or_else (and_then pt turn_marker) r.last_turn_state;
  last_msg_kind = or_else (and_then pt msg_kind) r.last_msg_kind;
}

abbrev is_meta : Option Bytes → Bool
is_meta none = false
is_meta (some t) =
    same_bytes t
      (b's' ∷ b'e' ∷ b's' ∷ b's' ∷ b'i' ∷ b'o' ∷ b'n' ∷ b'_' ∷ b'm' ∷ b'e' ∷ b't' ∷ b'a' ∷ [])

module _ {N : Type 0} where
  unfoldable pub on_meta : Option (Value N) → Reading → Reading
  on_meta none r = r
  on_meta (some p) r =
      set_project (full (get_str p (b'c' ∷ b'w' ∷ b'd' ∷ [])))
        (set_sid (full (get_str p (b'i' ∷ b'd' ∷ []))) r)

  abbrev payload_type : Option (Value N) → Option Bytes
  payload_type none = none
  payload_type (some p) = get_str p (b't' ∷ b'y' ∷ b'p' ∷ b'e' ∷ [])

  -- whether the entry is an event, and of which type
  unfoldable pub event_type : Value N → Option Bytes
  event_type obj = elim (get_str obj (b't' ∷ b'y' ∷ b'p' ∷ b'e' ∷ [])) [
    | none ↦ none
    | some t ↦
        if same_bytes t (b'e' ∷ b'v' ∷ b'e' ∷ b'n' ∷ b't' ∷ b'_' ∷ b'm' ∷ b's' ∷ b'g' ∷ [])
        then payload_type (get obj (b'p' ∷ b'a' ∷ b'y' ∷ b'l' ∷ b'o' ∷ b'a' ∷ b'd' ∷ []))
        else none
  ]

  -- the `match` on an entry's type
  unfoldable pub on_entry : Option (Value N) → Reading → Reading
  on_entry none r = r
  on_entry (some obj) r =
      if is_meta (get_str obj (b't' ∷ b'y' ∷ b'p' ∷ b'e' ∷ []))
      then on_meta (get obj (b'p' ∷ b'a' ∷ b'y' ∷ b'l' ∷ b'o' ∷ b'a' ∷ b'd' ∷ [])) r
      else on_event (event_type obj) r

abbrev pub or_empty : Option Bytes → Bytes
or_empty none = []
or_empty (some raw) = raw

abbrev or_unknown : Option Bytes → Bytes
or_unknown none = b'u' ∷ b'n' ∷ b'k' ∷ b'n' ∷ b'o' ∷ b'w' ∷ b'n' ∷ []
or_unknown (some stem) = stem

abbrev pub is_kind : Option Bytes → Bytes → Bool
is_kind none k = false
is_kind (some s) k = same_bytes s k

-- whether the session waits, and whether a turn is active
unfoldable pub verdict : Option Bytes → Option Bytes → Bool × Bool
verdict (some state) kind = (same_bytes state done, same_bytes state working)
verdict none kind = (is_kind kind agent, is_kind kind user)

abbrev pub first_reading : Option Bytes → Reading
first_reading stem = record {
  sid = uuid_from_stem (or_unknown stem);
  project = (b'?' ∷ []);
  last_turn_state = none;
  last_msg_kind = none;
}

module _ {N : Type 0} (from_str : Text → Option (Value N)) where
  unfoldable pub read_lines : List Text → Reading → Reading
  read_lines [] r = r
  read_lines (line ∷ rest) r = read_lines rest (on_entry (parsed from_str line) r)

module _ {N : Type 0} (decode : Bytes → Text) (from_str : Text → Option (Value N)) where
  -- `raw` is what the read of the file gives
  unfoldable pub parse_rollout : Option Bytes → Option Bytes → Rollout
  parse_rollout stem raw =
      let r = read_lines from_str (lines (decode (or_empty raw))) (first_reading stem) in
      let v = verdict r.last_turn_state r.last_msg_kind in
      record { id = r.sid; project = r.project; waiting = v.0; active = v.1 }

-- a file of a date's directory; `clock` is what the clock says to the upsert
pub record RolloutFile (F : Type 0) : Type 0 where
  pub is_jsonl : Bool
  pub mtime : Option F
  pub stem : Option Bytes
  pub raw : Option Bytes
  pub clock : F

module _ {F : Type 0} where
  -- the calls for a rollout
  unfoldable pub rollout_calls : Rollout → F → F → List (Op F)
  rollout_calls info mtime clock =
      report info.id (b'c' ∷ b'o' ∷ b'd' ∷ b'e' ∷ b'x' ∷ []) info.project mtime info.active clock
      ∷ mark_if info.waiting info.id mtime

module _ {N F : Type 0} (f : Float F) (decode : Bytes → Text)
    (from_str : Text → Option (Value N)) where
  unfoldable pub codex_file : F → RolloutFile F → List (Op F)
  codex_file now e =
      if e.is_jsonl
      then elim (e.mtime) [
        | none ↦ []
        | some m ↦ rollout_calls (parse_rollout decode from_str e.stem e.raw) (f.min m now) e.clock
      ]
      else []

  unfoldable pub codex_dir : F → List (RolloutFile F) → List (Op F)
  codex_dir now [] = []
  codex_dir now (e ∷ es) = codex_file now e ++ codex_dir now es

  -- today's and yesterday's directories, as far as they can be read
  unfoldable pub codex_days : F → List (Option (List (RolloutFile F))) → List (Op F)
  codex_days now [] = []
  codex_days now (none ∷ days) = codex_days now days
  codex_days now (some dir ∷ days) = codex_dir now dir ++ codex_days now days

  unfoldable pub scan_codex : F → Option (List (Option (List (RolloutFile F)))) → List (Op F)
  scan_codex now none = []
  scan_codex now (some days) = codex_days now days
