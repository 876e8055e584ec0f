-- ===== src/Collect/Examples.antt =====
-- bridge/src/collector.rs and its siblings: a transcript whose user spoke last, and a rollout whose
-- turn is finished.
use cydrust.Prelude.{ℕ, ◌≡◌, refl, ◌↔◌, true, Option, none, some, [], ◌∷◌, ◌++◌, if◌then◌else◌}
use cydrust.Proto.Model.{Bytes}
use cydrust.Proto.Same.{same_bytes, same_list}
use cydrust.Json.{Value, object, string, Fields, field, end, get_field}
use cydrust.Strings.{last_part, after_last}
use cydrust.Chars
use cydrust.Chars.{Text, lines}
use cydrust.Bridge.Map.{find}
use cydrust.Bridge.State.{new_store, apply_ops}
use cydrust.Bridge.State.Alarm.{Waits, Coherent}
use cydrust.Bridge.State.Examples.{millis}
use cydrust.Collect.Claude.{Transcript, Entry, detect_active_turn, parsed}
use cydrust.Collect.Claude.Turn.{EndsOnUser, whole_lines, detect_active_turn_iff}
use cydrust.Collect.Codex.{
  RolloutFile, is_hex, hex_run, match_groups, find_uuid, uuid_from_stem, parse_rollout, verdict,
  turn_marker, msg_kind, on_event, on_meta, event_type, on_entry, read_lines, or_empty,
}
use cydrust.Collect.Codex.Uuid.{fits, is_clear, uuid_from_stem-uuid}
use cydrust.Collect.Codex.Last.{started_str, complete_str, agent_str, user_str}
use cydrust.Collect.Codex.Verdict.{Decided, parse_rollout_iff}
use cydrust.Collect.Scans.{Readers, Found, scan_calls}
use cydrust.Collect.Scans.Waits.{scan_calls-Waits}
use cydrust.Collect.Scans.Marks.{session_id, scan_calls-finished}

abbrev typed : Bytes → Fields ℕ → Value ℕ
typed name rest = object (field (b't' ∷ b'y' ∷ b'p' ∷ b'e' ∷ []) (string name) rest)

-- a line of one letter for each kind of entry
abbrev entry_of : Text → Option (Value ℕ)
entry_of line =
    if same_bytes line (b'U' ∷ [])
    then some (typed (b'u' ∷ b's' ∷ b'e' ∷ b'r' ∷ []) end)
    else if same_bytes line (b'A' ∷ [])
    then some (typed (b'a' ∷ b's' ∷ b's' ∷ b'i' ∷ b's' ∷ b't' ∷ b'a' ∷ b'n' ∷ b't' ∷ []) end)
    else if same_bytes line (b'M' ∷ [])
    then some (
        typed
          (b's' ∷ b'e' ∷ b's' ∷ b's' ∷ b'i' ∷ b'o' ∷ b'n' ∷ b'_' ∷ b'm' ∷ b'e' ∷ b't' ∷ b'a' ∷ [])
          (field (b'p' ∷ b'a' ∷ b'y' ∷ b'l' ∷ b'o' ∷ b'a' ∷ b'd' ∷ [])
            (object (field (b'i' ∷ b'd' ∷ []) (string (b'7' ∷ [])) end)) end))
    else if same_bytes line (b'D' ∷ [])
    then some (
        typed (b'e' ∷ b'v' ∷ b'e' ∷ b'n' ∷ b't' ∷ b'_' ∷ b'm' ∷ b's' ∷ b'g' ∷ []) (
          field (b'p' ∷ b'a' ∷ b'y' ∷ b'l' ∷ b'o' ∷ b'a' ∷ b'd' ∷ [])
            (typed
              (b't' ∷ b'a' ∷ b's' ∷ b'k' ∷ b'_' ∷ b'c' ∷ b'o' ∷ b'm' ∷ b'p' ∷ b'l' ∷ b'e' ∷ b't'
                ∷ b'e' ∷ [])
              end)
            end))
    else none

abbrev same : Bytes → Bytes
same s = s

abbrev tail_size : ℕ
tail_size = 6

abbrev tail_read : Bytes
tail_read = b'A' ∷ b'\n' ∷ b'U' ∷ b'\n' ∷ b'x' ∷ b'\n' ∷ []

abbrev transcript : Transcript
transcript = record { size = some tail_size; read_from = λ n. some tail_read }

detect_active_turn_iff_example :
    (detect_active_turn same entry_of (some transcript) ≡ true)
    ↔ EndsOnUser entry_of (whole_lines tail_size (lines (same tail_read)))
detect_active_turn_iff_example =
    detect_active_turn_iff same entry_of transcript tail_size tail_read refl refl

abbrev uuid : Bytes
uuid =
    (b'0' ∷ b'1' ∷ b'9' ∷ b'9' ∷ b'a' ∷ b'2' ∷ b'1' ∷ b'3' ∷ b'-' ∷ b'8' ∷ b'1' ∷ b'a' ∷ b'b' ∷ b'-'
      ∷ b'7' ∷ b'8' ∷ b'0' ∷ b'0' ∷ b'-' ∷ b'8' ∷ b'a' ∷ b'a' ∷ b'1' ∷ b'-' ∷ b'b' ∷ b'b' ∷ b'a'
      ∷ b'b' ∷ b'2' ∷ b'a' ∷ b'0' ∷ b'3' ∷ b'5' ∷ b'a' ∷ b'5' ∷ b'3' ∷ [])

uuid_from_stem-uuid_example :
    uuid_from_stem (
      (b'r' ∷ b'o' ∷ b'l' ∷ b'l' ∷ b'o' ∷ b'u' ∷ b't' ∷ b'-' ∷ b'2' ∷ b'0' ∷ b'2' ∷ b'5' ∷ b'-'
        ∷ b'1' ∷ b'0' ∷ b'-' ∷ b'0' ∷ b'1' ∷ b'T' ∷ b'0' ∷ b'9' ∷ b'-' ∷ b'2' ∷ b'6' ∷ b'-' ∷ b'0'
        ∷ b'8' ∷ [])
      ++ b'-' ∷ (uuid ++ []))
    ≡ uuid
unfolding is_clear fits
uuid_from_stem-uuid_example =
    uuid_from_stem-uuid
      (b'r' ∷ b'o' ∷ b'l' ∷ b'l' ∷ b'o' ∷ b'u' ∷ b't' ∷ b'-' ∷ b'2' ∷ b'0' ∷ b'2' ∷ b'5' ∷ b'-'
        ∷ b'1' ∷ b'0' ∷ b'-' ∷ b'0' ∷ b'1' ∷ b'T' ∷ b'0' ∷ b'9' ∷ b'-' ∷ b'2' ∷ b'6' ∷ b'-' ∷ b'0'
        ∷ b'8' ∷ [])
      uuid [] refl (refl, refl)

abbrev rollout : RolloutFile ℕ
rollout = record {
  is_jsonl = true;
  mtime = some 5000;
  stem = some (b'r' ∷ b'o' ∷ b'l' ∷ b'l' ∷ b'o' ∷ b'u' ∷ b't' ∷ []);
  raw = some (b'M' ∷ b'\n' ∷ b'D' ∷ b'\n' ∷ []);
  clock = 9000;
}

parse_rollout_iff_example :
    (((parse_rollout same entry_of rollout.stem rollout.raw).waiting ≡ true)
      ↔ Decided entry_of complete_str agent_str (lines (same (or_empty rollout.raw))))
    × (((parse_rollout same entry_of rollout.stem rollout.raw).active ≡ true)
        ↔ Decided entry_of started_str user_str (lines (same (or_empty rollout.raw))))
parse_rollout_iff_example = parse_rollout_iff same entry_of rollout.stem rollout.raw

abbrev readers : Readers ℕ ℕ
readers = record {
  decode = same;
  from_text = entry_of;
  from_bytes = entry_of;
  thousandth = λ t. t;
  to_lowercase = same;
}

abbrev session : Entry ℕ
session = record {
  is_jsonl = true;
  stem = some (b'8' ∷ []);
  parent = none;
  mtime = some 4000;
  opened = some transcript;
  clock = 9000;
}

abbrev found : Found ℕ
found = record {
  claude_now = 8000;
  claude = some (some session ∷ []);
  codex_now = 8100;
  codex = some (none ∷ some (rollout ∷ []) ∷ []);
  opencode_now = 8200;
  opencode = none;
  hermes_now = 8300;
  hermes = none;
  reaper_now = 8400;
}

scan_calls-Waits_example :
    let before = find (new_store millis).sessions (b'7' ∷ []) in
    let after =
      find
        (apply_ops millis (scan_calls millis readers found) (new_store millis)).sessions
        (b'7' ∷ []) in
    (Waits before → Waits after) × (Coherent before → Coherent after)
scan_calls-Waits_example = scan_calls-Waits millis readers found (new_store millis) (b'7' ∷ []) tt

scan_calls-finished_example : Waits (
    find
      (apply_ops millis (scan_calls millis readers found) (new_store millis)).sessions
      (session_id millis same entry_of 8100 rollout))
unfolding parse_rollout verdict read_lines on_entry on_event on_meta event_type turn_marker msg_kind
    parsed same_list get_field uuid_from_stem find_uuid match_groups hex_run is_hex last_part
    after_last Chars.lines Chars.trim_start Chars.trim_end Chars.is_whitespace
scan_calls-finished_example =
    scan_calls-finished millis readers found rollout (none ∷ []) [] [] [] (new_store millis) refl
      (refl, (5000, refl), refl) tt
