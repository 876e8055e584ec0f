-- ===== src/Serial.antt =====
-- bridge/src/bin/serial_bridge.rs: `extract_ack_id`, the arguments, and what a read from the port
-- does. `trimmed` is `from_utf8` and `trim`, and gives nothing for a line that is not UTF-8. The
-- port, the requests to the hub and the waits are not modelled.
pub mod Lines
pub mod Chunks
pub mod Compact
pub mod Mini
pub mod Ack
mod Examples
use cydrust.Prelude.{
  ℕ, zero, suc, ◌+◌, ◌-◌, Bool, true, false, Option, none, some, List, [], ◌∷◌, ◌++◌, if◌then◌else◌,
  ltb, ◌==◌, length,
}
use cydrust.Prelude.Run.{Run, panic, ok, ◌>>=◌}
use cydrust.Proto.Model.{Bytes}
use cydrust.Proto.Same.{same_bytes}
use cydrust.Proto.Scan.{find_str, up_to}
use cydrust.Strings.{is_nil}

abbrev pub max_ack_id_len : ℕ
max_ack_id_len = 128

abbrev pub ack_key : Bytes
ack_key = b'"' ∷ b'a' ∷ b'c' ∷ b'k' ∷ b'"' ∷ b':' ∷ b'"' ∷ []

short_enough : Option Bytes → Option Bytes
short_enough none = none
short_enough (some id) = if ltb max_ack_id_len (length id) then none else some id

unfoldable pub extract_ack_id : Bytes → Option Bytes
unfolding short_enough
extract_ack_id s = elim (find_str ack_key s) [
  | none ↦ none
  | some rest ↦ short_enough (up_to b'"' rest)
]

-- the variables that the arguments set
pub record SerialArgs : Type 0 where
  pub port_name : Bytes
  pub bridge_url : Bytes
  pub token : Option Bytes
  pub config_path : Bytes

abbrev pub default_args : SerialArgs
default_args = record {
  port_name = b'C' ∷ b'O' ∷ b'M' ∷ b'7' ∷ [];
  bridge_url =
      b'h' ∷ b't' ∷ b't' ∷ b'p' ∷ b':' ∷ b'/' ∷ b'/' ∷ b'l' ∷ b'o' ∷ b'c' ∷ b'a' ∷ b'l' ∷ b'h'
      ∷ b'o' ∷ b's' ∷ b't' ∷ b':' ∷ b'5' ∷ b'1' ∷ b'5' ∷ b'1' ∷ [];
  token = none;
  config_path = b'c' ∷ b'o' ∷ b'n' ∷ b'f' ∷ b'i' ∷ b'g' ∷ b'.' ∷ b't' ∷ b'o' ∷ b'm' ∷ b'l' ∷ [];
}

-- an arm of the `match`, where there is one
unfoldable pub setter : Bytes → Option (Bytes → SerialArgs → SerialArgs)
setter arg =
    if same_bytes arg (b'-' ∷ b'-' ∷ b'p' ∷ b'o' ∷ b'r' ∷ b't' ∷ [])
    then some (λ v a. record a { port_name = v })
    else if same_bytes arg (b'-' ∷ b'-' ∷ b'u' ∷ b'r' ∷ b'l' ∷ [])
    then some (λ v a. record a { bridge_url = v })
    else if same_bytes arg (b'-' ∷ b'-' ∷ b't' ∷ b'o' ∷ b'k' ∷ b'e' ∷ b'n' ∷ [])
    then some (λ v a. record a { token = some v })
    else if same_bytes arg (b'-' ∷ b'-' ∷ b'c' ∷ b'o' ∷ b'n' ∷ b'f' ∷ b'i' ∷ b'g' ∷ [])
    then some (λ v a. record a { config_path = v })
    else none

-- the loop over the arguments; `args[i]` past the end panics
unfoldable pub parse_args : List Bytes → SerialArgs → Run SerialArgs
parse_args [] a = ok a
parse_args (arg ∷ []) a = elim (setter arg) [ none ↦ ok a | some set ↦ panic ]
parse_args (arg ∷ value ∷ rest) a = elim (setter arg) [
  | none ↦ parse_args (value ∷ rest) a
  | some set ↦ parse_args rest (set value a)
]

-- a byte before the line that is found later
abbrev pub before_line : ℕ → Option (Bytes × Bytes) → Option (Bytes × Bytes)
before_line c none = none
before_line c (some (line, rest)) = some (c ∷ line, rest)

-- `rx.iter().position(|&b| b == b'\n')` and `rx.drain(..=pos)`: the line with its end, and the rest
unfoldable pub drain_line : Bytes → Option (Bytes × Bytes)
drain_line [] = none
drain_line (c ∷ rx) =
    let later = drain_line rx in if c == b'\n' then some (c ∷ [], rx) else before_line c later

-- the `while let` loop, on fuel: the lines, and what is left in the buffer
unfoldable pub drain_lines : ℕ → Bytes → List Bytes × Bytes
drain_lines zero rx = ([], rx)
drain_lines (suc fuel) rx = elim (drain_line rx) [
  | none ↦ ([], rx)
  | some (line, rest) ↦ let more = drain_lines fuel rest in (line ∷ more.0, more.1)
]

-- what is done with a line
pub data Event : Type 0 where
  ack : Bytes → Event
  log : Bytes → Event

module _ (trimmed : Bytes → Option Bytes) where
  line_event : Bytes → Option Event
  line_event l =
      if is_nil l
      then none
      else elim (extract_ack_id l) [ none ↦ some (log l) | some id ↦ some (ack id) ]

  -- the events of the lines
  unfoldable pub events_of : List Bytes → List Event
  unfolding line_event
  events_of [] = []
  events_of (line ∷ lines) =
      let rest = events_of lines in
      elim (trimmed line) [
        | none ↦ rest
        | some l ↦ elim (line_event l) [ none ↦ rest | some e ↦ e ∷ rest ]
      ]

abbrev pub runaway : ℕ
runaway = 8192

-- the buffer, or nothing where it has run away
unfoldable pub guarded : Bytes → Bytes
guarded rx = if ltb runaway (length rx) then [] else rx

-- a read of `n > 0` bytes: the lines that it completes, and the buffer after it
unfoldable pub on_read : Bytes → Bytes → List Bytes × Bytes
on_read rx tmp =
    let got = rx ++ tmp in let cut = drain_lines (length got) got in (cut.0, guarded cut.1)
