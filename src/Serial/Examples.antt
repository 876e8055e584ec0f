-- ===== src/Serial/Examples.antt =====
-- bridge/src/bin/serial_bridge.rs: an acknowledgement that comes in two reads.
use cydrust.Prelude.{◌≡◌, refl, false, [], ◌∷◌, ◌++◌, arith}
use cydrust.Proto.Model.{Bytes}
use cydrust.Strings.{has}
use cydrust.Serial.{drain_lines, on_read}
use cydrust.Serial.Lines.{cut_lines, drain_lines-cut_lines}
use cydrust.Serial.Chunks.{after_lines, on_read-append}
use cydrust.Serial.Compact.{compact, compact_json}

abbrev id : Bytes
id = b'7' ∷ b'f' ∷ b'3' ∷ b'a' ∷ []

abbrev got : Bytes
got = (b'l' ∷ b'o' ∷ b'g' ∷ []) ++ b'\n' ∷ b'{' ∷ b'"' ∷ b'a' ∷ b'c' ∷ []

drain_lines-cut_lines_example : drain_lines 20 got ≡ cut_lines got
drain_lines-cut_lines_example = drain_lines-cut_lines 20 got (omega arith)

on_read-append_example :
    after_lines (on_read [] got).0 (on_read (on_read [] got).1 (b'k' ∷ b'\n' ∷ []))
    ≡ on_read [] (got ++ b'k' ∷ b'\n' ∷ [])
on_read-append_example = on_read-append [] got (b'k' ∷ b'\n' ∷ []) (omega arith)

id_is_bare : has b'"' id ≡ false
unfolding has
id_is_bare = refl

-- a space in a string stays, one between two strings goes
compact_spaces :
    compact_json
      (b'{' ∷ b' ' ∷ b'"' ∷ b'a' ∷ b' ' ∷ b'b' ∷ b'"' ∷ b':' ∷ b' ' ∷ b'1' ∷ b' ' ∷ b'}' ∷ [])
    ≡ (b'{' ∷ b'"' ∷ b'a' ∷ b' ' ∷ b'b' ∷ b'"' ∷ b':' ∷ b'1' ∷ b'}' ∷ [])
unfolding compact
compact_spaces = refl
