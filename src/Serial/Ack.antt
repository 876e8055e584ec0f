-- ===== src/Serial/Ack.antt =====
-- bridge/src/bin/serial_bridge.rs: the acknowledgement that the device sends, read back.
use cydrust.Prelude.{
  ℕ, ◌≡◌, false, none, some, [], ◌∷◌, ◌++◌, arith, if◌then◌else◌, ◌==◌, ltb, length, Bool-cases,
  inl, inr,
}
use cydrust.Proto.Model.{Bytes}
use cydrust.Proto.Scan.{find_str, up_to}
use cydrust.Strings.{has}
use cydrust.Serial.{extract_ack_id, ack_key, max_ack_id_len, short_enough}

-- up to the first quote
up_to-append : (b : ℕ) (s rest : Bytes) → has b s ≡ false → up_to b (s ++ b ∷ rest) ≡ some s
unfolding up_to has
up_to-append b [] rest h = ground arith
up_to-append b (c ∷ s) rest h = elim (Bool-cases (c == b)) [
  | inl e ↦ ground arith
  | inr e ↦ let k : has b s ≡ false = ground arith in rw (e, up_to) (rw (up_to-append b s rest k))
]

-- `{"ack":"<id>"}`
abbrev pub ack_line : Bytes → Bytes
ack_line id = b'{' ∷ ack_key ++ id ++ b'"' ∷ b'}' ∷ []

-- An id without quotes that is sent as an acknowledgement is read back, where it has at most 128
-- bytes, and the line is no acknowledgement where it has more.
pub extract_ack_id-ack_line :
    (id : Bytes)
    → has b'"' id ≡ false
    → extract_ack_id (ack_line id) ≡ (if ltb max_ack_id_len (length id) then none else some id)
unfolding extract_ack_id find_str short_enough
extract_ack_id-ack_line id h = rw (up_to-append b'"' id (b'}' ∷ []) h)
