-- ===== src/Usage/Claude.antt =====
-- bridge/src/usage.rs: `header_get` and `parse_claude_headers`.
use cydrust.Prelude.{
  ℕ, ◌+◌, Bool, true, ◌&&◌, Option, none, some, List, [], ◌∷◌, if◌then◌else◌, leb, ◌==◌,
}
use cydrust.Proto.Model.{Bytes}
use cydrust.Proto.Same.{same_list}
use cydrust.Usage.{UsageInfo, miss, remaining}

abbrev pub Headers : Type 0
Headers = List (Bytes × Bytes)

-- an ASCII letter in lower case
abbrev lower : ℕ → ℕ
lower c = if leb b'A' c && leb c b'Z' then c + 32 else c

-- `eq_ignore_ascii_case`
unfoldable pub same_ignoring_case : Bytes → Bytes → Bool
same_ignoring_case a b = same_list (λ x y. lower x == lower y) a b

unfoldable pub header_get : Headers → Bytes → Option Bytes
header_get [] name = none
header_get ((k, v) ∷ headers) name =
    let rest = header_get headers name in if same_ignoring_case k name then some v else rest

abbrev pub h5u : Bytes
h5u =
    (b'a' ∷ b'n' ∷ b't' ∷ b'h' ∷ b'r' ∷ b'o' ∷ b'p' ∷ b'i' ∷ b'c' ∷ b'-' ∷ b'r' ∷ b'a' ∷ b't' ∷ b'e'
      ∷ b'l' ∷ b'i' ∷ b'm' ∷ b'i' ∷ b't' ∷ b'-' ∷ b'u' ∷ b'n' ∷ b'i' ∷ b'f' ∷ b'i' ∷ b'e' ∷ b'd'
      ∷ b'-' ∷ b'5' ∷ b'h' ∷ b'-' ∷ b'u' ∷ b't' ∷ b'i' ∷ b'l' ∷ b'i' ∷ b'z' ∷ b'a' ∷ b't' ∷ b'i'
      ∷ b'o' ∷ b'n' ∷ [])

abbrev pub h5r : Bytes
h5r =
    (b'a' ∷ b'n' ∷ b't' ∷ b'h' ∷ b'r' ∷ b'o' ∷ b'p' ∷ b'i' ∷ b'c' ∷ b'-' ∷ b'r' ∷ b'a' ∷ b't' ∷ b'e'
      ∷ b'l' ∷ b'i' ∷ b'm' ∷ b'i' ∷ b't' ∷ b'-' ∷ b'u' ∷ b'n' ∷ b'i' ∷ b'f' ∷ b'i' ∷ b'e' ∷ b'd'
      ∷ b'-' ∷ b'5' ∷ b'h' ∷ b'-' ∷ b'r' ∷ b'e' ∷ b's' ∷ b'e' ∷ b't' ∷ [])

abbrev pub d7u : Bytes
d7u =
    (b'a' ∷ b'n' ∷ b't' ∷ b'h' ∷ b'r' ∷ b'o' ∷ b'p' ∷ b'i' ∷ b'c' ∷ b'-' ∷ b'r' ∷ b'a' ∷ b't' ∷ b'e'
      ∷ b'l' ∷ b'i' ∷ b'm' ∷ b'i' ∷ b't' ∷ b'-' ∷ b'u' ∷ b'n' ∷ b'i' ∷ b'f' ∷ b'i' ∷ b'e' ∷ b'd'
      ∷ b'-' ∷ b'7' ∷ b'd' ∷ b'-' ∷ b'u' ∷ b't' ∷ b'i' ∷ b'l' ∷ b'i' ∷ b'z' ∷ b'a' ∷ b't' ∷ b'i'
      ∷ b'o' ∷ b'n' ∷ [])

abbrev pub d7r : Bytes
d7r =
    (b'a' ∷ b'n' ∷ b't' ∷ b'h' ∷ b'r' ∷ b'o' ∷ b'p' ∷ b'i' ∷ b'c' ∷ b'-' ∷ b'r' ∷ b'a' ∷ b't' ∷ b'e'
      ∷ b'l' ∷ b'i' ∷ b'm' ∷ b'i' ∷ b't' ∷ b'-' ∷ b'u' ∷ b'n' ∷ b'i' ∷ b'f' ∷ b'i' ∷ b'e' ∷ b'd'
      ∷ b'-' ∷ b'7' ∷ b'd' ∷ b'-' ∷ b'r' ∷ b'e' ∷ b's' ∷ b'e' ∷ b't' ∷ [])

abbrev pub five_hours : Bytes
five_hours = (b'5' ∷ b'h' ∷ [])

-- a header's number
abbrev number_of : {A : Type 0} → (Bytes → Option A) → Option Bytes → Option A
number_of parse none = none
number_of parse (some s) = parse s

abbrev or_zero : Option ℕ → ℕ
or_zero none = 0
or_zero (some n) = n

abbrev remaining_at : Option ℕ → ℕ → Option ℕ
remaining_at none now = none
remaining_at (some epoch) now = some (remaining epoch now)

module _ {F : Type 0} (parse_f64 : Bytes → Option F) (parse_i64 : Bytes → Option ℕ) where
  -- the reading where the 5h utilization is a number
  unfoldable pub claude_reading : Headers → ℕ → F → UsageInfo F
  claude_reading headers now pct = record miss {
    ok = true;
    pct = some pct;
    reset_sec = some (remaining (or_zero (number_of parse_i64 (header_get headers h5r))) now);
    week_pct = number_of parse_f64 (header_get headers d7u);
    week_reset_sec = remaining_at (number_of parse_i64 (header_get headers d7r)) now;
    window = some five_hours;
  }

  unfoldable pub parse_claude_headers : Headers → ℕ → UsageInfo F
  parse_claude_headers headers now = elim (number_of parse_f64 (header_get headers h5u)) [
    | none ↦ miss
    | some pct ↦ claude_reading headers now pct
  ]
