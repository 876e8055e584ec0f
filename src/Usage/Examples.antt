-- ===== src/Usage/Examples.antt =====
-- bridge/src/usage.rs: a rollout without rate limits, and one that cannot be read.
use cydrust.Prelude.{ℕ, ◌+◌, ◌-◌, ◌*◌, ◌/◌, Option, none, some, List, [], ◌∷◌, ltb, leb}
use cydrust.Proto.Model.{Bytes}
use cydrust.Json.{Value, object, end}
use cydrust.Metrics.Number.{Real, Number}
use cydrust.Usage.Codex.{Parse}

-- f64 as thousandths
abbrev thousandths : Real ℕ
thousandths = record {
  milli = λ n. n;
  plus = ◌+◌;
  minus = ◌-◌;
  times = λ a b. a * b / 1000;
  over = λ a b. a * 1000 / b;
  round = λ n. n / 1000 * 1000;
  less_than = ltb;
  less_equal = leb;
  sum = λ xs. 0;
  of_i64 = λ n. n * 1000;
  to_i64 = λ n. n / 1000;
}

abbrev whole : Number ℕ ℕ
whole = record { i64_of = λ n. some n; f64_of = λ n. some (n * 1000) }

abbrev no_text : Parse ℕ
no_text = record { i64_text = λ s. none; f64_text = λ s. none }

abbrev parsed : Bytes → Option (Value ℕ)
parsed s = some (object end)

abbrev files : List (Option Bytes)
files =
    none
    ∷ some (b't' ∷ b'o' ∷ b'k' ∷ b'e' ∷ b'n' ∷ b'_' ∷ b'c' ∷ b'o' ∷ b'u' ∷ b'n' ∷ b't' ∷ [])
    ∷ []
