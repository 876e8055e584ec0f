-- ===== src/Metrics/Examples.antt =====
-- bridge/src/metrics.rs: a file of Claude's and one of Codex's, with costs in whole numbers.
use cydrust.Prelude.{ℕ, ◌+◌, ◌-◌, ◌*◌, ◌/◌, ◌≡◌, true, Option, none, some, [], ◌∷◌, ltb, leb}
use cydrust.Proto.Model.{Bytes}
use cydrust.Json.{Value, number, string, object, end, field}
use cydrust.Metrics.Number.{Real, Number, add}
use cydrust.Metrics.Build.{Builder, accum, finalize, default_builder, merged_of}
use cydrust.Metrics.Claude.{File, claude_metrics}
use cydrust.Metrics.Claude.Split.{claude_metrics-tokens}
use cydrust.Metrics.Sums.{IsBalanced, accum-IsBalanced, default_builder-IsBalanced}
use cydrust.Metrics.Balanced.{tokens_sum, unlisted, finalize-models}

-- f64 as thousandths
abbrev thousandths : Real ℕ
thousandths = record {
  milli = λ n. n;
  plus = ◌+◌;
  minus = ◌-◌;
  times = λ a b. a * b / 1000;
  over = λ a b. a * 1000 / b;
  round = λ n. n / 1000 * 1000;
  less_than = ltb;
  less_equal = leb;
  sum = λ xs. 0;
  of_i64 = λ n. n * 1000;
  to_i64 = λ n. n / 1000;
}

abbrev whole : Number ℕ ℕ
whole = record { i64_of = λ n. some n; f64_of = λ n. some (n * 1000) }

-- a line of a session file, whatever its text is
abbrev parsed : Bytes → Option (Value ℕ)
parsed [] = none
parsed (c ∷ cs) = some (
    object (
      field (b'm' ∷ b'e' ∷ b's' ∷ b's' ∷ b'a' ∷ b'g' ∷ b'e' ∷ [])
        (object (
          field (b'm' ∷ b'o' ∷ b'd' ∷ b'e' ∷ b'l' ∷ [])
            (string (
              b'c' ∷ b'l' ∷ b'a' ∷ b'u' ∷ b'd' ∷ b'e' ∷ b'-' ∷ b'o' ∷ b'p' ∷ b'u' ∷ b's' ∷ b'-'
              ∷ b'4' ∷ []))
            (field (b'u' ∷ b's' ∷ b'a' ∷ b'g' ∷ b'e' ∷ [])
              (object (
                field
                  (b'i' ∷ b'n' ∷ b'p' ∷ b'u' ∷ b't' ∷ b'_' ∷ b't' ∷ b'o' ∷ b'k' ∷ b'e' ∷ b'n' ∷ b's'
                    ∷ [])
                  (number 7)
                  (field
                    (b'o' ∷ b'u' ∷ b't' ∷ b'p' ∷ b'u' ∷ b't' ∷ b'_' ∷ b't' ∷ b'o' ∷ b'k' ∷ b'e'
                      ∷ b'n' ∷ b's' ∷ [])
                    (number 5) end)))
              end)))
        end))

abbrev file : File ℕ
file = record { is_jsonl = true; mtime = some 9; text = some (b'a' ∷ b'\n' ∷ b'b' ∷ []) }

claude_metrics-tokens_example :
    (claude_metrics thousandths whole parsed 5 [] (some (file ∷ []))).tokens
    ≡ add
        (claude_metrics thousandths whole parsed 5 [] (some (file ∷ []))).tokens_in
        (claude_metrics thousandths whole parsed 5 [] (some (file ∷ []))).tokens_out
claude_metrics-tokens_example =
    claude_metrics-tokens thousandths whole parsed 5 [] (some (file ∷ []))

-- a line of a rollout
abbrev counted : Bytes → Option (Value ℕ)
counted [] = none
counted (c ∷ cs) = some (
    object (
      field (b't' ∷ b'y' ∷ b'p' ∷ b'e' ∷ [])
        (string (b't' ∷ b'o' ∷ b'k' ∷ b'e' ∷ b'n' ∷ b'_' ∷ b'c' ∷ b'o' ∷ b'u' ∷ b'n' ∷ b't' ∷ []))
        (field
          (b't' ∷ b'o' ∷ b't' ∷ b'a' ∷ b'l' ∷ b'_' ∷ b't' ∷ b'o' ∷ b'k' ∷ b'e' ∷ b'n' ∷ b's' ∷ [])
          (number 12) end)))

abbrev builder : Builder ℕ
builder = accum thousandths (b'g' ∷ b'p' ∷ b't' ∷ b'-' ∷ b'5' ∷ []) 3 4 7 none default_builder

builder-IsBalanced : IsBalanced builder
builder-IsBalanced =
    accum-IsBalanced thousandths (b'g' ∷ b'p' ∷ b't' ∷ b'-' ∷ b'5' ∷ []) 3 4 7 none default_builder
      (default_builder-IsBalanced ℕ)

finalize-models_example :
    add
      (tokens_sum (finalize thousandths builder).models)
      (unlisted (merged_of thousandths builder))
    ≡ builder.tokens
finalize-models_example = finalize-models thousandths builder builder-IsBalanced
