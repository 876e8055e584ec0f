-- ===== src/Usage/Codex.antt =====
-- bridge/src/usage.rs: `window_reset_sec`, `json_as_i64`, `json_as_f64`, `parse_codex_token_count`
-- and the choice of `codex_usage` among the files.
pub mod Misses
use cydrust.Prelude.{ℕ, Bool, true, false, ◌&&◌, Option, none, some, List, [], ◌∷◌, if◌then◌else◌}
use cydrust.Proto.Model.{Bytes}
use cydrust.Proto.Same.{same_bytes}
use cydrust.Proto.Scan.{find_str}
use cydrust.Json.{Value, null, number, string, get, get_str, is_object}
use cydrust.Strings.{split}
use cydrust.Metrics.Number.{Real, Number, as_f64}
use cydrust.Usage.{UsageInfo, miss, floored, remaining}
use cydrust.Usage.Claude.{five_hours}

-- `s.trim().parse()` of a string, for i64 and f64
pub record Parse (F : Type 0) : Type 0 where
  pub i64_text : Bytes → Option ℕ
  pub f64_text : Bytes → Option F

abbrev pub token_count : Bytes
token_count = (b't' ∷ b'o' ∷ b'k' ∷ b'e' ∷ b'n' ∷ b'_' ∷ b'c' ∷ b'o' ∷ b'u' ∷ b'n' ∷ b't' ∷ [])

module _ {N F : Type 0} (real : Real F) (num : Number N F) (parse : Parse F) where
  truncated : Option F → Option ℕ
  truncated none = none
  truncated (some f) = some (real.to_i64 f)

  unfoldable pub json_as_i64 : Value N → Option ℕ
  unfolding truncated
  json_as_i64 (number n) = elim (num.i64_of n) [ some i ↦ some i | none ↦ truncated (num.f64_of n) ]
  json_as_i64 (string s) = parse.i64_text s
  json_as_i64 _ = none

  unfoldable pub json_as_f64 : Value N → Option F
  json_as_f64 (number n) = num.f64_of n
  json_as_f64 (string s) = parse.f64_text s
  json_as_f64 _ = none

  abbrev i64_at : Option (Value N) → Option ℕ
  i64_at none = none
  i64_at (some v) = json_as_i64 v

  abbrev pub f64_at : Option (Value N) → Option F
  f64_at none = none
  f64_at (some v) = json_as_f64 v

  unfoldable pub window_reset_sec : Value N → ℕ → ℕ
  window_reset_sec window now =
      elim (i64_at (
        get window (
          b'r' ∷ b'e' ∷ b's' ∷ b'e' ∷ b't' ∷ b's' ∷ b'_' ∷ b'i' ∷ b'n' ∷ b'_' ∷ b's' ∷ b'e' ∷ b'c'
          ∷ b'o' ∷ b'n' ∷ b'd' ∷ b's' ∷ []))) [
            | some s ↦ floored s
            | none ↦
                elim (i64_at (
                  get window (b'r' ∷ b'e' ∷ b's' ∷ b'e' ∷ b't' ∷ b's' ∷ b'_' ∷ b'a' ∷ b't' ∷ []))) [
                    | some at ↦ remaining at now
                    | none ↦ 0
                  ]
          ]

  abbrev or_null : Option (Value N) → Value N
  or_null none = null
  or_null (some v) = v

  -- `w / 100.0`
  abbrev percent : Option F → Option F
  percent none = none
  percent (some w) = some (real.over w (real.milli 100_000))

  -- the reading of the last rate limits, before the analytics
  unfoldable pub codex_reading : Value N → ℕ → F → UsageInfo F
  codex_reading rl now pct_used =
      let prim = or_null (get rl (b'p' ∷ b'r' ∷ b'i' ∷ b'm' ∷ b'a' ∷ b'r' ∷ b'y' ∷ [])) in
      let sec =
        or_null (get rl (b's' ∷ b'e' ∷ b'c' ∷ b'o' ∷ b'n' ∷ b'd' ∷ b'a' ∷ b'r' ∷ b'y' ∷ [])) in
      record miss {
        ok = true;
        pct = percent (some pct_used);
        reset_sec = some (floored (window_reset_sec prim now));
        week_pct = percent (
            f64_at (
              get sec (
                b'u' ∷ b's' ∷ b'e' ∷ b'd' ∷ b'_' ∷ b'p' ∷ b'e' ∷ b'r' ∷ b'c' ∷ b'e' ∷ b'n' ∷ b't'
                ∷ [])));
        week_reset_sec = if is_object sec then some (window_reset_sec sec now) else none;
        window = some five_hours;
      }

module _ {N : Type 0} (from_line : Bytes → Option (Value N)) where
  -- the rate limits of a line that has any
  abbrev or_value : Option (Value N) → Value N → Value N
  or_value none v = v
  or_value (some w) v = w

  limits_in : Value N → Option (Value N)
  limits_in payload = elim (get_str payload (b't' ∷ b'y' ∷ b'p' ∷ b'e' ∷ [])) [
    | none ↦ none
    | some t ↦
        if same_bytes t token_count
        then get payload
            (b'r' ∷ b'a' ∷ b't' ∷ b'e' ∷ b'_' ∷ b'l' ∷ b'i' ∷ b'm' ∷ b'i' ∷ b't' ∷ b's' ∷ [])
        else none
  ]

  limits_parsed : Option (Value N) → Option (Value N)
  limits_parsed none = none
  limits_parsed (some o) =
      limits_in (or_value (get o (b'p' ∷ b'a' ∷ b'y' ∷ b'l' ∷ b'o' ∷ b'a' ∷ b'd' ∷ [])) o)

  unfoldable pub limits_of_line : Bytes → Option (Value N)
  unfolding limits_in limits_parsed
  limits_of_line line = elim (find_str token_count line) [
    | none ↦ none
    | some rest ↦ limits_parsed (from_line line)
  ]

  -- the loop over the lines
  unfoldable pub last_limits : List Bytes → Option (Value N) → Option (Value N)
  last_limits [] last = last
  last_limits (line ∷ lines) last = elim (limits_of_line line) [
    | none ↦ last_limits lines last
    | some rl ↦ last_limits lines (some rl)
  ]

module _ {N F : Type 0} (real : Real F) (num : Number N F) (parse : Parse F)
    (from_line : Bytes → Option (Value N)) (analytics : UsageInfo F → ℕ → UsageInfo F) where
  used_percent : Value N → Option F
  used_percent rl = elim (get rl (b'p' ∷ b'r' ∷ b'i' ∷ b'm' ∷ b'a' ∷ b'r' ∷ b'y' ∷ [])) [
    | none ↦ none
    | some prim ↦ f64_at real num parse (
        get prim
          (b'u' ∷ b's' ∷ b'e' ∷ b'd' ∷ b'_' ∷ b'p' ∷ b'e' ∷ b'r' ∷ b'c' ∷ b'e' ∷ b'n' ∷ b't' ∷ []))
  ]

  -- the reading where the share is a number
  with_share : Value N → ℕ → Option F → UsageInfo F
  with_share rl now none = miss
  with_share rl now (some pct) = analytics (codex_reading real num parse rl now pct) now

  with_limits : ℕ → Option (Value N) → UsageInfo F
  with_limits now none = miss
  with_limits now (some rl) = with_share rl now (used_percent rl)

  unfoldable pub parse_codex_token_count : Bytes → ℕ → UsageInfo F
  unfolding used_percent with_share with_limits
  parse_codex_token_count text now = with_limits now (last_limits from_line (split b'\n' text) none)

  -- The loop over the files, the newest first; `none` stands for one that cannot be read.
  unfoldable pub codex_usage : List (Option Bytes) → ℕ → UsageInfo F
  codex_usage [] now = miss
  codex_usage (none ∷ files) now = codex_usage files now
  codex_usage (some text ∷ files) now =
      let res = parse_codex_token_count text now in
      let later = codex_usage files now in if res.ok then res else later
