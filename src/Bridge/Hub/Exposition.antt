-- ===== src/Bridge/Hub/Exposition.antt =====
-- bridge/src/hub.rs: `metrics_handler`, the text that a scrape reads. The printing of numbers is a
-- parameter: `usize`, i64 (which is its bits), f64, and f64 without decimals.
pub mod Samples
use cydrust.Prelude.{ℕ, Option, none, some, List, [], ◌∷◌, ◌++◌, if◌then◌else◌}
use cydrust.Proto.Model.{Bytes}
use cydrust.Tree.{Tree}
use cydrust.Bridge.Model.{Float}
use cydrust.Bridge.State.{Inner}
use cydrust.Bridge.Rows.{derive_rows}
use cydrust.Bridge.Hub.Answer.{Shared, Counts, count_statuses}
use cydrust.Metrics.Build.{ModelMetric, ProviderMetric}
use cydrust.Metrics.Summary.{Totals, Metrics}
use cydrust.Usage.{UsageInfo}

abbrev pub ln : Bytes → Bytes
ln line = line ++ b'\n' ∷ []

-- the pieces that are pushed onto the text, in their order
unfoldable pub text_of : List Bytes → Bytes
text_of [] = []
text_of (piece ∷ pieces) = piece ++ text_of pieces

pub record Show (F : Type 0) : Type 0 where
  pub count : ℕ → Bytes
  pub integer : ℕ → Bytes
  pub float : F → Bytes
  pub whole : F → Bytes

-- `if let Some(v) = o { ... }` around a line
abbrev pub line_if {ℓ} : {A : Type ℓ} → (A → Bytes) → Option A → Bytes
line_if line none = []
line_if line (some a) = ln (line a)

abbrev pub claude_str : Bytes
claude_str = (b'c' ∷ b'l' ∷ b'a' ∷ b'u' ∷ b'd' ∷ b'e' ∷ [])

abbrev pub codex_str : Bytes
codex_str = (b'c' ∷ b'o' ∷ b'd' ∷ b'e' ∷ b'x' ∷ [])

module _ {F : Type 0} (show : Show F) where
  usage_line : Bytes → F → Bytes
  usage_line name p = text_of (
      (b'v' ∷ b'i' ∷ b'b' ∷ b'e' ∷ b'm' ∷ b'o' ∷ b'n' ∷ b'i' ∷ b't' ∷ b'o' ∷ b'r' ∷ b'_' ∷ b'u'
        ∷ b's' ∷ b'a' ∷ b'g' ∷ b'e' ∷ b'_' ∷ b'r' ∷ b'a' ∷ b't' ∷ b'i' ∷ b'o' ∷ b'{' ∷ b'p' ∷ b'r'
        ∷ b'o' ∷ b'v' ∷ b'i' ∷ b'd' ∷ b'e' ∷ b'r' ∷ b'=' ∷ b'"' ∷ [])
      ∷ name
      ∷ (b'"' ∷ b'}' ∷ b' ' ∷ [])
      ∷ show.float p
      ∷ [])

  reset_line : Bytes → ℕ → Bytes
  reset_line name r = text_of (
      (b'v' ∷ b'i' ∷ b'b' ∷ b'e' ∷ b'm' ∷ b'o' ∷ b'n' ∷ b'i' ∷ b't' ∷ b'o' ∷ b'r' ∷ b'_' ∷ b'u'
        ∷ b's' ∷ b'a' ∷ b'g' ∷ b'e' ∷ b'_' ∷ b'r' ∷ b'e' ∷ b's' ∷ b'e' ∷ b't' ∷ b'_' ∷ b's' ∷ b'e'
        ∷ b'c' ∷ b'o' ∷ b'n' ∷ b'd' ∷ b's' ∷ b'{' ∷ b'p' ∷ b'r' ∷ b'o' ∷ b'v' ∷ b'i' ∷ b'd' ∷ b'e'
        ∷ b'r' ∷ b'=' ∷ b'"' ∷ [])
      ∷ name
      ∷ (b'"' ∷ b'}' ∷ b' ' ∷ [])
      ∷ show.count r
      ∷ [])

  tokens_line : Bytes → ModelMetric F → Bytes
  tokens_line prov m = text_of (
      (b'v' ∷ b'i' ∷ b'b' ∷ b'e' ∷ b'm' ∷ b'o' ∷ b'n' ∷ b'i' ∷ b't' ∷ b'o' ∷ b'r' ∷ b'_' ∷ b't'
        ∷ b'o' ∷ b'k' ∷ b'e' ∷ b'n' ∷ b's' ∷ b'_' ∷ b't' ∷ b'o' ∷ b't' ∷ b'a' ∷ b'l' ∷ b'{' ∷ b'p'
        ∷ b'r' ∷ b'o' ∷ b'v' ∷ b'i' ∷ b'd' ∷ b'e' ∷ b'r' ∷ b'=' ∷ b'"' ∷ [])
      ∷ prov
      ∷ (b'"' ∷ b',' ∷ b'm' ∷ b'o' ∷ b'd' ∷ b'e' ∷ b'l' ∷ b'=' ∷ b'"' ∷ [])
      ∷ m.model
      ∷ (b'"' ∷ b'}' ∷ b' ' ∷ [])
      ∷ show.integer m.tokens
      ∷ [])

  cost_line : Bytes → Bytes → F → Bytes
  cost_line prov model u = text_of (
      (b'v' ∷ b'i' ∷ b'b' ∷ b'e' ∷ b'm' ∷ b'o' ∷ b'n' ∷ b'i' ∷ b't' ∷ b'o' ∷ b'r' ∷ b'_' ∷ b'c'
        ∷ b'o' ∷ b's' ∷ b't' ∷ b'_' ∷ b'u' ∷ b's' ∷ b'd' ∷ b'{' ∷ b'p' ∷ b'r' ∷ b'o' ∷ b'v' ∷ b'i'
        ∷ b'd' ∷ b'e' ∷ b'r' ∷ b'=' ∷ b'"' ∷ [])
      ∷ prov
      ∷ (b'"' ∷ b',' ∷ b'm' ∷ b'o' ∷ b'd' ∷ b'e' ∷ b'l' ∷ b'=' ∷ b'"' ∷ [])
      ∷ model
      ∷ (b'"' ∷ b'}' ∷ b' ' ∷ [])
      ∷ show.float u
      ∷ [])

  total_cost : Option F → Bytes
  total_cost none = []
  total_cost (some u) = text_of (
      ln (
        b'#' ∷ b' ' ∷ b'H' ∷ b'E' ∷ b'L' ∷ b'P' ∷ b' ' ∷ b'v' ∷ b'i' ∷ b'b' ∷ b'e' ∷ b'm' ∷ b'o'
        ∷ b'n' ∷ b'i' ∷ b't' ∷ b'o' ∷ b'r' ∷ b'_' ∷ b'c' ∷ b'o' ∷ b's' ∷ b't' ∷ b'_' ∷ b'u' ∷ b's'
        ∷ b'd' ∷ b'_' ∷ b'a' ∷ b'l' ∷ b'l' ∷ b' ' ∷ b'T' ∷ b'o' ∷ b't' ∷ b'a' ∷ b'l' ∷ b' ' ∷ b'e'
        ∷ b's' ∷ b't' ∷ b'i' ∷ b'm' ∷ b'a' ∷ b't' ∷ b'e' ∷ b'd' ∷ b' ' ∷ b'U' ∷ b'S' ∷ b'D' ∷ b' '
        ∷ b't' ∷ b'o' ∷ b'd' ∷ b'a' ∷ b'y' ∷ b'.' ∷ [])
      ∷ ln (
          b'#' ∷ b' ' ∷ b'T' ∷ b'Y' ∷ b'P' ∷ b'E' ∷ b' ' ∷ b'v' ∷ b'i' ∷ b'b' ∷ b'e' ∷ b'm' ∷ b'o'
          ∷ b'n' ∷ b'i' ∷ b't' ∷ b'o' ∷ b'r' ∷ b'_' ∷ b'c' ∷ b'o' ∷ b's' ∷ b't' ∷ b'_' ∷ b'u' ∷ b's'
          ∷ b'd' ∷ b'_' ∷ b'a' ∷ b'l' ∷ b'l' ∷ b' ' ∷ b'g' ∷ b'a' ∷ b'u' ∷ b'g' ∷ b'e' ∷ [])
      ∷ ln (
          text_of (
            (b'v' ∷ b'i' ∷ b'b' ∷ b'e' ∷ b'm' ∷ b'o' ∷ b'n' ∷ b'i' ∷ b't' ∷ b'o' ∷ b'r' ∷ b'_'
              ∷ b'c' ∷ b'o' ∷ b's' ∷ b't' ∷ b'_' ∷ b'u' ∷ b's' ∷ b'd' ∷ b'_' ∷ b'a' ∷ b'l' ∷ b'l'
              ∷ b' ' ∷ [])
            ∷ show.float u
            ∷ []))
      ∷ [])

  -- the two loops over the models of the providers
  model_lines : Bytes → List (ModelMetric F) → Bytes
  unfolding tokens_line cost_line
  model_lines prov [] = []
  model_lines prov (m ∷ ms) =
      text_of (
        ln (tokens_line prov m) ∷ line_if (cost_line prov m.model) m.usd ∷ model_lines prov ms ∷ [])

  provider_lines : Tree (ProviderMetric F) → Bytes
  unfolding model_lines
  provider_lines [] = []
  provider_lines ((prov, pm) ∷ t) = text_of (model_lines prov pm.models ∷ provider_lines t ∷ [])

  count_line : Bytes → ℕ → Bytes
  count_line status n = text_of (
      (b'v' ∷ b'i' ∷ b'b' ∷ b'e' ∷ b'm' ∷ b'o' ∷ b'n' ∷ b'i' ∷ b't' ∷ b'o' ∷ b'r' ∷ b'_' ∷ b's'
        ∷ b'e' ∷ b's' ∷ b's' ∷ b'i' ∷ b'o' ∷ b'n' ∷ b's' ∷ b'{' ∷ b's' ∷ b't' ∷ b'a' ∷ b't' ∷ b'u'
        ∷ b's' ∷ b'=' ∷ b'"' ∷ [])
      ∷ status
      ∷ (b'"' ∷ b'}' ∷ b' ' ∷ [])
      ∷ show.count n
      ∷ [])

  session_lines : Counts → Bytes
  unfolding count_line
  session_lines c = text_of (
      ln (
        b'#' ∷ b' ' ∷ b'H' ∷ b'E' ∷ b'L' ∷ b'P' ∷ b' ' ∷ b'v' ∷ b'i' ∷ b'b' ∷ b'e' ∷ b'm' ∷ b'o'
        ∷ b'n' ∷ b'i' ∷ b't' ∷ b'o' ∷ b'r' ∷ b'_' ∷ b'u' ∷ b'p' ∷ b' ' ∷ b'H' ∷ b'u' ∷ b'b' ∷ b' '
        ∷ b'l' ∷ b'i' ∷ b'v' ∷ b'e' ∷ b'n' ∷ b'e' ∷ b's' ∷ b's' ∷ b'.' ∷ [])
      ∷ ln (
          b'#' ∷ b' ' ∷ b'T' ∷ b'Y' ∷ b'P' ∷ b'E' ∷ b' ' ∷ b'v' ∷ b'i' ∷ b'b' ∷ b'e' ∷ b'm' ∷ b'o'
          ∷ b'n' ∷ b'i' ∷ b't' ∷ b'o' ∷ b'r' ∷ b'_' ∷ b'u' ∷ b'p' ∷ b' ' ∷ b'g' ∷ b'a' ∷ b'u' ∷ b'g'
          ∷ b'e' ∷ [])
      ∷ ln (
          b'v' ∷ b'i' ∷ b'b' ∷ b'e' ∷ b'm' ∷ b'o' ∷ b'n' ∷ b'i' ∷ b't' ∷ b'o' ∷ b'r' ∷ b'_' ∷ b'u'
          ∷ b'p' ∷ b' ' ∷ b'1' ∷ [])
      ∷ ln (
          b'#' ∷ b' ' ∷ b'H' ∷ b'E' ∷ b'L' ∷ b'P' ∷ b' ' ∷ b'v' ∷ b'i' ∷ b'b' ∷ b'e' ∷ b'm' ∷ b'o'
          ∷ b'n' ∷ b'i' ∷ b't' ∷ b'o' ∷ b'r' ∷ b'_' ∷ b's' ∷ b'e' ∷ b's' ∷ b's' ∷ b'i' ∷ b'o' ∷ b'n'
          ∷ b's' ∷ b' ' ∷ b'S' ∷ b'e' ∷ b's' ∷ b's' ∷ b'i' ∷ b'o' ∷ b'n' ∷ b's' ∷ b' ' ∷ b'b' ∷ b'y'
          ∷ b' ' ∷ b's' ∷ b't' ∷ b'a' ∷ b't' ∷ b'u' ∷ b's' ∷ b'.' ∷ [])
      ∷ ln (
          b'#' ∷ b' ' ∷ b'T' ∷ b'Y' ∷ b'P' ∷ b'E' ∷ b' ' ∷ b'v' ∷ b'i' ∷ b'b' ∷ b'e' ∷ b'm' ∷ b'o'
          ∷ b'n' ∷ b'i' ∷ b't' ∷ b'o' ∷ b'r' ∷ b'_' ∷ b's' ∷ b'e' ∷ b's' ∷ b's' ∷ b'i' ∷ b'o' ∷ b'n'
          ∷ b's' ∷ b' ' ∷ b'g' ∷ b'a' ∷ b'u' ∷ b'g' ∷ b'e' ∷ [])
      ∷ ln (count_line (b'w' ∷ b'o' ∷ b'r' ∷ b'k' ∷ b'i' ∷ b'n' ∷ b'g' ∷ []) c.working)
      ∷ ln (count_line (b'w' ∷ b'a' ∷ b'i' ∷ b't' ∷ b'i' ∷ b'n' ∷ b'g' ∷ []) c.waiting)
      ∷ ln (count_line (b'i' ∷ b'd' ∷ b'l' ∷ b'e' ∷ []) c.idle)
      ∷ [])

  stale_lines : F → Bytes
  stale_lines stale = text_of (
      ln (
        b'#' ∷ b' ' ∷ b'H' ∷ b'E' ∷ b'L' ∷ b'P' ∷ b' ' ∷ b'v' ∷ b'i' ∷ b'b' ∷ b'e' ∷ b'm' ∷ b'o'
        ∷ b'n' ∷ b'i' ∷ b't' ∷ b'o' ∷ b'r' ∷ b'_' ∷ b's' ∷ b't' ∷ b'a' ∷ b'l' ∷ b'e' ∷ b'_' ∷ b's'
        ∷ b'e' ∷ b'c' ∷ b'o' ∷ b'n' ∷ b'd' ∷ b's' ∷ b' ' ∷ b'S' ∷ b'e' ∷ b'c' ∷ b'o' ∷ b'n' ∷ b'd'
        ∷ b's' ∷ b' ' ∷ b's' ∷ b'i' ∷ b'n' ∷ b'c' ∷ b'e' ∷ b' ' ∷ b't' ∷ b'h' ∷ b'e' ∷ b' ' ∷ b'l'
        ∷ b'a' ∷ b's' ∷ b't' ∷ b' ' ∷ b's' ∷ b'e' ∷ b's' ∷ b's' ∷ b'i' ∷ b'o' ∷ b'n' ∷ b' ' ∷ b's'
        ∷ b'c' ∷ b'a' ∷ b'n' ∷ b'.' ∷ [])
      ∷ ln (
          b'#' ∷ b' ' ∷ b'T' ∷ b'Y' ∷ b'P' ∷ b'E' ∷ b' ' ∷ b'v' ∷ b'i' ∷ b'b' ∷ b'e' ∷ b'm' ∷ b'o'
          ∷ b'n' ∷ b'i' ∷ b't' ∷ b'o' ∷ b'r' ∷ b'_' ∷ b's' ∷ b't' ∷ b'a' ∷ b'l' ∷ b'e' ∷ b'_' ∷ b's'
          ∷ b'e' ∷ b'c' ∷ b'o' ∷ b'n' ∷ b'd' ∷ b's' ∷ b' ' ∷ b'g' ∷ b'a' ∷ b'u' ∷ b'g' ∷ b'e' ∷ [])
      ∷ ln (
          text_of (
            (b'v' ∷ b'i' ∷ b'b' ∷ b'e' ∷ b'm' ∷ b'o' ∷ b'n' ∷ b'i' ∷ b't' ∷ b'o' ∷ b'r' ∷ b'_'
              ∷ b's' ∷ b't' ∷ b'a' ∷ b'l' ∷ b'e' ∷ b'_' ∷ b's' ∷ b'e' ∷ b'c' ∷ b'o' ∷ b'n' ∷ b'd'
              ∷ b's' ∷ b' ' ∷ [])
            ∷ show.whole stale
            ∷ []))
      ∷ [])

  -- the two loops over the gauges
  gauge_lines : UsageInfo F → UsageInfo F → Bytes
  unfolding usage_line reset_line
  gauge_lines claude codex = text_of (
      ln (
        b'#' ∷ b' ' ∷ b'H' ∷ b'E' ∷ b'L' ∷ b'P' ∷ b' ' ∷ b'v' ∷ b'i' ∷ b'b' ∷ b'e' ∷ b'm' ∷ b'o'
        ∷ b'n' ∷ b'i' ∷ b't' ∷ b'o' ∷ b'r' ∷ b'_' ∷ b'u' ∷ b's' ∷ b'a' ∷ b'g' ∷ b'e' ∷ b'_' ∷ b'r'
        ∷ b'a' ∷ b't' ∷ b'i' ∷ b'o' ∷ b' ' ∷ b'P' ∷ b'r' ∷ b'o' ∷ b'v' ∷ b'i' ∷ b'd' ∷ b'e' ∷ b'r'
        ∷ b' ' ∷ b'u' ∷ b's' ∷ b'a' ∷ b'g' ∷ b'e' ∷ b' ' ∷ b'a' ∷ b's' ∷ b' ' ∷ b'a' ∷ b' ' ∷ b'f'
        ∷ b'r' ∷ b'a' ∷ b'c' ∷ b't' ∷ b'i' ∷ b'o' ∷ b'n' ∷ b' ' ∷ b'o' ∷ b'f' ∷ b' ' ∷ b't' ∷ b'h'
        ∷ b'e' ∷ b' ' ∷ b'w' ∷ b'i' ∷ b'n' ∷ b'd' ∷ b'o' ∷ b'w' ∷ b'.' ∷ [])
      ∷ ln (
          b'#' ∷ b' ' ∷ b'T' ∷ b'Y' ∷ b'P' ∷ b'E' ∷ b' ' ∷ b'v' ∷ b'i' ∷ b'b' ∷ b'e' ∷ b'm' ∷ b'o'
          ∷ b'n' ∷ b'i' ∷ b't' ∷ b'o' ∷ b'r' ∷ b'_' ∷ b'u' ∷ b's' ∷ b'a' ∷ b'g' ∷ b'e' ∷ b'_' ∷ b'r'
          ∷ b'a' ∷ b't' ∷ b'i' ∷ b'o' ∷ b' ' ∷ b'g' ∷ b'a' ∷ b'u' ∷ b'g' ∷ b'e' ∷ [])
      ∷ line_if (usage_line claude_str) claude.pct
      ∷ line_if (usage_line codex_str) codex.pct
      ∷ ln (
          b'#' ∷ b' ' ∷ b'H' ∷ b'E' ∷ b'L' ∷ b'P' ∷ b' ' ∷ b'v' ∷ b'i' ∷ b'b' ∷ b'e' ∷ b'm' ∷ b'o'
          ∷ b'n' ∷ b'i' ∷ b't' ∷ b'o' ∷ b'r' ∷ b'_' ∷ b'u' ∷ b's' ∷ b'a' ∷ b'g' ∷ b'e' ∷ b'_' ∷ b'r'
          ∷ b'e' ∷ b's' ∷ b'e' ∷ b't' ∷ b'_' ∷ b's' ∷ b'e' ∷ b'c' ∷ b'o' ∷ b'n' ∷ b'd' ∷ b's' ∷ b' '
          ∷ b'S' ∷ b'e' ∷ b'c' ∷ b'o' ∷ b'n' ∷ b'd' ∷ b's' ∷ b' ' ∷ b'u' ∷ b'n' ∷ b't' ∷ b'i' ∷ b'l'
          ∷ b' ' ∷ b't' ∷ b'h' ∷ b'e' ∷ b' ' ∷ b'u' ∷ b's' ∷ b'a' ∷ b'g' ∷ b'e' ∷ b' ' ∷ b'w' ∷ b'i'
          ∷ b'n' ∷ b'd' ∷ b'o' ∷ b'w' ∷ b' ' ∷ b'r' ∷ b'e' ∷ b's' ∷ b'e' ∷ b't' ∷ b's' ∷ b'.' ∷ [])
      ∷ ln (
          b'#' ∷ b' ' ∷ b'T' ∷ b'Y' ∷ b'P' ∷ b'E' ∷ b' ' ∷ b'v' ∷ b'i' ∷ b'b' ∷ b'e' ∷ b'm' ∷ b'o'
          ∷ b'n' ∷ b'i' ∷ b't' ∷ b'o' ∷ b'r' ∷ b'_' ∷ b'u' ∷ b's' ∷ b'a' ∷ b'g' ∷ b'e' ∷ b'_' ∷ b'r'
          ∷ b'e' ∷ b's' ∷ b'e' ∷ b't' ∷ b'_' ∷ b's' ∷ b'e' ∷ b'c' ∷ b'o' ∷ b'n' ∷ b'd' ∷ b's' ∷ b' '
          ∷ b'g' ∷ b'a' ∷ b'u' ∷ b'g' ∷ b'e' ∷ [])
      ∷ line_if (reset_line claude_str) claude.reset_sec
      ∷ line_if (reset_line codex_str) codex.reset_sec
      ∷ [])

  total_lines : Metrics F → Bytes
  unfolding provider_lines total_cost
  total_lines metrics = text_of (
      ln (
        b'#' ∷ b' ' ∷ b'H' ∷ b'E' ∷ b'L' ∷ b'P' ∷ b' ' ∷ b'v' ∷ b'i' ∷ b'b' ∷ b'e' ∷ b'm' ∷ b'o'
        ∷ b'n' ∷ b'i' ∷ b't' ∷ b'o' ∷ b'r' ∷ b'_' ∷ b't' ∷ b'o' ∷ b'k' ∷ b'e' ∷ b'n' ∷ b's' ∷ b'_'
        ∷ b't' ∷ b'o' ∷ b't' ∷ b'a' ∷ b'l' ∷ b' ' ∷ b'T' ∷ b'o' ∷ b'k' ∷ b'e' ∷ b'n' ∷ b's' ∷ b' '
        ∷ b't' ∷ b'o' ∷ b'd' ∷ b'a' ∷ b'y' ∷ b' ' ∷ b'p' ∷ b'e' ∷ b'r' ∷ b' ' ∷ b'p' ∷ b'r' ∷ b'o'
        ∷ b'v' ∷ b'i' ∷ b'd' ∷ b'e' ∷ b'r' ∷ b'+' ∷ b'm' ∷ b'o' ∷ b'd' ∷ b'e' ∷ b'l' ∷ b'.' ∷ [])
      ∷ ln (
          b'#' ∷ b' ' ∷ b'T' ∷ b'Y' ∷ b'P' ∷ b'E' ∷ b' ' ∷ b'v' ∷ b'i' ∷ b'b' ∷ b'e' ∷ b'm' ∷ b'o'
          ∷ b'n' ∷ b'i' ∷ b't' ∷ b'o' ∷ b'r' ∷ b'_' ∷ b't' ∷ b'o' ∷ b'k' ∷ b'e' ∷ b'n' ∷ b's' ∷ b'_'
          ∷ b't' ∷ b'o' ∷ b't' ∷ b'a' ∷ b'l' ∷ b' ' ∷ b'g' ∷ b'a' ∷ b'u' ∷ b'g' ∷ b'e' ∷ [])
      ∷ ln (
          b'#' ∷ b' ' ∷ b'H' ∷ b'E' ∷ b'L' ∷ b'P' ∷ b' ' ∷ b'v' ∷ b'i' ∷ b'b' ∷ b'e' ∷ b'm' ∷ b'o'
          ∷ b'n' ∷ b'i' ∷ b't' ∷ b'o' ∷ b'r' ∷ b'_' ∷ b'c' ∷ b'o' ∷ b's' ∷ b't' ∷ b'_' ∷ b'u' ∷ b's'
          ∷ b'd' ∷ b' ' ∷ b'E' ∷ b's' ∷ b't' ∷ b'i' ∷ b'm' ∷ b'a' ∷ b't' ∷ b'e' ∷ b'd' ∷ b' ' ∷ b'U'
          ∷ b'S' ∷ b'D' ∷ b' ' ∷ b't' ∷ b'o' ∷ b'd' ∷ b'a' ∷ b'y' ∷ b' ' ∷ b'p' ∷ b'e' ∷ b'r' ∷ b' '
          ∷ b'p' ∷ b'r' ∷ b'o' ∷ b'v' ∷ b'i' ∷ b'd' ∷ b'e' ∷ b'r' ∷ b'+' ∷ b'm' ∷ b'o' ∷ b'd' ∷ b'e'
          ∷ b'l' ∷ b'.' ∷ [])
      ∷ ln (
          b'#' ∷ b' ' ∷ b'T' ∷ b'Y' ∷ b'P' ∷ b'E' ∷ b' ' ∷ b'v' ∷ b'i' ∷ b'b' ∷ b'e' ∷ b'm' ∷ b'o'
          ∷ b'n' ∷ b'i' ∷ b't' ∷ b'o' ∷ b'r' ∷ b'_' ∷ b'c' ∷ b'o' ∷ b's' ∷ b't' ∷ b'_' ∷ b'u' ∷ b's'
          ∷ b'd' ∷ b' ' ∷ b'g' ∷ b'a' ∷ b'u' ∷ b'g' ∷ b'e' ∷ [])
      ∷ provider_lines metrics.providers
      ∷ ln (
          b'#' ∷ b' ' ∷ b'H' ∷ b'E' ∷ b'L' ∷ b'P' ∷ b' ' ∷ b'v' ∷ b'i' ∷ b'b' ∷ b'e' ∷ b'm' ∷ b'o'
          ∷ b'n' ∷ b'i' ∷ b't' ∷ b'o' ∷ b'r' ∷ b'_' ∷ b't' ∷ b'o' ∷ b'k' ∷ b'e' ∷ b'n' ∷ b's' ∷ b'_'
          ∷ b't' ∷ b'o' ∷ b't' ∷ b'a' ∷ b'l' ∷ b'_' ∷ b'a' ∷ b'l' ∷ b'l' ∷ b' ' ∷ b'T' ∷ b'o' ∷ b't'
          ∷ b'a' ∷ b'l' ∷ b' ' ∷ b't' ∷ b'o' ∷ b'k' ∷ b'e' ∷ b'n' ∷ b's' ∷ b' ' ∷ b't' ∷ b'o' ∷ b'd'
          ∷ b'a' ∷ b'y' ∷ b' ' ∷ b'(' ∷ b'a' ∷ b'l' ∷ b'l' ∷ b' ' ∷ b'p' ∷ b'r' ∷ b'o' ∷ b'v' ∷ b'i'
          ∷ b'd' ∷ b'e' ∷ b'r' ∷ b's' ∷ b')' ∷ b'.' ∷ [])
      ∷ ln (
          b'#' ∷ b' ' ∷ b'T' ∷ b'Y' ∷ b'P' ∷ b'E' ∷ b' ' ∷ b'v' ∷ b'i' ∷ b'b' ∷ b'e' ∷ b'm' ∷ b'o'
          ∷ b'n' ∷ b'i' ∷ b't' ∷ b'o' ∷ b'r' ∷ b'_' ∷ b't' ∷ b'o' ∷ b'k' ∷ b'e' ∷ b'n' ∷ b's' ∷ b'_'
          ∷ b't' ∷ b'o' ∷ b't' ∷ b'a' ∷ b'l' ∷ b'_' ∷ b'a' ∷ b'l' ∷ b'l' ∷ b' ' ∷ b'g' ∷ b'a' ∷ b'u'
          ∷ b'g' ∷ b'e' ∷ [])
      ∷ ln (
          text_of (
            (b'v' ∷ b'i' ∷ b'b' ∷ b'e' ∷ b'm' ∷ b'o' ∷ b'n' ∷ b'i' ∷ b't' ∷ b'o' ∷ b'r' ∷ b'_'
              ∷ b't' ∷ b'o' ∷ b'k' ∷ b'e' ∷ b'n' ∷ b's' ∷ b'_' ∷ b't' ∷ b'o' ∷ b't' ∷ b'a' ∷ b'l'
              ∷ b'_' ∷ b'a' ∷ b'l' ∷ b'l' ∷ b' ' ∷ [])
            ∷ show.integer metrics.totals.tokens
            ∷ []))
      ∷ total_cost metrics.totals.usd
      ∷ [])

  -- the body of the answer; `minus_one` is `-1.0`
  unfoldable pub metrics_handler : Float F → F → F → Shared F → Inner F → Bytes
  unfolding session_lines stale_lines gauge_lines total_lines
  metrics_handler f minus_one now shared store =
      let stale =
        if f.lt (f.milli 0) store.last_scan then f.sub now store.last_scan else minus_one in
      text_of (
        session_lines (count_statuses (derive_rows f shared.titles now store))
        ∷ stale_lines stale
        ∷ gauge_lines shared.claude_usage shared.codex_usage
        ∷ total_lines shared.metrics
        ∷ [])
