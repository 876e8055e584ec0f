-- ===== src/Usage.antt =====
-- bridge/src/usage.rs: the rate limits of Claude and Codex, and the verdict on capacity; model.rs:
-- `UsageInfo` and `Capacity`. The requests, the token and the walk over the files are not modelled;
-- parsing, f64 and chrono's local time are parameters. An i64 is its bits (see Metrics/Number).
pub mod Claude
pub mod Project
pub mod Codex
pub mod Capacity
mod Examples
use cydrust.Prelude.{
  ℕ, ◌+◌, ◌-◌, ◌%◌, Bool, true, false, ◌&&◌, Option, none, some, List, [], ◌∷◌, if◌then◌else◌, ltb,
  leb, ◌==◌,
}
use cydrust.Proto.Model.{Bytes}
use cydrust.Proto.Same.{same_bytes}
use cydrust.Metrics.Number.{Real, two_64, two_63, round4}

pub record UsageInfo (F : Type 0) : Type 0 where
  pub ok : Bool
  pub pct : Option F
  pub reset_sec : Option ℕ  -- u64
  pub week_pct : Option F
  pub week_reset_sec : Option ℕ  -- i64
  pub will_exhaust : Option Bool
  pub burn_per_hr : Option F
  pub leftover_pct : Option F
  pub eta_clock : Option Bytes
  pub window : Option Bytes

-- `UsageInfo::default()`; `spark` is always empty
abbrev pub miss : {F : Type 0} → UsageInfo F
miss = record {
  ok = false;
  pct = none;
  reset_sec = none;
  week_pct = none;
  week_reset_sec = none;
  will_exhaust = none;
  burn_per_hr = none;
  leftover_pct = none;
  eta_clock = none;
  window = none;
}

-- `a - b` on i64, in a release build
unfoldable pub subtract : ℕ → ℕ → ℕ
subtract a b = (a + (two_64 - b % two_64)) % two_64

-- `max(0)` on i64
unfoldable pub floored : ℕ → ℕ
floored a = if ltb a two_63 then a else 0

-- `(epoch - now as i64).max(0)`
unfoldable pub remaining : ℕ → ℕ → ℕ
remaining epoch now = floored (subtract epoch now)
