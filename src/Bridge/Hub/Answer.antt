-- ===== src/Bridge/Hub/Answer.antt =====
-- bridge/src/hub.rs: `count_statuses` and the answer of `state_handler`; model.rs: `UsageBlock` and
-- `StateResponse`; state.rs: `Shared`. An i64 is its bits; its printing and f64 are parameters. The
-- gauges of the providers that are always `None` have no field.
pub mod Told
use cydrust.Prelude.{ℕ, ◌+◌, ◌-◌, List, [], ◌∷◌, ◌++◌, if◌then◌else◌, Option, some}
use cydrust.Proto.Model.{Bytes}
use cydrust.Bridge.Map.{Map}
use cydrust.Bridge.Model.{Float, Status, working, idle, waiting, SessionRow}
use cydrust.Bridge.State.{Inner}
use cydrust.Bridge.Rows.{derive_rows}
use cydrust.Bridge.Federation.{rows}
use cydrust.Bridge.Hub.{App}
use cydrust.Metrics.Number.{Real, two_64}
use cydrust.Metrics.Summary.{Metrics}
use cydrust.Usage.{UsageInfo}
use cydrust.Usage.Capacity.{Verdict, capacity}

pub record Shared (F : Type 0) : Type 0 where
  pub claude_usage : UsageInfo F
  pub codex_usage : UsageInfo F
  pub metrics : Metrics F
  pub titles : Map Bytes

pub record UsageBlock (F : Type 0) : Type 0 where
  pub claude : UsageInfo F
  pub codex : UsageInfo F
  pub capacity : Option Verdict

pub record StateResponse (F : Type 0) : Type 0 where
  pub ts : ℕ  -- i64
  pub sessions : List SessionRow
  pub usage : UsageBlock F
  pub stale_sec : ℕ  -- i64
  pub capacity : Verdict
  pub metrics : Metrics F

pub record Counts : Type 0 where
  pub working : ℕ
  pub waiting : ℕ
  pub idle : ℕ

-- a round of the loop of `count_statuses`
unfoldable pub count_row : Status → Counts → Counts
count_row working c = record c { working = c.working + 1 }
count_row waiting c = record c { waiting = c.waiting + 1 }
count_row idle c = record c { idle = c.idle + 1 }

count_from : Counts → List SessionRow → Counts
count_from c [] = c
count_from c (r ∷ rows) = count_from (count_row r.status c) rows

unfoldable pub count_statuses : List SessionRow → Counts
unfolding count_from
count_statuses rows = count_from (record { working = 0; waiting = 0; idle = 0 }) rows

module _ {F : Type 0} (f : Float F) (real : Real F) (show_int show : ℕ → Bytes) where
  unfoldable pub stale_of : F → F → ℕ
  stale_of now last_scan =
      if f.lt (f.milli 0) last_scan then real.to_i64 (f.sub now last_scan) else two_64 - 1

  -- the answer, and the hub afterwards: reading the remote rows drops the old ones
  unfoldable pub state_handler : (Bytes → Bytes) → F → Shared F → App F → StateResponse F × App F
  unfolding stale_of
  state_handler trim now shared app =
      let local = derive_rows f shared.titles now app.store in
      let counts = count_statuses local in
      let cap = capacity real show_int show shared.claude_usage shared.codex_usage counts.idle in
      let remote = rows f trim now (f.milli 30000) app.remote in
      (
        record {
          ts = real.to_i64 now;
          sessions = local ++ remote.0;
          usage = record {
            claude = shared.claude_usage;
            codex = shared.codex_usage;
            capacity = some cap;
          };
          stale_sec = stale_of now app.store.last_scan;
          capacity = cap;
          metrics = shared.metrics;
        },
        record app { remote = remote.1 },
      )
