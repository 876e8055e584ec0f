-- ===== src/Usage/Project.antt =====
-- bridge/src/usage.rs: `attach_single_call_analytics` and `fmt_clock`. chrono's local time and the
-- printing of numbers are parameters.
use cydrust.Prelude.{
  ℕ, ◌%◌, true, false, ◌&&◌, Option, none, some, [], ◌∷◌, ◌++◌, if◌then◌else◌, ltb, ◌==◌,
}
use cydrust.Proto.Model.{Bytes}
use cydrust.Metrics.Number.{Real, add, round4}
use cydrust.Usage.{UsageInfo}

-- the hour of a 12-hour clock
unfoldable pub hour12 : ℕ → ℕ
hour12 h = if h % 12 == 0 then 12 else h % 12

abbrev pub am_pm : ℕ → Bytes
am_pm h = if ltb h 12 then (b'A' ∷ b'M' ∷ []) else (b'P' ∷ b'M' ∷ [])

-- `fmt_clock`, where `show` and `show2` print a number, the latter with two digits at least
unfoldable pub fmt_clock : (ℕ → Option (ℕ × ℕ)) → (ℕ → Bytes) → (ℕ → Bytes) → ℕ → Bytes
fmt_clock local_time show show2 ts = elim (local_time ts) [
  | none ↦ []
  | some (h, m) ↦ show (hour12 h) ++ b':' ∷ show2 m ++ b' ' ∷ am_pm h
]

module _ {F : Type 0} (real : Real F) (of_u64 : ℕ → F) (clock : ℕ → Bytes) where
  zero_f : F
  zero_f = real.milli 0

  one : F
  one = real.milli 1000

  hour : F
  hour = real.milli 3_600_000

  -- `f64::max` of a number and 0.0
  floor_zero : F → F
  unfolding zero_f
  floor_zero x = if real.less_than x zero_f then zero_f else x

  -- `clamp(0.0, 1.0)`
  clamped : F → F
  unfolding zero_f one
  clamped x = if real.less_than x zero_f then zero_f else if real.less_than one x then one else x

  -- the burn per hour over the part of the window that has gone by
  unfoldable pub burn_of : F → F → Option F
  unfolding zero_f hour
  burn_of pct reset_sec =
      let elapsed = real.minus (real.milli 18_000_000) reset_sec in
      if real.less_than (real.milli 60_000) elapsed && real.less_than zero_f pct
      then some (real.over pct (real.over elapsed hour))
      else none

  -- the projection from a burn
  unfoldable pub projected : F → F → F → ℕ → UsageInfo F → UsageInfo F
  unfolding zero_f one hour clamped floor_zero
  projected pct reset_sec burn now info =
      let cur = clamped pct in
      let predicted = real.plus cur (real.times burn (real.over reset_sec hour)) in
      let eta_sec =
        real.to_i64 (real.times (real.over (floor_zero (real.minus one cur)) burn) hour) in
      if real.less_than zero_f burn && real.less_equal one predicted
      then record info { will_exhaust = some true; eta_clock = some (clock (add now eta_sec)) }
      else record info {
        will_exhaust = some false;
        leftover_pct = some (round4 real (floor_zero (real.minus one predicted)));
      }

  unfoldable pub with_burn : F → F → Option F → ℕ → UsageInfo F → UsageInfo F
  with_burn pct reset_sec none now info = info
  with_burn pct reset_sec (some burn) now info =
      projected pct reset_sec burn now (record info { burn_per_hr = some (round4 real burn) })

  -- the analytics of a share and the seconds to its reset, where both are there
  unfoldable pub attach_to : Option F → Option ℕ → UsageInfo F → ℕ → UsageInfo F
  attach_to none r info now = info
  attach_to (some pct) none info now = info
  attach_to (some pct) (some r) info now =
      with_burn pct (of_u64 r) (burn_of pct (of_u64 r)) now info

  abbrev pub attach_single_call_analytics : UsageInfo F → ℕ → UsageInfo F
  attach_single_call_analytics info now = attach_to info.pct info.reset_sec info now
