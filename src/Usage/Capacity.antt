-- ===== src/Usage/Capacity.antt =====
-- bridge/src/usage.rs: `capacity`. The printing of numbers is a parameter.
pub mod Verdicts
use cydrust.Prelude.{
  ℕ, Bool, true, false, ◌&&◌, Option, none, some, List, [], ◌∷◌, ◌++◌, if◌then◌else◌, ltb,
}
use cydrust.Proto.Model.{Bytes}
use cydrust.Metrics.Number.{Real}
use cydrust.Usage.{UsageInfo}

pub record Verdict : Type 0 where
  pub status : Bytes
  pub message : Bytes

abbrev pub throttle : Bytes
throttle = (b't' ∷ b'h' ∷ b'r' ∷ b'o' ∷ b't' ∷ b't' ∷ b'l' ∷ b'e' ∷ [])

abbrev pub pace : Bytes
pace = (b'p' ∷ b'a' ∷ b'c' ∷ b'e' ∷ [])

abbrev pub go : Bytes
go = (b'g' ∷ b'o' ∷ [])

module _ {F : Type 0} where
  -- `u.ok` and `u.will_exhaust == Some(true)`
  unfoldable pub exhausts : UsageInfo F → Bool
  exhausts u = u.ok && elim (u.will_exhaust) [ none ↦ false | some b ↦ b ]

  -- the names of those that exhaust, which stand in their order
  unfoldable pub exhausting : UsageInfo F → UsageInfo F → List Bytes
  exhausting claude codex =
      let second = if exhausts codex then (b'c' ∷ b'o' ∷ b'd' ∷ b'e' ∷ b'x' ∷ []) ∷ [] else [] in
      if exhausts claude then (b'c' ∷ b'l' ∷ b'a' ∷ b'u' ∷ b'd' ∷ b'e' ∷ []) ∷ second else second

-- `join(" & ")`
unfoldable pub join_names : List Bytes → Bytes
join_names [] = []
join_names (n ∷ []) = n
join_names (n ∷ m ∷ ns) = n ++ (b' ' ∷ b'&' ∷ b' ' ∷ []) ++ join_names (m ∷ ns)

module _ {F : Type 0} (real : Real F) (show_int show : ℕ → Bytes) where
  -- one step of the loop on `max_pct`
  unfoldable pub raise : F → UsageInfo F → F
  raise max_pct u = elim (u.pct) [
    | none ↦ max_pct
    | some pct ↦ if u.ok && real.less_than max_pct pct then pct else max_pct
  ]

  unfoldable pub max_pct : UsageInfo F → UsageInfo F → F
  max_pct claude codex = raise (raise (real.milli 0) claude) codex

  pace_message : F → Bytes
  pace_message pct =
      ((b'B' ∷ b'u' ∷ b'd' ∷ b'g' ∷ b'e' ∷ b't' ∷ b' ' ∷ b't' ∷ b'i' ∷ b'g' ∷ b'h' ∷ b't' ∷ b' '
        ∷ b'(' ∷ []))
      ++ show_int (real.to_i64 (real.round (real.times pct (real.milli 100_000))))
      ++ ((b'%' ∷ b' ' ∷ b'u' ∷ b's' ∷ b'e' ∷ b'd' ∷ b')' ∷ b' ' ∷ 226 ∷ 128 ∷ 148 ∷ b' ' ∷ b'p'
          ∷ b'a' ∷ b'c' ∷ b'e' ∷ b' ' ∷ b'y' ∷ b'o' ∷ b'u' ∷ b'r' ∷ b's' ∷ b'e' ∷ b'l' ∷ b'f' ∷ []))

  go_message : ℕ → Bytes
  go_message idle =
      if ltb 0 idle
      then (b'P' ∷ b'l' ∷ b'e' ∷ b'n' ∷ b't' ∷ b'y' ∷ b' ' ∷ b'o' ∷ b'f' ∷ b' ' ∷ b'b' ∷ b'u' ∷ b'd'
          ∷ b'g' ∷ b'e' ∷ b't' ∷ b' ' ∷ 194 ∷ 183 ∷ b' ' ∷ [])
        ++ show idle
        ++ (b' ' ∷ b'i' ∷ b'd' ∷ b'l' ∷ b'e' ∷ b' ' ∷ 226 ∷ 128 ∷ 148 ∷ b' ' ∷ b's' ∷ b'a' ∷ b'f'
            ∷ b'e' ∷ b' ' ∷ b't' ∷ b'o' ∷ b' ' ∷ b's' ∷ b't' ∷ b'a' ∷ b'r' ∷ b't' ∷ b' ' ∷ b'a'
            ∷ b'n' ∷ b'o' ∷ b't' ∷ b'h' ∷ b'e' ∷ b'r' ∷ [])
      else (b'P' ∷ b'l' ∷ b'e' ∷ b'n' ∷ b't' ∷ b'y' ∷ b' ' ∷ b'o' ∷ b'f' ∷ b' ' ∷ b'b' ∷ b'u' ∷ b'd'
          ∷ b'g' ∷ b'e' ∷ b't' ∷ b' ' ∷ 226 ∷ 128 ∷ 148 ∷ b' ' ∷ b's' ∷ b'a' ∷ b'f' ∷ b'e' ∷ b' '
          ∷ b't' ∷ b'o' ∷ b' ' ∷ b's' ∷ b't' ∷ b'a' ∷ b'r' ∷ b't' ∷ b' ' ∷ b'a' ∷ b'n' ∷ b'o' ∷ b't'
          ∷ b'h' ∷ b'e' ∷ b'r' ∷ [])

  verdict_of : List Bytes → F → ℕ → Verdict
  verdict_of (n ∷ ns) pct idle = record {
    status = throttle;
    message =
        join_names (n ∷ ns)
        ++ (b' ' ∷ b'w' ∷ b'i' ∷ b'l' ∷ b'l' ∷ b' ' ∷ b'c' ∷ b'a' ∷ b'p' ∷ b' ' ∷ b'o' ∷ b'u' ∷ b't'
            ∷ b' ' ∷ b'b' ∷ b'e' ∷ b'f' ∷ b'o' ∷ b'r' ∷ b'e' ∷ b' ' ∷ b'r' ∷ b'e' ∷ b's' ∷ b'e'
            ∷ b't' ∷ b' ' ∷ 226 ∷ 128 ∷ 148 ∷ b' ' ∷ b'h' ∷ b'o' ∷ b'l' ∷ b'd' ∷ b' ' ∷ b'o' ∷ b'f'
            ∷ b'f' ∷ b' ' ∷ b'o' ∷ b'n' ∷ b' ' ∷ b'n' ∷ b'e' ∷ b'w' ∷ b' ' ∷ b'w' ∷ b'o' ∷ b'r'
            ∷ b'k' ∷ []);
  }
  verdict_of [] pct idle =
      if real.less_than (real.milli 700) pct
      then record { status = pace; message = pace_message pct }
      else record { status = go; message = go_message idle }

  unfoldable pub capacity : UsageInfo F → UsageInfo F → ℕ → Verdict
  unfolding pace_message go_message verdict_of
  capacity claude codex idle = verdict_of (exhausting claude codex) (max_pct claude codex) idle
