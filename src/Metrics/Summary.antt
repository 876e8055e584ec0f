-- ===== src/Metrics/Summary.antt =====
-- bridge/src/metrics.rs: `local_midnight` and `summarize_metrics`; model.rs: `Totals` and `Metrics`.
-- chrono's local time is a parameter.
pub mod Complete
use cydrust.Prelude.{
  ℕ, ◌+◌, ◌*◌, Bool, true, false, ◌&&◌, Option, none, some, List, [], ◌∷◌, if◌then◌else◌, map,
  length, any, ltb,
}
use cydrust.Proto.Model.{Bytes}
use cydrust.Tree.{Tree, entry}
use cydrust.Metrics.Number.{Real, is_positive, sum_from, round4}
use cydrust.Metrics.Build.{ProviderMetric}

pub record Totals (F : Type 0) : Type 0 where
  pub tokens : ℕ
  pub usd : Option F
  pub sessions : ℕ
  pub providers_active : ℕ

pub record Metrics (F : Type 0) : Type 0 where
  pub providers : Tree (ProviderMetric F)
  pub totals : Totals F
  pub usd_complete : Bool

module _ {F : Type 0} (real : Real F) (local_time : F → Option (ℕ × ℕ × ℕ)) where
  -- a whole number of seconds
  whole : ℕ → F
  whole n = real.milli (1000 * n)

  unfoldable pub local_midnight : F → F
  unfolding whole
  local_midnight now = elim (local_time now) [
    | none ↦ now
    | some (h, m, s) ↦ real.minus now (
        real.plus (real.plus (real.times (whole h) (whole 3600)) (real.times (whole m) (whole 60)))
          (whole s))
  ]

module _ {F : Type 0} where
  -- the map with its four providers
  unfoldable pub providers_of :
      ProviderMetric F
      → ProviderMetric F
      → ProviderMetric F
      → ProviderMetric F
      → Tree (ProviderMetric F)
  providers_of claude codex opencode hermes =
      entry (b'h' ∷ b'e' ∷ b'r' ∷ b'm' ∷ b'e' ∷ b's' ∷ []) hermes (λ m. hermes)
        (entry (b'o' ∷ b'p' ∷ b'e' ∷ b'n' ∷ b'c' ∷ b'o' ∷ b'd' ∷ b'e' ∷ []) opencode (λ m. opencode)
          (entry (b'c' ∷ b'o' ∷ b'd' ∷ b'e' ∷ b'x' ∷ []) codex (λ m. codex)
            (entry (b'c' ∷ b'l' ∷ b'a' ∷ b'u' ∷ b'd' ∷ b'e' ∷ []) claude (λ m. claude) [])))

  -- the costs of the providers with tokens
  unfoldable pub usd_vals : Tree (ProviderMetric F) → List (Option F)
  usd_vals [] = []
  usd_vals ((name, p) ∷ t) =
      let rest = usd_vals t in if is_positive p.tokens then p.usd ∷ rest else rest

  abbrev pub is_some : Option F → Bool
  is_some none = false
  is_some (some u) = true

  -- `iter().all(|v| v.is_some())`
  unfoldable pub all_some : List (Option F) → Bool
  all_some [] = true
  all_some (v ∷ vs) = is_some v && all_some vs

module _ {F : Type 0} (real : Real F) where
  abbrev or_zero : Option F → F
  or_zero none = real.milli 0
  or_zero (some u) = u

  unfoldable pub total_usd : List (Option F) → Option F
  total_usd vals =
      if any is_some vals then some (round4 real (real.sum (map or_zero vals))) else none

  unfoldable pub summarize : Tree (ProviderMetric F) → Metrics F
  summarize providers = record {
    providers = providers;
    totals = record {
      tokens = sum_from 0 (map (λ e. e.1.tokens) providers);
      usd = total_usd (usd_vals providers);
      sessions = sum_from 0 (map (λ e. e.1.sessions) providers);
      providers_active = length (usd_vals providers);
    };
    usd_complete = ltb 0 (length (usd_vals providers)) && all_some (usd_vals providers);
  }
