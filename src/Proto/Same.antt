-- ===== src/Proto/Same.antt =====
-- firmware/src/proto.rs: the derived `PartialEq` of the data model. f32's own `==` is the
-- parameter `same_f`; it need not be reflexive.
use cydrust.Prelude.{Bool, true, false, ◌&&◌, List, [], ◌∷◌, ◌==◌}
use cydrust.Prelude.Int.{ℤ, pos, negsuc}
use cydrust.Proto.Model.{
  Bytes, SessionStatus, working, idle, waiting, SessionRow, Usage, ModelRow, Metrics, DisplayState,
}

abbrev pub same_bool : Bool → Bool → Bool
same_bool true b = b
same_bool false true = false
same_bool false false = true

unfoldable pub same_list : {A : Type 0} → (A → A → Bool) → List A → List A → Bool
same_list same [] [] = true
same_list same (x ∷ xs) (y ∷ ys) = same x y && same_list same xs ys
same_list same _ _ = false

abbrev pub same_bytes : Bytes → Bytes → Bool
same_bytes = same_list ◌==◌

abbrev pub same_int : ℤ → ℤ → Bool
same_int (pos m) (pos n) = m == n
same_int (negsuc m) (negsuc n) = m == n
same_int _ _ = false

abbrev pub same_status : SessionStatus → SessionStatus → Bool
same_status working working = true
same_status idle idle = true
same_status waiting waiting = true
same_status _ _ = false

unfoldable pub same_row : SessionRow → SessionRow → Bool
same_row a b =
    same_bytes a.project b.project
    && same_status a.status b.status
    && same_bytes a.tool b.tool
    && same_bytes a.id b.id
    && same_int a.age_sec b.age_sec
    && same_int a.wait_sec b.wait_sec
    && same_bytes a.summary b.summary

module _ {F : Type 0} (same_f : F → F → Bool) where
  unfoldable pub same_usage : Usage F → Usage F → Bool
  same_usage a b =
      same_bool a.ok b.ok
      && same_f a.pct b.pct
      && a.reset_sec == b.reset_sec
      && same_f a.week_pct b.week_pct
      && same_int a.week_reset_sec b.week_reset_sec
      && same_bool a.will_exhaust b.will_exhaust
      && same_f a.burn_per_hr b.burn_per_hr
      && same_f a.leftover_pct b.leftover_pct
      && same_bytes a.eta_clock b.eta_clock

  unfoldable pub same_model : ModelRow F → ModelRow F → Bool
  same_model a b =
      same_bytes a.provider b.provider
      && same_bytes a.model b.model
      && same_f a.tokens b.tokens
      && same_f a.usd b.usd
      && same_bool a.has_usd b.has_usd

  unfoldable pub same_metrics : Metrics F → Metrics F → Bool
  same_metrics a b =
      same_list same_model a.models b.models
      && same_f a.total_tokens b.total_tokens
      && same_f a.total_usd b.total_usd
      && same_bool a.has_usd b.has_usd
      && same_bool a.usd_complete b.usd_complete
      && same_int a.total_sessions b.total_sessions
      && a.dropped_models == b.dropped_models

  unfoldable pub same_state : DisplayState F → DisplayState F → Bool
  same_state a b =
      same_list same_row a.sessions b.sessions
      && same_usage a.claude b.claude
      && same_usage a.codex b.codex
      && same_metrics a.metrics b.metrics
      && same_bool a.offline b.offline
      && a.dropped_sessions == b.dropped_sessions
