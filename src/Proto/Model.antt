-- ===== src/Proto/Model.antt =====
-- firmware/src/proto.rs: the data model. A text is the list of its UTF-8 bytes; `F` stands for f32.
use cydrust.Prelude.{ℕ, Bool, List}
use cydrust.Prelude.Int.{ℤ}

abbrev pub Bytes : Type 0
Bytes = List ℕ

abbrev pub max_sessions : ℕ
max_sessions = 8

abbrev pub max_models : ℕ
max_models = 6

pub data SessionStatus : Type 0 where
  working idle waiting : SessionStatus

pub record SessionRow : Type 0 where
  pub project : Bytes
  pub status : SessionStatus
  pub tool : Bytes
  pub id : Bytes
  pub age_sec : ℤ
  pub wait_sec : ℤ
  pub summary : Bytes

pub record Usage (F : Type 0) : Type 0 where
  pub ok : Bool
  pub pct : F
  pub reset_sec : ℕ
  pub week_pct : F
  pub week_reset_sec : ℤ
  pub will_exhaust : Bool
  pub burn_per_hr : F
  pub leftover_pct : F
  pub eta_clock : Bytes

pub record ModelRow (F : Type 0) : Type 0 where
  pub provider : Bytes
  pub model : Bytes
  pub tokens : F
  pub usd : F
  pub has_usd : Bool

pub record Metrics (F : Type 0) : Type 0 where
  pub models : List (ModelRow F)
  pub total_tokens : F
  pub total_usd : F
  pub has_usd : Bool
  pub usd_complete : Bool
  pub total_sessions : ℤ
  pub dropped_models : ℕ

pub record DisplayState (F : Type 0) : Type 0 where
  pub sessions : List SessionRow
  pub claude : Usage F
  pub codex : Usage F
  pub metrics : Metrics F
  pub offline : Bool
  pub dropped_sessions : ℕ
