-- ===== src/Bridge/Model.antt =====
-- bridge/src/model.rs: sessions and rows, and the f64 operations that the bridge uses.
use cydrust.Prelude.{ℕ, Bool, Option}
use cydrust.Proto.Model.{Bytes}

-- f64 with its operations; `milli n` is the literal of `n` thousandths
pub record Float (F : Type 0) : Type 0 where
  pub milli : ℕ → F
  pub add : F → F → F
  pub sub : F → F → F
  pub max : F → F → F
  pub min : F → F → F
  pub le : F → F → Bool
  pub lt : F → F → Bool
  pub infinity : F
  -- `as u64`
  pub to_u64 : F → ℕ

pub data Status : Type 0 where
  working idle waiting : Status

pub record Session (F : Type 0) : Type 0 where
  pub id : Bytes
  pub tool : Bytes
  pub project : Bytes
  pub last_activity : F
  pub waiting : Bool
  pub waiting_since : Option F
  pub active_turn : Bool

pub record SessionRow : Type 0 where
  pub id : Bytes
  pub tool : Bytes
  pub project : Bytes
  pub status : Status
  pub age_sec : ℕ  -- u64
  pub waiting : Bool
  pub waiting_sec : Option ℕ  -- u64
  pub summary : Option Bytes
