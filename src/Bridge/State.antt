-- ===== src/Bridge/State.antt =====
-- bridge/src/state.rs: the store of live sessions. A call holds the lock throughout, so the
-- threads' calls form one sequence of `Op`s; `now` is what the clock says to the call.
pub mod Single
pub mod Alarm
pub mod Examples
use cydrust.Prelude.{ℕ, Bool, true, false, Option, none, some, List, [], ◌∷◌, map, if◌then◌else◌}
use cydrust.Proto.Model.{Bytes}
use cydrust.Bridge.Map.{Map, find, insert, modify, retain}
use cydrust.Bridge.Model.{Float, Session}

pub record Inner (F : Type 0) : Type 0 where
  pub sessions : Map (Session F)
  pub last_scan : F

pub data Op (F : Type 0) : Type 0 where
  upsert_op : Session F → F → Op F
  mark_op : Bytes → F → Op F
  ack_op : Bytes → Op F
  remove_gone_op : F → F → Op F

module _ {F : Type 0} (f : Float F) where
  abbrev pub epsilon : F
  epsilon = f.milli 1

  abbrev pub new_store : Inner F
  new_store = record { sessions = []; last_scan = f.milli 0 }

  -- what `upsert` writes to the entry `existing`
  abbrev pub refreshed : Session F → Session F → Session F
  refreshed session existing = record existing {
    last_activity = f.max existing.last_activity session.last_activity;
    project = session.project;
    tool = session.tool;
    active_turn = session.active_turn;
  }

  -- `entry(k).or_insert_with(|| v)`
  or_insert : Map (Session F) → Bytes → Session F → Map (Session F)
  or_insert m k v = elim (find m k) [ none ↦ insert m k v | some _ ↦ m ]

  unfoldable pub upsert : Session F → F → Inner F → Inner F
  unfolding or_insert
  upsert session now g = record {
    sessions = modify (or_insert g.sessions session.id session) session.id (refreshed session);
    last_scan = now;
  }

  unfoldable pub mark_waiting : Bytes → F → Inner F → Inner F
  mark_waiting id ts g = record g {
    sessions = modify g.sessions id (λ s. record s { waiting = true; waiting_since = some ts });
  }

  unfoldable pub ack : Bytes → Inner F → Inner F
  ack id g = record g {
    sessions = modify g.sessions id (λ s. record s { waiting = false; waiting_since = none });
  }

  -- `values().cloned().collect()`
  unfoldable pub snapshot : Inner F → List (Session F)
  snapshot g = map (λ e. e.1) g.sessions

  -- whether a session is not older than `gone_ttl` at `now`
  abbrev pub is_live : F → F → Session F → Bool
  is_live now gone_ttl s = f.le (f.sub now s.last_activity) (f.add gone_ttl epsilon)

  unfoldable pub remove_gone : F → F → Inner F → Inner F
  remove_gone now gone_ttl g = record g {
    sessions = retain (λ _ s. is_live now gone_ttl s) g.sessions;
  }

  unfoldable pub apply : Op F → Inner F → Inner F
  apply (upsert_op s now) g = upsert s now g
  apply (mark_op id ts) g = mark_waiting id ts g
  apply (ack_op id) g = ack id g
  apply (remove_gone_op now ttl) g = remove_gone now ttl g

  abbrev pub apply_ops : List (Op F) → Inner F → Inner F
  apply_ops [] g = g
  apply_ops (o ∷ os) g = apply_ops os (apply o g)
