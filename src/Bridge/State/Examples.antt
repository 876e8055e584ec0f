-- ===== src/Bridge/State/Examples.antt =====
-- bridge/src/state.rs: a session that is scanned, marked and acknowledged.
use cydrust.Prelude.{
  ◌^◌, ◌/◌, min, ℕ, ◌+◌, ◌-◌, ◌≡◌, refl, max, true, false, none, some, List, [], ◌∷◌, leb, ltb,
}
use cydrust.Proto.Model.{Bytes}
use cydrust.Proto.Same.{same_list, same_bytes}
use cydrust.Bridge.Map.{find, IsMap}
use cydrust.Bridge.Model.{Float, Session}
use cydrust.Bridge.State.{Inner, Op, upsert_op, mark_op, ack_op, new_store, apply_ops}
use cydrust.Bridge.State.Single.{live_through, apply_ops-live_through}
use cydrust.Bridge.State.Alarm.{Coherent}

-- times as thousandths
abbrev pub millis : Float ℕ
millis = record {
  milli = λ n. n;
  add = ◌+◌;
  sub = ◌-◌;
  max = max;
  min = min;
  le = leb;
  lt = ltb;
  infinity = 2 ^ 60;
  to_u64 = λ n. n / 1000;
}

abbrev pub one : Bytes
one = b'1' ∷ []

abbrev pub two : Bytes
two = b'2' ∷ []

abbrev pub scanned : Bytes → ℕ → Session ℕ
scanned id time = record {
  id = id;
  tool = [];
  project = [];
  last_activity = time;
  waiting = false;
  waiting_since = none;
  active_turn = true;
}

abbrev calls : List (Op ℕ)
calls = upsert_op (scanned one 5) 6 ∷ mark_op one 7 ∷ ack_op two ∷ upsert_op (scanned one 9) 9 ∷ []

apply_ops-live_through_example :
    (find (apply_ops millis calls (new_store millis)).sessions one
      ≡ live_through millis one calls (find (new_store millis).sessions one))
    × IsMap (apply_ops millis calls (new_store millis)).sessions
apply_ops-live_through_example = apply_ops-live_through millis calls (new_store millis) one tt

abbrev pub holding : Inner ℕ
holding = record { sessions = (one, scanned one 5) ∷ []; last_scan = 6 }

holding-IsMap : IsMap holding.sessions
unfolding find
holding-IsMap = (refl, tt)

holds_one : find holding.sessions one ≡ some (scanned one 5)
unfolding find same_list
holds_one = refl

pub two_is_other : same_bytes two one ≡ false
unfolding same_list
two_is_other = refl

new_store-Coherent : Coherent (find (new_store millis).sessions one)
unfolding find
new_store-Coherent = tt
