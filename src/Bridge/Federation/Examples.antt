-- ===== src/Bridge/Federation/Examples.antt =====
-- bridge/src/federation.rs: single pushes.
use cydrust.Prelude.{ℕ, ◌≡◌, refl, ap, arith, get_or, ◌≢◌, false, none, [], ◌∷◌}
use cydrust.Proto.Model.{Bytes}
use cydrust.Proto.Same.{same_list}
use cydrust.Bridge.Map.{find, IsMap}
use cydrust.Bridge.Model.{working, SessionRow}
use cydrust.Bridge.Federation.{
  FedSession, FedPayload, Remote, with_node, merge, remote_row, from_row,
}
use cydrust.Bridge.Federation.Merge.{merge_own, merge_other, remote_row-from_row}

abbrev host_a : Bytes
host_a = b'a' ∷ []

abbrev host_b : Bytes
host_b = b'b' ∷ []

abbrev pushed : Bytes → FedSession
pushed id = record {
  id = id;
  tool = [];
  project = [];
  status = [];
  age_sec = 4;
  waiting = false;
  waiting_sec = none;
  summary = none;
}

-- the store holds session 1 of both hosts, and host a now has session 2 only
abbrev held : Remote ℕ
held =
    (with_node host_a (b'1' ∷ []), (pushed (b'1' ∷ []), 10))
    ∷ (with_node host_b (b'1' ∷ []), (pushed (b'1' ∷ []), 11))
    ∷ []

abbrev push_a : FedPayload
push_a = record { node = host_a; sessions = pushed (b'2' ∷ []) ∷ [] }

held-IsMap : IsMap held
unfolding find same_list
held-IsMap = (refl, (refl, tt))

hosts_differ : host_b ≢ host_a
hosts_differ e = let h : 98 ≡ 97 = ap (λ b. get_or b 0 0) e in omega (arith, h)

merge_own_example : find (merge push_a 20 held) (with_node host_a (b'1' ∷ [])) ≡ none
unfolding same_list
merge_own_example = merge_own push_a 20 held (b'1' ∷ []) held-IsMap

merge_other_example :
    find (merge push_a 20 held) (with_node host_b (b'1' ∷ []))
    ≡ find held (with_node host_b (b'1' ∷ []))
merge_other_example =
    merge_other push_a 20 held host_b (b'1' ∷ []) held-IsMap (refl, tt) (refl, tt) hosts_differ

abbrev local : SessionRow
local = record {
  id = b'7' ∷ [];
  tool = [];
  project = b'p' ∷ [];
  status = working;
  age_sec = 3;
  waiting = false;
  waiting_sec = none;
  summary = none;
}

remote_row-from_row_example :
    remote_row (λ s. s) (with_node host_a (from_row local).id) (from_row local)
    ≡ record local { project = with_node host_a (b'p' ∷ []) }
remote_row-from_row_example = remote_row-from_row (λ s. s) host_a local (refl, tt) refl refl refl
