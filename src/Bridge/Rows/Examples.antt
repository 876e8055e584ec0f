-- ===== src/Bridge/Rows/Examples.antt =====
-- bridge/src/hub.rs: the rows of a store with two sessions of one project.
use cydrust.Prelude.{
  ℕ, ◌≤◌, ◌≡◌, refl, true, ◌⊎◌, inl, inr, All, false, none, some, [], ◌∷◌, length,
}
use cydrust.Proto.Same.{same_list}
use cydrust.Bridge.Map.{find}
use cydrust.Bridge.Model.{Session, working, waiting}
use cydrust.Bridge.State.{Inner, snapshot}
use cydrust.Bridge.State.Examples.{millis, one, two, scanned}
use cydrust.Bridge.Rows.{
  Derived, status_rank, derive, derive_all, group_all, push_group, group_rows, group_row,
  representative, best_rank, status_of_rank, min_age, youngest, sort_rows, insert_row, cmp_row,
  cmp_bytes, derive_rows,
}
use cydrust.Bridge.Rows.Cut.{Any, Represents}
use cydrust.Bridge.Rows.Shown.{derive_rows-shown}
use cydrust.Bridge.Rows.Distinct.{key_of, AreDistinct, derive_rows-AreDistinct}
use cydrust.Bridge.Rows.Order.{IsOrdered, derive_rows-IsOrdered}

-- the older of the two waits
abbrev pair : Inner ℕ
pair = record {
  sessions =
      (one, record (scanned one 5000) { waiting = true; waiting_since = some 7000 })
      ∷ (two, scanned two 9000)
      ∷ [];
  last_scan = 9000;
}

one_row :
    derive_rows millis [] 10000 pair
    ≡ record {
      id = one;
      tool = [];
      project = [];
      status = waiting;
      age_sec = 1;
      waiting = true;
      waiting_sec = some 3;
      summary = none;
    }
      ∷ []
unfolding derive_rows snapshot derive_all derive group_all push_group same_list group_rows
    representative youngest group_row min_age best_rank status_of_rank sort_rows insert_row cmp_row
    cmp_bytes find
one_row = refl

derive_rows-IsOrdered_example :
    IsOrdered (derive_rows millis [] 10000 pair) × (length (derive_rows millis [] 10000 pair) ≤ 100)
derive_rows-IsOrdered_example = derive_rows-IsOrdered millis [] 10000 pair

derive_rows-AreDistinct_example : AreDistinct key_of (derive_rows millis [] 10000 pair)
derive_rows-AreDistinct_example = derive_rows-AreDistinct millis [] 10000 pair

abbrev worker : Session ℕ
worker = scanned two 9000

abbrev of_worker : Derived ℕ
of_worker = record {
  id = two;
  tool = [];
  project = [];
  status = working;
  age = 1000;
  waiting = false;
  waiting_sec = none;
}

worker_derived : derive millis 10000 worker ≡ some of_worker
unfolding derive
worker_derived = refl

worker_held : Any (λ x. x ≡ worker) (snapshot millis pair)
unfolding snapshot
worker_held = inr (inl refl)

derive_rows-shown_example :
    Any (Represents of_worker) (derive_rows millis [] 10000 pair)
    ⊎ ((length (derive_rows millis [] 10000 pair) ≡ 100)
        × All
            (λ r. status_rank r.status ≤ status_rank of_worker.status)
            (derive_rows millis [] 10000 pair))
derive_rows-shown_example =
    derive_rows-shown millis [] 10000 pair worker of_worker worker_held worker_derived
