-- ===== src/Bridge/Rows.antt =====
-- bridge/src/hub.rs: `derive_rows`, from the live sessions to the rows that are shown. The groups
-- are a list in the order in which the map would give them, which is not specified.
pub mod Order
pub mod Group
pub mod Cut
pub mod Shown
pub mod Distinct
mod Examples
use Prim.Native.Nat.{compare, Ordering}
use cydrust.Prelude.{
  ℕ, zero, suc, Bool, true, false, not, ◌&&◌, ◌||◌, Option, none, some, List, [], ◌∷◌,
  if◌then◌else◌, any, filter, take, min, max,
}
use cydrust.Proto.Model.{Bytes}
use cydrust.Proto.Same.{same_bytes}
use cydrust.Bridge.Map.{Map, find}
use cydrust.Bridge.Model.{Float, Status, working, idle, waiting, Session, SessionRow}
use cydrust.Bridge.State.{Inner, snapshot}

abbrev pub max_sessions : ℕ
max_sessions = 100

abbrev pub status_rank : Status → ℕ
status_rank waiting = 0
status_rank working = 1
status_rank idle = 2

pub record Derived (F : Type 0) : Type 0 where
  pub id : Bytes
  pub tool : Bytes
  pub project : Bytes
  pub status : Status
  pub age : F
  pub waiting : Bool
  pub waiting_sec : Option ℕ

abbrev pub Groups : Type 0 → Type 0
Groups F = List ((Bytes × Bytes) × List (Derived F))

-- `compare` of two strings, which goes by their bytes
unfoldable pub cmp_bytes : Bytes → Bytes → Ordering
cmp_bytes [] [] = Ordering.eq
cmp_bytes [] (y ∷ b) = Ordering.lt
cmp_bytes (x ∷ a) [] = Ordering.gt
cmp_bytes (x ∷ a) (y ∷ b) =
    let rest = cmp_bytes a b in
    elim (compare x y) [
      | Ordering.lt ↦ Ordering.lt
      | Ordering.gt ↦ Ordering.gt
      | Ordering.eq ↦ rest
    ]

-- `Ordering::then`
abbrev pub and_then : Ordering → Ordering → Ordering
and_then Ordering.eq o = o
and_then Ordering.lt o = Ordering.lt
and_then Ordering.gt o = Ordering.gt

unfoldable pub cmp_row : SessionRow → SessionRow → Ordering
cmp_row a b =
    and_then
      (and_then
        (and_then (compare (status_rank a.status) (status_rank b.status))
          (compare a.age_sec b.age_sec))
        (cmp_bytes a.tool b.tool))
      (cmp_bytes a.project b.project)

-- `sort_by` is stable, and so is this insertion: a row goes before the first that is not less
unfoldable pub insert_row : SessionRow → List SessionRow → List SessionRow
insert_row x [] = x ∷ []
insert_row x (y ∷ ys) =
    let rest = insert_row x ys in
    elim (cmp_row x y) [
      | Ordering.gt ↦ y ∷ rest
      | Ordering.lt ↦ x ∷ y ∷ ys
      | Ordering.eq ↦ x ∷ y ∷ ys
    ]

unfoldable pub sort_rows : List SessionRow → List SessionRow
sort_rows [] = []
sort_rows (x ∷ xs) = insert_row x (sort_rows xs)

-- `filter_map(|d| d.waiting_sec).max()`
max_some : List (Option ℕ) → Option ℕ
max_some [] = none
max_some (none ∷ os) = max_some os
max_some (some n ∷ os) = elim (max_some os) [ none ↦ some n | some m ↦ some (max n m) ]

-- `iter().map(status_rank).min().unwrap_or(2)`; no rank is above 2
unfoldable pub best_rank : {F : Type 0} → List (Derived F) → ℕ
best_rank [] = 2
best_rank (d ∷ ds) = min (status_rank d.status) (best_rank ds)

unfoldable pub status_of_rank : ℕ → Status
status_of_rank zero = waiting
status_of_rank (suc zero) = working
status_of_rank _ = idle

-- a round of a loop that pushes a value or continues
abbrev pub push_some {ℓ} : {A : Type ℓ} → Option A → List A → List A
push_some none rest = rest
push_some (some a) rest = a ∷ rest

module _ {F : Type 0} (f : Float F) where
  -- the body of the first loop; `none` is its `continue`
  unfoldable pub derive : F → Session F → Option (Derived F)
  derive now s =
      let age = f.sub now s.last_activity in
      let status =
        if s.waiting
        then waiting
        else if s.active_turn || f.lt age (f.milli 60000)
        then working
        else idle in
      let since : Option ℕ = elim s.waiting_since [
        | none ↦ none
        | some ws ↦ some (f.to_u64 (f.max (f.sub now ws) (f.milli 0)))
      ] in
      if f.lt (f.milli 14400000) age
      then none
      else some (record {
        id = s.id;
        tool = s.tool;
        project = s.project;
        status = status;
        age = age;
        waiting = s.waiting;
        waiting_sec = if s.waiting then since else none;
      })

  unfoldable pub derive_all : F → List (Session F) → List (Derived F)
  derive_all now [] = []
  derive_all now (s ∷ ss) = push_some (derive now s) (derive_all now ss)

  append_to : List (Derived F) → Derived F → List (Derived F)
  append_to [] d = d ∷ []
  append_to (x ∷ xs) d = x ∷ append_to xs d

  -- `entry(key).or_default().push(d)`
  unfoldable pub push_group : Groups F → Derived F → Groups F
  unfolding append_to
  push_group [] d = ((d.tool, d.project), d ∷ []) ∷ []
  push_group ((k, ds) ∷ gs) d =
      let rest = push_group gs d in
      if same_bytes k.0 d.tool && same_bytes k.1 d.project
      then (k, append_to ds d) ∷ gs
      else (k, ds) ∷ rest

  unfoldable pub group_all : Groups F → List (Derived F) → Groups F
  group_all gs [] = gs
  group_all gs (d ∷ ds) = group_all (push_group gs d) ds

  -- `min_by` on the ages: a later one wins only where it is less
  unfoldable pub youngest : Derived F → List (Derived F) → Derived F
  youngest best [] = best
  youngest best (d ∷ ds) =
      let kept = youngest best ds in
      let taken = youngest d ds in if f.lt d.age best.age then taken else kept

  min_by_age : List (Derived F) → Option (Derived F)
  min_by_age [] = none
  min_by_age (d ∷ ds) = some (youngest d ds)

  unfoldable pub representative : List (Derived F) → Option (Derived F)
  unfolding min_by_age
  representative grp = elim (min_by_age (filter (λ d. d.waiting) grp)) [
    | some d ↦ some d
    | none ↦ min_by_age grp
  ]

  unfoldable pub min_age : F → List (Derived F) → F
  min_age a [] = a
  min_age a (d ∷ ds) = min_age (f.min a d.age) ds

  waiting_secs : List (Derived F) → List (Option ℕ)
  waiting_secs [] = []
  waiting_secs (d ∷ ds) = d.waiting_sec ∷ waiting_secs ds

  -- the row of a group with its representative
  unfoldable pub group_row : Map Bytes → Bytes × Bytes → List (Derived F) → Derived F → SessionRow
  unfolding waiting_secs max_some
  group_row titles key grp rep = record {
    id = rep.id;
    tool = key.0;
    project = key.1;
    status = status_of_rank (best_rank grp);
    age_sec = f.to_u64 (f.max (min_age f.infinity grp) (f.milli 0));
    waiting = any (λ d. d.waiting) grp;
    waiting_sec = max_some (waiting_secs grp);
    summary = find titles rep.id;
  }

  with_representative :
      Map Bytes → Bytes × Bytes → List (Derived F) → Option (Derived F) → Option SessionRow
  with_representative titles key grp none = none
  with_representative titles key grp (some rep) = some (group_row titles key grp rep)

  -- the second loop; a group without a representative is skipped
  unfoldable pub group_rows : Map Bytes → Groups F → List SessionRow
  unfolding with_representative
  group_rows titles [] = []
  group_rows titles ((key, grp) ∷ gs) =
      push_some (with_representative titles key grp (representative grp)) (group_rows titles gs)

  unfoldable pub derive_rows : Map Bytes → F → Inner F → List SessionRow
  derive_rows titles now store =
      take max_sessions
        (sort_rows (group_rows titles (group_all [] (derive_all now (snapshot f store)))))
