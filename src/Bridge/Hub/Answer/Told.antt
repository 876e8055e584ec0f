-- ===== src/Bridge/Hub/Answer/Told.antt =====
-- bridge/src/hub.rs: the counts of the local sessions, and what an answer of `/state` holds.
use cydrust.Prelude.{
  ℕ, ◌+◌, ◌≡◌, refl, Bool, true, false, List, [], ◌∷◌, arith, filter, length, length-append,
  if◌then◌else◌, ap,
}
use cydrust.Proto.Model.{Bytes}
use cydrust.Bridge.Model.{Float, Status, working, idle, waiting, SessionRow}
use cydrust.Bridge.Rows.{derive_rows}
use cydrust.Bridge.Federation.{rows}
use cydrust.Bridge.Hub.{App}
use cydrust.Bridge.Hub.Answer.{Shared, Counts, count_row, count_from, count_statuses, state_handler}
use cydrust.Metrics.Number.{Real}
use cydrust.Usage.Capacity.{capacity}

abbrev pub is_working : Status → Bool
is_working working = true
is_working idle = false
is_working waiting = false

abbrev pub is_waiting : Status → Bool
is_waiting working = false
is_waiting idle = false
is_waiting waiting = true

abbrev pub is_idle : Status → Bool
is_idle working = false
is_idle idle = true
is_idle waiting = false

-- how many rows have a status of a kind
abbrev pub rows_with : (Status → Bool) → List SessionRow → ℕ
rows_with kind rs = length (filter (λ r. kind r.status) rs)

-- one for a status of the kind
abbrev one_if : Bool → ℕ
one_if b = if b then 1 else 0

rows_with-first :
    (kind : Status → Bool) (r : SessionRow) (rs : List SessionRow)
    → rows_with kind (r ∷ rs) ≡ one_if (kind r.status) + rows_with kind rs
rows_with-first kind r rs = ground arith

-- the three counts are those of the rows, added to what was counted before
abbrev Adds : Counts → List SessionRow → Counts → Type 0
Adds c rs d =
    (d.working ≡ c.working + rows_with is_working rs)
    × (d.waiting ≡ c.waiting + rows_with is_waiting rs)
    × (d.idle ≡ c.idle + rows_with is_idle rs)

-- a row adds one to the count of its status
abbrev AddsOne : Counts → Status → Counts → Type 0
AddsOne c s d =
    (d.working ≡ c.working + one_if (is_working s))
    × (d.waiting ≡ c.waiting + one_if (is_waiting s))
    × (d.idle ≡ c.idle + one_if (is_idle s))

count_row-AddsOne : (c : Counts) (s : Status) → AddsOne c s (count_row s c)
unfolding count_row
count_row-AddsOne c working = (refl, omega arith, omega arith)
count_row-AddsOne c waiting = (omega arith, refl, omega arith)
count_row-AddsOne c idle = (omega arith, omega arith, refl)

count_from-Adds : (c : Counts) (rs : List SessionRow) → Adds c rs (count_from c rs)
unfolding count_from
count_from-Adds c [] = (omega arith, omega arith, omega arith)
count_from-Adds c (r ∷ rs) =
    let (a, b, d) = count_from-Adds (count_row r.status c) rs in
    let (x, y, z) = count_row-AddsOne c r.status in
    (
      omega (arith, a, x, rows_with-first is_working r rs),
      omega (arith, b, y, rows_with-first is_waiting r rs),
      omega (arith, d, z, rows_with-first is_idle r rs),
    )

module _ {F : Type 0} (f : Float F) (real : Real F) (show_int show : ℕ → Bytes)
    (trim : Bytes → Bytes) where
  -- The three counts are the numbers of the local rows of each status; the verdict of an answer of
  -- `/state` is the one for the number of the local idle rows; and it lists as many sessions as
  -- there are local and remote rows.
  pub state_handler-counts :
      (now : F) (shared : Shared F) (app : App F)
      → ((count_statuses (derive_rows f shared.titles now app.store)).working
          ≡ rows_with is_working (derive_rows f shared.titles now app.store))
        × ((count_statuses (derive_rows f shared.titles now app.store)).waiting
            ≡ rows_with is_waiting (derive_rows f shared.titles now app.store))
        × ((count_statuses (derive_rows f shared.titles now app.store)).idle
            ≡ rows_with is_idle (derive_rows f shared.titles now app.store))
        × ((state_handler f real show_int show trim now shared app).0.capacity
            ≡ capacity real show_int show shared.claude_usage shared.codex_usage
                (rows_with is_idle (derive_rows f shared.titles now app.store)))
        × (length (state_handler f real show_int show trim now shared app).0.sessions
            ≡ length (derive_rows f shared.titles now app.store)
              + length (rows f trim now (f.milli 30000) app.remote).0)
  unfolding count_statuses state_handler
  state_handler-counts now shared app =
      let local = derive_rows f shared.titles now app.store in
      let none_yet : Counts = record { working = 0; waiting = 0; idle = 0 } in
      let (a, b, c) = count_from-Adds none_yet local in
      let idle_rows : (count_from none_yet local).idle ≡ rows_with is_idle local =
        omega (arith, c) in
      (
        omega (arith, a),
        omega (arith, b),
        idle_rows,
        ap (capacity real show_int show shared.claude_usage shared.codex_usage) idle_rows,
        length-append local (rows f trim now (f.milli 30000) app.remote).0,
      )
