-- ===== src/Ota.antt =====
-- firmware/src/ota.rs: `check_and_update`, with what the partition, the server and the flash answer as
-- arguments. `fetch` stands for the reading of an image's version from its first bytes.
pub mod Fresh
pub mod Written
mod Examples
use cydrust.Prelude.{
  ℕ, ◌+◌, Bool, true, false, not, ◌&&◌, Option, none, some, List, [], ◌∷◌, ◌++◌, if◌then◌else◌, ltb,
  ◌==◌, length,
}
use cydrust.Proto.Model.{Bytes}
use cydrust.Proto.Same.{same_bytes}
use cydrust.Strings.{is_nil}

pub data Failure : Type 0 where
  no_partition no_connection no_request no_response no_slot empty invalid : Failure
  bad_status read_failed write_failed : ℕ → Failure

pub data Outcome : Type 0 where
  activated up_to_date : Outcome
  failed : Failure → Outcome

-- the calls on the update; a drop of it before `complete` aborts it
pub data Flash : Type 0 where
  begin abort complete : Flash
  write : Bytes → Flash

-- what `EspFirmwareInfoLoad::fetch` says
pub data Info : Type 0 where
  version : Bytes → Info
  more unreadable : Info

-- a read of the response, none where it fails, and whether the flash takes what it gives
abbrev pub Read : Type 0
Read = Option Bytes × Bool

-- what answers; each Boolean is whether the call succeeds
pub record World : Type 0 where
  pub partition : Bool
  pub running : Option Bytes
  pub connects : Bool
  pub requests : Bool
  pub status : Option ℕ
  pub slot : Bool
  pub reads : List Read
  pub valid : Bool

-- the variables of the loop
pub record Progress : Type 0 where
  pub header : Bytes
  pub version_checked : Bool
  pub total : ℕ

abbrev pub max_header : ℕ
max_header = 8192

-- the same version is served as runs
unfoldable pub is_current : Option Bytes → Bytes → Bool
is_current none ver = false
is_current (some cur) ver = same_bytes cur ver && not (is_nil cur)

-- the safety valve
unfoldable pub valve : Progress → Progress
valve p =
    if ltb max_header (length p.header) then record p { version_checked = true; header = [] } else p

module _ (fetch : Bytes → Info) (running : Option Bytes) where
  -- what the version says; nothing where the download is to stop
  unfoldable pub checked : Info → Progress → Option Progress
  checked (version ver) p =
      if is_current running ver
      then none
      else some (valve (record p { version_checked = true; header = [] }))
  checked more p = some (valve p)
  checked unreadable p = some (valve p)

  -- the peek at a chunk
  unfoldable pub peek : Bytes → Progress → Option Progress
  peek chunk p =
      if p.version_checked
      then some p
      else checked (fetch (p.header ++ chunk)) (record p { header = p.header ++ chunk })

  -- after the loop
  unfoldable pub finish : Bool → ℕ → List Flash × Outcome
  finish valid total =
      if total == 0
      then (abort ∷ [], failed empty)
      else (complete ∷ [], if valid then activated else failed invalid)

  abbrev pub after_write : Bytes → List Flash × Outcome → List Flash × Outcome
  after_write chunk (calls, outcome) = (write chunk ∷ calls, outcome)

  -- the loop over the reads; where they are at an end, a read gives no bytes
  unfoldable pub download : Bool → List Read → Progress → List Flash × Outcome
  download valid [] p = finish valid p.total
  download valid ((none, taken) ∷ reads) p = (abort ∷ [], failed (read_failed p.total))
  download valid ((some [], taken) ∷ reads) p = finish valid p.total
  download valid ((some (c ∷ cs), taken) ∷ reads) p = elim (peek (c ∷ cs) p) [
    | none ↦ (abort ∷ [], up_to_date)
    | some q ↦ elim taken [
      | false ↦ (write (c ∷ cs) ∷ abort ∷ [], failed (write_failed p.total))
      | true ↦
          after_write (c ∷ cs)
            (download valid reads (record q { total = p.total + length (c ∷ cs) }))
    ]
  ]

abbrev pub no_progress : Progress
no_progress = record { header = []; version_checked = false; total = 0 }

abbrev pub after_begin : List Flash × Outcome → List Flash × Outcome
after_begin (calls, outcome) = (begin ∷ calls, outcome)

module _ (fetch : Bytes → Info) where
  -- from the status of the response on
  unfoldable pub update : World → Option ℕ → List Flash × Outcome
  update w none = ([], failed no_response)
  update w (some status) =
      if not (status == 200)
      then ([], failed (bad_status status))
      else if not w.slot
      then ([], failed no_slot)
      else after_begin (download fetch w.running w.valid w.reads no_progress)

  unfoldable pub check_and_update : World → List Flash × Outcome
  check_and_update w =
      if not w.partition
      then ([], failed no_partition)
      else if not w.connects
      then ([], failed no_connection)
      else if not w.requests
      then ([], failed no_request)
      else update w w.status
