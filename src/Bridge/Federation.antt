-- ===== src/Bridge/Federation.antt =====
-- bridge/src/federation.rs: the sessions that other machines push. The network calls and the
-- machine's host name are left out.
pub mod Merge
pub mod Node
mod Examples
use cydrust.Prelude.{
  ℕ, zero, suc, ◌+◌, Bool, true, false, not, ◌&&◌, ◌||◌, Option, none, some, List, [], ◌∷◌, ◌++◌,
  map, if◌then◌else◌, ◌==◌, leb, take, any,
}
use cydrust.Proto.Model.{Bytes}
use cydrust.Proto.Same.{same_bytes}
use cydrust.Bridge.Map.{Map, insert, retain}
use cydrust.Bridge.Model.{Float, Status, working, idle, waiting, SessionRow}

pub record FedSession : Type 0 where
  pub id : Bytes
  pub tool : Bytes
  pub project : Bytes
  pub status : Bytes
  pub age_sec : ℕ  -- u64
  pub waiting : Bool
  pub waiting_sec : Option ℕ
  pub summary : Option Bytes

pub record FedPayload : Type 0 where
  pub node : Bytes
  pub sessions : List FedSession

abbrev pub working_str : Bytes
working_str = b'w' ∷ b'o' ∷ b'r' ∷ b'k' ∷ b'i' ∷ b'n' ∷ b'g' ∷ []

abbrev pub idle_str : Bytes
idle_str = b'i' ∷ b'd' ∷ b'l' ∷ b'e' ∷ []

abbrev pub waiting_str : Bytes
waiting_str = b'w' ∷ b'a' ∷ b'i' ∷ b't' ∷ b'i' ∷ b'n' ∷ b'g' ∷ []

unfoldable pub status_to_str : Status → Bytes
status_to_str working = working_str
status_to_str idle = idle_str
status_to_str waiting = waiting_str

-- `to_ascii_lowercase` of a byte
lower : ℕ → ℕ
lower c = if leb 65 c && leb c 90 then c + 32 else c

-- `trim` removes what Unicode calls white space; of it only the part in ASCII is a single byte
-- here, which is what a peer's status can hold where it is to be understood
unfoldable pub status_from_str : (Bytes → Bytes) → Bytes → Status
unfolding lower
status_from_str trim s =
    let t = map lower (trim s) in
    if same_bytes t working_str then working else if same_bytes t waiting_str then waiting else idle

unfoldable pub from_row : SessionRow → FedSession
from_row row = record {
  id = row.id;
  tool = row.tool;
  project = row.project;
  status = status_to_str row.status;
  age_sec = row.age_sec;
  waiting = row.waiting;
  waiting_sec = row.waiting_sec;
  summary = row.summary;
}

unfoldable pub from_session_rows : List SessionRow → Bytes → FedPayload
from_session_rows rows node = record { node = node; sessions = map from_row rows }

abbrev pub slash : ℕ
slash = b'/'

-- `format!("{node}/{id}")`
abbrev pub with_node : Bytes → Bytes → Bytes
with_node node id = node ++ slash ∷ id

unfoldable pub starts_with : Bytes → Bytes → Bool
starts_with k [] = true
starts_with [] (p ∷ ps) = false
starts_with (c ∷ k) (p ∷ ps) = c == p && starts_with k ps

-- `split('/').next()`: what stands before the first slash
unfoldable pub before_slash : Bytes → Bytes
before_slash [] = []
before_slash (c ∷ k) = let rest = before_slash k in if c == slash then [] else c ∷ rest

-- A character that `sanitize_node_id` lets through. What it answers is ASCII, so that its bytes
-- are its characters, and `truncate` cuts between two of them.
allowed : ℕ → Bool
allowed c =
    (leb 48 c && leb c 57)
    || (leb 65 c && leb c 90)
    || (leb 97 c && leb c 122)
    || (c == b'.' || c == b'_' || c == b'-')

abbrev unknown_host : Bytes
unknown_host =
    b'u' ∷ b'n' ∷ b'k' ∷ b'n' ∷ b'o' ∷ b'w' ∷ b'n' ∷ b'-' ∷ b'h' ∷ b'o' ∷ b's' ∷ b't' ∷ []

-- the characters of `raw` are their code points
unfoldable pub sanitize_node_id : List ℕ → Bytes
unfolding allowed
sanitize_node_id raw =
    let s = take 63 (map (λ c. if allowed c then c else b'-') raw) in
    if any (λ c. not (c == b'-')) s then s else unknown_host

-- the row of one entry; the second argument is the key
unfoldable pub remote_row : (Bytes → Bytes) → Bytes → FedSession → SessionRow
remote_row trim key sess = record {
  id = sess.id;
  tool = sess.tool;
  project = with_node (before_slash key) sess.project;
  status = status_from_str trim sess.status;
  age_sec = sess.age_sec;
  waiting = sess.waiting;
  waiting_sec = sess.waiting_sec;
  summary = sess.summary;
}

abbrev pub Remote : Type 0 → Type 0
Remote F = Map (FedSession × F)

module _ {F : Type 0} where
  -- the loop over the pushed sessions
  unfoldable pub insert_all : Bytes → List FedSession → F → Remote F → Remote F
  insert_all node [] now g = g
  insert_all node (s ∷ ss) now g = insert_all node ss now (insert g (with_node node s.id) (s, now))

  unfoldable pub merge : FedPayload → F → Remote F → Remote F
  merge payload now g =
      let prefix = with_node payload.node [] in
      insert_all payload.node payload.sessions now (retain (λ k _. not (starts_with k prefix)) g)

  -- the prune comes first, and what is left is the store afterwards
  unfoldable pub rows : Float F → (Bytes → Bytes) → F → F → Remote F → List SessionRow × Remote F
  rows f trim now ttl g =
      let kept = retain (λ _ e. f.le (f.sub now e.1) (f.add ttl (f.milli 1))) g in
      (map (λ e. remote_row trim e.0 e.1.0) kept, kept)
