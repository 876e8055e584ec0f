-- ===== src/Bridge/Hub.antt =====
-- bridge/src/hub.rs: the routes of the hub, their guard, and what they change. The bodies of the
-- answers to `/state` and `/metrics` are in child modules; the crate `subtle` compares the tokens.
pub mod Guard
pub mod Kept
pub mod Answer
pub mod Exposition
mod Examples
use cydrust.Prelude.{ℕ, Bool, true, false, Option, none, some, List, [], ◌∷◌, if◌then◌else◌}
use cydrust.Proto.Model.{Bytes}
use cydrust.Proto.Same.{same_bytes}
use cydrust.Bridge.Model.{Float}
use cydrust.Bridge.State.{Inner, mark_waiting, ack}
use cydrust.Bridge.Federation.{FedPayload, Remote, merge, rows}

pub record App (F : Type 0) : Type 0 where
  pub store : Inner F
  pub token : Bytes
  pub remote : Remote F

pub record HookBody : Type 0 where
  pub id : Option Bytes
  pub event : Option Bytes
  pub session_id : Option Bytes
  pub hook_event_name : Option Bytes

pub data Request : Type 0 where
  get_state get_metrics : Request
  post_ack : Bytes → Request
  post_hook : HookBody → Request
  post_ingest : FedPayload → Request

pub data StatusCode : Type 0 where
  ok_200 unauthorized : StatusCode

abbrev pub notification_str : Bytes
notification_str =
    b'N' ∷ b'o' ∷ b't' ∷ b'i' ∷ b'f' ∷ b'i' ∷ b'c' ∷ b'a' ∷ b't' ∷ b'i' ∷ b'o' ∷ b'n' ∷ []

abbrev pub stop_str : Bytes
stop_str = b'S' ∷ b't' ∷ b'o' ∷ b'p' ∷ []

-- `a.or(b).unwrap_or_default()`
abbrev pub or_default : Option Bytes → Option Bytes → Bytes
or_default (some a) b = a
or_default none (some b) = b
or_default none none = []

-- the header is `none` where it is missing or no text
unfoldable pub check_token : (Bytes → Bytes → Bool) → Option Bytes → Bytes → Bool
check_token ct_eq none token = false
check_token ct_eq (some t) token = ct_eq t token

module _ {F : Type 0} (f : Float F) where
  -- `match event.as_str()`
  by_event : Bytes → F → Bytes → Inner F → Inner F
  by_event event now id g =
      if same_bytes event notification_str
      then mark_waiting f id now g
      else if same_bytes event stop_str
      then ack f id g
      else g

  unfoldable pub hook_handler : HookBody → F → Inner F → Inner F
  unfolding by_event
  hook_handler body now g =
      let id = or_default body.id body.session_id in
      let event = or_default body.event body.hook_event_name in
      if same_bytes id [] then g else by_event event now id g

  -- What a route changes. `/state` drops the remote sessions that are older than 30 seconds.
  unfoldable pub handle : (Bytes → Bytes) → F → Request → App F → App F
  handle trim now get_state app = record app {
    remote = (rows f trim now (f.milli 30000) app.remote).1;
  }
  handle trim now get_metrics app = app
  handle trim now (post_ack id) app = record app { store = ack f id app.store }
  handle trim now (post_hook body) app = record app { store = hook_handler body now app.store }
  handle trim now (post_ingest payload) app = record app { remote = merge payload now app.remote }

  -- a request through the guard `require_token`
  unfoldable pub serve :
      (Bytes → Bytes → Bool)
      → (Bytes → Bytes)
      → F
      → Option Bytes
      → Request
      → App F
      → StatusCode × App F
  unfolding check_token
  serve ct_eq trim now header req app =
      if check_token ct_eq header app.token
      then (ok_200, handle trim now req app)
      else (unauthorized, app)

-- a request, its header, and the time at which it is served
pub record Call (F : Type 0) : Type 0 where
  pub now : F
  pub header : Option Bytes
  pub req : Request

module _ {F : Type 0} (f : Float F) (ct_eq : Bytes → Bytes → Bool) (trim : Bytes → Bytes) where
  abbrev pub serve_all : List (Call F) → App F → App F
  serve_all [] app = app
  serve_all (c ∷ cs) app = serve_all cs (serve f ct_eq trim c.now c.header c.req app).1
