-- ===== src/Bridge/Hub/Kept.antt =====
-- bridge/src/hub.rs: what every sequence of requests keeps, and what a hook does to its session.
use cydrust.Prelude.{◌≡◌, refl, ◌∙◌, Bool, false, Option, none, some, List, [], ◌∷◌, if_both}
use cydrust.Proto.Model.{Bytes}
use cydrust.Proto.Same.{same_list, same_bytes}
use cydrust.Proto.Reflexive.{same_bytes_refl}
use cydrust.Bridge.Map.{find, IsMap}
use cydrust.Bridge.Map.Find.{map_option, find-modify, modify-IsMap, retain-IsMap}
use cydrust.Bridge.Model.{Float, Session}
use cydrust.Bridge.State.{Inner, mark_waiting, ack}
use cydrust.Bridge.Federation.{rows}
use cydrust.Bridge.Federation.Merge.{merge-IsMap}
use cydrust.Bridge.Hub.{
  App, HookBody, Request, get_state, get_metrics, post_ack, post_hook, post_ingest, StatusCode,
  notification_str, stop_str, or_default, by_event, hook_handler, handle, check_token, serve, Call,
  serve_all,
}

-- neither of the two maps has a double key
pub record IsApp {F : Type 0} (app : App F) : Type 0 where
  pub store : IsMap app.store.sessions
  pub remote : IsMap app.remote

-- the session is gone or does not wait
abbrev pub Calm : {F : Type 0} → Option (Session F) → Type 0
Calm none = Unit
Calm (some s) = (s.waiting ≡ false) × (s.waiting_since ≡ none)

module _ {F : Type 0} (f : Float F) where
  by_event-IsMap :
      (event : Bytes) (now : F) (id : Bytes) (g : Inner F)
      → IsMap g.sessions
      → IsMap (by_event f event now id g).sessions
  unfolding by_event mark_waiting ack
  by_event-IsMap event now id g h =
      let good = λ (x : Inner F). IsMap x.sessions in
      if_both good (same_bytes event notification_str) (modify-IsMap g.sessions id _ h)
        (if_both good (same_bytes event stop_str) (modify-IsMap g.sessions id _ h) h)

  hook_handler-IsMap :
      (body : HookBody) (now : F) (g : Inner F)
      → IsMap g.sessions
      → IsMap (hook_handler f body now g).sessions
  unfolding hook_handler
  hook_handler-IsMap body now g h =
      let id = or_default body.id body.session_id in
      if_both (λ (x : Inner F). IsMap x.sessions) (same_bytes id []) h
        (by_event-IsMap (or_default body.event body.hook_event_name) now id g h)

  handle-IsApp :
      (trim : Bytes → Bytes) (now : F) (req : Request) (app : App F)
      → IsApp app
      → IsApp (handle f trim now req app)
  unfolding handle rows ack
  handle-IsApp trim now get_state app h = record {
    store = h.store;
    remote = retain-IsMap _ app.remote h.remote;
  }
  handle-IsApp trim now get_metrics app h = h
  handle-IsApp trim now (post_ack id) app h = record {
    store = modify-IsMap app.store.sessions id _ h.store;
    remote = h.remote;
  }
  handle-IsApp trim now (post_hook body) app h = record {
    store = hook_handler-IsMap body now app.store h.store;
    remote = h.remote;
  }
  handle-IsApp trim now (post_ingest payload) app h = record {
    store = h.store;
    remote = merge-IsMap payload now app.remote h.remote;
  }

  serve-IsApp :
      (ct_eq : Bytes → Bytes → Bool) (trim : Bytes → Bytes) (now : F) (header : Option Bytes)
      (req : Request) (app : App F)
      → IsApp app
      → IsApp (serve f ct_eq trim now header req app).1
  unfolding serve
  serve-IsApp ct_eq trim now header req app h =
      if_both (λ (x : StatusCode × App F). IsApp x.1) (check_token ct_eq header app.token)
        (handle-IsApp trim now req app h) h

  -- No sequence of requests, with the token or without it, makes a session or a remote session
  -- occur twice.
  pub serve_all-IsApp :
      (ct_eq : Bytes → Bytes → Bool) (trim : Bytes → Bytes) (calls : List (Call F)) (app : App F)
      → IsApp app
      → IsApp (serve_all f ct_eq trim calls app)
  serve_all-IsApp ct_eq trim [] app h = h
  serve_all-IsApp ct_eq trim (c ∷ calls) app h =
      serve_all-IsApp ct_eq trim calls _ (serve-IsApp ct_eq trim c.now c.header c.req app h)

  map_option-Calm :
      (o : Option (Session F))
      → Calm (map_option (λ s. record s { waiting = false; waiting_since = none }) o)
  map_option-Calm none = tt
  map_option-Calm (some s) = (refl, refl)

  stopped :
      (body : HookBody) (now : F) (g : Inner F) (k : Bytes)
      → or_default body.id body.session_id ≡ k
      → or_default body.event body.hook_event_name ≡ stop_str
      → same_bytes k [] ≡ false
      → hook_handler f body now g ≡ ack f k g
  unfolding hook_handler by_event same_list
  stopped body now g k e s some_id = rw (e, s, some_id)

  -- After a hook that reports a stop of session `k`, under either spelling of its fields, `k` does
  -- not wait, and any other session is as it was.
  pub hook_stop :
      (body : HookBody) (now : F) (g : Inner F) (k j : Bytes)
      → or_default body.id body.session_id ≡ k
      → or_default body.event body.hook_event_name ≡ stop_str
      → same_bytes k [] ≡ false
      → same_bytes k j ≡ false
      → Calm (find (hook_handler f body now g).sessions k)
        × (find (hook_handler f body now g).sessions j ≡ find g.sessions j)
  unfolding ack
  hook_stop body now g k j e s some_id other =
      let own =
        find-modify g.sessions k (λ s. record s { waiting = false; waiting_since = none }) k in
      let others =
        find-modify g.sessions k (λ s. record s { waiting = false; waiting_since = none }) j in
      let same = same_bytes_refl k in
      rw (stopped body now g k e s some_id)
        (rw (own, same) (map_option-Calm (find g.sessions k)), others ∙ rw other)
