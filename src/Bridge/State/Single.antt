-- ===== src/Bridge/State/Single.antt =====
-- bridge/src/state.rs: the store seen from one session.
use cydrust.Prelude.{
  ◌≡◌, refl, ◌∙◌, ap, true, false, Option, none, some, List, [], ◌∷◌, arith, if◌then◌else◌,
}
use cydrust.Proto.Model.{Bytes}
use cydrust.Proto.Same.{same_bytes}
use cydrust.Bridge.Map.{Map, find, IsMap, same_bytes→≡}
use cydrust.Bridge.Map.Find.{
  keep, map_option, find-insert, find-modify, find-retain, insert-IsMap, modify-IsMap, retain-IsMap,
}
use cydrust.Bridge.Model.{Float, Session}
use cydrust.Bridge.State.{
  Inner, Op, upsert_op, mark_op, ack_op, remove_gone_op, refreshed, or_insert, upsert, mark_waiting,
  ack, is_live, remove_gone, apply, apply_ops,
}

module _ {F : Type 0} (f : Float F) where
  -- the life of the session `k` alone: what a call does to it
  abbrev pub live_on : Bytes → Op F → Option (Session F) → Option (Session F)
  live_on k (upsert_op s now) none = if same_bytes s.id k then some (refreshed f s s) else none
  live_on k (upsert_op s now) (some old) =
      if same_bytes s.id k then some (refreshed f s old) else some old
  live_on k (mark_op id ts) o =
      if same_bytes id k
      then map_option (λ s. record s { waiting = true; waiting_since = some ts }) o
      else o
  live_on k (ack_op id) o =
      if same_bytes id k
      then map_option (λ s. record s { waiting = false; waiting_since = none }) o
      else o
  live_on k (remove_gone_op now ttl) o = keep (is_live f now ttl) o

  abbrev pub live_through : Bytes → List (Op F) → Option (Session F) → Option (Session F)
  live_through k [] o = o
  live_through k (op ∷ ops) o = live_through k ops (live_on k op o)

  find-or_insert :
      (m : Map (Session F)) (k : Bytes) (v : Session F) (j : Bytes)
      → find (or_insert f m k v) j
        ≡ (if same_bytes k j then elim (find m k) [ none ↦ some v | some w ↦ some w ] else find m j)
  unfolding or_insert
  find-or_insert m k v j =
      let inserted = find-insert m k v j in
      let same : same_bytes k j ≡ true → find m k ≡ find m j =
        λ e. ap (find m) (same_bytes→≡ k j e) in
      ground arith

  or_insert-IsMap :
      (m : Map (Session F)) (k : Bytes) (v : Session F) → IsMap m → IsMap (or_insert f m k v)
  unfolding or_insert
  or_insert-IsMap m k v h = let inserted = insert-IsMap m k v h in ground arith

  apply-IsMap : (op : Op F) (g : Inner F) → IsMap g.sessions → IsMap (apply f op g).sessions
  unfolding apply upsert mark_waiting ack remove_gone
  apply-IsMap (upsert_op s now) g h =
      modify-IsMap (or_insert f g.sessions s.id s) s.id (refreshed f s)
        (or_insert-IsMap g.sessions s.id s h)
  apply-IsMap (mark_op id ts) g h = modify-IsMap g.sessions id _ h
  apply-IsMap (ack_op id) g h = modify-IsMap g.sessions id _ h
  apply-IsMap (remove_gone_op now ttl) g h = retain-IsMap _ g.sessions h

  find-upsert :
      (s : Session F) (now : F) (g : Inner F) (k : Bytes)
      → find (upsert f s now g).sessions k ≡ live_on k (upsert_op s now) (find g.sessions k)
  unfolding upsert
  find-upsert s now g k =
      let known = or_insert f g.sessions s.id s in
      let written = find-modify known s.id (refreshed f s) k in
      let entered = find-or_insert g.sessions s.id s k in
      let same : same_bytes s.id k ≡ true → find g.sessions s.id ≡ find g.sessions k =
        λ e. ap (find g.sessions) (same_bytes→≡ s.id k e) in
      ground arith

  find-apply :
      (op : Op F) (g : Inner F) (k : Bytes)
      → IsMap g.sessions
      → find (apply f op g).sessions k ≡ live_on k op (find g.sessions k)
  unfolding apply mark_waiting ack remove_gone
  find-apply (upsert_op s now) g k h = find-upsert s now g k
  find-apply (mark_op id ts) g k h = find-modify g.sessions id _ k
  find-apply (ack_op id) g k h = find-modify g.sessions id _ k
  find-apply (remove_gone_op now ttl) g k h = find-retain _ g.sessions k h

  -- After any sequence of calls on a store without a double key, each session is what the calls
  -- make of it alone, whatever the other sessions and the order of the map, and no key is double.
  pub apply_ops-live_through :
      (ops : List (Op F)) (g : Inner F) (k : Bytes)
      → IsMap g.sessions
      → (find (apply_ops f ops g).sessions k ≡ live_through k ops (find g.sessions k))
        × IsMap (apply_ops f ops g).sessions
  apply_ops-live_through [] g k h = (refl, h)
  apply_ops-live_through (op ∷ ops) g k h =
      let (e, m) = apply_ops-live_through ops (apply f op g) k (apply-IsMap op g h) in
      (e ∙ ap (live_through k ops) (find-apply op g k h), m)
