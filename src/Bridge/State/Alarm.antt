-- ===== src/Bridge/State/Alarm.antt =====
-- bridge/src/state.rs: the flag of a session that waits, over sequences of calls.
use cydrust.Prelude.{◌≡◌, refl, Bool, true, false, Option, none, some, List, [], ◌∷◌, arith, All}
use cydrust.Proto.Model.{Bytes}
use cydrust.Proto.Same.{same_bytes}
use cydrust.Proto.Reflexive.{same_bytes_refl}
use cydrust.Bridge.Map.{find, IsMap}
use cydrust.Bridge.Model.{Float, Session}
use cydrust.Bridge.State.{Inner, Op, upsert_op, mark_op, ack_op, remove_gone_op, apply_ops}
use cydrust.Bridge.State.Single.{live_on, live_through, apply_ops-live_through}

abbrev pub is_some {ℓ} : {A : Type ℓ} → Option A → Bool
is_some none = false
is_some (some _) = true

module _ {F : Type 0} where
  -- a call that does not end the wait of session `k`: a scan, a mark, the ack of another session
  abbrev pub Quiet : Bytes → Op F → Type 0
  Quiet k (upsert_op s now) = Unit
  Quiet k (mark_op id ts) = Unit
  Quiet k (ack_op id) = same_bytes id k ≡ false
  Quiet k (remove_gone_op now ttl) = ⊥

  -- the session is there and waits
  abbrev pub Waits : Option (Session F) → Type 0
  Waits none = ⊥
  Waits (some s) = s.waiting ≡ true

  -- a session that waits knows since when, and no other does
  abbrev pub Coherent : Option (Session F) → Type 0
  Coherent none = Unit
  Coherent (some s) = s.waiting ≡ is_some s.waiting_since

  -- a scan reports a coherent session
  abbrev pub Reports : Op F → Type 0
  Reports (upsert_op s now) = Coherent (some s)
  Reports _ = Unit

module _ {F : Type 0} (f : Float F) where
  live_on-Waits :
      (k : Bytes) (op : Op F) (o : Option (Session F))
      → Quiet k op
      → Waits o
      → Waits (live_on f k op o)
  live_on-Waits k (upsert_op s now) (some old) q w = ground arith
  live_on-Waits k (mark_op id ts) (some old) q w = ground arith
  live_on-Waits k (ack_op id) (some old) q w = ground arith
  live_on-Waits k (remove_gone_op now ttl) (some old) q w = elim q [ ]
  live_on-Waits k op none q w = elim w [ ]

  pub live_through-Waits :
      (k : Bytes) (ops : List (Op F)) (o : Option (Session F))
      → All (Quiet k) ops
      → Waits o
      → Waits (live_through f k ops o)
  live_through-Waits k [] o q w = w
  live_through-Waits k (op ∷ ops) o q w =
      live_through-Waits k ops (live_on f k op o) q.1 (live_on-Waits k op o q.0 w)

  live_on-Coherent :
      (k : Bytes) (op : Op F) (o : Option (Session F))
      → Reports op
      → Coherent o
      → Coherent (live_on f k op o)
  live_on-Coherent k (upsert_op s now) none r c = ground arith
  live_on-Coherent k (upsert_op s now) (some old) r c = ground arith
  live_on-Coherent k (mark_op id ts) none r c = ground arith
  live_on-Coherent k (mark_op id ts) (some old) r c = ground arith
  live_on-Coherent k (ack_op id) none r c = ground arith
  live_on-Coherent k (ack_op id) (some old) r c = ground arith
  live_on-Coherent k (remove_gone_op now ttl) none r c = c
  live_on-Coherent k (remove_gone_op now ttl) (some old) r c = ground arith

  live_through-Coherent :
      (k : Bytes) (ops : List (Op F)) (o : Option (Session F))
      → All Reports ops
      → Coherent o
      → Coherent (live_through f k ops o)
  live_through-Coherent k [] o r c = c
  live_through-Coherent k (op ∷ ops) o r c =
      live_through-Coherent k ops (live_on f k op o) r.1 (live_on-Coherent k op o r.0 c)

  -- Once the session `k` of the store is marked, it waits through any sequence of scans, marks and
  -- acknowledgements of other sessions.
  pub alarm_kept :
      (k : Bytes) (ts : F) (s : Session F) (ops : List (Op F)) (g : Inner F)
      → IsMap g.sessions
      → find g.sessions k ≡ some s
      → All (Quiet k) ops
      → Waits (find (apply_ops f (mark_op k ts ∷ ops) g).sessions k)
  alarm_kept k ts s ops g m e q =
      let (r, _) = apply_ops-live_through f (mark_op k ts ∷ ops) g k m in
      let marked : live_on f k (mark_op k ts) (some s)
          ≡ some (record s { waiting = true; waiting_since = some ts }) =
        rw (same_bytes_refl k) in
      rw (r, e) (live_through-Waits k ops (live_on f k (mark_op k ts) (some s)) q (rw marked refl))

  -- From a coherent store on, where the scans report coherent sessions, a session waits after any
  -- sequence of calls exactly when it knows since when.
  pub apply_ops-Coherent :
      (k : Bytes) (ops : List (Op F)) (g : Inner F)
      → IsMap g.sessions
      → Coherent (find g.sessions k)
      → All Reports ops
      → Coherent (find (apply_ops f ops g).sessions k)
  apply_ops-Coherent k ops g m c r =
      let (e, _) = apply_ops-live_through f ops g k m in
      rw e (live_through-Coherent k ops (find g.sessions k) r c)
