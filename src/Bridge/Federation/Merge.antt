-- ===== src/Bridge/Federation/Merge.antt =====
-- bridge/src/federation.rs: what a push changes.
use cydrust.Prelude.{
  ◌≡◌, refl, ◌≢◌, ◌∙◌, sym, ap, Bool, true, false, not, Option, none, some, List, [], ◌∷◌, arith,
  All, if◌then◌else◌, ◌==◌, Bool-cases, inl, inr,
}
use cydrust.Proto.Model.{Bytes}
use cydrust.Proto.Same.{same_list, same_bytes}
use cydrust.Proto.Reflexive.{==_refl}
use cydrust.Bridge.Map.{find, insert, retain, IsMap, same_bytes→≡}
use cydrust.Bridge.Map.Find.{keep, find-insert, find-retain, insert-IsMap, retain-IsMap}
use cydrust.Bridge.Model.{Status, working, idle, waiting, SessionRow}
use cydrust.Bridge.Federation.{
  FedSession, FedPayload, Remote, slash, with_node, starts_with, before_slash, insert_all, merge,
  remote_row, from_row, status_from_str, lower, status_to_str, working_str, idle_str, waiting_str,
}

-- the last session of a push that has the id
abbrev pub latest : List FedSession → Bytes → Option FedSession
latest [] id = none
latest (s ∷ ss) id = elim (latest ss id) [
  | some t ↦ some t
  | none ↦ if same_bytes s.id id then some s else none
]

abbrev pub stamped : {F : Type 0} → F → Option FedSession → Option (FedSession × F)
stamped now none = none
stamped now (some s) = some (s, now)

abbrev pub or_else {ℓ} : {A : Type ℓ} → Option A → Option A → Option A
or_else none o = o
or_else (some a) o = some a

-- no slash in a node's name
abbrev pub IsNode : Bytes → Type 0
IsNode node = All (λ c. (c == slash) ≡ false) node

same_bytes-with_node :
    (node a b : Bytes) → same_bytes (with_node node a) (with_node node b) ≡ same_bytes a b
unfolding same_list
same_bytes-with_node [] a b = refl
same_bytes-with_node (c ∷ node) a b = rw (==_refl c, same_bytes-with_node node a b)

starts_with-with_node :
    (node id : Bytes) → starts_with (with_node node id) (with_node node []) ≡ true
unfolding starts_with
starts_with-with_node [] id = refl
starts_with-with_node (c ∷ node) id = rw (==_refl c, starts_with-with_node node id)

-- Of a key of another node the prefix of this one is no start.
other_node :
    (other node id : Bytes)
    → IsNode other
    → IsNode node
    → starts_with (with_node other id) (with_node node []) ≡ true
    → other ≡ node
unfolding starts_with
other_node [] [] id h k e = refl
other_node [] (c ∷ node) id h k e = let f : (slash == c) ≡ true = ground arith in ground arith
other_node (d ∷ other) [] id h k e = ground arith
other_node (d ∷ other) (c ∷ node) id h k e =
    let same : d ≡ c = ground arith in
    let rest : starts_with (with_node other id) (with_node node []) ≡ true = ground arith in
    rw (same, other_node other node id h.1 k.1 rest)

before_slash-with_node : (node id : Bytes) → IsNode node → before_slash (with_node node id) ≡ node
unfolding before_slash
before_slash-with_node [] id h = refl
before_slash-with_node (c ∷ node) id h = rw (h.0, before_slash-with_node node id h.1)

or_else-none {ℓ} : {A : Type ℓ} (o : Option A) → or_else o none ≡ o
or_else-none none = refl
or_else-none (some a) = refl

keep_no {ℓ} : {A : Type ℓ} (b : Bool) (o : Option A) → b ≡ false → keep (λ _. b) o ≡ none
keep_no b none h = refl
keep_no b (some a) h = rw h

keep_yes {ℓ} : {A : Type ℓ} (b : Bool) (o : Option A) → b ≡ true → keep (λ _. b) o ≡ o
keep_yes b none h = refl
keep_yes b (some a) h = rw h

-- A key that does not start with the node's prefix is none of the node's.
differs :
    (node id k : Bytes)
    → starts_with k (with_node node []) ≡ false
    → same_bytes (with_node node id) k ≡ false
differs node id k h = elim (Bool-cases (same_bytes (with_node node id) k)) [
  | inl e ↦
      let start : starts_with k (with_node node []) ≡ true =
        ap (λ x. starts_with x (with_node node [])) (sym (same_bytes→≡ (with_node node id) k e))
        ∙ starts_with-with_node node id in
      cc
  | inr e ↦ e
]

not_other_node :
    (other node id : Bytes)
    → IsNode other
    → IsNode node
    → other ≢ node
    → starts_with (with_node other id) (with_node node []) ≡ false
not_other_node other node id h k ne =
    elim (Bool-cases (starts_with (with_node other id) (with_node node []))) [
      | inl e ↦ elim (ne (other_node other node id h k e)) [ ]
      | inr e ↦ e
    ]

module _ {F : Type 0} where
  insert_all-own :
      (node : Bytes) (ss : List FedSession) (now : F) (g : Remote F) (id : Bytes)
      → find (insert_all node ss now g) (with_node node id)
        ≡ or_else (stamped now (latest ss id)) (find g (with_node node id))
  unfolding insert_all
  insert_all-own node [] now g id = refl
  insert_all-own node (s ∷ ss) now g id =
      let rest = insert_all-own node ss now (insert g (with_node node s.id) (s, now)) id in
      let first = find-insert g (with_node node s.id) (s, now) (with_node node id) in
      let same = same_bytes-with_node node s.id id in ground arith

  insert_all-other :
      (node : Bytes) (ss : List FedSession) (now : F) (g : Remote F) (k : Bytes)
      → starts_with k (with_node node []) ≡ false
      → find (insert_all node ss now g) k ≡ find g k
  unfolding insert_all
  insert_all-other node [] now g k h = refl
  insert_all-other node (s ∷ ss) now g k h =
      let rest = insert_all-other node ss now (insert g (with_node node s.id) (s, now)) k h in
      let first = find-insert g (with_node node s.id) (s, now) k in
      rest ∙ (first ∙ rw (differs node s.id k h))

  insert_all-IsMap :
      (node : Bytes) (ss : List FedSession) (now : F) (g : Remote F)
      → IsMap g
      → IsMap (insert_all node ss now g)
  unfolding insert_all
  insert_all-IsMap node [] now g m = m
  insert_all-IsMap node (s ∷ ss) now g m =
      insert_all-IsMap node ss now _ (insert-IsMap g (with_node node s.id) (s, now) m)

  pub merge-IsMap : (p : FedPayload) (now : F) (g : Remote F) → IsMap g → IsMap (merge p now g)
  unfolding merge
  merge-IsMap p now g m = insert_all-IsMap p.node p.sessions now _ (retain-IsMap _ g m)

  -- After a push the store holds of its node exactly what the push lists: under each id the last
  -- session with that id, stamped with the time of the push, and nothing under any other id.
  pub merge_own :
      (p : FedPayload) (now : F) (g : Remote F) (id : Bytes)
      → IsMap g
      → find (merge p now g) (with_node p.node id) ≡ stamped now (latest p.sessions id)
  unfolding merge
  merge_own p now g id m =
      let key = with_node p.node id in
      let fresh = λ (k : Bytes) (_ : FedSession × F). not (starts_with k (with_node p.node [])) in
      let own = insert_all-own p.node p.sessions now (retain fresh g) id in
      let cleared = find-retain fresh g key m in
      let start = starts_with-with_node p.node id in
      own
      ∙ ap (or_else (stamped now (latest p.sessions id))) (
          cleared
          ∙ keep_no (not (starts_with key (with_node p.node []))) (find g key) (ap not start))
      ∙ or_else-none (stamped now (latest p.sessions id))

  -- A push leaves the sessions of every other node as they were, where neither name has a slash.
  pub merge_other :
      (p : FedPayload) (now : F) (g : Remote F) (other id : Bytes)
      → IsMap g
      → IsNode p.node
      → IsNode other
      → other ≢ p.node
      → find (merge p now g) (with_node other id) ≡ find g (with_node other id)
  unfolding merge
  merge_other p now g other id m hp ho ne =
      let key = with_node other id in
      let fresh = λ (k : Bytes) (_ : FedSession × F). not (starts_with k (with_node p.node [])) in
      let apart : starts_with key (with_node p.node []) ≡ false =
        not_other_node other p.node id ho hp ne in
      let own = insert_all-other p.node p.sessions now (retain fresh g) key apart in
      let cleared = find-retain fresh g key m in
      own
      ∙ cleared
      ∙ keep_yes (not (starts_with key (with_node p.node []))) (find g key) (ap not apart)

status_from_str-status_to_str :
    (trim : Bytes → Bytes) (s : Status)
    → trim working_str ≡ working_str
    → trim idle_str ≡ idle_str
    → trim waiting_str ≡ waiting_str
    → status_from_str trim (status_to_str s) ≡ s
unfolding status_from_str status_to_str lower same_list
status_from_str-status_to_str trim working tw ti ta = rw tw
status_from_str-status_to_str trim idle tw ti ta = rw ti
status_from_str-status_to_str trim waiting tw ti ta = rw ta

-- What a node pushes of a session, and the aggregator then shows of it, is the session's row with
-- the node's name before the project, where that name has no slash. It asks that `trim` leaves the
-- three names of a status alone.
pub remote_row-from_row :
    (trim : Bytes → Bytes) (node : Bytes) (row : SessionRow)
    → IsNode node
    → trim working_str ≡ working_str
    → trim idle_str ≡ idle_str
    → trim waiting_str ≡ waiting_str
    → remote_row trim (with_node node (from_row row).id) (from_row row)
      ≡ record row { project = with_node node row.project }
unfolding remote_row from_row status_to_str
remote_row-from_row trim node row h tw ti ta =
    rw
      (before_slash-with_node node row.id h, status_from_str-status_to_str trim row.status tw ti ta)
