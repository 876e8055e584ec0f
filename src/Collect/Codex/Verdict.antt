-- ===== src/Collect/Codex/Verdict.antt =====
-- bridge/src/collector_codex.rs: when a rollout waits and when it is active.
use cydrust.Prelude.{
  subst, ◌≡◌, refl, sym, ap, ◌∙◌, ◌↔◌, ◌⊎◌, inl, inr, true, false, Option, none, some, List, [],
  ◌∷◌, All, Bool-cases, Option-cases,
}
use cydrust.Proto.Model.{Bytes}
use cydrust.Proto.Same.{same_bytes, same_list}
use cydrust.Bridge.Map.{same_bytes→≡}
use cydrust.Json.{Value, get, get_str}
use cydrust.Chars.{Text, lines, trim, is_nil}
use cydrust.Collect.Claude.{parsed}
use cydrust.Collect.Codex.{
  working, done, aborted, agent, user, turn_marker, msg_kind, and_then, event_type, or_empty,
  parse_rollout,
}
use cydrust.Collect.Codex.Rollouts.{
  last_of, marker_in, kind_in, marker_of, kind_of, parse_rollout-turn,
}
use cydrust.Collect.Codex.Last.{
  started_str, complete_str, aborted_str, agent_str, user_str, Ends, All-map, last_of-none,
  none-last_of, last_of-some, some-last_of, verdict-waits, verdict-active, marker-cases, kind-cases,
  marker-same, user-agent,
}

abbrev name_in : {N : Type 0} → Option (Value N) → Option Bytes
name_in none = none
name_in (some obj) = event_type obj

module _ {N : Type 0} (from_str : Text → Option (Value N)) where
  -- the line is not blank, and is an event whose payload has this type
  abbrev pub IsEvent : Bytes → Text → Type 0
  IsEvent name line =
      (obj : Value N) × (p : Value N) × (is_nil (trim line) ≡ false)
      × (from_str (trim line) ≡ some obj)
      × (get_str obj (b't' ∷ b'y' ∷ b'p' ∷ b'e' ∷ [])
          ≡ some (b'e' ∷ b'v' ∷ b'e' ∷ b'n' ∷ b't' ∷ b'_' ∷ b'm' ∷ b's' ∷ b'g' ∷ []))
      × (get obj (b'p' ∷ b'a' ∷ b'y' ∷ b'l' ∷ b'o' ∷ b'a' ∷ b'd' ∷ []) ≡ some p)
      × (get_str p (b't' ∷ b'y' ∷ b'p' ∷ b'e' ∷ []) ≡ some name)

  -- the line begins no turn and ends none
  abbrev pub IsNoMarker : Text → Type 0
  IsNoMarker line =
      ¬ IsEvent started_str line × ¬ IsEvent complete_str line × ¬ IsEvent aborted_str line

  abbrev pub IsNoMessage : Text → Type 0
  IsNoMessage line = ¬ IsEvent agent_str line × ¬ IsEvent user_str line

  -- the name of the event of a line
  abbrev event_name : Text → Option Bytes
  event_name line = name_in (parsed from_str line)

  event_type-some :
      (obj p : Value N) (name : Bytes)
      → get_str obj (b't' ∷ b'y' ∷ b'p' ∷ b'e' ∷ [])
        ≡ some (b'e' ∷ b'v' ∷ b'e' ∷ b'n' ∷ b't' ∷ b'_' ∷ b'm' ∷ b's' ∷ b'g' ∷ [])
      → get obj (b'p' ∷ b'a' ∷ b'y' ∷ b'l' ∷ b'o' ∷ b'a' ∷ b'd' ∷ []) ≡ some p
      → get_str p (b't' ∷ b'y' ∷ b'p' ∷ b'e' ∷ []) ≡ some name
      → event_type obj ≡ some name
  unfolding event_type same_list
  event_type-some obj p name t g k = rw (t, event_type) (rw g k)

  some-event_type :
      (obj : Value N) (name : Bytes)
      → event_type obj ≡ some name
      → (p : Value N) × (get_str obj (b't' ∷ b'y' ∷ b'p' ∷ b'e' ∷ [])
          ≡ some (b'e' ∷ b'v' ∷ b'e' ∷ b'n' ∷ b't' ∷ b'_' ∷ b'm' ∷ b's' ∷ b'g' ∷ []))
        × (get obj (b'p' ∷ b'a' ∷ b'y' ∷ b'l' ∷ b'o' ∷ b'a' ∷ b'd' ∷ []) ≡ some p)
        × (get_str p (b't' ∷ b'y' ∷ b'p' ∷ b'e' ∷ []) ≡ some name)
  unfolding event_type
  some-event_type obj name h = elim (Option-cases (get_str obj (b't' ∷ b'y' ∷ b'p' ∷ b'e' ∷ []))) [
    | inl t ↦ let k : none ≡ some name = rw (t, event_type) at h in cc
    | inr (ty, t) ↦
        elim (Bool-cases
          (same_bytes ty (b'e' ∷ b'v' ∷ b'e' ∷ b'n' ∷ b't' ∷ b'_' ∷ b'm' ∷ b's' ∷ b'g' ∷ []))) [
            | inr s ↦ let k : none ≡ some name = rw (t, s, event_type) at h in cc
            | inl s ↦
                elim (Option-cases
                  (get obj (b'p' ∷ b'a' ∷ b'y' ∷ b'l' ∷ b'o' ∷ b'a' ∷ b'd' ∷ []))) [
                    | inl g ↦ let k : none ≡ some name = rw (t, s, g, event_type) at h in cc
                    | inr (p, g) ↦ (
                      p,
                      t
                          ∙ ap some (
                              same_bytes→≡ ty
                                (b'e' ∷ b'v' ∷ b'e' ∷ b'n' ∷ b't' ∷ b'_' ∷ b'm' ∷ b's' ∷ b'g' ∷ [])
                                s),
                      g,
                      rw (t, s, g, event_type) at h,
                    )
                  ]
          ]
  ]

  IsEvent-name : (name : Bytes) (line : Text) → IsEvent name line → event_name line ≡ some name
  unfolding parsed
  IsEvent-name name line (obj, p, n, e, t, g, k) = rw (n, e) (event_type-some obj p name t g k)

  name-IsEvent : (name : Bytes) (line : Text) → event_name line ≡ some name → IsEvent name line
  unfolding parsed
  name-IsEvent name line h = elim (Bool-cases (is_nil (trim line))) [
    | inl n ↦ let k : none ≡ some name = rw n at h in cc
    | inr n ↦ elim (Option-cases (from_str (trim line))) [
      | inl e ↦ let k : none ≡ some name = rw (n, e) at h in cc
      | inr (obj, e) ↦
          let k : event_type obj ≡ some name = rw (n, e) at h in
          let (p, t, g, u) = some-event_type obj name k in (obj, p, n, e, t, g, u)
    ]
  ]

  marker_lem : (o : Option (Value N)) → marker_in o ≡ and_then (name_in o) turn_marker
  marker_lem none = refl
  marker_lem (some obj) = refl

  kind_lem : (o : Option (Value N)) → kind_in o ≡ and_then (name_in o) msg_kind
  kind_lem none = refl
  kind_lem (some obj) = refl

  -- an event of a line is what a test of its name says
  named :
      (test : Bytes → Option Bytes) (name : Bytes) (line : Text)
      → IsEvent name line
      → and_then (event_name line) test ≡ test name
  named test name line h = rw (IsEvent-name name line h)

  -- a line of which the test finds a value
  found :
      (test : Bytes → Option Bytes) (m : Bytes) (line : Text)
      → and_then (event_name line) test ≡ some m
      → (name : Bytes) × IsEvent name line × (test name ≡ some m)
  found test m line h = elim (Option-cases (event_name line)) [
    | inl e ↦ let k : none ≡ some m = rw e at h in cc
    | inr (name, e) ↦ (name, name-IsEvent name line e, rw e at h)
  ]

  marker-IsEvent : (m : Bytes) (line : Text) → marker_of from_str line ≡ some m → IsEvent m line
  marker-IsEvent m line h =
      let (name, k, e) = found turn_marker m line (sym (marker_lem (parsed from_str line)) ∙ h) in
      subst (λ n. IsEvent n line) (marker-same name m e) k

  IsEvent-marker :
      (name : Bytes) (line : Text) → IsEvent name line → marker_of from_str line ≡ turn_marker name
  IsEvent-marker name line h = marker_lem (parsed from_str line) ∙ named turn_marker name line h

  IsEvent-kind :
      (name : Bytes) (line : Text) → IsEvent name line → kind_of from_str line ≡ msg_kind name
  IsEvent-kind name line h = kind_lem (parsed from_str line) ∙ named msg_kind name line h

  -- a name that the test finds excludes a line without one
  absent : (of : Option Bytes) (m : Bytes) → of ≡ none → of ≡ some m → ⊥
  absent of m h k = let f : none ≡ some m = sym h ∙ k in cc

  none-IsNoMarker : (line : Text) → marker_of from_str line ≡ none → IsNoMarker line
  unfolding turn_marker same_list
  none-IsNoMarker line h = (
    λ k. absent (marker_of from_str line) working h (IsEvent-marker started_str line k),
    λ k. absent (marker_of from_str line) done h (IsEvent-marker complete_str line k),
    λ k. absent (marker_of from_str line) aborted h (IsEvent-marker aborted_str line k),
  )

  IsNoMarker-none : (line : Text) → IsNoMarker line → marker_of from_str line ≡ none
  IsNoMarker-none line (a, b, c) = elim (Option-cases (marker_of from_str line)) [
    | inl e ↦ e
    | inr (m, e) ↦
        let (name, k, t) = found turn_marker m line (sym (marker_lem (parsed from_str line)) ∙ e) in
        elim (marker-cases name) [
          | inl (n, u) ↦ elim (a (subst (λ x. IsEvent x line) n k)) [ ]
          | inr (inl (n, u)) ↦ elim (b (subst (λ x. IsEvent x line) n k)) [ ]
          | inr (inr (inl (n, u))) ↦ elim (c (subst (λ x. IsEvent x line) n k)) [ ]
          | inr (inr (inr u)) ↦ elim (absent (turn_marker name) m u t) [ ]
        ]
  ]

  none-IsNoMessage : (line : Text) → kind_of from_str line ≡ none → IsNoMessage line
  unfolding msg_kind same_list
  none-IsNoMessage line h = (
    λ k. absent (kind_of from_str line) agent h (IsEvent-kind agent_str line k),
    λ k. absent (kind_of from_str line) user h (IsEvent-kind user_str line k),
  )

  IsNoMessage-none : (line : Text) → IsNoMessage line → kind_of from_str line ≡ none
  IsNoMessage-none line (a, b) = elim (Option-cases (kind_of from_str line)) [
    | inl e ↦ e
    | inr (m, e) ↦
        let (name, k, t) = found msg_kind m line (sym (kind_lem (parsed from_str line)) ∙ e) in
        elim (kind-cases name) [
          | inl (n, u) ↦ elim (a (subst (λ x. IsEvent x line) n k)) [ ]
          | inr (inl (n, u)) ↦ elim (b (subst (λ x. IsEvent x line) n k)) [ ]
          | inr (inr u) ↦ elim (absent (msg_kind name) m u t) [ ]
        ]
  ]

  kind-agent : (line : Text) → kind_of from_str line ≡ some agent → IsEvent agent_str line
  kind-agent line h =
      let (name, k, t) = found msg_kind agent line (sym (kind_lem (parsed from_str line)) ∙ h) in
      elim (kind-cases name) [
        | inl (n, u) ↦ subst (λ x. IsEvent x line) n k
        | inr (inl (n, u)) ↦ let f : some user ≡ some agent = sym u ∙ t in elim (user-agent f) [ ]
        | inr (inr u) ↦ elim (absent (msg_kind name) agent u t) [ ]
      ]

  kind-user : (line : Text) → kind_of from_str line ≡ some user → IsEvent user_str line
  kind-user line h =
      let (name, k, t) = found msg_kind user line (sym (kind_lem (parsed from_str line)) ∙ h) in
      elim (kind-cases name) [
        | inl (n, u) ↦ elim (user-agent (sym t ∙ u)) [ ]
        | inr (inl (n, u)) ↦ subst (λ x. IsEvent x line) n k
        | inr (inr u) ↦ elim (absent (msg_kind name) user u t) [ ]
      ]

  last-marker :
      (m : Bytes) (ls : List Text)
      → turn_marker m ≡ some m
      → (last_of (marker_of from_str) ls ≡ some m) ↔ Ends (IsEvent m) IsNoMarker ls
  last-marker m ls own = (
    λ h.
        let (b, l, a, e, p, q) = last_of-some (marker_of from_str) m ls h in
        (b, l, a, e, marker-IsEvent m l p, All-map _ _ a none-IsNoMarker q),
    λ (b, l, a, e, p, q). rw e (
        some-last_of (marker_of from_str) m b l a (IsEvent-marker m l p ∙ own)
          (All-map _ _ a IsNoMarker-none q)),
  )

  no_marker : (ls : List Text) → (last_of (marker_of from_str) ls ≡ none) ↔ All IsNoMarker ls
  no_marker ls = (
    λ h. All-map _ _ ls none-IsNoMarker (last_of-none (marker_of from_str) ls h),
    λ a. none-last_of (marker_of from_str) ls (All-map _ _ ls IsNoMarker-none a),
  )

  last-agent :
      (ls : List Text)
      → (last_of (kind_of from_str) ls ≡ some agent) ↔ Ends (IsEvent agent_str) IsNoMessage ls
  unfolding msg_kind same_list
  last-agent ls = (
    λ h.
        let (b, l, a, e, p, q) = last_of-some (kind_of from_str) agent ls h in
        (b, l, a, e, kind-agent l p, All-map _ _ a none-IsNoMessage q),
    λ (b, l, a, e, p, q). rw e (
        some-last_of (kind_of from_str) agent b l a (IsEvent-kind agent_str l p)
          (All-map _ _ a IsNoMessage-none q)),
  )

  last-user :
      (ls : List Text)
      → (last_of (kind_of from_str) ls ≡ some user) ↔ Ends (IsEvent user_str) IsNoMessage ls
  unfolding msg_kind same_list
  last-user ls = (
    λ h.
        let (b, l, a, e, p, q) = last_of-some (kind_of from_str) user ls h in
        (b, l, a, e, kind-user l p, All-map _ _ a none-IsNoMessage q),
    λ (b, l, a, e, p, q). rw e (
        some-last_of (kind_of from_str) user b l a (IsEvent-kind user_str l p)
          (All-map _ _ a IsNoMessage-none q)),
  )

  -- the last marker has this name; or there is no marker, and the last message is of this kind
  abbrev pub Decided : Bytes → Bytes → List Text → Type 0
  Decided marker message ls =
      Ends (IsEvent marker) IsNoMarker ls
      ⊎ (All IsNoMarker ls × Ends (IsEvent message) IsNoMessage ls)

either : {A B C X Y Z : Type 0} → A ↔ X → B ↔ Y → C ↔ Z → (A ⊎ (B × C)) ↔ (X ⊎ (Y × Z))
either f g h = (
  λ c. elim c [ inl a ↦ inl (f.0 a) | inr (b, d) ↦ inr (g.0 b, h.0 d) ],
  λ c. elim c [ inl a ↦ inl (f.1 a) | inr (b, d) ↦ inr (g.1 b, h.1 d) ],
)

after : {A B C : Type 0} → A ↔ B → B ↔ C → A ↔ C
after f g = (λ a. g.0 (f.0 a), λ c. f.1 (g.1 c))

module _ {N : Type 0} (decode : Bytes → Text) (from_str : Text → Option (Value N)) where
  -- A rollout waits exactly where its last event of `task_started`, `task_complete` and
  -- `turn_aborted` is `task_complete`, or where it has none of them and its last message is the
  -- agent's; it is active exactly where the last of them is `task_started`, or where it has none
  -- and its last message is the user's.
  pub parse_rollout_iff :
      (stem raw : Option Bytes)
      → (((parse_rollout decode from_str stem raw).waiting ≡ true)
          ↔ Decided from_str complete_str agent_str (lines (decode (or_empty raw))))
        × (((parse_rollout decode from_str stem raw).active ≡ true)
            ↔ Decided from_str started_str user_str (lines (decode (or_empty raw))))
  unfolding turn_marker same_list
  parse_rollout_iff stem raw =
      let ls = lines (decode (or_empty raw)) in
      let m = last_of (marker_of from_str) ls in
      let k = last_of (kind_of from_str) ls in
      let v = (parse_rollout-turn decode from_str stem raw).0 in
      (
        after
            (subst (λ b. (b ≡ true) ↔ ((m ≡ some done) ⊎ ((m ≡ none) × (k ≡ some agent))))
              (sym (ap (λ x. x.0) v)) (verdict-waits m k))
            (either (last-marker from_str complete_str ls refl) (no_marker from_str ls)
              (last-agent from_str ls)),
        after
            (subst (λ b. (b ≡ true) ↔ ((m ≡ some working) ⊎ ((m ≡ none) × (k ≡ some user))))
              (sym (ap (λ x. x.1) v)) (verdict-active m k))
            (either (last-marker from_str started_str ls refl) (no_marker from_str ls)
              (last-user from_str ls)),
      )
